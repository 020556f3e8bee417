-- ===== src/Core/Arena/Apart.antt =====
-- The blocks of an arena.
use native.Mathlib.Nat.{div-add-mod, mod-lt, mod-eq_of_lt, mul-mod_left}
use affini_x.Base.{
  ℕ, ◌+◌, ◌-◌, ◌/◌, ◌%◌, ◌^◌, ◌≡◌, ◌≤◌, ◌<◌, refl, Option, none, some, false, ltb, if_cases, arith,
}
use affini_x.Core.Arena.{Arena, align_up, alloc}

-- What an answer promises: the block is aligned, begins where the blocks before it end or after it, ends
-- within the region, and is not given again.
abbrev pub Given : ℕ → ℕ → Arena → Option ℕ × Arena → Type 0
Given n align a (none, a') = a' ≡ a
Given n align a (some al, a') =
    (al % align ≡ 0)
    × (a.base + a.off ≤ al)
    × (al + n ≡ a.base + a'.off)
    × (a'.off ≤ a.size)
    × (a'.base ≡ a.base)

align_up-le : (cur align : ℕ) → 0 < align → cur ≤ align_up cur align
align_up-le cur align h =
    omega (arith, div-add-mod (cur + align - 1) align, mod-lt (cur + align - 1) h)

align_up-mod : (cur align : ℕ) → 0 < align → align_up cur align % align ≡ 0
align_up-mod cur align h = mul-mod_left ((cur + align - 1) / align) align

align_up-lt : (cur align : ℕ) → 0 < align → align_up cur align < cur + align
align_up-lt cur align h =
    omega (arith, div-add-mod (cur + align - 1) align, mod-lt (cur + align - 1) h)

-- In a region whose end is far from the end of the address space: an answer is a block, or the arena is left
-- as it was.
pub alloc-Given :
    (n align : ℕ) (a : Arena)
    → 0 < align
    → a.off ≤ a.size
    → a.base + a.size + align + n < 2 ^ 64
    → Given n align a (alloc n align a)
unfolding alloc
alloc-Given n align a h k w =
    let al = align_up (a.base + a.off) align in
    let next = (al - a.base + n) % 2 ^ 64 in
    let lo = align_up-le (a.base + a.off) align h in
    let hi = align_up-lt (a.base + a.off) align h in
    let plain : next ≡ al - a.base + n = mod-eq_of_lt (omega (arith, lo, hi, w, k)) in
    if_cases (Given n align a) (ltb a.size next) (none, a) (some al, record a { off = next })
      (λ e. refl)
      (λ e. (
        align_up-mod (a.base + a.off) align h,
        lo,
        omega (arith, plain, lo),
        not_more a.size next e,
        refl,
      ))
  where
    not_more : (m x : ℕ) → ltb m x ≡ false → x ≤ m
    not_more m x e = ground arith
