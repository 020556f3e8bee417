-- ===== src/Itc/SpscRing/Window.antt =====
-- The items between two positions of a ring.
use native.Mathlib.Nat.{mod-add-mod, mod-eq_of_lt, mod-eq-sub-mod, mod-lt}
use affini_x.Base.{
  ℕ, zero, suc, ◌+◌, ◌-◌, ◌%◌, ◌≤◌, ◌<◌, ◌≡◌, refl, sym, ap, ap₂, ◌∙◌, ◌≢◌, List, [], ◌∷◌, ◌++◌,
  arith, length, get_or, set, slice, take, drop, dec_lt,
}

module _ (buf : List ℕ) (cap : ℕ) where
  abbrev pub window : ℕ → ℕ → List ℕ
  window pos zero = []
  window pos (suc n) = get_or buf (pos % cap) 0 ∷ window (pos + 1) n

  pub length-window : (pos n : ℕ) → length (window pos n) ≡ n
  length-window pos zero = refl
  length-window pos (suc n) = ap suc (length-window (pos + 1) n)

  -- Only the remainder of the position counts.
  pub window_cong : (p q n : ℕ) → p % cap ≡ q % cap → window p n ≡ window q n
  window_cong p q zero e = refl
  window_cong p q (suc n) e = ap₂ ◌∷◌ (ap (λ i. get_or buf i 0) e) (
      window_cong (p + 1) (q + 1) n
        (sym (mod-add-mod p cap 1) ∙ ap (λ r. (r + 1) % cap) e ∙ mod-add-mod q cap 1))

  pub take-window : (k pos n : ℕ) → k ≤ n → take k (window pos n) ≡ window pos k
  take-window zero pos n h = refl
  take-window (suc k) pos zero h = absurd (omega arith)
  take-window (suc k) pos (suc n) h =
      ap (◌∷◌ (get_or buf (pos % cap) 0)) (take-window k (pos + 1) n (omega arith))

  pub drop-window :
      (k pos n m p' : ℕ) → n ≡ k + m → p' ≡ pos + k → drop k (window pos n) ≡ window p' m
  drop-window zero pos n m p' e f = ap₂ window (omega arith) (omega arith)
  drop-window (suc k) pos zero m p' e f = absurd (omega arith)
  drop-window (suc k) pos (suc n) m p' e f =
      drop-window k (pos + 1) n m p' (omega arith) (omega arith)

-- Fewer than `cap` steps do not come back to the same index.
pub mod_ne : (cap pos k : ℕ) → 0 < k → k < cap → (pos + k) % cap ≢ pos % cap
mod_ne cap pos k lo hi e =
    let r = pos % cap in
    let small : r < cap = mod-lt pos (omega arith) in
    let e' : (r + k) % cap ≡ r = mod-add-mod pos cap k ∙ e in
    elim (dec_lt (r + k) cap) [
      | yes p ↦ omega (arith, mod-eq_of_lt p, e')
      | no p ↦ omega (
        arith,
        mod-eq-sub-mod {n = r + k} {m = cap} (omega arith),
        mod-eq_of_lt {n = r + k - cap} {m = cap} (omega arith),
        e',
      )
    ]

pub get_or-set_self : (xs : List ℕ) (i v : ℕ) → i < length xs → get_or (set xs i v) i 0 ≡ v
get_or-set_self [] i v h = absurd (omega arith)
get_or-set_self (x ∷ xs) zero v h = refl
get_or-set_self (x ∷ xs) (suc i) v h = get_or-set_self xs i v (omega arith)

pub get_or-set_ne : (xs : List ℕ) (i j v : ℕ) → i ≢ j → get_or (set xs i v) j 0 ≡ get_or xs j 0
get_or-set_ne [] i j v h = refl
get_or-set_ne (x ∷ xs) zero zero v h = absurd (h refl)
get_or-set_ne (x ∷ xs) zero (suc j) v h = refl
get_or-set_ne (x ∷ xs) (suc i) zero v h = refl
get_or-set_ne (x ∷ xs) (suc i) (suc j) v h = get_or-set_ne xs i j v (λ e. h (ap suc e))

shift_zero : (pos cap : ℕ) → (pos + 0) % cap ≡ pos % cap
shift_zero pos cap = ap (λ k. k % cap) (plain pos)
  where
    plain : (n : ℕ) → n + 0 ≡ n
    plain n = omega arith

shift_suc : (pos n cap : ℕ) → (pos + suc n) % cap ≡ (pos + 1 + n) % cap
shift_suc pos n cap = ap (λ k. k % cap) (moved pos n)
  where
    moved : (a b : ℕ) → a + suc b ≡ a + 1 + b
    moved a b = omega arith

-- An item written behind the window extends it.
pub window-set :
    (buf : List ℕ) (cap pos n v i : ℕ)
    → length buf ≡ cap
    → n < cap
    → i ≡ (pos + n) % cap
    → window (set buf i v) cap pos (suc n) ≡ window buf cap pos n ++ v ∷ []
window-set buf cap pos zero v i l h e =
    let e' : i ≡ pos % cap = e ∙ shift_zero pos cap in
    let inside : pos % cap < length buf = omega (arith, mod-lt pos {m = cap} h) in
    ap (λ x. x ∷ [])
      (ap (λ k. get_or (set buf k v) (pos % cap) 0) e' ∙ get_or-set_self buf (pos % cap) v inside)
window-set buf cap pos (suc n) v i l h e =
    ap₂ ◌∷◌
      (get_or-set_ne buf i (pos % cap) v
        (λ same. mod_ne cap pos (suc n) (omega arith) h (sym e ∙ same)))
      (window-set buf cap (pos + 1) n v i l (omega arith) (e ∙ shift_suc pos n cap))

slice-cons :
    (buf : List ℕ) (off n : ℕ)
    → off < length buf
    → slice buf off (suc n) ≡ get_or buf off 0 ∷ slice buf (suc off) n
slice-cons [] off n h = absurd (omega arith)
slice-cons (b ∷ bs) zero n h = refl
slice-cons (b ∷ bs) (suc off) n h = slice-cons bs off n (omega arith)

suc_mod : (off cap : ℕ) → suc off % cap ≡ (off + 1) % cap
suc_mod off cap = ap (λ k. k % cap) (one off)
  where
    one : (n : ℕ) → suc n ≡ n + 1
    one n = omega arith

-- A window that does not wrap is a run of the buffer.
pub slice-window :
    (buf : List ℕ) (cap pos n off : ℕ)
    → length buf ≡ cap
    → off ≡ pos % cap
    → off + n ≤ cap
    → slice buf off n ≡ window buf cap pos n
slice-window buf cap pos zero off l e h = refl
slice-window buf cap pos (suc zero) off l e h =
    slice-cons buf off 0 (omega arith) ∙ ap (λ i. get_or buf i 0 ∷ []) e
slice-window buf cap pos (suc (suc n)) off l e h =
    let next : suc off ≡ (pos + 1) % cap =
      sym (mod-eq_of_lt {n = suc off} {m = cap} (omega arith))
      ∙ suc_mod off cap
      ∙ ap (λ k. (k + 1) % cap) e
      ∙ mod-add-mod pos cap 1 in
    slice-cons buf off (suc n) (omega arith)
    ∙ ap₂ ◌∷◌ (ap (λ i. get_or buf i 0) e)
        (slice-window buf cap (pos + 1) (suc n) (suc off) l next (omega arith))
