-- ===== src/Core/Arena.antt =====
-- include/afx/core/arena.hpp: the bump allocation of a region of `size` bytes at the address `base`. An arena
-- of size 0 is empty. Addresses are 64 bits wide.
pub mod Apart
use affini_x.Base.{ℕ, ◌+◌, ◌-◌, ◌*◌, ◌/◌, ◌%◌, ◌^◌, Bool, Option, none, some, ltb, if◌then◌else◌}

pub record Arena : Type 0 where
  pub base : ℕ
  pub size : ℕ
  pub off : ℕ

-- `align` is not 0.
abbrev pub align_up : ℕ → ℕ → ℕ
align_up cur align = (cur + align - 1) / align * align

unfoldable pub alloc : ℕ → ℕ → Arena → Option ℕ × Arena
alloc n align a =
    let al = align_up (a.base + a.off) align in
    let next = (al - a.base + n) % 2 ^ 64 in
    if ltb a.size next then (none, a) else (some al, record a { off = next })
