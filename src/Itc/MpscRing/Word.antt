-- ===== src/Itc/MpscRing/Word.antt =====
-- Positions below 2^63: sums and differences of 64 bits are those of the numbers.
use affini_x.Base.{
  ℕ, ◌+◌, ◌-◌, ◌%◌, ◌^◌, ◌≤◌, ◌<◌, ◌≡◌, ◌≢◌, sym, ap, ◌∙◌, true, false, arith, ltb, ◌==◌, dec_lt,
}
use affini_x.Itc.SpscRing.{add_size, sub_size}
use affini_x.Itc.SpscRing.Window.{mod_ne}

pub add_size_lem : (a b : ℕ) → a + b < 2 ^ 63 → add_size a b ≡ a + b
add_size_lem a b h = omega arith

pub sub_size_zero : (a b : ℕ) → a < 2 ^ 64 → b < 2 ^ 63 → sub_size a b == 0 ≡ true → a ≡ b
sub_size_zero a b h k e = ground arith

pub sub_size_eq : (a b : ℕ) → a < 2 ^ 63 → a ≡ b → sub_size a b == 0 ≡ true
sub_size_eq a b h e = ground arith

-- The difference is negative exactly when the first is the smaller.
pub sub_size_negative :
    (a b : ℕ) → a < 2 ^ 63 → b < 2 ^ 63 → ltb (sub_size a b) (2 ^ 63) ≡ false → a < b
sub_size_negative a b h k e = ground arith

pub wrap_lem : (p cap : ℕ) → p < 2 ^ 63 → p % 2 ^ 64 % cap ≡ p % cap
wrap_lem p cap h = ap (λ q. q % cap) (plain p h)
  where
    plain : (n : ℕ) → n < 2 ^ 63 → n % 2 ^ 64 ≡ n
    plain n k = omega arith

-- Two positions of one round of the ring have different cells.
pub mod_apart :
    (low cap p q : ℕ)
    → low ≤ p
    → p < low + cap
    → low ≤ q
    → q < low + cap
    → p ≢ q
    → p % cap ≢ q % cap
mod_apart low cap p q a b c d h e = elim (dec_lt p q) [
  | yes lt ↦
      mod_ne cap p (q - p) (omega arith) (omega arith) (ap (λ n. n % cap) (back p q lt) ∙ sym e)
  | no ge ↦
      let gt : q < p = ne_lt q p ge h in
      mod_ne cap q (p - q) (omega arith) (omega arith) (ap (λ n. n % cap) (back q p gt) ∙ e)
]
  where
    back : (n m : ℕ) → n < m → n + (m - n) ≡ m
    back n m k = omega arith

    ne_lt : (n m : ℕ) → ¬ (m < n) → m ≢ n → n < m
    ne_lt n m k l = ground arith

-- The cell one round later is the same.
pub mod_round : (p cap : ℕ) → 0 < cap → (p + cap) % cap ≡ p % cap
mod_round p cap h = grind arith
