-- ===== src/Core/HandleTable/Slots.antt =====
-- Facts on the deque of slots: who is alive, which generations fit 32 bits.
use affini_x.Base.{
  ℕ, zero, suc, ◌+◌, ◌^◌, ◌<◌, ◌≡◌, refl, ap, ◌≢◌, none, some, List, [], ◌∷◌, ◌++◌, arith, ◌==◌,
  if◌then◌else◌, length, get_elem?, set,
}
use affini_x.Core.HandleTable.{Slot}

module _ {ℓ} {A : Type ℓ} where
  abbrev pub alive : Slot A → ℕ
  alive s = elim s.object [ none ↦ 0 | some a ↦ 1 ]

  abbrev pub alive_count : List (Slot A) → ℕ
  alive_count [] = 0
  alive_count (s ∷ ss) = alive s + alive_count ss

  abbrev pub alive_at : List (Slot A) → ℕ → ℕ
  alive_at [] i = 0
  alive_at (s ∷ ss) zero = alive s
  alive_at (s ∷ ss) (suc i) = alive_at ss i

  abbrev pub has_slot : List (Slot A) → ℕ → ℕ
  has_slot [] i = 0
  has_slot (s ∷ ss) zero = 1
  has_slot (s ∷ ss) (suc i) = has_slot ss i

  abbrev pub GensFit : List (Slot A) → Type 0
  GensFit [] = Unit
  GensFit (s ∷ ss) = (0 < s.gen) × (s.gen < 2 ^ 32) × GensFit ss

  pub alive_count-set :
      (ss : List (Slot A)) (i : ℕ) (s : Slot A)
      → i < length ss
      → alive_count (set ss i s) + alive_at ss i ≡ alive_count ss + alive s
  alive_count-set [] i s h = absurd (omega arith)
  alive_count-set (x ∷ ss) zero s h = omega arith
  alive_count-set (x ∷ ss) (suc i) s h = omega (arith, alive_count-set ss i s (omega arith))

  pub alive_at-set_self :
      (ss : List (Slot A)) (i : ℕ) (s : Slot A) → i < length ss → alive_at (set ss i s) i ≡ alive s
  alive_at-set_self [] i s h = absurd (omega arith)
  alive_at-set_self (x ∷ ss) zero s h = refl
  alive_at-set_self (x ∷ ss) (suc i) s h = alive_at-set_self ss i s (omega arith)

  pub alive_at-set_ne :
      (ss : List (Slot A)) (i j : ℕ) (s : Slot A) → i ≢ j → alive_at (set ss i s) j ≡ alive_at ss j
  alive_at-set_ne [] i j s h = refl
  alive_at-set_ne (x ∷ ss) zero zero s h = absurd (h refl)
  alive_at-set_ne (x ∷ ss) zero (suc j) s h = refl
  alive_at-set_ne (x ∷ ss) (suc i) zero s h = refl
  alive_at-set_ne (x ∷ ss) (suc i) (suc j) s h = alive_at-set_ne ss i j s (λ e. h (ap suc e))

  pub has_slot-set :
      (ss : List (Slot A)) (i j : ℕ) (s : Slot A) → has_slot (set ss i s) j ≡ has_slot ss j
  has_slot-set [] i j s = refl
  has_slot-set (x ∷ ss) zero zero s = refl
  has_slot-set (x ∷ ss) zero (suc j) s = refl
  has_slot-set (x ∷ ss) (suc i) zero s = refl
  has_slot-set (x ∷ ss) (suc i) (suc j) s = has_slot-set ss i j s

  pub has_slot-lt : (ss : List (Slot A)) (i : ℕ) → 0 < has_slot ss i → i < length ss
  has_slot-lt [] i h = absurd (omega arith)
  has_slot-lt (x ∷ ss) zero h = omega arith
  has_slot-lt (x ∷ ss) (suc i) h = omega (arith, has_slot-lt ss i h)

  pub GensFit-set :
      (ss : List (Slot A)) (i : ℕ) (s : Slot A)
      → 0 < s.gen
      → s.gen < 2 ^ 32
      → GensFit ss
      → GensFit (set ss i s)
  GensFit-set [] i s p q g = tt
  GensFit-set (x ∷ ss) zero s p q g = (p, q, g.2)
  GensFit-set (x ∷ ss) (suc i) s p q g = (g.0, g.1, GensFit-set ss i s p q g.2)

  pub GensFit-get :
      (ss : List (Slot A)) (i : ℕ) {s : Slot A}
      → GensFit ss
      → get_elem? ss i ≡ some s
      → (0 < s.gen) × (s.gen < 2 ^ 32)
  GensFit-get [] i g e = absurd (cc)
  GensFit-get (x ∷ ss) zero g e = ground arith
  GensFit-get (x ∷ ss) (suc i) g e = GensFit-get ss i g.2 e

  pub GensFit-append :
      (ss : List (Slot A)) (s : Slot A)
      → 0 < s.gen
      → s.gen < 2 ^ 32
      → GensFit ss
      → GensFit (ss ++ s ∷ [])
  GensFit-append [] s p q g = (p, q, tt)
  GensFit-append (x ∷ ss) s p q g = (g.0, g.1, GensFit-append ss s p q g.2)

  pub alive_count-append :
      (ss : List (Slot A)) (s : Slot A) → alive_count (ss ++ s ∷ []) ≡ alive_count ss + alive s
  alive_count-append [] s = omega arith
  alive_count-append (x ∷ ss) s = omega (arith, alive_count-append ss s)

  pub has_slot-append :
      (ss : List (Slot A)) (s : Slot A) (i : ℕ)
      → has_slot (ss ++ s ∷ []) i ≡ has_slot ss i + (if length ss == i then 1 else 0)
  has_slot-append [] s zero = refl
  has_slot-append [] s (suc i) = ground arith
  has_slot-append (x ∷ ss) s zero = ground arith
  has_slot-append (x ∷ ss) s (suc i) = ground (arith, has_slot-append ss s i)

  pub alive_at-append :
      (ss : List (Slot A)) (s : Slot A) (i : ℕ)
      → alive_at (ss ++ s ∷ []) i ≡ alive_at ss i + (if length ss == i then alive s else 0)
  alive_at-append [] s zero = omega arith
  alive_at-append [] s (suc i) = ground arith
  alive_at-append (x ∷ ss) s zero = ground arith
  alive_at-append (x ∷ ss) s (suc i) = ground (arith, alive_at-append ss s i)

  pub has_slot_of_lt : (ss : List (Slot A)) (i : ℕ) → i < length ss → has_slot ss i ≡ 1
  has_slot_of_lt [] i h = absurd (omega arith)
  has_slot_of_lt (x ∷ ss) zero h = refl
  has_slot_of_lt (x ∷ ss) (suc i) h = has_slot_of_lt ss i (omega arith)

  pub alive_at_of_get :
      (ss : List (Slot A)) (i : ℕ) {s : Slot A} → get_elem? ss i ≡ some s → alive_at ss i ≡ alive s
  alive_at_of_get [] i e = absurd (cc)
  alive_at_of_get (x ∷ ss) zero e = ground arith
  alive_at_of_get (x ∷ ss) (suc i) e = alive_at_of_get ss i e
