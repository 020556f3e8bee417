-- ===== src/Core/TimerWheel/Arith.antt =====
-- Where a distance puts a node, and when that bucket is served: one case for each level.
use affini_x.Base.{
  ℕ, zero, suc, ◌+◌, ◌-◌, ◌*◌, ◌/◌, ◌%◌, ◌^◌, ◌≤◌, ◌<◌, ◌≡◌, refl, ◌≢◌, ◌⊎◌, inl, inr, arith,
}
use affini_x.Core.TimerWheel.{level_of, level_fuel, slot_of, levels}

-- `level_of` finds the level whose span the distance reaches, for a distance on the wheel.
pub level_of_lem :
    (d : ℕ)
    → d < 2 ^ 32
    → ((level_of level_fuel d ≡ 0) × (d < 2 ^ 8))
      ⊎ ((level_of level_fuel d ≡ 1) × (2 ^ 8 ≤ d) × (d < 2 ^ 16))
      ⊎ ((level_of level_fuel d ≡ 2) × (2 ^ 16 ≤ d) × (d < 2 ^ 24))
      ⊎ ((level_of level_fuel d ≡ 3) × (2 ^ 24 ≤ d))
unfolding level_of
level_of_lem d h = ground arith

-- A node due at `et` lies in bucket `(l, j)` with `low` the next tick that the wheel serves: the
-- bucket's turn comes at or before `et`, and only one turn of it lies ahead within the level's reach.
pub record Homed (low l j et : ℕ) : Type 0 where
  pub level_fits : l < levels
  pub slot_fits : slot_of l et ≡ j
  pub turn : low ≤ et / 2 ^ (8 * l) * 2 ^ (8 * l)
  pub reach : et < low + 2 ^ (8 * suc l)

-- A node that is placed by its distance from `now`, on a turn still to come, is where it belongs.
-- Above level 0 its turn lies strictly ahead; on level 0 only `et` itself has its slot.
pub placed_Homed :
    (now low et : ℕ)
    → now ≤ low
    → low ≤ now + 1
    → low ≤ et
    → et < now + 2 ^ 32
    → let l = level_of level_fuel (et - now) in
      Homed low l (slot_of l et) et
      × (0 < l → now < et / 2 ^ (8 * l) * 2 ^ (8 * l))
      × (now < et → l ≡ 0 → slot_of l et ≢ now % 256)
placed_Homed now low et a b c d = elim (level_of_lem (et - now) (omega arith)) [
  | inl (e, p) ↦ rw e (
    record { level_fits = omega arith; slot_fits = refl; turn = omega arith; reach = omega arith },
    omega arith,
    λ q r. omega arith,
  )
  | inr (inl (e, p, q)) ↦ rw e (
    record { level_fits = omega arith; slot_fits = refl; turn = omega arith; reach = omega arith },
    omega arith,
    λ q r. absurd (omega arith),
  )
  | inr (inr (inl (e, p, q))) ↦ rw e (
    record { level_fits = omega arith; slot_fits = refl; turn = omega arith; reach = omega arith },
    omega arith,
    λ q r. absurd (omega arith),
  )
  | inr (inr (inr (e, p))) ↦ rw e (
    record { level_fits = omega arith; slot_fits = refl; turn = omega arith; reach = omega arith },
    omega arith,
    λ q r. absurd (omega arith),
  )
]

-- A due time on the wheel lies within its horizon.
pub Homed-range : (low l j et : ℕ) → Homed low l j et → (low ≤ et) × (et < low + 2 ^ 32) × (j < 256)
Homed-range low zero j et h = omega (arith, h.slot_fits, h.turn, h.reach)
Homed-range low (suc zero) j et h = omega (arith, h.slot_fits, h.turn, h.reach)
Homed-range low (suc (suc zero)) j et h = omega (arith, h.slot_fits, h.turn, h.reach)
Homed-range low (suc (suc (suc zero))) j et h = omega (arith, h.slot_fits, h.turn, h.reach)
Homed-range low (suc (suc (suc (suc l)))) j et h = absurd (omega (arith, h.level_fits))

-- A bucket whose turn is `low` is the one that the code serves at `low`.
pub turn_is_home :
    (low l j et : ℕ)
    → Homed low l j et
    → et / 2 ^ (8 * l) * 2 ^ (8 * l) ≡ low
    → (low % 2 ^ (8 * l) ≡ 0) × (slot_of l low ≡ j)
turn_is_home low zero j et h e = omega (arith, h.slot_fits)
turn_is_home low (suc zero) j et h e = omega (arith, h.slot_fits)
turn_is_home low (suc (suc zero)) j et h e = omega (arith, h.slot_fits)
turn_is_home low (suc (suc (suc zero))) j et h e = omega (arith, h.slot_fits)
turn_is_home low (suc (suc (suc (suc l)))) j et h e = absurd (omega (arith, h.level_fits))

-- A bucket that has not had its turn keeps waiting for it.
pub Homed-later :
    (low l j et : ℕ)
    → Homed low l j et
    → low < et / 2 ^ (8 * l) * 2 ^ (8 * l)
    → Homed (low + 1) l j et
Homed-later low l j et h p = record {
  level_fits = h.level_fits;
  slot_fits = h.slot_fits;
  turn = omega arith;
  reach = omega (arith, h.reach);
}

-- On level 0 the slot that is swept holds the nodes due now and no others.
pub level_zero_due :
    (low j et : ℕ) → Homed low 0 j et → (j ≡ low % 256 → et ≡ low) × (j ≢ low % 256 → low < et)
level_zero_due low j et h = (
  λ e. omega (arith, h.slot_fits, h.turn, h.reach),
  λ n. ground (arith, h.slot_fits, h.turn, h.reach),
)

pub turn_le : (l j low et : ℕ) → Homed low l j et → et / 2 ^ (8 * l) * 2 ^ (8 * l) ≤ et
turn_le zero j low et h = omega arith
turn_le (suc zero) j low et h = omega arith
turn_le (suc (suc zero)) j low et h = omega arith
turn_le (suc (suc (suc zero))) j low et h = omega arith
turn_le (suc (suc (suc (suc l)))) j low et h = absurd (omega (arith, h.level_fits))
