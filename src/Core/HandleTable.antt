-- ===== src/Core/HandleTable.antt =====
-- include/afx/core/handle_table.hpp: handles with a generation over slots that are reused.
-- A slot's `alive` flag and its storage are one option: `some` while the object lives. The free
-- vector is a list with its back first; `deferred` is in the order of the releases.
mod Slots
pub mod Emplace
pub mod Invariant
pub mod Stale
mod Tests
use affini_x.Base.{
  ℕ, zero, suc, ◌+◌, ◌-◌, ◌%◌, ◌^◌, Bool, true, false, Option, none, some, List, [], ◌∷◌, ◌++◌,
  reverse, ltb, leb, ◌==◌, ◌||◌, not, if◌then◌else◌, length, get_elem?, set,
}

-- `operator==` is equality of both fields.
pub record Handle : Type 0 where
  pub idx : ℕ
  pub gen : ℕ

pub valid : Handle → Bool
valid h = not (h.gen == 0)

pub record Slot {ℓ} (A : Type ℓ) : Type ℓ where
  pub gen : ℕ
  pub object : Option A

pub record Table {ℓ} (A : Type ℓ) : Type ℓ where
  pub slots : List (Slot A)
  pub first_gen : ℕ
  pub free : List ℕ
  pub deferred : List ℕ
  pub live : ℕ

-- The increment of a `uint32_t` generation, which skips 0.
pub next_gen : ℕ → ℕ
next_gen g = if g + 1 == 2 ^ 32 then 1 else g + 1

-- What a client may call.
pub data Op {ℓ} (A : Type ℓ) : Type ℓ where
  emplaces : A → Op A
  releases : Handle → Op A
  reclaims : Op A

module _ {ℓ} {A : Type ℓ} where
  pub create : ℕ → Table A
  create first_gen = record {
    slots = [];
    first_gen = if first_gen == 0 then 1 else first_gen;
    free = [];
    deferred = [];
    live = 0;
  }

  -- The object in the slot that `emplace` has picked.
  abbrev pub occupy : Table A → ℕ → Slot A → A → Handle × Table A
  occupy t idx s a = (
    record { idx = idx; gen = s.gen },
    record t { slots = set t.slots idx (record s { object = some a }); live = t.live + 1 },
  )

  abbrev pub fresh_slot : Table A → Slot A
  fresh_slot t = record { gen = t.first_gen; object = none }

  -- `slots` grown by one, where no slot is free.
  abbrev pub grown : Table A → Table A
  grown t = record t { slots = t.slots ++ fresh_slot t ∷ [] }

  -- `none` stands for the access to a slot that is not there.
  abbrev pub place : Table A → ℕ → A → Option (Handle × Table A)
  place t idx a = elim (get_elem? t.slots idx) [ none ↦ none | some s ↦ some (occupy t idx s a) ]

  -- The index of a new slot is the number of slots cast to 32 bits.
  pub emplace : Table A → A → Option (Handle × Table A)
  emplace t a = elim t.free [
    | [] ↦ place (grown t) (length t.slots % 2 ^ 32) a
    | idx ∷ rest ↦ place (record t { free = rest }) idx a
  ]

  -- The pointer that `get` returns is the object, or none.
  pub slot_object : Slot A → ℕ → Option A
  slot_object s gen = if s.gen == gen then s.object else none

  pub get : Table A → Handle → Option A
  unfolding valid slot_object
  get t h =
      if not (valid h) || leb (length t.slots) h.idx
      then none
      else elim (get_elem? t.slots h.idx) [ none ↦ none | some s ↦ slot_object s h.gen ]

  pub contains : Table A → Handle → Bool
  contains t h = elim (get t h) [ none ↦ false | some a ↦ true ]

  -- What `release` does once `get` has found the object.
  pub retire : Table A → ℕ → Table A
  unfolding next_gen
  retire t idx = elim (get_elem? t.slots idx) [
    | none ↦ t
    | some s ↦ record t {
      slots = set t.slots idx (record { gen = next_gen s.gen; object = none });
      live = t.live - 1;
      deferred = t.deferred ++ idx ∷ [];
    }
  ]

  pub release : Table A → Handle → Table A
  release t h = elim (get t h) [ none ↦ t | some a ↦ retire t h.idx ]

  pub reclaim : Table A → Table A
  reclaim t = record t { free = reverse t.deferred ++ t.free; deferred = [] }

  pub clear : Table A → Table A
  clear t = record t { slots = []; free = []; deferred = []; live = 0 }

  -- The live objects with their handles, in the order of the slots.
  pub live_from : ℕ → List (Slot A) → List (A × Handle)
  live_from i [] = []
  live_from i (s ∷ ss) = elim s.object [
    | none ↦ live_from (i + 1) ss
    | some a ↦ (a, record { idx = i; gen = s.gen }) ∷ live_from (i + 1) ss
  ]

  pub for_each : Table A → List (A × Handle)
  for_each t = live_from 0 t.slots

  abbrev pub emplaced : Table A → Option (Handle × Table A) → Table A
  emplaced t none = t
  emplaced t (some (h, t')) = t'

  pub apply : Table A → Op A → Table A
  apply t (emplaces a) = emplaced t (emplace t a)
  apply t (releases h) = release t h
  apply t reclaims = reclaim t

  pub run : Table A → List (Op A) → Table A
  run t [] = t
  run t (o ∷ os) = run (apply t o) os
