-- ===== src/Core/TimerWheel.antt =====
-- The class TimerWheel of include/afx/core/timer_wheel.hpp. Ticks are numbers below 2^64, so no
-- addition wraps; a node is what the wheel reads of it. An intrusive list is a list in its order, and
-- the buckets are a function of level and slot. What `fire` inserts into the wheel is an argument.
mod Arith
mod Grid
pub mod Tidy
mod Cascade
pub mod Sweep
mod Prime
pub mod Advance
pub mod NextDue
mod Tests
use affini_x.Base.{
  ℕ, zero, suc, ◌+◌, ◌-◌, ◌*◌, ◌/◌, ◌%◌, ◌^◌, Bool, true, false, not, ◌&&◌, ◌||◌, List, [], ◌∷◌,
  ◌++◌, ltb, leb, ◌==◌, if◌then◌else◌, length,
}

pub record Node : Type 0 where
  pub id : ℕ
  pub expiry_tick : ℕ

abbrev pub Buckets : Type 0
Buckets = ℕ → ℕ → List Node

pub record Wheel : Type 0 where
  pub now_tick : ℕ
  pub primed : Bool
  pub count : ℕ
  pub max_ticks_per_call : ℕ
  pub buckets : Buckets

abbrev pub slots_per_level : ℕ
slots_per_level = 256

abbrev pub levels : ℕ
levels = 4

pub create : Wheel
create = record {
  now_tick = 0;
  primed = false;
  count = 0;
  max_ticks_per_call = 4096;
  buckets = λ l j. [];
}

-- Nanoseconds since the epoch to ticks of `tick` nanoseconds, rounded up and down.
unfoldable pub tick_of : ℕ → ℕ → ℕ
tick_of tick ns = (ns + tick - 1) / tick

unfoldable pub floor_tick : ℕ → ℕ → ℕ
floor_tick tick ns = ns / tick

-- `d >>= 8`, as often as there are levels.
pub shifted : ℕ → ℕ → ℕ
shifted zero d = d
shifted (suc n) d = shifted n (d / 2 ^ 8)

pub fits : ℕ → ℕ → Bool
unfolding shifted
fits expiry_tick now_tick =
    if leb expiry_tick now_tick then true else shifted levels (expiry_tick - now_tick) == 0

-- `while (d >= kSlots) { d >>= 8; ++level; }`; a 64-bit distance takes at most 7 rounds.
pub level_of : ℕ → ℕ → ℕ
level_of zero d = 0
level_of (suc fuel) d =
    let rest = level_of fuel (d / 2 ^ 8) in if ltb d slots_per_level then 0 else suc rest

abbrev pub level_fuel : ℕ
level_fuel = 8

abbrev pub slot_of : ℕ → ℕ → ℕ
slot_of level et = et / 2 ^ (8 * level) % slots_per_level

abbrev pub place : Buckets → ℕ → ℕ → List Node → Buckets
place b l j ns l' j' = if (l == l') && (j == j') then ns else b l' j'

abbrev pub put : Wheel → ℕ → ℕ → Node → Wheel
put w l j n = record w {
  buckets = place w.buckets l j (w.buckets l j ++ n ∷ []);
  count = w.count + 1;
}

pub insert_node : Wheel → Node → ℕ → ℕ → Wheel
unfolding level_of
insert_node w n et now_tick =
    let level = level_of level_fuel (et - now_tick) in put w level (slot_of level et) n

pub insert : Wheel → Node → ℕ → Wheel
insert w n now_tick =
    insert_node w n (if ltb now_tick n.expiry_tick then n.expiry_tick else now_tick + 1) now_tick

pub insert_all : Wheel → List Node → Wheel
insert_all w [] = w
insert_all w (n ∷ ns) = insert_all (insert w n w.now_tick) ns

-- The walk over one bucket: each node goes to the end of the list that its distance asks for. The
-- bucket is emptied first, so a node that is to stay is put back, and the count stays right.
pub cascade_walk : Wheel → List Node → Wheel
cascade_walk w [] = w
cascade_walk w (n ∷ ns) =
    cascade_walk
      (insert_node w n (if ltb w.now_tick n.expiry_tick then n.expiry_tick else w.now_tick)
        w.now_tick)
      ns

pub cascade : Wheel → ℕ → Wheel
cascade w level =
    let home = slot_of level w.now_tick in
    let ns = w.buckets level home in
    cascade_walk (record w { buckets = place w.buckets level home []; count = w.count - length ns })
      ns

pub cascade_due : Wheel → ℕ → Wheel
cascade_due w level =
    if w.now_tick % (slots_per_level * 2 ^ (8 * (level - 1))) == 0 then cascade w level else w

abbrev pub cascades : Wheel → Wheel
cascades w = cascade_due (cascade_due (cascade_due w 1) 2) 3

abbrev pub pop_front : Wheel → ℕ → List Node → Wheel
pop_front w slot rest = record w { buckets = place w.buckets 0 slot rest; count = w.count - 1 }

module _ (fire : Node → List Node) where
  -- The nodes fired, in order, and the wheel left. A round takes the first node of the slot; what
  -- `fire` inserts never lands in the slot that is swept, so its length is fuel enough.
  pub expire_slot : ℕ → ℕ → Wheel → List Node × Wheel
  expire_slot zero slot w = ([], w)
  expire_slot (suc fuel) slot w = elim (w.buckets 0 slot) [
    | [] ↦ ([], w)
    | n ∷ rest ↦ elim (ltb w.now_tick n.expiry_tick) [
      | true ↦ expire_slot fuel slot (insert (pop_front w slot rest) n w.now_tick)
      | false ↦
          let r = expire_slot fuel slot (insert_all (pop_front w slot rest) (fire n)) in
          (n ∷ r.0, r.1)
    ]
  ]

  -- One round of the loop of `advance`.
  pub step : Wheel → List Node × Wheel
  step w =
      let w' = cascades (record w { now_tick = w.now_tick + 1 }) in
      let slot = w'.now_tick % slots_per_level in expire_slot (length (w'.buckets 0 slot)) slot w'

  pub sweep : ℕ → ℕ → Wheel → List Node × Wheel
  sweep zero target w = ([], w)
  sweep (suc rounds) target w = elim (ltb w.now_tick target) [
    | true ↦ let r = step w in let s = sweep rounds target r.1 in (r.0 ++ s.0, s.1)
    | false ↦ ([], w)
  ]

-- The nodes of `count` slots of a level from slot `j` on, and those of the levels from `l` on.
pub gather_slots : Buckets → ℕ → ℕ → ℕ → List Node
gather_slots b l zero j = []
gather_slots b l (suc count) j = b l j ++ gather_slots b l count (j + 1)

pub gather : Buckets → ℕ → ℕ → List Node
gather b zero l = []
gather b (suc count) l = gather_slots b l slots_per_level 0 ++ gather b count (l + 1)

pub rehome : Wheel → ℕ → List Node → Wheel
rehome w min_et [] = w
rehome w min_et (n ∷ ns) =
    rehome (insert_node w n (if ltb min_et n.expiry_tick then n.expiry_tick else min_et) w.now_tick)
      min_et ns

pub prime : Wheel → ℕ → Wheel
prime w target =
    rehome
      (record w {
        primed = true;
        count = 0;
        now_tick = if target == 0 then 0 else target - 1;
        buckets = λ l j. [];
      })
      (if target == 0 then 1 else target) (gather w.buckets levels 0)

-- `advance` once the epoch is set: an empty wheel snaps forward.
pub advance_primed : (Node → List Node) → Wheel → ℕ → List Node × Wheel
advance_primed fire w target =
    if w.count == 0
    then ([], record w { now_tick = if ltb w.now_tick target then target else w.now_tick })
    else sweep fire w.max_ticks_per_call target w

pub advance : (Node → List Node) → Wheel → ℕ → List Node × Wheel
unfolding advance_primed
advance fire w target = advance_primed fire (if w.primed then w else prime w target) target

-- `next_due_tick`: the loops over levels and slots, with `best` so far.
abbrev pub candidate : ℕ → ℕ → ℕ → ℕ
candidate now l j =
    let span = 2 ^ (8 * l) in
    let super = span * 2 ^ 8 in
    let cand = now / super * super + j * span in if leb cand now then cand + super else cand

abbrev pub is_empty : List Node → Bool
is_empty [] = true
is_empty (n ∷ ns) = false

pub due_slots : Wheel → ℕ → ℕ → ℕ → ℕ → ℕ
due_slots w l zero j best = best
due_slots w l (suc count) j best = due_slots w l count (j + 1) (
    if is_empty (w.buckets l j)
    then best
    else if ltb (candidate w.now_tick l j) best
    then candidate w.now_tick l j
    else best)

pub due_levels : Wheel → ℕ → ℕ → ℕ → ℕ
due_levels w zero l best = best
due_levels w (suc count) l best = due_levels w count (l + 1) (due_slots w l slots_per_level 0 best)

pub next_due_tick : Wheel → ℕ
next_due_tick w = if w.count == 0 then 2 ^ 64 - 1 else due_levels w levels 0 (2 ^ 64 - 1)
