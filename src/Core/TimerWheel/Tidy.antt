-- ===== src/Core/TimerWheel/Tidy.antt =====
-- The invariant of the wheel between two ticks, and that the public `insert` keeps it.
use affini_x.Base.{
  ℕ, ◌+◌, ◌-◌, ◌*◌, ◌/◌, ◌%◌, ◌^◌, ◌≤◌, ◌<◌, ◌≡◌, refl, sym, ap, ◌≢◌, arith, ltb, if◌then◌else◌,
}
use affini_x.Core.TimerWheel.Arith.{Homed, placed_Homed}
use affini_x.Core.TimerWheel.Grid.{Each, Each-put, total, total-put, one, total-empty}
use affini_x.Core.TimerWheel.{
  Node, Wheel, create, level_of, level_fuel, slot_of, insert_node, insert,
}

-- The tick at which a node is served at the earliest: an overdue one waits for `low`.
abbrev pub due : ℕ → Node → ℕ
due low n = if ltb low n.expiry_tick then n.expiry_tick else low

abbrev pub At : ℕ → ℕ → ℕ → Node → Type 0
At low l j n = Homed low l j (due low n)

-- Every queued node lies in a bucket that is served at its tick or before, not yet, and not twice.
-- `low` is the next tick that the wheel serves.
pub record IsTidy (low : ℕ) (w : Wheel) : Type 0 where
  pub homed : Each (At low) w.buckets
  pub counted : w.count ≡ total one w.buckets

pub create-IsTidy : IsTidy 1 create
unfolding create
create-IsTidy = record { homed = λ l j. tt; counted = sym (total-empty one) }

-- What any placement by `insert_node` does.
pub insert_node_lem :
    (P : ℕ → ℕ → Node → Type 0) (f : Node → ℕ) (w : Wheel) (n : Node) (low et : ℕ)
    → w.now_tick ≤ low
    → low ≤ w.now_tick + 1
    → low ≤ et
    → et < w.now_tick + 2 ^ 32
    → (let l = level_of level_fuel (et - w.now_tick) in
        Homed low l (slot_of l et) et
          × (0 < l → w.now_tick < et / 2 ^ (8 * l) * 2 ^ (8 * l))
          × (w.now_tick < et → l ≡ 0 → slot_of l et ≢ w.now_tick % 256)
        → P l (slot_of l et) n)
    → Each P w.buckets
    → Each P (insert_node w n et w.now_tick).buckets
      × (total f (insert_node w n et w.now_tick).buckets ≡ total f w.buckets + f n)
      × ((insert_node w n et w.now_tick).count ≡ w.count + 1)
      × ((insert_node w n et w.now_tick).now_tick ≡ w.now_tick)
unfolding insert_node
insert_node_lem P f w n low et a b c d step h =
    let p = placed_Homed w.now_tick low et a b c d in
    let l = level_of level_fuel (et - w.now_tick) in
    (
      Each-put P w l (slot_of l et) n h (step p),
      total-put f w l (slot_of l et) n p.0.level_fits (omega arith),
      refl,
      refl,
    )

pub insert-due :
    (w : Wheel) (n : Node)
    → insert w n w.now_tick ≡ insert_node w n (due (w.now_tick + 1) n) w.now_tick
unfolding insert
insert-due w n = ap (λ e. insert_node w n e w.now_tick) (ground arith)

pub due_range :
    (low now : ℕ) (n : Node)
    → low ≤ now + 1
    → n.expiry_tick < now + 2 ^ 32
    → (low ≤ due low n) × (due low n < now + 2 ^ 32)
due_range low now n a h = ground arith

-- What the public `insert` does to a wheel within the horizon.
pub insert_lem :
    (P : ℕ → ℕ → Node → Type 0) (f : Node → ℕ) (w : Wheel) (n : Node)
    → n.expiry_tick < w.now_tick + 2 ^ 32
    → ((l j : ℕ) → At (w.now_tick + 1) l j n → (l ≡ 0 → j ≢ w.now_tick % 256) → P l j n)
    → Each P w.buckets
    → Each P (insert w n w.now_tick).buckets
      × (total f (insert w n w.now_tick).buckets ≡ total f w.buckets + f n)
      × ((insert w n w.now_tick).count ≡ w.count + 1)
      × ((insert w n w.now_tick).now_tick ≡ w.now_tick)
insert_lem P f w n h step e =
    let r = due_range (w.now_tick + 1) w.now_tick n (omega arith) h in
    rw (insert-due w n) (
      insert_node_lem P f w n (w.now_tick + 1) (due (w.now_tick + 1) n) (omega arith) (omega arith)
        r.0 r.1 (λ p. step _ _ p.0 (p.2 (omega arith))) e)

-- A timer that is armed within the horizon keeps the wheel tidy, overdue or not.
pub insert-IsTidy :
    (w : Wheel) (n : Node)
    → n.expiry_tick < w.now_tick + 2 ^ 32
    → IsTidy (w.now_tick + 1) w
    → IsTidy (w.now_tick + 1) (insert w n w.now_tick)
insert-IsTidy w n h t =
    let r = insert_lem (At (w.now_tick + 1)) one w n h (λ l j a b. a) t.homed in
    record { homed = r.0; counted = omega (arith, r.1, r.2, t.counted) }

pub insert_node-max :
    (w : Wheel) (n : Node) (et now : ℕ)
    → (insert_node w n et now).max_ticks_per_call ≡ w.max_ticks_per_call
unfolding insert_node
insert_node-max w n et now = refl
