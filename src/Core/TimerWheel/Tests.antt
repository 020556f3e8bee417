-- ===== src/Core/TimerWheel/Tests.antt =====
-- Runs of the wheel at concrete inputs.
use affini_x.Base.{◌+◌, ◌^◌, ◌≤◌, ◌≡◌, refl, inr, true, false, List, [], ◌∷◌, arith}
use affini_x.Core.TimerWheel.Grid.{Each}
use affini_x.Core.TimerWheel.Tidy.{due, IsTidy, create-IsTidy, insert-IsTidy}
use affini_x.Core.TimerWheel.Advance.{Advanced, advance_lem}
use affini_x.Core.TimerWheel.NextDue.{next_due_tick-le}
use affini_x.Core.TimerWheel.{
  Node, Wheel, create, insert, advance, next_due_tick, insert_node, level_of, step, sweep,
  expire_slot, cascade, cascade_due, cascade_walk, insert_all, prime, rehome, gather, gather_slots,
  due_slots, due_levels, fits, tick_of,
}

abbrev node_a : Node
node_a = record { id = 7; expiry_tick = 1002 }

abbrev node_b : Node
node_b = record { id = 8; expiry_tick = 400 }

abbrev armed : Wheel
armed = insert (insert create node_a 0) node_b 0

armed-IsTidy : IsTidy 1 armed
unfolding create insert insert_node
armed-IsTidy =
    insert-IsTidy (insert create node_a 0) node_b (omega arith)
      (insert-IsTidy create node_a (omega arith) create-IsTidy)

abbrev fires_nothing : Node → List Node
fires_nothing n = []

-- The first advance goes to tick 1001: the overdue timer fires, the other waits.
advance_at_1001 : (advance fires_nothing armed 1001).0 ≡ node_b ∷ []
unfolding advance insert insert_node create prime rehome gather gather_slots level_of sweep step
    expire_slot cascade_due cascade cascade_walk insert_all
advance_at_1001 = refl

fits_examples :
    (fits 5 9 ≡ true)
    × (fits (2 ^ 32 + 4) 5 ≡ true)
    × (fits (2 ^ 32 + 5) 5 ≡ false)
    × (tick_of 1000 1001 ≡ 2)
unfolding fits tick_of
fits_examples = (refl, refl, refl, refl)

next_due_example : next_due_tick armed ≡ 256
unfolding next_due_tick insert insert_node create level_of due_levels due_slots
next_due_example = refl

advance_lem_example :
    let r = advance fires_nothing armed 1001 in
    Advanced fires_nothing (λ n. ⊥) armed r.0 r.1 × (r.1.now_tick ≡ 1001)
unfolding create insert insert_node
advance_lem_example =
    advance_lem fires_nothing (λ n. ⊥) armed 1001 armed-IsTidy (λ n. tt)
      (inr (refl, omega arith, omega arith))

next_due_tick-le_example :
    Each (λ l j n. next_due_tick armed ≤ due (armed.now_tick + 1) n) armed.buckets
unfolding create insert insert_node
next_due_tick-le_example = next_due_tick-le armed armed-IsTidy
