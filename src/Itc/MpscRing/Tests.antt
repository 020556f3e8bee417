-- ===== src/Itc/MpscRing/Tests.antt =====
-- Runs of two producers and the consumer.
use affini_x.Base.{ℕ, ◌+◌, ◌≤◌, ◌≡◌, refl, false, List, [], ◌∷◌, ◌++◌, arith, length, take}
use affini_x.Itc.MpscRing.{
  create, begin_push, push_step, pop_step, Action, begins, pushes, pops, act, run,
}
use affini_x.Itc.MpscRing.Sound.{freed}
use affini_x.Itc.MpscRing.Order.{run-take}
use affini_x.Itc.MpscRing.Full.{run-refused}

-- The five accesses of an undisturbed push.
abbrev whole : ℕ → ℕ → List Action
whole k v = begins k v ∷ pushes k false ∷ pushes k false ∷ pushes k false ∷ pushes k false ∷ []

abbrev one_pop : List Action
one_pop = pops ∷ pops ∷ pops ∷ []

-- Both producers see the first cell free; the second wins it, the first has to go on to the next cell.
abbrev race : List Action
race =
    begins 0 7
    ∷ begins 1 8
    ∷ pushes 0 false
    ∷ pushes 1 false
    ∷ pushes 1 false
    ∷ pushes 0 false
    ∷ pushes 0 false
    ∷ pushes 0 false
    ∷ pushes 0 false
    ∷ pushes 0 false
    ∷ pushes 1 false
    ∷ pushes 1 false
    ∷ []

race-popped : (run (race ++ one_pop ++ one_pop) (create 2)).popped ≡ 8 ∷ 7 ∷ []
unfolding run act begin_push push_step pop_step create
race-popped = refl

race-refused : (run (race ++ begins 0 9 ∷ pushes 0 false ∷ []) (create 2)).refused ≡ 1
unfolding run act begin_push push_step pop_step create
race-refused = refl

-- In a ring of one cell the second push is accepted before the first item is popped, and writes over it.
one_cell_loses :
    let s = run (whole 0 7 ++ whole 0 8) (create 1) in
    (s.claimed ≡ 7 ∷ 8 ∷ []) × (s.refused ≡ 0) × ((s.ring.cells 0).item ≡ 8)
unfolding run act begin_push push_step pop_step create
one_cell_loses = (refl, refl, refl)

-- After it the consumer finds nothing to pop.
one_cell_stuck : (run (whole 0 7 ++ whole 0 8 ++ one_pop) (create 1)).popped ≡ []
unfolding run act begin_push push_step pop_step create
one_cell_stuck = refl

run-take_example :
    let s = run (race ++ one_pop) (create 2) in
    (s.popped ≡ take (length s.popped) s.claimed) × (length s.claimed ≤ length s.popped + 2)
unfolding run act begin_push push_step pop_step create
run-take_example = run-take 2 (race ++ one_pop) (omega arith) (omega arith)

run-refused_example :
    let s = run (race ++ begins 0 9 ∷ []) (create 2) in
    length s.claimed ≡ freed s.consumer s.ring.deq_pos + 2
unfolding run act begin_push push_step pop_step create
run-refused_example =
    run-refused 2 (race ++ begins 0 9 ∷ []) (pushes 0 false) (omega arith) (omega arith)
      (omega arith)
