-- ===== src/Itc/Barrier/Tests.antt =====
-- Runs of a barrier of two shards.
use affini_x.Base.{
  ◌+◌, ◌==◌, ◌≡◌, refl, true, false, if◌then◌else◌, List, [], ◌∷◌, length, count, ltb, arith,
}
use affini_x.Itc.Barrier.{
  arrive_all, post_at, run_shard, count_down, Action, posts, runs, counts, act, run,
}
use affini_x.Itc.Barrier.Once.{run-done_by}

abbrev all_posted : List Action
all_posted = posts true ∷ posts true ∷ runs 0 ∷ runs 1 ∷ counts 1 ∷ counts 0 ∷ []

all_posted-done : (run all_posted (arrive_all 2)).done_by ≡ 0 ∷ []
unfolding run act post_at run_shard count_down arrive_all
all_posted-done = refl

-- One full mailbox.
abbrev one_refused : List Action
one_refused = posts true ∷ posts false ∷ runs 1 ∷ counts 1 ∷ []

one_refused-done :
    ((run one_refused (arrive_all 2)).done_by ≡ [])
    × ((run one_refused (arrive_all 2)).remaining ≡ 1)
unfolding run act post_at run_shard count_down arrive_all
one_refused-done = (refl, refl)

run-done_by_example :
    let b = run one_refused (arrive_all 2) in
    (length b.done_by ≡ (
      if b.unposted + length b.refused + length b.waiting + length b.counting == 0 then 1 else 0))
    × ((if ltb 0 b.unposted then 1 else 0)
          + count 0 b.refused
          + count 0 b.waiting
          + count 0 b.arrived
        ≡ (if ltb 0 2 then 1 else 0))
run-done_by_example = run-done_by 2 one_refused 0 (omega arith) (omega arith)
