-- ===== src/Core/Pool/Tests.antt =====
-- A pool of two objects to a chunk, over an arena with room for one chunk.
use affini_x.Base.{ℕ, ◌≡◌, refl, some, List, [], ◌∷◌, length, count, arith}
use affini_x.Core.Arena.{Arena, alloc}
use affini_x.Core.Arena.Apart.{Given, alloc-Given}
use affini_x.Core.Pool.{
  create, capacity, grow, construct, destroy, Action, constructs, destroys, act, run,
}
use affini_x.Core.Pool.Counts.{construct-run}

abbrev arena : Arena
arena = record { base = 4100; size = 100; off = 0 }

abbrev churn : List Action
churn = constructs ∷ constructs ∷ destroys 1 ∷ constructs ∷ constructs ∷ []

churn-live :
    let p = run churn (create arena 64 16 2) in
    (p.live ≡ 3 ∷ 1 ∷ 0 ∷ []) × (p.arena_chunks ≡ 1) × (p.heap_chunks ≡ 1)
unfolding run act construct destroy create capacity grow alloc
churn-live = (refl, refl, refl)

construct-run_example :
    let p = run churn (create arena 64 16 2) in
    ((s : ℕ) × ((construct p).0 ≡ some s) × (count s p.live ≡ 0)) × (p.allocated ≡ length p.live)
construct-run_example = construct-run arena 64 16 2 churn

alloc-Given_example : Given 64 16 arena (alloc 64 16 arena)
alloc-Given_example = alloc-Given 64 16 arena (omega arith) (omega arith) (omega arith)
