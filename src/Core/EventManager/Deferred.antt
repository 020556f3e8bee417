-- ===== src/Core/EventManager/Deferred.antt =====
-- `defer` and `run_deferred` of include/afx/core/event_manager.hpp. A task is a number; `defers` is the list
-- of the tasks that a task defers when it runs.
use affini_x.Base.{
  ℕ, zero, suc, ◌+◌, ◌≤◌, ◌≡◌, refl, sym, ap, ap₂, ◌∙◌, true, false, List, [], ◌∷◌, ◌++◌, All,
  arith, leb, if◌then◌else◌, length, take, drop,
}
use mathlib.Core.List.{append_assoc, append-nil}

-- The tasks that ran, and `defer_next_`, once the loop has gone through the rest of `defer_run_`; `n` counts
-- those that it has seen.
pub run_loop : (ℕ → List ℕ) → ℕ → ℕ → List ℕ → List ℕ → List ℕ × List ℕ
run_loop defers max n [] next = ([], next)
run_loop defers max n (t ∷ ts) next =
    let left = run_loop defers max (n + 1) ts (next ++ t ∷ []) in
    let ran = run_loop defers max (n + 1) ts (next ++ defers t) in
    if leb max n then left else (t ∷ ran.0, ran.1)

-- The tasks that one round runs, and those that wait after it.
pub run_deferred : (ℕ → List ℕ) → ℕ → List ℕ → List ℕ × List ℕ
unfolding run_loop
run_deferred defers max_defer_batch next = run_loop defers max_defer_batch 0 next []

-- As many rounds: the tasks that ran, and those that wait.
pub rounds : (ℕ → List ℕ) → ℕ → ℕ → List ℕ → List ℕ × List ℕ
unfolding run_deferred
rounds defers max zero next = ([], next)
rounds defers max (suc k) next =
    let first = run_deferred defers max next in
    let rest = rounds defers max k first.1 in (first.0 ++ rest.0, rest.1)

abbrev pub all_deferred : (ℕ → List ℕ) → List ℕ → List ℕ
all_deferred defers [] = []
all_deferred defers (t ∷ ts) = defers t ++ all_deferred defers ts

-- Behind the batch the loop puts everything back.
run_loop-past :
    (defers : ℕ → List ℕ) (max n : ℕ) (ts next : List ℕ)
    → max ≤ n
    → run_loop defers max n ts next ≡ ([], next ++ ts)
unfolding run_loop
run_loop-past defers max n [] next h = ap (λ r. ([], r)) (sym (append-nil next))
run_loop-past defers max n (t ∷ ts) next h =
    let over : leb max n ≡ true = ground arith in
    rw over (
      run_loop-past defers max (n + 1) ts (next ++ t ∷ []) (omega (arith, h))
      ∙ ap (λ r. ([], r)) (append_assoc next (t ∷ []) ts))

run_loop_lem :
    (defers : ℕ → List ℕ) (max n k : ℕ) (ts next : List ℕ)
    → n + k ≡ max
    → run_loop defers max n ts next
      ≡ (take k ts, next ++ (all_deferred defers (take k ts) ++ drop k ts))
unfolding run_loop
run_loop_lem defers max n zero ts next h = run_loop-past defers max n ts next (omega (arith, h))
run_loop_lem defers max n (suc k) [] next h = ap (λ r. ([], r)) (sym (append-nil next))
run_loop_lem defers max n (suc k) (t ∷ ts) next h =
    let within : leb max n ≡ false = ground (arith, h) in
    let ih = run_loop_lem defers max (n + 1) k ts (next ++ defers t) (omega (arith, h)) in
    rw within (
      ap (λ r. (t ∷ r.0, r.1)) ih
      ∙ ap (λ r. (t ∷ take k ts, r))
          (append_assoc next (defers t) (all_deferred defers (take k ts) ++ drop k ts)
            ∙ ap (◌++◌ next)
                (sym (append_assoc (defers t) (all_deferred defers (take k ts)) (drop k ts)))))

-- A round runs the oldest tasks in their order, at most a batch; what these defer waits before the tasks
-- that the batch left over.
run_deferred_lem :
    (defers : ℕ → List ℕ) (max : ℕ) (next : List ℕ)
    → run_deferred defers max next
      ≡ (take max next, all_deferred defers (take max next) ++ drop max next)
unfolding run_deferred
run_deferred_lem defers max next = run_loop_lem defers max 0 max next [] (omega arith)

abbrev pub times : ℕ → List ℕ → List ℕ
times zero ts = []
times (suc k) ts = ts ++ times k ts

all_deferred_self :
    (defers : ℕ → List ℕ) (ts : List ℕ)
    → All (λ t. defers t ≡ t ∷ []) ts
    → all_deferred defers ts ≡ ts
all_deferred_self defers [] a = refl
all_deferred_self defers (t ∷ ts) a = ap₂ ◌++◌ a.0 (all_deferred_self defers ts a.1)

take-all : (ts rest : List ℕ) → take (length ts) (ts ++ rest) ≡ ts
take-all [] rest = refl
take-all (t ∷ ts) rest = ap (◌∷◌ t) (take-all ts rest)

drop-all : (ts rest : List ℕ) → drop (length ts) (ts ++ rest) ≡ rest
drop-all [] rest = refl
drop-all (t ∷ ts) rest = drop-all ts rest

-- Where a batch of tasks defer themselves each time that they run, the tasks behind the batch never run,
-- whatever the number of rounds: every round runs the batch again, and they wait behind it.
pub remainder_starves :
    (defers : ℕ → List ℕ) (busy rest : List ℕ) (k : ℕ)
    → All (λ t. defers t ≡ t ∷ []) busy
    → rounds defers (length busy) k (busy ++ rest) ≡ (times k busy, busy ++ rest)
unfolding rounds
remainder_starves defers busy rest zero a = refl
remainder_starves defers busy rest (suc k) a =
    let ran = take-all busy rest in
    let waits : all_deferred defers (take (length busy) (busy ++ rest))
          ++ drop (length busy) (busy ++ rest)
        ≡ busy ++ rest =
      ap₂ ◌++◌ (ap (all_deferred defers) ran ∙ all_deferred_self defers busy a)
        (drop-all busy rest) in
    let round : run_deferred defers (length busy) (busy ++ rest) ≡ (busy, busy ++ rest) =
      run_deferred_lem defers (length busy) (busy ++ rest) ∙ (λ i. (ran i, waits i)) in
    ap (λ r. (r.0 ++ (rounds defers (length busy) k r.1).0, (rounds defers (length busy) k r.1).1))
      round
    ∙ ap (λ r. (busy ++ r.0, r.1)) (remainder_starves defers busy rest k a)
