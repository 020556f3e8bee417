-- ===== src/Itc/MpscRing/Order.antt =====
-- Runs: items are popped in the order in which their pushes won their positions.
use native.Mathlib.Nat.{mod-eq_of_lt}
use affini_x.Base.{
  if_cases, ℕ, ◌+◌, ◌^◌, ◌≤◌, ◌<◌, ◌≡◌, inl, refl, ◌∙◌, Bool, List, [], ◌∷◌, ◌++◌, arith, ltb, ◌==◌,
  if◌then◌else◌, length, take, length-append,
}
use affini_x.Itc.SpscRing.{sub_size}
use affini_x.Itc.MpscRing.{
  index, put, Producer, idle, looks, swaps, reloads, writes, publishes, Consumer, ready, takes,
  releases, System, create, load_seq, push_step, begin_push, pop_step, is_published, Action, begins,
  pushes, pops, act, run,
}
use affini_x.Itc.MpscRing.Sound.{freed, low_of, Follows, IsSound}
use affini_x.Itc.MpscRing.Load.{IsShort, unowned}
use affini_x.Itc.MpscRing.Push.{begin_push-IsSound, push_step-IsSound}
use affini_x.Itc.MpscRing.Pop.{pop_step-IsSound}

-- Pushes that win are only added, and the capacity stays.
abbrev Grows : System → System → Type 0
Grows s s' = (length s.claimed ≤ length s'.claimed) × (s'.ring.cap ≡ s.ring.cap)

le_same : (n : ℕ) → n ≤ n
le_same n = omega arith

le_more : (xs : List ℕ) (v : ℕ) → length xs ≤ length (xs ++ v ∷ [])
le_more xs v = omega (arith, length-append xs (v ∷ []))

load_seq-Grows : (k v pos : ℕ) (s : System) → Grows s (load_seq k v pos s)
load_seq-Grows k v pos s =
    let dif = sub_size (s.ring.cells (index s.ring pos)).seq pos in
    let same : (length s.claimed ≤ length s.claimed) × (s.ring.cap ≡ s.ring.cap) =
      (le_same (length s.claimed), refl) in
    if_cases (Grows s) (dif == 0) (put k (swaps v pos) s)
      (if ltb dif (2 ^ 63)
        then put k (reloads v) s
        else record (put k idle s) { refused = s.refused + 1 })
      (λ _. same)
      (λ _.
        if_cases (Grows s) (ltb dif (2 ^ 63)) (put k (reloads v) s)
          (record (put k idle s) { refused = s.refused + 1 }) (λ _. same) (λ _. same))

push_step-Grows :
    (k : ℕ) (fails : Bool) (p : Producer) (s : System) → Grows s (push_step k fails p s)
unfolding push_step
push_step-Grows k fails idle s = (omega arith, refl)
push_step-Grows k fails (looks v pos) s = load_seq-Grows k v pos s
push_step-Grows k fails (swaps v pos) s =
    if_cases (Grows s) fails _ _ (λ _. (le_same (length s.claimed), refl))
      (λ _.
        if_cases (Grows s) (s.ring.enq_pos == pos) _ _ (λ _. (le_more s.claimed v, refl))
          (λ _. (le_same (length s.claimed), refl)))
push_step-Grows k fails (reloads v) s = (omega arith, refl)
push_step-Grows k fails (writes v pos) s = (omega arith, refl)
push_step-Grows k fails (publishes v pos) s = (omega arith, refl)

begin_push-Grows : (k v : ℕ) (p : Producer) (s : System) → Grows s (begin_push k v p s)
unfolding begin_push
begin_push-Grows k v idle s = (omega arith, refl)
begin_push-Grows k v (looks u pos) s = (omega arith, refl)
begin_push-Grows k v (swaps u pos) s = (omega arith, refl)
begin_push-Grows k v (reloads u) s = (omega arith, refl)
begin_push-Grows k v (writes u pos) s = (omega arith, refl)
begin_push-Grows k v (publishes u pos) s = (omega arith, refl)

pop_step-Grows : (c : Consumer) (s : System) → Grows s (pop_step c s)
unfolding pop_step
pop_step-Grows ready s =
    if_cases (Grows s) (is_published s.ring) _ _ (λ _. (le_same (length s.claimed), refl))
      (λ _. (le_same (length s.claimed), refl))
pop_step-Grows (takes p) s = (omega arith, refl)
pop_step-Grows (releases p) s = (omega arith, refl)

act-Grows : (a : Action) (s : System) → Grows s (act a s)
unfolding act
act-Grows (begins k v) s = begin_push-Grows k v (s.producers k) s
act-Grows (pushes k fails) s = push_step-Grows k fails (s.producers k) s
act-Grows pops s = pop_step-Grows s.consumer s

pub run-Grows : (as' : List Action) (s : System) → Grows s (run as' s)
unfolding run
run-Grows [] s = (omega arith, refl)
run-Grows (a ∷ as') s =
    let p = act-Grows a s in let r = run-Grows as' (act a s) in (omega (arith, p.0, r.0), r.1 ∙ p.1)

act-IsSound : (a : Action) (s : System) → IsShort s → IsSound s → IsSound (act a s)
unfolding act
act-IsSound (begins k v) s b w = begin_push-IsSound k v (s.producers k) s w
act-IsSound (pushes k fails) s b w = push_step-IsSound k fails (s.producers k) s b w refl
act-IsSound pops s b w = pop_step-IsSound s b w s.consumer refl

pub run-IsSound :
    (as' : List Action) (s : System) → IsShort (run as' s) → IsSound s → IsSound (run as' s)
unfolding run
run-IsSound [] s b w = w
run-IsSound (a ∷ as') s b w =
    let g = run-Grows (a ∷ as') s in
    run-IsSound as' (act a s) b (act-IsSound a s (omega (arith, b, g.0, g.1)) w)

pub create-IsSound : (cap : ℕ) → 1 < cap → cap < 2 ^ 63 → IsSound (create cap)
unfolding create
create-IsSound cap h b = record {
  wide = h;
  tail = refl;
  above = omega arith;
  within = omega arith;
  cells = λ p x y. inl (mod-eq_of_lt (omega (arith, y)));
  owners = λ k. tt;
  apart = λ j k p e e'. absurd (unowned idle refl p e);
  follows = refl;
  seqs = λ i x. omega (arith, x, b);
  order = refl;
}

low-le-popped : (s : System) → IsSound s → low_of s ≤ length s.popped
low-le-popped s w = by_consumer s.consumer w.follows
  where
    by_consumer :
        (c : Consumer)
        → Follows s.ring.cap s.ring.cells
            (freed c s.ring.deq_pos)
            s.claimed
            c
            s.ring.deq_pos
            (length s.popped)
        → freed c s.ring.deq_pos ≤ length s.popped
    by_consumer ready f = omega (arith, f)
    by_consumer (takes p) f = omega (arith, f.1)
    by_consumer (releases p) f = omega (arith, f.1)

-- However any number of producers and the consumer interleave, from a new ring of two cells or more, as
-- long as fewer than 2^63 - cap - 1 items are pushed: what pops have returned is the items of the pushes
-- that won, in the order in which these won, from the first on without a gap; and no more than the
-- capacity are pushed and not yet popped.
pub run-take :
    (cap : ℕ) (as' : List Action)
    → 1 < cap
    → length (run as' (create cap)).claimed + cap + 1 < 2 ^ 63
    → let s = run as' (create cap) in
      (s.popped ≡ take (length s.popped) s.claimed) × (length s.claimed ≤ length s.popped + cap)
unfolding create
run-take cap as' h b =
    let s = run as' (create cap) in
    let g = run-Grows as' (create cap) in
    let w =
      run-IsSound as' (create cap) (omega (arith, b, g.1))
        (create-IsSound cap h (omega (arith, b))) in
    (w.order, omega (arith, w.within, g.1, low-le-popped s w))
