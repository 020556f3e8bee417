-- ===== src/Core/EventManager/Sinks/Queued.antt =====
-- The queue of pending writes holds a live sink once, and exactly where its flag is set.
use mathlib.Core.Bool.{false≢true}
use affini_x.Base.{
  ℕ, ◌+◌, ◌==◌, ◌≡◌, ◌≤◌, ◌<◌, refl, sym, ap, subst, ◌∙◌, Bool, true, false, not, ◌&&◌,
  if◌then◌else◌, if_cases, List, [], ◌∷◌, ◌++◌, update, count, count-append, arith,
}
use affini_x.Core.EventManager.Sinks.{
  completes, flushes, Sinks, create, register_sink, release_sink, note_write_pending, Call,
  registers, releases, notes, call, calls, dispatch_completions, flush_each, flush_writes, Action,
  makes_calls, dispatches, flushes_all, act, run,
}

-- What holds of the sink `i` of `made` that stands `n` times in the queue.
abbrev Fits : Bool → Bool → ℕ → ℕ → ℕ → Type 0
Fits live flag i made n =
    (live ≡ true → i < made) × (live ≡ true → n ≡ (if flag then 1 else 0)) × (made ≤ i → n ≡ 0)

-- The sinks `rest` of a round are still to be flushed.
abbrev Queued : List ℕ → Sinks → Type 0
Queued rest s =
    (i : ℕ)
    → Fits (s.is_live i) (s.write_pending i) i s.made (count i rest + count i s.pending_writes)

equal : (a b : ℕ) → (a == b) ≡ true → a ≡ b
equal a b e = ground arith

register-Queued : (rest : List ℕ) (s : Sinks) → Queued rest s → Queued rest (register_sink s)
unfolding register_sink
register-Queued rest s h i = by_place (s.made == i) (equal s.made i) (h i)
  where
    by_place :
        (b : Bool)
        → (b ≡ true → s.made ≡ i)
        → Fits (s.is_live i) (s.write_pending i) i s.made (count i rest + count i s.pending_writes)
        → Fits
            (if b then true else s.is_live i)
            (if b then false else s.write_pending i)
            i
            (s.made + 1)
            (count i rest + count i s.pending_writes)
    by_place true e w =
        (λ l. omega (arith, e refl), λ l. w.2 (omega (arith, e refl)), λ g. w.2 (omega (arith, g)))
    by_place false e w = (λ l. omega (arith, w.0 l), w.1, λ g. w.2 (omega (arith, g)))

release-Queued :
    (j : ℕ) (rest : List ℕ) (s : Sinks) → Queued rest s → Queued rest (release_sink j s)
unfolding release_sink
release-Queued j rest s h i =
    let n = count i rest + count i s.pending_writes in
    if_cases (λ l. Fits l (s.write_pending i) i s.made n) (j == i) false (s.is_live i)
      (λ e. (λ l. absurd (false≢true l), λ l. absurd (false≢true l), (h i).2)) (λ e. h i)

both : (a b : Bool) → (a && not b) ≡ true → (a ≡ true) × (b ≡ false)
both true false e = (refl, refl)
both true true e = absurd (false≢true e)
both false b e = absurd (false≢true e)

note-Queued :
    (j : ℕ) (rest : List ℕ) (s : Sinks) → Queued rest s → Queued rest (note_write_pending j s)
unfolding note_write_pending
note-Queued j rest s h =
    if_cases (Queued rest) (s.is_live j && not (s.write_pending j))
      (record s {
        write_pending = update s.write_pending j true;
        pending_writes = s.pending_writes ++ j ∷ [];
      })
      s
      (λ e i.
        let p = both (s.is_live j) (s.write_pending j) e in
        subst
          (λ n. Fits (s.is_live i) (update s.write_pending j true i) i s.made (count i rest + n))
          (sym (count-append i s.pending_writes (j ∷ [])))
          (by_place i (j == i) (equal j i) (h i) p.0 p.1))
      (λ e. h)
  where
    by_place :
        (i : ℕ) (b : Bool)
        → (b ≡ true → j ≡ i)
        → Fits (s.is_live i) (s.write_pending i) i s.made (count i rest + count i s.pending_writes)
        → s.is_live j ≡ true
        → s.write_pending j ≡ false
        → Fits
            (s.is_live i)
            (if b then true else s.write_pending i)
            i
            s.made
            (count i rest + (count i s.pending_writes + ((if b then 1 else 0) + 0)))
    by_place i true e w l f =
        let l' : s.is_live i ≡ true = ap s.is_live (sym (e refl)) ∙ l in
        let f' : s.write_pending i ≡ false = ap s.write_pending (sym (e refl)) ∙ f in
        let z = w.1 l' ∙ ap (λ b. if b then 1 else 0) f' in
        (w.0, λ k. omega (arith, z), λ g. absurd (omega (arith, g, w.0 l')))
    by_place i false e w l f = (w.0, λ k. omega (arith, w.1 k), λ g. omega (arith, w.2 g))

call-Queued : (c : Call) (rest : List ℕ) (s : Sinks) → Queued rest s → Queued rest (call c s)
unfolding call
call-Queued registers rest s h = register-Queued rest s h
call-Queued (releases i) rest s h = release-Queued i rest s h
call-Queued (notes i) rest s h = note-Queued i rest s h

calls-Queued :
    (cs : List Call) (rest : List ℕ) (s : Sinks) → Queued rest s → Queued rest (calls cs s)
unfolding calls
calls-Queued [] rest s h = h
calls-Queued (c ∷ cs) rest s h = calls-Queued cs rest (call c s) (call-Queued c rest s h)

dispatch-Queued :
    (cs : List (ℕ × List Call)) (s : Sinks) → Queued [] s → Queued [] (dispatch_completions cs s)
unfolding dispatch_completions
dispatch-Queued [] s h = h
dispatch-Queued (c ∷ cs) s h =
    let ran = record s { log = s.log ++ completes c.0 ∷ [] } in
    dispatch-Queued cs (if s.is_live c.0 then calls c.1 ran else s) (
      if_cases (Queued []) (s.is_live c.0) (calls c.1 ran) s (λ e. calls-Queued c.1 [] ran h)
        (λ e. h))

flush_each-Queued :
    (makes : ℕ → List Call) (is : List ℕ) (s : Sinks)
    → Queued is s
    → Queued [] (flush_each makes is s)
unfolding flush_each
flush_each-Queued makes [] s h = h
flush_each-Queued makes (j ∷ js) s h =
    let ran = record s {
      write_pending = update s.write_pending j false;
      log = s.log ++ flushes j ∷ [];
    } in
    flush_each-Queued makes js (if s.is_live j then calls (makes j) ran else s) (
      if_cases (Queued js) (s.is_live j) (calls (makes j) ran) s
        (λ e. calls-Queued (makes j) js ran (λ i. flushed i (j == i) (h i)))
        (λ e i. skipped i (j == i) (equal j i) e (h i)))
  where
    flushed :
        (i : ℕ) (b : Bool)
        → Fits
            (s.is_live i)
            (s.write_pending i)
            i
            s.made
            ((if b then 1 else 0) + count i js + count i s.pending_writes)
        → Fits
            (s.is_live i)
            (if b then false else s.write_pending i)
            i
            s.made
            (count i js + count i s.pending_writes)
    flushed i true w = (w.0, λ l. at_most (s.write_pending i) (w.1 l), λ g. omega (arith, w.2 g))
      where
        at_most :
            (f : Bool)
            → 1 + count i js + count i s.pending_writes ≡ (if f then 1 else 0)
            → count i js + count i s.pending_writes ≡ 0
        at_most true e = omega (arith, e)
        at_most false e = omega (arith, e)
    flushed i false w = (w.0, λ l. omega (arith, w.1 l), λ g. omega (arith, w.2 g))

    skipped :
        (i : ℕ) (b : Bool)
        → (b ≡ true → j ≡ i)
        → s.is_live j ≡ false
        → Fits
            (s.is_live i)
            (s.write_pending i)
            i
            s.made
            ((if b then 1 else 0) + count i js + count i s.pending_writes)
        → Fits (s.is_live i) (s.write_pending i) i s.made (count i js + count i s.pending_writes)
    skipped i true e d w = (
      w.0,
      λ l. absurd (false≢true (sym d ∙ ap s.is_live (e refl) ∙ l)),
      λ g. omega (arith, w.2 g),
    )
    skipped i false e d w = (w.0, λ l. omega (arith, w.1 l), λ g. omega (arith, w.2 g))

act-Queued : (a : Action) (s : Sinks) → Queued [] s → Queued [] (act a s)
unfolding act flush_writes
act-Queued (makes_calls cs) s h = calls-Queued cs [] s h
act-Queued (dispatches cs) s h = dispatch-Queued cs s h
act-Queued (flushes_all makes) s h =
    flush_each-Queued makes s.pending_writes (record s { pending_writes = [] }) (λ i. moved i (h i))
  where
    moved :
        (i : ℕ)
        → Fits (s.is_live i) (s.write_pending i) i s.made (0 + count i s.pending_writes)
        → Fits (s.is_live i) (s.write_pending i) i s.made (count i s.pending_writes + 0)
    moved i w =
        subst (Fits (s.is_live i) (s.write_pending i) i s.made) (swap (count i s.pending_writes)) w
      where
        swap : (n : ℕ) → 0 + n ≡ n + 0
        swap n = omega arith

run-Queued : (as' : List Action) (s : Sinks) → Queued [] s → Queued [] (run as' s)
unfolding run
run-Queued [] s h = h
run-Queued (a ∷ as') s h = run-Queued as' (act a s) (act-Queued a s h)

-- Whatever calls are made and whatever calls the handlers make when completions are dispatched and writes are
-- flushed: a live sink stands in the queue of pending writes once where it is noted to have one, and not
-- where it is not.
pub count-run :
    (as' : List Action) (i : ℕ)
    → let s = run as' create in
      s.is_live i ≡ true → count i s.pending_writes ≡ (if s.write_pending i then 1 else 0)
unfolding create
count-run as' i l = omega (
  arith,
  (run-Queued as' create
        (λ j. (λ k. absurd (false≢true k), λ k. absurd (false≢true k), λ g. omega arith)) i).1
      l,
)
