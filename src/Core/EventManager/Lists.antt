-- ===== src/Core/EventManager/Lists.antt =====
-- Whatever fires, and whatever the callbacks and the other stages call, no node is linked twice and no slot
-- is given back while a list holds its node.
use affini_x.Base.{
  ℕ, ◌+◌, ◌≡◌, inl, inr, refl, ap, subst, ◌∙◌, Bool, Bool-cases, true, false, not, Option, none,
  some, List, [], ◌∷◌, ◌&&◌, arith, ltb, if◌then◌else◌, get_elem?, get_elem?-set_found, All,
}
use affini_x.Core.EventManager.{
  TimerNode, Timers, Call, Event, reads_clock, expires, works, ends, node_of, get, put, either,
  unlink_timer, calls, is_fixed_rate, before_callback, at_callback, after_callback, fire_node,
  fire_timer, expire_node, expire, is_held, released, release_dead, leaves_dangling, bookkeeping,
  step, run,
}
use affini_x.Core.EventManager.{coalesce}
use affini_x.Core.EventManager.Sound.{
  is_sound, slot_sound, IsSound, careful_calls, careful_expire, careful_event, is_careful, firing,
  get_elem?-slot_sound, put-IsSound, insert_timer-IsSound, call-IsSound,
}
use affini_x.Core.EventManager.Idle.{is_idle, Idle}
use affini_x.Core.EventManager.Callback.{
  and-true, calls-IsSound, calls-Idle, if_sound, linked_lem, idle_lem,
}

after_rate-IsSound :
    (id : ℕ) (n : TimerNode) (o : Option TimerNode) (s : Timers)
    → ltb 0 n.period && is_fixed_rate n.mode ≡ true
    → IsSound s
    → IsSound (after_callback id n o s)
unfolding after_callback
after_rate-IsSound id n none s e w = w
after_rate-IsSound id n (some m) s e w =
    let p = and-true (ltb 0 n.period) (is_fixed_rate n.mode) e in
    if_sound IsSound m.cancelled _ _ (λ _. w)
      (λ _.
        if_sound IsSound (ltb 0 n.period) _ _
          (λ _. if_sound IsSound (is_fixed_rate n.mode) _ _ (λ _. w) (λ r. cc)) (λ r. cc))

free_lem : (l d c : Bool) → l ≡ false → d ≡ false → c ≡ false → not l && (not d && not c) ≡ true
free_lem l d c a b e = grind arith

after_idle-IsSound :
    (id : ℕ) (n : TimerNode) (x : Option (Option TimerNode)) (s : Timers)
    → is_idle x ≡ true
    → IsSound s
    → IsSound (after_callback id n (node_of x) s)
unfolding after_callback
after_idle-IsSound id n none s h w = w
after_idle-IsSound id n (some none) s h w = w
after_idle-IsSound id n (some (some m)) s h w =
    if_sound IsSound m.cancelled _ _ (λ _. w)
      (λ c.
        let p = idle_lem m.is_linked m.cancelled m.is_dead c h in
        if_sound IsSound (ltb 0 n.period) _ _
          (λ _.
            if_sound IsSound (is_fixed_rate n.mode) _ _ (λ _. w)
              (λ _.
                insert_timer-IsSound id (record m { expiry = s.now + n.period }) s w
                  (free_lem m.is_linked m.is_dead m.cancelled p.0 p.1 c)))
          (λ _.
            put-IsSound id (record m { group = none; is_dead = true }) s w (rw p.0 (rw c refl))))

-- The loop at a callback, where the timer has been linked again and where it has not.
at_callback-IsSound :
    (id : ℕ) (n : TimerNode) (s : Timers)
    → not n.is_linked && (not n.is_dead && not n.cancelled) ≡ true
    → IsSound s
    → IsSound (at_callback id n s)
unfolding at_callback before_callback
at_callback-IsSound id n s e w =
    let v =
      if_sound IsSound (ltb 0 n.period && is_fixed_rate n.mode) _ _
        (λ _.
          insert_timer-IsSound id
            (record n { expiry = (coalesce (s.now + 1) s.now n.period (n.expiry + n.period) 0).0 })
            _ (record { slots = w.slots; whole = w.whole }) e)
        (λ _. w) in
    record { slots = v.slots; whole = v.whole }

at_callback-Idle :
    (id : ℕ) (n : TimerNode) (s : Timers)
    → ltb 0 n.period && is_fixed_rate n.mode ≡ false
    → Idle id s
    → Idle id (at_callback id n s)
unfolding at_callback before_callback
at_callback-Idle id n s e h =
    if_sound (Idle id) (ltb 0 n.period && is_fixed_rate n.mode) _ _ (λ r. cc) (λ _. h)

fire_node-IsSound :
    (id : ℕ) (cs : List Call) (n : TimerNode) (s : Timers)
    → n.is_linked ≡ false
    → n.is_dead ≡ false
    → n.cancelled ≡ false
    → careful_calls (firing id n) cs (at_callback id n s) ≡ true
    → IsSound s
    → Idle id s
    → IsSound (fire_node id cs n s)
fire_node-IsSound id cs n s l d c e w h =
    if_sound IsSound n.cancelled _ _ (λ r. cc)
      (λ _.
        let s0 = at_callback id n s in
        let s1 = calls cs s0 in
        let w0 = at_callback-IsSound id n s (free_lem n.is_linked n.is_dead n.cancelled l d c) w in
        let w1 = λ (f : Option ℕ) (q : firing id n ≡ f).
          calls-IsSound f cs s0 (subst (λ g. careful_calls g cs s0 ≡ true) q e) w0 in
        elim (Bool-cases (ltb 0 n.period && is_fixed_rate n.mode)) [
          | inl r ↦
              after_rate-IsSound id n (get id s1) s1 r
                (w1 none (ap (λ b. if b then none else some id) r))
          | inr r ↦
              let q = ap (λ b. if b then none else some id) r in
              let i1 =
                calls-Idle id cs s0 (subst (λ g. careful_calls g cs s0 ≡ true) q e)
                  (at_callback-Idle id n s r h) in
              after_idle-IsSound id n (get_elem? s1.timers id) s1 i1 (w1 (some id) q)
        ])

unlinked_sound : (d c h : Bool) → d ≡ false → c ≡ false → not (d && h) && either (not c) d ≡ true
unlinked_sound d c h a b = rw a (rw b refl)

sound-is_dangling : (d h c : Bool) → not (d && h) && c ≡ true → d && h ≡ false
sound-is_dangling true true c e = cc
sound-is_dangling true false c e = refl
sound-is_dangling false h c e = refl

released_sound : (n : TimerNode) → is_sound n ≡ true → slot_sound (released (some n)) ≡ true
released_sound n e = elim n.is_dead as (λ b. slot_sound (if b then none else some n) ≡ true) [
  | true ↦ refl
  | false ↦ e
]

expire_node-IsSound :
    (id : ℕ) (cs : List Call) (x : Option (Option TimerNode)) (s : Timers)
    → get_elem? s.timers id ≡ x
    → careful_expire id cs (node_of x) s ≡ true
    → IsSound s
    → IsSound (expire_node id cs (node_of x) s)
unfolding fire_timer
expire_node-IsSound id cs none s q e w = w
expire_node-IsSound id cs (some none) s q e w = w
expire_node-IsSound id cs (some (some n)) s q e w =
    if_sound IsSound n.is_linked _ _
      (λ l.
        let ok = get_elem?-slot_sound s.timers id n w.slots (ap node_of q) in
        let p = linked_lem n l ok in
        let n1 = unlink_timer n in
        let w1 =
          put-IsSound id n1 s w (unlinked_sound n.is_dead n.cancelled (is_held n1) p.0 p.1) in
        let i1 =
          ap is_idle (get_elem?-set_found s.timers id (some n) (some n1) q)
          ∙ rw p.0 (rw p.1 refl) in
        fire_node-IsSound id cs n1 (put id n1 s) refl p.0 p.1 e w1 i1)
      (λ _. w)

release_dead-slot_sound :
    (os : List (Option TimerNode))
    → All (λ o. slot_sound o ≡ true) os
    → All (λ o. slot_sound o ≡ true) (release_dead os) × (leaves_dangling os ≡ false)
release_dead-slot_sound [] a = (tt, refl)
release_dead-slot_sound (none ∷ os) a = let p = release_dead-slot_sound os a.1 in ((refl, p.0), p.1)
release_dead-slot_sound (some n ∷ os) a =
    let p = release_dead-slot_sound os a.1 in
    (
      (released_sound n a.0, p.0),
      ap (λ b. either b (leaves_dangling os)) (sound-is_dangling n.is_dead (is_held n) _ a.0) ∙ p.1,
    )

bookkeeping-IsSound : (s : Timers) → IsSound s → IsSound (bookkeeping s)
unfolding bookkeeping
bookkeeping-IsSound s w =
    let p = release_dead-slot_sound s.timers w.slots in
    record { slots = p.0; whole = ap (λ b. either b (leaves_dangling s.timers)) w.whole ∙ p.1 }

step-IsSound : (e : Event) (s : Timers) → careful_event e s ≡ true → IsSound s → IsSound (step e s)
unfolding step expire
step-IsSound (reads_clock t) s e w = record { slots = w.slots; whole = w.whole }
step-IsSound (expires id cs) s e w = expire_node-IsSound id cs (get_elem? s.timers id) s refl e w
step-IsSound (works c) s e w = call-IsSound none c s e w
step-IsSound ends s e w = bookkeeping-IsSound s w

-- From a sound loop, whatever timers come up and whatever calls their callbacks and the other stages make:
-- the loop stays sound, which says that a dead timer is in no list, that a cancelled timer is dead, that no
-- node was linked twice and that no slot was given back while a list held its node. The condition is that
-- no call reschedules a timer that has fired and is not linked again, be it the one whose callback runs.
pub run-IsSound :
    (es : List Event) (s : Timers) → is_careful es s ≡ true → IsSound s → IsSound (run es s)
unfolding run is_careful
run-IsSound [] s e w = w
run-IsSound (v ∷ es) s e w =
    let p = and-true (careful_event v s) (is_careful es (step v s)) e in
    run-IsSound es (step v s) p.1 (step-IsSound v s p.0 w)
