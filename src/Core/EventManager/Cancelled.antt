-- ===== src/Core/EventManager/Cancelled.antt =====
-- A cancelled timer does not fire again.
use affini_x.Base.{
  ℕ, zero, suc, ◌≡◌, ◌≢◌, inl, refl, sym, ap, subst, ◌∙◌, Bool, true, false, not, Option, none,
  some, List, [], ◌∷◌, ◌&&◌, ltb, if◌then◌else◌, get_elem?, set, get_elem?-set_found,
}
use affini_x.Core.EventManager.{
  TimerNode, Timers, Call, Event, reads_clock, expires, works, ends, node_of, get, put,
  insert_timer, unlink_timer, cancelled_node, cancel_node, cancel, reschedule_node, reschedule,
  call, calls, is_fixed_rate, before_callback, at_callback, after_callback, fire_node, fire_timer,
  expire_node, expire, released, release_dead, bookkeeping, step, run,
}
use affini_x.Core.EventManager.Sound.{if_second}
use affini_x.Core.EventManager.Callback.{if_sound}
use affini_x.Core.EventManager.Slots.{get_elem?-set_has, call-Has}

-- Given back, or cancelled and in no structure.
abbrev is_off : Option (Option TimerNode) → Bool
is_off none = false
is_off (some none) = true
is_off (some (some n)) = n.cancelled && not n.is_linked

abbrev Off : ℕ → Timers → Type 0
Off id s = is_off (get_elem? s.timers id) ≡ true

on_off : (b : Bool) → b ≡ true → b ≡ false → ⊥
on_off b e h = cc

-- A node that is not cancelled, or is in a structure, is not in a slot that is off.
on_apart :
    (os : List (Option TimerNode)) (id j : ℕ) (n : TimerNode)
    → is_off (get_elem? os id) ≡ true
    → get_elem? os j ≡ some (some n)
    → n.cancelled && not n.is_linked ≡ false
    → j ≢ id
on_apart os id j n e q h k =
    let off : n.cancelled && not n.is_linked ≡ true =
      subst (λ x. is_off x ≡ true) (ap (get_elem? os) (sym k) ∙ q) e in
    absurd (on_off (n.cancelled && not n.is_linked) off h)

linked_on : (c l : Bool) → l ≡ true → c && not l ≡ false
linked_on true l e = ap not e
linked_on false l e = refl

set_apart :
    (os : List (Option TimerNode)) (id j : ℕ) (o : Option TimerNode)
    → is_off (get_elem? os id) ≡ true
    → j ≢ id
    → is_off (get_elem? (set os j o) id) ≡ true
set_apart os id j o e h = get_elem?-set_has is_off refl (λ n. refl) os id j o e (inl h)

reschedule_slot-Off :
    (id j d : ℕ) (x : Option (Option TimerNode)) (s : Timers)
    → get_elem? s.timers j ≡ x
    → Off id s
    → Off id (reschedule_node j d (node_of x) s).1
unfolding insert_timer
reschedule_slot-Off id j d none s q e = e
reschedule_slot-Off id j d (some none) s q e = e
reschedule_slot-Off id j d (some (some n)) s q e =
    if_second (Off id) n.cancelled _ _ (λ _. e)
      (λ c.
        set_apart s.timers id j _ e
          (on_apart s.timers id j n e q (ap (λ b. b && not n.is_linked) c)))

call-Off : (id : ℕ) (c : Call) (s : Timers) → Off id s → Off id (call c s)
unfolding reschedule
call-Off id c s e =
    call-Has is_off refl (λ n. refl) id c s
      (λ j d _. reschedule_slot-Off id j d (get_elem? s.timers j) s refl e) e

calls-Off : (id : ℕ) (cs : List Call) (s : Timers) → Off id s → Off id (calls cs s)
unfolding calls
calls-Off id [] s e = e
calls-Off id (c ∷ cs) s e = calls-Off id cs (call c s) (call-Off id c s e)

at_callback-Off :
    (id j : ℕ) (n : TimerNode) (s : Timers) → j ≢ id → Off id s → Off id (at_callback j n s)
unfolding at_callback before_callback insert_timer
at_callback-Off id j n s h e =
    if_sound (Off id) (ltb 0 n.period && is_fixed_rate n.mode) _ _
      (λ _. set_apart s.timers id j _ e h) (λ _. e)

after_callback-Off :
    (id j : ℕ) (n : TimerNode) (o : Option TimerNode) (s : Timers)
    → j ≢ id
    → Off id s
    → Off id (after_callback j n o s)
unfolding after_callback insert_timer
after_callback-Off id j n none s h e = e
after_callback-Off id j n (some m) s h e =
    if_sound (Off id) m.cancelled _ _ (λ _. e)
      (λ _.
        if_sound (Off id) (ltb 0 n.period) _ _
          (λ _.
            if_sound (Off id) (is_fixed_rate n.mode) _ _ (λ _. e)
              (λ _. set_apart s.timers id j _ e h))
          (λ _. set_apart s.timers id j _ e h))

fire_node-Off :
    (id j : ℕ) (cs : List Call) (n : TimerNode) (s : Timers)
    → j ≢ id
    → Off id s
    → Off id (fire_node j cs n s)
fire_node-Off id j cs n s h e =
    if_sound (Off id) n.cancelled _ _ (λ _. set_apart s.timers id j _ e h)
      (λ _.
        let s1 = calls cs (at_callback j n s) in
        after_callback-Off id j n (get j s1) s1 h
          (calls-Off id cs (at_callback j n s) (at_callback-Off id j n s h e)))

expire_node-Off :
    (id j : ℕ) (cs : List Call) (x : Option (Option TimerNode)) (s : Timers)
    → get_elem? s.timers j ≡ x
    → Off id s
    → Off id (expire_node j cs (node_of x) s)
unfolding fire_timer
expire_node-Off id j cs none s q e = e
expire_node-Off id j cs (some none) s q e = e
expire_node-Off id j cs (some (some n)) s q e =
    if_sound (Off id) n.is_linked _ _
      (λ l.
        let apart = on_apart s.timers id j n e q (linked_on n.cancelled n.is_linked l) in
        fire_node-Off id j cs (unlink_timer n) (put j (unlink_timer n) s) apart
          (set_apart s.timers id j (some (unlink_timer n)) e apart))
      (λ _. e)

released_off : (o : Option TimerNode) → is_off (some o) ≡ true → is_off (some (released o)) ≡ true
released_off none e = e
released_off (some n) e =
    elim n.is_dead as (λ b. is_off (some (if b then none else some n)) ≡ true) [
      | true ↦ refl
      | false ↦ e
    ]

release_dead-off :
    (os : List (Option TimerNode)) (id : ℕ)
    → is_off (get_elem? os id) ≡ true
    → is_off (get_elem? (release_dead os) id) ≡ true
release_dead-off [] id e = e
release_dead-off (o ∷ os) zero e = released_off o e
release_dead-off (o ∷ os) (suc id) e = release_dead-off os id e

step-Off : (id : ℕ) (v : Event) (s : Timers) → Off id s → Off id (step v s)
unfolding step expire bookkeeping
step-Off id (reads_clock t) s e = e
step-Off id (expires j cs) s e = expire_node-Off id j cs (get_elem? s.timers j) s refl e
step-Off id (works c) s e = call-Off id c s e
step-Off id ends s e = release_dead-off s.timers id e

run-Off : (id : ℕ) (es : List Event) (s : Timers) → Off id s → Off id (run es s)
unfolding run
run-Off id [] s e = e
run-Off id (v ∷ es) s e = run-Off id es (step v s) (step-Off id v s e)

answered :
    (P : Timers → Type 0) (b : Bool) (x y : Bool × Timers)
    → x.0 ≡ false
    → P y.1
    → (if b then x else y).0 ≡ true
    → P (if b then x else y).1
answered P true x y h p e = absurd (on_off x.0 e h)
answered P false x y h p e = p

cancel_slot-Off :
    (id : ℕ) (x : Option (Option TimerNode)) (s : Timers)
    → get_elem? s.timers id ≡ x
    → (cancel_node id (node_of x) s).0 ≡ true
    → Off id (cancel_node id (node_of x) s).1
cancel_slot-Off id none s q e = cc
cancel_slot-Off id (some none) s q e = cc
cancel_slot-Off id (some (some n)) s q e =
    answered (Off id) n.cancelled _ _ refl
      (ap is_off (get_elem?-set_found s.timers id (some n) (some (cancelled_node n)) q)) e

off_fields : (c l : Bool) → c && not l ≡ true → (c ≡ true) × (l ≡ false)
off_fields true true e = cc
off_fields true false e = (refl, refl)
off_fields false l e = cc

off_lem :
    (id d : ℕ) (cs : List Call) (x : Option (Option TimerNode)) (s : Timers)
    → is_off x ≡ true
    → (expire_node id cs (node_of x) s ≡ s) × ((reschedule_node id d (node_of x) s).0 ≡ false)
off_lem id d cs none s e = cc
off_lem id d cs (some none) s e = (refl, refl)
off_lem id d cs (some (some n)) s e =
    let p = off_fields n.cancelled n.is_linked e in (rw p.1 refl, rw p.0 refl)

-- Once `cancel` has answered true, the timer is off for good: whatever comes up and whatever is called after
-- it, coming up does nothing for the timer, so that its callback does not run, and `reschedule` refuses it.
pub cancel_is_final :
    (id d : ℕ) (cs : List Call) (es : List Event) (s : Timers)
    → (cancel id s).0 ≡ true
    → (expire id cs (run es (cancel id s).1) ≡ run es (cancel id s).1)
      × ((reschedule id d (run es (cancel id s).1)).0 ≡ false)
unfolding cancel expire reschedule
cancel_is_final id d cs es s e =
    let s1 = run es (cancel id s).1 in
    let off = run-Off id es (cancel id s).1 (cancel_slot-Off id (get_elem? s.timers id) s refl e) in
    off_lem id d cs (get_elem? s1.timers id) s1 off
