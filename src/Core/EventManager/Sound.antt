-- ===== src/Core/EventManager/Sound.antt =====
-- The lists of a loop's timers hold only timers that are alive, each at most once.
use affini_x.Base.{
  ℕ, zero, suc, ◌+◌, ◌≡◌, refl, ap, subst, ◌∙◌, Bool, true, false, not, Option, none, some, List,
  [], ◌∷◌, ◌++◌, ◌&&◌, ltb, ◌==◌, if◌then◌else◌, length, get_elem?, set, All,
}
use affini_x.Core.EventManager.{
  RepeatMode, fixed_rate, TimerNode, Timers, Call, afters, ats, everys, cancels, reschedules,
  groups_new, cancels_group, Event, expires, works, node_of, get, put, either, insert_timer,
  unlink_timer, arm, after, at, every, cancelled_node, cancel_node, cancel, reschedule_node,
  reschedule, make_timer_group, is_in, is_member, cancelled_slot, cancel_members, cancel_group,
  call, is_fixed_rate, at_callback, is_held, step,
}

-- A dead timer is in no list, and a cancelled timer is dead.
abbrev pub is_sound : TimerNode → Bool
is_sound n = not (n.is_dead && is_held n) && either (not n.cancelled) n.is_dead

abbrev pub slot_sound : Option TimerNode → Bool
slot_sound none = true
slot_sound (some n) = is_sound n

pub record IsSound (s : Timers) : Type 0 where
  pub slots : All (λ o. slot_sound o ≡ true) s.timers
  pub whole : s.is_broken ≡ false

-- Whether a call of `reschedule` is one that the lists bear: the timer is not a dead one, and not the one
-- whose callback makes the call, `f`, unless that one has been linked again before it.
abbrev pub bears : Option ℕ → ℕ → Option TimerNode → Bool
bears f id none = true
bears f id (some n) = either n.cancelled (not n.is_dead && not (is_in id f))

abbrev pub careful_call : Option ℕ → Call → Timers → Bool
careful_call f (reschedules id d) s = bears f id (get id s)
careful_call f c s = true

unfoldable pub careful_calls : Option ℕ → List Call → Timers → Bool
careful_calls f [] s = true
careful_calls f (c ∷ cs) s = careful_call f c s && careful_calls f cs (call c s)

abbrev pub firing : ℕ → TimerNode → Option ℕ
firing id n = if ltb 0 n.period && is_fixed_rate n.mode then none else some id

abbrev pub careful_expire : ℕ → List Call → Option TimerNode → Timers → Bool
careful_expire id cs none s = true
careful_expire id cs (some n) s =
    careful_calls (firing id n) cs (at_callback id (unlink_timer n) (put id (unlink_timer n) s))

abbrev pub careful_event : Event → Timers → Bool
careful_event (expires id cs) s = careful_expire id cs (get id s) s
careful_event (works c) s = careful_call none c s
careful_event e s = true

unfoldable pub is_careful : List Event → Timers → Bool
unfolding careful_calls
is_careful [] s = true
is_careful (e ∷ es) s = careful_event e s && is_careful es (step e s)

pub get_elem?-slot_sound :
    (os : List (Option TimerNode)) (id : ℕ) (n : TimerNode)
    → All (λ o. slot_sound o ≡ true) os
    → node_of (get_elem? os id) ≡ some n
    → is_sound n ≡ true
get_elem?-slot_sound [] id n a e = cc
get_elem?-slot_sound (none ∷ os) zero n a e = cc
get_elem?-slot_sound (some m ∷ os) zero n a e = subst (λ x. slot_sound x ≡ true) e a.0
get_elem?-slot_sound (o ∷ os) (suc id) n a e = get_elem?-slot_sound os id n a.1 e

pub get-put :
    (os : List (Option TimerNode)) (id : ℕ) (n m : TimerNode)
    → node_of (get_elem? os id) ≡ some n
    → node_of (get_elem? (set os id (some m)) id) ≡ some m
get-put [] id n m e = cc
get-put (o ∷ os) zero n m e = refl
get-put (o ∷ os) (suc id) n m e = get-put os id n m e

pub All-set :
    (P : Option TimerNode → Type 0) (os : List (Option TimerNode)) (id : ℕ) (o : Option TimerNode)
    → All P os
    → P o
    → All P (set os id o)
All-set P [] id o a p = a
All-set P (x ∷ os) zero o a p = (p, a.1)
All-set P (x ∷ os) (suc id) o a p = (a.0, All-set P os id o a.1 p)

All-push_back :
    (P : Option TimerNode → Type 0) (os : List (Option TimerNode)) (o : Option TimerNode)
    → All P os
    → P o
    → All P (os ++ o ∷ [])
All-push_back P [] o a p = (p, tt)
All-push_back P (x ∷ os) o a p = (a.0, All-push_back P os o a.1 p)

pub if_second :
    {A : Type 0}
    → (P : Timers → Type 0) (b : Bool) (x y : A × Timers) → (b ≡ true → P x.1)
    → (b ≡ false → P y.1)
    → P (if b then x else y).1
if_second P true x y p q = p refl
if_second P false x y p q = q refl

pub put-IsSound :
    (id : ℕ) (n : TimerNode) (s : Timers) → IsSound s → is_sound n ≡ true → IsSound (put id n s)
put-IsSound id n s w e = record {
  slots = All-set (λ o. slot_sound o ≡ true) s.timers id (some n) w.slots e;
  whole = w.whole;
}

-- A node that may be linked: in neither structure, not dead and not cancelled.
abbrev pub is_free : TimerNode → Bool
is_free n = not n.is_linked && (not n.is_dead && not n.cancelled)

free-linked_sound :
    (l d c : Bool) (h : Bool)
    → not l && (not d && not c) ≡ true
    → (l ≡ false) × (not (d && h) && either (not c) d ≡ true)
free-linked_sound true d c h e = cc
free-linked_sound false true c h e = cc
free-linked_sound false false true h e = cc
free-linked_sound false false false h e = (refl, refl)

pub insert_timer-IsSound :
    (id : ℕ) (n : TimerNode) (s : Timers)
    → IsSound s
    → is_free n ≡ true
    → IsSound (insert_timer id n s)
unfolding insert_timer
insert_timer-IsSound id n s w e =
    let p =
      free-linked_sound n.is_linked n.is_dead n.cancelled (is_held (record n { is_linked = true }))
        e in
    record {
      slots =
          All-set (λ o. slot_sound o ≡ true) s.timers id (some (record n { is_linked = true }))
            w.slots p.1;
      whole = ap (λ b. either b n.is_linked) w.whole ∙ p.0;
    }

pub arm-IsSound :
    (expiry period : ℕ) (mode : RepeatMode) (g : Option ℕ) (s : Timers)
    → IsSound s
    → IsSound (arm expiry period mode g s)
unfolding arm
arm-IsSound expiry period mode g s w =
    insert_timer-IsSound (length s.timers) _ _
      (record {
        slots = All-push_back (λ o. slot_sound o ≡ true) s.timers none w.slots refl;
        whole = w.whole;
      })
      refl

cancel_node-IsSound :
    (id : ℕ) (o : Option TimerNode) (s : Timers) → IsSound s → IsSound (cancel_node id o s).1
cancel_node-IsSound id none s w = w
cancel_node-IsSound id (some n) s w =
    if_second IsSound n.cancelled _ _ (λ e. w)
      (λ e. record {
        slots =
            All-set (λ o. slot_sound o ≡ true) s.timers id (some (cancelled_node n)) w.slots refl;
        whole = w.whole;
      })

borne_free : (c d i : Bool) → c ≡ false → either c (not d && i) ≡ true → not d && not c ≡ true
borne_free true d i e b = cc
borne_free false true i e b = cc
borne_free false false i e b = refl

reschedule_node-IsSound :
    (f : Option ℕ) (id d : ℕ) (o : Option TimerNode) (s : Timers)
    → bears f id o ≡ true
    → IsSound s
    → IsSound (reschedule_node id d o s).1
reschedule_node-IsSound f id d none s b w = w
reschedule_node-IsSound f id d (some n) s b w =
    if_second IsSound n.cancelled _ _ (λ e. w)
      (λ e.
        insert_timer-IsSound id (record (unlink_timer n) { expiry = s.now + d }) s w
          (borne_free n.cancelled n.is_dead (not (is_in id f)) e b))

member_sound :
    (g : ℕ) (o : Option TimerNode)
    → slot_sound o ≡ true
    → slot_sound (if is_member g o then cancelled_slot o else o) ≡ true
member_sound g none e = refl
member_sound g (some n) e =
    elim (is_in g n.group)
      as (λ b. slot_sound (if b then some (cancelled_node n) else some n) ≡ true) [
        | true ↦ refl
        | false ↦ e
      ]

cancel_members-slot_sound :
    (g : ℕ) (os : List (Option TimerNode))
    → All (λ o. slot_sound o ≡ true) os
    → All (λ o. slot_sound o ≡ true) (cancel_members g os)
cancel_members-slot_sound g [] a = tt
cancel_members-slot_sound g (o ∷ os) a = (member_sound g o a.0, cancel_members-slot_sound g os a.1)

cancel_group-IsSound : (g : ℕ) (s : Timers) → IsSound s → IsSound (cancel_group g s).1
unfolding cancel_group
cancel_group-IsSound g s w =
    if_second IsSound (ltb g s.groups) _ _
      (λ e. record { slots = cancel_members-slot_sound g s.timers w.slots; whole = w.whole })
      (λ e. w)

pub call-IsSound :
    (f : Option ℕ) (c : Call) (s : Timers)
    → careful_call f c s ≡ true
    → IsSound s
    → IsSound (call c s)
unfolding call after at every cancel reschedule make_timer_group
call-IsSound f (afters d g) s e w = arm-IsSound (s.now + d) 0 fixed_rate g s w
call-IsSound f (ats t g) s e w = arm-IsSound t 0 fixed_rate g s w
call-IsSound f (everys p d m g) s e w = arm-IsSound (s.now + (if d == 0 then p else d)) p m g s w
call-IsSound f (cancels id) s e w = cancel_node-IsSound id (get id s) s w
call-IsSound f (reschedules id d) s e w = reschedule_node-IsSound f id d (get id s) s e w
call-IsSound f groups_new s e w = record { slots = w.slots; whole = w.whole }
call-IsSound f (cancels_group g) s e w = cancel_group-IsSound g s w
