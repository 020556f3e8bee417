-- ===== src/Core/EventManager/Dangles.antt =====
-- `reschedule` of a one-shot timer that has fired, while its slot is not yet given back.
use affini_x.Base.{
  ℕ, zero, suc, ◌+◌, ◌≡◌, refl, sym, ap, subst, if◌then◌else◌, ◌∙◌, Bool, true, false, Option, none,
  some, List, [], ◌∷◌, get_elem?, set,
}
use affini_x.Core.EventManager.{
  RepeatMode, TimerNode, Timers, reschedules, node_of, get, put, insert_timer, unlink_timer,
  reschedule_node, reschedule, call, calls, before_callback, at_callback, after_callback,
  fire_timer, expire_node, expire, release_dead, bookkeeping,
}
use affini_x.Core.EventManager.Sound.{get-put}

-- A one-shot timer that the wheel or the heap holds.
abbrev pub one_shot : ℕ → RepeatMode → Option ℕ → TimerNode
one_shot t mode g = record {
  expiry = t;
  period = 0;
  mode = mode;
  cancelled = false;
  group = g;
  is_linked = true;
  is_dead = false;
}

-- The wheel or the heap holds the node of a timer, and the iteration's end gives its slot back.
pub IsLeftLinked : ℕ → Timers → Type 0
IsLeftLinked id s =
    (n : TimerNode) × (get id s ≡ some n) × (n.is_linked ≡ true) × (get id (bookkeeping s) ≡ none)

get-release_dead :
    (os : List (Option TimerNode)) (id : ℕ) (n : TimerNode)
    → node_of (get_elem? os id) ≡ some n
    → n.is_dead ≡ true
    → node_of (get_elem? (release_dead os) id) ≡ none
get-release_dead [] id n e h = refl
get-release_dead (none ∷ os) zero n e h = refl
get-release_dead (some m ∷ os) zero n e h =
    let d : m.is_dead ≡ true = ap (λ o. is_dead_in o) e ∙ h in
    ap (λ b. node_of (some (if b then none else some m))) d
  where
    is_dead_in : Option TimerNode → Bool
    is_dead_in none = false
    is_dead_in (some k) = k.is_dead
get-release_dead (o ∷ os) (suc id) n e h = get-release_dead os id n e h

dead-IsLeftLinked :
    (id : ℕ) (n : TimerNode) (s : Timers)
    → get id s ≡ some n
    → n.is_linked ≡ true
    → n.is_dead ≡ true
    → IsLeftLinked id s
unfolding IsLeftLinked bookkeeping
dead-IsLeftLinked id n s e l d = (n, e, l, get-release_dead s.timers id n e d)

-- A one-shot timer that has come up and fired.
abbrev spent : ℕ → RepeatMode → TimerNode
spent t mode = record {
  expiry = t;
  period = 0;
  mode = mode;
  cancelled = false;
  group = none;
  is_linked = false;
  is_dead = true;
}

expire-one_shot :
    (id t : ℕ) (mode : RepeatMode) (g : Option ℕ) (s : Timers)
    → get id s ≡ some (one_shot t mode g)
    → get id (expire id [] s) ≡ some (spent t mode)
unfolding expire fire_timer at_callback before_callback after_callback calls
expire-one_shot id t mode g s e =
    let n = one_shot t mode g in
    let n1 = unlink_timer n in
    let e1 = get-put s.timers id n n1 e in
    rw e (rw e1 (get-put (set s.timers id (some n1)) id n1 (spent t mode) e1))

reschedule-spent :
    (id t d : ℕ) (mode : RepeatMode) (s : Timers)
    → get id s ≡ some (spent t mode)
    → ((reschedule id d s).0 ≡ true) × IsLeftLinked id (reschedule id d s).1
unfolding reschedule insert_timer
reschedule-spent id t d mode s e =
    let n = spent t mode in
    let m : TimerNode = record n { is_linked = true; expiry = s.now + d } in
    rw e (refl, dead-IsLeftLinked id m _ (get-put s.timers id n m e) refl refl)

expire_in_callback :
    (id t d : ℕ) (mode : RepeatMode) (g : Option ℕ) (s : Timers)
    → get id s ≡ some (one_shot t mode g)
    → let n = unlink_timer (one_shot t mode g) in
      ((reschedule id d (at_callback id n (put id n s))).0 ≡ true)
      × IsLeftLinked id (expire id (reschedules id d ∷ []) s)
unfolding reschedule expire fire_timer at_callback before_callback after_callback calls call
    insert_timer
expire_in_callback id t d mode g s e =
    let n = one_shot t mode g in
    let n1 = unlink_timer n in
    let n2 : TimerNode = record n { expiry = s.now + d } in
    let m : TimerNode = record n2 { group = none; is_dead = true } in
    let s0 = at_callback id n1 (put id n1 s) in
    let s1 = call (reschedules id d) s0 in
    let s2 = insert_timer id (record n1 { expiry = s.now + d }) s0 in
    let e1 = get-put s.timers id n n1 e in
    let e2 = get-put (set s.timers id (some n1)) id n1 n2 e1 in
    let fires : expire id (reschedules id d ∷ []) s ≡ after_callback id n1 (get id s1) s1 =
      ap (λ o. expire_node id (reschedules id d ∷ []) o s) e in
    let links : s1 ≡ s2 = ap (λ o. (reschedule_node id d o s0).1) e1 in
    let dies : after_callback id n1 (get id s2) s2 ≡ put id m s2 =
      ap (λ o. after_callback id n1 o s2) e2 in
    (
      ap (λ o. (reschedule_node id d o s0).0) e1,
      subst (IsLeftLinked id)
          (sym (fires ∙ ap (λ x. after_callback id n1 (get id x) x) links ∙ dies))
          (dead-IsLeftLinked id m (put id m s2)
            (get-put (set (set s.timers id (some n1)) id (some n2)) id n2 m e2) refl refl),
    )

-- A one-shot timer that the wheel or the heap holds comes up, and something else that runs in the same
-- iteration, or its own callback, reschedules it: the call is answered true, and before the iteration's end
-- gives the timer's slot back the wheel or the heap holds its node.
pub reschedule_dangles :
    (id t d : ℕ) (mode : RepeatMode) (g : Option ℕ) (s : Timers)
    → get id s ≡ some (one_shot t mode g)
    → let n = unlink_timer (one_shot t mode g) in
      ((reschedule id d (expire id [] s)).0 ≡ true)
      × IsLeftLinked id (reschedule id d (expire id [] s)).1
      × ((reschedule id d (at_callback id n (put id n s))).0 ≡ true)
      × IsLeftLinked id (expire id (reschedules id d ∷ []) s)
reschedule_dangles id t d mode g s e =
    let p = reschedule-spent id t d mode (expire id [] s) (expire-one_shot id t mode g s e) in
    let q = expire_in_callback id t d mode g s e in (p.0, p.1, q.0, q.1)
