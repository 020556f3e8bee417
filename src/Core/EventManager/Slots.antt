-- ===== src/Core/EventManager/Slots.antt =====
-- A property of one slot, across calls that leave the slot alone or cancel its timer.
use affini_x.Base.{
  ℕ, zero, suc, ◌+◌, ◌≡◌, ◌≢◌, ◌⊎◌, inl, inr, refl, ap, Bool, true, false, Option, none, some, List,
  [], ◌∷◌, ◌++◌, ltb, ◌==◌, if◌then◌else◌, length, get_elem?, set,
}
use affini_x.Core.EventManager.{
  RepeatMode, fixed_rate, TimerNode, Timers, Call, afters, ats, everys, cancels, reschedules,
  groups_new, cancels_group, get, insert_timer, arm, after, at, every, cancelled_node, cancel_node,
  cancel, reschedule, make_timer_group, is_in, is_member, cancelled_slot, cancel_members,
  cancel_group, call,
}
use affini_x.Core.EventManager.Sound.{if_second}

module _ (P : Option (Option TimerNode) → Bool) (unset : P none ≡ false)
    (kept : (n : TimerNode) → P (some (some (cancelled_node n))) ≡ true) where
  abbrev pub Has : ℕ → Timers → Type 0
  Has id s = P (get_elem? s.timers id) ≡ true

  pub get_elem?-set_has :
      (os : List (Option TimerNode)) (id j : ℕ) (o : Option TimerNode)
      → P (get_elem? os id) ≡ true
      → (j ≢ id) ⊎ (P (some o) ≡ true)
      → P (get_elem? (set os j o) id) ≡ true
  get_elem?-set_has [] id j o e h = e
  get_elem?-set_has (x ∷ os) zero zero o e (inl h) = absurd (h refl)
  get_elem?-set_has (x ∷ os) zero zero o e (inr h) = h
  get_elem?-set_has (x ∷ os) zero (suc j) o e h = e
  get_elem?-set_has (x ∷ os) (suc id) zero o e h = e
  get_elem?-set_has (x ∷ os) (suc id) (suc j) o e (inl h) =
      get_elem?-set_has os id j o e (inl (λ q. h (ap suc q)))
  get_elem?-set_has (x ∷ os) (suc id) (suc j) o e (inr h) = get_elem?-set_has os id j o e (inr h)

  get_elem?-push_has :
      (os : List (Option TimerNode)) (id : ℕ) (o : Option TimerNode)
      → P (get_elem? os id) ≡ true
      → P (get_elem? (set (os ++ none ∷ []) (length os) o) id) ≡ true
  get_elem?-push_has [] id o e = cc
  get_elem?-push_has (x ∷ os) zero o e = e
  get_elem?-push_has (x ∷ os) (suc id) o e = get_elem?-push_has os id o e

  member_has :
      (g : ℕ) (o : Option TimerNode)
      → P (some o) ≡ true
      → P (some (if is_member g o then cancelled_slot o else o)) ≡ true
  member_has g none e = e
  member_has g (some n) e =
      elim (is_in g n.group)
        as (λ b. P (some (if b then some (cancelled_node n) else some n)) ≡ true) [
          | true ↦ kept n
          | false ↦ e
        ]

  get_elem?-cancel_members :
      (g : ℕ) (os : List (Option TimerNode)) (id : ℕ)
      → P (get_elem? os id) ≡ true
      → P (get_elem? (cancel_members g os) id) ≡ true
  get_elem?-cancel_members g [] id e = e
  get_elem?-cancel_members g (o ∷ os) zero e = member_has g o e
  get_elem?-cancel_members g (o ∷ os) (suc id) e = get_elem?-cancel_members g os id e

  arm-Has :
      (id expiry period : ℕ) (mode : RepeatMode) (g : Option ℕ) (s : Timers)
      → Has id s
      → Has id (arm expiry period mode g s)
  unfolding arm insert_timer
  arm-Has id expiry period mode g s e = get_elem?-push_has s.timers id _ e

  cancel_node-Has :
      (id j : ℕ) (o : Option TimerNode) (s : Timers) → Has id s → Has id (cancel_node j o s).1
  cancel_node-Has id j none s e = e
  cancel_node-Has id j (some n) s e =
      if_second (Has id) n.cancelled _ _ (λ _. e)
        (λ _. get_elem?-set_has s.timers id j (some (cancelled_node n)) e (inr (kept n)))

  cancel_group-Has : (id g : ℕ) (s : Timers) → Has id s → Has id (cancel_group g s).1
  unfolding cancel_group
  cancel_group-Has id g s e =
      if_second (Has id) (ltb g s.groups) _ _ (λ _. get_elem?-cancel_members g s.timers id e)
        (λ _. e)

  -- Every call but `reschedule` keeps the property; whether that one does is an argument.
  pub call-Has :
      (id : ℕ) (c : Call) (s : Timers)
      → ((j d : ℕ) → c ≡ reschedules j d → Has id (reschedule j d s).1)
      → Has id s
      → Has id (call c s)
  unfolding call after at every cancel make_timer_group
  call-Has id (afters d g) s h e = arm-Has id (s.now + d) 0 fixed_rate g s e
  call-Has id (ats t g) s h e = arm-Has id t 0 fixed_rate g s e
  call-Has id (everys p d m g) s h e = arm-Has id (s.now + (if d == 0 then p else d)) p m g s e
  call-Has id (cancels j) s h e = cancel_node-Has id j (get j s) s e
  call-Has id (reschedules j d) s h e = h j d refl
  call-Has id groups_new s h e = e
  call-Has id (cancels_group g) s h e = cancel_group-Has id g s e
