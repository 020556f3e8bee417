-- ===== src/Itc/Mailbox/Wake.antt =====
-- No wake-up is lost.
use affini_x.Base.{
  ℕ, zero, suc, ◌≡◌, inl, inr, refl, sym, ap, ◌∙◌, Bool, Bool-cases, true, false, not, Option, none,
  some, List, [], ◌∷◌, ◌++◌, ◌&&◌, arith, ◌==◌, if_cases,
}
use affini_x.Itc.Mailbox.{
  publish_in_batch, publishes_in_batch, Mailbox, running, blocked, PostedItem, Phase, stages,
  arming, armed, sleeping, polling, create, claim, publish, after_push, ring_is_empty, take_one,
  drain_loop, drain_mailbox, arm, store_blocked, recheck, wait_returns, consume, act, run, Action,
  claims, publishes, looks, drains, arms, stores, rechecks, returns, dies, is_blocked_state,
}

abbrev is_sleeping : Phase → Bool
is_sleeping sleeping = true
is_sleeping p = false

abbrev holds_blocked : Phase → Bool
holds_blocked sleeping = true
holds_blocked armed = true
holds_blocked p = false

-- The consumer sleeps over an item that it could take, nobody has woken it, and no producer is left that
-- has yet to look at its state.
abbrev pub is_lost : Mailbox → Bool
is_lost m = is_sleeping m.phase && (not (ring_is_empty m.ring) && (not m.wake && (m.checking == 0)))

pub record IsSound (m : Mailbox) : Type 0 where
  published : holds_blocked m.phase ≡ true → m.state ≡ blocked
  flagged : is_sleeping m.phase ≡ m.is_blocked
  awake : is_lost m ≡ false

ring_is_empty-claim :
    (r : List (Option PostedItem)) → ring_is_empty (r ++ none ∷ []) ≡ ring_is_empty r
ring_is_empty-claim [] = refl
ring_is_empty-claim (some it ∷ r) = refl
ring_is_empty-claim (none ∷ r) = refl

claim-IsSound : (m : Mailbox) → IsSound m → IsSound (claim m).1
unfolding claim
claim-IsSound m w = record {
  published = ground (arith, w.published);
  flagged = ground (arith, w.flagged);
  awake = ground (arith, w.awake, ring_is_empty-claim m.ring);
}

publish-IsSound : (k : ℕ) (it : PostedItem) (m : Mailbox) → IsSound m → IsSound (publish k it m)
unfolding publish
publish-IsSound k it m w = record {
  published = ground (arith, w.published);
  flagged = ground (arith, w.flagged);
  awake = ground (arith, w.awake);
}

publish_in_batch-IsSound :
    (first : Bool) (k : ℕ) (it : PostedItem) (m : Mailbox)
    → IsSound m
    → IsSound (publish_in_batch first k it m)
unfolding publish_in_batch
publish_in_batch-IsSound first k it m w = record {
  published = ground (arith, w.published);
  flagged = ground (arith, w.flagged);
  awake = ground (arith, w.awake);
}

-- While the consumer sleeps its state says so.
sleeping-blocked : (p : Phase) → is_sleeping p ≡ true → holds_blocked p ≡ true
sleeping-blocked sleeping e = refl
sleeping-blocked stages e = cc
sleeping-blocked arming e = cc
sleeping-blocked armed e = cc
sleeping-blocked polling e = cc

not_asleep : (m : Mailbox) → is_sleeping m.phase ≡ false → is_lost m ≡ false
not_asleep m e = ap (λ b. b && (not (ring_is_empty m.ring) && (not m.wake && (m.checking == 0)))) e

after_push-phase : (m : Mailbox) → (after_push m).phase ≡ m.phase
unfolding after_push
after_push-phase m = ground arith

after_push-IsSound : (m : Mailbox) → IsSound m → IsSound (after_push m)
unfolding after_push
after_push-IsSound m w = record {
  published = ground (arith, w.published);
  flagged = ground (arith, w.flagged);
  awake = elim (Bool-cases (is_sleeping m.phase)) [
    | inl e ↦
        let b : is_blocked_state m.state ≡ true =
          ap is_blocked_state (w.published (sleeping-blocked m.phase e)) in
        ground (arith, b, w.awake)
    | inr e ↦ not_asleep (after_push m) (ap is_sleeping (after_push-phase m) ∙ e)
  ];
}

drain_loop-phase :
    (n now : ℕ) (r : List (Option PostedItem)) (m : Mailbox)
    → ((drain_loop n now r m).phase ≡ m.phase) × ((drain_loop n now r m).is_blocked ≡ m.is_blocked)
unfolding drain_loop
drain_loop-phase zero now r m = (refl, refl)
drain_loop-phase (suc n) now [] m = (refl, refl)
drain_loop-phase (suc n) now (none ∷ r) m = (refl, refl)
drain_loop-phase (suc n) now (some it ∷ r) m =
    let p = drain_loop-phase n now r (take_one now it m) in (p.0 ∙ ground arith, p.1 ∙ ground arith)

quiet_phase : (p : Phase) → holds_blocked p ≡ false → is_sleeping p ≡ false
quiet_phase stages e = refl
quiet_phase arming e = refl
quiet_phase armed e = cc
quiet_phase sleeping e = cc
quiet_phase polling e = refl

quiet-IsSound : (m : Mailbox) → holds_blocked m.phase ≡ false → m.is_blocked ≡ false → IsSound m
quiet-IsSound m q b = record {
  published = λ e. cc;
  flagged = quiet_phase m.phase q ∙ sym b;
  awake = not_asleep m (quiet_phase m.phase q);
}

arm-IsSound : (b : Bool) (m : Mailbox) → m.is_blocked ≡ false → IsSound (arm b m)
unfolding arm
arm-IsSound b m q =
    if_cases IsSound (b && ring_is_empty m.ring) (record m { phase = arming })
      (record m { phase = polling }) (λ e. quiet-IsSound (record m { phase = arming }) refl q)
      (λ e. quiet-IsSound (record m { phase = polling }) refl q)

store_blocked-IsSound : (m : Mailbox) → m.is_blocked ≡ false → IsSound (store_blocked m)
unfolding store_blocked
store_blocked-IsSound m q = record { published = λ e. refl; flagged = sym q; awake = refl }

recheck-IsSound : (m : Mailbox) → m.state ≡ blocked → m.is_blocked ≡ false → IsSound (recheck m)
unfolding recheck
recheck-IsSound m q b = elim (Bool-cases (ring_is_empty m.ring)) [
  | inl e ↦ rw e (record { published = λ k. q; flagged = refl; awake = ground (arith, e) })
  | inr e ↦ rw e (quiet-IsSound (record m { state = running; phase = polling }) refl b)
]

wait_returns-IsSound : (m : Mailbox) → IsSound (wait_returns m)
unfolding wait_returns
wait_returns-IsSound m = record { published = λ e. cc; flagged = refl; awake = refl }

consume-IsSound :
    (p : Phase) (a : Action) (m : Mailbox) → m.phase ≡ p → IsSound m → IsSound (consume p a m)
unfolding consume drain_mailbox
consume-IsSound stages (drains n now) m e w =
    let p = drain_loop-phase n now m.ring m in
    quiet-IsSound (drain_loop n now m.ring m) (ap holds_blocked (p.0 ∙ e))
      (p.1 ∙ sym w.flagged ∙ ap is_sleeping e)
consume-IsSound stages (arms b) m e w = arm-IsSound b m (sym w.flagged ∙ ap is_sleeping e)
consume-IsSound stages claims m e w = w
consume-IsSound stages (publishes k it) m e w = w
consume-IsSound stages (publishes_in_batch first k it) m e w = w
consume-IsSound stages looks m e w = w
consume-IsSound stages rechecks m e w = w
consume-IsSound stages returns m e w = w
consume-IsSound stages stores m e w = w
consume-IsSound stages dies m e w = w
consume-IsSound arming stores m e w = store_blocked-IsSound m (sym w.flagged ∙ ap is_sleeping e)
consume-IsSound arming claims m e w = w
consume-IsSound arming (publishes k it) m e w = w
consume-IsSound arming (publishes_in_batch first k it) m e w = w
consume-IsSound arming looks m e w = w
consume-IsSound arming (drains n now) m e w = w
consume-IsSound arming (arms b) m e w = w
consume-IsSound arming rechecks m e w = w
consume-IsSound arming returns m e w = w
consume-IsSound arming dies m e w = w
consume-IsSound armed rechecks m e w =
    recheck-IsSound m (w.published (ap holds_blocked e)) (sym w.flagged ∙ ap is_sleeping e)
consume-IsSound armed claims m e w = w
consume-IsSound armed (publishes k it) m e w = w
consume-IsSound armed (publishes_in_batch first k it) m e w = w
consume-IsSound armed looks m e w = w
consume-IsSound armed (drains n now) m e w = w
consume-IsSound armed (arms b) m e w = w
consume-IsSound armed returns m e w = w
consume-IsSound armed stores m e w = w
consume-IsSound armed dies m e w = w
consume-IsSound sleeping returns m e w = wait_returns-IsSound m
consume-IsSound sleeping claims m e w = w
consume-IsSound sleeping (publishes k it) m e w = w
consume-IsSound sleeping (publishes_in_batch first k it) m e w = w
consume-IsSound sleeping looks m e w = w
consume-IsSound sleeping (drains n now) m e w = w
consume-IsSound sleeping (arms b) m e w = w
consume-IsSound sleeping rechecks m e w = w
consume-IsSound sleeping stores m e w = w
consume-IsSound sleeping dies m e w = w
consume-IsSound polling returns m e w = wait_returns-IsSound m
consume-IsSound polling claims m e w = w
consume-IsSound polling (publishes k it) m e w = w
consume-IsSound polling (publishes_in_batch first k it) m e w = w
consume-IsSound polling looks m e w = w
consume-IsSound polling (drains n now) m e w = w
consume-IsSound polling (arms b) m e w = w
consume-IsSound polling rechecks m e w = w
consume-IsSound polling stores m e w = w
consume-IsSound polling dies m e w = w

act-IsSound : (a : Action) (m : Mailbox) → IsSound m → IsSound (act a m)
unfolding act
act-IsSound claims m w = claim-IsSound m w
act-IsSound (publishes k it) m w = publish-IsSound k it m w
act-IsSound (publishes_in_batch first k it) m w = publish_in_batch-IsSound first k it m w
act-IsSound looks m w = after_push-IsSound m w
act-IsSound dies m w = record { published = w.published; flagged = w.flagged; awake = w.awake }
act-IsSound (drains n now) m w = consume-IsSound m.phase (drains n now) m refl w
act-IsSound (arms b) m w = consume-IsSound m.phase (arms b) m refl w
act-IsSound stores m w = consume-IsSound m.phase stores m refl w
act-IsSound rechecks m w = consume-IsSound m.phase rechecks m refl w
act-IsSound returns m w = consume-IsSound m.phase returns m refl w

run-IsSound : (as' : List Action) (m : Mailbox) → IsSound m → IsSound (run as' m)
unfolding run
run-IsSound [] m w = w
run-IsSound (a ∷ as') m w = run-IsSound as' (act a m) (act-IsSound a m w)

-- However producers and the consumer interleave, from a new mailbox of any capacity: the consumer never
-- sleeps over an item that it could take with no wake-up on its way and no producer left that has yet
-- to look at its state.
pub no_lost_wakeup : (cap : ℕ) (as' : List Action) → is_lost (run as' (create cap)) ≡ false
unfolding create
no_lost_wakeup cap as' =
    (run-IsSound as' (create cap)
      (record { published = λ e. cc; flagged = refl; awake = refl })).awake
