-- ===== src/Itc/Mailbox.antt =====
-- include/afx/itc/mailbox.hpp, and the mailbox's side of an iteration in
-- include/afx/core/event_manager.hpp. An action is what one thread does between two points at which
-- another may come between; the fences make any run a sequence of actions. The ring is the queue of
-- the slots that producers have claimed, a slot being `some` item once its producer has published it;
-- `checking` counts the producers that have published and not yet looked at the consumer's state.
pub mod Wake
mod Tests
use affini_x.Base.{
  ◌||◌, ℕ, zero, suc, ◌+◌, ◌-◌, Bool, true, false, not, Option, none, some, List, [], ◌∷◌, ◌++◌,
  ◌&&◌, ltb, ◌==◌, if◌then◌else◌, length, get_elem?, set,
}
use affini_x.Core.Context.{Deadline, expired}

pub data MailboxState : Type 0 where
  running : MailboxState
  blocked : MailboxState

pub data PostResult : Type 0 where
  ok : PostResult
  full : PostResult
  is_closed : PostResult

pub record PostedItem : Type 0 where
  pub fn : ℕ
  pub deadline : Deadline

-- Where the consumer stands in `poll_once`: in its stages, between its first look at the ring and the
-- store of Blocked, between that store and the second look at the ring, in a wait that may sleep, in a
-- wait that does not.
pub data Phase : Type 0 where
  stages : Phase
  arming : Phase
  armed : Phase
  sleeping : Phase
  polling : Phase

pub record Mailbox : Type 0 where
  pub cap : ℕ
  pub ring : List (Option PostedItem)
  pub state : MailboxState
  pub dead : Bool
  pub pushes : ℕ
  pub refused : ℕ
  pub checking : ℕ
  pub wake : Bool
  pub phase : Phase
  pub is_blocked : Bool
  pub handled : List PostedItem
  pub shed : ℕ

pub create : ℕ → Mailbox
create cap = record {
  cap = cap;
  ring = [];
  state = running;
  dead = false;
  pushes = 0;
  refused = 0;
  checking = 0;
  wake = false;
  phase = stages;
  is_blocked = false;
  handled = [];
  shed = 0;
}

-- The producer's first step: `try_push` claims a slot. Under SpinRetry a refused post is tried again.
pub claim : Mailbox → PostResult × Mailbox
claim m =
    if m.dead
    then (is_closed, m)
    else if ltb (length m.ring) m.cap
    then (ok, record m { ring = m.ring ++ none ∷ [] })
    else (full, record m { refused = m.refused + 1 })

abbrev pub is_unpublished : Option (Option PostedItem) → Bool
is_unpublished (some none) = true
is_unpublished o = false

-- The store that ends `try_push` on the claimed slot `k`.
pub publish : ℕ → PostedItem → Mailbox → Mailbox
publish k it m =
    if is_unpublished (get_elem? m.ring k)
    then record m {
      ring = set m.ring k (some it);
      pushes = m.pushes + 1;
      checking = m.checking + 1;
    }
    else m

-- The same in `post_batch`, which does not count its items and looks once, behind the last: `first` is
-- whether the item is the batch's first, with which its producer is one that has yet to look.
pub publish_in_batch : Bool → ℕ → PostedItem → Mailbox → Mailbox
publish_in_batch first k it m =
    if is_unpublished (get_elem? m.ring k) && (first || not (m.checking == 0))
    then record m {
      ring = set m.ring k (some it);
      checking = if first then m.checking + 1 else m.checking;
    }
    else m

abbrev pub is_blocked_state : MailboxState → Bool
is_blocked_state running = false
is_blocked_state blocked = true

-- The load in `after_push`, and the wake-up.
pub after_push : Mailbox → Mailbox
after_push m = if m.checking == 0 then m else record m {
  checking = m.checking - 1;
  wake = if is_blocked_state m.state then true else m.wake;
}

-- `empty` looks at the oldest slot: it is empty while that slot is not published.
abbrev pub ring_is_empty : List (Option PostedItem) → Bool
ring_is_empty (some it ∷ r) = false
ring_is_empty r = true

abbrev pub take_one : ℕ → PostedItem → Mailbox → Mailbox
take_one now it m =
    if expired it.deadline now
    then record m { shed = m.shed + 1 }
    else record m { handled = m.handled ++ it ∷ [] }

-- The items that one round takes, at most `n` of them.
pub drain_loop : ℕ → ℕ → List (Option PostedItem) → Mailbox → Mailbox
drain_loop zero now r m = record m { ring = r }
drain_loop (suc n) now (some it ∷ r) m = drain_loop n now r (take_one now it m)
drain_loop (suc n) now r m = record m { ring = r }

pub drain_mailbox : ℕ → ℕ → Mailbox → Mailbox
unfolding drain_loop
drain_mailbox max_itc_batch now m = drain_loop max_itc_batch now m.ring m

-- `wait_timeout` up to its first look at the ring; `may_block` is what the wait strategy, the deferred
-- tasks and the pending writes allow.
pub arm : Bool → Mailbox → Mailbox
arm may_block m =
    if may_block && ring_is_empty m.ring
    then record m { phase = arming }
    else record m { phase = polling }

-- The store of Blocked and the fence behind it.
pub store_blocked : Mailbox → Mailbox
store_blocked m = record m { state = blocked; phase = armed }

-- The second look at the ring.
pub recheck : Mailbox → Mailbox
recheck m =
    if ring_is_empty m.ring
    then record m { is_blocked = true; phase = sleeping }
    else record m { state = running; phase = polling }

-- The wait returns: for a wake-up, a completion or its timeout.
pub wait_returns : Mailbox → Mailbox
wait_returns m = record m {
  wake = false;
  state = if m.is_blocked then running else m.state;
  is_blocked = false;
  phase = stages;
}

pub data Action : Type 0 where
  claims : Action
  publishes : ℕ → PostedItem → Action
  publishes_in_batch : Bool → ℕ → PostedItem → Action
  looks : Action
  drains : ℕ → ℕ → Action
  arms : Bool → Action
  stores : Action
  rechecks : Action
  returns : Action
  dies : Action

-- What the consumer does next, where its phase allows it.
pub consume : Phase → Action → Mailbox → Mailbox
unfolding drain_mailbox arm store_blocked recheck wait_returns
consume stages (drains n now) m = drain_mailbox n now m
consume stages (arms may_block) m = arm may_block m
consume arming stores m = store_blocked m
consume armed rechecks m = recheck m
consume sleeping returns m = wait_returns m
consume polling returns m = wait_returns m
consume p a m = m

pub act : Action → Mailbox → Mailbox
unfolding claim publish publish_in_batch after_push consume
act claims m = (claim m).1
act (publishes k it) m = publish k it m
act (publishes_in_batch first k it) m = publish_in_batch first k it m
act looks m = after_push m
act dies m = record m { dead = true }
act a m = consume m.phase a m

-- Any interleaving of the producers and the consumer.
pub run : List Action → Mailbox → Mailbox
unfolding act
run [] m = m
run (a ∷ as') m = run as' (act a m)
