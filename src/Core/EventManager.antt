-- ===== src/Core/EventManager.antt =====
-- The timers of include/afx/core/event_manager.hpp. A timer is named by its place in the table, which no
-- later timer takes again: the table of handles gives each a fresh name (Core/HandleTable). `is_linked`
-- says whether the wheel or the heap holds the node, `group` which group's list holds it, and `is_dead`
-- whether its name is among the dead timers. Time is a number of nanoseconds. `is_broken` records that a
-- node was linked while it was linked already, or that its slot was given back while a list held it;
-- the source has nothing there that looks.
pub mod Dangles
pub mod Deferred
pub mod Idle
pub mod Callback
pub mod Lists
pub mod Rate
pub mod Shutdown
pub mod Sinks
pub mod Slots
pub mod Sound
pub mod Cancelled
mod Tests
use affini_x.Base.{
  ℕ, zero, suc, ◌+◌, ◌-◌, Bool, true, false, not, Option, none, some, List, [], ◌∷◌, ◌++◌, ◌&&◌,
  ltb, leb, ◌==◌, if◌then◌else◌, length, get_elem?, set,
}

pub data RepeatMode : Type 0 where
  fixed_rate : RepeatMode
  fixed_delay : RepeatMode

pub record TimerNode : Type 0 where
  pub expiry : ℕ
  pub period : ℕ
  pub mode : RepeatMode
  pub cancelled : Bool
  pub group : Option ℕ
  pub is_linked : Bool
  pub is_dead : Bool

pub record TimerStats : Type 0 where
  pub armed : ℕ
  pub fired : ℕ
  pub cancelled : ℕ
  pub coalesced : ℕ

pub record Timers : Type 0 where
  pub now : ℕ
  pub timers : List (Option TimerNode)
  pub groups : ℕ
  pub stats : TimerStats
  pub is_broken : Bool

pub create : Timers
create = record {
  now = 0;
  timers = [];
  groups = 0;
  stats = record { armed = 0; fired = 0; cancelled = 0; coalesced = 0 };
  is_broken = false;
}

abbrev pub node_of : Option (Option TimerNode) → Option TimerNode
node_of (some (some n)) = some n
node_of o = none

abbrev pub get : ℕ → Timers → Option TimerNode
get id s = node_of (get_elem? s.timers id)

abbrev pub put : ℕ → TimerNode → Timers → Timers
put id n s = record s { timers = set s.timers id (some n) }

abbrev pub either : Bool → Bool → Bool
either true b = true
either false b = b

pub insert_timer : ℕ → TimerNode → Timers → Timers
insert_timer id n s = record (put id (record n { is_linked = true }) s) {
  is_broken = either s.is_broken n.is_linked;
}

abbrev pub unlink_timer : TimerNode → TimerNode
unlink_timer n = record n { is_linked = false }

abbrev pub group_among : ℕ → Option ℕ → Option ℕ
group_among groups none = none
group_among groups (some g) = if ltb g groups then some g else none

pub arm : ℕ → ℕ → RepeatMode → Option ℕ → Timers → Timers
unfolding insert_timer
arm expiry period mode g s =
    let n : TimerNode = record {
      expiry = expiry;
      period = period;
      mode = mode;
      cancelled = false;
      group = group_among s.groups g;
      is_linked = false;
      is_dead = false;
    } in
    let st = s.stats in
    insert_timer (length s.timers) n
      (record s { timers = s.timers ++ none ∷ []; stats = record st { armed = st.armed + 1 } })

pub after : ℕ → Option ℕ → Timers → Timers
unfolding arm
after d g s = arm (s.now + d) 0 fixed_rate g s

pub at : ℕ → Option ℕ → Timers → Timers
unfolding arm
at t g s = arm t 0 fixed_rate g s

pub every : ℕ → ℕ → RepeatMode → Option ℕ → Timers → Timers
unfolding arm
every period initial_delay mode g s =
    let d = if initial_delay == 0 then period else initial_delay in arm (s.now + d) period mode g s

-- A node that a cancel has taken out of its lists.
abbrev pub cancelled_node : TimerNode → TimerNode
cancelled_node n = record n { cancelled = true; is_linked = false; group = none; is_dead = true }

abbrev pub count_cancelled : ℕ → Timers → Timers
count_cancelled k s =
    let st = s.stats in record s { stats = record st { cancelled = st.cancelled + k } }

abbrev pub cancel_node : ℕ → Option TimerNode → Timers → Bool × Timers
cancel_node id none s = (false, s)
cancel_node id (some n) s =
    if n.cancelled then (false, s) else (true, count_cancelled 1 (put id (cancelled_node n) s))

pub cancel : ℕ → Timers → Bool × Timers
cancel id s = cancel_node id (get id s) s

abbrev pub reschedule_node : ℕ → ℕ → Option TimerNode → Timers → Bool × Timers
reschedule_node id d none s = (false, s)
reschedule_node id d (some n) s =
    if n.cancelled
    then (false, s)
    else (true, insert_timer id (record (unlink_timer n) { expiry = s.now + d }) s)

pub reschedule : ℕ → ℕ → Timers → Bool × Timers
unfolding insert_timer
reschedule id d s = reschedule_node id d (get id s) s

abbrev pub time_until_node : Option TimerNode → ℕ → Option ℕ
time_until_node none now = none
time_until_node (some n) now = if n.cancelled then none else some (n.expiry - now)

pub time_until : ℕ → Timers → Option ℕ
time_until id s = time_until_node (get id s) s.now

pub make_timer_group : Timers → ℕ × Timers
make_timer_group s = (s.groups, record s { groups = s.groups + 1 })

abbrev pub is_in : ℕ → Option ℕ → Bool
is_in g none = false
is_in g (some h) = h == g

abbrev pub is_member : ℕ → Option TimerNode → Bool
is_member g none = false
is_member g (some n) = is_in g n.group

abbrev pub cancelled_slot : Option TimerNode → Option TimerNode
cancelled_slot none = none
cancelled_slot (some n) = some (cancelled_node n)

abbrev pub cancel_members : ℕ → List (Option TimerNode) → List (Option TimerNode)
cancel_members g [] = []
cancel_members g (o ∷ os) = (if is_member g o then cancelled_slot o else o) ∷ cancel_members g os

abbrev pub count_members : ℕ → List (Option TimerNode) → ℕ
count_members g [] = 0
count_members g (o ∷ os) = let k = count_members g os in if is_member g o then k + 1 else k

pub cancel_group : ℕ → Timers → ℕ × Timers
cancel_group g s =
    if ltb g s.groups
    then (
      count_members g s.timers,
      count_cancelled (count_members g s.timers) (record s { timers = cancel_members g s.timers }),
    )
    else (0, s)

-- The calls that a callback makes.
pub data Call : Type 0 where
  afters : ℕ → Option ℕ → Call
  ats : ℕ → Option ℕ → Call
  everys : ℕ → ℕ → RepeatMode → Option ℕ → Call
  cancels : ℕ → Call
  reschedules : ℕ → ℕ → Call
  groups_new : Call
  cancels_group : ℕ → Call

pub call : Call → Timers → Timers
unfolding after at every cancel reschedule make_timer_group cancel_group
call (afters d g) s = after d g s
call (ats t g) s = at t g s
call (everys p d m g) s = every p d m g s
call (cancels id) s = (cancel id s).1
call (reschedules id d) s = (reschedule id d s).1
call groups_new s = (make_timer_group s).1
call (cancels_group g) s = (cancel_group g s).1

pub calls : List Call → Timers → Timers
unfolding call
calls [] s = s
calls (c ∷ cs) s = calls cs (call c s)

-- The first slot behind `now`, and the number of slots missed. The period is not 0, so `now + 1` rounds
-- are enough.
pub coalesce : ℕ → ℕ → ℕ → ℕ → ℕ → ℕ × ℕ
coalesce zero now period next missed = (next, missed)
coalesce (suc n) now period next missed =
    let rest = coalesce n now period (next + period) (missed + 1) in
    if leb next now then rest else (next, missed)

abbrev pub is_fixed_rate : RepeatMode → Bool
is_fixed_rate fixed_rate = true
is_fixed_rate fixed_delay = false

-- Before the callback: a timer of fixed rate is linked again.
pub before_callback : ℕ → TimerNode → Timers → Timers
unfolding insert_timer coalesce
before_callback id n s =
    let next = coalesce (s.now + 1) s.now n.period (n.expiry + n.period) 0 in
    let st = s.stats in
    if ltb 0 n.period && is_fixed_rate n.mode
    then insert_timer id (record n { expiry = next.0 })
        (record s { stats = record st { coalesced = st.coalesced + next.1 } })
    else s

-- After the callback, `n` being what the node was before it, and the option what it is now.
pub after_callback : ℕ → TimerNode → Option TimerNode → Timers → Timers
unfolding insert_timer
after_callback id n none s = s
after_callback id n (some m) s =
    if m.cancelled
    then s
    else if ltb 0 n.period
    then (if is_fixed_rate n.mode
        then s
        else insert_timer id (record m { expiry = s.now + n.period }) s)
    else put id (record m { group = none; is_dead = true }) s

-- The loop at the moment the callback of `n` runs.
pub at_callback : ℕ → TimerNode → Timers → Timers
unfolding before_callback
at_callback id n s =
    let s1 = before_callback id n s in
    let st = s1.stats in record s1 { stats = record st { fired = st.fired + 1 } }

abbrev pub fire_node : ℕ → List Call → TimerNode → Timers → Timers
fire_node id cs n s =
    if n.cancelled
    then put id (record n { is_dead = true }) s
    else let s1 = calls cs (at_callback id n s) in after_callback id n (get id s1) s1

pub fire_timer : ℕ → List Call → Option TimerNode → Timers → Timers
unfolding at_callback after_callback calls
fire_timer id cs none s = s
fire_timer id cs (some n) s = fire_node id cs n s

-- A timer that the wheel or the heap holds comes up: it is unlinked and fires.
abbrev pub expire_node : ℕ → List Call → Option TimerNode → Timers → Timers
expire_node id cs none s = s
expire_node id cs (some n) s =
    if n.is_linked then fire_timer id cs (some (unlink_timer n)) (put id (unlink_timer n) s) else s

pub expire : ℕ → List Call → Timers → Timers
unfolding fire_timer
expire id cs s = expire_node id cs (get id s) s

abbrev pub is_held : TimerNode → Bool
is_held n = elim n.group [ none ↦ n.is_linked | some g ↦ true ]

abbrev pub released : Option TimerNode → Option TimerNode
released none = none
released (some n) = if n.is_dead then none else some n

abbrev pub release_dead : List (Option TimerNode) → List (Option TimerNode)
release_dead [] = []
release_dead (o ∷ os) = released o ∷ release_dead os

abbrev pub is_dangling : Option TimerNode → Bool
is_dangling none = false
is_dangling (some n) = n.is_dead && is_held n

abbrev pub leaves_dangling : List (Option TimerNode) → Bool
leaves_dangling [] = false
leaves_dangling (o ∷ os) = either (is_dangling o) (leaves_dangling os)

-- The dead timers' part of `bookkeeping`, at the end of an iteration.
pub bookkeeping : Timers → Timers
bookkeeping s = record s {
  timers = release_dead s.timers;
  is_broken = either s.is_broken (leaves_dangling s.timers);
}

-- What happens on a loop: its clock is read, a timer comes up, work of another stage makes a call, or the
-- iteration ends.
pub data Event : Type 0 where
  reads_clock : ℕ → Event
  expires : ℕ → List Call → Event
  works : Call → Event
  ends : Event

pub step : Event → Timers → Timers
unfolding expire call bookkeeping
step (reads_clock t) s = record s { now = t }
step (expires id cs) s = expire id cs s
step (works c) s = call c s
step ends s = bookkeeping s

pub run : List Event → Timers → Timers
unfolding step
run [] s = s
run (e ∷ es) s = run es (step e s)
