-- ===== src/Core/Context.antt =====
-- include/afx/core/context.hpp, and the merge of contexts in `spawn` of
-- include/afx/core/event_manager.hpp. Time points are nanoseconds since the epoch. A stop state is
-- named by a number, and its flag is what the map `flags` says.
mod Tests
pub mod Hops
use affini_x.Base.{
  ℕ, ◌+◌, ◌-◌, ◌^◌, min, Bool, true, false, not, ◌&&◌, ◌||◌, Option, none, some, ltb, leb, ◌==◌,
  if◌then◌else◌,
}

pub record Deadline : Type 0 where
  pub t : ℕ
  pub is_set : Bool

abbrev pub no_deadline : Deadline
no_deadline = record { t = 0; is_set = false }

pub deadline_at : ℕ → Deadline
deadline_at t = record { t = t; is_set = true }

pub expired : Deadline → ℕ → Bool
expired d now = d.is_set && leb d.t now

abbrev pub max_duration : ℕ
max_duration = 2 ^ 63 - 1

pub remaining : Deadline → ℕ → ℕ
remaining d now = if not d.is_set then max_duration else if ltb now d.t then d.t - now else 0

pub earliest_of : Deadline → Deadline → Deadline
unfolding deadline_at
earliest_of d o = if not d.is_set then o else if not o.is_set then d else deadline_at (min d.t o.t)

pub record TraceId : Type 0 where
  pub hi : ℕ
  pub lo : ℕ
  pub span : ℕ

pub trace_valid : TraceId → Bool
trace_valid i = not (i.hi == 0) || not (i.lo == 0)

-- A token shares the state of its source, or has none.
pub record StopToken : Type 0 where
  pub state : Option ℕ

pub stop_requested : (ℕ → Bool) → StopToken → Bool
stop_requested flags s = elim s.state [ none ↦ false | some i ↦ flags i ]

pub has_state : StopToken → Bool
has_state s = elim s.state [ none ↦ false | some i ↦ true ]

-- `StopSource::request` on the state `i`.
pub request : (ℕ → Bool) → ℕ → ℕ → Bool
request flags i j = if i == j then true else flags j

pub record Context : Type 0 where
  pub deadline : Deadline
  pub trace : TraceId
  pub stop : StopToken
  pub priority : ℕ

-- The context that `spawn` gives a root task, from the ambient one and its argument.
pub spawn_context : Context → Context → Context
unfolding trace_valid has_state earliest_of
spawn_context ambient ctx = record {
  deadline = earliest_of ambient.deadline ctx.deadline;
  trace = if not (trace_valid ctx.trace) then ambient.trace else ctx.trace;
  stop = if not (has_state ctx.stop) then ambient.stop else ctx.stop;
  priority = ctx.priority;
}
