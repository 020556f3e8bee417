-- ===== src/Core/Context/Hops.antt =====
-- A hop can only tighten a deadline.
use affini_x.Base.{ℕ, ◌+◌, ◌≤◌, ◌≡◌, min, Bool, true, ◌||◌, arith, none, some}
use affini_x.Core.Context.{
  Deadline, expired, remaining, earliest_of, max_duration, Context, spawn_context, stop_requested,
  request, has_state,
}

-- The merged deadline has expired exactly when one of the two has, and leaves the smaller of the two
-- remaining times, for deadlines within the range of a duration from `now`.
pub earliest_of_lem :
    (a b : Deadline) (now : ℕ)
    → a.t ≤ now + max_duration
    → b.t ≤ now + max_duration
    → (expired (earliest_of a b) now ≡ expired a now || expired b now)
      × (remaining (earliest_of a b) now ≡ min (remaining a now) (remaining b now))
unfolding expired remaining earliest_of
earliest_of_lem a b now h k = (ground arith, ground arith)

-- A spawned task runs under both deadlines; where its own context names no stop state and the
-- source of the ambient one requests a stop, the task is asked to stop.
pub spawn_context_lem :
    (ambient ctx : Context) (flags : ℕ → Bool) (i now : ℕ)
    → ctx.stop.state ≡ none
    → ambient.stop.state ≡ some i
    → (stop_requested (request flags i) (spawn_context ambient ctx).stop ≡ true)
      × (expired (spawn_context ambient ctx).deadline now
          ≡ expired ambient.deadline now || expired ctx.deadline now)
unfolding spawn_context stop_requested request has_state expired earliest_of
spawn_context_lem ambient ctx flags i now e f = (ground arith, ground arith)
