-- ===== src/Core/EventManager/Sinks/Tests.antt =====
-- Two sinks: the handler of the first notes the second, and itself when it is flushed.
use affini_x.Base.{ℕ, ◌≡◌, refl, if◌then◌else◌, List, [], ◌∷◌, count}
use affini_x.Core.EventManager.Sinks.{
  flushes, completes, create, register_sink, note_write_pending, registers, notes, call, calls,
  dispatch_completions, flush_each, flush_writes, Call, Action, makes_calls, dispatches,
  flushes_all, act, run,
}
use affini_x.Core.EventManager.Sinks.Queued.{count-run}

abbrev again : ℕ → List Call
again i = notes i ∷ []

abbrev busy : List Action
busy =
    makes_calls (registers ∷ registers ∷ [])
    ∷ dispatches ((0, notes 1 ∷ notes 0 ∷ notes 1 ∷ []) ∷ [])
    ∷ flushes_all again
    ∷ []

busy-log : (run busy create).log ≡ completes 0 ∷ flushes 1 ∷ flushes 0 ∷ []
unfolding run act calls call register_sink note_write_pending dispatch_completions flush_writes
    flush_each create
busy-log = refl

count-run_example :
    let s = run busy create in count 1 s.pending_writes ≡ (if s.write_pending 1 then 1 else 0)
unfolding run act calls call register_sink note_write_pending dispatch_completions flush_writes
    flush_each create
count-run_example = count-run busy 1 refl
