-- ===== src/Core/EventManager/Sinks.antt =====
-- include/afx/core/event_manager.hpp: the completion sinks, and the writes that wait for the end of an
-- iteration. A sink is named by its place in the table, which no later sink takes again: the table of handles
-- gives each a fresh name (Core/HandleTable). A handler is the list of calls that it makes when it runs.
pub mod Queued
mod Tests
use affini_x.Base.{ℕ, ◌+◌, Bool, true, false, not, ◌&&◌, if◌then◌else◌, List, [], ◌∷◌, ◌++◌, update}

pub data Ran : Type 0 where
  completes : ℕ → Ran
  flushes : ℕ → Ran

pub record Sinks : Type 0 where
  pub is_live : ℕ → Bool
  pub write_pending : ℕ → Bool
  pub made : ℕ
  pub pending_writes : List ℕ
  pub log : List Ran

pub create : Sinks
create = record {
  is_live = λ i. false;
  write_pending = λ i. false;
  made = 0;
  pending_writes = [];
  log = [];
}

pub register_sink : Sinks → Sinks
register_sink s = record s {
  is_live = update s.is_live s.made true;
  write_pending = update s.write_pending s.made false;
  made = s.made + 1;
}

pub release_sink : ℕ → Sinks → Sinks
release_sink i s = record s { is_live = update s.is_live i false }

pub note_write_pending : ℕ → Sinks → Sinks
note_write_pending i s =
    if s.is_live i && not (s.write_pending i)
    then record s {
      write_pending = update s.write_pending i true;
      pending_writes = s.pending_writes ++ i ∷ [];
    }
    else s

pub data Call : Type 0 where
  registers : Call
  releases : ℕ → Call
  notes : ℕ → Call

pub call : Call → Sinks → Sinks
call registers s = register_sink s
call (releases i) s = release_sink i s
call (notes i) s = note_write_pending i s

pub calls : List Call → Sinks → Sinks
calls [] s = s
calls (c ∷ cs) s = calls cs (call c s)

-- The completions of a wait, each with its sink and the calls that the sink's handler makes.
pub dispatch_completions : List (ℕ × List Call) → Sinks → Sinks
dispatch_completions [] s = s
dispatch_completions (c ∷ cs) s =
    dispatch_completions cs
      (if s.is_live c.0 then calls c.1 (record s { log = s.log ++ completes c.0 ∷ [] }) else s)

-- The sinks of a round of flushing, where `makes` are the calls that each handler makes in it.
pub flush_each : (ℕ → List Call) → List ℕ → Sinks → Sinks
flush_each makes [] s = s
flush_each makes (i ∷ is) s = flush_each makes is (
    if s.is_live i
    then calls (makes i)
        (record s { write_pending = update s.write_pending i false; log = s.log ++ flushes i ∷ [] })
    else s)

pub flush_writes : (ℕ → List Call) → Sinks → Sinks
flush_writes makes s = flush_each makes s.pending_writes (record s { pending_writes = [] })

-- Calls from outside a handler, the completions of an iteration, and its flush.
pub data Action : Type 0 where
  makes_calls : List Call → Action
  dispatches : List (ℕ × List Call) → Action
  flushes_all : (ℕ → List Call) → Action

pub act : Action → Sinks → Sinks
act (makes_calls cs) s = calls cs s
act (dispatches cs) s = dispatch_completions cs s
act (flushes_all makes) s = flush_writes makes s

pub run : List Action → Sinks → Sinks
run [] s = s
run (a ∷ as') s = run as' (act a s)
