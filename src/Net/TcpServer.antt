-- ===== src/Net/TcpServer.antt =====
-- include/afx/net/tcp_server.hpp. A connection is its number, in the order in which they are made; `queued` is
-- what its write queue holds. The listener's side of a backend is whether an accept is armed and the
-- completions that are not dispatched yet: a completion without the More flag ends the accept, and cancelling
-- an armed accept queues its end. What setting the socket's options, the pool and `submit_accept` of the event
-- manager answer is an argument; the last answer is dropped, as in the source, and `refused_accepts` counts the
-- refusals, which the source does not. What a
-- call asks of the system, of a connection or of the handlers is an entry of a log. Not modelled: open,
-- the destructor, the rows for the admin endpoint, coroutine sessions.
pub mod Accepts
pub mod Shuts
mod Tests
use affini_x.Base.{
  ℕ, ◌+◌, ◌==◌, Bool, true, false, not, ◌&&◌, if◌then◌else◌, Option, none, some, List, [], ◌∷◌,
  ◌++◌, ltb, leb, length, contains, erase,
}

pub data Result : Type 0 where
  accepted : ℕ → Result
  cancelled : Result
  failed : Result

pub record Completion : Type 0 where
  pub result : Result
  pub more : Bool

-- An accept is submitted for the descriptor of the listener, or for -1 where it is closed.
pub data Effect : Type 0 where
  submits_accept : Option ℕ → Effect
  cancels_accept : Effect
  detaches : ℕ → Effect
  closes_fd : ℕ → Effect
  unlinks : Effect
  starts_conn : ℕ → Effect
  on_shutdown : ℕ → Effect
  half_closes : ℕ → Effect
  destroys : ℕ → Effect

pub record Server : Type 0 where
  pub listen_fd : Option ℕ
  pub is_unix : Bool
  pub has_on_shutdown : Bool
  pub max_connections : ℕ
  pub conns : List ℕ
  pub queued : ℕ → ℕ
  pub made : ℕ
  pub accepts : ℕ
  pub conns_opened : ℕ
  pub internal_errors : ℕ
  pub armed : Bool
  pub refused_accepts : ℕ
  pub completions : List Completion
  pub log : List Effect

-- A server whose listener is open, with its accept armed.
pub create : ℕ → Bool → Bool → ℕ → Server
create fd unix notifies bound = record {
  listen_fd = some fd;
  is_unix = unix;
  has_on_shutdown = notifies;
  max_connections = bound;
  conns = [];
  queued = λ i. 0;
  made = 0;
  accepts = 0;
  conns_opened = 0;
  internal_errors = 0;
  armed = true;
  refused_accepts = 0;
  completions = [];
  log = [];
}

abbrev pub emit : Effect → Server → Server
emit e s = record s { log = s.log ++ e ∷ [] }

abbrev pub submit_accept : Bool → Server → Server
submit_accept submits s = emit (submits_accept s.listen_fd) (
    if submits
    then record s { armed = true }
    else record s { refused_accepts = s.refused_accepts + 1 })

abbrev pub is_cancelled : Result → Bool
is_cancelled cancelled = true
is_cancelled r = false

-- A new connection is entered and started.
abbrev pub open_conn : Server → Server
open_conn s =
    let i = s.made in
    emit (starts_conn i)
      (record s { conns = s.conns ++ i ∷ []; made = i + 1; conns_opened = s.conns_opened + 1 })

-- An accepted descriptor, where `applies` and `has_memory` are the answers of the options and the pool.
pub take_fd : ℕ → Bool → Bool → Server → Server
take_fd fd applies has_memory s =
    let s1 = record s { accepts = s.accepts + 1 } in
    if leb s1.max_connections (length s1.conns)
    then emit (closes_fd fd) s1
    else if not applies
    then emit (closes_fd fd) s1
    else if not has_memory
    then emit (closes_fd fd) s1
    else open_conn s1

pub finish_accept : Result → Bool → Bool → Server → Server
finish_accept (accepted fd) applies has_memory s = take_fd fd applies has_memory s
finish_accept cancelled applies has_memory s = s
finish_accept failed applies has_memory s = record s { internal_errors = s.internal_errors + 1 }

pub on_accept : Completion → Bool → Bool → Bool → Server → Server
on_accept c submits applies has_memory s =
    let s1 : Server =
      if not c.more && not (is_cancelled c.result) then submit_accept submits s else s in
    finish_accept c.result applies has_memory s1

-- The end of an armed accept is queued.
abbrev pub cancel_accept : Server → Server
cancel_accept s =
    if s.armed
    then record s {
      armed = false;
      completions = s.completions ++ record { result = cancelled; more = false } ∷ [];
    }
    else s

abbrev pub stop_at : Option ℕ → Server → Server
stop_at none s = s
stop_at (some fd) s =
    let s1 = emit (closes_fd fd) (emit (detaches fd) (cancel_accept (emit cancels_accept s))) in
    let s2 = record s1 { listen_fd = none } in if s2.is_unix then emit unlinks s2 else s2

pub stop_accepting : Server → Server
stop_accepting s = stop_at s.listen_fd s

abbrev pub emit_each : (ℕ → Effect) → List ℕ → Server → Server
emit_each e [] s = s
emit_each e (i ∷ is) s = emit_each e is (emit (e i) s)

pub notify_shutdown : Server → Server
notify_shutdown s = if s.has_on_shutdown then emit_each on_shutdown s.conns s else s

abbrev pub all_drained : (ℕ → ℕ) → List ℕ → Bool
all_drained queued [] = true
all_drained queued (i ∷ is) = if ltb 0 (queued i) then false else all_drained queued is

pub drained : Server → Bool
drained s = all_drained s.queued s.conns

pub half_close_all : Server → Server
half_close_all s = emit_each half_closes s.conns s

pub on_conn_gone : ℕ → Server → Server
on_conn_gone i s =
    if contains i s.conns then emit (destroys i) (record s { conns = erase i s.conns }) else s

-- The kernel ends an armed accept or goes on with it, the loop dispatches the oldest completion, the
-- listener is closed, a connection is gone, or its write queue has changed.
pub data Action : Type 0 where
  completes : Result → Bool → Action
  dispatches : Bool → Bool → Bool → Action
  stops : Action
  goes : ℕ → Action
  queues : ℕ → ℕ → Action

pub complete : Result → Bool → Server → Server
complete r more s =
    if s.armed && not (is_cancelled r)
    then record s {
      armed = more;
      completions = s.completions ++ record { result = r; more = more } ∷ [];
    }
    else s

pub dispatch : List Completion → Bool → Bool → Bool → Server → Server
dispatch [] submits applies has_memory s = s
dispatch (c ∷ cs) submits applies has_memory s =
    on_accept c submits applies has_memory (record s { completions = cs })

abbrev pub set_queued : (ℕ → ℕ) → ℕ → ℕ → ℕ → ℕ
set_queued f i n j = if i == j then n else f j

pub act : Action → Server → Server
act (completes r more) s = complete r more s
act (dispatches submits applies has_memory) s = dispatch s.completions submits applies has_memory s
act stops s = stop_accepting s
act (goes i) s = on_conn_gone i s
act (queues i n) s = record s { queued = set_queued s.queued i n }

pub run : List Action → Server → Server
run [] s = s
run (a ∷ as') s = run as' (act a s)
