-- ===== src/Net/TcpServer/Tests.antt =====
-- Runs of a server, and of a loop that owns one.
use affini_x.Base.{
  ◌≤◌, ◌≡◌, refl, true, false, not, ◌||◌, none, some, ltb, List, [], ◌∷◌, ◌++◌, length, arith,
}
use affini_x.Core.EventManager.Shutdown.{Loop, begin_shutdown, poll, run, poll-begin_shutdown}
use affini_x.Net.TcpServer.{
  accepted, failed, Effect, submits_accept, starts_conn, Server, create, finish_accept, on_accept,
  stop_accepting, take_fd, complete, dispatch, on_conn_gone, Action, completes, dispatches, stops,
  goes, act,
}
use affini_x.Net.TcpServer as TcpServer
use affini_x.Net.TcpServer.Accepts.{is_open, any_end, run-accepts}
use affini_x.Net.TcpServer.Shuts.{server_hooks, late_accept}

abbrev small : Server
small = create 5 false true 1

abbrev two_accepts : List Action
two_accepts =
    completes (accepted 7) false
    ∷ dispatches true true true
    ∷ completes (accepted 8) false
    ∷ dispatches true true true
    ∷ []

-- The second connection is refused, and the accept is armed.
small-conns :
    ((TcpServer.run two_accepts small).conns ≡ 0 ∷ [])
    × ((TcpServer.run two_accepts small).armed ≡ true)
unfolding TcpServer.run act complete dispatch on_accept finish_accept take_fd create
small-conns = (refl, refl)

-- The submission of the second accept is refused: no completion will come, though the listener is open.
abbrev one_refused : List Action
one_refused = completes (accepted 7) false ∷ dispatches false true true ∷ []

one_refused-deaf :
    ((TcpServer.run one_refused small).armed ≡ false)
    × ((TcpServer.run one_refused small).listen_fd ≡ some 5)
unfolding TcpServer.run act complete dispatch on_accept finish_accept take_fd create
one_refused-deaf = (refl, refl)

run-accepts_example :
    let s = TcpServer.run two_accepts small in
    (length s.conns ≤ s.max_connections)
    × ((not (is_open s.listen_fd) || ltb 0 s.refused_accepts || s.armed || any_end s.completions)
        ≡ true)
run-accepts_example = run-accepts 5 1 false true two_accepts

-- An accept has completed and is not dispatched.
abbrev late : Server
late = TcpServer.run (completes (accepted 7) false ∷ []) small

late_accept_example :
    let s' = TcpServer.run (stops ∷ dispatches true true true ∷ []) late in
    (s'.conns ≡ 0 ∷ [])
    × ((before : List Effect) × (s'.log ≡ before ++ submits_accept none ∷ starts_conn 0 ∷ []))
unfolding TcpServer.run act complete create
late_accept_example = late_accept late 5 7 refl refl refl (omega arith)

-- A connection whose write queue never empties.
abbrev stuck : Loop Server
stuck = record {
  owned = record (TcpServer.run two_accepts small) { queued = λ i. 9 } ∷ [];
  tick = 1000000;
  now = 0;
  shutting_down = false;
  shutdown_deadline = 0;
  drain_timer = none;
  stopped = false;
}

abbrev same : List Server → List Server
same os = os

-- The timer that is due at 1000400 waits for the second tick.
poll-begin_shutdown_example :
    (poll Server server_hooks 2000500 0 same (
      run Server server_hooks
        ((400, 0, same) ∷ (1000600, 0, same) ∷ [])
        (begin_shutdown Server server_hooks 500 stuck))).stopped
    ≡ true
poll-begin_shutdown_example =
    poll-begin_shutdown Server server_hooks 500 2000500 ((400, 0, same) ∷ (1000600, 0, same) ∷ [])
      same stuck refl (omega arith) (omega arith)
