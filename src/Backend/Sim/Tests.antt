-- ===== src/Backend/Sim/Tests.antt =====
-- The backend at concrete inputs.
use affini_x.Base.{◌≡◌, refl, [], ◌∷◌, ◌++◌}
use affini_x.Backend.Sim.{
  fresh_fd, fails, submit_recv, cancel, wait, arm_recv, pump_recv, cancel_fd, cancel_all,
}
use affini_x.Backend.Sim.Stream.{reads, feeds, cancels, run, bytes_of, run_stream}

-- A read that is cancelled completes with the error, and once.
cancelled_read :
    (wait 9 (cancel 2 (submit_recv 2 7 4 (record { fds = (3, fresh_fd) ∷ []; ready = [] })))).0
    ≡ record { user = 2; result = fails 125 } ∷ []
unfolding wait cancel cancel_all cancel_fd submit_recv arm_recv pump_recv
cancelled_read = refl

run_stream_example :
    let (s', cs) = run (reads 1 2 ∷ feeds (5 ∷ 6 ∷ 7 ∷ []) ∷ cancels 1 ∷ reads 1 9 ∷ []) fresh_fd in
    bytes_of cs ++ s'.inbound ≡ 5 ∷ 6 ∷ 7 ∷ []
run_stream_example =
    run_stream (reads 1 2 ∷ feeds (5 ∷ 6 ∷ 7 ∷ []) ∷ cancels 1 ∷ reads 1 9 ∷ []) fresh_fd
