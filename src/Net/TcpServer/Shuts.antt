-- ===== src/Net/TcpServer/Shuts.antt =====
-- A server in the loop's shutdown, and a completion that was queued before its listener was closed.
use affini_x.Base.{
  ℕ, ◌+◌, ◌<◌, ◌≡◌, refl, sym, ap, subst, ◌∙◌, true, false, if◌then◌else◌, if_cases, Option, none,
  some, List, [], ◌∷◌, ◌++◌, leb, length, arith,
}
use affini_x.Core.EventManager.Shutdown.{Hooks}
use affini_x.Net.TcpServer.{
  accepted, cancelled, Effect, submits_accept, cancels_accept, detaches, closes_fd, unlinks,
  starts_conn, Server, emit, submit_accept, open_conn, take_fd, finish_accept, on_accept, stop_at,
  stop_accepting, notify_shutdown, drained, half_close_all, dispatches, stops, dispatch, act, run,
}

-- What make_server hands to the loop.
pub server_hooks : Hooks Server
server_hooks = record {
  begin_hook = stop_accepting;
  notify_hook = notify_shutdown;
  is_drained = drained;
  shutdown_write = half_close_all;
}

abbrev pub IsShut : Server → Type 0
IsShut s = s.listen_fd ≡ none

-- What closing a listener whose accept is not armed leaves as it was.
Kept : Server → Server → Type 0
Kept s x =
    (x.listen_fd ≡ none)
    × (x.conns ≡ s.conns)
    × (x.made ≡ s.made)
    × (x.max_connections ≡ s.max_connections)
    × (x.completions ≡ s.completions)

stop-Kept : (o : Option ℕ) (s : Server) → s.listen_fd ≡ o → s.armed ≡ false → Kept s (stop_at o s)
unfolding Kept
stop-Kept none s e a = (e, refl, refl, refl, refl)
stop-Kept (some fd) s e a =
    let s0 = emit cancels_accept s in
    let cut : Server = record s0 {
      armed = false;
      completions = s0.completions ++ record { result = cancelled; more = false } ∷ [];
    } in
    let tail : Server → Server = λ x.
      let y = record (emit (closes_fd fd) (emit (detaches fd) x)) { listen_fd = none } in
      if y.is_unix then emit unlinks y else y in
    subst (λ b. Kept s (tail (if b then cut else s0))) (sym a)
      (if_cases (Kept s) s.is_unix
        (emit unlinks (record (emit (closes_fd fd) (emit (detaches fd) s0)) { listen_fd = none }))
        (record (emit (closes_fd fd) (emit (detaches fd) s0)) { listen_fd = none })
        (λ f. (refl, refl, refl, refl, refl)) (λ f. (refl, refl, refl, refl, refl)))

abbrev Late : Server → Server → Type 0
Late x s' =
    (s'.conns ≡ x.conns ++ x.made ∷ [])
    × ((before : List Effect) × (s'.log
          ≡ before ++ submits_accept x.listen_fd ∷ starts_conn x.made ∷ []))

dispatch-Late :
    (x : Server) (cfd : ℕ)
    → length x.conns < x.max_connections
    → Late x (dispatch (record { result = accepted cfd; more = false } ∷ []) true true true x)
unfolding dispatch on_accept finish_accept take_fd
dispatch-Late x cfd r =
    let x1 = submit_accept true (record x { completions = [] }) in
    let x2 = record x1 { accepts = x1.accepts + 1 } in
    if_cases (Late x) (leb x.max_connections (length x.conns)) (emit (closes_fd cfd) x2)
      (open_conn x2) (λ e. absurd (has_room x.max_connections (length x.conns) e r))
      (λ e. (refl, (x.log, append_two x.log (submits_accept x.listen_fd) (starts_conn x.made))))
  where
    has_room : (m n : ℕ) → leb m n ≡ true → ¬ (n < m)
    has_room m n e q = ground arith

    append_two : (l : List Effect) (a b : Effect) → (l ++ a ∷ []) ++ b ∷ [] ≡ l ++ a ∷ b ∷ []
    append_two [] a b = refl
    append_two (c ∷ l) a b = ap (◌∷◌ c) (append_two l a b)

-- Where a single accept completed before its listener was closed and is dispatched after it, and there is
-- room, memory for a connection, and an answer to the calls that is not an error: the server submits an accept for a descriptor that is closed, and starts the connection.
pub late_accept :
    (s : Server) (fd cfd : ℕ)
    → s.listen_fd ≡ some fd
    → s.armed ≡ false
    → s.completions ≡ record { result = accepted cfd; more = false } ∷ []
    → length s.conns < s.max_connections
    → let s' = run (stops ∷ dispatches true true true ∷ []) s in
      (s'.conns ≡ s.conns ++ s.made ∷ [])
      × ((before : List Effect) × (s'.log
            ≡ before ++ submits_accept none ∷ starts_conn s.made ∷ []))
unfolding run act stop_accepting Kept
late_accept s fd cfd o a c r =
    let x = stop_accepting s in
    let k = stop-Kept s.listen_fd s refl a in
    let w = dispatch-Late x cfd (omega (arith, ap length k.1, k.3, r)) in
    let late : Late x (dispatch x.completions true true true x) =
      subst (λ cs. Late x (dispatch cs true true true x)) (sym (k.4 ∙ c)) w in
    (
      late.0 ∙ ap (λ ys. ys ++ x.made ∷ []) k.1 ∙ ap (λ m. s.conns ++ m ∷ []) k.2,
      (
        late.1.0,
        late.1.1
            ∙ ap (λ p. late.1.0 ++ submits_accept p ∷ starts_conn x.made ∷ []) k.0
            ∙ ap (λ m. late.1.0 ++ submits_accept none ∷ starts_conn m ∷ []) k.2,
      ),
    )
