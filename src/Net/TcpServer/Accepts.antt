-- ===== src/Net/TcpServer/Accepts.antt =====
-- Runs of a server: the bound on its connections, and that it goes on accepting.
use mathlib.Core.Bool.{false≢true}
use affini_x.Base.{
  or_true, or_false, ℕ, ◌+◌, ◌≤◌, ◌==◌, ◌≡◌, refl, sym, ap, ◌∙◌, Bool, true, false, not, ◌&&◌, ◌||◌,
  if◌then◌else◌, if_cases, Option, none, some, List, [], ◌∷◌, ◌++◌, leb, length, length-append,
  contains, erase, ltb, arith,
}
use affini_x.Net.TcpServer.{
  Result, accepted, cancelled, failed, Completion, cancels_accept, detaches, closes_fd, unlinks,
  destroys, Server, create, emit, submit_accept, is_cancelled, open_conn, take_fd, finish_accept,
  on_accept, cancel_accept, stop_at, stop_accepting, on_conn_gone, Action, completes, dispatches,
  stops, goes, queues, complete, dispatch, act, run,
}

abbrev pub is_open : Option ℕ → Bool
is_open none = false
is_open (some fd) = true

-- A completion after which the server submits its accept anew.
abbrev pub ends_accept : Completion → Bool
ends_accept c = not c.more && not (is_cancelled c.result)

abbrev pub any_end : List Completion → Bool
any_end [] = false
any_end (c ∷ cs) = ends_accept c || any_end cs

abbrev pub any_cancelled : List Completion → Bool
any_cancelled [] = false
any_cancelled (c ∷ cs) = is_cancelled c.result || any_cancelled cs

record Accepting (s : Server) : Type 0 where
  room : length s.conns ≤ s.max_connections
  goes_on :
      is_open s.listen_fd ≡ true
      → (ltb 0 s.refused_accepts || (s.armed || any_end s.completions)) ≡ true
  kept : is_open s.listen_fd ≡ true → any_cancelled s.completions ≡ false

any_end-append :
    (cs : List Completion) (c : Completion) → any_end (cs ++ c ∷ []) ≡ (any_end cs || ends_accept c)
any_end-append [] c = or_nil (ends_accept c)
  where
    or_nil : (b : Bool) → (b || false) ≡ b
    or_nil true = refl
    or_nil false = refl
any_end-append (d ∷ cs) c =
    ap (λ b. ends_accept d || b) (any_end-append cs c)
    ∙ or_assoc (ends_accept d) (any_end cs) (ends_accept c)
  where
    or_assoc : (x y z : Bool) → (x || (y || z)) ≡ (x || y || z)
    or_assoc true y z = refl
    or_assoc false y z = refl

any_cancelled-append :
    (cs : List Completion) (c : Completion)
    → is_cancelled c.result ≡ false
    → any_cancelled cs ≡ false
    → any_cancelled (cs ++ c ∷ []) ≡ false
any_cancelled-append [] c e h = ap (λ b. b || false) e
any_cancelled-append (d ∷ cs) c e h =
    let o = or_false (is_cancelled d.result) (any_cancelled cs) h in
    ap (λ b. b || any_cancelled (cs ++ c ∷ [])) o.0 ∙ any_cancelled-append cs c e o.1

fits :
    (s : Server)
    → leb s.max_connections (length s.conns) ≡ false
    → length (s.conns ++ s.made ∷ []) ≤ s.max_connections
fits s e =
    not_le s.max_connections (length s.conns) (length (s.conns ++ s.made ∷ [])) e
      (length-append s.conns (s.made ∷ []))
  where
    not_le : (m n k : ℕ) → leb m n ≡ false → k ≡ n + 1 → k ≤ m
    not_le m n k e h = ground arith

finish-Accepting :
    (r : Result) (a m : Bool) (s : Server) → Accepting s → Accepting (finish_accept r a m s)
unfolding finish_accept take_fd
finish-Accepting (accepted fd) a m s h =
    let s1 = record s { accepts = s.accepts + 1 } in
    let shut : Server = emit (closes_fd fd) s1 in
    let closed : Accepting shut = record { room = h.room; goes_on = h.goes_on; kept = h.kept } in
    if_cases Accepting (leb s.max_connections (length s.conns)) shut
      (if not a then shut else if not m then shut else open_conn s1) (λ e. closed)
      (λ e.
        if_cases Accepting (not a) shut (if not m then shut else open_conn s1) (λ f. closed)
          (λ f.
            if_cases Accepting (not m) shut (open_conn s1) (λ g. closed)
              (λ g. record { room = fits s e; goes_on = h.goes_on; kept = h.kept })))
finish-Accepting cancelled a m s h = h
finish-Accepting failed a m s h = record { room = h.room; goes_on = h.goes_on; kept = h.kept }

submit-Accepting :
    (b : Bool) (s : Server)
    → length s.conns ≤ s.max_connections
    → (is_open s.listen_fd ≡ true → any_cancelled s.completions ≡ false)
    → Accepting (submit_accept b s)
submit-Accepting true s r k = record {
  room = r;
  goes_on = λ o. or_true (ltb 0 s.refused_accepts);
  kept = k;
}
submit-Accepting false s r k = record {
  room = r;
  goes_on = λ o. ap (λ b. b || (s.armed || any_end s.completions)) (some_refused s.refused_accepts);
  kept = k;
}
  where
    some_refused : (n : ℕ) → ltb 0 (n + 1) ≡ true
    some_refused n = ground arith

dispatch-Accepting :
    (cs : List Completion) (b a m : Bool) (s : Server)
    → s.completions ≡ cs
    → Accepting s
    → Accepting (dispatch cs b a m s)
unfolding dispatch on_accept
dispatch-Accepting [] b a m s e h = h
dispatch-Accepting (c ∷ cs) b a m s e h =
    let s1 = record s { completions = cs } in
    let r = ltb 0 s.refused_accepts in
    let kept' : is_open s.listen_fd ≡ true → any_cancelled cs ≡ false = λ o.
      (or_false (is_cancelled c.result) (any_cancelled cs)
        (sym (ap any_cancelled e) ∙ h.kept o)).1 in
    finish-Accepting c.result a m (if ends_accept c then submit_accept b s1 else s1) (
      if_cases Accepting (ends_accept c) (submit_accept b s1) s1
        (λ f. submit-Accepting b s1 h.room kept')
        (λ f. record {
          room = h.room;
          goes_on = λ o.
              ap (λ b. r || (s.armed || (b || any_end cs))) (sym f)
              ∙ sym (ap (λ xs. r || (s.armed || any_end xs)) e)
              ∙ h.goes_on o;
          kept = kept';
        }))

complete-Accepting :
    (r : Result) (more : Bool) (s : Server) → Accepting s → Accepting (complete r more s)
unfolding complete
complete-Accepting r more s h =
    let c : Completion = record { result = r; more = more } in
    if_cases Accepting (s.armed && not (is_cancelled r))
      (record s { armed = more; completions = s.completions ++ c ∷ [] }) s
      (λ e. record {
        room = h.room;
        goes_on = λ o.
            ap (λ b. ltb 0 s.refused_accepts || b)
              (ap (λ b. more || b) (any_end-append s.completions c)
                ∙ queued_end more (is_cancelled r) s.armed (any_end s.completions) e)
            ∙ or_true (ltb 0 s.refused_accepts);
        kept = λ o.
            any_cancelled-append s.completions c (not_cancelled s.armed (is_cancelled r) e)
              (h.kept o);
      })
      (λ e. h)
  where
    queued_end : (m k a x : Bool) → (a && not k) ≡ true → (m || (x || (not m && not k))) ≡ true
    queued_end true k a x e = refl
    queued_end false false a x e = or_true x
    queued_end false true true x e = absurd (false≢true e)
    queued_end false true false x e = absurd (false≢true e)

    not_cancelled : (a k : Bool) → (a && not k) ≡ true → k ≡ false
    not_cancelled a false e = refl
    not_cancelled true true e = absurd (false≢true e)
    not_cancelled false true e = absurd (false≢true e)

stop-Accepting : (o : Option ℕ) (s : Server) → Accepting s → Accepting (stop_at o s)
stop-Accepting none s h = h
stop-Accepting (some fd) s h =
    let s1 = cancel_accept (emit cancels_accept s) in
    let room1 : length s1.conns ≤ s1.max_connections =
      if_cases (λ (x : Server). length x.conns ≤ x.max_connections) s.armed
        (record s {
          armed = false;
          completions = s.completions ++ record { result = cancelled; more = false } ∷ [];
          log = s.log ++ cancels_accept ∷ [];
        })
        (emit cancels_accept s) (λ e. h.room) (λ e. h.room) in
    let s2 = record (emit (closes_fd fd) (emit (detaches fd) s1)) { listen_fd = none } in
    let shut : Accepting s2 = record {
      room = room1;
      goes_on = λ o. absurd (false≢true o);
      kept = λ o. absurd (false≢true o);
    } in
    if_cases Accepting s1.is_unix (emit unlinks s2) s2
      (λ e. record {
        room = room1;
        goes_on = λ o. absurd (false≢true o);
        kept = λ o. absurd (false≢true o);
      })
      (λ e. shut)

erase-le : (i : ℕ) (is : List ℕ) → length (erase i is) ≤ length is
erase-le i [] = omega arith
erase-le i (j ∷ js) =
    if_cases (λ ks. length ks ≤ length (j ∷ js)) (i == j) js (j ∷ erase i js) (λ e. omega arith)
      (λ e. omega (arith, erase-le i js))

on_conn_gone-Accepting : (i : ℕ) (s : Server) → Accepting s → Accepting (on_conn_gone i s)
unfolding on_conn_gone
on_conn_gone-Accepting i s h =
    if_cases Accepting (contains i s.conns)
      (emit (destroys i) (record s { conns = erase i s.conns })) s
      (λ e. record {
        room = omega (arith, erase-le i s.conns, h.room);
        goes_on = h.goes_on;
        kept = h.kept;
      })
      (λ e. h)

act-Accepting : (a : Action) (s : Server) → Accepting s → Accepting (act a s)
unfolding act stop_accepting
act-Accepting (completes r more) s h = complete-Accepting r more s h
act-Accepting (dispatches b a m) s h = dispatch-Accepting s.completions b a m s refl h
act-Accepting stops s h = stop-Accepting s.listen_fd s h
act-Accepting (goes i) s h = on_conn_gone-Accepting i s h
act-Accepting (queues i n) s h = record { room = h.room; goes_on = h.goes_on; kept = h.kept }

run-Accepting : (as' : List Action) (s : Server) → Accepting s → Accepting (run as' s)
unfolding run
run-Accepting [] s h = h
run-Accepting (a ∷ as') s h = run-Accepting as' (act a s) (act-Accepting a s h)

-- Whatever the kernel, the sockets' options, the pool and the submission of an accept answer and whichever
-- connections go: a server never has more connections than its bound; and until its listener is closed, or
-- a submission of its accept has been refused, its accept is armed, or a completion waits on which it submits
-- the accept anew.
pub run-accepts :
    (fd bound : ℕ) (unix notifies : Bool) (as' : List Action)
    → let s = run as' (create fd unix notifies bound) in
      (length s.conns ≤ s.max_connections)
      × ((not (is_open s.listen_fd) || ltb 0 s.refused_accepts || s.armed || any_end s.completions)
          ≡ true)
unfolding create
run-accepts fd bound unix notifies as' =
    let h =
      run-Accepting as' (create fd unix notifies bound)
        (record { room = omega arith; goes_on = λ o. refl; kept = λ o. refl }) in
    let s = run as' (create fd unix notifies bound) in
    (
      h.room,
      unless (is_open s.listen_fd) (ltb 0 s.refused_accepts) s.armed (any_end s.completions)
          h.goes_on,
    )
  where
    unless : (o r x y : Bool) → (o ≡ true → (r || (x || y)) ≡ true) → (not o || r || x || y) ≡ true
    unless true true x y k = refl
    unless true false x y k = k refl
    unless false r x y k = refl
