-- ===== src/Backend/Sim.antt =====
-- src/backend/sim.cpp, the backend in memory, with no SimNet behind it and without the random
-- segmentation of AFX_DEBUG_CHAOS. A completion of a read carries the bytes that went to the buffer;
-- `fds` is the table of descriptors in the order of its iteration.
pub mod Stream
mod Tests
use affini_x.Base.{
  ℕ, ◌+◌, min, Bool, true, false, not, Option, none, some, List, [], ◌∷◌, ◌++◌, ◌&&◌, ◌==◌,
  if◌then◌else◌, length, take, drop,
}

pub data Outcome : Type 0 where
  received : List ℕ → Outcome
  value : ℕ → Outcome
  fails : ℕ → Outcome

pub record Completion : Type 0 where
  pub user : ℕ
  pub result : Outcome

pub record FdState : Type 0 where
  pub inbound : List ℕ
  pub outbound : List ℕ
  pub recv_armed : Bool
  pub recv_ud : ℕ
  pub recv_size : ℕ
  pub accept_armed : Bool
  pub accept_ud : ℕ
  pub connect_pending : Bool
  pub connect_ud : ℕ
  pub peer_closed : Bool
  pub peer_err : ℕ
  pub watch_ud : ℕ

pub record SimBackend : Type 0 where
  pub fds : List (ℕ × FdState)
  pub ready : List Completion

abbrev pub ecanceled : ℕ
ecanceled = 125

abbrev pub fresh_fd : FdState
fresh_fd = record {
  inbound = [];
  outbound = [];
  recv_armed = false;
  recv_ud = 0;
  recv_size = 0;
  accept_armed = false;
  accept_ud = 0;
  connect_pending = false;
  connect_ud = 0;
  peer_closed = false;
  peer_err = 0;
  watch_ud = 0;
}

abbrev pub find : List (ℕ × FdState) → ℕ → Option FdState
find [] fd = none
find ((k, s) ∷ fds) fd = if k == fd then some s else find fds fd

-- `fds_[fd]`, which makes the entry where there is none.
abbrev pub entry : List (ℕ × FdState) → ℕ → FdState
entry [] fd = fresh_fd
entry ((k, s) ∷ fds) fd = if k == fd then s else entry fds fd

abbrev pub store : List (ℕ × FdState) → ℕ → FdState → List (ℕ × FdState)
store [] fd s = (fd, s) ∷ []
store ((k, s') ∷ fds) fd s = if k == fd then (k, s) ∷ fds else (k, s') ∷ store fds fd s

abbrev pub erase : List (ℕ × FdState) → ℕ → List (ℕ × FdState)
erase [] fd = []
erase ((k, s) ∷ fds) fd = if k == fd then fds else (k, s) ∷ erase fds fd

abbrev pub push : ℕ → Outcome → List Completion
push u r = record { user = u; result = r } ∷ []

-- What is done to one descriptor, with the completions that it pushes.
pub pump_recv : FdState → FdState × List Completion
pump_recv s =
    if not s.recv_armed
    then (s, [])
    else if not (s.peer_err == 0)
    then (record s { recv_armed = false }, push s.recv_ud (fails s.peer_err))
    else if length s.inbound == 0
    then (if s.peer_closed
        then (record s { recv_armed = false }, push s.recv_ud (received []))
        else (s, []))
    else (let n = min (length s.inbound) s.recv_size in
        (
          record s { recv_armed = false; inbound = drop n s.inbound },
          push s.recv_ud (received (take n s.inbound)),
        ))

pub arm_recv : ℕ → ℕ → FdState → FdState × List Completion
unfolding pump_recv
arm_recv u size s = pump_recv (record s { recv_armed = true; recv_ud = u; recv_size = size })

pub feed_fd : List ℕ → FdState → FdState × List Completion
unfolding pump_recv
feed_fd bytes s =
    let s' : FdState = record s { inbound = s.inbound ++ bytes } in
    if s'.recv_armed then pump_recv s' else (s', [])

pub close_fd : FdState → FdState × List Completion
unfolding pump_recv
close_fd s =
    let s' : FdState = record s { peer_closed = true } in
    if s'.recv_armed then pump_recv s' else (s', [])

pub fail_fd : ℕ → FdState → FdState × List Completion
unfolding pump_recv
fail_fd err s =
    let s' : FdState = record s { peer_err = err } in
    if s'.recv_armed then pump_recv s' else (s', [])

pub cancel_fd : ℕ → FdState → FdState × List Completion
cancel_fd u s =
    let recv = s.recv_armed && (s.recv_ud == u) in
    let accept = s.accept_armed && (s.accept_ud == u) in
    let connect = s.connect_pending && (s.connect_ud == u) in
    (
      record s {
        recv_armed = if recv then false else s.recv_armed;
        accept_armed = if accept then false else s.accept_armed;
        connect_pending = if connect then false else s.connect_pending;
      },
      (if recv then push u (fails ecanceled) else [])
          ++ (if accept then push u (fails ecanceled) else [])
          ++ (if connect then push u (fails ecanceled) else []),
    )

abbrev pub at : SimBackend → ℕ → (FdState → FdState × List Completion) → SimBackend
at b fd f =
    let (s, cs) = f (entry b.fds fd) in record b { fds = store b.fds fd s; ready = b.ready ++ cs }

pub attach : ℕ → ℕ → SimBackend → SimBackend
attach fd u b = at b fd (λ s. (record s { watch_ud = u }, []))

pub detach : ℕ → SimBackend → SimBackend
detach fd b = record b { fds = erase b.fds fd }

pub submit_recv : ℕ → ℕ → ℕ → SimBackend → SimBackend
unfolding arm_recv
submit_recv u fd size b = at b fd (arm_recv u size)

pub gather : List (List ℕ) → List ℕ
gather [] = []
gather (b ∷ bs) = b ++ gather bs

pub submit_sendv : ℕ → ℕ → List (List ℕ) → SimBackend → SimBackend
unfolding gather
submit_sendv u fd iov b =
    at b fd (λ s.
      (record s { outbound = s.outbound ++ gather iov }, push u (value (length (gather iov)))))

pub submit_accept : ℕ → ℕ → SimBackend → SimBackend
submit_accept u fd b = at b fd (λ s. (record s { accept_armed = true; accept_ud = u }, []))

-- Without a net, connects succeed at once.
pub submit_connect : ℕ → ℕ → SimBackend → SimBackend
submit_connect u fd b = at b fd (λ s. (s, push u (value 0)))

pub cancel_all : ℕ → List (ℕ × FdState) → List (ℕ × FdState) × List Completion
unfolding cancel_fd
cancel_all u [] = ([], [])
cancel_all u ((k, s) ∷ fds) =
    let (s', cs) = cancel_fd u s in
    let (fds', cs') = cancel_all u fds in ((k, s') ∷ fds', cs ++ cs')

pub cancel : ℕ → SimBackend → SimBackend
unfolding cancel_all
cancel u b = let (fds, cs) = cancel_all u b.fds in record { fds = fds; ready = b.ready ++ cs }

pub wait : ℕ → SimBackend → List Completion × SimBackend
wait n b = (take n b.ready, record b { ready = drop n b.ready })

pub deliver_connect : ℕ → ℕ → Outcome → SimBackend → SimBackend
deliver_connect fd u r b = at b fd (λ s.
    if s.connect_pending && (s.connect_ud == u)
    then (record s { connect_pending = false }, push u r)
    else (s, []))

pub feed : ℕ → List ℕ → SimBackend → SimBackend
unfolding feed_fd
feed fd bytes b = at b fd (feed_fd bytes)

pub close_peer : ℕ → SimBackend → SimBackend
unfolding close_fd
close_peer fd b = at b fd close_fd

pub fail_peer : ℕ → ℕ → SimBackend → SimBackend
unfolding fail_fd
fail_peer fd err b = at b fd (fail_fd err)

pub deliver_accept : ℕ → ℕ → SimBackend → SimBackend
deliver_accept listen_fd peer_fd b =
    let b1 : SimBackend = at b listen_fd (λ s. (s, [])) in
    let b2 : SimBackend = at b1 peer_fd (λ s. (s, [])) in
    at b2 listen_fd (λ s.
      if s.accept_armed
      then (record s { accept_armed = false }, push s.accept_ud (value peer_fd))
      else (s, []))

abbrev pub watched : Option FdState → ℕ → List Completion
watched none mask = []
watched (some s) mask = push s.watch_ud (value mask)

pub deliver_watch : ℕ → ℕ → SimBackend → SimBackend
deliver_watch fd mask b = record b { ready = b.ready ++ watched (find b.fds fd) mask }

abbrev pub outbound_of : Option FdState → List ℕ
outbound_of none = []
outbound_of (some s) = s.outbound

pub sent : ℕ → SimBackend → List ℕ
sent fd b = outbound_of (find b.fds fd)
