-- ===== src/Net/TcpClient/Events.antt =====
-- What reaches a client: its start, the answer of the resolver, timers, the ends of attempts and connections.
use affini_x.Base.{
  contains, erase, ℕ, suc, ◌==◌, Bool, true, false, ◌||◌, not, if◌then◌else◌, Option, none, some,
  List, [], ◌∷◌, ◌++◌, length, drop, take, get_elem?, update,
}
use affini_x.Net.Connection.{CloseReason, local_close, connect_failed}
use affini_x.Net.TcpClient.{
  disconnected, connecting, SockAddr, Opened, Phase, waits, established, Timer, reconnects,
  connect_deadline, he_deadline, staggers, on_open, on_error, Client, emit, is_state, set_state,
  is_conn, close, on_connected,
}
use affini_x.Net.TcpClient.Attempts.{
  is_empty, schedule_reconnect, connect_next, he_launch, he_attempt_done, arm_stagger,
  begin_connect,
}

-- What is known of the target at the start: its addresses, that a resolver is to be asked, or that the name
-- is unknown.
pub data Lookup : Type 0 where
  known : List SockAddr → Lookup
  asks : Lookup
  unknown : Lookup

abbrev pub close_losers : List ℕ → Client → Client
close_losers [] c = c
close_losers (l ∷ ls) c =
    close_losers ls (close l local_close (record c { closing = c.closing ++ l ∷ [] }))

abbrev pub close_each : List ℕ → Client → Client
close_each [] c = c
close_each (i ∷ is) c = close_each is (close i connect_failed c)

abbrev pub is_group : ℕ → Option ℕ → Bool
is_group g none = false
is_group g (some h) = g == h

abbrev pub in_group : ℕ → Timer → Bool
in_group g (reconnects d) = false
in_group g (connect_deadline i) = false
in_group g (he_deadline h) = is_group g h
in_group g (staggers h) = is_group g h

abbrev pub without : ℕ → List Timer → List Timer
without g [] = []
without g (t ∷ ts) = if in_group g t then without g ts else t ∷ without g ts

abbrev pub cancel_he : Option ℕ → Client → Client
cancel_he none c = c
cancel_he (some g) c = record c { timers = without g c.timers; he_group = none }

-- The attempt that connects first is kept, and the others are closed.
unfoldable pub promote : ℕ → Client → Client
promote i c =
    let losers = erase i c.pending in
    let c1 = close_losers losers (record c { he_won = true; conn = some i; pending = [] }) in
    emit (on_open i) (on_connected (cancel_he c1.he_group c1))

unfoldable pub he_win : ℕ → Client → Client
he_win i c =
    if c.he_won
    then (if contains i c.pending then close i local_close c else c)
    else if contains i c.pending
    then promote i c
    else c

unfoldable pub he_timeout : Client → Client
he_timeout c = close_each c.pending (record c { he_next = length c.he_addrs })

abbrev pub is_waiting : Phase → Bool
is_waiting waits = true
is_waiting p = false

-- The completion of a connect: its result is an error or not.
unfoldable pub on_connect_result : ℕ → Bool → Client → Client
on_connect_result i fails c =
    let c1 = record c { phases = update c.phases i established } in
    if is_waiting (c.phases i)
    then if fails
      then close i connect_failed c
      else if c1.is_attempt i
      then he_win i c1
      else emit (on_open i) (on_connected c1)
    else c

abbrev pub is_failed : CloseReason → Bool
is_failed connect_failed = true
is_failed r = false

abbrev pub is_some : Option ℕ → Bool
is_some none = false
is_some (some i) = true

-- The loop's turns: a start, the resolver's answer, the timer of a place in the list, the completion of a
-- connect, an end of a connection that is no failure to connect, the oldest deferred call.
pub data Action : Type 0 where
  starts : Lookup → Action
  resolves : Option (List SockAddr) → Action
  expires : ℕ → Action
  completes : ℕ → Bool → Action
  ends : ℕ → CloseReason → Action
  notifies : Action

module _ (answers : ℕ → Opened) (vary : ℕ → ℕ → ℕ) where
  unfoldable pub begin_at : Lookup → Client → Client
  begin_at (known as') c = begin_connect answers vary (record c { addrs = as' })
  begin_at asks c = record (set_state connecting c) { resolving = true }
  begin_at unknown c = c

  unfoldable pub start : Lookup → Client → Client
  start l c =
      let started = begin_at l c in
      if is_some c.conn || c.resolving || not (is_empty c.pending) || not (is_empty c.closing)
      then c
      else started

  -- The resolver's answer.
  unfoldable pub resolved : Option (List SockAddr) → Client → Client
  resolved none c =
      schedule_reconnect answers vary
        (set_state disconnected (emit on_error (record c { resolving = false })))
  resolved (some as') c = begin_connect answers vary (record c { resolving = false; addrs = as' })

  unfoldable pub expire : Timer → Client → Client
  expire (reconnects d) c = begin_connect answers vary c
  expire (connect_deadline i) c = if is_waiting (c.phases i) then close i connect_failed c else c
  expire (he_deadline g) c = he_timeout c
  expire (staggers g) c = arm_stagger answers vary (he_launch answers vary c)

  -- What a connection's end leads to, once its memory is given back.
  unfoldable pub after_gone : CloseReason → Client → Client
  after_gone r c =
      if is_failed r
      then (if not c.happy_eyeballs || is_empty c.he_addrs then connect_next answers vary c else c)
      else if is_state c.state disconnected
      then c
      else schedule_reconnect answers vary c

  unfoldable pub on_conn_gone : ℕ → CloseReason → Client → Client
  on_conn_gone i r c =
      if is_conn i c.conn
      then after_gone r (record c { conn = none })
      else if contains i c.pending
      then after_gone r (he_attempt_done answers vary (record c { pending = erase i c.pending }))
      else if contains i c.closing
      then after_gone r (record c { closing = erase i c.closing })
      else c

  unfoldable pub expire_at : Option Timer → ℕ → Client → Client
  expire_at none n c = c
  expire_at (some t) n c = expire t (record c { timers = take n c.timers ++ drop (suc n) c.timers })

  unfoldable pub notify : List (ℕ × CloseReason) → Client → Client
  notify [] c = c
  notify (d ∷ ds) c = on_conn_gone d.0 d.1 (record c { deferred = ds })

  unfoldable pub act : Action → Client → Client
  act (starts l) c = start l c
  act (resolves r) c = if c.resolving then resolved r c else c
  act (expires n) c = expire_at (get_elem? c.timers n) n c
  act (completes i fails) c = on_connect_result i fails c
  act (ends i r) c = if is_failed r then c else close i r c
  act notifies c = notify c.deferred c

  unfoldable pub run : List Action → Client → Client
  run [] c = c
  run (a ∷ as') c = run as' (act a c)
