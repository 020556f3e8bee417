-- ===== src/Net/Connection/Engine.antt =====
-- include/afx/net/connection.hpp, the completions: connect, receive and the read loop, flush and sent.
-- A handler is the list of calls that it makes on its connection; an absent one makes none.
pub mod Settled
pub mod Once
pub mod Drains
pub mod Fifo
pub mod Rounds
mod Tests
use affini_x.Base.{
  ℕ, zero, suc, ◌+◌, ◌-◌, max, Bool, true, false, not, List, [], ◌∷◌, ◌++◌, reverse, ◌&&◌, ◌||◌,
  leb, ◌==◌, if◌then◌else◌, length, drop,
}
use affini_x.Net.Protocol.{ParseResult, message, need_more, error}
use affini_x.Net.Connection.{
  Connection, ConnState, connecting, established, shutdown_write, Effect, opens, messages, reports,
  writable, write_pending, submits_send, submits_recv, sends_fin, CloseReason, peer_fin,
  local_close, frame_error, idle_timeout, socket_error, connect_failed, is_established,
  is_shutdown_write, emit, arm_idle_timer, close, send, half_close, Stats,
}

-- What `Completion::result` tells apart; a failure is any other negative value.
pub data IoResult : Type 0 where
  done : List ℕ → IoResult
  try_again : IoResult
  cancelled : IoResult
  failure : IoResult

pub data SentResult : Type 0 where
  sent : ℕ → SentResult
  send_cancelled : SentResult
  send_failed : SentResult

pub data Call : Type 0 where
  sends : List ℕ → Call
  half_closes : Call
  closes_conn : Call

pub record Handlers (M : Type 0) : Type 0 where
  pub on_messages : List M → List Call
  pub on_open : List Call
  pub on_error : List Call
  pub on_writable : List Call

abbrev pub batch_capacity : ℕ
batch_capacity = 64

module _ {M : Type 0} where
  pub run_call : Call → Connection M → Connection M
  run_call (sends bytes) c = (send bytes c).1
  run_call half_closes c = half_close c
  run_call closes_conn c = close local_close c

  pub run_calls : List Call → Connection M → Connection M
  unfolding run_call
  run_calls [] c = c
  run_calls (k ∷ ks) c = run_calls ks (run_call k c)

  pub arm_recv : Connection M → Connection M
  arm_recv c =
      if c.read_paused
      then c
      else if not (is_established c.state)
      then c
      else emit (submits_recv (max c.parse_need 4096)) c

  pub arm_drain_recv : Connection M → Connection M
  arm_drain_recv c = if c.has_fd then emit (submits_recv 4096) c else c

  pub start : Handlers M → Connection M → Connection M
  unfolding arm_recv arm_idle_timer
  start h c =
      let c1 : Connection M = emit opens (record c { state = established }) in
      arm_recv (arm_idle_timer (run_calls h.on_open c1))

  pub connect_in : Handlers M → ConnState → SentResult → Connection M → Connection M
  unfolding start
  connect_in h connecting (sent n) c = start h c
  connect_in h connecting send_cancelled c = c
  connect_in h connecting send_failed c = close connect_failed c
  connect_in h s r c = c

  pub on_connect_result : Handlers M → SentResult → Connection M → Connection M
  unfolding connect_in
  on_connect_result h r c = connect_in h c.state r c

  pub flush_write : Connection M → Connection M
  flush_write c =
      if not (c.write_inflight == 0)
      then c
      else if length c.write_buf == 0
      then c
      else if is_established c.state || is_shutdown_write c.state
      then emit (submits_send c.write_buf) (record c { write_inflight = length c.write_buf })
      else c

  -- The part of `on_sent` behind the low watermark.
  pub resume : Handlers M → Connection M → Connection M
  unfolding arm_recv
  resume h c =
      let c1 : Connection M = record c { is_backpressured = false } in
      let c2 : Connection M =
        if c1.read_paused then arm_recv (record c1 { read_paused = false }) else c1 in
      if is_established c2.state then run_calls h.on_writable (emit writable c2) else c2

  pub sent_bytes : Handlers M → ℕ → Connection M → Connection M
  unfolding resume
  sent_bytes h n c =
      let c1 : Connection M = record c {
        write_inflight = 0;
        write_buf = drop n c.write_buf;
        stats = record c.stats { bytes_out = c.stats.bytes_out + n };
      } in
      let c2 : Connection M =
        if is_shutdown_write c1.state && (length c1.write_buf == 0) && c1.has_fd
        then emit sends_fin c1
        else c1 in
      let c3 : Connection M =
        if c2.is_backpressured && leb (length c2.write_buf) c2.params.write_low_watermark
        then resume h c2
        else c2 in
      if length c3.write_buf == 0 then c3 else emit write_pending c3

  pub on_sent : Handlers M → SentResult → Connection M → Connection M
  unfolding sent_bytes
  on_sent h send_failed c = close socket_error (record c { write_inflight = 0 })
  on_sent h send_cancelled c = record c { write_inflight = 0 }
  on_sent h (sent n) c = sent_bytes h n c

  abbrev pub dispatch_batch : Handlers M → List M → Connection M → Connection M
  dispatch_batch h batch c =
      let c1 : Connection M = record c {
        stats = record c.stats { msgs_in = c.stats.msgs_in + 1 };
      } in
      run_calls (h.on_messages batch) (emit (messages batch) c1)

  -- Behind the loop: the last batch, then the next read.
  pub finish_read : Handlers M → List M → Connection M → Connection M
  unfolding arm_recv arm_drain_recv
  finish_read h batch c =
      let c1 : Connection M = if length batch == 0 then c else dispatch_batch h (reverse batch) c in
      if is_established c1.state
      then arm_recv c1
      else if is_shutdown_write c1.state
      then arm_drain_recv c1
      else c1

  pub fail_frame : Handlers M → ℕ → Connection M → Connection M
  fail_frame h e c =
      let c1 : Connection M = record c {
        stats = record c.stats { frame_errors = c.stats.frame_errors + 1 };
      } in
      close frame_error (run_calls h.on_error (emit (reports e) c1))

  -- One round of the read loop; `batch` has its back first and `rest` is the next round.
  pub parsed :
      Handlers M
      → (List M → Connection M → Connection M)
      → List M
      → ParseResult M
      → Connection M
      → Connection M
  unfolding finish_read fail_frame
  parsed h rest batch (need_more n) c = finish_read h batch (record c { parse_need = n })
  parsed h rest batch (error e) c = fail_frame h e c
  parsed h rest batch (message m consumed) c =
      let c1 : Connection M = record c { read_buf = drop consumed c.read_buf; parse_need = 0 } in
      if length (m ∷ batch) == batch_capacity
      then (let c2 : Connection M = dispatch_batch h (reverse (m ∷ batch)) c1 in
          if is_established c2.state then rest [] c2 else c2)
      else rest (m ∷ batch) c1

  pub parse_loop : (List ℕ → ParseResult M) → Handlers M → ℕ → List M → Connection M → Connection M
  unfolding parsed
  parse_loop parse h zero batch c = c
  parse_loop parse h (suc fuel) batch c =
      parsed h (parse_loop parse h fuel) batch (parse c.read_buf) c

  pub read_bytes : (List ℕ → ParseResult M) → Handlers M → List ℕ → Connection M → Connection M
  unfolding arm_idle_timer parse_loop
  read_bytes parse h bytes c =
      let c1 : Connection M = record c {
        read_buf = c.read_buf ++ bytes;
        stats = record c.stats { bytes_in = c.stats.bytes_in + length bytes };
      } in
      let c2 : Connection M = arm_idle_timer c1 in parse_loop parse h (length c2.read_buf + 1) [] c2

  pub recv_open : (List ℕ → ParseResult M) → Handlers M → IoResult → Connection M → Connection M
  unfolding arm_recv read_bytes
  recv_open parse h try_again c = arm_recv c
  recv_open parse h cancelled c = arm_recv c
  recv_open parse h failure c = close socket_error c
  recv_open parse h (done []) c = close peer_fin c
  recv_open parse h (done (b ∷ bs)) c = read_bytes parse h (b ∷ bs) c

  abbrev pub redrain : Connection M → Connection M
  redrain c = arm_drain_recv (arm_idle_timer c)

  -- Bytes that come now are dropped.
  pub recv_half_closed : IoResult → Connection M → Connection M
  unfolding arm_idle_timer arm_drain_recv
  recv_half_closed (done []) c = close peer_fin c
  recv_half_closed failure c = close socket_error c
  recv_half_closed try_again c = redrain c
  recv_half_closed cancelled c = redrain c
  recv_half_closed (done (b ∷ bs)) c = redrain c

  pub recv_in :
      (List ℕ → ParseResult M) → Handlers M → ConnState → IoResult → Connection M → Connection M
  unfolding recv_open recv_half_closed
  recv_in parse h established r c = recv_open parse h r c
  recv_in parse h shutdown_write r c = recv_half_closed r c
  recv_in parse h s r c = c

  pub on_recv : (List ℕ → ParseResult M) → Handlers M → IoResult → Connection M → Connection M
  unfolding recv_in
  on_recv parse h r c = recv_in parse h c.state r c

-- Whatever reaches the connection: a completion, the idle timer, a call from outside.
pub data Event : Type 0 where
  connect_completes : SentResult → Event
  recv_completes : IoResult → Event
  send_completes : SentResult → Event
  flush_runs : Event
  idle_expires : Event
  calls : Call → Event

module _ {M : Type 0} (parse : List ℕ → ParseResult M) (h : Handlers M) where
  pub on_event : Event → Connection M → Connection M
  on_event (connect_completes r) c = on_connect_result h r c
  on_event (recv_completes r) c = on_recv parse h r c
  on_event (send_completes r) c = on_sent h r c
  on_event flush_runs c = flush_write c
  on_event idle_expires c = close idle_timeout c
  on_event (calls k) c = run_call k c

  pub run : List Event → Connection M → Connection M
  unfolding on_event
  run [] c = c
  run (e ∷ es) c = run es (on_event e c)
