-- ===== src/Net/Connection.antt =====
-- include/afx/net/connection.hpp, a connection in callback mode. Its state, the sending side and the
-- teardown stand here, the completions in Net/Connection/Engine.antt.
-- The write buffer is the queue of bytes that an IoBuffer holds. What a call asks of the event loop,
-- the backend or the handlers is an entry of `log`, the newest first.
pub mod Engine
pub mod Scatter
use affini_x.Base.{
  ℕ, ◌+◌, Bool, true, false, not, List, [], ◌∷◌, ◌++◌, ◌&&◌, ltb, leb, ◌==◌, if◌then◌else◌, length,
  drop,
}

pub data ConnState : Type 0 where
  connecting : ConnState
  established : ConnState
  shutdown_write : ConnState
  closing : ConnState
  closed : ConnState

pub data CloseReason : Type 0 where
  peer_fin : CloseReason
  local_close : CloseReason
  frame_error : CloseReason
  idle_timeout : CloseReason
  write_overflow : CloseReason
  socket_error : CloseReason
  connect_failed : CloseReason

pub data WriteOverflow : Type 0 where
  disconnect : WriteOverflow
  drop_newest : WriteOverflow
  drop_oldest : WriteOverflow
  stop_reading : WriteOverflow

pub data SendResult : Type 0 where
  queued : SendResult
  backpressured : SendResult
  dropped : SendResult
  not_open : SendResult

pub record Params : Type 0 where
  pub write_high_watermark : ℕ
  pub write_low_watermark : ℕ
  pub on_overflow : WriteOverflow
  pub auto_pause_reads : Bool
  pub idle_read_timeout : ℕ

pub data Effect (M : Type 0) : Type 0 where
  opens : Effect M
  messages : List M → Effect M
  reports : ℕ → Effect M
  writable : Effect M
  closes : CloseReason → Effect M
  notifies : CloseReason → Effect M
  write_pending : Effect M
  submits_send : List ℕ → Effect M
  submits_recv : ℕ → Effect M
  cancels_recv : Effect M
  sends_fin : Effect M
  arms_idle : Effect M
  detaches : Effect M
  cancels_timers : Effect M

pub record Stats : Type 0 where
  pub bytes_in : ℕ
  pub bytes_out : ℕ
  pub msgs_in : ℕ
  pub frame_errors : ℕ
  pub write_hwm_hits : ℕ
  pub write_drops : ℕ
  pub conns_closed : ℕ

pub record Connection (M : Type 0) : Type 0 where
  pub params : Params
  pub state : ConnState
  pub has_fd : Bool
  pub has_group : Bool
  pub read_buf : List ℕ
  pub write_buf : List ℕ
  pub write_inflight : ℕ
  pub parse_need : ℕ
  pub is_backpressured : Bool
  pub read_paused : Bool
  pub stats : Stats
  pub log : List (Effect M)

pub is_established : ConnState → Bool
is_established established = true
is_established s = false

pub is_shutdown_write : ConnState → Bool
is_shutdown_write shutdown_write = true
is_shutdown_write s = false

-- Closing or Closed.
pub is_down : ConnState → Bool
is_down closing = true
is_down closed = true
is_down s = false

pub no_stats : Stats
no_stats = record {
  bytes_in = 0;
  bytes_out = 0;
  msgs_in = 0;
  frame_errors = 0;
  write_hwm_hits = 0;
  write_drops = 0;
  conns_closed = 0;
}

pub total_size : List (List ℕ) → ℕ
total_size [] = 0
total_size (p ∷ ps) = length p + total_size ps

pub consume_each : List (List ℕ) → List ℕ → List ℕ
consume_each [] buf = buf
consume_each (p ∷ ps) buf = consume_each ps (drop (length p) buf)

pub append_each : List (List ℕ) → List ℕ → List ℕ
append_each [] buf = buf
append_each (p ∷ ps) buf = append_each ps (buf ++ p)

module _ {M : Type 0} where
  pub create : Params → Connection M
  create params = record {
    params = params;
    state = connecting;
    has_fd = true;
    has_group = true;
    read_buf = [];
    write_buf = [];
    write_inflight = 0;
    parse_need = 0;
    is_backpressured = false;
    read_paused = false;
    stats = no_stats;
    log = [];
  }

  abbrev pub emit : Effect M → Connection M → Connection M
  emit e c = record c { log = e ∷ c.log }

  pub arm_idle_timer : Connection M → Connection M
  arm_idle_timer c = if c.params.idle_read_timeout == 0 then c else emit arms_idle c

  -- The defer and the synchronous notification of the owner are the same entry.
  pub teardown : CloseReason → Connection M → Connection M
  teardown r c =
      let c1 : Connection M = if c.has_fd then emit detaches (record c { has_fd = false }) else c in
      let c2 : Connection M =
        if c1.has_group then emit cancels_timers (record c1 { has_group = false }) else c1 in
      let c3 : Connection M = record c2 {
        stats = record c2.stats { conns_closed = c2.stats.conns_closed + 1 };
      } in
      emit (notifies r) (record (emit (closes r) c3) { state = closed })

  pub close : CloseReason → Connection M → Connection M
  unfolding is_down teardown
  close r c = if is_down c.state then c else teardown r (record c { state = closing })

  pub pause_reads : Connection M → Connection M
  pause_reads c = emit cancels_recv (record c { read_paused = true })

  abbrev pub hit_watermark : Connection M → Connection M
  hit_watermark c = record c {
    stats = record c.stats { write_hwm_hits = c.stats.write_hwm_hits + 1 };
  }

  abbrev pub count_drop : Connection M → Connection M
  count_drop c = record c { stats = record c.stats { write_drops = c.stats.write_drops + 1 } }

  pub check_write_watermark : Connection M → Connection M
  unfolding pause_reads
  check_write_watermark c =
      if not c.is_backpressured && leb c.params.write_high_watermark (length c.write_buf)
      then (let c1 : Connection M = hit_watermark (record c { is_backpressured = true }) in
          if c.params.auto_pause_reads then pause_reads c1 else c1)
      else c

  abbrev pub queue : List ℕ → Connection M → Connection M
  queue bytes c = emit write_pending (record c { write_buf = c.write_buf ++ bytes })

  pub overflowed : WriteOverflow → List ℕ → Connection M → SendResult × Connection M
  unfolding close pause_reads
  overflowed disconnect bytes c = (not_open, close write_overflow c)
  overflowed drop_newest bytes c = (dropped, count_drop c)
  overflowed drop_oldest bytes c =
      (queued, queue bytes (record (count_drop c) { write_buf = drop (length bytes) c.write_buf }))
  overflowed stop_reading bytes c = (backpressured, queue bytes (pause_reads c))

  pub apply_overflow : List ℕ → Connection M → SendResult × Connection M
  unfolding overflowed
  apply_overflow bytes c = overflowed c.params.on_overflow bytes (hit_watermark c)

  pub send : List ℕ → Connection M → SendResult × Connection M
  unfolding is_established apply_overflow check_write_watermark
  send bytes c =
      if not (is_established c.state)
      then (not_open, c)
      else if ltb c.params.write_high_watermark (length c.write_buf + length bytes)
      then apply_overflow bytes c
      else (queued, check_write_watermark (queue bytes c))

  abbrev pub queue_each : List (List ℕ) → Connection M → Connection M
  queue_each parts c = emit write_pending (record c { write_buf = append_each parts c.write_buf })

  pub overflowed_parts : WriteOverflow → List (List ℕ) → Connection M → SendResult × Connection M
  unfolding close pause_reads consume_each append_each
  overflowed_parts disconnect parts c = (not_open, close write_overflow c)
  overflowed_parts drop_newest parts c = (dropped, count_drop c)
  overflowed_parts drop_oldest parts c = (
    queued,
    queue_each parts (record (count_drop c) { write_buf = consume_each parts c.write_buf }),
  )
  overflowed_parts stop_reading parts c = (backpressured, queue_each parts (pause_reads c))

  pub apply_overflow_parts : List (List ℕ) → Connection M → SendResult × Connection M
  unfolding overflowed_parts
  apply_overflow_parts parts c = overflowed_parts c.params.on_overflow parts (hit_watermark c)

  pub send_scatter : List (List ℕ) → Connection M → SendResult × Connection M
  unfolding is_established total_size apply_overflow_parts append_each check_write_watermark
  send_scatter parts c =
      if not (is_established c.state)
      then (not_open, c)
      else if ltb c.params.write_high_watermark (length c.write_buf + total_size parts)
      then apply_overflow_parts parts c
      else (queued, check_write_watermark (queue_each parts c))

  pub half_close : Connection M → Connection M
  unfolding is_established arm_idle_timer
  half_close c =
      if not (is_established c.state)
      then c
      else (let c1 : Connection M = arm_idle_timer (record c { state = shutdown_write }) in
          if (c1.write_inflight == 0 && length c1.write_buf == 0) && c1.has_fd
          then emit sends_fin c1
          else c1)
