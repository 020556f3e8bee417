-- ===== src/Net/Connection/Engine/Tests.antt =====
-- Connections at concrete inputs.
use affini_x.Base.{length, ◌<◌, ◌≤◌, ℕ, ◌≡◌, refl, true, List, [], ◌∷◌, arith}
use affini_x.Net.Protocol.{ParseResult, message, need_more}
use affini_x.Net.Connection.Engine.Rounds.{parse_loop_enough}
use affini_x.Net.Connection.Scatter.{joined, send_scatter-send}
use affini_x.Net.Connection.{
  send_scatter, Connection, Params, established, drop_oldest, disconnect, stop_reading,
  WriteOverflow, create, send, queued, backpressured, check_write_watermark,
}
use affini_x.Net.Connection.Engine.{
  parse_loop, Handlers, Event, connect_completes, recv_completes, calls, sends, closes_conn, done,
  sent, run, on_sent, flush_write, sent_bytes, resume,
}
use affini_x.Net.Connection.Engine.Drains.{
  flushes, drains, recv_stops, events_of, resumed, stop_reading_stalls, drop_oldest_loses,
}
use affini_x.Net.Connection.Engine.Fifo.{points, sending, flushing, completing, advance_all}

-- Every byte is a message.
abbrev each_byte : List ℕ → ParseResult ℕ
each_byte [] = need_more 1
each_byte (b ∷ bs) = message b 1

abbrev quiet : Handlers ℕ
quiet = record {
  on_messages = λ ms. sends (9 ∷ []) ∷ closes_conn ∷ [];
  on_open = [];
  on_error = [];
  on_writable = [];
}

abbrev limits : WriteOverflow → Params
limits o = record {
  write_high_watermark = 4;
  write_low_watermark = 2;
  on_overflow = o;
  auto_pause_reads = true;
  idle_read_timeout = 0;
}

abbrev busy : WriteOverflow → Connection ℕ
busy o = record (create (limits o)) {
  state = established;
  write_buf = 1 ∷ 2 ∷ 3 ∷ [];
  write_inflight = 3;
}

abbrev fresh : Connection ℕ
fresh = record (create (limits disconnect)) {
  state = established;
  write_buf = [];
  write_inflight = 0;
}

abbrev session : List Event
session = connect_completes (sent 0) ∷ recv_completes (done (5 ∷ 6 ∷ [])) ∷ calls closes_conn ∷ []

stop_reading_stalls_example :
    let (r, c1) = send (4 ∷ 5 ∷ []) (busy stop_reading) in
    let c2 = run each_byte quiet (events_of (recv_stops ∷ drains 3 ∷ flushes ∷ drains 2 ∷ [])) c1 in
    (r ≡ backpressured)
    × (c2.read_paused ≡ true)
    × (resumed c2.log ≡ resumed (busy stop_reading).log)
unfolding create
stop_reading_stalls_example =
    stop_reading_stalls each_byte quiet (4 ∷ 5 ∷ [])
      (recv_stops ∷ drains 3 ∷ flushes ∷ drains 2 ∷ []) (busy stop_reading) refl refl refl
      (omega arith)

drop_oldest_loses_example :
    let (r, c1) = send (4 ∷ 5 ∷ []) (busy drop_oldest) in
    (r ≡ queued) × ((on_sent quiet (sent 3) c1).write_buf ≡ [])
unfolding create
drop_oldest_loses_example =
    drop_oldest_loses quiet (4 ∷ 5 ∷ []) (busy drop_oldest) refl refl refl refl (omega arith)
      (omega arith)

-- Where the backend keeps the address, and a later send has given the memory to other bytes, these go out.
points_differ :
    (advance_all points quiet
      (sending (1 ∷ 2 ∷ []) ∷ flushing ∷ sending (4 ∷ []) ∷ completing 2 (8 ∷ 9 ∷ []) ∷ [])
      (record { conn = fresh; flight = []; wire = []; accepted = [] })).wire
    ≡ 8 ∷ 9 ∷ []
unfolding create advance_all send check_write_watermark flush_write on_sent sent_bytes resume
points_differ = refl

send_scatter-send_example :
    send_scatter ((4 ∷ []) ∷ (5 ∷ 6 ∷ []) ∷ []) (busy drop_oldest)
    ≡ send (joined ((4 ∷ []) ∷ (5 ∷ 6 ∷ []) ∷ [])) (busy drop_oldest)
send_scatter-send_example = send_scatter-send ((4 ∷ []) ∷ (5 ∷ 6 ∷ []) ∷ []) (busy drop_oldest)

each_byte_eats : (inp : List ℕ) (m k : ℕ) → each_byte inp ≡ message m k → (0 < k) × (k ≤ length inp)
each_byte_eats [] m k e = absurd cc
each_byte_eats (b ∷ bs) m k e = let one : k ≡ 1 = cc in (omega (arith, one), omega (arith, one))

parse_loop_enough_example :
    parse_loop each_byte quiet 3 [] (record fresh { read_buf = 5 ∷ 6 ∷ [] })
    ≡ parse_loop each_byte quiet 10 [] (record fresh { read_buf = 5 ∷ 6 ∷ [] })
parse_loop_enough_example =
    parse_loop_enough each_byte quiet 3 7 [] (record fresh { read_buf = 5 ∷ 6 ∷ [] }) each_byte_eats
      (omega arith)
