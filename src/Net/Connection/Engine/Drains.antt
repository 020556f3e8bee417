-- ===== src/Net/Connection/Engine/Drains.antt =====
-- The sending side: what waits is what was taken and not yet sent, and two policies that break this.
use affini_x.Base.{
  ℕ, zero, suc, ◌+◌, ◌≤◌, ◌<◌, ◌≡◌, refl, ap, ◌∙◌, true, false, List, [], ◌∷◌, arith, ltb, length,
  drop, length-append, length-drop,
}
use affini_x.Net.Protocol.{ParseResult}
use affini_x.Net.Connection.{
  Connection, established, Effect, writable, submits_recv, is_established, pause_reads, queued,
  backpressured, queue, overflowed, apply_overflow, send, hit_watermark, count_drop, drop_oldest,
  stop_reading,
}
use affini_x.Net.Connection.Engine.{
  cancelled, sent, Handlers, arm_recv, flush_write, sent_bytes, on_sent, recv_in, recv_open,
  on_recv, Event, recv_completes, send_completes, flush_runs, on_event, run,
}

-- What the event loop brings while the peer drains the write queue.
pub data Drain : Type 0 where
  flushes : Drain
  drains : ℕ → Drain
  recv_stops : Drain

abbrev pub event_of : Drain → Event
event_of flushes = flush_runs
event_of (drains n) = send_completes (sent n)
event_of recv_stops = recv_completes cancelled

abbrev pub events_of : List Drain → List Event
events_of [] = []
events_of (d ∷ ds) = event_of d ∷ events_of ds

drop-over : (n : ℕ) (xs : List ℕ) → length xs ≤ n → drop n xs ≡ []
drop-over zero [] h = refl
drop-over zero (x ∷ xs) h = absurd (omega arith)
drop-over (suc n) [] h = refl
drop-over (suc n) (x ∷ xs) h = drop-over n xs (omega arith)

module _ {M : Type 0} where
  -- How often a read was armed or the handler `on_writable` ran.
  abbrev pub resumed : List (Effect M) → ℕ
  resumed [] = 0
  resumed (submits_recv n ∷ es) = suc (resumed es)
  resumed (writable ∷ es) = suc (resumed es)
  resumed (e ∷ es) = resumed es

  abbrev Stopped : Connection M → ℕ → Type 0
  Stopped c n = (c.read_paused ≡ true) × (c.is_backpressured ≡ false) × (resumed c.log ≡ n)

  recv-Stopped :
      (c : Connection M) (n : ℕ)
      → Stopped c n
      → Stopped (arm_recv c) n × ((arm_recv c).state ≡ c.state)
  unfolding arm_recv
  recv-Stopped c n (p, b, r) = ground (arith, p, b, r)

  recv_in-open :
      (parse : List ℕ → ParseResult M) (h : Handlers M) (c : Connection M)
      → c.state ≡ established
      → on_recv parse h cancelled c ≡ arm_recv c
  unfolding on_recv recv_in recv_open
  recv_in-open parse h c e = ap (λ s. recv_in parse h s cancelled c) e

  flush-Stopped :
      (c : Connection M) (n : ℕ)
      → Stopped c n
      → Stopped (flush_write c) n × ((flush_write c).state ≡ c.state)
  unfolding flush_write
  flush-Stopped c n (p, b, r) = ground (arith, p, b, r)

  sent-Stopped :
      (h : Handlers M) (k : ℕ) (c : Connection M) (n : ℕ)
      → Stopped c n
      → Stopped (sent_bytes h k c) n × ((sent_bytes h k c).state ≡ c.state)
  unfolding sent_bytes
  sent-Stopped h k c n (p, b, r) = ground (arith, p, b, r)

  drain-Stopped :
      (parse : List ℕ → ParseResult M) (h : Handlers M) (d : Drain) (c : Connection M) (n : ℕ)
      → c.state ≡ established
      → Stopped c n
      → Stopped (on_event parse h (event_of d) c) n
        × ((on_event parse h (event_of d) c).state ≡ c.state)
  unfolding on_event on_sent
  drain-Stopped parse h flushes c n e w = flush-Stopped c n w
  drain-Stopped parse h (drains k) c n e w = sent-Stopped h k c n w
  drain-Stopped parse h recv_stops c n e w = rw (recv_in-open parse h c e) (recv-Stopped c n w)

  run-Stopped :
      (parse : List ℕ → ParseResult M) (h : Handlers M) (ds : List Drain) (c : Connection M) (n : ℕ)
      → c.state ≡ established
      → Stopped c n
      → Stopped (run parse h (events_of ds) c) n
  unfolding run
  run-Stopped parse h [] c n e w = w
  run-Stopped parse h (d ∷ ds) c n e w =
      let p = drain-Stopped parse h d c n e w in
      run-Stopped parse h ds (on_event parse h (event_of d) c) n (p.1 ∙ e) p.0

  sent_buf :
      (h : Handlers M) (n : ℕ) (c : Connection M)
      → c.is_backpressured ≡ false
      → (on_sent h (sent n) c).write_buf ≡ drop n c.write_buf
  unfolding on_sent sent_bytes
  sent_buf h n c b = ground (arith, b)

  overflow-send :
      (bytes : List ℕ) (c : Connection M)
      → c.state ≡ established
      → c.params.write_high_watermark < length c.write_buf + length bytes
      → send bytes c ≡ overflowed c.params.on_overflow bytes (hit_watermark c)
  unfolding send apply_overflow is_established
  overflow-send bytes c e lt =
      let f : ltb c.params.write_high_watermark (length c.write_buf + length bytes) ≡ true =
        ground arith in
      let t : is_established c.state ≡ true = ap is_established e in rw t (rw f refl)

  -- A send that the policy StopReading answers with Backpressured, where the watermark was not hit before,
  -- stops the reads for good: however the peer drains the queue, no read is armed again and
  -- `on_writable` never runs.
  pub stop_reading_stalls :
      (parse : List ℕ → ParseResult M) (h : Handlers M) (bytes : List ℕ) (ds : List Drain)
      (c : Connection M)
      → c.state ≡ established
      → c.params.on_overflow ≡ stop_reading
      → c.is_backpressured ≡ false
      → c.params.write_high_watermark < length c.write_buf + length bytes
      → let (r, c1) = send bytes c in
        let c2 = run parse h (events_of ds) c1 in
        (r ≡ backpressured) × (c2.read_paused ≡ true) × (resumed c2.log ≡ resumed c.log)
  unfolding overflowed pause_reads
  stop_reading_stalls parse h bytes ds c e o b lt =
      let d : Connection M = queue bytes (pause_reads (hit_watermark c)) in
      let s : send bytes c ≡ (backpressured, d) =
        overflow-send bytes c e lt ∙ ap (λ k. overflowed k bytes (hit_watermark c)) o in
      let w = run-Stopped parse h ds d (resumed c.log) e (refl, b, refl) in rw s (refl, w.0, w.2)

  -- Under DropOldest, on an established connection that is not backpressured yet and whose queued bytes are
  -- all in flight: a send of no more bytes than are queued, with which they are above the high watermark, is
  -- answered Queued, but when the bytes in flight have gone out the queue is empty: the new bytes are never
  -- sent.
  pub drop_oldest_loses :
      (h : Handlers M) (bytes : List ℕ) (c : Connection M)
      → c.state ≡ established
      → c.params.on_overflow ≡ drop_oldest
      → c.is_backpressured ≡ false
      → c.write_inflight ≡ length c.write_buf
      → length bytes ≤ length c.write_buf
      → c.params.write_high_watermark < length c.write_buf + length bytes
      → let (r, c1) = send bytes c in
        (r ≡ queued) × ((on_sent h (sent c.write_inflight) c1).write_buf ≡ [])
  unfolding overflowed
  drop_oldest_loses h bytes c e o b fl le lt =
      let d : Connection M =
        queue bytes
          (record (count_drop (hit_watermark c)) { write_buf = drop (length bytes) c.write_buf }) in
      let s : send bytes c ≡ (queued, d) =
        overflow-send bytes c e lt ∙ ap (λ k. overflowed k bytes (hit_watermark c)) o in
      rw s (
        refl,
        sent_buf h c.write_inflight d b
            ∙ drop-over c.write_inflight d.write_buf (
                omega (
                  arith,
                  fl,
                  length-append (drop (length bytes) c.write_buf) bytes,
                  length-drop (length bytes) c.write_buf,
                )),
      )
