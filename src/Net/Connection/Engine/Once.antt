-- ===== src/Net/Connection/Engine/Once.antt =====
-- A connection closes once, and stays closed.
use affini_x.Base.{
  ℕ, zero, suc, ◌+◌, ◌≡◌, refl, sym, ap, ◌∙◌, true, false, List, [], ◌∷◌, ◌++◌, reverse, ◌&&◌,
  arith, leb, ◌==◌, if◌then◌else◌, length, drop,
}
use affini_x.Net.Protocol.{ParseResult, message, need_more, error}
use affini_x.Net.Connection.{
  Connection, ConnState, connecting, established, shutdown_write, closing, closed, emit, peer_fin,
  socket_error, frame_error, connect_failed, idle_timeout, is_established, is_shutdown_write,
  arm_idle_timer, create, no_stats, Params, opens, messages, reports, writable, write_pending,
  sends_fin,
}
use affini_x.Net.Connection.Engine.{
  IoResult, connect_completes, recv_completes, send_completes, flush_runs, idle_expires, calls,
  done, try_again, cancelled, failure, SentResult, sent, send_cancelled, send_failed, Handlers,
  run_calls, arm_recv, arm_drain_recv, start, on_connect_result, flush_write, resume, sent_bytes,
  on_sent, finish_read, fail_frame, parsed, connect_in, recv_in, redrain, parse_loop, read_bytes,
  recv_open, recv_half_closed, on_recv, Event, on_event, run, dispatch_batch, batch_capacity,
}
use affini_x.Net.Connection.Engine.Settled.{
  told_times, connecting-ne, IsSettled, Same, Kept, close-Kept, Same-Kept, then-Kept,
  arm_idle_timer-Same, run_call-Kept, run_calls-Kept,
}

module _ {M : Type 0} where
  arm_recv-Same : (c : Connection M) → Same c (arm_recv c)
  unfolding arm_recv
  arm_recv-Same c = ground arith

  arm_drain_recv-Same : (c : Connection M) → Same c (arm_drain_recv c)
  unfolding arm_drain_recv
  arm_drain_recv-Same c = ground arith

  flush_write-Same : (c : Connection M) → Same c (flush_write c)
  unfolding flush_write
  flush_write-Same c = ground arith

  start-Kept :
      (h : Handlers M) (c : Connection M) → c.state ≡ connecting → IsSettled c → Kept c (start h c)
  unfolding start
  start-Kept h c e w =
      let c1 : Connection M = emit opens (record c { state = established }) in
      let z : told_times c.state ≡ 0 = ap told_times e in
      let p = run_calls-Kept h.on_open c1 (record {
        handler = w.handler ∙ z;
        owner = w.owner ∙ z;
        counted = w.counted ∙ z;
        settled = refl;
      }) in
      let c2 = run_calls h.on_open c1 in
      let q =
        then-Kept c2 (arm_idle_timer c2) _
          (Same-Kept c2 (arm_idle_timer c2) (arm_idle_timer-Same c2) p.0)
          (Same-Kept (arm_idle_timer c2) (arm_recv (arm_idle_timer c2))
            (arm_recv-Same (arm_idle_timer c2))) in
      (q.0, λ e'. absurd (connecting-ne (sym e ∙ e')))

  resume-Kept : (h : Handlers M) (c : Connection M) → IsSettled c → Kept c (resume h c)
  unfolding resume
  resume-Kept h c w =
      let c1 : Connection M = record c { is_backpressured = false } in
      let a = arm_recv-Same (record c1 { read_paused = false }) in
      let c2 : Connection M =
        if c1.read_paused then arm_recv (record c1 { read_paused = false }) else c1 in
      let s : Same c c2 = ground (arith, a) in
      let k = Same-Kept c c2 s w in
      let k' = Same-Kept c (emit writable c2) s w in
      let r =
        then-Kept c (emit writable c2) _ k' (run_calls-Kept h.on_writable (emit writable c2)) in
      elim (is_established c2.state)
        as (λ b. Kept c (if b then run_calls h.on_writable (emit writable c2) else c2)) [
          | true ↦ r
          | false ↦ k
        ]

  sent_bytes-Kept :
      (h : Handlers M) (n : ℕ) (c : Connection M) → IsSettled c → Kept c (sent_bytes h n c)
  unfolding sent_bytes
  sent_bytes-Kept h n c w =
      let c1 : Connection M = record c {
        write_inflight = 0;
        write_buf = drop n c.write_buf;
        stats = record c.stats { bytes_out = c.stats.bytes_out + n };
      } in
      let c2 : Connection M =
        if is_shutdown_write c1.state && (length c1.write_buf == 0) && c1.has_fd
        then emit sends_fin c1
        else c1 in
      let s : Same c c2 = ground arith in
      let k2 = Same-Kept c c2 s w in
      let c3 : Connection M =
        if c2.is_backpressured && leb (length c2.write_buf) c2.params.write_low_watermark
        then resume h c2
        else c2 in
      let k3 : Kept c c3 = then-Kept c c2 c3 k2 (λ w2.
        elim (c2.is_backpressured && leb (length c2.write_buf) c2.params.write_low_watermark)
          as (λ b. Kept c2 (if b then resume h c2 else c2)) [
            | true ↦ resume-Kept h c2 w2
            | false ↦ (w2, λ e. e)
          ]) in
      then-Kept c c3 _ k3 (λ w3.
        elim (length c3.write_buf == 0)
          as (λ b. Kept c3 (if b then c3 else emit write_pending c3)) [
            | true ↦ (w3, λ e. e)
            | false ↦ Same-Kept c3 (emit write_pending c3) (refl, refl, refl, refl) w3
          ])

  on_sent-Kept :
      (h : Handlers M) (r : SentResult) (c : Connection M) → IsSettled c → Kept c (on_sent h r c)
  unfolding on_sent
  on_sent-Kept h send_failed c w =
      let c1 : Connection M = record c { write_inflight = 0 } in
      then-Kept c c1 _ (Same-Kept c c1 (refl, refl, refl, refl) w) (close-Kept socket_error c1)
  on_sent-Kept h send_cancelled c w = Same-Kept c _ (refl, refl, refl, refl) w
  on_sent-Kept h (sent n) c w = sent_bytes-Kept h n c w

  dispatch_batch-Kept :
      (h : Handlers M) (batch : List M) (c : Connection M)
      → IsSettled c
      → Kept c (dispatch_batch h batch c)
  dispatch_batch-Kept h batch c w =
      let c1 : Connection M =
        emit (messages batch)
          (record c { stats = record c.stats { msgs_in = c.stats.msgs_in + 1 } }) in
      then-Kept c c1 _ (Same-Kept c c1 (refl, refl, refl, refl) w)
        (run_calls-Kept (h.on_messages batch) c1)

  finish_read-Kept :
      (h : Handlers M) (batch : List M) (c : Connection M)
      → IsSettled c
      → Kept c (finish_read h batch c)
  unfolding finish_read
  finish_read-Kept h batch c w =
      let c1 : Connection M = if length batch == 0 then c else dispatch_batch h (reverse batch) c in
      let k1 : Kept c c1 =
        elim (length batch == 0)
          as (λ b. Kept c (if b then c else dispatch_batch h (reverse batch) c)) [
            | true ↦ (w, λ e. e)
            | false ↦ dispatch_batch-Kept h (reverse batch) c w
          ] in
      let a = arm_recv-Same c1 in
      let b = arm_drain_recv-Same c1 in then-Kept c c1 _ k1 (Same-Kept c1 _ (ground (arith, a, b)))

  fail_frame-Kept :
      (h : Handlers M) (e : ℕ) (c : Connection M) → IsSettled c → Kept c (fail_frame h e c)
  unfolding fail_frame
  fail_frame-Kept h e c w =
      let c1 : Connection M =
        emit (reports e)
          (record c { stats = record c.stats { frame_errors = c.stats.frame_errors + 1 } }) in
      let c2 = run_calls h.on_error c1 in
      then-Kept c c2 _
        (then-Kept c c1 c2 (Same-Kept c c1 (refl, refl, refl, refl) w)
          (run_calls-Kept h.on_error c1))
        (close-Kept frame_error c2)

  parsed-Kept :
      (h : Handlers M) (rest : List M → Connection M → Connection M) (batch : List M)
      (r : ParseResult M) (c : Connection M)
      → ((batch' : List M) (d : Connection M) → IsSettled d → Kept d (rest batch' d))
      → IsSettled c
      → Kept c (parsed h rest batch r c)
  unfolding parsed
  parsed-Kept h rest batch (need_more n) c ih w =
      let c1 : Connection M = record c { parse_need = n } in
      then-Kept c c1 _ (Same-Kept c c1 (refl, refl, refl, refl) w) (finish_read-Kept h batch c1)
  parsed-Kept h rest batch (error e) c ih w = fail_frame-Kept h e c w
  parsed-Kept h rest batch (message m consumed) c ih w =
      let c1 : Connection M = record c { read_buf = drop consumed c.read_buf; parse_need = 0 } in
      let k1 = Same-Kept c c1 (refl, refl, refl, refl) w in
      let c2 : Connection M = dispatch_batch h (reverse (m ∷ batch)) c1 in
      let k2 = then-Kept c c1 c2 k1 (dispatch_batch-Kept h (reverse (m ∷ batch)) c1) in
      elim (length (m ∷ batch) == batch_capacity)
        as (λ b. Kept c (
          if b
          then (if is_established c2.state then rest [] c2 else c2)
          else rest (m ∷ batch) c1)) [
            | true ↦
                elim (is_established c2.state) as (λ b. Kept c (if b then rest [] c2 else c2)) [
                  | true ↦ then-Kept c c2 (rest [] c2) k2 (ih [] c2)
                  | false ↦ k2
                ]
            | false ↦ then-Kept c c1 (rest (m ∷ batch) c1) k1 (ih (m ∷ batch) c1)
          ]

  parse_loop-Kept :
      (parse : List ℕ → ParseResult M) (h : Handlers M) (fuel : ℕ) (batch : List M)
      (c : Connection M)
      → IsSettled c
      → Kept c (parse_loop parse h fuel batch c)
  unfolding parse_loop
  parse_loop-Kept parse h zero batch c w = (w, λ e. e)
  parse_loop-Kept parse h (suc fuel) batch c w =
      parsed-Kept h (parse_loop parse h fuel) batch (parse c.read_buf) c
        (parse_loop-Kept parse h fuel) w

  recv_open-Kept :
      (parse : List ℕ → ParseResult M) (h : Handlers M) (r : IoResult) (c : Connection M)
      → IsSettled c
      → Kept c (recv_open parse h r c)
  unfolding recv_open read_bytes
  recv_open-Kept parse h try_again c w = Same-Kept c _ (arm_recv-Same c) w
  recv_open-Kept parse h cancelled c w = Same-Kept c _ (arm_recv-Same c) w
  recv_open-Kept parse h failure c w = close-Kept socket_error c w
  recv_open-Kept parse h (done []) c w = close-Kept peer_fin c w
  recv_open-Kept parse h (done (b ∷ bs)) c w =
      let c1 : Connection M = record c {
        read_buf = c.read_buf ++ b ∷ bs;
        stats = record c.stats { bytes_in = c.stats.bytes_in + length (b ∷ bs) };
      } in
      let c2 : Connection M = arm_idle_timer c1 in
      then-Kept c c2 _ (Same-Kept c c2 (arm_idle_timer-Same c1) w)
        (parse_loop-Kept parse h (length c2.read_buf + 1) [] c2)

  redrain-Kept : (c : Connection M) → IsSettled c → Kept c (redrain c)
  redrain-Kept c w =
      let c1 = arm_idle_timer c in
      then-Kept c c1 _ (Same-Kept c c1 (arm_idle_timer-Same c) w)
        (Same-Kept c1 _ (arm_drain_recv-Same c1))

  recv_half_closed-Kept :
      (r : IoResult) (c : Connection M) → IsSettled c → Kept c (recv_half_closed r c)
  unfolding recv_half_closed
  recv_half_closed-Kept (done []) c w = close-Kept peer_fin c w
  recv_half_closed-Kept failure c w = close-Kept socket_error c w
  recv_half_closed-Kept try_again c w = redrain-Kept c w
  recv_half_closed-Kept cancelled c w = redrain-Kept c w
  recv_half_closed-Kept (done (b ∷ bs)) c w = redrain-Kept c w

  recv_in-Kept :
      (parse : List ℕ → ParseResult M) (h : Handlers M) (s : ConnState) (r : IoResult)
      (c : Connection M)
      → IsSettled c
      → Kept c (recv_in parse h s r c)
  unfolding recv_in
  recv_in-Kept parse h established r c w = recv_open-Kept parse h r c w
  recv_in-Kept parse h shutdown_write r c w = recv_half_closed-Kept r c w
  recv_in-Kept parse h connecting r c w = (w, λ e. e)
  recv_in-Kept parse h closing r c w = (w, λ e. e)
  recv_in-Kept parse h closed r c w = (w, λ e. e)

  connect_in-Kept :
      (h : Handlers M) (s : ConnState) (r : SentResult) (c : Connection M)
      → c.state ≡ s
      → IsSettled c
      → Kept c (connect_in h s r c)
  unfolding connect_in
  connect_in-Kept h connecting (sent n) c e w = start-Kept h c e w
  connect_in-Kept h connecting send_cancelled c e w = (w, λ k. k)
  connect_in-Kept h connecting send_failed c e w = close-Kept connect_failed c w
  connect_in-Kept h established r c e w = (w, λ k. k)
  connect_in-Kept h shutdown_write r c e w = (w, λ k. k)
  connect_in-Kept h closing r c e w = (w, λ k. k)
  connect_in-Kept h closed r c e w = (w, λ k. k)

  on_event-Kept :
      (parse : List ℕ → ParseResult M) (h : Handlers M) (e : Event) (c : Connection M)
      → IsSettled c
      → Kept c (on_event parse h e c)
  unfolding on_event on_connect_result on_recv
  on_event-Kept parse h (connect_completes r) c w = connect_in-Kept h c.state r c refl w
  on_event-Kept parse h (recv_completes r) c w = recv_in-Kept parse h c.state r c w
  on_event-Kept parse h (send_completes r) c w = on_sent-Kept h r c w
  on_event-Kept parse h flush_runs c w = Same-Kept c _ (flush_write-Same c) w
  on_event-Kept parse h idle_expires c w = close-Kept idle_timeout c w
  on_event-Kept parse h (calls k) c w = run_call-Kept k c w

  run-Kept :
      (parse : List ℕ → ParseResult M) (h : Handlers M) (es : List Event) (c : Connection M)
      → IsSettled c
      → Kept c (run parse h es c)
  unfolding run
  run-Kept parse h [] c w = (w, λ e. e)
  run-Kept parse h (e ∷ es) c w =
      then-Kept c (on_event parse h e c) _ (on_event-Kept parse h e c w)
        (run-Kept parse h es (on_event parse h e c))

  -- A settled connection that is Closed is Closed after any events.
  pub closed_is_final :
      (parse : List ℕ → ParseResult M) (h : Handlers M) (es : List Event) (c : Connection M)
      → IsSettled c
      → c.state ≡ closed
      → (run parse h es c).state ≡ closed
  closed_is_final parse h es c w e = (run-Kept parse h es c w).1 e

  pub create-IsSettled : (params : Params) → IsSettled {M = M} (create params)
  unfolding create no_stats
  create-IsSettled params = record { handler = refl; owner = refl; counted = refl; settled = refl }
