-- ===== src/Net/Connection/Engine/Rounds.antt =====
-- The fuel of the read loop is enough.
use affini_x.Base.{
  ℕ, zero, suc, ◌+◌, ◌≤◌, ◌<◌, ◌≡◌, refl, ap, ◌∙◌, List, [], ◌∷◌, reverse, arith, length, drop,
  length-drop,
}
use affini_x.Net.Protocol.{ParseResult, message, need_more, error}
use affini_x.Net.Connection.{
  Connection, CloseReason, local_close, write_overflow, close, teardown, is_down, arm_idle_timer,
  half_close, pause_reads, check_write_watermark, queue, overflowed, apply_overflow, send,
  hit_watermark, WriteOverflow, disconnect, drop_newest, drop_oldest, stop_reading,
}
use affini_x.Net.Connection.Engine.{
  Call, sends, half_closes, closes_conn, Handlers, run_call, run_calls, dispatch_batch, parsed,
  parse_loop,
}

module _ {M : Type 0} where
  read_buf-close : (r : CloseReason) (c : Connection M) → (close r c).read_buf ≡ c.read_buf
  unfolding close teardown is_down
  read_buf-close r c = ground arith

  read_buf-half_close : (c : Connection M) → (half_close c).read_buf ≡ c.read_buf
  unfolding half_close arm_idle_timer
  read_buf-half_close c = ground arith

  read_buf-overflowed :
      (o : WriteOverflow) (bytes : List ℕ) (c : Connection M)
      → (overflowed o bytes c).1.read_buf ≡ c.read_buf
  unfolding overflowed pause_reads
  read_buf-overflowed disconnect bytes c = read_buf-close write_overflow c
  read_buf-overflowed drop_newest bytes c = refl
  read_buf-overflowed drop_oldest bytes c = refl
  read_buf-overflowed stop_reading bytes c = refl

  read_buf-check_write_watermark :
      (c : Connection M) → (check_write_watermark c).read_buf ≡ c.read_buf
  unfolding check_write_watermark pause_reads
  read_buf-check_write_watermark c = ground arith

  read_buf-send : (bytes : List ℕ) (c : Connection M) → (send bytes c).1.read_buf ≡ c.read_buf
  unfolding send apply_overflow
  read_buf-send bytes c =
      let o = read_buf-overflowed c.params.on_overflow bytes (hit_watermark c) in
      let q = read_buf-check_write_watermark (queue bytes c) in ground (arith, o, q)

  read_buf-run_call : (k : Call) (c : Connection M) → (run_call k c).read_buf ≡ c.read_buf
  unfolding run_call
  read_buf-run_call (sends bytes) c = read_buf-send bytes c
  read_buf-run_call half_closes c = read_buf-half_close c
  read_buf-run_call closes_conn c = read_buf-close local_close c

  read_buf-run_calls : (ks : List Call) (c : Connection M) → (run_calls ks c).read_buf ≡ c.read_buf
  unfolding run_calls
  read_buf-run_calls [] c = refl
  read_buf-run_calls (k ∷ ks) c = read_buf-run_calls ks (run_call k c) ∙ read_buf-run_call k c

  read_buf-dispatch_batch :
      (h : Handlers M) (batch : List M) (c : Connection M)
      → (dispatch_batch h batch c).read_buf ≡ c.read_buf
  read_buf-dispatch_batch h batch c = read_buf-run_calls (h.on_messages batch) _

  parsed_agree :
      (h : Handlers M) (rest rest' : List M → Connection M → Connection M) (batch : List M)
      (r : ParseResult M) (c : Connection M)
      → ((m : M) (k : ℕ) → r ≡ message m k → (0 < k) × (k ≤ length c.read_buf))
      → ((b : List M) (d : Connection M)
          → length d.read_buf < length c.read_buf
          → rest b d ≡ rest' b d)
      → parsed h rest batch r c ≡ parsed h rest' batch r c
  unfolding parsed
  parsed_agree h rest rest' batch (need_more n) c eats ih = refl
  parsed_agree h rest rest' batch (error e) c eats ih = refl
  parsed_agree h rest rest' batch (message m consumed) c eats ih =
      let c1 : Connection M = record c { read_buf = drop consumed c.read_buf; parse_need = 0 } in
      let c2 : Connection M = dispatch_batch h (reverse (m ∷ batch)) c1 in
      let less : length c1.read_buf < length c.read_buf =
        omega (arith, length-drop consumed c.read_buf, eats m consumed refl) in
      let less2 : length c2.read_buf < length c.read_buf =
        omega (arith, less, ap length (read_buf-dispatch_batch h (reverse (m ∷ batch)) c1)) in
      rw (ih [] c2 less2) (rw (ih (m ∷ batch) c1 less) refl)

  enough :
      (parse : List ℕ → ParseResult M) (h : Handlers M) (f f' : ℕ) (batch : List M)
      (c : Connection M)
      → ((inp : List ℕ) (m : M) (k : ℕ) → parse inp ≡ message m k → (0 < k) × (k ≤ length inp))
      → length c.read_buf < f
      → length c.read_buf < f'
      → parse_loop parse h f batch c ≡ parse_loop parse h f' batch c
  unfolding parse_loop
  enough parse h zero f' batch c eats lt lt' = absurd (omega arith)
  enough parse h (suc f) zero batch c eats lt lt' = absurd (omega arith)
  enough parse h (suc f) (suc f') batch c eats lt lt' =
      parsed_agree h (parse_loop parse h f) (parse_loop parse h f') batch (parse c.read_buf) c
        (eats c.read_buf)
        (λ b d less.
          enough parse h f f' b d eats (omega (arith, lt, less)) (omega (arith, lt', less)))

  -- Where every frame that the framer finds takes at least one byte, and none beyond the input, the
  -- read loop with more rounds than there are bytes does what it does with any greater number: it is
  -- never cut off.
  pub parse_loop_enough :
      (parse : List ℕ → ParseResult M) (h : Handlers M) (fuel more : ℕ) (batch : List M)
      (c : Connection M)
      → ((inp : List ℕ) (m : M) (k : ℕ) → parse inp ≡ message m k → (0 < k) × (k ≤ length inp))
      → length c.read_buf < fuel
      → parse_loop parse h fuel batch c ≡ parse_loop parse h (fuel + more) batch c
  parse_loop_enough parse h fuel more batch c eats lt =
      enough parse h fuel (fuel + more) batch c eats lt (omega (arith, lt))
