-- ===== src/Net/Connection/Engine/Fifo.antt =====
-- The bytes that the sends took, and those on the wire.
use affini_x.Base.{
  ℕ, ◌+◌, ◌≤◌, min, ◌≡◌, ◌≢◌, refl, Bool, true, false, not, List, [], ◌∷◌, ◌++◌, arith, ltb, ◌==◌,
  if◌then◌else◌, length, take,
}
use affini_x.Net.Connection.{
  Connection, CloseReason, close, teardown, is_down, write_overflow, is_established, pause_reads,
  check_write_watermark, SendResult, queued, backpressured, not_open, queue, overflowed,
  apply_overflow, send, hit_watermark, WriteOverflow, disconnect, drop_newest, drop_oldest,
  stop_reading,
}
use affini_x.Net.Connection.Engine.{sent, Handlers, flush_write, on_sent}

pub taken : SendResult → Bool
taken queued = true
taken backpressured = true
taken r = false

-- `flush_write` hands out a view of the write queue. The epoll, kqueue and sim backends send or copy its
-- bytes at once; the io_uring backend keeps the address, from which the kernel copies later.
pub data Buffering : Type 0 where
  copies : Buffering
  points : Buffering

-- The bytes that go out, from those at the submission and those that stand at their address later.
pub gone_out : Buffering → List ℕ → List ℕ → List ℕ
gone_out copies given later = given
gone_out points given later = later

-- A connection, the bytes that the backend was given last, those that it has put on the wire, and those
-- that sends have taken.
pub record Wire (M : Type 0) : Type 0 where
  pub conn : Connection M
  pub flight : List ℕ
  pub wire : List ℕ
  pub accepted : List ℕ

-- A completion comes with what stands at the address by then.
pub data Step : Type 0 where
  sending : List ℕ → Step
  flushing : Step
  completing : ℕ → List ℕ → Step

module _ {M : Type 0} where
  -- The backend reports at most what it was given.
  pub advance : Buffering → Handlers M → Step → Wire M → Wire M
  unfolding taken gone_out
  advance b h (sending bytes) w =
      let (r, c) = send bytes w.conn in
      record w { conn = c; accepted = if taken r then w.accepted ++ bytes else w.accepted }
  advance b h flushing w =
      let c = flush_write w.conn in
      record w {
        conn = c;
        flight = if w.conn.write_inflight == 0 then take c.write_inflight c.write_buf else w.flight;
      }
  advance b h (completing n later) w =
      let k = min n (length w.flight) in
      record {
        conn = on_sent h (sent k) w.conn;
        flight = [];
        wire = w.wire ++ take k (gone_out b w.flight later);
        accepted = w.accepted;
      }

  unfoldable pub advance_all : Buffering → Handlers M → List Step → Wire M → Wire M
  unfolding advance
  advance_all b h [] w = w
  advance_all b h (s ∷ ss) w = advance_all b h ss (advance b h s w)

  pub record IsWire (w : Wire M) : Type 0 where
    pub policy : w.conn.params.on_overflow ≢ drop_oldest
    pub within : w.conn.write_inflight ≤ length w.conn.write_buf
    pub prefix : w.flight ≡ take w.conn.write_inflight w.conn.write_buf
    pub all_there : w.wire ++ w.conn.write_buf ≡ w.accepted

  abbrev Sent : List ℕ → Connection M → SendResult × Connection M → Type 0
  Sent bytes c (r, d) =
      (d.write_buf ≡ (if taken r then c.write_buf ++ bytes else c.write_buf))
      × (d.write_inflight ≡ c.write_inflight)
      × (d.params ≡ c.params)

  close-Sent :
      (r : CloseReason) (c : Connection M) (bytes : List ℕ) → Sent bytes c (not_open, close r c)
  unfolding close teardown taken is_down
  close-Sent r c bytes = ground arith

  overflowed-Sent :
      (o : WriteOverflow) (bytes : List ℕ) (c : Connection M)
      → o ≢ drop_oldest
      → Sent bytes c (overflowed o bytes c)
  unfolding overflowed pause_reads taken
  overflowed-Sent disconnect bytes c ne = close-Sent write_overflow c bytes
  overflowed-Sent drop_newest bytes c ne = (refl, refl, refl)
  overflowed-Sent drop_oldest bytes c ne = absurd (ne refl)
  overflowed-Sent stop_reading bytes c ne = (refl, refl, refl)

  -- The answer of `send` tells whether the bytes were queued, at the back, whatever the policy but
  -- DropOldest and whatever the state.
  pub send_lem :
      (bytes : List ℕ) (c : Connection M)
      → c.params.on_overflow ≢ drop_oldest
      → let (r, d) = send bytes c in
        (d.write_buf ≡ (if taken r then c.write_buf ++ bytes else c.write_buf))
        × (d.write_inflight ≡ c.write_inflight)
        × (d.params ≡ c.params)
  unfolding send apply_overflow check_write_watermark pause_reads taken
  send_lem bytes c ne =
      let o = overflowed-Sent c.params.on_overflow bytes (hit_watermark c) ne in
      let q : Sent bytes c (queued, check_write_watermark (queue bytes c)) = ground arith in
      elim (is_established c.state)
        as (λ b. Sent bytes c (
          if not b
          then (not_open, c)
          else if ltb c.params.write_high_watermark (length c.write_buf + length bytes)
          then apply_overflow bytes c
          else (queued, check_write_watermark (queue bytes c)))) [
            | false ↦ (refl, refl, refl)
            | true ↦
                elim (ltb c.params.write_high_watermark (length c.write_buf + length bytes))
                  as (λ b. Sent bytes c (
                    if b
                    then apply_overflow bytes c
                    else (queued, check_write_watermark (queue bytes c)))) [ true ↦ o | false ↦ q ]
          ]

  abbrev Drained : List ℕ → Connection M → Connection M → Type 0
  Drained buf c d = (d.write_buf ≡ buf) × (d.params ≡ c.params) × (d.write_inflight ≡ 0)
