-- ===== src/Net/Connection/Engine/Settled.antt =====
-- A settled connection, and the calls that keep it settled.
use affini_x.Base.{
  ℕ, suc, ◌≡◌, ◌⊎◌, ◌≢◌, inl, inr, refl, sym, ap, ◌∙◌, Bool, true, false, List, [], ◌∷◌, arith,
}
use affini_x.Net.Connection.{
  Connection, ConnState, connecting, established, shutdown_write, closing, closed, Effect, closes,
  notifies, CloseReason, local_close, is_down, is_established, teardown, close, pause_reads,
  check_write_watermark, queue, overflowed, apply_overflow, send, half_close, arm_idle_timer,
  hit_watermark, WriteOverflow, disconnect, drop_newest, drop_oldest, stop_reading,
}
use affini_x.Net.Connection.Engine.{Call, sends, half_closes, closes_conn, run_call, run_calls}

abbrev pub told_times : ConnState → ℕ
told_times closed = 1
told_times s = 0

abbrev pub is_closing : ConnState → Bool
is_closing closing = true
is_closing s = false

pub established-ne : established ≢ closed
established-ne e = ground arith

pub connecting-ne : connecting ≢ closed
connecting-ne e = ground arith

pub established_or : (s : ConnState) → (s ≡ established) ⊎ (is_established s ≡ false)
unfolding is_established
established_or established = inl refl
established_or connecting = inr refl
established_or shutdown_write = inr refl
established_or closing = inr refl
established_or closed = inr refl

pub down_cases :
    (s : ConnState)
    → is_closing s ≡ false
    → ((s ≡ closed) × (is_down s ≡ true)) ⊎ ((is_down s ≡ false) × (told_times s ≡ 0))
unfolding is_down
down_cases connecting e = inr (refl, refl)
down_cases established e = inr (refl, refl)
down_cases shutdown_write e = inr (refl, refl)
down_cases closing e = absurd ground arith
down_cases closed e = inl (refl, refl)

module _ {M : Type 0} where
  -- How often the handler `on_close`, and how often the owner, was told.
  abbrev pub told_handler : List (Effect M) → ℕ
  told_handler [] = 0
  told_handler (closes r ∷ es) = suc (told_handler es)
  told_handler (e ∷ es) = told_handler es

  abbrev pub told_owner : List (Effect M) → ℕ
  told_owner [] = 0
  told_owner (notifies r ∷ es) = suc (told_owner es)
  told_owner (e ∷ es) = told_owner es

  -- Between two events a connection is not Closing, and both were told once if it is Closed, else never.
  pub record IsSettled (c : Connection M) : Type 0 where
    pub handler : told_handler c.log ≡ told_times c.state
    pub owner : told_owner c.log ≡ told_times c.state
    pub counted : c.stats.conns_closed ≡ told_times c.state
    pub settled : is_closing c.state ≡ false

  -- A change that leaves the state alone and tells nobody.
  abbrev pub Same : Connection M → Connection M → Type 0
  Same c d =
      (d.state ≡ c.state)
      × (told_handler d.log ≡ told_handler c.log)
      × (told_owner d.log ≡ told_owner c.log)
      × (d.stats.conns_closed ≡ c.stats.conns_closed)

  abbrev pub Kept : Connection M → Connection M → Type 0
  Kept c d = IsSettled d × (c.state ≡ closed → d.state ≡ closed)

  pub teardown-Kept :
      (r : CloseReason) (c : Connection M)
      → told_handler c.log ≡ 0
      → told_owner c.log ≡ 0
      → c.stats.conns_closed ≡ 0
      → IsSettled (teardown r c)
  unfolding teardown
  teardown-Kept r c a b k = record {
    handler = ground (arith, a);
    owner = ground (arith, b);
    counted = ground (arith, k);
    settled = refl;
  }

  pub close-Kept : (r : CloseReason) (c : Connection M) → IsSettled c → Kept c (close r c)
  unfolding close
  close-Kept r c w = elim (down_cases c.state w.settled) [
    | inl p ↦ rw p.1 (w, λ e. e)
    | inr p ↦ rw p.0 (
      teardown-Kept r (record c { state = closing }) (w.handler ∙ p.1) (w.owner ∙ p.1)
          (w.counted ∙ p.1),
      λ e. refl,
    )
  ]

  pub Same-Kept : (c d : Connection M) → Same c d → IsSettled c → Kept c d
  Same-Kept c d (s, h, o, n) w = (
    record {
      handler = h ∙ w.handler ∙ ap told_times (sym s);
      owner = o ∙ w.owner ∙ ap told_times (sym s);
      counted = n ∙ w.counted ∙ ap told_times (sym s);
      settled = ap is_closing s ∙ w.settled;
    },
    λ e. s ∙ e,
  )

  pub then-Kept : (c d e : Connection M) → Kept c d → (IsSettled d → Kept d e) → Kept c e
  then-Kept c d e p q = let r = q p.0 in (r.0, λ e. r.1 (p.1 e))

  pub pause_reads-Same : (c : Connection M) → Same c (pause_reads c)
  unfolding pause_reads
  pause_reads-Same c = (refl, refl, refl, refl)

  pub arm_idle_timer-Same : (c : Connection M) → Same c (arm_idle_timer c)
  unfolding arm_idle_timer
  arm_idle_timer-Same c = ground arith

  pub check_write_watermark-Same : (c : Connection M) → Same c (check_write_watermark c)
  unfolding check_write_watermark pause_reads
  check_write_watermark-Same c = ground arith

  pub overflowed-Kept :
      (o : WriteOverflow) (bytes : List ℕ) (c : Connection M)
      → IsSettled c
      → Kept c (overflowed o bytes c).1
  unfolding overflowed pause_reads
  overflowed-Kept disconnect bytes c w = close-Kept _ c w
  overflowed-Kept drop_newest bytes c w = Same-Kept c _ (refl, refl, refl, refl) w
  overflowed-Kept drop_oldest bytes c w = Same-Kept c _ (refl, refl, refl, refl) w
  overflowed-Kept stop_reading bytes c w = Same-Kept c _ (refl, refl, refl, refl) w

  pub send-Kept : (bytes : List ℕ) (c : Connection M) → IsSettled c → Kept c (send bytes c).1
  unfolding send apply_overflow
  send-Kept bytes c w =
      let over =
        overflowed-Kept c.params.on_overflow bytes (hit_watermark c)
          (Same-Kept c (hit_watermark c) (refl, refl, refl, refl) w).0 in
      let fits =
        Same-Kept c (check_write_watermark (queue bytes c))
          (check_write_watermark-Same (queue bytes c)) w in
      ground (arith, over, fits, w)

  -- A change of an open connection to an open connection that tells nobody.
  pub open-Kept :
      (c d : Connection M)
      → told_times c.state ≡ 0
      → (c.state ≢ closed)
      → told_times d.state ≡ 0
      → is_closing d.state ≡ false
      → told_handler d.log ≡ told_handler c.log
      → told_owner d.log ≡ told_owner c.log
      → d.stats.conns_closed ≡ c.stats.conns_closed
      → IsSettled c
      → Kept c d
  open-Kept c d z ne z' cl h o n w = (
    record {
      handler = h ∙ w.handler ∙ z ∙ sym z';
      owner = o ∙ w.owner ∙ z ∙ sym z';
      counted = n ∙ w.counted ∙ z ∙ sym z';
      settled = cl;
    },
    λ e. absurd (ne e),
  )

  pub half_close-Kept : (c : Connection M) → IsSettled c → Kept c (half_close c)
  unfolding half_close arm_idle_timer is_established
  half_close-Kept c w = elim (established_or c.state) [
    | inl e ↦
        let t : is_established c.state ≡ true = ap is_established e in
        let s : (half_close c).state ≡ shutdown_write = ground (arith, t) in
        open-Kept c (half_close c) (ap told_times e) (λ k. established-ne (sym e ∙ k))
          (ap told_times s) (ap is_closing s) (ground (arith, t)) (ground (arith, t))
          (ground (arith, t)) w
    | inr e ↦ rw e (w, λ k. k)
  ]

  pub run_call-Kept : (k : Call) (c : Connection M) → IsSettled c → Kept c (run_call k c)
  unfolding run_call
  run_call-Kept (sends bytes) c w = send-Kept bytes c w
  run_call-Kept half_closes c w = half_close-Kept c w
  run_call-Kept closes_conn c w = close-Kept local_close c w

  pub run_calls-Kept : (ks : List Call) (c : Connection M) → IsSettled c → Kept c (run_calls ks c)
  unfolding run_calls
  run_calls-Kept [] c w = (w, λ e. e)
  run_calls-Kept (k ∷ ks) c w =
      then-Kept c (run_call k c) _ (run_call-Kept k c w) (run_calls-Kept ks (run_call k c))
