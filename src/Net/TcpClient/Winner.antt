-- ===== src/Net/TcpClient/Winner.antt =====
-- What follows when an attempt wins while others are in flight.
use mathlib.Core.Bool.{true≢false}
use affini_x.Base.{
  or_false, or_true, contains, erase, ℕ, ◌+◌, ◌==◌, ◌≡◌, ◌≢◌, refl, sym, ap, subst, ◌∙◌, Bool, true,
  false, ◌||◌, if◌then◌else◌, if_cases, Option, none, some, List, [], ◌∷◌, ◌++◌, update,
  update_self, update_ne, arith,
}
use affini_x.Net.Connection.{CloseReason, local_close}
use affini_x.Net.TcpClient.{
  disconnected, connected, reconnect_wait, Opened, waits, established, Timer, reconnects, next, arm,
  Client, emit, is_state, set_state, is_conn, is_gone, reset, teardown, close, on_connected,
  on_open,
}
use affini_x.Net.TcpClient.Attempts.{schedule_reconnect, he_attempt_done}
use affini_x.Net.TcpClient.Events.{
  is_waiting, close_losers, cancel_he, promote, he_win, on_connect_result, after_gone, on_conn_gone,
  completes, notifies, notify, act, run,
}
use affini_x.Net.TcpClient.Closing.{
  set_state_lem, SameBut, set_state-SameBut, teardown-Closed, close-Keeps, close_losers-Keeps,
  close_losers-phases,
}

-- An attempt has won, and the end of the loser `l` is the oldest deferred call.
record Won (w l : ℕ) (c : Client) : Type 0 where
  conn_is : c.conn ≡ some w
  none_pending : c.pending ≡ []
  is_closing : contains l c.closing ≡ true
  repeats : c.auto_reconnect ≡ true
  phase_is : c.phases w ≡ established
  others : List (ℕ × CloseReason)
  first_deferred : c.deferred ≡ (l, local_close) ∷ others

-- The client waits to connect anew, and its connection is as it was.
pub record Reconnects (w : ℕ) (c : Client) : Type 0 where
  pub still_conn : c.conn ≡ some w
  pub still_open : c.phases w ≡ established
  pub waits_anew : c.state ≡ reconnect_wait
  pub delay : ℕ
  pub before : List Timer
  pub timer_armed : c.timers ≡ before ++ reconnects delay ∷ []

module _ (answers : ℕ → Opened) (vary : ℕ → ℕ → ℕ) where
  schedule-Reconnects :
      (w : ℕ) (c : Client)
      → c.auto_reconnect ≡ true
      → c.conn ≡ some w
      → c.phases w ≡ established
      → Reconnects w (schedule_reconnect answers vary c)
  unfolding schedule_reconnect
  schedule-Reconnects w c a h p =
      let c1 = set_state reconnect_wait c in
      let n = next c1.backoff in
      let s = set_state-SameBut reconnect_wait c in
      if_cases (Reconnects w) c.auto_reconnect
        (arm (reconnects (vary c1.delays n.0))
          (record c1 { backoff = n.1; delays = c1.delays + 1 }))
        c
        (λ e. record {
          still_conn = s.0 ∙ h;
          still_open = ap (λ f. f w) s.4 ∙ p;
          waits_anew = set_state_lem reconnect_wait c;
          delay = vary c1.delays n.0;
          before = c1.timers;
          timer_armed = refl;
        })
        (λ e. absurd (true≢false (sym a ∙ e)))

  after-Reconnects :
      (w : ℕ) (c : Client)
      → c.state ≡ connected
      → c.auto_reconnect ≡ true
      → c.conn ≡ some w
      → c.phases w ≡ established
      → Reconnects w (after_gone answers vary local_close c)
  unfolding after_gone
  after-Reconnects w c s a h p =
      if_cases (Reconnects w) (is_state c.state disconnected) c (schedule_reconnect answers vary c)
        (λ e. absurd (true≢false (sym e ∙ ap (λ x. is_state x disconnected) s)))
        (λ e. schedule-Reconnects w c a h p)

  -- The deferred call for the loser.
  gone-Reconnects :
      (w l : ℕ) (c : Client)
      → (l == w) ≡ false
      → c.conn ≡ some w
      → c.pending ≡ []
      → contains l c.closing ≡ true
      → c.state ≡ connected
      → c.auto_reconnect ≡ true
      → c.phases w ≡ established
      → Reconnects w (on_conn_gone answers vary l local_close c)
  unfolding on_conn_gone
  gone-Reconnects w l c d h n m s a p =
      let Q = Reconnects w in
      let last = record c { closing = erase l c.closing } in
      let lost = after_gone answers vary local_close last in
      let ended = after_gone answers vary local_close (record c { conn = none }) in
      let tried =
        after_gone answers vary local_close
          (he_attempt_done answers vary (record c { pending = erase l c.pending })) in
      if_cases Q (is_conn l c.conn) ended
        (if contains l c.pending then tried else if contains l c.closing then lost else c)
        (λ e. absurd (true≢false (sym e ∙ ap (is_conn l) h ∙ d)))
        (λ e.
          if_cases Q (contains l c.pending) tried (if contains l c.closing then lost else c)
            (λ e'. absurd (true≢false (sym e' ∙ ap (contains l) n)))
            (λ e'.
              if_cases Q (contains l c.closing) lost c (λ f. after-Reconnects w last s a h p)
                (λ f. absurd (true≢false (sym m ∙ f)))))

  notify-Reconnects :
      (w l : ℕ) (c : Client)
      → (l == w) ≡ false
      → c.state ≡ connected
      → Won w l c
      → Reconnects w (notify answers vary c.deferred c)
  unfolding notify
  notify-Reconnects w l c d s h =
      subst (λ ds. Reconnects w (notify answers vary ds c)) (sym h.first_deferred)
        (gone-Reconnects w l (record c { deferred = h.others }) d h.conn_is h.none_pending
          h.is_closing s h.repeats h.phase_is)

contains-append : (l : ℕ) (xs ys : List ℕ) → contains l ys ≡ true → contains l (xs ++ ys) ≡ true
contains-append l [] ys h = h
contains-append l (x ∷ xs) ys h =
    ap (λ b. (l == x) || b) (contains-append l xs ys h) ∙ or_true (l == x)

or_map : (b x y : Bool) → (x ≡ true → y ≡ true) → (b || x) ≡ true → (b || y) ≡ true
or_map true x y f h = refl
or_map false x y f h = f h

contains-append_left :
    (l : ℕ) (xs ys : List ℕ) → contains l xs ≡ true → contains l (xs ++ ys) ≡ true
contains-append_left l [] ys h = absurd (true≢false (sym h))
contains-append_left l (x ∷ xs) ys h =
    or_map (l == x) (contains l xs) (contains l (xs ++ ys)) (contains-append_left l xs ys) h

contains_self : (l : ℕ) → contains l (l ∷ []) ≡ true
contains_self l = ground arith

cancel_he-SameBut : (g : Option ℕ) (c : Client) → SameBut c (cancel_he g c)
cancel_he-SameBut none c = (refl, refl, refl, refl, refl, refl)
cancel_he-SameBut (some g) c = (refl, refl, refl, refl, refl, refl)

Won-SameBut : (w l : ℕ) (c c' : Client) → SameBut c c' → Won w l c → Won w l c'
Won-SameBut w l c c' s h = record {
  conn_is = s.0 ∙ h.conn_is;
  none_pending = s.1 ∙ h.none_pending;
  is_closing = ap (contains l) s.2 ∙ h.is_closing;
  repeats = s.5 ∙ h.repeats;
  phase_is = ap (λ f. f w) s.4 ∙ h.phase_is;
  others = h.others;
  first_deferred = s.3 ∙ h.first_deferred;
}

close_losers-Won :
    (w l : ℕ) (ls : List ℕ) (c : Client)
    → contains w (l ∷ ls) ≡ false
    → is_gone (c.phases l) ≡ false
    → c.conn ≡ some w
    → c.pending ≡ []
    → c.phases w ≡ established
    → c.deferred ≡ []
    → c.auto_reconnect ≡ true
    → Won w l (close_losers (l ∷ ls) c)
unfolding close
close_losers-Won w l ls c a g m n p d r =
    let c1 = record c { closing = c.closing ++ l ∷ [] } in
    let c2 = close l local_close c1 in
    let k1 = close-Keeps l local_close c1 in
    let k2 = close_losers-Keeps ls c2 in
    let t = teardown-Closed l local_close c1 in
    let torn = ap (λ b. if b then c1 else teardown l local_close c1) g ∙ t.state_after in
    record {
      conn_is = k2.conn_same ∙ k1.conn_same ∙ m;
      none_pending = k2.pending_same ∙ k1.pending_same ∙ n;
      is_closing =
          ap (contains l) (k2.closing_same ∙ ap (λ js. js ++ k2.closing_more) k1.closing_same)
          ∙ contains-append_left l ((c.closing ++ l ∷ []) ++ k1.closing_more) k2.closing_more (
              contains-append_left l (c.closing ++ l ∷ []) k1.closing_more
                (contains-append l c.closing (l ∷ []) (contains_self l)));
      repeats = k2.auto_same ∙ k1.auto_same ∙ r;
      phase_is = close_losers-phases w (l ∷ ls) c a ∙ p;
      others = k2.more;
      first_deferred =
          k2.deferred_more
          ∙ ap (λ (x : Client). x.deferred ++ k2.more) torn
          ∙ ap (λ ds. (ds ++ (l, local_close) ∷ []) ++ k2.more) d;
    }

promote-Won :
    (w l : ℕ) (ls : List ℕ) (c : Client)
    → erase w c.pending ≡ l ∷ ls
    → contains w (l ∷ ls) ≡ false
    → c.phases w ≡ established
    → is_gone (c.phases l) ≡ false
    → c.deferred ≡ []
    → c.auto_reconnect ≡ true
    → Won w l (promote w c) × ((promote w c).state ≡ connected)
unfolding promote on_connected
promote-Won w l ls c e a p g d r =
    let c1 = record c { he_won = true; conn = some w; pending = [] } in
    let c2 = close_losers (erase w c.pending) c1 in
    let c3 = cancel_he c2.he_group c2 in
    let c4 = record c3 { backoff = reset c3.backoff } in
    let won =
      subst (λ js. Won w l (close_losers js c1)) (sym e)
        (close_losers-Won w l ls c1 a g refl refl p d r) in
    let won3 = Won-SameBut w l c2 c3 (cancel_he-SameBut c2.he_group c2) won in
    (Won-SameBut w l c3 _ (set_state-SameBut connected c4) won3, set_state_lem connected c4)

-- Where several attempts are in flight, auto_reconnect is on and nothing is deferred: once the connect of one
-- attempt succeeds and the deferred call for the first attempt that it beat has run, the client waits to
-- reconnect, with a timer armed that begins to connect anew, while the connection that won is the client's
-- and is established.
pub promote-Reconnects :
    (answers : ℕ → Opened) (vary : ℕ → ℕ → ℕ) (c : Client) (w l : ℕ) (ls : List ℕ)
    → c.he_won ≡ false
    → contains w c.pending ≡ true
    → erase w c.pending ≡ l ∷ ls
    → contains w (l ∷ ls) ≡ false
    → c.phases w ≡ waits
    → c.phases l ≡ waits
    → c.is_attempt w ≡ true
    → c.deferred ≡ []
    → c.auto_reconnect ≡ true
    → Reconnects w (run answers vary (completes w false ∷ notifies ∷ []) c)
unfolding run act on_connect_result he_win
promote-Reconnects answers vary c w l ls n h e a p q i f r =
    let c1 = record c { phases = update c.phases w established } in
    let apart : (w == l) ≡ false = (or_false (w == l) (contains w ls) a).0 in
    let opened : Client = emit (on_open w) (on_connected c1) in
    let won : Client = if c1.is_attempt w then he_win w c1 else opened in
    let lost : Client = if contains w c.pending then close w local_close c1 else c1 in
    let at : on_connect_result w false c ≡ promote w c1 =
      ap (λ ph. if is_waiting ph then won else c) p
      ∙ ap (λ b. if b then he_win w c1 else opened) i
      ∙ ap (λ b. if b then lost else if contains w c.pending then promote w c1 else c1) n
      ∙ ap (λ b. if b then promote w c1 else c1) h in
    let same : is_gone (c1.phases l) ≡ false =
      ap is_gone (update_ne c.phases w l established (differ w l apart) ∙ q) in
    let k = promote-Won w l ls c1 e a (update_self c.phases w established) same f r in
    subst (λ (x : Client). Reconnects w (notify answers vary x.deferred x)) (sym at)
      (notify-Reconnects answers vary w l (promote w c1) (flip w l apart) k.1 k.0)
  where
    differ : (x y : ℕ) → (x == y) ≡ false → x ≢ y
    differ x y h k = ground arith

    flip : (x y : ℕ) → (x == y) ≡ false → (y == x) ≡ false
    flip x y h = ground arith
