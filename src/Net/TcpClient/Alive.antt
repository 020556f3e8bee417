-- ===== src/Net/TcpClient/Alive.antt =====
-- A client that tries one address after the other never comes to rest.
use affini_x.Base.{
  or_true, or_left, ℕ, ◌+◌, ◌≡◌, refl, sym, ap, subst, ◌∙◌, Bool, true, false, ◌&&◌, ◌||◌, if_cases,
  Option, none, some, List, [], ◌∷◌, ◌++◌, drop, ltb, length,
}
use mathlib.Core.Bool.{true≢false}
use affini_x.Net.Connection.{CloseReason, local_close, connect_failed}
use affini_x.Net.TcpClient.{
  next, ClientState, disconnected, connecting, reconnect_wait, SockAddr, Opened, no_socket,
  no_memory, opened, changes_state, submits_connect, Timer, reconnects, connect_deadline,
  he_deadline, staggers, Client, arm, emit, is_state, set_state, is_gone, teardown, close,
  construct, drop_conn,
}
use affini_x.Net.TcpClient.Attempts.{
  schedule_reconnect, gives_up, connect_to, connect_from, connect_next, he_begin, begin_connect,
}
use affini_x.Net.TcpClient.Closing.{set_state_lem, teardown-Closed}
use affini_x.Net.TcpClient.Events.{close_losers, close_each, is_some}

abbrev pub any_reconnect : List Timer → Bool
any_reconnect [] = false
any_reconnect (reconnects d ∷ ts) = true
any_reconnect (connect_deadline i ∷ ts) = any_reconnect ts
any_reconnect (he_deadline g ∷ ts) = any_reconnect ts
any_reconnect (staggers g ∷ ts) = any_reconnect ts

-- There is a connection whose end the client will be told, a lookup whose answer it will be given, or a timer
-- that begins to connect anew.
abbrev pub is_alive : Client → Bool
is_alive c = is_some c.conn || c.resolving || any_reconnect c.timers

abbrev pub Retries : Client → Type 0
Retries c = (c.auto_reconnect ≡ true) × (c.happy_eyeballs ≡ false)

pub record Living (c : Client) : Type 0 where
  pub retries : Retries c
  pub awake : is_state c.state disconnected ≡ false
  pub alive : is_alive c ≡ true

pub any-append :
    (ts us : List Timer) → any_reconnect (ts ++ us) ≡ (any_reconnect ts || any_reconnect us)
any-append [] us = refl
any-append (reconnects d ∷ ts) us = refl
any-append (connect_deadline i ∷ ts) us = any-append ts us
any-append (he_deadline g ∷ ts) us = any-append ts us
any-append (staggers g ∷ ts) us = any-append ts us

pub or_mono :
    (a b c d : Bool)
    → (a ≡ true → b ≡ true)
    → (c ≡ true → d ≡ true)
    → (a || c) ≡ true
    → (b || d) ≡ true
or_mono true b c d f g h = or_left b d (f refl)
or_mono false b c d f g h = ap (λ x. b || x) (g h) ∙ or_true b

pub id_true : (a : Bool) → a ≡ true → a ≡ true
id_true a h = h

-- What is alive stays so where timers are only added or lost that do not reconnect.
pub alive_mono :
    (o : Option ℕ) (r : Bool) (ts us : List Timer)
    → (any_reconnect ts ≡ true → any_reconnect us ≡ true)
    → (is_some o || r || any_reconnect ts) ≡ true
    → (is_some o || r || any_reconnect us) ≡ true
alive_mono o r ts us f =
    or_mono (is_some o || r) (is_some o || r) (any_reconnect ts) (any_reconnect us)
      (id_true (is_some o || r)) f

pub any-more : (ts us : List Timer) → any_reconnect ts ≡ true → any_reconnect (ts ++ us) ≡ true
any-more ts us h = any-append ts us ∙ or_left (any_reconnect ts) (any_reconnect us) h

pub Living-arm : (t : Timer) (c : Client) → Living c → Living (arm t c)
Living-arm t c h = record {
  retries = h.retries;
  awake = h.awake;
  alive =
      alive_mono c.conn c.resolving c.timers (c.timers ++ t ∷ []) (any-more c.timers (t ∷ []))
        h.alive;
}

pub set_state-Retries : (s : ClientState) (c : Client) → Retries c → Retries (set_state s c)
unfolding set_state
set_state-Retries s c h =
    if_cases Retries (is_state c.state s) c (emit (changes_state s) (record c { state = s }))
      (λ e. h) (λ e. h)

pub set_state-awake :
    (s : ClientState) (c : Client)
    → is_state s disconnected ≡ false
    → is_state (set_state s c).state disconnected ≡ false
set_state-awake s c h = ap (λ x. is_state x disconnected) (set_state_lem s c) ∙ h

pub set_state-Living :
    (s : ClientState) (c : Client)
    → is_state s disconnected ≡ false
    → Retries c
    → is_alive c ≡ true
    → Living (set_state s c)
unfolding set_state
set_state-Living s c n h a = record {
  retries = set_state-Retries s c h;
  awake = set_state-awake s c n;
  alive =
      if_cases (λ x. is_alive x ≡ true) (is_state c.state s) c
        (emit (changes_state s) (record c { state = s })) (λ e. a) (λ e. a);
}

pub close-Retries : (i : ℕ) (r : CloseReason) (c : Client) → Retries c → Retries (close i r c)
unfolding close
close-Retries i r c h =
    if_cases Retries (is_gone (c.phases i)) c (teardown i r c) (λ e. h)
      (λ e. subst Retries (sym (teardown-Closed i r c).state_after) h)

pub close-Living : (i : ℕ) (r : CloseReason) (c : Client) → Living c → Living (close i r c)
unfolding close
close-Living i r c h =
    if_cases Living (is_gone (c.phases i)) c (teardown i r c) (λ e. h)
      (λ e.
        subst Living (sym (teardown-Closed i r c).state_after)
          (record { retries = h.retries; awake = h.awake; alive = h.alive }))

pub drop_conn-Retries : (o : Option ℕ) (c : Client) → Retries c → Retries (drop_conn o c)
unfolding drop_conn
drop_conn-Retries none c h = h
drop_conn-Retries (some i) c h = close-Retries i local_close c h

pub close_losers-Living : (ls : List ℕ) (c : Client) → Living c → Living (close_losers ls c)
close_losers-Living [] c h = h
close_losers-Living (l ∷ ls) c h =
    let c1 = record c { closing = c.closing ++ l ∷ [] } in
    close_losers-Living ls (close l local_close c1) (
      close-Living l local_close c1
        (record { retries = h.retries; awake = h.awake; alive = h.alive }))

pub close_each-Living : (is : List ℕ) (c : Client) → Living c → Living (close_each is c)
close_each-Living [] c h = h
close_each-Living (i ∷ is) c h =
    close_each-Living is (close i connect_failed c) (close-Living i connect_failed c h)

module _ (answers : ℕ → Opened) (vary : ℕ → ℕ → ℕ) where
  -- Whatever the client was like before.
  pub schedule-Living : (c : Client) → Retries c → Living (schedule_reconnect answers vary c)
  unfolding schedule_reconnect
  schedule-Living c h =
      let c1 = set_state reconnect_wait c in
      let n = next c1.backoff in
      let t = reconnects (vary c1.delays n.0) in
      if_cases Living c.auto_reconnect (arm t (record c1 { backoff = n.1; delays = c1.delays + 1 }))
        c
        (λ e. record {
          retries = set_state-Retries reconnect_wait c h;
          awake = set_state-awake reconnect_wait c refl;
          alive =
              ap (λ b. is_some c1.conn || c1.resolving || b)
                (any-append c1.timers (t ∷ []) ∙ or_true (any_reconnect c1.timers))
              ∙ or_true (is_some c1.conn || c1.resolving);
        })
        (λ e. absurd (true≢false (sym h.0 ∙ e)))

  pub gives_up-Living : (c : Client) → Retries c → Living (gives_up answers vary c)
  unfolding gives_up
  gives_up-Living c h =
      schedule-Living (set_state disconnected c) (set_state-Retries disconnected c h)

  pub connect_to-Living :
      (o : Opened) (a : SockAddr) (rest c : Client)
      → Retries c
      → Living rest
      → Living (connect_to answers vary o a rest c)
  unfolding connect_to
  connect_to-Living no_socket a rest c h k = k
  connect_to-Living no_memory a rest c h k =
      schedule-Living (drop_conn c.conn c) (drop_conn-Retries c.conn c h)
  connect_to-Living opened a rest c h k =
      let c1 = drop_conn c.conn c in
      let i = c1.conns in
      let c2 = record (construct false c1) { conn = some i } in
      let w = set_state-Living connecting c2 refl (drop_conn-Retries c.conn c h) refl in
      Living-arm (connect_deadline i) (emit (submits_connect i a) (set_state connecting c2))
        (record { retries = w.retries; awake = w.awake; alive = w.alive })

  pub connect_from-Living :
      (as' : List SockAddr) (c : Client) → Retries c → Living (connect_from answers vary as' c)
  unfolding connect_from
  connect_from-Living [] c h = gives_up-Living c h
  connect_from-Living (a ∷ as') c h =
      let c1 = record c { addr_idx = c.addr_idx + 1; sockets = c.sockets + 1 } in
      connect_to-Living (answers c.sockets) a (connect_from answers vary as' c1) c1 h
        (connect_from-Living as' c1 h)

  pub connect_next-Living : (c : Client) → Retries c → Living (connect_next answers vary c)
  unfolding connect_next
  connect_next-Living c h = connect_from-Living (drop c.addr_idx c.addrs) c h

  pub begin_connect-Living : (c : Client) → Retries c → Living (begin_connect answers vary c)
  unfolding begin_connect
  begin_connect-Living c h =
      let c1 = record c { addr_idx = 0 } in
      if_cases Living (c.happy_eyeballs && ltb 1 (length c.addrs)) (he_begin answers vary c1)
        (connect_next answers vary c1)
        (λ e. absurd (true≢false (sym e ∙ ap (λ b. b && ltb 1 (length c.addrs)) h.1)))
        (λ e. connect_next-Living c1 h)
