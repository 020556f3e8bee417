-- ===== src/Net/TcpClient/Closing.antt =====
-- What the close of a connection leaves of a client as it was.
use mathlib.Core.List.{append-nil, append_assoc}
use affini_x.Base.{
  or_false, contains, ℕ, ◌==◌, ◌≡◌, ◌≢◌, refl, sym, ap, subst, ◌∙◌, false, if_cases, List, [], ◌∷◌,
  ◌++◌, update, update_ne, arith,
}
use affini_x.Net.Connection.{CloseReason, local_close}
use affini_x.Net.TcpClient.{
  ClientState, disconnected, connecting, connected, reconnect_wait, gone, Event, changes_state,
  Client, emit, is_state, set_state, is_conn, is_gone, he_lost, teardown, close, on_close,
}
use affini_x.Net.TcpClient.Events.{close_losers}

-- A state is set.
pub set_state_lem : (s : ClientState) (c : Client) → (set_state s c).state ≡ s
unfolding set_state
set_state_lem disconnected c = ground arith
set_state_lem connecting c = ground arith
set_state_lem connected c = ground arith
set_state_lem reconnect_wait c = ground arith

abbrev pub SameBut : Client → Client → Type 0
SameBut c c' =
    (c'.conn ≡ c.conn)
    × (c'.pending ≡ c.pending)
    × (c'.closing ≡ c.closing)
    × (c'.deferred ≡ c.deferred)
    × (c'.phases ≡ c.phases)
    × (c'.auto_reconnect ≡ c.auto_reconnect)

pub set_state-SameBut : (s : ClientState) (c : Client) → SameBut c (set_state s c)
unfolding set_state
set_state-SameBut s c =
    if_cases (SameBut c) (is_state c.state s) c (emit (changes_state s) (record c { state = s }))
      (λ e. (refl, refl, refl, refl, refl, refl)) (λ e. (refl, refl, refl, refl, refl, refl))

-- What a close leaves as it was, and that it only adds deferred calls.
pub record Keeps (c c' : Client) : Type 0 where
  pub conn_same : c'.conn ≡ c.conn
  pub pending_same : c'.pending ≡ c.pending
  pub auto_same : c'.auto_reconnect ≡ c.auto_reconnect
  pub closing_more : List ℕ
  pub closing_same : c'.closing ≡ c.closing ++ closing_more
  pub more : List (ℕ × CloseReason)
  pub deferred_more : c'.deferred ≡ c.deferred ++ more

pub Keeps-trans : (a b c : Client) → Keeps a b → Keeps b c → Keeps a c
Keeps-trans a b c h k = record {
  conn_same = k.conn_same ∙ h.conn_same;
  pending_same = k.pending_same ∙ h.pending_same;
  auto_same = k.auto_same ∙ h.auto_same;
  closing_more = h.closing_more ++ k.closing_more;
  closing_same =
      k.closing_same
      ∙ ap (λ l. l ++ k.closing_more) h.closing_same
      ∙ append_assoc a.closing h.closing_more k.closing_more;
  more = h.more ++ k.more;
  deferred_more =
      k.deferred_more
      ∙ ap (λ l. l ++ k.more) h.deferred_more
      ∙ append_assoc a.deferred h.more k.more;
}

pub same-Keeps : (c : Client) → Keeps c c
same-Keeps c = record {
  conn_same = refl;
  pending_same = refl;
  auto_same = refl;
  closing_more = [];
  closing_same = sym (append-nil c.closing);
  more = [];
  deferred_more = sym (append-nil c.deferred);
}

pub closing-Keeps : (c : Client) (l : ℕ) → Keeps c (record c { closing = c.closing ++ l ∷ [] })
closing-Keeps c l = record {
  conn_same = refl;
  pending_same = refl;
  auto_same = refl;
  closing_more = l ∷ [];
  closing_same = refl;
  more = [];
  deferred_more = sym (append-nil c.deferred);
}

-- The fields that closing a connection does not touch are those of the client before.
pub closed-Keeps :
    (i : ℕ) (r : CloseReason) (c : Client) (e : List Event)
    → Keeps c (record c {
      log = e;
      phases = update c.phases i gone;
      deferred = c.deferred ++ (i, r) ∷ [];
    })
closed-Keeps i r c e = record {
  conn_same = refl;
  pending_same = refl;
  auto_same = refl;
  closing_more = [];
  closing_same = sym (append-nil c.closing);
  more = (i, r) ∷ [];
  deferred_more = refl;
}

-- A close of a connection that is not gone yet.
pub record Closed (i : ℕ) (r : CloseReason) (c c' : Client) : Type 0 where
  pub events : List Event
  pub state_after : c' ≡ record c {
    log = events;
    phases = update c.phases i gone;
    deferred = c.deferred ++ (i, r) ∷ [];
  }

pub teardown-Closed : (i : ℕ) (r : CloseReason) (c : Client) → Closed i r c (teardown i r c)
unfolding teardown he_lost
teardown-Closed i r c =
    let Step = λ (x : Client).
      Closed i r c
        (record x { phases = update x.phases i gone; deferred = x.deferred ++ (i, r) ∷ [] }) in
    let told : Step (emit (on_close i r) c) = record {
      events = c.log ++ on_close i r ∷ [];
      state_after = refl;
    } in
    if_cases Step (c.is_attempt i) (he_lost i r c) (emit (on_close i r) c)
      (λ e.
        if_cases Step (is_conn i c.conn) (emit (on_close i r) c) c (λ f. told)
          (λ f. record { events = c.log; state_after = refl }))
      (λ e. told)

pub close-Keeps : (i : ℕ) (r : CloseReason) (c : Client) → Keeps c (close i r c)
unfolding close
close-Keeps i r c =
    if_cases (Keeps c) (is_gone (c.phases i)) c (teardown i r c) (λ e. same-Keeps c)
      (λ e.
        let w = teardown-Closed i r c in
        subst (Keeps c) (sym w.state_after) (closed-Keeps i r c w.events))

pub close_losers-Keeps : (ls : List ℕ) (c : Client) → Keeps c (close_losers ls c)
close_losers-Keeps [] c = same-Keeps c
close_losers-Keeps (l ∷ ls) c =
    let c1 = record c { closing = c.closing ++ l ∷ [] } in
    Keeps-trans c c1 _ (closing-Keeps c l) (
      Keeps-trans c1 (close l local_close c1) _ (close-Keeps l local_close c1)
        (close_losers-Keeps ls (close l local_close c1)))

-- The phase of a connection that is not among the losers.
pub close-phases :
    (w i : ℕ) (r : CloseReason) (c : Client)
    → (w == i) ≡ false
    → (close i r c).phases w ≡ c.phases w
unfolding close
close-phases w i r c h =
    if_cases (λ (x : Client). x.phases w ≡ c.phases w) (is_gone (c.phases i)) c (teardown i r c)
      (λ e. refl)
      (λ e.
        ap (λ (x : Client). x.phases w) (teardown-Closed i r c).state_after
        ∙ update_ne c.phases i w gone (λ k. apart k))
  where
    apart : i ≢ w
    apart k = ground arith

pub close_losers-phases :
    (w : ℕ) (ls : List ℕ) (c : Client)
    → contains w ls ≡ false
    → (close_losers ls c).phases w ≡ c.phases w
close_losers-phases w [] c h = refl
close_losers-phases w (l ∷ ls) c h =
    let c1 = record c { closing = c.closing ++ l ∷ [] } in
    close_losers-phases w ls (close l local_close c1) (or_false (w == l) (contains w ls) h).1
    ∙ close-phases w l local_close c1 (or_false (w == l) (contains w ls) h).0
