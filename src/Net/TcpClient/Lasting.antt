-- ===== src/Net/TcpClient/Lasting.antt =====
-- Cancelled timers, a connection that is made and a winner leave a client alive.
use affini_x.Base.{
  contains, erase, ℕ, zero, suc, ◌≡◌, refl, sym, ap, ◌∙◌, Bool, true, false, ◌||◌, if◌then◌else◌,
  if_cases, Option, none, some, List, [], ◌∷◌, ◌++◌, update, take, drop, get_elem?,
}
use mathlib.Core.Bool.{true≢false}
use affini_x.Net.Connection.{local_close, connect_failed}
use affini_x.Net.TcpClient.{
  connected, established, Event, on_open, Timer, reconnects, connect_deadline, he_deadline,
  staggers, Client, emit, close, reset, on_connected,
}
use affini_x.Net.TcpClient.Events.{
  close_losers, is_group, without, cancel_he, promote, he_win, is_waiting, on_connect_result,
}
use affini_x.Net.TcpClient.Alive.{
  any_reconnect, Living, any-append, or_mono, id_true, alive_mono, set_state-Living, close-Living,
  close_losers-Living,
}

pub any-cons :
    (t : Timer) (ts : List Timer)
    → any_reconnect (t ∷ ts) ≡ (any_reconnect (t ∷ []) || any_reconnect ts)
any-cons t ts = any-append (t ∷ []) ts

pub any-cons_mono :
    (t : Timer) (ts us : List Timer)
    → (any_reconnect ts ≡ true → any_reconnect us ≡ true)
    → any_reconnect (t ∷ ts) ≡ true
    → any_reconnect (t ∷ us) ≡ true
any-cons_mono t ts us f h =
    let one = any_reconnect (t ∷ []) in
    any-cons t us
    ∙ or_mono one one (any_reconnect ts) (any_reconnect us) (id_true one) f
        (sym (any-cons t ts) ∙ h)

-- A timer that does not reconnect is taken out.
pub any-remove :
    (n : ℕ) (ts : List Timer) (t : Timer)
    → get_elem? ts n ≡ some t
    → any_reconnect (t ∷ []) ≡ false
    → any_reconnect ts ≡ true
    → any_reconnect (take n ts ++ drop (suc n) ts) ≡ true
any-remove n [] t e h k = absurd (true≢false (sym k))
any-remove zero (x ∷ ts) t e h k =
    ap (λ b. b || any_reconnect ts) (sym (ap (λ o. any_of o) e ∙ h)) ∙ sym (any-cons x ts) ∙ k
  where
    any_of : Option Timer → Bool
    any_of none = false
    any_of (some u) = any_reconnect (u ∷ [])
any-remove (suc n) (x ∷ ts) t e h k =
    any-cons_mono x ts (take n ts ++ drop (suc n) ts) (any-remove n ts t e h) k

pub any-without :
    (g : ℕ) (ts : List Timer) → any_reconnect ts ≡ true → any_reconnect (without g ts) ≡ true
any-without g [] h = h
any-without g (reconnects d ∷ ts) h = refl
any-without g (connect_deadline i ∷ ts) h = any-without g ts h
any-without g (he_deadline o ∷ ts) h =
    if_cases (λ us. any_reconnect us ≡ true) (is_group g o) (without g ts)
      (he_deadline o ∷ without g ts) (λ e. any-without g ts h) (λ e. any-without g ts h)
any-without g (staggers o ∷ ts) h =
    if_cases (λ us. any_reconnect us ≡ true) (is_group g o) (without g ts)
      (staggers o ∷ without g ts) (λ e. any-without g ts h) (λ e. any-without g ts h)

pub cancel_he-Living : (o : Option ℕ) (c : Client) → Living c → Living (cancel_he o c)
cancel_he-Living none c h = h
cancel_he-Living (some g) c h = record {
  retries = h.retries;
  awake = h.awake;
  alive =
      alive_mono c.conn c.resolving c.timers (without g c.timers) (any-without g c.timers) h.alive;
}

pub on_connected-Living : (c : Client) → Living c → Living (on_connected c)
unfolding on_connected
on_connected-Living c h =
    set_state-Living connected (record c { backoff = reset c.backoff }) refl h.retries h.alive

-- What the handlers are told does not matter.
pub Living-emit : (e : Event) (c : Client) → Living c → Living (emit e c)
Living-emit e c h = record { retries = h.retries; awake = h.awake; alive = h.alive }

pub promote-Living : (i : ℕ) (c : Client) → Living c → Living (promote i c)
unfolding promote
promote-Living i c h =
    let c1 = record c { he_won = true; conn = some i; pending = [] } in
    let c2 = close_losers (erase i c.pending) c1 in
    let c3 = cancel_he c2.he_group c2 in
    Living-emit (on_open i) (on_connected c3) (
      on_connected-Living c3 (
        cancel_he-Living c2.he_group c2 (
          close_losers-Living (erase i c.pending) c1
            (record { retries = h.retries; awake = h.awake; alive = refl }))))

pub he_win-Living : (i : ℕ) (c : Client) → Living c → Living (he_win i c)
unfolding he_win
he_win-Living i c h =
    let mine = contains i c.pending in
    if_cases Living c.he_won (if mine then close i local_close c else c)
      (if mine then promote i c else c)
      (λ e.
        if_cases Living mine (close i local_close c) c (λ e'. close-Living i local_close c h)
          (λ e'. h))
      (λ e. if_cases Living mine (promote i c) c (λ e'. promote-Living i c h) (λ e'. h))

pub on_connect_result-Living :
    (i : ℕ) (fails : Bool) (c : Client) → Living c → Living (on_connect_result i fails c)
unfolding on_connect_result
on_connect_result-Living i fails c h =
    let c1 = record c { phases = update c.phases i established } in
    let h1 : Living c1 = record { retries = h.retries; awake = h.awake; alive = h.alive } in
    let opened : Client = emit (on_open i) (on_connected c1) in
    let won : Client = if c1.is_attempt i then he_win i c1 else opened in
    if_cases Living (is_waiting (c.phases i)) (if fails then close i connect_failed c else won) c
      (λ e.
        if_cases Living fails (close i connect_failed c) won
          (λ e'. close-Living i connect_failed c h)
          (λ e'.
            if_cases Living (c1.is_attempt i) (he_win i c1) opened (λ f. he_win-Living i c1 h1)
              (λ f. Living-emit (on_open i) (on_connected c1) (on_connected-Living c1 h1))))
      (λ e. h)
