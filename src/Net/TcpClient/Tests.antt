-- ===== src/Net/TcpClient/Tests.antt =====
-- Runs of a client.
use mathlib.Core.List.{Perm}
use affini_x.Base.{ℕ, ◌≡◌, refl, true, false, some, List, [], ◌∷◌, ◌++◌}
use affini_x.Net.TcpClient.{
  Backoff, next, SockAddr, Opened, opened, established, Client, create, set_state, close, teardown,
  he_lost, on_connected,
}
use affini_x.Net.TcpClient.Attempts.{
  of_family, family_order, schedule_reconnect, launch_to, launch_from, he_launch, arm_stagger,
  he_begin, begin_connect,
}
use affini_x.Net.TcpClient.Events.{
  known, starts, expires, completes, notifies, begin_at, start, expire, expire_at, promote, he_win,
  on_connect_result, after_gone, on_conn_gone, notify, act, run, Action,
}
use affini_x.Net.TcpClient.Order.{family_order-Perm}
use affini_x.Net.TcpClient.Winner.{promote-Reconnects, Reconnects}

abbrev backoff : Backoff
backoff = record { initial = 100; max = 250; current = 0 }

abbrev six : ℕ → SockAddr
six n = record { is_v6 = true; number = n }

abbrev four : ℕ → SockAddr
four n = record { is_v6 = false; number = n }

abbrev makes : ℕ → Opened
makes n = opened

abbrev no_jitter : ℕ → ℕ → ℕ
no_jitter n d = d

abbrev both : List SockAddr
both = four 1 ∷ six 2 ∷ []

abbrev after_run : List Action → Client
after_run as' = run makes no_jitter as' (create true true backoff)

-- Two attempts are in flight.
abbrev racing : List Action
racing = starts (known both) ∷ expires 1 ∷ []

racing-pending : (after_run racing).pending ≡ 0 ∷ 1 ∷ []
unfolding run act start begin_at begin_connect he_begin he_launch launch_from launch_to arm_stagger
    expire_at expire family_order set_state create
racing-pending = refl

-- The reconnect that follows replaces an established connection, which the client no longer knows.
winner_is_lost :
    let c =
      after_run (racing ++ completes 0 false ∷ notifies ∷ expires 0 ∷ completes 2 false ∷ []) in
    (c.phases 0 ≡ established) × (c.conn ≡ some 2) × (c.pending ≡ []) × (c.closing ≡ [])
unfolding run act start begin_at begin_connect he_begin he_launch launch_from launch_to arm_stagger
    expire_at expire family_order set_state create on_connect_result he_win promote on_connected
    close teardown he_lost notify on_conn_gone after_gone schedule_reconnect next
winner_is_lost = (refl, refl, refl, refl)

family_order-Perm_example :
    Perm (family_order both) both
    × (of_family true (family_order both) ≡ of_family true both)
    × (of_family false (family_order both) ≡ of_family false both)
family_order-Perm_example = family_order-Perm both

promote-Reconnects_example :
    Reconnects 0 (run makes no_jitter (completes 0 false ∷ notifies ∷ []) (after_run racing))
unfolding run act start begin_at begin_connect he_begin he_launch launch_from launch_to arm_stagger
    expire_at expire family_order set_state create
promote-Reconnects_example =
    promote-Reconnects makes no_jitter (after_run racing) 0 1 [] refl refl refl refl refl refl refl
      refl refl
