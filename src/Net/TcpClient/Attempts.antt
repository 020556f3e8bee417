-- ===== src/Net/TcpClient/Attempts.antt =====
-- Attempts to connect: one address after the other, or several at a time (Happy Eyeballs).
use affini_x.Base.{
  ℕ, ◌+◌, Bool, true, false, ◌&&◌, ◌||◌, if◌then◌else◌, some, List, [], ◌∷◌, ◌++◌, ltb, leb, length,
  drop,
}
use affini_x.Net.TcpClient.{
  disconnected, connecting, reconnect_wait, next, SockAddr, Opened, no_socket, no_memory, opened,
  reconnects, connect_deadline, he_deadline, staggers, submits_connect, Client, emit, set_state,
  arm, construct, drop_conn,
}

abbrev pub is_empty {ℓ} : {A : Type ℓ} → List A → Bool
is_empty [] = true
is_empty (x ∷ xs) = false

-- RFC 8305: the families take turns, the sixth version first.
abbrev pub interleave : List SockAddr → List SockAddr → List SockAddr
interleave [] v4 = v4
interleave (a ∷ v6) [] = a ∷ v6
interleave (a ∷ v6) (b ∷ v4) = a ∷ b ∷ interleave v6 v4

abbrev pub of_family : Bool → List SockAddr → List SockAddr
of_family six [] = []
of_family true (a ∷ as') = if a.is_v6 then a ∷ of_family true as' else of_family true as'
of_family false (a ∷ as') = if a.is_v6 then of_family false as' else a ∷ of_family false as'

unfoldable pub family_order : List SockAddr → List SockAddr
family_order as' = interleave (of_family true as') (of_family false as')

module _ (answers : ℕ → Opened) (vary : ℕ → ℕ → ℕ) where
  unfoldable pub schedule_reconnect : Client → Client
  schedule_reconnect c =
      let c1 = set_state reconnect_wait c in
      let n = next c1.backoff in
      if c.auto_reconnect
      then arm (reconnects (vary c1.delays n.0))
          (record c1 { backoff = n.1; delays = c1.delays + 1 })
      else c

  -- No address is left.
  unfoldable pub gives_up : Client → Client
  gives_up c = schedule_reconnect (set_state disconnected c)

  -- The attempt at one address, where `rest` is the client after the attempts at those that follow.
  unfoldable pub connect_to : Opened → SockAddr → Client → Client → Client
  connect_to no_socket a rest c = rest
  connect_to no_memory a rest c = schedule_reconnect (drop_conn c.conn c)
  connect_to opened a rest c =
      let c1 = drop_conn c.conn c in
      let i = c1.conns in
      let c2 = set_state connecting (record (construct false c1) { conn = some i }) in
      arm (connect_deadline i) (emit (submits_connect i a) c2)

  unfoldable pub connect_from : List SockAddr → Client → Client
  connect_from [] c = gives_up c
  connect_from (a ∷ as') c =
      let c1 = record c { addr_idx = c.addr_idx + 1; sockets = c.sockets + 1 } in
      let rest = connect_from as' c1 in connect_to (answers c.sockets) a rest c1

  unfoldable pub connect_next : Client → Client
  connect_next c = connect_from (drop c.addr_idx c.addrs) c

  -- Whether a dead attempt is left to the others: one has won, or some are in flight.
  abbrev pub is_paced : Client → Bool
  is_paced c = c.he_won || (if is_empty c.pending then false else true)

  -- One launch, where `rest` is the client after the launches that follow where this one fails.
  unfoldable pub launch_to : Opened → SockAddr → Client → Client → Client
  launch_to no_socket a rest c = if is_paced c then c else rest
  launch_to no_memory a rest c = if is_paced c then c else rest
  launch_to opened a rest c =
      let i = c.conns in
      let c1 = construct true c in
      emit (submits_connect i a)
        (set_state connecting (record c1 { pending = c1.pending ++ i ∷ [] }))

  unfoldable pub launch_from : List SockAddr → Client → Client
  launch_from [] c = gives_up c
  launch_from (a ∷ as') c =
      let c1 = record c { he_next = c.he_next + 1; sockets = c.sockets + 1 } in
      let rest = launch_from as' c1 in launch_to (answers c.sockets) a rest c1

  unfoldable pub he_launch : Client → Client
  he_launch c =
      let launched = launch_from (drop c.he_next c.he_addrs) c in
      if c.he_won || leb (length c.he_addrs) c.he_next then c else launched

  unfoldable pub he_attempt_done : Client → Client
  he_attempt_done c =
      if is_paced c
      then c
      else if ltb c.he_next (length c.he_addrs)
      then he_launch c
      else gives_up c

  unfoldable pub arm_stagger : Client → Client
  arm_stagger c =
      if c.he_won || leb (length c.he_addrs) c.he_next then c else arm (staggers c.he_group) c

  unfoldable pub he_begin : Client → Client
  he_begin c =
      let c1 = record c {
        he_won = false;
        he_next = 0;
        he_group = some c.groups;
        groups = c.groups + 1;
        he_addrs = family_order c.addrs;
      } in
      if is_empty c1.he_addrs
      then gives_up c1
      else arm_stagger (he_launch (arm (he_deadline c1.he_group) c1))

  unfoldable pub begin_connect : Client → Client
  begin_connect c =
      let c1 = record c { addr_idx = 0 } in
      if c1.happy_eyeballs && ltb 1 (length c1.addrs) then he_begin c1 else connect_next c1
