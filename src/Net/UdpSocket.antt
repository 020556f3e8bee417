-- ===== src/Net/UdpSocket.antt =====
-- include/afx/net/udp_socket.hpp: sends, and the delivery of the datagrams that a readable socket holds. The
-- framer is a parameter, what the system answers to a send or a receive an argument; a datagram is its
-- sender's number and its bytes. `capacity` is that of the vector of messages, 64 at least. Not modelled:
-- open and the multicast calls, which pass on to the system, and handlers that close the socket.
pub mod Batches
mod Tests
use affini_x.Base.{
  ℕ, zero, suc, ◌+◌, ◌==◌, Bool, true, false, if◌then◌else◌, List, [], ◌∷◌, ◌++◌, ltb, length, drop,
}
use affini_x.Net.Protocol.{ParseResult, message, need_more, error, Result, ok, fail}

pub data Fault : Type 0 where
  closed : Fault
  truncated : Fault
  framing : ℕ → Fault
  system : ℕ → Fault

pub data Event (M : Type 0) : Type 0 where
  on_datagram : ℕ → List ℕ → Event M
  on_messages : ℕ → List M → Event M
  on_error : Fault → Event M

pub record Datagram : Type 0 where
  pub from : ℕ
  pub bytes : List ℕ

pub record UdpSocket : Type 0 where
  pub is_open : Bool
  pub has_on_datagram : Bool
  pub has_on_messages : Bool
  pub has_on_error : Bool
  pub recv_batch : ℕ
  pub capacity : ℕ
  pub drains : ℕ
  pub datagrams_in : ℕ

pub data Sent : Type 0 where
  done : Sent
  refused : Fault → Sent

-- The system answers with the number of datagrams sent, 0 where the socket would block.
pub send_to : Result ℕ → UdpSocket → Sent
send_to (ok n) s = if s.is_open then done else refused closed
send_to (fail e) s = if s.is_open then refused (system e) else refused closed

pub close : UdpSocket → UdpSocket
close s = record s { is_open = false }

module _ {M : Type 0} (parse : List ℕ → ParseResult M) where
  abbrev pub is_empty : {A : Type 0} → List A → Bool
  is_empty [] = true
  is_empty (x ∷ xs) = false

  abbrev pub tell : Bool → Fault → List (Event M)
  tell has_on_error f = if has_on_error then on_error f ∷ [] else []

  abbrev pub flush : ℕ → List M → List (Event M)
  flush from msgs = if is_empty msgs then [] else on_messages from msgs ∷ []

  -- One round of the loop over a datagram, where `rest` goes on after the bytes that the frame took, with
  -- the messages that are not handed over yet.
  abbrev pub deliver_step :
      UdpSocket → ℕ → List M → (ℕ → List M → List (Event M)) → ParseResult M → List (Event M)
  deliver_step s from msgs rest (message m n) =
      let all = msgs ++ m ∷ [] in
      let is_full = length all == s.capacity in
      let after = rest n (if is_full then [] else all) in
      if is_full then on_messages from all ∷ after else after
  deliver_step s from msgs rest (need_more n) = tell s.has_on_error truncated ++ flush from msgs
  deliver_step s from msgs rest (error e) = tell s.has_on_error (framing e) ++ flush from msgs

  pub deliver_from : ℕ → UdpSocket → ℕ → List ℕ → List M → List (Event M)
  deliver_from zero s from bytes msgs = flush from msgs
  deliver_from (suc fuel) s from [] msgs = flush from msgs
  deliver_from (suc fuel) s from (b ∷ bs) msgs =
      deliver_step s from msgs (λ n ms. deliver_from fuel s from (drop n (b ∷ bs)) ms)
        (parse (b ∷ bs))

  pub deliver : UdpSocket → Datagram → List (Event M)
  deliver s d =
      let parsed = deliver_from (length d.bytes) s d.from d.bytes [] in
      if s.has_on_datagram
      then on_datagram d.from d.bytes ∷ []
      else if s.has_on_messages
      then parsed
      else []

  abbrev pub deliver_each : UdpSocket → List Datagram → List (Event M)
  deliver_each s [] = []
  deliver_each s (d ∷ ds) = deliver s d ++ deliver_each s ds

  -- The rounds of receiving, for the answers of the system to each.
  pub on_readable : List (Result (List Datagram)) → UdpSocket → UdpSocket × List (Event M)
  on_readable [] s = (s, [])
  on_readable (fail e ∷ rs) s = (s, tell s.has_on_error (system e))
  on_readable (ok ds ∷ rs) s =
      let n = length ds in
      let s1 = record s { drains = s.drains + 1; datagrams_in = s.datagrams_in + n } in
      let rest = on_readable rs s1 in
      if is_empty ds
      then (s, [])
      else if ltb n s.recv_batch
      then (s1, deliver_each s ds)
      else (rest.0, deliver_each s ds ++ rest.1)
