-- ===== src/Net/UdpSocket/Tests.antt =====
-- A framer whose frames are a length and that many bytes.
use affini_x.Base.{
  ℕ, ◌+◌, ◌<◌, ◌≡◌, refl, subst, true, false, List, [], ◌∷◌, ltb, length, take, if◌then◌else◌,
  if_cases, arith,
}
use affini_x.Net.Protocol.{ParseResult, message, need_more, ok}
use affini_x.Net.UdpSocket.{
  on_messages, on_error, truncated, UdpSocket, Datagram, deliver, deliver_from, on_readable,
}
use affini_x.Net.UdpSocket.Batches.{messages_in, handed_over, handed_over-deliver}

abbrev parse_frame : List ℕ → ParseResult (List ℕ)
parse_frame [] = need_more 1
parse_frame (n ∷ bs) = if ltb (length bs) n then need_more 1 else message (take n bs) (n + 1)

abbrev socket : UdpSocket
socket = record {
  is_open = true;
  has_on_datagram = false;
  has_on_messages = true;
  has_on_error = true;
  recv_batch = 2;
  capacity = 2;
  drains = 0;
  datagrams_in = 0;
}

-- Three frames and the start of a fourth.
abbrev packet : Datagram
packet = record { from = 9; bytes = 1 ∷ 5 ∷ 0 ∷ 2 ∷ 6 ∷ 7 ∷ 3 ∷ 8 ∷ [] }

packet-events :
    deliver parse_frame socket packet
    ≡ on_messages 9 ((5 ∷ []) ∷ [] ∷ [])
      ∷ on_error truncated
      ∷ on_messages 9 ((6 ∷ 7 ∷ []) ∷ [])
      ∷ []
unfolding deliver deliver_from
packet-events = refl

-- A short read ends the rounds.
one_round :
    (on_readable parse_frame
      (ok (packet ∷ []) ∷ ok (packet ∷ packet ∷ []) ∷ [])
      socket).0.datagrams_in
    ≡ 1
unfolding on_readable
one_round = refl

-- Every frame takes a byte.
abbrev consumed : ParseResult (List ℕ) → ℕ
consumed (message m n) = n
consumed r = 1

consumed-parse_frame : (bs : List ℕ) → 0 < consumed (parse_frame bs)
consumed-parse_frame [] = omega arith
consumed-parse_frame (k ∷ bs) =
    if_cases (λ r. 0 < consumed r) (ltb (length bs) k) (need_more 1) (message (take k bs) (k + 1))
      (λ e. omega arith) (λ e. omega arith)

handed_over-deliver_example :
    handed_over parse_frame (deliver parse_frame socket packet)
    ≡ messages_in parse_frame (2 + 8) packet.bytes
handed_over-deliver_example =
    handed_over-deliver parse_frame socket packet 2
      (λ bs m n e. subst (λ r. 0 < consumed r) e (consumed-parse_frame bs)) refl refl
