-- ===== src/Net/Protocol/Tests.antt =====
-- A protocol whose header is one byte, the length of the body.
use affini_x.Base.{ℕ, ◌+◌, ◌-◌, ◌%◌, ◌^◌, ◌≤◌, ◌≡◌, refl, [], ◌∷◌, length, get_or, arith}
use affini_x.Net.Protocol.{message, need_more, ok, FrameView, FixedHeaderProtocol, parse}
use affini_x.Net.Protocol.Stable.{Fits, parse_message-append}

abbrev by_length : FixedHeaderProtocol ℕ
by_length = record {
  header_size = 1;
  decode = λ bs. get_or bs 0 0;
  validate = λ h. ok tt;
  body_size = λ h. ok (h % 2 ^ 8);
}

abbrev two_bytes : FrameView ℕ
two_bytes = record { header = 2; body = 8 ∷ 9 ∷ [] }

parses_two : parse by_length (2 ∷ 8 ∷ 9 ∷ []) ≡ message two_bytes 3
unfolding parse
parses_two = refl

needs_two : parse by_length (2 ∷ []) ≡ need_more 2
unfolding parse
needs_two = refl

-- A size that does not fit together with the header: the frame is found, and consumes nothing.
abbrev unchecked : FixedHeaderProtocol ℕ
unchecked = record by_length { body_size = λ h. ok (2 ^ 64 - 1) }

unchecked_wraps : parse unchecked (2 ∷ 8 ∷ []) ≡ message (record { header = 2; body = 8 ∷ [] }) 0
unfolding parse
unchecked_wraps = refl

by_length-Fits : Fits by_length
by_length-Fits h size e = omega (arith, size_of e)
  where
    size_of : ok (h % 2 ^ 8) ≡ ok size → h % 2 ^ 8 ≡ size
    size_of q = cc

parse_message-append_example :
    (parse by_length (2 ∷ 8 ∷ 9 ∷ 7 ∷ []) ≡ message two_bytes 3)
    × (1 ≤ 3)
    × (3 ≤ 3)
    × (length two_bytes.body + 1 ≡ 3)
parse_message-append_example =
    parse_message-append by_length (2 ∷ 8 ∷ 9 ∷ []) (7 ∷ []) two_bytes 3 by_length-Fits parses_two
