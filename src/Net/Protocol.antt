-- ===== src/Net/Protocol.antt =====
-- include/afx/net/protocol.hpp: what a framer answers, and the framer of a protocol with a header of
-- fixed size. The protocol's own three operations are parameters.
pub mod Stable
mod Tests
use affini_x.Base.{ℕ, ◌+◌, ◌-◌, ◌%◌, ◌^◌, List, ltb, if◌then◌else◌, length, take, drop, slice}

pub data ParseResult (M : Type 0) : Type 0 where
  message : M → ℕ → ParseResult M
  need_more : ℕ → ParseResult M
  error : ℕ → ParseResult M

-- `Result<T>`.
pub data Result (A : Type 0) : Type 0 where
  ok : A → Result A
  fail : ℕ → Result A

-- The header as a value, the body as the bytes that it views.
pub record FrameView (H : Type 0) : Type 0 where
  pub header : H
  pub body : List ℕ

-- `decode` is the copy of the first bytes into a `Header`.
pub record FixedHeaderProtocol (H : Type 0) : Type 0 where
  pub header_size : ℕ
  pub decode : List ℕ → H
  pub validate : H → Result Unit
  pub body_size : H → Result ℕ

module _ {H : Type 0} where
  abbrev pub parse_frame : FixedHeaderProtocol H → H → ℕ → ℕ → List ℕ → ParseResult (FrameView H)
  parse_frame p h size total inp =
      if ltb (length inp) total
      then need_more (total - length inp)
      else message (record { header = h; body = slice inp p.header_size size }) total

  -- The sum is a `size_t` and wraps.
  abbrev pub parse_body : FixedHeaderProtocol H → H → Result ℕ → List ℕ → ParseResult (FrameView H)
  parse_body p h (fail e) inp = error e
  parse_body p h (ok size) inp = parse_frame p h size ((p.header_size + size) % 2 ^ 64) inp

  abbrev pub parse_valid :
      FixedHeaderProtocol H → H → Result Unit → List ℕ → ParseResult (FrameView H)
  parse_valid p h (fail e) inp = error e
  parse_valid p h (ok u) inp = parse_body p h (p.body_size h) inp

  pub parse : FixedHeaderProtocol H → List ℕ → ParseResult (FrameView H)
  parse p inp =
      if ltb (length inp) p.header_size
      then need_more (p.header_size - length inp)
      else (let h = p.decode (take p.header_size inp) in parse_valid p h (p.validate h) inp)
