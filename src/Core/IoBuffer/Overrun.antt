-- ===== src/Core/IoBuffer/Overrun.antt =====
-- `prepend`, and what `compact` does to a buffer whose headroom it has used.
use affini_x.Base.{
  ℕ, ◌+◌, ◌-◌, ◌^◌, ◌≤◌, ◌<◌, ◌≡◌, refl, ◌∙◌, false, none, some, List, ◌++◌, arith, ltb, leb, ◌==◌,
  length, splice, length-splice, slice-splice_front,
}
use affini_x.Core.IoBuffer.Grow.{InBounds, copy_to-fits, length-readable}
use affini_x.Core.IoBuffer.{
  IoBuffer, readable, copy_to, compact, ensure_writable, append, prepend, make_room, sub_size,
}

-- A header no longer than the free front goes before the bytes, without a copy of them.
pub prepend_lem :
    (b : IoBuffer) (xs : List ℕ)
    → InBounds b
    → length xs ≤ b.start
    → (b' : IoBuffer) × (prepend b xs ≡ some b')
      × InBounds b'
      × (readable b' ≡ xs ++ readable b)
      × (b'.start + length xs ≡ b.start)
      × (b'.cap ≡ b.cap)
unfolding prepend make_room
prepend_lem b xs v h =
    let t : ltb b.start (length xs) ≡ false = ground arith in
    let fit : b.start - length xs + length xs ≤ length b.buf = omega (arith, v.allocated, v.ends) in
    (
      record b {
        buf = splice b.buf (b.start - length xs) xs;
        start = b.start - length xs;
        size = b.size + length xs;
      },
      rw t (rw (copy_to-fits b.buf (b.start - length xs) xs fit) refl),
      record {
        allocated = length-splice b.buf (b.start - length xs) xs fit ∙ v.allocated;
        room = v.room;
        ends = omega (arith, v.ends);
      },
      slice-splice_front b.buf b.start b.size xs (b.start - length xs) (b.size + length xs)
          (omega arith) (omega arith) (omega (arith, v.allocated, v.ends)),
      omega arith,
      refl,
    )

-- The fault: a header stands in the headroom, the bytes do not fit behind the headroom, and there is
-- no room behind them for `xs`. Then `writable` compacts, and that copy runs past the allocation.
pub append_overruns :
    (b : IoBuffer) (xs : List ℕ)
    → InBounds b
    → b.cap < 2 ^ 64
    → b.start < b.headroom
    → b.cap < b.headroom + b.size
    → b.cap < b.start + b.size + length xs
    → append b xs ≡ none
unfolding append ensure_writable compact copy_to
append_overruns b xs v small front long tight =
    let t : leb (length xs) (sub_size (sub_size b.cap b.start) b.size) ≡ false =
      ground (arith, v.ends) in
    let u : (b.start == b.headroom) ≡ false = ground arith in
    let w : leb (b.headroom + length (readable b)) (length b.buf) ≡ false =
      ground (arith, length-readable b v, v.allocated) in
    rw t (rw u (rw w refl))
