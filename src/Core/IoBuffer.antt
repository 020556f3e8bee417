-- ===== src/Core/IoBuffer.antt =====
-- include/afx/core/io_buffer.hpp. The bytes are a list of length `cap_`; `size_t` arithmetic wraps at
-- 2^64. `none` is a copy that leaves the allocation, which C++ leaves undefined, or a loop that does not end.
-- The allocation of a new block is taken to succeed.
pub mod Grow
pub mod Queue
pub mod Overrun
mod Tests
use affini_x.Base.{
  ℕ, zero, suc, ◌+◌, ◌-◌, ◌*◌, ◌%◌, ◌^◌, max, min, Bool, true, false, ◌&&◌, Option, none, some,
  List, [], ◌∷◌, ltb, leb, ◌==◌, if◌then◌else◌, length, splice, slice, replicate,
}

pub record IoBuffer : Type 0 where
  pub cap : ℕ
  pub buf : List ℕ
  pub headroom : ℕ
  pub start : ℕ
  pub size : ℕ

infixl 5 ◌>>=◌
abbrev pub ◌>>=◌ : {A B : Type 0} → Option A → (A → Option B) → Option B
none >>= f = none
some a >>= f = f a

abbrev pub sub_size : ℕ → ℕ → ℕ
sub_size a b = (a + 2 ^ 64 - b) % 2 ^ 64

abbrev pub add_size : ℕ → ℕ → ℕ
add_size a b = (a + b) % 2 ^ 64

pub create : ℕ → ℕ → IoBuffer
create cap headroom = record {
  cap = max cap (add_size headroom 1);
  buf = replicate (max cap (add_size headroom 1)) 0;
  headroom = headroom;
  start = headroom;
  size = 0;
}

abbrev pub readable : IoBuffer → List ℕ
readable b = slice b.buf b.start b.size

-- `memcpy` and `memmove` of `xs` to index `i`.
pub copy_to : List ℕ → ℕ → List ℕ → Option (List ℕ)
copy_to buf i xs = if leb (i + length xs) (length buf) then some (splice buf i xs) else none

pub compact : IoBuffer → Option IoBuffer
unfolding copy_to
compact b = if b.start == b.headroom then some b else (do
  buf ← copy_to b.buf b.headroom (readable b)
  some (record b { buf = buf; start = b.headroom }))

-- `while (ncap < need) ncap *= 2;`, whose product wraps: `none` where it does not end. After 64 rounds the
-- capacity is 0 and stays so, so that 65 rounds are enough to tell.
pub doubled : ℕ → ℕ → ℕ → Option ℕ
doubled zero ncap need = none
doubled (suc fuel) ncap need =
    let rest = doubled fuel (ncap * 2 % 2 ^ 64) need in if ltb ncap need then rest else some ncap

pub grown_cap : IoBuffer → ℕ → Option ℕ
grown_cap b need = doubled 65 (if b.cap == 0 then 64 else b.cap * 2 % 2 ^ 64) need

pub grow : IoBuffer → ℕ → Option IoBuffer
unfolding copy_to grown_cap
grow b need = do
  ncap ← grown_cap b need
  buf ← copy_to (replicate ncap 0) b.headroom (readable b)
  some (record b { buf = buf; cap = ncap; start = b.headroom })

pub ensure_writable : IoBuffer → ℕ → Option IoBuffer
ensure_writable b at_least =
    if leb at_least (sub_size (sub_size b.cap b.start) b.size) then some b else (do
      b' ← compact b
      if ltb (sub_size (sub_size b'.cap b'.headroom) b'.size) at_least
          then grow b' (add_size (add_size b'.headroom b'.size) at_least)
          else some b')

-- `writable(n)`, a copy of the `n` bytes into the span, and `commit(n)`.
pub append : IoBuffer → List ℕ → Option IoBuffer
append b xs = do
  b' ← ensure_writable b (length xs)
  buf ← copy_to b'.buf (b'.start + b'.size) xs
  some (record b' { buf = buf; size = b'.size + length xs })

pub consume : IoBuffer → ℕ → IoBuffer
consume b n =
    let k = min n b.size in
    record b { start = if b.size - k == 0 then b.headroom else b.start + k; size = b.size - k }

-- The shift that makes room in front.
pub make_room : IoBuffer → ℕ → Option IoBuffer
make_room b n =
    if ltb b.start n
    then (do
      b' ←
          (if ltb b.cap (add_size (max n b.headroom) b.size)
            then grow b (add_size (max n b.headroom) b.size)
            else some b)
      buf ← copy_to b'.buf (max n b.headroom) (readable b')
      some (record b' { buf = buf; start = max n b.headroom }))
    else some b

-- `prepend(n)` and a copy of the `n` bytes into the span.
pub prepend : IoBuffer → List ℕ → Option IoBuffer
prepend b xs = do
  b' ← make_room b (length xs)
  buf ← copy_to b'.buf (b'.start - length xs) xs
  some (record b' { buf = buf; start = b'.start - length xs; size = b'.size + length xs })

pub reserve : IoBuffer → ℕ → Option IoBuffer
reserve b n = if ltb b.cap n then grow b n else some b
