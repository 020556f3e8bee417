-- ===== src/Itc/SpscRing.antt =====
-- include/afx/itc/spsc_ring.hpp. Each operation is a step of its own: the producer alone writes
-- `tail_`, the consumer alone `head_`. Items are only moved, so an item is a number; positions wrap
-- at 2^64, and `& mask_` is the remainder by the capacity, a power of two.
pub mod Window
pub mod Queue
mod Tests
use affini_x.Base.{
  ℕ, zero, suc, ◌+◌, ◌-◌, ◌%◌, ◌^◌, Bool, true, false, List, [], ◌∷◌, ltb, leb, ◌==◌, if◌then◌else◌,
  length, get_or, set, slice, replicate,
}

pub record SpscRing : Type 0 where
  pub cap : ℕ
  pub buf : List ℕ
  pub head : ℕ
  pub tail : ℕ

abbrev pub add_size : ℕ → ℕ → ℕ
add_size a b = (a + b) % 2 ^ 64

abbrev pub sub_size : ℕ → ℕ → ℕ
sub_size a b = (a + 2 ^ 64 - b) % 2 ^ 64

pub create : ℕ → SpscRing
create capacity = record { cap = capacity; buf = replicate capacity 0; head = 0; tail = 0 }

abbrev pub index : SpscRing → ℕ → ℕ
index r pos = pos % 2 ^ 64 % r.cap

pub try_push : SpscRing → ℕ → Bool × SpscRing
try_push r v =
    if leb r.cap (sub_size r.tail r.head)
    then (false, r)
    else (true, record r { buf = set r.buf (index r r.tail) v; tail = add_size r.tail 1 })

abbrev pub at_most : ℕ → ℕ → ℕ
at_most a b = if ltb a b then a else b

-- `buf_[(t + i) & mask_] = vs[i]` for the first `n` items.
pub write_from : ℕ → List ℕ → ℕ → List ℕ → ℕ → List ℕ
write_from cap buf pos [] n = buf
write_from cap buf pos (v ∷ vs) zero = buf
write_from cap buf pos (v ∷ vs) (suc n) =
    write_from cap (set buf (pos % 2 ^ 64 % cap) v) (pos + 1) vs n

pub try_push_bulk : SpscRing → List ℕ → ℕ × SpscRing
unfolding write_from
try_push_bulk r vs =
    let room = sub_size r.cap (sub_size r.tail r.head) in
    let n = at_most (length vs) room in
    (n, record r { buf = write_from r.cap r.buf r.tail vs n; tail = add_size r.tail n })

-- The items that `f` is called on, in order.
pub read_from : ℕ → List ℕ → ℕ → ℕ → List ℕ
read_from cap buf pos zero = []
read_from cap buf pos (suc n) = get_or buf (pos % 2 ^ 64 % cap) 0 ∷ read_from cap buf (pos + 1) n

pub drain : SpscRing → ℕ → List ℕ × SpscRing
unfolding read_from
drain r max =
    let n = at_most (sub_size r.tail r.head) max in
    (read_from r.cap r.buf r.head n, record r { head = add_size r.head n })

abbrev pub contiguous_count : SpscRing → ℕ → ℕ
contiguous_count r max =
    let n = at_most (sub_size r.tail r.head) (r.cap - r.head % r.cap) in
    if ltb max n then max else n

pub drain_contiguous : SpscRing → ℕ → List ℕ × SpscRing
drain_contiguous r max = if sub_size r.tail r.head == 0 then ([], r) else (
  slice r.buf (r.head % r.cap) (contiguous_count r max),
  record r { head = add_size r.head (contiguous_count r max) },
)

pub is_empty : SpscRing → Bool
is_empty r = r.head == r.tail

pub size_approx : SpscRing → ℕ
size_approx r = if leb r.head r.tail then r.tail - r.head else 0
