-- ===== src/Core/IoBuffer/Grow.antt =====
-- The well-formed buffers, and `grow`.
use affini_x.Base.{
  ℕ, zero, suc, ◌+◌, ◌*◌, ◌%◌, ◌^◌, ◌≤◌, ◌<◌, ◌≡◌, refl, sym, ap, ◌∙◌, max, true, some, List, arith,
  ltb, ◌==◌, if◌then◌else◌, length, splice, slice, replicate, length-splice, length-slice,
  slice-splice_self, length-replicate, dec_lt,
}
use affini_x.Core.IoBuffer.{IoBuffer, create, readable, copy_to, doubled, grown_cap, grow, add_size}

-- Every index that the code computes lies inside the allocation.
pub record InBounds (b : IoBuffer) : Type 0 where
  pub allocated : length b.buf ≡ b.cap
  pub room : b.headroom < b.cap
  pub ends : b.start + b.size ≤ b.cap

-- No header stands in the headroom.
pub record IsValid (b : IoBuffer) : Type 0 where
  pub bounds : InBounds b
  pub starts : b.headroom ≤ b.start

pub create-IsValid : (cap headroom : ℕ) → headroom + 1 < 2 ^ 64 → IsValid (create cap headroom)
unfolding create
create-IsValid cap headroom h = record {
  bounds = record {
    allocated = length-replicate (max cap (add_size headroom 1)) 0;
    room = omega (arith, h);
    ends = omega (arith, h);
  };
  starts = omega arith;
}

pub copy_to-fits :
    (buf : List ℕ) (i : ℕ) (xs : List ℕ)
    → i + length xs ≤ length buf
    → copy_to buf i xs ≡ some (splice buf i xs)
unfolding copy_to
copy_to-fits buf i xs h = ground arith

pub length-readable : (b : IoBuffer) → InBounds b → length (readable b) ≡ b.size
length-readable b v = length-slice b.buf b.start b.size (omega (arith, v.allocated, v.ends))

times_two : ℕ → ℕ → ℕ
times_two zero c = c
times_two (suc n) c = times_two n (c * 2)

-- Below 2^63 the doubling does not wrap, and it ends at a capacity that is enough.
doubled_lem :
    (fuel ncap need : ℕ)
    → ncap < 2 ^ 64
    → need ≤ 2 ^ 63
    → need ≤ times_two fuel ncap
    → (k : ℕ) × (doubled (suc fuel) ncap need ≡ some k) × (need ≤ k) × (k < 2 ^ 64)
unfolding doubled times_two
doubled_lem zero ncap need p q h = (ncap, ground (arith, h), h, p)
doubled_lem (suc fuel) ncap need p q h = elim (dec_lt ncap need) [
  | no enough ↦ (ncap, ground (arith, enough), omega (arith, enough), p)
  | yes less ↦
      let w : ncap * 2 % 2 ^ 64 ≡ ncap * 2 = omega (arith, less, q) in
      let (k, d, big, fit) = doubled_lem fuel (ncap * 2) need (omega (arith, less, q)) q h in
      let t : ltb ncap need ≡ true = ground (arith, less) in
      (k, rw t (ap (λ c. doubled (suc fuel) c need) w ∙ d), big, fit)
]

grown_cap_lem :
    (b : IoBuffer) (need : ℕ)
    → 0 < b.cap
    → b.cap < need
    → need ≤ 2 ^ 63
    → (k : ℕ) × (grown_cap b need ≡ some k) × (need ≤ k) × (k < 2 ^ 64)
unfolding grown_cap times_two
grown_cap_lem b need p less q =
    let start : (if b.cap == 0 then 64 else b.cap * 2 % 2 ^ 64) ≡ b.cap * 2 =
      doubles b.cap p (omega (arith, less, q)) in
    let (k, d, big, fit) =
      doubled_lem 64 (b.cap * 2) need (omega (arith, less, q)) q (omega (arith, p, q)) in
    (k, ap (λ c. doubled 65 c need) start ∙ d, big, fit)
  where
    doubles : (c : ℕ) → 0 < c → c < 2 ^ 63 → (if c == 0 then 64 else c * 2 % 2 ^ 64) ≡ c * 2
    doubles c p q = ground arith

-- `grow` keeps the bytes, and moves them to the headroom.
pub grow_lem :
    (b : IoBuffer) (need : ℕ)
    → InBounds b
    → b.headroom + b.size ≤ need
    → b.cap < need
    → need ≤ 2 ^ 63
    → (b' : IoBuffer) × (grow b need ≡ some b')
      × IsValid b'
      × (readable b' ≡ readable b)
      × (need ≤ b'.cap)
      × (b'.start ≡ b.headroom)
      × (b'.size ≡ b.size)
      × (b'.headroom ≡ b.headroom)
      × (b'.cap < 2 ^ 64)
unfolding grow
grow_lem b need v h less q =
    let (ncap, g, big, below) = grown_cap_lem b need (omega (arith, v.room)) less q in
    let nb : List ℕ = replicate ncap 0 in
    let long : length nb ≡ ncap = length-replicate ncap 0 in
    let n = length-readable b v in
    let fit : b.headroom + length (readable b) ≤ length nb = omega (arith, long, n, big, h) in
    let same = slice-splice_self nb (readable b) b.headroom fit in
    (
      record b { buf = splice nb b.headroom (readable b); cap = ncap; start = b.headroom },
      rw g (rw (copy_to-fits nb b.headroom (readable b) fit) refl),
      record {
        bounds = record {
          allocated = length-splice nb b.headroom (readable b) fit ∙ long;
          room = omega (arith, big, less, v.room);
          ends = omega (arith, big, h);
        };
        starts = omega arith;
      },
      ap (slice (splice nb b.headroom (readable b)) b.headroom) (sym n) ∙ same,
      big,
      refl,
      refl,
      refl,
      below,
    )
