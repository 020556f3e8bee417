-- ===== src/Core/IoBuffer/Queue.antt =====
-- The buffer as a queue of bytes: what is appended is read back in order, and nothing is copied out
-- of bounds, as long as no header has been put in front.
use affini_x.Base.{
  ℕ, ◌+◌, ◌-◌, ◌^◌, ◌≤◌, ◌<◌, ◌≡◌, refl, sym, ap, ◌∙◌, min, true, false, some, List, [], ◌∷◌, ◌++◌,
  arith, ltb, leb, ◌==◌, length, drop, splice, slice, length-splice, slice-splice, slice-drop,
  slice-splice_self, dec_lt, dec_le, ℕ_discrete, ne→==,
}
use affini_x.Core.IoBuffer.{
  IoBuffer, readable, compact, grow, ensure_writable, append, consume, sub_size, add_size,
}
use affini_x.Core.IoBuffer.Grow.{IsValid, copy_to-fits, length-readable, grow_lem}

drop_all : (xs : List ℕ) → drop (length xs) xs ≡ []
drop_all [] = refl
drop_all (x ∷ xs) = drop_all xs

pub compact_lem :
    (b : IoBuffer)
    → IsValid b
    → (b' : IoBuffer) × (compact b ≡ some b')
      × IsValid b'
      × (readable b' ≡ readable b)
      × (b'.start ≡ b.headroom)
      × (b'.size ≡ b.size)
      × (b'.headroom ≡ b.headroom)
      × (b'.cap ≡ b.cap)
unfolding compact
compact_lem b v = elim (ℕ_discrete b.start b.headroom) [
  | yes same ↦ (b, ground arith, v, refl, same, refl, refl, refl)
  | no moved ↦
      let n = length-readable b v.bounds in
      let fit : b.headroom + length (readable b) ≤ length b.buf =
        omega (arith, n, v.bounds.allocated, v.bounds.ends, v.starts) in
      (
        record b { buf = splice b.buf b.headroom (readable b); start = b.headroom },
        rw (ne→== b.start b.headroom moved, copy_to-fits b.buf b.headroom (readable b) fit) refl,
        record {
          bounds = record {
            allocated = length-splice b.buf b.headroom (readable b) fit ∙ v.bounds.allocated;
            room = v.bounds.room;
            ends = omega (arith, v.bounds.ends, v.starts);
          };
          starts = omega arith;
        },
        ap (slice (splice b.buf b.headroom (readable b)) b.headroom) (sym n)
            ∙ slice-splice_self b.buf (readable b) b.headroom fit,
        refl,
        refl,
        refl,
        refl,
      )
]

-- After `ensure_writable` the bytes are where they can be extended.
ensure_writable_lem :
    (b : IoBuffer) (n : ℕ)
    → IsValid b
    → b.cap < 2 ^ 64
    → b.headroom + b.size + n ≤ 2 ^ 63
    → (b' : IoBuffer) × (ensure_writable b n ≡ some b')
      × IsValid b'
      × (readable b' ≡ readable b)
      × (b'.start + b'.size + n ≤ b'.cap)
      × (b'.headroom ≡ b.headroom)
      × (b'.cap < 2 ^ 64)
unfolding ensure_writable
ensure_writable_lem b n v small few = elim (dec_le n (b.cap - b.start - b.size)) [
  | yes enough ↦
      (b, ground (arith, v.bounds.ends), v, refl, omega (arith, v.bounds.ends), refl, small)
  | no short ↦
      let (c, e, w, same, st, sz, hd, cp) = compact_lem b v in
      let t : leb n (sub_size (sub_size b.cap b.start) b.size) ≡ false =
        ground (arith, v.bounds.ends) in
      elim (dec_le n (c.cap - c.headroom - c.size)) [
        | yes enough ↦
            let u : ltb (sub_size (sub_size c.cap c.headroom) c.size) n ≡ false =
              ground (arith, w.bounds.ends, w.starts) in
            (
              c,
              rw t (rw e (rw u refl)),
              w,
              same,
              omega (arith, w.bounds.ends),
              hd,
              omega (arith, cp, small),
            )
        | no still ↦
            let u : ltb (sub_size (sub_size c.cap c.headroom) c.size) n ≡ true =
              ground (arith, w.bounds.ends, w.starts) in
            let sum : add_size (add_size c.headroom c.size) n ≡ c.headroom + c.size + n =
              omega (arith, hd, sz, few) in
            let (d, f, x, same', big, st', sz', hd', below) =
              grow_lem c (c.headroom + c.size + n) w.bounds (omega arith)
                (omega (arith, still, w.bounds.ends, w.starts)) (omega (arith, hd, sz, few)) in
            (
              d,
              rw t (rw e (rw u (ap (grow c) sum ∙ f))),
              x,
              same' ∙ same,
              omega (arith, big),
              hd' ∙ hd,
              below,
            )
      ]
]

-- `writable`, a copy and `commit`: the bytes come behind those that the buffer holds, the buffer
-- stays valid, and no copy leaves the allocation, whether the buffer compacts, grows or does neither. The
-- capacity is below 2^64, and the headroom, the bytes held and the new ones are 2^63 at most together; then
-- the loop that doubles the capacity ends, and the capacity is below 2^64 again.
pub append_lem :
    (b : IoBuffer) (xs : List ℕ)
    → IsValid b
    → b.cap < 2 ^ 64
    → b.headroom + b.size + length xs ≤ 2 ^ 63
    → (b' : IoBuffer) × (append b xs ≡ some b')
      × IsValid b'
      × (readable b' ≡ readable b ++ xs)
      × (b'.headroom ≡ b.headroom)
      × (b'.cap < 2 ^ 64)
unfolding append
append_lem b xs v small few =
    let (c, e, w, same, fit, hd, below) = ensure_writable_lem b (length xs) v small few in
    let fits : c.start + c.size + length xs ≤ length c.buf = omega (arith, w.bounds.allocated) in
    (
      record c { buf = splice c.buf (c.start + c.size) xs; size = c.size + length xs },
      rw e (rw (copy_to-fits c.buf (c.start + c.size) xs fits) refl),
      record {
        bounds = record {
          allocated = length-splice c.buf (c.start + c.size) xs fits ∙ w.bounds.allocated;
          room = w.bounds.room;
          ends = omega arith;
        };
        starts = w.starts;
      },
      slice-splice c.buf c.start c.size (c.size + length xs) xs (c.start + c.size) refl refl
            (omega (arith, w.bounds.allocated))
          ∙ ap (λ r. r ++ xs) same,
      hd,
      below,
    )

-- `consume` drops the oldest bytes, all of them if there are fewer, and keeps the buffer valid.
pub consume_lem :
    (b : IoBuffer) (n : ℕ)
    → IsValid b
    → IsValid (consume b n) × (readable (consume b n) ≡ drop (min n b.size) (readable b))
unfolding consume
consume_lem b n v = elim (dec_lt n b.size) [
  | yes less ↦
      let t : (b.size - min n b.size == 0) ≡ false = ground arith in
      rw t (
        record {
          bounds = record {
            allocated = v.bounds.allocated;
            room = v.bounds.room;
            ends = omega (arith, v.bounds.ends);
          };
          starts = omega (arith, v.starts);
        },
        slice-drop b.buf b.start b.size (min n b.size) (omega arith),
      )
  | no all ↦
      let t : (b.size - min n b.size == 0) ≡ true = ground arith in
      let z : b.size - min n b.size ≡ 0 = omega arith in
      rw t (
        record {
          bounds = record {
            allocated = v.bounds.allocated;
            room = v.bounds.room;
            ends = omega (arith, v.bounds.room);
          };
          starts = omega arith;
        },
        ap (slice b.buf b.headroom) z
            ∙ sym (ap (λ k. drop k (readable b)) (least b v all) ∙ drop_all (readable b)),
      )
]
  where
    least : (b : IoBuffer) → IsValid b → ¬ (n < b.size) → min n b.size ≡ length (readable b)
    least b v all = omega (arith, length-readable b v.bounds)
