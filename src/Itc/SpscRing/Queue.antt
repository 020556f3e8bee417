-- ===== src/Itc/SpscRing/Queue.antt =====
-- A valid ring is a bounded queue; every index lies in the buffer, also when the positions wrap.
use Prim.Native.Nat.{◌∣◌}
use native.Mathlib.Nat.{mod-add-mod, mod-mod_of_dvd, mod-lt}
use mathlib.Core.List.{append-nil, append_assoc}
use affini_x.Base.{
  ℕ, zero, suc, ◌+◌, ◌-◌, ◌%◌, ◌^◌, ◌≤◌, ◌<◌, ◌≡◌, refl, sym, ap, ap₂, ◌∙◌, true, false, List, [],
  ◌∷◌, ◌++◌, arith, ltb, leb, ◌==◌, if◌then◌else◌, length, get_or, set, take, drop, dec_lt,
  length-set, ℕ_discrete, min, length-replicate, ◌↔◌,
}
use affini_x.Itc.SpscRing.Window.{
  window, length-window, window_cong, take-window, drop-window, window-set, slice-window,
}
use affini_x.Itc.SpscRing.{
  SpscRing, create, try_push, try_push_bulk, write_from, read_from, drain, drain_contiguous,
  contiguous_count, at_most, is_empty, add_size, sub_size, index,
}

abbrev pub size : SpscRing → ℕ
size r = sub_size r.tail r.head

pub record IsValid (r : SpscRing) : Type 0 where
  pub divides : r.cap ∣ 2 ^ 64
  pub positive : 0 < r.cap
  pub storage : length r.buf ≡ r.cap
  pub within : r.cap ≤ 2 ^ 63
  pub head_fits : r.head < 2 ^ 64
  pub tail_fits : r.tail < 2 ^ 64
  pub bounded : size r ≤ r.cap

-- The queued items, oldest first.
abbrev pub contents : SpscRing → List ℕ
contents r = window r.buf r.cap r.head (size r)

-- `f` of the items in (pos, pos + n): the positions may pass 2^64.
pub read_from-window :
    (cap : ℕ) (buf : List ℕ) (pos n : ℕ)
    → cap ∣ 2 ^ 64
    → read_from cap buf pos n ≡ window buf cap pos n
unfolding read_from
read_from-window cap buf pos zero d = refl
read_from-window cap buf pos (suc n) d =
    ap₂ ◌∷◌ (ap (λ i. get_or buf i 0) (mod-mod_of_dvd cap pos d))
      (read_from-window cap buf (pos + 1) n d)

tail_index : (r : SpscRing) → IsValid r → index r r.tail ≡ (r.head + size r) % r.cap
tail_index r v =
    let whole : r.tail ≡ (r.head + size r) % 2 ^ 64 = omega (arith, v.head_fits, v.tail_fits) in
    mod-mod_of_dvd r.cap r.tail v.divides
    ∙ ap (λ t. t % r.cap) whole
    ∙ mod-mod_of_dvd r.cap (r.head + size r) v.divides

-- The code's condition: there is room exactly while fewer than `cap` items are queued. The item goes
-- to the end; a full ring is left as it was. Either way the ring stays valid.
pub try_push_lem :
    (r : SpscRing) (v : ℕ)
    → IsValid r
    → ((try_push r v).0 ≡ ltb (length (contents r)) r.cap)
      × (contents (try_push r v).1
          ≡ (if ltb (length (contents r)) r.cap then contents r ++ v ∷ [] else contents r))
      × IsValid (try_push r v).1
unfolding try_push
try_push_lem r v w =
    let n = length-window r.buf r.cap r.head (size r) in
    elim (dec_lt (size r) r.cap) [
      | no full ↦
          let t : leb r.cap (size r) ≡ true = ground arith in
          let u : ltb (length (contents r)) r.cap ≡ false = ground (arith, n) in
          rw t (rw u (refl, refl, w))
      | yes room ↦
          let t : leb r.cap (size r) ≡ false = ground arith in
          let u : ltb (length (contents r)) r.cap ≡ true = ground (arith, n) in
          let grown : sub_size (add_size r.tail 1) r.head ≡ suc (size r) =
            omega (arith, w.head_fits, w.tail_fits, w.within) in
          let buf' = set r.buf (index r r.tail) v in
          rw t (
            rw u (
              refl,
              ap (window buf' r.cap r.head) grown
                  ∙ window-set r.buf r.cap r.head (size r) v (index r r.tail) w.storage room
                      (tail_index r w),
              record {
                divides = w.divides;
                positive = w.positive;
                storage = length-set r.buf (index r r.tail) v ∙ w.storage;
                within = w.within;
                head_fits = w.head_fits;
                tail_fits = omega arith;
                bounded = omega (arith, grown);
              },
            ))
    ]

-- What taking `n` items from the front does.
taken :
    (r : SpscRing) (n : ℕ)
    → IsValid r
    → n ≤ size r
    → let r' : SpscRing = record r { head = add_size r.head n } in
      (contents r' ≡ drop n (contents r)) × IsValid r'
taken r n w h =
    let left : sub_size r.tail (add_size r.head n) ≡ size r - n =
      omega (arith, w.head_fits, w.tail_fits) in
    (
      ap (window r.buf r.cap (add_size r.head n)) left
          ∙ window_cong r.buf r.cap (add_size r.head n) (r.head + n) (size r - n)
              (mod-mod_of_dvd r.cap (r.head + n) w.divides)
          ∙ sym (
              drop-window r.buf r.cap n r.head (size r) (size r - n) (r.head + n) (omega arith)
                refl),
      record {
        divides = w.divides;
        positive = w.positive;
        storage = w.storage;
        within = w.within;
        head_fits = omega arith;
        tail_fits = w.tail_fits;
        bounded = omega (arith, left, w.bounded);
      },
    )

-- `drain` hands over the oldest items in order, `max` at most, and leaves the others.
pub drain_lem :
    (r : SpscRing) (max : ℕ)
    → IsValid r
    → let n = min (length (contents r)) max in
      ((drain r max).0 ≡ take n (contents r))
      × (contents (drain r max).1 ≡ drop n (contents r))
      × IsValid (drain r max).1
unfolding drain
drain_lem r max w =
    let m = at_most (size r) max in
    let e : min (length (contents r)) max ≡ m =
      ground (arith, length-window r.buf r.cap r.head (size r)) in
    let p = taken r m w (ground arith) in
    rw e (
      read_from-window r.cap r.buf r.head m w.divides
          ∙ sym (take-window r.buf r.cap m r.head (size r) (ground arith)),
      p.0,
      p.1,
    )

-- `drain_contiguous` hands over the oldest items in order, up to `max` and to the end of the buffer.
pub drain_contiguous_lem :
    (r : SpscRing) (max : ℕ)
    → IsValid r
    → let n = min (min (length (contents r)) (r.cap - r.head % r.cap)) max in
      ((drain_contiguous r max).0 ≡ take n (contents r))
      × (contents (drain_contiguous r max).1 ≡ drop n (contents r))
      × IsValid (drain_contiguous r max).1
unfolding drain_contiguous
drain_contiguous_lem r max w =
    let m = contiguous_count r max in
    let off = r.head % r.cap in
    let len = length-window r.buf r.cap r.head (size r) in
    let e : min (min (length (contents r)) (r.cap - off)) max ≡ m = ground (arith, len) in
    let small : off < r.cap = mod-lt r.head w.positive in
    elim (ℕ_discrete (size r) 0) [
      | yes none_left ↦
          let t : (size r == 0) ≡ true = ground arith in
          let z : min (min (length (contents r)) (r.cap - off)) max ≡ 0 = omega (arith, len) in
          rw t (rw z (refl, refl, w))
      | no some_left ↦
          let t : (size r == 0) ≡ false = ground arith in
          let p = taken r m w (ground arith) in
          rw t (
            rw e (
              slice-window r.buf r.cap r.head m off w.storage refl (ground arith)
                  ∙ sym (take-window r.buf r.cap m r.head (size r) (ground arith)),
              p.0,
              p.1,
            ))
    ]

same_window :
    (buf : List ℕ) (cap head k m : ℕ) → k ≡ m → window buf cap head k ≡ window buf cap head m ++ []
same_window buf cap head k m e =
    ap (window buf cap head) e ∙ sym (append-nil (window buf cap head m))

next : (head m cap : ℕ) → (head + m + 1) % cap ≡ (head + suc m) % cap
next head m cap = ap (λ k. k % cap) (moved head m)
  where
    moved : (a b : ℕ) → a + b + 1 ≡ a + suc b
    moved a b = omega arith

write_from_lem :
    (cap : ℕ) (buf vs : List ℕ) (pos head m n k : ℕ)
    → cap ∣ 2 ^ 64
    → length buf ≡ cap
    → k ≡ m + n
    → k ≤ cap
    → n ≤ length vs
    → pos % cap ≡ (head + m) % cap
    → (window (write_from cap buf pos vs n) cap head k ≡ window buf cap head m ++ take n vs)
      × (length (write_from cap buf pos vs n) ≡ cap)
unfolding write_from
write_from_lem cap buf [] pos head m zero k d l e h f p =
    (same_window buf cap head k m (omega arith), l)
write_from_lem cap buf [] pos head m (suc n) k d l e h f p = absurd (omega arith)
write_from_lem cap buf (v ∷ vs) pos head m zero k d l e h f p =
    (same_window buf cap head k m (omega arith), l)
write_from_lem cap buf (v ∷ vs) pos head m (suc n) k d l e h f p =
    let i = pos % 2 ^ 64 % cap in
    let at : i ≡ (head + m) % cap = mod-mod_of_dvd cap pos d ∙ p in
    let r =
      write_from_lem cap (set buf i v) vs (pos + 1) head (suc m) n k d (length-set buf i v ∙ l)
        (omega arith) h (omega arith)
        (sym (mod-add-mod pos cap 1)
          ∙ ap (λ x. (x + 1) % cap) p
          ∙ mod-add-mod (head + m) cap 1
          ∙ next head m cap) in
    (
      r.0
          ∙ ap (λ w. w ++ take n vs) (window-set buf cap head m v i l (omega arith) at)
          ∙ append_assoc (window buf cap head m) (v ∷ []) (take n vs),
      r.1,
    )

-- A bulk push takes the longest prefix for which there is room, and appends it.
pub try_push_bulk_lem :
    (r : SpscRing) (vs : List ℕ)
    → IsValid r
    → let n = min (length vs) (r.cap - length (contents r)) in
      ((try_push_bulk r vs).0 ≡ n)
      × (contents (try_push_bulk r vs).1 ≡ contents r ++ take n vs)
      × IsValid (try_push_bulk r vs).1
unfolding try_push_bulk
try_push_bulk_lem r vs w =
    let len = length-window r.buf r.cap r.head (size r) in
    let room = sub_size r.cap (size r) in
    let free : room ≡ r.cap - size r = omega (arith, w.bounded, w.within) in
    let m = at_most (length vs) room in
    let e : min (length vs) (r.cap - length (contents r)) ≡ m = ground (arith, len, free) in
    let bound : size r + m ≤ r.cap = ground (arith, free, w.bounded) in
    let grown : sub_size (add_size r.tail m) r.head ≡ size r + m =
      omega (arith, w.head_fits, w.tail_fits, w.within, bound) in
    let p =
      write_from_lem r.cap r.buf vs r.tail r.head (size r) m (size r + m) w.divides w.storage refl
        bound (ground arith) (sym (mod-mod_of_dvd r.cap r.tail w.divides) ∙ tail_index r w) in
    rw e (
      refl,
      ap (window (write_from r.cap r.buf r.tail vs m) r.cap r.head) grown ∙ p.0,
      record {
        divides = w.divides;
        positive = w.positive;
        storage = p.1;
        within = w.within;
        head_fits = w.head_fits;
        tail_fits = omega arith;
        bounded = omega (arith, grown, bound);
      },
    )

pub create-IsValid : (cap : ℕ) → cap ∣ 2 ^ 64 → 0 < cap → cap ≤ 2 ^ 63 → IsValid (create cap)
unfolding create
create-IsValid cap d p h = record {
  divides = d;
  positive = p;
  storage = length-replicate cap 0;
  within = h;
  head_fits = omega arith;
  tail_fits = omega arith;
  bounded = omega arith;
}

-- `empty` tells the truth.
pub is_empty_iff : (r : SpscRing) → IsValid r → (is_empty r ≡ true) ↔ (contents r ≡ [])
unfolding is_empty
is_empty_iff r w = (
  λ e.
      let z : size r ≡ 0 = ground (arith, w.head_fits, w.tail_fits) in
      ap (window r.buf r.cap r.head) z,
  λ e.
      let z : size r ≡ 0 = sym (length-window r.buf r.cap r.head (size r)) ∙ ap length e in
      ground (arith, w.head_fits, w.tail_fits),
)
