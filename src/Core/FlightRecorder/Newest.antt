-- ===== src/Core/FlightRecorder/Newest.antt =====
-- A snapshot holds the newest records.
use affini_x.Base.{
  ℕ, zero, suc, ◌+◌, ◌-◌, ◌%◌, ◌^◌, ◌<◌, min, ◌≡◌, ◌≢◌, refl, ap, ◌∙◌, List, [], ◌∷◌, arith, ltb,
  if◌then◌else◌, length, get_or, set, length-set, length-replicate,
}
use affini_x.Core.FlightRecorder.{
  FlightRecord, FlightRecorder, recorder_capacity, no_record, create, add_record, recorded,
  read_ring, snapshot,
}

module _ {ℓ} {A : Type ℓ} where
  get_or-set_self : (xs : List A) (i : ℕ) (v d : A) → i < length xs → get_or (set xs i v) i d ≡ v
  get_or-set_self [] i v d h = absurd (omega arith)
  get_or-set_self (x ∷ xs) zero v d h = refl
  get_or-set_self (x ∷ xs) (suc i) v d h = get_or-set_self xs i v d (omega arith)

  get_or-set_ne :
      (xs : List A) (i j : ℕ) (v d : A) → i ≢ j → get_or (set xs i v) j d ≡ get_or xs j d
  get_or-set_ne [] i j v d h = refl
  get_or-set_ne (x ∷ xs) zero zero v d h = absurd (h refl)
  get_or-set_ne (x ∷ xs) zero (suc j) v d h = refl
  get_or-set_ne (x ∷ xs) (suc i) zero v d h = refl
  get_or-set_ne (x ∷ xs) (suc i) (suc j) v d h = get_or-set_ne xs i j v d (λ e. h (ap suc e))

pub add_records : List FlightRecord → FlightRecorder → FlightRecorder
add_records [] r = r
add_records (e ∷ es) r = add_record e (add_records es r)

-- The ring holds the newest of the records `es`, which stand with the newest first.
record Holds (r : FlightRecorder) (es : List FlightRecord) : Type 0 where
  slots : length r.ring ≡ recorder_capacity
  counted : r.head ≡ length es
  newest :
      (j : ℕ)
      → j < length es
      → j < recorder_capacity
      → get_or r.ring ((length es - 1 - j) % recorder_capacity) no_record ≡ get_or es j no_record

ring_apart :
    (head n j : ℕ) → head ≡ n → suc j < suc n → suc j < 4096 → head % 4096 ≢ (n - 1 - j) % 4096
ring_apart head n j e lt small = λ same. omega (arith, e, lt, small, same)

add_record-Holds :
    (r : FlightRecorder) (es : List FlightRecord) (e : FlightRecord)
    → length es + 1 < 2 ^ 64
    → Holds r es
    → Holds (add_record e r) (e ∷ es)
unfolding add_record
add_record-Holds r es e few w = record {
  slots = length-set r.ring (r.head % recorder_capacity) e ∙ w.slots;
  counted = omega (arith, w.counted);
  newest = kept;
}
  where
    kept :
        (j : ℕ)
        → j < suc (length es)
        → j < recorder_capacity
        → get_or
            (set r.ring (r.head % recorder_capacity) e)
            ((suc (length es) - 1 - j) % recorder_capacity)
            no_record
          ≡ get_or (e ∷ es) j no_record
    kept zero lt small =
        let i : (suc (length es) - 1 - 0) % recorder_capacity ≡ r.head % recorder_capacity =
          omega (arith, w.counted) in
        rw i
          (get_or-set_self r.ring (r.head % recorder_capacity) e no_record (omega (arith, w.slots)))
    kept (suc j) lt small =
        let i : (suc (length es) - 1 - suc j) % recorder_capacity
            ≡ (length es - 1 - j) % recorder_capacity =
          omega arith in
        rw i (
          get_or-set_ne r.ring (r.head % recorder_capacity)
            ((length es - 1 - j) % recorder_capacity) e no_record
            (ring_apart r.head (length es) j w.counted lt small)
          ∙ w.newest j (omega arith) (omega arith))

add_records-Holds : (es : List FlightRecord) → length es < 2 ^ 64 → Holds (add_records es create) es
unfolding add_records create
add_records-Holds [] few = record {
  slots = length-replicate recorder_capacity no_record;
  counted = refl;
  newest = λ j lt small. absurd (omega (arith, lt));
}
add_records-Holds (e ∷ es) few =
    add_record-Holds (add_records es create) es e (omega arith) (add_records-Holds es (omega arith))

length-read_ring : (ring : List FlightRecord) (pos n : ℕ) → length (read_ring ring pos n) ≡ n
unfolding read_ring
length-read_ring ring pos zero = refl
length-read_ring ring pos (suc n) = ap suc (length-read_ring ring (pos + 1) n)

get_or-read_ring :
    (ring : List FlightRecord) (pos n i : ℕ)
    → i < n
    → get_or (read_ring ring pos n) i no_record
      ≡ get_or ring ((pos + i) % recorder_capacity) no_record
unfolding read_ring
get_or-read_ring ring pos zero i lt = absurd (omega arith)
get_or-read_ring ring pos (suc n) zero lt =
    let e : pos ≡ pos + 0 = omega arith in ap (λ k. get_or ring (k % recorder_capacity) no_record) e
get_or-read_ring ring pos (suc n) (suc i) lt =
    let e : pos + 1 + i ≡ pos + suc i = omega arith in
    get_or-read_ring ring (pos + 1) n i (omega arith)
    ∙ ap (λ k. get_or ring (k % recorder_capacity) no_record) e

snapshot-read_ring :
    (r : FlightRecorder) (m cap n : ℕ)
    → r.head ≡ m
    → n ≡ min (min m recorder_capacity) cap
    → snapshot r cap ≡ read_ring r.ring (m - n) n
unfolding snapshot recorded
snapshot-read_ring r m cap n e f =
    let k : (if ltb cap (recorded r) then cap else recorded r) ≡ n = ground (arith, e, f) in
    rw k (ap (λ x. read_ring r.ring (x - n) n) e)

-- After any records, fewer than 2^64, a snapshot holds as many as were made, as it has room for, or as
-- the ring keeps, whichever is least; and these are the newest ones, the oldest of them first.
pub snapshot_lem :
    (es : List FlightRecord) (cap n i : ℕ)
    → length es < 2 ^ 64
    → n ≡ min (min (length es) recorder_capacity) cap
    → i < n
    → (length (snapshot (add_records es create) cap) ≡ n)
      × (get_or (snapshot (add_records es create) cap) i no_record
          ≡ get_or es (n - 1 - i) no_record)
snapshot_lem es cap n i few size lt =
    let w = add_records-Holds es few in
    let r = add_records es create in
    let place : length es - n + i ≡ length es - 1 - (n - 1 - i) = omega (arith, size, lt) in
    rw (snapshot-read_ring r (length es) cap n w.counted size) (
      length-read_ring r.ring (length es - n) n,
      get_or-read_ring r.ring (length es - n) n i lt
          ∙ ap (λ k. get_or r.ring (k % recorder_capacity) no_record) place
          ∙ w.newest (n - 1 - i) (omega (arith, size, lt)) (omega (arith, size, lt)),
    )
