-- ===== src/Core/Histogram/Merge.antt =====
-- Shards that are merged, and the bucket of a value.
use affini_x.Base.{
  ℕ, zero, suc, ◌+◌, ◌*◌, ◌/◌, ◌%◌, ◌^◌, ◌≤◌, ◌<◌, ◌≡◌, refl, sym, ap, ap₂, ◌∙◌, List, [], ◌∷◌,
  arith, leb, max, true, false, All, dec_le, length, replicate, length-replicate,
}
use affini_x.Core.Histogram.{
  Histogram, create, highest_bit, bucket_of, bump, add_value, add_each, merge,
}

pub add_values : Histogram → List ℕ → Histogram
add_values h [] = h
add_values h (v ∷ vs) = add_values (add_value h v) vs

add_each-bump :
    (ns ms : List ℕ) (b : ℕ)
    → length ns ≡ length ms
    → add_each ns (bump ms b) ≡ bump (add_each ns ms) b
add_each-bump [] [] b e = refl
add_each-bump [] (m ∷ ms) b e = absurd (omega arith)
add_each-bump (n ∷ ns) [] b e = absurd (omega arith)
add_each-bump (n ∷ ns) (m ∷ ms) zero e =
    let h : (n + (m + 1) % 2 ^ 64) % 2 ^ 64 ≡ ((n + m) % 2 ^ 64 + 1) % 2 ^ 64 = omega arith in
    ap (λ k. k ∷ add_each ns ms) h
add_each-bump (n ∷ ns) (m ∷ ms) (suc b) e =
    ap (λ k. (n + m) % 2 ^ 64 ∷ k) (add_each-bump ns ms b (omega arith))

length-bump : (ns : List ℕ) (b : ℕ) → length (bump ns b) ≡ length ns
length-bump [] b = refl
length-bump (n ∷ ns) zero = refl
length-bump (n ∷ ns) (suc b) = ap suc (length-bump ns b)

abbrev make : List ℕ → ℕ → ℕ → ℕ → ℕ → Histogram
make b c t x n = record { buckets = b; total_count = c; total = t; max_value = x; min_value = n }

make_eq :
    (b b' : List ℕ) (c c' t t' x x' n n' : ℕ)
    → b ≡ b'
    → c ≡ c'
    → t ≡ t'
    → x ≡ x'
    → n ≡ n'
    → make b c t x n ≡ make b' c' t' x' n'
make_eq b b' c c' t t' x x' n n' e1 e2 e3 e4 e5 = rw e1 (rw e2 (rw e3 (rw e4 (rw e5 refl))))

count_swap : (a b : ℕ) → (a + (b + 1) % 2 ^ 64) % 2 ^ 64 ≡ ((a + b) % 2 ^ 64 + 1) % 2 ^ 64
count_swap a b = omega arith

total_swap : (a b v : ℕ) → (a + (b + v) % 2 ^ 64) % 2 ^ 64 ≡ ((a + b) % 2 ^ 64 + v) % 2 ^ 64
total_swap a b v = omega arith

-- Adding a value to a shard and merging it is merging the shard and adding the value.
merge-add_value :
    (h o : Histogram) (v : ℕ)
    → length h.buckets ≡ length o.buckets
    → merge h (add_value o v) ≡ add_value (merge h o) v
unfolding merge add_value
merge-add_value h o v l =
    make_eq _ _ _ _ _ _ _ _ _ _ (add_each-bump h.buckets o.buckets (bucket_of v) l)
      (count_swap h.total_count o.total_count) (total_swap h.total o.total v) (ground arith)
      (ground arith)

-- 64 buckets, and every field within its width.
pub IsFull : Histogram → Type 0
IsFull h =
    (length h.buckets ≡ 64)
    × All (λ n. n < 2 ^ 64) h.buckets
    × (h.total_count < 2 ^ 64)
    × (h.total < 2 ^ 64)
    × (h.min_value < 2 ^ 64)

merge-add_values :
    (h o : Histogram) (vs : List ℕ)
    → length h.buckets ≡ length o.buckets
    → merge h (add_values o vs) ≡ add_values (merge h o) vs
unfolding add_values add_value
merge-add_values h o [] l = refl
merge-add_values h o (v ∷ vs) l =
    merge-add_values h (add_value o v) vs (l ∙ sym (length-bump o.buckets (bucket_of v)))
    ∙ ap (λ k. add_values k vs) (merge-add_value h o v l)

add_each-zeros :
    (ns : List ℕ) (k : ℕ)
    → length ns ≡ k
    → All (λ n. n < 2 ^ 64) ns
    → add_each ns (replicate k 0) ≡ ns
unfolding replicate
add_each-zeros [] zero l w = refl
add_each-zeros [] (suc k) l w = absurd (omega arith)
add_each-zeros (n ∷ ns) zero l w = absurd (omega arith)
add_each-zeros (n ∷ ns) (suc k) l w =
    let e : (n + 0) % 2 ^ 64 ≡ n = omega (arith, w.0) in
    ap₂ (λ x xs. x ∷ xs) e (add_each-zeros ns k (omega arith) w.1)

merge-create : (h : Histogram) → IsFull h → merge h create ≡ h
unfolding merge create IsFull
merge-create h (l, w, c, t, n) =
    make_eq _ _ _ _ _ _ _ _ _ _ (add_each-zeros h.buckets 64 l w) (omega (arith, c))
      (omega (arith, t)) (ground arith) (ground (arith, n))

-- A histogram into which the shard that recorded `vs` is merged is the histogram that recorded `vs` itself.
pub merge-add_values-create :
    (h : Histogram) (vs : List ℕ) → IsFull h → merge h (add_values create vs) ≡ add_values h vs
unfolding create IsFull
merge-add_values-create h vs w =
    merge-add_values h create vs (w.0 ∙ sym (length-replicate 64 0))
    ∙ ap (λ k. add_values k vs) (merge-create h w)

highest_bit_lem :
    (b v : ℕ)
    → 0 < v
    → v < 2 ^ suc b
    → (2 ^ highest_bit b v ≤ v) × (v < 2 ^ suc (highest_bit b v)) × (highest_bit b v ≤ b)
unfolding highest_bit
highest_bit_lem zero v p h = (omega arith, h, omega arith)
highest_bit_lem (suc b) v p h = go (dec_le (2 ^ suc b) v) (λ lt. highest_bit_lem b v p lt)
  where
    go :
        Dec (2 ^ suc b ≤ v)
        → (v < 2 ^ suc b
            → (2 ^ highest_bit b v ≤ v) × (v < 2 ^ suc (highest_bit b v)) × (highest_bit b v ≤ b))
        → (2 ^ highest_bit (suc b) v ≤ v)
          × (v < 2 ^ suc (highest_bit (suc b) v))
          × (highest_bit (suc b) v ≤ suc b)
    go (yes le) ih = let e : leb (2 ^ suc b) v ≡ true = ground arith in rw e (le, h, omega arith)
    go (no lt) ih =
        let e : leb (2 ^ suc b) v ≡ false = ground arith in
        let r = ih (omega (arith, lt)) in rw e (r.0, r.1, omega (arith, r.2))

bucket_of-highest_bit : (v : ℕ) → bucket_of v ≡ highest_bit 63 (v / 2 * 2 + 1)
unfolding bucket_of
bucket_of-highest_bit v = refl

-- The lowest bit that is set changes no power of 2 below the value.
below_odd : (b v : ℕ) → 2 ^ b ≤ v / 2 * 2 + 1 → 2 ^ b ≤ max v 1
below_odd zero v h = omega arith
below_odd (suc b) v h = omega (arith, h)

-- The bucket of a 64-bit value is one of the 64, and it is the floor of the logarithm: 2 to the bucket
-- is not above the value, 1 counting for 0, and the next power of 2 is.
pub bucket_of_lem :
    (v : ℕ)
    → v < 2 ^ 64
    → (bucket_of v < 64) × (2 ^ bucket_of v ≤ max v 1) × (v < 2 ^ suc (bucket_of v))
bucket_of_lem v h =
    let r = highest_bit_lem 63 (v / 2 * 2 + 1) (omega arith) (omega (arith, h)) in
    rw (bucket_of-highest_bit v)
      (omega (arith, r.2), below_odd (highest_bit 63 (v / 2 * 2 + 1)) v r.0, omega (arith, r.1))

All-bump : (ns : List ℕ) (b : ℕ) → All (λ n. n < 2 ^ 64) ns → All (λ n. n < 2 ^ 64) (bump ns b)
All-bump [] b w = tt
All-bump (n ∷ ns) zero w = (omega arith, w.1)
All-bump (n ∷ ns) (suc b) w = (w.0, All-bump ns b w.1)

All-zeros : (k : ℕ) → All (λ n. n < 2 ^ 64) (replicate k 0)
unfolding replicate
All-zeros zero = tt
All-zeros (suc k) = (omega arith, All-zeros k)

pub create-IsFull : IsFull create
unfolding create IsFull
create-IsFull = (length-replicate 64 0, All-zeros 64, omega arith, omega arith, omega arith)

pub add_value-IsFull : (h : Histogram) (v : ℕ) → v < 2 ^ 64 → IsFull h → IsFull (add_value h v)
unfolding add_value IsFull
add_value-IsFull h v lt (l, w, c, t, n) = (
  length-bump h.buckets (bucket_of v) ∙ l,
  All-bump h.buckets (bucket_of v) w,
  omega arith,
  omega arith,
  ground (arith, n, lt),
)
