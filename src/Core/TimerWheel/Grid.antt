-- ===== src/Core/TimerWheel/Grid.antt =====
-- The buckets as a grid: what holds of each node, and sums of a weight over all of them.
use affini_x.Base.{
  ℕ, zero, suc, ◌+◌, ◌≤◌, ◌<◌, ◌≡◌, refl, ap, ◌≢◌, List, [], ◌∷◌, ◌++◌, arith, length, All, eq→==,
  ne→==, ℕ_discrete,
}
use affini_x.Core.TimerWheel.{
  Node, Buckets, Wheel, place, put, levels, slots_per_level, gather_slots, gather,
}

abbrev pub Each : (ℕ → ℕ → Node → Type 0) → Buckets → Type 0
Each P b = (l j : ℕ) → All (P l j) (b l j)

pub All-append : (P : Node → Type 0) (xs ys : List Node) → All P xs → All P ys → All P (xs ++ ys)
All-append P [] ys hx hy = hy
All-append P (x ∷ xs) ys hx hy = (hx.0, All-append P xs ys hx.1 hy)

pub All-map :
    {P Q : Node → Type 0} (xs : List Node) → ((n : Node) → P n → Q n) → All P xs → All Q xs
All-map [] f h = tt
All-map (x ∷ xs) f h = (f x h.0, All-map xs f h.1)

pub Each-place :
    (P : ℕ → ℕ → Node → Type 0) (b : Buckets) (l j : ℕ) (ns : List Node)
    → Each P b
    → All (P l j) ns
    → Each P (place b l j ns)
Each-place P b l j ns h k l' j' = elim (ℕ_discrete l l') [
  | yes e ↦ elim (ℕ_discrete j j') [
    | yes f ↦ rw (eq→== l l' e, eq→== j j' f) (rw (← e, ← f) k)
    | no f ↦ rw (eq→== l l' e, ne→== j j' f) (h l' j')
  ]
  | no e ↦ rw (ne→== l l' e) (h l' j')
]

pub Each-put :
    (P : ℕ → ℕ → Node → Type 0) (w : Wheel) (l j : ℕ) (n : Node)
    → Each P w.buckets
    → P l j n
    → Each P (put w l j n).buckets
Each-put P w l j n h p =
    Each-place P w.buckets l j (w.buckets l j ++ n ∷ []) h
      (All-append (P l j) (w.buckets l j) (n ∷ []) (h l j) (p, tt))

module _ (f : Node → ℕ) where
  abbrev pub weigh : List Node → ℕ
  weigh [] = 0
  weigh (n ∷ ns) = f n + weigh ns

  pub weigh-append : (xs ys : List Node) → weigh (xs ++ ys) ≡ weigh xs + weigh ys
  weigh-append [] ys = omega arith
  weigh-append (x ∷ xs) ys = omega (arith, weigh-append xs ys)

  row : Buckets → ℕ → ℕ → ℕ
  row b l zero = 0
  row b l (suc j) = row b l j + weigh (b l j)

  rows : Buckets → ℕ → ℕ
  rows b zero = 0
  rows b (suc l) = rows b l + row b l slots_per_level

  -- The weight of all that is queued.
  pub total : Buckets → ℕ
  total b = rows b levels

  row-place_ne :
      (b : Buckets) (l j k n : ℕ) (ns : List Node) → l ≢ k → row (place b l j ns) k n ≡ row b k n
  unfolding row
  row-place_ne b l j k zero ns h = refl
  row-place_ne b l j k (suc n) ns h =
      rw (ne→== l k h) (ap (λ s. s + weigh (b k n)) (rw (← row-place_ne b l j k n ns h) refl))

  row-place_above :
      (b : Buckets) (l j n : ℕ) (ns : List Node) → n ≤ j → row (place b l j ns) l n ≡ row b l n
  unfolding row
  row-place_above b l j zero ns h = refl
  row-place_above b l j (suc n) ns h =
      ground (arith, row-place_above b l j n ns (omega arith), eq→== l l refl)

  row-place :
      (b : Buckets) (l j n : ℕ) (ns : List Node)
      → j < n
      → row (place b l j ns) l n + weigh (b l j) ≡ row b l n + weigh ns
  unfolding row
  row-place b l j zero ns h = absurd (omega arith)
  row-place b l j (suc n) ns h = elim (ℕ_discrete j n) [
    | yes e ↦ ground (arith, row-place_above b l j n ns (omega arith), ap (b l) e)
    | no e ↦ ground (arith, row-place b l j n ns (omega arith))
  ]

  rows-place_above :
      (b : Buckets) (l j m : ℕ) (ns : List Node) → m ≤ l → rows (place b l j ns) m ≡ rows b m
  unfolding rows
  rows-place_above b l j zero ns h = refl
  rows-place_above b l j (suc m) ns h = omega (
    arith,
    rows-place_above b l j m ns (omega arith),
    row-place_ne b l j m slots_per_level ns (omega arith),
  )

  rows-place :
      (b : Buckets) (l j m : ℕ) (ns : List Node)
      → j < slots_per_level
      → l < m
      → rows (place b l j ns) m + weigh (b l j) ≡ rows b m + weigh ns
  unfolding rows
  rows-place b l j zero ns k h = absurd (omega arith)
  rows-place b l j (suc m) ns k h = elim (ℕ_discrete l m) [
    | yes e ↦ ground (
      arith,
      rows-place_above b l j m ns (omega arith),
      row-place b l j slots_per_level ns k,
      ap (λ x. row (place b l j ns) x slots_per_level) e,
      ap (λ x. row b x slots_per_level) e,
    )
    | no e ↦
        omega
          (arith, rows-place b l j m ns k (omega arith), row-place_ne b l j m slots_per_level ns e)
  ]

  -- Replacing one bucket changes the total by the difference of the two lists.
  pub total-place :
      (b : Buckets) (l j : ℕ) (ns : List Node)
      → l < levels
      → j < slots_per_level
      → total (place b l j ns) + weigh (b l j) ≡ total b + weigh ns
  unfolding total
  total-place b l j ns p q = rows-place b l j levels ns q p

  pub total-put :
      (w : Wheel) (l j : ℕ) (n : Node)
      → l < levels
      → j < slots_per_level
      → total (put w l j n).buckets ≡ total w.buckets + f n
  total-put w l j n p q = omega (
    arith,
    total-place w.buckets l j (w.buckets l j ++ n ∷ []) p q,
    weigh-append (w.buckets l j) (n ∷ []),
  )

  row-empty : (n l : ℕ) → row (λ l j. []) l n ≡ 0
  unfolding row
  row-empty zero l = refl
  row-empty (suc n) l = omega (arith, row-empty n l)

  rows-empty : (m : ℕ) → rows (λ l j. []) m ≡ 0
  unfolding rows
  rows-empty zero = refl
  rows-empty (suc m) = omega (arith, rows-empty m, row-empty slots_per_level m)

  pub total-empty : total (λ l j. []) ≡ 0
  unfolding total
  total-empty = rows-empty levels

  weigh-le-row : (b : Buckets) (l j n : ℕ) → j < n → weigh (b l j) ≤ row b l n
  unfolding row
  weigh-le-row b l j zero h = absurd (omega arith)
  weigh-le-row b l j (suc n) h = elim (ℕ_discrete j n) [
    | yes e ↦ omega (arith, ap (λ x. weigh (b l x)) e)
    | no e ↦ omega (arith, weigh-le-row b l j n (omega arith))
  ]

  row-le-rows : (b : Buckets) (l m : ℕ) → l < m → row b l slots_per_level ≤ rows b m
  unfolding rows
  row-le-rows b l zero h = absurd (omega arith)
  row-le-rows b l (suc m) h = elim (ℕ_discrete l m) [
    | yes e ↦ omega (arith, ap (λ x. row b x slots_per_level) e)
    | no e ↦ omega (arith, row-le-rows b l m (omega arith))
  ]

  pub weigh-le-total :
      (b : Buckets) (l j : ℕ) → l < levels → j < slots_per_level → weigh (b l j) ≤ total b
  unfolding total
  weigh-le-total b l j p q =
      omega (arith, weigh-le-row b l j slots_per_level q, row-le-rows b l levels p)

add_zero : (n : ℕ) → n ≡ n + 0
add_zero n = omega arith

add_one : (n : ℕ) → n + 1 ≡ suc n
add_one n = omega arith

add_suc : (j n : ℕ) → j + 1 + n ≡ j + suc n
add_suc j n = omega arith

zero_add : (n : ℕ) → 0 + n ≡ n
zero_add n = omega arith

module _ (f : Node → ℕ) where
  gather_slots-weigh :
      (b : Buckets) (l n j : ℕ) → weigh f (gather_slots b l n j) + row f b l j ≡ row f b l (j + n)
  unfolding gather_slots row
  gather_slots-weigh b l zero j = omega (arith, ap (row f b l) (add_zero j))
  gather_slots-weigh b l (suc n) j = omega (
    arith,
    weigh-append f (b l j) (gather_slots b l n (j + 1)),
    gather_slots-weigh b l n (j + 1),
    ap (row f b l) (add_one j),
    ap (row f b l) (add_suc j n),
  )

  row_zero : (b : Buckets) (l : ℕ) → row f b l 0 ≡ 0
  unfolding row
  row_zero b l = refl

  row_gathered :
      (b : Buckets) (l : ℕ)
      → weigh f (gather_slots b l slots_per_level 0) ≡ row f b l slots_per_level
  row_gathered b l = omega (arith, gather_slots-weigh b l slots_per_level 0, row_zero b l)

  gather-weigh : (b : Buckets) (m l : ℕ) → weigh f (gather b m l) + rows f b l ≡ rows f b (l + m)
  unfolding gather rows
  gather-weigh b zero l = omega (arith, ap (rows f b) (add_zero l))
  gather-weigh b (suc m) l = omega (
    arith,
    weigh-append f (gather_slots b l slots_per_level 0) (gather b m (l + 1)),
    gather-weigh b m (l + 1),
    row_gathered b l,
    ap (rows f b) (add_one l),
    ap (rows f b) (add_suc l m),
  )

  rows_zero : (b : Buckets) → rows f b 0 ≡ 0
  unfolding rows
  rows_zero b = refl

  -- All queued nodes are gathered, each once.
  pub gather-total : (b : Buckets) → weigh f (gather b levels 0) ≡ total f b
  unfolding total
  gather-total b = omega (arith, gather-weigh b levels 0, rows_zero b)

pub gather_slots-All :
    (P : Node → Type 0) (b : Buckets) (l n j : ℕ) → Each (λ l j. P) b → All P (gather_slots b l n j)
unfolding gather_slots
gather_slots-All P b l zero j h = tt
gather_slots-All P b l (suc n) j h =
    All-append P (b l j) (gather_slots b l n (j + 1)) (h l j) (gather_slots-All P b l n (j + 1) h)

pub gather-All :
    (P : Node → Type 0) (b : Buckets) (m l : ℕ) → Each (λ l j. P) b → All P (gather b m l)
unfolding gather
gather-All P b zero l h = tt
gather-All P b (suc m) l h =
    All-append P (gather_slots b l slots_per_level 0) (gather b m (l + 1))
      (gather_slots-All P b l slots_per_level 0 h) (gather-All P b m (l + 1) h)

-- The number of queued nodes.
abbrev pub one : Node → ℕ
one n = 1

pub weigh-one : (ns : List Node) → weigh one ns ≡ length ns
weigh-one [] = refl
weigh-one (n ∷ ns) = omega (arith, weigh-one ns)
