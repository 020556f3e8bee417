-- ===== src/Itc/MpscRing/Sound.antt =====
-- What holds between any two steps: the cells of one round, their owners and the consumer.
use affini_x.Base.{
  ℕ, ◌+◌, ◌%◌, ◌^◌, ◌≤◌, ◌<◌, ◌≡◌, ◌≢◌, ◌⊎◌, inl, inr, sym, ap, subst, ◌∙◌, Option, none, some,
  List, length, get_elem?, take, update, update_self, update_ne, ℕ_discrete,
}
use affini_x.Itc.MpscRing.{
  Cell, Producer, idle, looks, swaps, reloads, writes, publishes, Consumer, ready, takes, releases,
  System,
}
use affini_x.Itc.MpscRing.Word.{mod_apart}

-- The position that a producer owns.
abbrev pub owned : Producer → Option ℕ
owned (writes v p) = some p
owned (publishes v p) = some p
owned p = none

-- The first position whose cell has not been given back.
abbrev pub freed : Consumer → ℕ → ℕ
freed ready d = d
freed (takes p) d = p
freed (releases p) d = p

module _ (cap : ℕ) (cells : ℕ → Cell) (low : ℕ) (claimed : List ℕ) where
  -- The cell of a position of the round is free or owned, or holds the item of that position.
  abbrev pub CellAt : ℕ → Type 0
  CellAt p =
      ((cells (p % cap)).seq ≡ p)
      ⊎ ((p < length claimed)
          × ((cells (p % cap)).seq ≡ p + 1)
          × (get_elem? claimed p ≡ some (cells (p % cap)).item))

  abbrev pub Holds : ℕ → ℕ → Type 0
  Holds v p =
      (low ≤ p)
      × (p < low + cap)
      × (p < length claimed)
      × ((cells (p % cap)).seq ≡ p)
      × (get_elem? claimed p ≡ some v)

  -- What a producer knows.
  abbrev pub Knows : Producer → Type 0
  Knows idle = Unit
  Knows (looks v p) = p ≤ length claimed
  Knows (swaps v p) = (p ≤ length claimed) × (length claimed ≡ p → p < low + cap)
  Knows (reloads v) = Unit
  Knows (writes v p) = Holds v p
  Knows (publishes v p) = Holds v p × ((cells (p % cap)).item ≡ v)

  -- What the consumer knows of the position `deq` and of the number of items popped.
  abbrev pub Follows : Consumer → ℕ → ℕ → Type 0
  Follows ready deq n = n ≡ deq
  Follows (takes p) deq n =
      (deq ≡ p + 1) × (n ≡ p) × (p < length claimed) × ((cells (p % cap)).seq ≡ p + 1)
  Follows (releases p) deq n =
      (deq ≡ p + 1) × (n ≡ p + 1) × (p < length claimed) × ((cells (p % cap)).seq ≡ p + 1)

abbrev pub Apart : (ℕ → Producer) → Type 0
Apart f = (j k p : ℕ) → owned (f j) ≡ some p → owned (f k) ≡ some p → j ≡ k

abbrev pub low_of : System → ℕ
low_of s = freed s.consumer s.ring.deq_pos

pub record IsSound (s : System) : Type 0 where
  pub wide : 1 < s.ring.cap
  pub tail : s.ring.enq_pos ≡ length s.claimed
  pub above : low_of s ≤ length s.claimed
  pub within : length s.claimed ≤ low_of s + s.ring.cap
  pub cells :
      (p : ℕ)
      → low_of s ≤ p
      → p < low_of s + s.ring.cap
      → CellAt s.ring.cap s.ring.cells (low_of s) s.claimed p
  pub owners : (k : ℕ) → Knows s.ring.cap s.ring.cells (low_of s) s.claimed (s.producers k)
  pub apart : Apart s.producers
  pub follows :
      Follows s.ring.cap s.ring.cells
        (low_of s)
        s.claimed
        s.consumer
        s.ring.deq_pos
        (length s.popped)
  pub seqs : (i : ℕ) → i < s.ring.cap → (s.ring.cells i).seq < 2 ^ 64
  pub order : s.popped ≡ take (length s.popped) s.claimed

pub update_cases :
    {A : Type 0} (f : ℕ → A) (i : ℕ) (a : A) (j : ℕ)
    → ((i ≡ j) × (update f i a j ≡ a)) ⊎ ((i ≢ j) × (update f i a j ≡ f j))
update_cases f i a j = elim (ℕ_discrete i j) [
  | yes e ↦ inl (e, subst (λ k. update f i a k ≡ a) e (update_self f i a))
  | no h ↦ inr (h, update_ne f i j a h)
]

pub update-All :
    {A : Type 0} (P : A → Type 0) (f : ℕ → A) (i : ℕ) (a : A)
    → P a
    → ((j : ℕ) → P (f j))
    → (j : ℕ) → P (update f i a j)
update-All P f i a p h j = elim (update_cases f i a j) [
  | inl e ↦ subst P (sym e.1) p
  | inr e ↦ subst P (sym e.1) (h j)
]

-- A producer that owns what no other owns leaves the owners apart.
pub Apart-update :
    (f : ℕ → Producer) (k : ℕ) (p : Producer)
    → Apart f
    → ((j q : ℕ) → k ≢ j → owned p ≡ some q → owned (f j) ≢ some q)
    → Apart (update f k p)
Apart-update f k p a h i j q e e' = elim (update_cases f k p i) [
  | inl u ↦ elim (update_cases f k p j) [
    | inl w ↦ sym u.0 ∙ w.0
    | inr w ↦ absurd (h j q w.0 (ap owned (sym u.1) ∙ e) (ap owned (sym w.1) ∙ e'))
  ]
  | inr u ↦ elim (update_cases f k p j) [
    | inl w ↦ absurd (h i q u.0 (ap owned (sym w.1) ∙ e') (ap owned (sym u.1) ∙ e))
    | inr w ↦ a i j q (ap owned (sym u.1) ∙ e) (ap owned (sym w.1) ∙ e')
  ]
]

module _ (cap : ℕ) (cells : ℕ → Cell) (low : ℕ) (claimed : List ℕ) (pos : ℕ) (c : Cell)
    (from : low ≤ pos) (to : pos < low + cap) where
  -- A write into the cell of one position of the round leaves the other positions as they were.
  pub cell_other :
      (p : ℕ)
      → low ≤ p
      → p < low + cap
      → pos ≢ p
      → update cells (pos % cap) c (p % cap) ≡ cells (p % cap)
  cell_other p a b h =
      update_ne cells (pos % cap) (p % cap) c (mod_apart low cap pos p from to a b h)

  pub CellAt-set :
      (p : ℕ)
      → low ≤ p
      → p < low + cap
      → pos ≢ p
      → CellAt cap cells low claimed p
      → CellAt cap (update cells (pos % cap) c) low claimed p
  CellAt-set p a b h w = rw (cell_other p a b h) w

  pub Knows-set :
      (p : Producer)
      → owned p ≢ some pos
      → Knows cap cells low claimed p
      → Knows cap (update cells (pos % cap) c) low claimed p
  Knows-set idle h w = w
  Knows-set (looks v p) h w = w
  Knows-set (swaps v p) h w = w
  Knows-set (reloads v) h w = w
  Knows-set (writes v p) h w = rw (cell_other p w.0 w.1 (λ e. h (ap some (sym e)))) w
  Knows-set (publishes v p) h w = rw (cell_other p w.0.0 w.0.1 (λ e. h (ap some (sym e)))) w
