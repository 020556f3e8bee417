-- ===== src/Itc/MpscRing/Claim.antt =====
-- The exchange of a push: a producer wins a position.
use affini_x.Base.{
  if_cases, ℕ, ◌+◌, ◌%◌, ◌≤◌, ◌<◌, ◌≡◌, inl, inr, refl, sym, subst, ◌∙◌, Bool, some, List, [], ◌∷◌,
  ◌++◌, arith, ◌==◌, length, get_elem?, get_elem?-append_left, get_elem?-append_here, length-append,
  take-append_left, ==→eq,
}
use affini_x.Itc.SpscRing.{add_size}
use affini_x.Itc.MpscRing.{
  Cell, Producer, idle, looks, swaps, reloads, writes, publishes, Consumer, ready, takes, releases,
  System, put, exchange,
}
use affini_x.Itc.MpscRing.Sound.{
  owned, freed, CellAt, Holds, Knows, Follows, low_of, IsSound, update-All, Apart-update,
}
use affini_x.Itc.MpscRing.Word.{add_size_lem}
use affini_x.Itc.MpscRing.Load.{IsShort, some-injective, unowned, load_pos-IsSound}

-- What the claim of the next position leaves of what is known.
module _ (cap : ℕ) (cells : ℕ → Cell) (low : ℕ) (claimed : List ℕ) (v : ℕ) where
  pub longer : length (claimed ++ v ∷ []) ≡ length claimed + 1
  longer = omega (arith, length-append claimed (v ∷ []))

  pub kept :
      (p u : ℕ)
      → p < length claimed
      → get_elem? claimed p ≡ some u
      → get_elem? (claimed ++ v ∷ []) p ≡ some u
  kept p u h e = get_elem?-append_left claimed (v ∷ []) p h ∙ e

  pub CellAt-claim :
      (p : ℕ) → CellAt cap cells low claimed p → CellAt cap cells low (claimed ++ v ∷ []) p
  CellAt-claim p (inl e) = inl e
  CellAt-claim p (inr e) = inr (omega (arith, e.0, longer), e.1, kept p _ e.0 e.2)

  pub Holds-claim :
      (u p : ℕ) → Holds cap cells low claimed u p → Holds cap cells low (claimed ++ v ∷ []) u p
  Holds-claim u p w = (w.0, w.1, omega (arith, w.2, longer), w.3, kept p u w.2 w.4)

  pub Knows-claim :
      (p : Producer) → Knows cap cells low claimed p → Knows cap cells low (claimed ++ v ∷ []) p
  Knows-claim idle w = w
  Knows-claim (looks u p) w = omega (arith, w, longer)
  Knows-claim (swaps u p) w =
      (omega (arith, w.0, longer), λ t. absurd (omega (arith, w.0, longer, t)))
  Knows-claim (reloads u) w = w
  Knows-claim (writes u p) w = Holds-claim u p w
  Knows-claim (publishes u p) w = (Holds-claim u p w.0, w.1)

  pub Follows-claim :
      (c : Consumer) (deq n : ℕ)
      → Follows cap cells low claimed c deq n
      → Follows cap cells low (claimed ++ v ∷ []) c deq n
  Follows-claim ready deq n w = w
  Follows-claim (takes p) deq n w = (w.0, w.1, omega (arith, w.2, longer), w.3)
  Follows-claim (releases p) deq n w = (w.0, w.1, omega (arith, w.2, longer), w.3)

pub owned-lt :
    (cap : ℕ) (cells : ℕ → Cell) (low : ℕ) (claimed : List ℕ) (p : Producer) (q : ℕ)
    → Knows cap cells low claimed p
    → owned p ≡ some q
    → (low ≤ q) × (q < low + cap) × (q < length claimed)
owned-lt cap cells low claimed idle q w e = absurd (unowned idle refl q e)
owned-lt cap cells low claimed (looks v p) q w e = absurd (unowned idle refl q e)
owned-lt cap cells low claimed (swaps v p) q w e = absurd (unowned idle refl q e)
owned-lt cap cells low claimed (reloads v) q w e = absurd (unowned idle refl q e)
owned-lt cap cells low claimed (writes v p) q w e =
    let same = some-injective e in
    (omega (arith, w.0, same), omega (arith, w.1, same), omega (arith, w.2, same))
owned-lt cap cells low claimed (publishes v p) q w e =
    let same = some-injective e in
    (omega (arith, w.0.0, same), omega (arith, w.0.1, same), omega (arith, w.0.2, same))

pub popped-le : (s : System) → IsSound s → length s.popped ≤ length s.claimed
popped-le s w = by_consumer s.consumer w.above w.follows
  where
    by_consumer :
        (c : Consumer)
        → freed c s.ring.deq_pos ≤ length s.claimed
        → Follows s.ring.cap s.ring.cells
            (freed c s.ring.deq_pos)
            s.claimed
            c
            s.ring.deq_pos
            (length s.popped)
        → length s.popped ≤ length s.claimed
    by_consumer ready a f = omega (arith, a, f)
    by_consumer (takes p) a f = omega (arith, f.1, f.2)
    by_consumer (releases p) a f = omega (arith, f.1, f.2)

-- A producer wins the position at the tail.
pub claim-IsSound :
    (k v pos : ℕ) (s : System)
    → IsShort s
    → IsSound s
    → pos ≡ length s.claimed
    → pos < low_of s + s.ring.cap
    → IsSound (
        let r = s.ring in
        record (put k (writes v pos) s) {
          ring = record r { enq_pos = add_size pos 1 };
          claimed = s.claimed ++ v ∷ [];
        })
claim-IsSound k v pos s b w t h =
    let cap = s.ring.cap in
    let cells = s.ring.cells in
    let more = longer cap cells (low_of s) s.claimed v in
    let free : (cells (pos % cap)).seq ≡ pos = elim (w.cells pos (omega (arith, t, w.above)) h) [
      | inl f ↦ f
      | inr f ↦ absurd (omega (arith, f.0, t))
    ] in
    record {
      wide = w.wide;
      tail = add_size_lem pos 1 (omega (arith, b, t)) ∙ omega (arith, more, t);
      above = omega (arith, w.above, more);
      within = omega (arith, more, t, h);
      cells = λ p x y. CellAt-claim cap cells (low_of s) s.claimed v p (w.cells p x y);
      owners =
          update-All (Knows cap cells (low_of s) (s.claimed ++ v ∷ [])) s.producers k (writes v pos)
            (
              omega (arith, t, w.above),
              h,
              omega (arith, more, t),
              free,
              subst (λ n. get_elem? (s.claimed ++ v ∷ []) n ≡ some v) (sym t)
                  (get_elem?-append_here s.claimed v),
            )
            (λ j. Knows-claim cap cells (low_of s) s.claimed v (s.producers j) (w.owners j));
      apart = Apart-update s.producers k (writes v pos) w.apart (λ j q x d e.
          let below = owned-lt cap cells (low_of s) s.claimed (s.producers j) q (w.owners j) e in
          omega (arith, below.2, t, some-injective d));
      follows =
          Follows-claim cap cells (low_of s) s.claimed v s.consumer s.ring.deq_pos (length s.popped)
            w.follows;
      seqs = w.seqs;
      order = w.order ∙ sym (take-append_left (length s.popped) s.claimed (v ∷ []) (popped-le s w));
    }

pub exchange-IsSound :
    (k : ℕ) (fails : Bool) (v pos : ℕ) (s : System)
    → IsShort s
    → IsSound s
    → s.producers k ≡ swaps v pos
    → IsSound (exchange k fails v pos s)
exchange-IsSound k fails v pos s b w e =
    let known : Knows s.ring.cap s.ring.cells (low_of s) s.claimed (swaps v pos) =
      subst (Knows s.ring.cap s.ring.cells (low_of s) s.claimed) e (w.owners k) in
    if_cases IsSound fails _ _ (λ _. load_pos-IsSound k v s w)
      (λ _.
        if_cases IsSound (s.ring.enq_pos == pos) _ _
          (λ q.
            let t : length s.claimed ≡ pos = sym w.tail ∙ ==→eq s.ring.enq_pos pos q in
            claim-IsSound k v pos s b w (sym t) (known.1 t))
          (λ _. load_pos-IsSound k v s w))
