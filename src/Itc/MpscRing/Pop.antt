-- ===== src/Itc/MpscRing/Pop.antt =====
-- The steps of the consumer.
use native.Mathlib.Nat.{mod-lt}
use affini_x.Base.{
  if_cases, ℕ, zero, suc, ◌+◌, ◌%◌, ◌^◌, ◌≤◌, ◌<◌, ◌≡◌, ◌≢◌, inl, inr, sym, ap, subst, ◌∙◌, true,
  Option, some, List, [], ◌∷◌, ◌++◌, arith, ◌==◌, length, get_elem?, take, update, update_self,
  ℕ_discrete, length-append,
}
use affini_x.Itc.SpscRing.{add_size, sub_size}
use affini_x.Itc.MpscRing.{
  Cell, Producer, idle, looks, swaps, reloads, writes, publishes, Consumer, ready, takes, releases,
  System, index, set_cell, pop_step, is_published,
}
use affini_x.Itc.MpscRing.Sound.{
  freed, CellAt, Holds, Knows, Follows, low_of, IsSound, cell_other, update_cases,
}
use affini_x.Itc.MpscRing.Load.{IsShort}
use affini_x.Itc.MpscRing.Word.{add_size_lem, sub_size_zero, wrap_lem, mod_round}

some-injective : {a b : ℕ} → ◌≡◌ {A = Option ℕ} (some a) (some b) → a ≡ b
some-injective e = cc

take-suc : (n x : ℕ) (xs : List ℕ) → get_elem? xs n ≡ some x → take n xs ++ x ∷ [] ≡ take (suc n) xs
take-suc n x [] e = cc
take-suc zero x (y ∷ xs) e = ap (λ z. z ∷ []) (sym (some-injective e))
take-suc (suc n) x (y ∷ xs) e = ap (◌∷◌ y) (take-suc n x xs e)

module _ (s : System) (b : IsShort s) (w : IsSound s) where
  -- The consumer sees the cell of its position published.
  looks-IsSound :
      s.consumer ≡ ready
      → is_published s.ring ≡ true
      → IsSound (
          let r = s.ring in
          record s {
            ring = record r { deq_pos = add_size r.deq_pos 1 };
            consumer = takes r.deq_pos;
          })
  looks-IsSound e h =
      let cap = s.ring.cap in
      let p = s.ring.deq_pos in
      let low : low_of s ≡ p = ap (λ c. freed c p) e in
      let count : length s.popped ≡ p =
        subst (λ c. Follows cap s.ring.cells (freed c p) s.claimed c p (length s.popped)) e
          w.follows in
      let above : p ≤ length s.claimed = omega (arith, low, w.above) in
      let plus : add_size p 1 ≡ p + 1 = add_size_lem p 1 (omega (arith, above, b)) in
      let at : index s.ring p ≡ p % cap = wrap_lem p cap (omega (arith, above, b)) in
      let seq : (s.ring.cells (p % cap)).seq ≡ p + 1 =
        sub_size_zero _ (p + 1) (w.seqs (p % cap) (mod-lt p (omega (arith, w.wide))))
          (omega (arith, above, b))
          (subst (λ n. sub_size (s.ring.cells (p % cap)).seq n == 0 ≡ true) plus
            (subst (λ i. sub_size (s.ring.cells i).seq (add_size p 1) == 0 ≡ true) at h)) in
      let full : p < length s.claimed =
        elim (w.cells p (omega (arith, low)) (omega (arith, low, w.wide))) [
          | inl f ↦ absurd (omega (arith, f, seq))
          | inr f ↦ f.0
        ] in
      record {
        wide = w.wide;
        tail = w.tail;
        above = above;
        within = omega (arith, w.within, low);
        cells = λ q x y.
            subst (λ l. CellAt cap s.ring.cells l s.claimed q) low
              (w.cells q (omega (arith, low, x)) (omega (arith, low, y)));
        owners =
            λ k. subst (λ l. Knows cap s.ring.cells l s.claimed (s.producers k)) low (w.owners k);
        apart = w.apart;
        follows = (plus, count, full, seq);
        seqs = w.seqs;
        order = w.order;
      }

  -- It moves the item out.
  takes-IsSound :
      (p : ℕ)
      → s.consumer ≡ takes p
      → IsSound (record s {
        popped = s.popped ++ (s.ring.cells (index s.ring p)).item ∷ [];
        consumer = releases p;
      })
  takes-IsSound p e =
      let cap = s.ring.cap in
      let deq = s.ring.deq_pos in
      let low : low_of s ≡ p = ap (λ c. freed c deq) e in
      let f : Follows cap s.ring.cells p s.claimed (takes p) deq (length s.popped) =
        subst (λ c. Follows cap s.ring.cells (freed c deq) s.claimed c deq (length s.popped)) e
          w.follows in
      let at : index s.ring p ≡ p % cap = wrap_lem p cap (omega (arith, f.2, b)) in
      let item : get_elem? s.claimed p ≡ some (s.ring.cells (index s.ring p)).item =
        elim (w.cells p (omega (arith, low)) (omega (arith, low, w.wide))) [
          | inl h ↦ absurd (omega (arith, h, f.3))
          | inr h ↦ h.2 ∙ ap (λ i. some (s.ring.cells i).item) (sym at)
        ] in
      let longer : length (s.popped ++ (s.ring.cells (index s.ring p)).item ∷ [])
          ≡ suc (length s.popped) =
        omega (arith, length-append s.popped ((s.ring.cells (index s.ring p)).item ∷ [])) in
      let next : take (length s.popped) s.claimed ++ (s.ring.cells (index s.ring p)).item ∷ []
          ≡ take (suc (length s.popped)) s.claimed =
        take-suc (length s.popped) _ s.claimed (
          subst (λ n. get_elem? s.claimed n ≡ some (s.ring.cells (index s.ring p)).item) (sym f.1)
            item) in
      record {
        wide = w.wide;
        tail = w.tail;
        above = omega (arith, f.2);
        within = omega (arith, w.within, low);
        cells = λ q x y.
            subst (λ l. CellAt cap s.ring.cells l s.claimed q) low
              (w.cells q (omega (arith, low, x)) (omega (arith, low, y)));
        owners =
            λ k. subst (λ l. Knows cap s.ring.cells l s.claimed (s.producers k)) low (w.owners k);
        apart = w.apart;
        follows = (f.0, omega (arith, longer, f.1), f.2, f.3);
        seqs = w.seqs;
        order =
            ap (λ l. l ++ (s.ring.cells (index s.ring p)).item ∷ []) w.order
            ∙ next
            ∙ ap (λ n. take n s.claimed) (sym longer);
      }

  -- Once a cell is given back the round begins behind it.
  module _ (p : ℕ) (c : Cell) (low : low_of s ≡ p) (gone : p < length s.claimed)
      (published : (s.ring.cells (p % s.ring.cap)).seq ≡ p + 1)
      (next : c.seq ≡ p + s.ring.cap) where
    abbrev cells_after : ℕ → Cell
    cells_after = update s.ring.cells (p % s.ring.cap) c

    other :
        (q : ℕ)
        → p ≤ q
        → q < p + s.ring.cap
        → p ≢ q
        → cells_after (q % s.ring.cap) ≡ s.ring.cells (q % s.ring.cap)
    other q x y h =
        cell_other s.ring.cap s.ring.cells p s.claimed p c (omega arith) (omega (arith, w.wide)) q x
          y h

    CellAt-release :
        (q : ℕ)
        → p + 1 ≤ q
        → q < p + 1 + s.ring.cap
        → CellAt s.ring.cap cells_after (p + 1) s.claimed q
    CellAt-release q x y = elim (ℕ_discrete q (p + s.ring.cap)) [
      | yes e ↦
          let i : q % s.ring.cap ≡ p % s.ring.cap =
            ap (λ n. n % s.ring.cap) e ∙ mod_round p s.ring.cap (omega (arith, w.wide)) in
          inl (
            ap (λ n. (cells_after n).seq) i
            ∙ ap (λ d. d.seq) (update_self s.ring.cells (p % s.ring.cap) c)
            ∙ next
            ∙ sym e)
      | no h ↦
          let inside : q < p + s.ring.cap = below q (p + s.ring.cap) (omega (arith, y)) h in
          rw (other q (omega (arith, x)) inside (above_ne p q x))
            (w.cells q (omega (arith, low, x)) (omega (arith, low, inside)))
    ]
      where
        below : (n m : ℕ) → n < m + 1 → n ≢ m → n < m
        below n m k l = ground arith

        above_ne : (n m : ℕ) → n + 1 ≤ m → n ≢ m
        above_ne n m k l = omega (arith, k, l)

    Holds-release :
        (v q : ℕ)
        → Holds s.ring.cap s.ring.cells (low_of s) s.claimed v q
        → Holds s.ring.cap cells_after (p + 1) s.claimed v q
          × (cells_after (q % s.ring.cap) ≡ s.ring.cells (q % s.ring.cap))
    Holds-release v q o =
        let ne : p ≢ q =
          λ e. omega (arith, o.3, published, ap (λ n. (s.ring.cells (n % s.ring.cap)).seq) e, e) in
        let from : p ≤ q = omega (arith, low, o.0) in
        let same = other q from (omega (arith, low, o.1)) ne in
        (
          (strictly p q from ne, omega (arith, low, o.1), o.2, ap (λ d. d.seq) same ∙ o.3, o.4),
          same,
        )
      where
        strictly : (n m : ℕ) → n ≤ m → n ≢ m → n + 1 ≤ m
        strictly n m k l = ground arith

    Knows-release :
        (r : Producer)
        → Knows s.ring.cap s.ring.cells (low_of s) s.claimed r
        → Knows s.ring.cap cells_after (p + 1) s.claimed r
    Knows-release idle o = o
    Knows-release (looks v q) o = o
    Knows-release (swaps v q) o = (o.0, λ t. omega (arith, o.1 t, low))
    Knows-release (reloads v) o = o
    Knows-release (writes v q) o = (Holds-release v q o).0
    Knows-release (publishes v q) o =
        let h = Holds-release v q o.0 in (h.0, ap (λ d. d.item) h.1 ∙ o.1)

    release_lem :
        s.ring.deq_pos ≡ p + 1
        → length s.popped ≡ p + 1
        → IsSound (record s { ring = set_cell (p % s.ring.cap) c s.ring; consumer = ready })
    release_lem d n = record {
      wide = w.wide;
      tail = w.tail;
      above = omega (arith, d, gone);
      within = omega (arith, w.within, low, d);
      cells = λ q x y.
          subst (λ l. CellAt s.ring.cap cells_after l s.claimed q) (sym d)
            (CellAt-release q (omega (arith, d, x)) (omega (arith, d, y)));
      owners = λ k.
          subst (λ l. Knows s.ring.cap cells_after l s.claimed (s.producers k)) (sym d)
            (Knows-release (s.producers k) (w.owners k));
      apart = w.apart;
      follows = n ∙ sym d;
      seqs = λ i h. elim (update_cases s.ring.cells (p % s.ring.cap) c i) [
        | inl u ↦ subst (λ x. x.seq < 2 ^ 64) (sym u.1) (omega (arith, next, gone, b))
        | inr u ↦ subst (λ x. x.seq < 2 ^ 64) (sym u.1) (w.seqs i h)
      ];
      order = w.order;
    }

  releases-IsSound : (p : ℕ) → s.consumer ≡ releases p → IsSound (pop_step (releases p) s)
  unfolding pop_step
  releases-IsSound p e =
      let cap = s.ring.cap in
      let deq = s.ring.deq_pos in
      let low : low_of s ≡ p = ap (λ c. freed c deq) e in
      let f : Follows cap s.ring.cells p s.claimed (releases p) deq (length s.popped) =
        subst (λ c. Follows cap s.ring.cells (freed c deq) s.claimed c deq (length s.popped)) e
          w.follows in
      let plus : add_size p cap ≡ p + cap = add_size_lem p cap (omega (arith, f.2, b)) in
      let old = s.ring.cells (p % cap) in
      subst
        (λ i. IsSound (record s {
          ring = set_cell i (let c = s.ring.cells i in record c { seq = add_size p cap }) s.ring;
          consumer = ready;
        }))
        (sym (wrap_lem p cap (omega (arith, f.2, b))))
        (release_lem p (record old { seq = add_size p cap }) low f.2 f.3 plus f.0 f.1)

  pub pop_step-IsSound : (c : Consumer) → s.consumer ≡ c → IsSound (pop_step c s)
  unfolding pop_step
  pop_step-IsSound ready e =
      if_cases IsSound (is_published s.ring) _ _ (λ h. looks-IsSound e h) (λ _. w)
  pop_step-IsSound (takes p) e = takes-IsSound p e
  pop_step-IsSound (releases p) e = releases-IsSound p e
