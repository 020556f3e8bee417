-- ===== src/Itc/MpscRing/Push.antt =====
-- The steps of a producer.
use native.Mathlib.Nat.{mod-lt}
use affini_x.Base.{
  ℕ, ◌+◌, ◌%◌, ◌^◌, ◌<◌, ◌≡◌, ◌≢◌, inl, inr, refl, sym, ap, subst, ◌∙◌, Bool, some, arith, length,
  update, update_self, ℕ_discrete,
}
use affini_x.Itc.SpscRing.{add_size}
use affini_x.Itc.MpscRing.{
  Cell, Producer, idle, looks, swaps, reloads, writes, publishes, Consumer, ready, takes, releases,
  System, put, set_cell, write_item, store_seq, push_step, begin_push,
}
use affini_x.Itc.MpscRing.Sound.{
  owned, freed, CellAt, Holds, Knows, Follows, low_of, IsSound, Apart-update, CellAt-set, Knows-set,
  cell_other, update_cases,
}
use affini_x.Itc.MpscRing.Word.{add_size_lem, wrap_lem}
use affini_x.Itc.MpscRing.Load.{
  IsShort, some-injective, unowned, load_pos-IsSound, load_seq-IsSound,
}
use affini_x.Itc.MpscRing.Claim.{exchange-IsSound}

-- What the owner of a position does to its cell: the sequence number stays, or becomes that of an item.
module _ (k v pos : ℕ) (s : System) (w : IsSound s) (c : Cell) (next : Producer)
    (own : Holds s.ring.cap s.ring.cells (low_of s) s.claimed v pos)
    (mine : owned (s.producers k) ≡ some pos) where
  abbrev cells_after : ℕ → Cell
  cells_after = update s.ring.cells (pos % s.ring.cap) c

  others : (j : ℕ) → k ≢ j → owned (s.producers j) ≢ some pos
  others j h e = h (w.apart k j pos mine e)

  seq_ne :
      (a b : ℕ)
      → (s.ring.cells (a % s.ring.cap)).seq ≡ a
      → (s.ring.cells (b % s.ring.cap)).seq ≡ b + 1
      → a ≢ b
  seq_ne a b x y e = omega (arith, x, y, ap (λ q. (s.ring.cells (q % s.ring.cap)).seq) e, e)

  -- The consumer holds a position that is published, so another one.
  consumer_stays :
      (n : Consumer)
      → Follows s.ring.cap s.ring.cells
          (freed n s.ring.deq_pos)
          s.claimed
          n
          s.ring.deq_pos
          (length s.popped)
      → Holds s.ring.cap s.ring.cells (freed n s.ring.deq_pos) s.claimed v pos
      → Follows s.ring.cap cells_after
          (freed n s.ring.deq_pos)
          s.claimed
          n
          s.ring.deq_pos
          (length s.popped)
  consumer_stays ready f o = f
  consumer_stays (takes p) f o =
      let ne : pos ≢ p = seq_ne pos p o.3 f.3 in
      (
        f.0,
        f.1,
        f.2,
        ap (λ x. x.seq)
              (cell_other s.ring.cap s.ring.cells p s.claimed pos c o.0 o.1 p (omega arith)
                (omega (arith, w.wide)) ne)
            ∙ f.3,
      )
  consumer_stays (releases p) f o =
      let ne : pos ≢ p = seq_ne pos p o.3 f.3 in
      (
        f.0,
        f.1,
        f.2,
        ap (λ x. x.seq)
              (cell_other s.ring.cap s.ring.cells p s.claimed pos c o.0 o.1 p (omega arith)
                (omega (arith, w.wide)) ne)
            ∙ f.3,
      )

  owner-IsSound :
      CellAt s.ring.cap cells_after (low_of s) s.claimed pos
      → Knows s.ring.cap cells_after (low_of s) s.claimed next
      → ((q : ℕ) → owned next ≡ some q → q ≡ pos)
      → c.seq < 2 ^ 64
      → IsSound (record (put k next s) { ring = set_cell (pos % s.ring.cap) c s.ring })
  owner-IsSound at knows same small = record {
    wide = w.wide;
    tail = w.tail;
    above = w.above;
    within = w.within;
    cells = λ p a b. elim (ℕ_discrete pos p) [
      | yes e ↦ subst (CellAt s.ring.cap cells_after (low_of s) s.claimed) e at
      | no h ↦
          CellAt-set s.ring.cap s.ring.cells (low_of s) s.claimed pos c own.0 own.1 p a b h
            (w.cells p a b)
    ];
    owners = λ j. elim (update_cases s.producers k next j) [
      | inl u ↦ subst (Knows s.ring.cap cells_after (low_of s) s.claimed) (sym u.1) knows
      | inr u ↦ subst (Knows s.ring.cap cells_after (low_of s) s.claimed) (sym u.1) (
          Knows-set s.ring.cap s.ring.cells (low_of s) s.claimed pos c own.0 own.1 (s.producers j)
            (others j u.0) (w.owners j))
    ];
    apart =
        Apart-update s.producers k next w.apart (λ j q x d e. others j x (e ∙ ap some (same q d)));
    follows = consumer_stays s.consumer w.follows own;
    seqs = λ i h. elim (update_cases s.ring.cells (pos % s.ring.cap) c i) [
      | inl u ↦ subst (λ x. x.seq < 2 ^ 64) (sym u.1) small
      | inr u ↦ subst (λ x. x.seq < 2 ^ 64) (sym u.1) (w.seqs i h)
    ];
    order = w.order;
  }

write_item-IsSound :
    (k v pos : ℕ) (s : System)
    → IsShort s
    → IsSound s
    → s.producers k ≡ writes v pos
    → IsSound (write_item k v pos s)
write_item-IsSound k v pos s b w e =
    let cap = s.ring.cap in
    let own : Holds cap s.ring.cells (low_of s) s.claimed v pos =
      subst (Knows cap s.ring.cells (low_of s) s.claimed) e (w.owners k) in
    let i = pos % cap in
    let old = s.ring.cells i in
    let c : Cell = record old { item = v } in
    let cells = update s.ring.cells i c in
    let here : cells i ≡ c = update_self s.ring.cells i c in
    let seq : (cells i).seq ≡ pos = ap (λ x. x.seq) here ∙ own.3 in
    let r =
      owner-IsSound k v pos s w c (publishes v pos) own (ap owned e) (inl seq)
        ((own.0, own.1, own.2, seq, own.4), ap (λ x. x.item) here) (λ q d. sym (some-injective d))
        (w.seqs i (mod-lt pos (omega (arith, w.wide)))) in
    subst
      (λ n. IsSound (record (put k (publishes v pos) s) {
        ring = set_cell n (let o = s.ring.cells n in record o { item = v }) s.ring;
      }))
      (sym (wrap_lem pos cap (omega (arith, own.2, b)))) r

store_seq-IsSound :
    (k v pos : ℕ) (s : System)
    → IsShort s
    → IsSound s
    → s.producers k ≡ publishes v pos
    → IsSound (store_seq k pos s)
store_seq-IsSound k v pos s b w e =
    let cap = s.ring.cap in
    let known : Knows cap s.ring.cells (low_of s) s.claimed (publishes v pos) =
      subst (Knows cap s.ring.cells (low_of s) s.claimed) e (w.owners k) in
    let own = known.0 in
    let i = pos % cap in
    let old = s.ring.cells i in
    let c : Cell = record old { seq = add_size pos 1 } in
    let cells = update s.ring.cells i c in
    let here : cells i ≡ c = update_self s.ring.cells i c in
    let plus : add_size pos 1 ≡ pos + 1 = add_size_lem pos 1 (omega (arith, own.2, b)) in
    let item : (cells i).item ≡ v = ap (λ x. x.item) here ∙ known.1 in
    let r =
      owner-IsSound k v pos s w c idle own (ap owned e)
        (inr (own.2, ap (λ x. x.seq) here ∙ plus, own.4 ∙ ap some (sym item))) tt
        (λ q d. absurd (unowned idle refl q d)) (omega (arith, plus, own.2, b)) in
    subst
      (λ n. IsSound (record (put k idle s) {
        ring = set_cell n (let o = s.ring.cells n in record o { seq = add_size pos 1 }) s.ring;
      }))
      (sym (wrap_lem pos cap (omega (arith, own.2, b)))) r

pub begin_push-IsSound :
    (k v : ℕ) (p : Producer) (s : System) → IsSound s → IsSound (begin_push k v p s)
unfolding begin_push
begin_push-IsSound k v idle s w = load_pos-IsSound k v s w
begin_push-IsSound k v (looks u p) s w = w
begin_push-IsSound k v (swaps u p) s w = w
begin_push-IsSound k v (reloads u) s w = w
begin_push-IsSound k v (writes u p) s w = w
begin_push-IsSound k v (publishes u p) s w = w

pub push_step-IsSound :
    (k : ℕ) (fails : Bool) (p : Producer) (s : System)
    → IsShort s
    → IsSound s
    → s.producers k ≡ p
    → IsSound (push_step k fails p s)
unfolding push_step
push_step-IsSound k fails idle s b w e = w
push_step-IsSound k fails (looks v pos) s b w e = load_seq-IsSound k v pos s b w e
push_step-IsSound k fails (swaps v pos) s b w e = exchange-IsSound k fails v pos s b w e
push_step-IsSound k fails (reloads v) s b w e = load_pos-IsSound k v s w
push_step-IsSound k fails (writes v pos) s b w e = write_item-IsSound k v pos s b w e
push_step-IsSound k fails (publishes v pos) s b w e = store_seq-IsSound k v pos s b w e
