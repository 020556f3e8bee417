-- ===== src/Itc/MpscRing/Full.antt =====
-- The load of the sequence number: a push is refused only by a full ring.
use affini_x.Base.{
  ℕ, zero, suc, ◌+◌, ◌%◌, ◌^◌, ◌≤◌, ◌<◌, ◌≡◌, inl, inr, refl, sym, ap, subst, ◌∙◌, Bool, List, [],
  ◌∷◌, ◌++◌, arith, ltb, ◌==◌, if◌then◌else◌, if_cases, dec_lt, length,
}
use affini_x.Itc.SpscRing.{add_size, sub_size}
use affini_x.Itc.MpscRing.{
  looks, swaps, reloads, idle, System, index, put, load_pos, load_seq, push_step, begin_push,
  pop_step, is_published, Producer, writes, publishes, Consumer, ready, takes, releases, Action,
  begins, pushes, pops, act, create, run,
}
use affini_x.Itc.MpscRing.Sound.{freed, low_of, IsSound, Knows}
use affini_x.Itc.MpscRing.Load.{IsShort}
use affini_x.Itc.MpscRing.Order.{run-IsSound, run-Grows, create-IsSound}
use affini_x.Itc.MpscRing.Word.{sub_size_negative, wrap_lem, mod_round}

-- The state after an exchange that won.
abbrev claim : ℕ → ℕ → ℕ → System → System
claim k v pos s = record (put k (writes v pos) s) {
  ring = record s.ring { enq_pos = add_size pos 1 };
  claimed = s.claimed ++ v ∷ [];
}

-- Some cell of the round has the same place as a position that is behind it.
climb :
    (fuel low cap pos : ℕ)
    → 0 < cap
    → pos < low
    → low ≤ pos + fuel
    → (q : ℕ) × (low ≤ q) × (q < low + cap) × (q % cap ≡ pos % cap)
climb zero low cap pos c h k = absurd (omega (arith, h, k))
climb (suc fuel) low cap pos c h k = elim (dec_lt (pos + cap) low) [
  | yes l ↦
      let r = climb fuel low cap (pos + cap) c l (omega arith) in
      (r.0, r.1, r.2, r.3 ∙ mod_round pos cap c)
  | no l ↦ (pos + cap, omega arith, omega arith, mod_round pos cap c)
]

module _ (s : System) (b : IsShort s) (w : IsSound s) where
  seq_within :
      (q : ℕ)
      → low_of s ≤ q
      → q < low_of s + s.ring.cap
      → (q ≤ (s.ring.cells (q % s.ring.cap)).seq) × ((s.ring.cells (q % s.ring.cap)).seq ≤ q + 1)
  seq_within q x y = elim (w.cells q x y) [
    | inl e ↦ (omega (arith, e), omega (arith, e))
    | inr e ↦ (omega (arith, e.1), omega (arith, e.1))
  ]

  -- The position of the round in the cell of `pos`, which is not behind `pos` unless the ring is full.
  seat :
      (pos : ℕ)
      → pos ≤ length s.claimed
      → (q : ℕ) × (low_of s ≤ q)
        × (q < low_of s + s.ring.cap)
        × (q % s.ring.cap ≡ pos % s.ring.cap)
        × (q < pos → length s.claimed ≡ low_of s + s.ring.cap)
  seat pos h = elim (dec_lt pos (low_of s)) [
    | yes k ↦
        let r =
          climb (low_of s) (low_of s) s.ring.cap pos (omega (arith, w.wide)) k (omega arith) in
        (r.0, r.1, r.2, r.3, λ l. absurd (omega (arith, l, r.1, k)))
    | no k ↦ elim (dec_lt pos (low_of s + s.ring.cap)) [
      | yes k' ↦ (pos, omega (arith, k), k', refl, λ l. absurd (omega (arith, l)))
      | no k' ↦
          let top : pos ≡ low_of s + s.ring.cap = omega (arith, w.within, h, k') in
          (
            low_of s,
            omega arith,
            omega (arith, w.wide),
            sym (
                ap (λ n. n % s.ring.cap) top
                ∙ mod_round (low_of s) s.ring.cap (omega (arith, w.wide))),
            λ l. omega (arith, w.within, h, k'),
          )
    ]
  ]

  seq_seat :
      (pos : ℕ)
      → pos ≤ length s.claimed
      → ((s.ring.cells (pos % s.ring.cap)).seq < 2 ^ 63)
        × ((s.ring.cells (pos % s.ring.cap)).seq < pos → length s.claimed ≡ low_of s + s.ring.cap)
  seq_seat pos h =
      let r = seat pos h in
      let e = seq_within r.0 r.1 r.2 in
      let e' : (r.0 ≤ (s.ring.cells (pos % s.ring.cap)).seq)
          × ((s.ring.cells (pos % s.ring.cap)).seq ≤ r.0 + 1) =
        subst (λ i. (r.0 ≤ (s.ring.cells i).seq) × ((s.ring.cells i).seq ≤ r.0 + 1)) r.3 e in
      (omega (arith, e'.1, r.2, w.above, b), λ l. r.4 (omega (arith, e'.0, l)))

  -- A step that answers a push with false.
  abbrev IsFullAt : System → Type 0
  IsFullAt s' = s.refused < s'.refused → length s.claimed ≡ low_of s + s.ring.cap

  load_seq_full : (k v pos : ℕ) → pos ≤ length s.claimed → IsFullAt (load_seq k v pos s)
  load_seq_full k v pos h =
      let seq = (s.ring.cells (index s.ring pos)).seq in
      let dif = sub_size seq pos in
      let at : pos % s.ring.cap ≡ index s.ring pos =
        sym (wrap_lem pos s.ring.cap (omega (arith, b, h))) in
      let seat : (seq < 2 ^ 63) × (seq < pos → length s.claimed ≡ low_of s + s.ring.cap) =
        subst
          (λ i.
            ((s.ring.cells i).seq < 2 ^ 63)
            × ((s.ring.cells i).seq < pos → length s.claimed ≡ low_of s + s.ring.cap))
          at (seq_seat pos h) in
      let same : s.refused < s.refused → length s.claimed ≡ low_of s + s.ring.cap =
        λ l. absurd (omega (arith, l)) in
      if_cases IsFullAt (dif == 0) (put k (swaps v pos) s)
        (if ltb dif (2 ^ 63)
          then put k (reloads v) s
          else record (put k idle s) { refused = s.refused + 1 })
        (λ e. same)
        (λ e.
          if_cases IsFullAt (ltb dif (2 ^ 63)) (put k (reloads v) s)
            (record (put k idle s) { refused = s.refused + 1 }) (λ e'. same)
            (λ e' l. seat.1 (sub_size_negative seq pos seat.0 (omega (arith, b, h)) e')))

  -- A step that refuses nothing.
  same_full : (s' : System) → s'.refused ≡ s.refused → IsFullAt s'
  same_full s' e l = absurd (omega (arith, e, l))

  push_step_full :
      (k : ℕ) (fails : Bool) (p : Producer) → s.producers k ≡ p → IsFullAt (push_step k fails p s)
  unfolding push_step
  push_step_full k fails idle e = same_full s refl
  push_step_full k fails (looks v pos) e =
      load_seq_full k v pos
        (subst (Knows s.ring.cap s.ring.cells (low_of s) s.claimed) e (w.owners k))
  push_step_full k fails (swaps v pos) e =
      if_cases IsFullAt fails (load_pos k v s)
        (if s.ring.enq_pos == pos then claim k v pos s else load_pos k v s)
        (λ h. same_full (load_pos k v s) refl)
        (λ h.
          if_cases IsFullAt (s.ring.enq_pos == pos) (claim k v pos s) (load_pos k v s)
            (λ h'. same_full (claim k v pos s) refl) (λ h'. same_full (load_pos k v s) refl))
  push_step_full k fails (reloads v) e = same_full (push_step k fails (reloads v) s) refl
  push_step_full k fails (writes v pos) e = same_full (push_step k fails (writes v pos) s) refl
  push_step_full k fails (publishes v pos) e =
      same_full (push_step k fails (publishes v pos) s) refl

  begin_push_full : (k v : ℕ) (p : Producer) → IsFullAt (begin_push k v p s)
  unfolding begin_push
  begin_push_full k v idle = same_full (begin_push k v idle s) refl
  begin_push_full k v (looks u pos) = same_full s refl
  begin_push_full k v (swaps u pos) = same_full s refl
  begin_push_full k v (reloads u) = same_full s refl
  begin_push_full k v (writes u pos) = same_full s refl
  begin_push_full k v (publishes u pos) = same_full s refl

  pop_step_full : (c : Consumer) → IsFullAt (pop_step c s)
  unfolding pop_step
  pop_step_full ready =
      let r = s.ring in
      let taken = record s {
        ring = record r { deq_pos = add_size r.deq_pos 1 };
        consumer = takes r.deq_pos;
      } in
      if_cases IsFullAt (is_published r) taken s (λ h. same_full taken refl) (λ h. same_full s refl)
  pop_step_full (takes p) = same_full (pop_step (takes p) s) refl
  pop_step_full (releases p) = same_full (pop_step (releases p) s) refl

  act_full : (a : Action) → IsFullAt (act a s)
  unfolding act
  act_full (begins k v) = begin_push_full k v (s.producers k)
  act_full (pushes k fails) = push_step_full k fails (s.producers k) refl
  act_full pops = pop_step_full s.consumer

-- However the threads interleave, in a ring of two cells or more and as long as fewer than
-- 2^63 - cap - 1 items are pushed: the step that answers a push with false is taken when every cell of the
-- ring holds an item that is won and that the consumer has not given back.
pub run-refused :
    (cap : ℕ) (as' : List Action) (a : Action)
    → 1 < cap
    → let s = run as' (create cap) in
      length s.claimed + cap + 1 < 2 ^ 63
      → s.refused < (act a s).refused
      → length s.claimed ≡ freed s.consumer s.ring.deq_pos + cap
unfolding create
run-refused cap as' a h b l =
    let s = run as' (create cap) in
    let g = run-Grows as' (create cap) in
    let short : IsShort s = omega (arith, b, g.1) in
    let w = run-IsSound as' (create cap) short (create-IsSound cap h (omega (arith, b))) in
    omega (arith, g.1, act_full s short w a l)
