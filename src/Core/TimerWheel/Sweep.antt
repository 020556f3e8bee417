-- ===== src/Core/TimerWheel/Sweep.antt =====
-- One tick: the cascades bring what is due to level 0, and the sweep of its slot fires just that.
use affini_x.Base.{
  ℕ, zero, suc, ◌+◌, ◌%◌, ◌^◌, ◌≤◌, ◌<◌, ◌≡◌, refl, sym, ap, ◌∙◌, ◌≢◌, ◌⊎◌, inl, inr, false, List,
  [], ◌∷◌, ◌++◌, arith, ltb, length, All, ℕ_discrete, subst, eq→==, ne→==,
}
use affini_x.Core.TimerWheel.Arith.{
  Homed, placed_Homed, Homed-range, Homed-later, turn_le, level_zero_due,
}
use affini_x.Core.TimerWheel.Grid.{
  Each, Each-place, All-map, total, total-place, weigh, weigh-one, weigh-le-total, weigh-append,
  one,
}
use affini_x.Core.TimerWheel.Tidy.{due, At, insert_lem, insert-due, due_range}
use affini_x.Core.TimerWheel.{
  Node, Buckets, Wheel, place, insert_node, insert, insert_all, pop_front, expire_slot,
}
use affini_x.Core.TimerWheel.Cascade.{turn_of, Cascaded}

-- While the slot of tick `now` is swept: its nodes are due, all others wait for a later tick.
-- `Q` is what is known of the nodes that are inserted meanwhile: a late node elsewhere is one of them.
pub record Swept (Q : Node → Type 0) (now l j : ℕ) (n : Node) : Type 0 where
  pub here : l ≡ 0 → j ≡ now % 256 → n.expiry_tick ≤ now
  pub there : (l ≢ 0) ⊎ (j ≢ now % 256) → At (now + 1) l j n × (n.expiry_tick ≤ now → Q n)

later_At :
    (Q : Node → Type 0) (now l j : ℕ) (n : Node)
    → At now l j n
    → now < turn_of l (due now n)
    → At (now + 1) l j n × (n.expiry_tick ≤ now → Q n)
later_At Q now l j n h p =
    let r = Homed-range now l j (due now n) h in
    let at_most : turn_of l (due now n) ≤ due now n = turn_le l j now (due now n) h in
    let same : due now n ≡ due (now + 1) n = ground arith in
    (
      subst (Homed (now + 1) l j) same (Homed-later now l j (due now n) h p),
      λ late. absurd (ground arith),
    )

pub Cascaded-Swept :
    (Q : Node → Type 0) (now l j : ℕ) (n : Node) → Cascaded now 3 l j n → Swept Q now l j n
Cascaded-Swept Q now zero j n (h, later) =
    let z = level_zero_due now j (due now n) h in
    record {
      here = λ a b. ground (arith, z.0 b);
      there = λ o. elim o [
        | inl a ↦ absurd (a refl)
        | inr b ↦ later_At Q now 0 j n h (omega (arith, z.1 b))
      ];
    }
Cascaded-Swept Q now (suc l) j n (h, later) = record {
  here = λ a b. absurd (omega arith);
  there = λ o. later_At Q now (suc l) j n h (later (omega arith) (omega (arith, h.level_fits)));
}

-- Nothing that is inserted in a tick lands in the slot that the tick sweeps.
insert-Swept :
    (Q : Node → Type 0) (f : Node → ℕ) (w : Wheel) (n : Node)
    → n.expiry_tick < w.now_tick + 2 ^ 32
    → Q n
    → Each (Swept Q w.now_tick) w.buckets
    → Each (Swept Q w.now_tick) (insert w n w.now_tick).buckets
      × (total f (insert w n w.now_tick).buckets ≡ total f w.buckets + f n)
      × ((insert w n w.now_tick).count ≡ w.count + 1)
      × ((insert w n w.now_tick).now_tick ≡ w.now_tick)
insert-Swept Q f w n h q e =
    insert_lem (Swept Q w.now_tick) f w n h
      (λ l j at off. record { here = λ a b. absurd (off a b); there = λ o. (at, λ late. q) }) e

place_other :
    (b : Buckets) (l j s : ℕ) (ns : List Node) → (l ≡ 0 → j ≢ s) → place b l j ns 0 s ≡ b 0 s
place_other b l j s ns off = elim (ℕ_discrete l 0) [
  | yes e ↦ rw (eq→== l 0 e, ne→== j s (off e)) refl
  | no e ↦ rw (ne→== l 0 e) refl
]

insert-slot :
    (w : Wheel) (n : Node)
    → n.expiry_tick < w.now_tick + 2 ^ 32
    → (insert w n w.now_tick).buckets 0 (w.now_tick % 256) ≡ w.buckets 0 (w.now_tick % 256)
unfolding insert_node
insert-slot w n h =
    let r = due_range (w.now_tick + 1) w.now_tick n (omega arith) h in
    let et = due (w.now_tick + 1) n in
    let p = placed_Homed w.now_tick (w.now_tick + 1) et (omega arith) (omega arith) r.0 r.1 in
    rw (insert-due w n) (place_other w.buckets _ _ (w.now_tick % 256) _ (p.2 (omega arith)))

insert_all-Swept :
    (Q : Node → Type 0) (f : Node → ℕ) (w : Wheel) (ns : List Node)
    → All (λ n. (n.expiry_tick < w.now_tick + 2 ^ 32) × Q n) ns
    → Each (Swept Q w.now_tick) w.buckets
    → Each (Swept Q w.now_tick) (insert_all w ns).buckets
      × (total f (insert_all w ns).buckets ≡ total f w.buckets + weigh f ns)
      × ((insert_all w ns).count ≡ w.count + length ns)
      × ((insert_all w ns).now_tick ≡ w.now_tick)
      × ((insert_all w ns).buckets 0 (w.now_tick % 256) ≡ w.buckets 0 (w.now_tick % 256))
unfolding insert_all
insert_all-Swept Q f w [] a e = (e, omega arith, omega arith, refl, refl)
insert_all-Swept Q f w (n ∷ ns) a e =
    let w' = insert w n w.now_tick in
    let p = insert-Swept Q f w n a.0.0 a.0.1 e in
    let q =
      insert_all-Swept Q f w' ns
        (subst (λ m. All (λ x. (x.expiry_tick < m + 2 ^ 32) × Q x) ns) (sym p.3) a.1)
        (subst (λ m. Each (Swept Q m) w'.buckets) (sym p.3) p.0) in
    (
      subst (λ m. Each (Swept Q m) (insert_all w' ns).buckets) p.3 q.0,
      omega (arith, q.1, p.1),
      omega (arith, q.2, p.2),
      q.3 ∙ p.3,
      subst (λ m. (insert_all w' ns).buckets 0 (m % 256) ≡ w'.buckets 0 (m % 256)) p.3 q.4
          ∙ insert-slot w n a.0.0,
    )

abbrev pub rearmed : (Node → List Node) → List Node → List Node
rearmed fire [] = []
rearmed fire (n ∷ ns) = fire n ++ rearmed fire ns

module _ (fire : Node → List Node) (Q : Node → Type 0) where
  expire_slot-nil :
      (fuel slot : ℕ) (w : Wheel) → w.buckets 0 slot ≡ [] → expire_slot fire fuel slot w ≡ ([], w)
  unfolding expire_slot
  expire_slot-nil zero slot w e = refl
  expire_slot-nil (suc fuel) slot w e = rw (e, expire_slot) refl

  expire_slot-cons :
      (fuel slot : ℕ) (w : Wheel) (n : Node) (rest : List Node)
      → w.buckets 0 slot ≡ n ∷ rest
      → n.expiry_tick ≤ w.now_tick
      → let r = expire_slot fire fuel slot (insert_all (pop_front w slot rest) (fire n)) in
        expire_slot fire (suc fuel) slot w ≡ (n ∷ r.0, r.1)
  unfolding expire_slot
  expire_slot-cons fuel slot w n rest e d =
      let t : ltb w.now_tick n.expiry_tick ≡ false = ground arith in rw (e, expire_slot) (rw t refl)

  -- What the sweep of the slot of tick `now` leaves, and what it has fired.
  pub record SweptBy (now : ℕ) (w : Wheel) (ns : List Node) (w' : Wheel) : Type 0 where
    pub waiting : Each (At (now + 1)) w'.buckets
    pub punctual : Each (λ l j n. n.expiry_tick ≤ now → Q n) w'.buckets
    pub same_now : w'.now_tick ≡ now
    pub counted : w'.count ≡ total one w'.buckets
    pub conserved :
        (f : Node → ℕ)
        → total f w'.buckets + weigh f ns ≡ total f w.buckets + weigh f (rearmed fire ns)
    pub fired_due : All (λ n. n.expiry_tick ≤ now) ns

  Swept-out :
      (now : ℕ) (w : Wheel)
      → Each (Swept Q now) w.buckets
      → w.buckets 0 (now % 256) ≡ []
      → Each (λ l j n. At (now + 1) l j n × (n.expiry_tick ≤ now → Q n)) w.buckets
  Swept-out now w h e l j = elim (ℕ_discrete l 0) [
    | yes p ↦ elim (ℕ_discrete j (now % 256)) [
      | yes q ↦ rw (p, q, e) tt
      | no q ↦ All-map (w.buckets l j) (λ n s. s.there (inr q)) (h l j)
    ]
    | no p ↦ All-map (w.buckets l j) (λ n s. s.there (inl p)) (h l j)
  ]

  -- The first node of the slot, taken and fired: what the rest of the sweep starts from.
  fire_one :
      (f : Node → ℕ) (w : Wheel) (n : Node) (rest : List Node)
      → w.buckets 0 (w.now_tick % 256) ≡ n ∷ rest
      → All (λ m. (m.expiry_tick < w.now_tick + 2 ^ 32) × Q m) (fire n)
      → Each (Swept Q w.now_tick) w.buckets
      → w.count ≡ total one w.buckets
      → let w' = insert_all (pop_front w (w.now_tick % 256) rest) (fire n) in
        Each (Swept Q w.now_tick) w'.buckets
        × (w'.now_tick ≡ w.now_tick)
        × (w'.buckets 0 (w.now_tick % 256) ≡ rest)
        × (total f w'.buckets + f n ≡ total f w.buckets + weigh f (fire n))
        × (w'.count + 1 ≡ w.count + length (fire n))
        × (n.expiry_tick ≤ w.now_tick)
  fire_one f w n rest e fit h c =
      let slot : ℕ = w.now_tick % 256 in
      let small : slot < 256 = omega arith in
      let all : All (Swept Q w.now_tick 0 slot) (n ∷ rest) =
        subst (All (Swept Q w.now_tick 0 slot)) e (h 0 slot) in
      let w1 = pop_front w slot rest in
      let h1 : Each (Swept Q w.now_tick) w1.buckets =
        Each-place (Swept Q w.now_tick) w.buckets 0 slot rest h all.1 in
      let p = insert_all-Swept Q f w1 (fire n) fit h1 in
      let heavy : weigh f (n ∷ rest) ≡ weigh f (w.buckets 0 slot) = ap (weigh f) (sym e) in
      let many : length (n ∷ rest) ≡ length (w.buckets 0 slot) = ap length (sym e) in
      let self : place w.buckets 0 slot rest 0 slot ≡ rest = rw (eq→== slot slot refl) refl in
      (
        p.0,
        p.3,
        p.4 ∙ self,
        omega (arith, p.1, total-place f w.buckets 0 slot rest (omega arith) small, heavy),
        omega (
          arith,
          p.2,
          weigh-le-total one w.buckets 0 slot (omega arith) small,
          weigh-one (w.buckets 0 slot),
          many,
          c,
        ),
        all.0.here refl refl,
      )

  fired_one :
      (f : Node → ℕ) (w : Wheel) (n : Node) (rest : List Node) (now : ℕ)
      → w.now_tick ≡ now
      → w.buckets 0 (w.now_tick % 256) ≡ n ∷ rest
      → All (λ m. (m.expiry_tick < w.now_tick + 2 ^ 32) × Q m) (fire n)
      → Each (Swept Q w.now_tick) w.buckets
      → w.count ≡ total one w.buckets
      → let w' = insert_all (pop_front w (now % 256) rest) (fire n) in
        Each (Swept Q now) w'.buckets
        × (w'.now_tick ≡ now)
        × (w'.buckets 0 (now % 256) ≡ rest)
        × (total f w'.buckets + f n ≡ total f w.buckets + weigh f (fire n))
        × (w'.count + 1 ≡ w.count + length (fire n))
        × (n.expiry_tick ≤ now)
  fired_one f w n rest now at e fit h c =
      subst
        (λ m.
          let w' = insert_all (pop_front w (m % 256) rest) (fire n) in
          Each (Swept Q m) w'.buckets
          × (w'.now_tick ≡ m)
          × (w'.buckets 0 (m % 256) ≡ rest)
          × (total f w'.buckets + f n ≡ total f w.buckets + weigh f (fire n))
          × (w'.count + 1 ≡ w.count + length (fire n))
          × (n.expiry_tick ≤ m))
        at (fire_one f w n rest e fit h c)

  pub expire_slot_lem :
      (fuel now : ℕ) (w : Wheel) (b : List Node)
      → w.now_tick ≡ now
      → w.buckets 0 (now % 256) ≡ b
      → length b ≤ fuel
      → ((n : Node) → All (λ m. (m.expiry_tick < now + 2 ^ 32) × Q m) (fire n))
      → Each (Swept Q now) w.buckets
      → w.count ≡ total one w.buckets
      → let r = expire_slot fire fuel (now % 256) w in SweptBy now w r.0 r.1
  expire_slot_lem fuel now w [] at e len fit h c =
      rw (expire_slot-nil fuel (now % 256) w e) (record {
        waiting = λ l j. All-map (w.buckets l j) (λ n a. a.0) (Swept-out now w h e l j);
        punctual = λ l j. All-map (w.buckets l j) (λ n a. a.1) (Swept-out now w h e l j);
        same_now = at;
        counted = c;
        conserved = λ f. refl;
        fired_due = tt;
      })
  expire_slot_lem zero now w (n ∷ rest) at e len fit h c = absurd (omega arith)
  expire_slot_lem (suc fuel) now w (n ∷ rest) at e len fit h c =
      let e' : w.buckets 0 (w.now_tick % 256) ≡ n ∷ rest = rw at e in
      let fit' : All (λ m. (m.expiry_tick < w.now_tick + 2 ^ 32) × Q m) (fire n) = rw at (fit n) in
      let h' : Each (Swept Q w.now_tick) w.buckets = rw at h in
      let w' = insert_all (pop_front w (now % 256) rest) (fire n) in
      let p = λ (f : Node → ℕ). fired_one f w n rest now at e' fit' h' c in
      let p1 = p one in
      let q =
        expire_slot_lem fuel now w' rest p1.1 p1.2 (omega arith) fit p1.0
          (omega (arith, p1.3, p1.4, c, weigh-one (fire n))) in
      rw (expire_slot-cons fuel (now % 256) w n rest e (omega (arith, at, p1.5))) (record {
        waiting = q.waiting;
        punctual = q.punctual;
        same_now = q.same_now;
        counted = q.counted;
        conserved = λ f. omega (
          arith,
          q.conserved f,
          (p f).3,
          weigh-append f (fire n) (rearmed fire (expire_slot fire fuel (now % 256) w').0),
        );
        fired_due = (p1.5, q.fired_due);
      })
