-- ===== src/Core/TimerWheel/Cascade.antt =====
-- What a cascade makes of the levels of a wheel.
use affini_x.Base.{
  ℕ, suc, ◌+◌, ◌-◌, ◌*◌, ◌/◌, ◌%◌, ◌^◌, ◌≤◌, ◌<◌, ◌≡◌, refl, sym, ap, ◌∙◌, ◌≢◌, inl, inr, false,
  List, [], ◌∷◌, arith, ◌==◌, length, All, Bool-cases, ℕ_discrete, subst, eq→==, ne→==, dec_le,
}
use affini_x.Core.TimerWheel.Arith.{Homed-range, turn_is_home}
use affini_x.Core.TimerWheel.Grid.{
  Each, All-map, total, total-place, weigh, weigh-one, weigh-le-total, one,
}
use affini_x.Core.TimerWheel.Tidy.{due, At, insert_node_lem, due_range}
use affini_x.Core.TimerWheel.{
  Node, Buckets, Wheel, place, levels, slots_per_level, slot_of, insert_node, cascade_walk, cascade,
  cascade_due, cascades,
}

-- When a bucket is served.
abbrev pub turn_of : ℕ → ℕ → ℕ
turn_of l et = et / 2 ^ (8 * l) * 2 ^ (8 * l)

-- In tick `low`, with the levels up to `k` cascaded: what they hold waits for a later tick.
abbrev pub Cascaded : ℕ → ℕ → ℕ → ℕ → Node → Type 0
Cascaded low k l j n = At low l j n × (0 < l → l ≤ k → low < turn_of l (due low n))

-- What a cascade, or a part of it, leaves unchanged.
pub record Keeps (w w' : Wheel) : Type 1 where
  same_now : w'.now_tick ≡ w.now_tick
  same_weight : (f : Node → ℕ) → total f w'.buckets ≡ total f w.buckets

pub cascade_walk_lem :
    (k : ℕ) (f : Node → ℕ) (w : Wheel) (ns : List Node)
    → Each (Cascaded w.now_tick k) w.buckets
    → All (λ n. n.expiry_tick < w.now_tick + 2 ^ 32) ns
    → Each (Cascaded w.now_tick k) (cascade_walk w ns).buckets
      × ((cascade_walk w ns).now_tick ≡ w.now_tick)
      × (total f (cascade_walk w ns).buckets ≡ total f w.buckets + weigh f ns)
      × ((cascade_walk w ns).count ≡ w.count + length ns)
unfolding cascade_walk
cascade_walk_lem k f w [] h a = (h, refl, omega arith, omega arith)
cascade_walk_lem k f w (n ∷ ns) h a =
    let r = due_range w.now_tick w.now_tick n (omega arith) a.0 in
    let p =
      insert_node_lem (Cascaded w.now_tick k) f w n w.now_tick (due w.now_tick n) (omega arith)
        (omega arith) r.0 r.1 (λ q. (q.0, λ lo hi. q.1 lo)) h in
    let w' = insert_node w n (due w.now_tick n) w.now_tick in
    let q =
      cascade_walk_lem k f w' ns (subst (λ m. Each (Cascaded m k) w'.buckets) (sym p.3) p.0)
        (subst (λ m. All (λ x. x.expiry_tick < m + 2 ^ 32) ns) (sym p.3) a.1) in
    (
      subst (λ m. Each (Cascaded m k) (cascade_walk w' ns).buckets) p.3 q.0,
      q.1 ∙ p.3,
      omega (arith, q.2, p.1),
      omega (arith, q.3, p.2),
    )

pub At-range : (low l j : ℕ) (n : Node) → At low l j n → n.expiry_tick < low + 2 ^ 32
At-range low l j n h = ground (arith, Homed-range low l j (due low n) h)

-- A node of a level that is cascaded now, or not due, has its turn later unless it lies at home.
pub up_one :
    (low k l j : ℕ) (n : Node)
    → (l ≡ suc k → low % 2 ^ (8 * l) ≡ 0 → slot_of l low ≢ j)
    → Cascaded low k l j n
    → Cascaded low (suc k) l j n
up_one low k l j n away (h, later) = (
  h,
  λ lo hi. elim (dec_le l k) [
    | yes below ↦ later lo below
    | no above ↦ elim (ℕ_discrete (turn_of l (due low n)) low) [
      | yes now ↦
          let p = turn_is_home low l j (due low n) h now in absurd (away (omega arith) p.0 p.1)
      | no other ↦ omega (arith, h.turn)
    ]
  ],
)

pub emptied :
    (low k : ℕ) (b : Buckets)
    → Each (Cascaded low k) b
    → Each (Cascaded low (suc k)) (place b (suc k) (slot_of (suc k) low) [])
emptied low k b h l j = elim (ℕ_discrete (suc k) l) [
  | yes e ↦ elim (ℕ_discrete (slot_of (suc k) low) j) [
    | yes f ↦ rw (eq→== (suc k) l e, eq→== (slot_of (suc k) low) j f) tt
    | no f ↦
        rw (eq→== (suc k) l e, ne→== (slot_of (suc k) low) j f)
          (All-map (b l j) (λ n. up_one low k l j n (λ p q r. f (ap (λ x. slot_of x low) e ∙ r)))
            (h l j))
  ]
  | no e ↦
      rw (ne→== (suc k) l e)
        (All-map (b l j) (λ n. up_one low k l j n (λ p q r. e (sym p))) (h l j))
]

-- One level's cascade.
pub cascade_lem :
    (k : ℕ) (f : Node → ℕ) (w : Wheel)
    → suc k < levels
    → Each (Cascaded w.now_tick k) w.buckets
    → w.count ≡ total one w.buckets
    → Each (Cascaded w.now_tick (suc k)) (cascade w (suc k)).buckets
      × ((cascade w (suc k)).now_tick ≡ w.now_tick)
      × (total f (cascade w (suc k)).buckets ≡ total f w.buckets)
      × ((cascade w (suc k)).count ≡ w.count)
unfolding cascade
cascade_lem k f w fit h c =
    let home = slot_of (suc k) w.now_tick in
    let ns = w.buckets (suc k) home in
    let small : home < 256 = omega arith in
    let w' : Wheel = record w {
      buckets = place w.buckets (suc k) home [];
      count = w.count - length ns;
    } in
    let r =
      cascade_walk_lem (suc k) f w' ns (emptied w.now_tick k w.buckets h)
        (All-map ns (λ n p. At-range w.now_tick (suc k) home n p.0) (h (suc k) home)) in
    (
      r.0,
      r.1,
      omega (arith, r.2, total-place f w.buckets (suc k) home [] fit small),
      omega (arith, r.3, c, weigh-one ns, weigh-le-total one w.buckets (suc k) home fit small),
    )

pub not_due :
    (now l k : ℕ)
    → slots_per_level * 2 ^ (8 * (suc k - 1)) ≡ 2 ^ (8 * suc k)
    → (now % (slots_per_level * 2 ^ (8 * (suc k - 1))) == 0) ≡ false
    → l ≡ suc k
    → now % 2 ^ (8 * l) ≡ 0
    → ⊥
not_due now l k e miss p q =
    let x = ap (λ m. now % m) (e ∙ ap (λ x. 2 ^ (8 * x)) (sym p)) ∙ q in cc (sym miss ∙ eq→== _ _ x)

pub cascade_due_lem :
    (k : ℕ) (f : Node → ℕ) (w : Wheel)
    → slots_per_level * 2 ^ (8 * (suc k - 1)) ≡ 2 ^ (8 * suc k)
    → suc k < levels
    → Each (Cascaded w.now_tick k) w.buckets
    → w.count ≡ total one w.buckets
    → Each (Cascaded w.now_tick (suc k)) (cascade_due w (suc k)).buckets
      × ((cascade_due w (suc k)).now_tick ≡ w.now_tick)
      × (total f (cascade_due w (suc k)).buckets ≡ total f w.buckets)
      × ((cascade_due w (suc k)).count ≡ w.count)
unfolding cascade_due
cascade_due_lem k f w e fit h c =
    elim (Bool-cases (w.now_tick % (slots_per_level * 2 ^ (8 * (suc k - 1))) == 0)) [
      | inl hit ↦ rw hit (cascade_lem k f w fit h c)
      | inr miss ↦ rw miss (
        (λ l j.
            All-map (w.buckets l j)
              (λ n. up_one w.now_tick k l j n (λ p q r. not_due w.now_tick l k e miss p q))
              (h l j)),
        refl,
        refl,
        refl,
      )
    ]

-- After the cascades of a tick, what lies above level 0 waits for a later tick.
pub cascades_lem :
    (f : Node → ℕ) (w : Wheel)
    → Each (At w.now_tick) w.buckets
    → w.count ≡ total one w.buckets
    → Each (Cascaded w.now_tick 3) (cascades w).buckets
      × ((cascades w).now_tick ≡ w.now_tick)
      × (total f (cascades w).buckets ≡ total f w.buckets)
      × ((cascades w).count ≡ total one (cascades w).buckets)
cascades_lem f w h c =
    let start : Each (Cascaded w.now_tick 0) w.buckets =
      λ l j. All-map (w.buckets l j) (λ n p. (p, λ lo hi. absurd (omega arith))) (h l j) in
    let w1 = cascade_due w 1 in
    let w2 = cascade_due w1 2 in
    let a = cascade_due_lem 0 f w refl (omega arith) start c in
    let a' = cascade_due_lem 0 one w refl (omega arith) start c in
    let h1 : Each (Cascaded w1.now_tick 1) w1.buckets =
      subst (λ m. Each (Cascaded m 1) w1.buckets) (sym a.1) a.0 in
    let c1 : w1.count ≡ total one w1.buckets = omega (arith, a.3, a'.2, c) in
    let b = cascade_due_lem 1 f w1 refl (omega arith) h1 c1 in
    let b' = cascade_due_lem 1 one w1 refl (omega arith) h1 c1 in
    let h2 : Each (Cascaded w2.now_tick 2) w2.buckets =
      subst (λ m. Each (Cascaded m 2) w2.buckets) (sym b.1) b.0 in
    let c2 : w2.count ≡ total one w2.buckets = omega (arith, b.3, b'.2, c1) in
    let d = cascade_due_lem 2 f w2 refl (omega arith) h2 c2 in
    let d' = cascade_due_lem 2 one w2 refl (omega arith) h2 c2 in
    (
      subst (λ m. Each (Cascaded m 3) (cascades w).buckets) (b.1 ∙ a.1) d.0,
      d.1 ∙ b.1 ∙ a.1,
      d.2 ∙ b.2 ∙ a.2,
      omega (arith, d.3, d'.2, c2),
    )
