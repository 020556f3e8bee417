-- ===== src/Core/TimerWheel/Prime.antt =====
-- Priming: the wheel is set on its first tick, and every timer keeps its place in time.
use affini_x.Base.{
  ℕ, ◌+◌, ◌-◌, ◌^◌, ◌<◌, ◌≡◌, refl, sym, ap, ◌∙◌, true, false, List, [], ◌∷◌, ◌++◌, arith, ◌==◌,
  length, All, subst,
}
use affini_x.Core.TimerWheel.Arith.{Homed-range}
use affini_x.Core.TimerWheel.Grid.{
  Each, All-map, total, weigh, weigh-one, weigh-le-total, weigh-append, one, total-empty,
  gather-total, gather-All,
}
use affini_x.Core.TimerWheel.Tidy.{due, At, IsTidy, insert_node_lem, insert_node-max, due_range}
use affini_x.Core.TimerWheel.Sweep.{rearmed}
use affini_x.Core.TimerWheel.Cascade.{At-range}
use affini_x.Core.TimerWheel.{Node, Wheel, levels, insert_node, gather, rehome, prime}

pub rearmed-append :
    (fire : Node → List Node) (f : Node → ℕ) (xs ys : List Node)
    → weigh f (rearmed fire (xs ++ ys)) ≡ weigh f (rearmed fire xs) + weigh f (rearmed fire ys)
rearmed-append fire f [] ys = omega arith
rearmed-append fire f (x ∷ xs) ys = omega (
  arith,
  weigh-append f (fire x) (rearmed fire (xs ++ ys)),
  weigh-append f (fire x) (rearmed fire xs),
  rearmed-append fire f xs ys,
)

-- A tidy wheel that counts no node holds none.
pub empty_All :
    (P : ℕ → ℕ → Node → Type 0) (w : Wheel) (low : ℕ)
    → IsTidy low w
    → w.count ≡ 0
    → Each P w.buckets
empty_All P w low t z l j = go (w.buckets l j) refl
  where
    go : (ns : List Node) → w.buckets l j ≡ ns → All (P l j) ns
    go [] e = tt
    go (n ∷ ns) e =
        let a : All (At low l j) (n ∷ ns) = subst (All (At low l j)) e (t.homed l j) in
        let heavy : weigh one (n ∷ ns) ≡ weigh one (w.buckets l j) = ap (weigh one) (sym e) in
        absurd (
          omega (
            arith,
            t.counted,
            weigh-le-total one w.buckets l j a.0.level_fits (Homed-range low l j (due low n) a.0).2,
            heavy,
          ))

-- The wheel that `prime` leaves, its nodes re-placed one by one.
pub rehome_lem :
    (f : Node → ℕ) (w : Wheel) (low : ℕ) (ns : List Node)
    → low ≡ w.now_tick + 1
    → Each (At low) w.buckets
    → All (λ n. n.expiry_tick < w.now_tick + 2 ^ 32) ns
    → Each (At low) (rehome w low ns).buckets
      × ((rehome w low ns).now_tick ≡ w.now_tick)
      × (total f (rehome w low ns).buckets ≡ total f w.buckets + weigh f ns)
      × ((rehome w low ns).count ≡ w.count + length ns)
      × ((rehome w low ns).max_ticks_per_call ≡ w.max_ticks_per_call)
unfolding rehome
rehome_lem f w low [] e h a = (h, refl, omega arith, omega arith, refl)
rehome_lem f w low (n ∷ ns) e h a =
    let r = due_range low w.now_tick n (omega arith) a.0 in
    let p =
      insert_node_lem (At low) f w n low (due low n) (omega arith) (omega arith) r.0 r.1 (λ q. q.0)
        h in
    let w' = insert_node w n (due low n) w.now_tick in
    let q =
      rehome_lem f w' low ns (omega (arith, p.3)) p.0
        (subst (λ m. All (λ x. x.expiry_tick < m + 2 ^ 32) ns) (sym p.3) a.1) in
    (
      q.0,
      q.1 ∙ p.3,
      omega (arith, q.2, p.1),
      omega (arith, q.3, p.2),
      q.4 ∙ insert_node-max w n (due low n) w.now_tick,
    )

-- The first `advance` moves the epoch: no timer is lost, and all are placed for the new tick.
pub prime_lem :
    (f : Node → ℕ) (w : Wheel) (target : ℕ)
    → w.now_tick + 1 < target
    → IsTidy (w.now_tick + 1) w
    → ((prime w target).now_tick ≡ target - 1)
      × IsTidy ((prime w target).now_tick + 1) (prime w target)
      × (total f (prime w target).buckets ≡ total f w.buckets)
      × ((prime w target).max_ticks_per_call ≡ w.max_ticks_per_call)
unfolding prime
prime_lem f w target h t =
    let z : (target == 0) ≡ false = ground arith in
    let ns = gather w.buckets levels 0 in
    let w0 : Wheel = record w {
      primed = true;
      count = 0;
      now_tick = target - 1;
      buckets = λ l j. [];
    } in
    let fit =
      gather-All (λ n. n.expiry_tick < target - 1 + 2 ^ 32) w.buckets levels 0
        (λ l j.
          All-map (w.buckets l j) (λ n a. omega (arith, At-range (w.now_tick + 1) l j n a))
            (t.homed l j)) in
    let r = rehome_lem f w0 target ns (omega arith) (λ l j. tt) fit in
    let r1 = rehome_lem one w0 target ns (omega arith) (λ l j. tt) fit in
    rw z (
      r.1,
      record {
        homed = subst (λ m. Each (At m) (rehome w0 target ns).buckets) (omega (arith, r.1)) r.0;
        counted = omega (arith, r1.2, r1.3, total-empty one, weigh-one ns);
      },
      omega (arith, r.2, total-empty f, gather-total f w.buckets),
      r.4,
    )
