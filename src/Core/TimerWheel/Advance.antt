-- ===== src/Core/TimerWheel/Advance.antt =====
-- `advance`: from the wheel's tick to the target every timer fires in its tick, once.
use affini_x.Base.{
  ℕ, zero, suc, ◌+◌, ◌%◌, ◌^◌, ◌≤◌, ◌<◌, ◌≡◌, refl, sym, ap, ◌∙◌, ◌⊎◌, inl, inr, true, false, List,
  [], ◌++◌, arith, ltb, length, All, if◌then◌else◌, ℕ_discrete, subst, dec_lt, min, eq→==, ne→==,
  lt→ltb,
}
use affini_x.Core.TimerWheel.Grid.{Each, All-map, All-append, total, weigh, weigh-append, one}
use affini_x.Core.TimerWheel.Tidy.{At, IsTidy}
use affini_x.Core.TimerWheel.Sweep.{Swept, SweptBy, rearmed, expire_slot_lem, Cascaded-Swept}
use affini_x.Core.TimerWheel.Cascade.{cascades_lem}
use affini_x.Core.TimerWheel.{
  Node, Wheel, cascades, expire_slot, step, sweep, prime, advance, advance_primed,
}
use affini_x.Core.TimerWheel.Prime.{rearmed-append, empty_All, prime_lem}

module _ (fire : Node → List Node) (Q : Node → Type 0) where
  step_lem :
      (w : Wheel)
      → IsTidy (w.now_tick + 1) w
      → ((n : Node) → All (λ m. (m.expiry_tick < w.now_tick + 1 + 2 ^ 32) × Q m) (fire n))
      → SweptBy fire Q (w.now_tick + 1) w (step fire w).0 (step fire w).1
  unfolding step
  step_lem w t fit =
      let w0 : Wheel = record w { now_tick = w.now_tick + 1 } in
      let c = cascades_lem one w0 t.homed t.counted in
      let w1 = cascades w0 in
      let h : Each (Swept Q (w.now_tick + 1)) w1.buckets =
        λ l j. All-map (w1.buckets l j) (λ n. Cascaded-Swept Q (w.now_tick + 1) l j n) (c.0 l j) in
      let r =
        expire_slot_lem fire Q (length (w1.buckets 0 (w1.now_tick % 256))) (w.now_tick + 1) w1
          (w1.buckets 0 (w1.now_tick % 256)) c.1 (ap (λ m. w1.buckets 0 (m % 256)) (sym c.1))
          (omega arith) fit h c.3 in
      let fuel = length (w1.buckets 0 (w1.now_tick % 256)) in
      let moved =
        subst
          (λ m.
            let r = expire_slot fire fuel (m % 256) w1 in
            SweptBy fire Q (w.now_tick + 1) w1 r.0 r.1)
          (sym c.1) r in
      record {
        waiting = moved.waiting;
        punctual = moved.punctual;
        same_now = moved.same_now;
        counted = moved.counted;
        conserved = λ f.
            moved.conserved f
            ∙ ap (λ x. x + weigh f (rearmed fire (step fire w).0))
                (cascades_lem f w0 t.homed t.counted).2;
        fired_due = moved.fired_due;
      }

  -- What `advance` leaves of a wheel `w`, and what it has fired.
  pub record Advanced (w : Wheel) (ns : List Node) (w' : Wheel) : Type 0 where
    pub tidy : IsTidy (w'.now_tick + 1) w'
    pub conserved :
        (f : Node → ℕ)
        → total f w'.buckets + weigh f ns ≡ total f w.buckets + weigh f (rearmed fire ns)
    pub fired_due : All (λ n. n.expiry_tick ≤ w'.now_tick) ns
    pub forward : w.now_tick ≤ w'.now_tick
    pub punctual : Each (λ l j n. n.expiry_tick ≤ w'.now_tick → Q n) w'.buckets

  FitFrom : ℕ → Type 0
  FitFrom now = (n : Node) → All (λ m. (m.expiry_tick < now + 1 + 2 ^ 32) × Q m) (fire n)

  FitFrom-later : (a b : ℕ) → a ≤ b → FitFrom a → FitFrom b
  unfolding FitFrom
  FitFrom-later a b h fit n =
      All-map {Q = λ m. (m.expiry_tick < b + 1 + 2 ^ 32) × Q m} (fire n)
        (λ m p. (omega (arith, p.0, h), p.1)) (fit n)

  stay :
      (w : Wheel)
      → IsTidy (w.now_tick + 1) w
      → Each (λ l j n. n.expiry_tick ≤ w.now_tick → Q n) w.buckets
      → Advanced w [] w
  stay w t p = record {
    tidy = t;
    conserved = λ f. refl;
    fired_due = tt;
    forward = omega arith;
    punctual = p;
  }

  stepped-IsTidy :
      (w : Wheel)
      → SweptBy fire Q (w.now_tick + 1) w (step fire w).0 (step fire w).1
      → IsTidy ((step fire w).1.now_tick + 1) (step fire w).1
  stepped-IsTidy w s = record {
    homed = subst (λ m. Each (At (m + 1)) (step fire w).1.buckets) (sym s.same_now) s.waiting;
    counted = s.counted;
  }

  -- One tick, and then an advance from there.
  after_step :
      (w : Wheel) (ns : List Node) (w' : Wheel)
      → SweptBy fire Q (w.now_tick + 1) w (step fire w).0 (step fire w).1
      → Advanced (step fire w).1 ns w'
      → Advanced w ((step fire w).0 ++ ns) w'
  after_step w ns w' s a = record {
    tidy = a.tidy;
    conserved = λ f. omega (
      arith,
      s.conserved f,
      a.conserved f,
      weigh-append f (step fire w).0 ns,
      rearmed-append fire f (step fire w).0 ns,
    );
    fired_due =
        All-append (λ n. n.expiry_tick ≤ w'.now_tick) (step fire w).0 ns
          (All-map (step fire w).0 (λ n p. omega (arith, a.forward, s.same_now, p)) s.fired_due)
          a.fired_due;
    forward = omega (arith, a.forward, s.same_now);
    punctual = a.punctual;
  }

  sweep-stop :
      (rounds target : ℕ) (w : Wheel) → target ≤ w.now_tick → sweep fire rounds target w ≡ ([], w)
  unfolding sweep
  sweep-stop zero target w h = refl
  sweep-stop (suc rounds) target w h =
      let t : ltb w.now_tick target ≡ false = ground arith in rw (t, sweep) refl

  sweep-go :
      (rounds target : ℕ) (w : Wheel)
      → w.now_tick < target
      → let r = sweep fire rounds target (step fire w).1 in
        sweep fire (suc rounds) target w ≡ ((step fire w).0 ++ r.0, r.1)
  unfolding sweep
  sweep-go rounds target w h =
      let t : ltb w.now_tick target ≡ true = ground arith in rw (t, sweep) refl

  sweep_from :
      (rounds target : ℕ) (w : Wheel)
      → IsTidy (w.now_tick + 1) w
      → FitFrom w.now_tick
      → Each (λ l j n. n.expiry_tick ≤ w.now_tick → Q n) w.buckets
      → let r = sweep fire rounds target w in
        Advanced w r.0 r.1
        × (r.1.now_tick
            ≡ (if ltb w.now_tick target then min target (w.now_tick + rounds) else w.now_tick))
  unfolding sweep
  sweep_from zero target w t fit p = (stay w t p, ground arith)
  sweep_from (suc rounds) target w t fit p = elim (dec_lt w.now_tick target) [
    | no done ↦ rw (sweep-stop (suc rounds) target w (omega arith)) (stay w t p, ground arith)
    | yes more ↦
        let s = step_lem w t (unfold FitFrom in fit) in
        let w1 = (step fire w).1 in
        let r =
          sweep_from rounds target w1 (stepped-IsTidy w s)
            (FitFrom-later w.now_tick w1.now_tick (omega (arith, s.same_now)) fit)
            (subst (λ m. Each (λ l j n. n.expiry_tick ≤ m → Q n) w1.buckets) (sym s.same_now)
              s.punctual) in
        rw (sweep-go rounds target w more) (after_step w _ _ s r.0, ground (arith, r.1, s.same_now))
  ]

  -- A sweep of at least one tick asks nothing of the timers that are overdue at its start.
  sweep_lem :
      (rounds target : ℕ) (w : Wheel)
      → IsTidy (w.now_tick + 1) w
      → FitFrom w.now_tick
      → w.now_tick < target
      → 0 < rounds
      → let r = sweep fire rounds target w in
        Advanced w r.0 r.1 × (r.1.now_tick ≡ min target (w.now_tick + rounds))
  sweep_lem zero target w t fit more some_rounds = absurd (omega arith)
  sweep_lem (suc rounds) target w t fit more some_rounds =
      let s = step_lem w t (unfold FitFrom in fit) in
      let w1 = (step fire w).1 in
      let r =
        sweep_from rounds target w1 (stepped-IsTidy w s)
          (FitFrom-later w.now_tick w1.now_tick (omega (arith, s.same_now)) fit)
          (subst (λ m. Each (λ l j n. n.expiry_tick ≤ m → Q n) w1.buckets) (sym s.same_now)
            s.punctual) in
      rw (sweep-go rounds target w more) (after_step w _ _ s r.0, ground (arith, r.1, s.same_now))

  -- `advance` on a wheel that has its epoch.
  advance_ready :
      (w : Wheel) (target : ℕ)
      → IsTidy (w.now_tick + 1) w
      → FitFrom w.now_tick
      → w.now_tick < target
      → target ≤ w.now_tick + w.max_ticks_per_call
      → let r = advance_primed fire w target in Advanced w r.0 r.1 × (r.1.now_tick ≡ target)
  unfolding advance_primed
  advance_ready w target t fit more bound = elim (ℕ_discrete w.count 0) [
    | yes none_left ↦
        rw (eq→== w.count 0 none_left, lt→ltb w.now_tick target more)
          (
            record {
              tidy = record {
                homed = empty_All (At (target + 1)) w (w.now_tick + 1) t none_left;
                counted = t.counted;
              };
              conserved = λ f. refl;
              fired_due = tt;
              forward = omega arith;
              punctual =
                  empty_All (λ l j n. n.expiry_tick ≤ target → Q n) w (w.now_tick + 1) t none_left;
            },
            refl,
          )
    | no timers ↦ rw (ne→== w.count 0 timers) (
        let r = sweep_lem w.max_ticks_per_call target w t fit more (omega arith) in
        (r.0, omega (arith, r.1, bound)))
  ]

  primed_start :
      (w : Wheel) (target : ℕ) → w.primed ≡ true → (if w.primed then w else prime w target) ≡ w
  primed_start w target e = ground arith

  unprimed_start :
      (w : Wheel) (target : ℕ)
      → w.primed ≡ false
      → (if w.primed then w else prime w target) ≡ prime w target
  unprimed_start w target e = ground arith

  -- `advance` from a tidy wheel to a later tick, at most `max_ticks_per_call` ahead once the epoch is
  -- set, or the first one, to at least the second tick and with a `max_ticks_per_call` that is not 0: the wheel arrives at `target` and is tidy again; what fires is due; the
  -- timers queued and fired afterwards are those queued before and re-armed meanwhile, each as often;
  -- and a timer that is due but still queued is one that a callback has re-armed (`Q` holds of it).
  pub advance_lem :
      (w : Wheel) (target : ℕ)
      → IsTidy (w.now_tick + 1) w
      → ((n : Node) → All (λ m. (m.expiry_tick < w.now_tick + 1 + 2 ^ 32) × Q m) (fire n))
      → ((w.primed ≡ true) × (w.now_tick < target) × (target ≤ w.now_tick + w.max_ticks_per_call))
        ⊎ ((w.primed ≡ false) × (w.now_tick + 1 < target) × (0 < w.max_ticks_per_call))
      → let r = advance fire w target in Advanced w r.0 r.1 × (r.1.now_tick ≡ target)
  unfolding advance FitFrom
  advance_lem w target t fit (inl (p, more, bound)) =
      subst
        (λ v. let r = advance_primed fire v target in Advanced w r.0 r.1 × (r.1.now_tick ≡ target))
        (sym (primed_start w target p)) (advance_ready w target t fit more bound)
  advance_lem w target t fit (inr (p, more, some_rounds)) =
      let q = prime_lem one w target more t in
      let w' = prime w target in
      let r =
        advance_ready w' target q.1 (FitFrom-later w.now_tick w'.now_tick (omega (arith, q.0)) fit)
          (omega (arith, q.0)) (omega (arith, q.0, q.3)) in
      subst
        (λ v. let r = advance_primed fire v target in Advanced w r.0 r.1 × (r.1.now_tick ≡ target))
        (sym (unprimed_start w target p))
        (
          record {
            tidy = r.0.tidy;
            conserved = λ f.
                r.0.conserved f
                ∙ ap (λ x. x + weigh f (rearmed fire (advance_primed fire w' target).0))
                    (prime_lem f w target more t).2;
            fired_due = r.0.fired_due;
            forward = omega (arith, r.0.forward, q.0);
            punctual = r.0.punctual;
          },
          r.1,
        )
