-- ===== src/Core/TimerWheel/NextDue.antt =====
-- `next_due_tick`: a lower bound on every due time, and later than the wheel's tick.
use affini_x.Base.{
  ℕ, zero, suc, ◌+◌, ◌-◌, ◌^◌, ◌≤◌, ◌<◌, ◌≡◌, refl, sym, ap, ◌≢◌, false, List, [], ◌∷◌, arith, ltb,
  All, if◌then◌else◌, ℕ_discrete, subst, ne→==,
}
use affini_x.Core.TimerWheel.Arith.{Homed, Homed-range}
use affini_x.Core.TimerWheel.Grid.{Each, All-map, weigh, weigh-le-total, one}
use affini_x.Core.TimerWheel.Tidy.{due, At, IsTidy}
use affini_x.Core.TimerWheel.{
  Node, Wheel, levels, slots_per_level, candidate, is_empty, due_slots, due_levels, next_due_tick,
}

candidate-le : (now l j et : ℕ) → Homed (now + 1) l j et → (candidate now l j ≤ et)
candidate-le now zero j et h = ground (arith, h.slot_fits, h.turn, h.reach)
candidate-le now (suc zero) j et h = ground (arith, h.slot_fits, h.turn, h.reach)
candidate-le now (suc (suc zero)) j et h = ground (arith, h.slot_fits, h.turn, h.reach)
candidate-le now (suc (suc (suc zero))) j et h = ground (arith, h.slot_fits, h.turn, h.reach)
candidate-le now (suc (suc (suc (suc l)))) j et h = absurd (omega (arith, h.level_fits))

due_slots-le : (w : Wheel) (l count j best : ℕ) → due_slots w l count j best ≤ best
unfolding due_slots
due_slots-le w l zero j best = omega arith
due_slots-le w l (suc count) j best =
    let b : ℕ =
      if is_empty (w.buckets l j)
      then best
      else if ltb (candidate w.now_tick l j) best
      then candidate w.now_tick l j
      else best in
    let h : b ≤ best = ground arith in omega (arith, due_slots-le w l count (j + 1) b)

due_slots-le-candidate :
    (w : Wheel) (l count j k best : ℕ)
    → j ≤ k
    → k < j + count
    → is_empty (w.buckets l k) ≡ false
    → due_slots w l count j best ≤ candidate w.now_tick l k
unfolding due_slots
due_slots-le-candidate w l zero j k best a b e = absurd (omega arith)
due_slots-le-candidate w l (suc count) j k best a b e =
    let m : ℕ =
      if is_empty (w.buckets l j)
      then best
      else if ltb (candidate w.now_tick l j) best
      then candidate w.now_tick l j
      else best in
    elim (ℕ_discrete j k) [
      | yes same ↦
          let e' : is_empty (w.buckets l j) ≡ false = rw same e in
          let h : m ≤ candidate w.now_tick l j = rw e' (ground arith) in
          let h' : m ≤ candidate w.now_tick l k =
            subst (λ x. m ≤ candidate w.now_tick l x) same h in
          omega (arith, due_slots-le w l count (j + 1) m)
      | no other ↦ due_slots-le-candidate w l count (j + 1) k m (omega arith) (omega arith) e
    ]

due_levels-le : (w : Wheel) (count l best : ℕ) → due_levels w count l best ≤ best
unfolding due_levels
due_levels-le w zero l best = omega arith
due_levels-le w (suc count) l best = omega (
  arith,
  due_levels-le w count (l + 1) (due_slots w l slots_per_level 0 best),
  due_slots-le w l slots_per_level 0 best,
)

due_levels-le-candidate :
    (w : Wheel) (count l m k best : ℕ)
    → l ≤ m
    → m < l + count
    → k < slots_per_level
    → is_empty (w.buckets m k) ≡ false
    → due_levels w count l best ≤ candidate w.now_tick m k
unfolding due_levels
due_levels-le-candidate w zero l m k best a b c e = absurd (omega arith)
due_levels-le-candidate w (suc count) l m k best a b c e = elim (ℕ_discrete l m) [
  | yes same ↦
      let e' : is_empty (w.buckets l k) ≡ false = rw same e in
      let x = due_slots w l slots_per_level 0 best in
      let p : x ≤ candidate w.now_tick l k =
        due_slots-le-candidate w l slots_per_level 0 k best (omega arith) (omega arith) e' in
      let p' : x ≤ candidate w.now_tick m k = subst (λ y. x ≤ candidate w.now_tick y k) same p in
      omega (arith, due_levels-le w count (l + 1) x)
  | no other ↦
      due_levels-le-candidate w count (l + 1) m k (due_slots w l slots_per_level 0 best)
        (omega arith) (omega arith) c e
]

bound_of :
    (w : Wheel) (l j : ℕ) (n m : Node) (ns : List Node)
    → IsTidy (w.now_tick + 1) w
    → w.buckets l j ≡ m ∷ ns
    → At (w.now_tick + 1) l j n
    → next_due_tick w ≤ due (w.now_tick + 1) n
unfolding next_due_tick
bound_of w l j n m ns t e a =
    let r = Homed-range (w.now_tick + 1) l j (due (w.now_tick + 1) n) a in
    let heavy : weigh one (m ∷ ns) ≡ weigh one (w.buckets l j) = ap (weigh one) (sym e) in
    let busy : w.count ≢ 0 =
      omega (arith, t.counted, weigh-le-total one w.buckets l j a.level_fits r.2, heavy) in
    let full : is_empty (w.buckets l j) ≡ false = rw e refl in
    let c = candidate-le w.now_tick l j (due (w.now_tick + 1) n) a in
    let d =
      due_levels-le-candidate w levels 0 l j (2 ^ 64 - 1) (omega arith)
        (omega (arith, a.level_fits)) r.2 full in
    rw (ne→== w.count 0 busy) (omega (arith, c, d))

-- The tick that `next_due_tick` names is no later than any queued timer's due time, so a scheduler
-- that jumps to it passes over no timer.
pub next_due_tick-le :
    (w : Wheel)
    → IsTidy (w.now_tick + 1) w
    → Each (λ l j n. next_due_tick w ≤ due (w.now_tick + 1) n) w.buckets
next_due_tick-le w t l j = go (w.buckets l j) refl (t.homed l j)
  where
    go :
        (ns : List Node)
        → w.buckets l j ≡ ns
        → All (At (w.now_tick + 1) l j) ns
        → All (λ n. next_due_tick w ≤ due (w.now_tick + 1) n) ns
    go [] e a = tt
    go (m ∷ ns) e a = All-map (m ∷ ns) (λ n h. bound_of w l j n m ns t e h) a
