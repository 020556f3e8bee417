-- ===== src/Core/EventManager/Rate.antt =====
-- A timer of fixed rate is linked again at the first of its slots behind the present.
use affini_x.Base.{
  ℕ, zero, suc, ◌+◌, ◌*◌, ◌≤◌, ◌<◌, ◌≡◌, refl, ap, subst, ◌∙◌, true, false, Option, some, [], arith,
  ltb, leb, set, dec_le,
}
use affini_x.Core.EventManager.{
  fixed_rate, TimerNode, Timers, get, put, either, insert_timer, unlink_timer, calls,
  before_callback, at_callback, after_callback, fire_timer, expire_node, expire,
}
use affini_x.Core.EventManager.{coalesce}
use affini_x.Core.EventManager.Sound.{get-put}

mul_suc : (m p : ℕ) → (m + 1) * p ≡ m * p + p
mul_suc m p = omega arith

-- `r` is the first slot behind `now` of a timer whose slots are `t`, `t + p` and so on, and the slots that
-- it passes over.
abbrev pub IsNext : ℕ → ℕ → ℕ → ℕ × ℕ → Type 0
IsNext t p now r = (r.0 ≡ t + (r.1 + 1) * p) × (t + r.1 * p ≤ now) × (now < r.0)

slot_after : (t p m : ℕ) → t + (m + 1) * p + p ≡ t + (m + 1 + 1) * p
slot_after t p m = omega arith

coalesce-IsNext :
    (fuel now p t next m : ℕ)
    → 0 < p
    → next ≡ t + (m + 1) * p
    → t + m * p ≤ now
    → now < next + fuel
    → IsNext t p now (coalesce fuel now p next m)
unfolding coalesce
coalesce-IsNext zero now p t next m h e le lt = (e, le, omega (arith, lt))
coalesce-IsNext (suc n) now p t next m h e le lt = elim (dec_le next now) [
  | yes q ↦
      let reached : leb next now ≡ true = ground arith in
      rw reached (
        coalesce-IsNext n now p t (next + p) (m + 1) h (ap (λ x. x + p) e ∙ slot_after t p m)
          (subst (λ x. x ≤ now) e q) (omega (arith, lt, h)))
  | no q ↦
      let beyond : leb next now ≡ false = ground arith in
      let gt : now < next = omega (arith, q) in rw beyond (e, le, gt)
]

-- A timer of fixed rate that the wheel or the heap holds.
abbrev pub rate_timer : ℕ → ℕ → Option ℕ → TimerNode
rate_timer t p g = record {
  expiry = t;
  period = p;
  mode = fixed_rate;
  cancelled = false;
  group = g;
  is_linked = true;
  is_dead = false;
}

positive_true : (p : ℕ) → 0 < p → ltb 0 p ≡ true
positive_true p h = ground arith

-- The loop once a timer of fixed rate has fired.
abbrev after_rate : ℕ → ℕ → ℕ → Option ℕ → ℕ × ℕ → Timers → Timers
after_rate id t p g r s =
    let st = s.stats in
    record (put id (rate_timer r.0 p g) (put id (unlink_timer (rate_timer t p g)) s)) {
      stats = record st { coalesced = st.coalesced + r.1; fired = st.fired + 1 };
      is_broken = either s.is_broken false;
    }

expire_rate :
    (id t p : ℕ) (g : Option ℕ) (s : Timers)
    → get id s ≡ some (rate_timer t p g)
    → 0 < p
    → expire id [] s ≡ after_rate id t p g (coalesce (s.now + 1) s.now p (t + p) 0) s
unfolding expire fire_timer at_callback before_callback after_callback calls insert_timer
expire_rate id t p g s e h =
    let n1 = unlink_timer (rate_timer t p g) in
    let s0 = put id n1 s in
    let r = coalesce (s.now + 1) s.now p (t + p) 0 in
    let s2 = after_rate id t p g r s in
    let e1 = get-put s.timers id (rate_timer t p g) n1 e in
    let e2 = get-put (set s.timers id (some n1)) id n1 (rate_timer r.0 p g) e1 in
    let fires : expire id [] s
        ≡ after_callback id n1 (get id (at_callback id n1 s0)) (at_callback id n1 s0) =
      ap (λ o. expire_node id [] o s) e in
    let links : at_callback id n1 s0 ≡ s2 = rw (positive_true p h) refl in
    let ends' : after_callback id n1 (get id s2) s2 ≡ s2 =
      ap (λ o. after_callback id n1 o s2) e2 ∙ rw (positive_true p h) refl in
    fires ∙ ap (λ x. after_callback id n1 (get id x) x) links ∙ ends'

-- A timer of fixed rate that comes up when it is due or later is linked again in its phase: at its first
-- slot behind the present, and the slots that it passes over are counted as coalesced.
pub expire_rate_lem :
    (id t p : ℕ) (g : Option ℕ) (s : Timers)
    → get id s ≡ some (rate_timer t p g)
    → 0 < p
    → t ≤ s.now
    → (k : ℕ) × (get id (expire id [] s) ≡ some (rate_timer (t + (k + 1) * p) p g))
      × (t + k * p ≤ s.now)
      × (s.now < t + (k + 1) * p)
      × ((expire id [] s).stats.coalesced ≡ s.stats.coalesced + k)
expire_rate_lem id t p g s e h le =
    let n1 = unlink_timer (rate_timer t p g) in
    let r = coalesce (s.now + 1) s.now p (t + p) 0 in
    let q =
      coalesce-IsNext (s.now + 1) s.now p t (t + p) 0 h (omega arith) (omega (arith, le))
        (omega arith) in
    let e1 = get-put s.timers id (rate_timer t p g) n1 e in
    let e2 = get-put (set s.timers id (some n1)) id n1 (rate_timer r.0 p g) e1 in
    let done = expire_rate id t p g s e h in
    (
      r.1,
      ap (get id) done ∙ e2 ∙ ap (λ x. some (rate_timer x p g)) q.0,
      q.1,
      subst (λ x. s.now < x) q.0 q.2,
      ap (λ x. x.stats.coalesced) done,
    )
