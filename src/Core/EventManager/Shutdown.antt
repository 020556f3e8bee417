-- ===== src/Core/EventManager/Shutdown.antt =====
-- include/afx/core/event_manager.hpp: own, begin_shutdown and drain_step. The hooks of what a loop owns are an
-- interface; an object without one of the hooks has one that changes nothing, or is drained. Between two
-- polls the owned objects change as they like. The one timer that a drain step arms is its expiry; it stands in
-- the wheel, whose reach is 2^32 ticks, and comes up at the first tick of the wheel that is not before it. The
-- tick is config_.timer_tick; the wheel's advance over it is modelled with the wheel.
pub mod Owned
use native.Mathlib.Nat.{le-div_iff_mul-le, div-mul-le_self}
use affini_x.Core.TimerWheel.{tick_of, floor_tick}
use mathlib.Core.Bool.{true≢false}
use affini_x.Base.{
  ℕ, ◌+◌, ◌-◌, ◌≤◌, ◌<◌, ◌≡◌, refl, sym, ap, subst, ◌∙◌, Bool, true, false, ◌||◌, if◌then◌else◌,
  if_cases, Option, none, some, List, [], ◌∷◌, map, ◌⊎◌, inl, inr, leb, or_false, or_true, arith,
}

pub record Hooks (S : Type 0) : Type 0 where
  pub begin_hook : S → S
  pub notify_hook : S → S
  pub is_drained : S → Bool
  pub shutdown_write : S → S

-- Times in nanoseconds.
pub record Loop (S : Type 0) : Type 0 where
  pub owned : List S
  pub tick : ℕ
  pub now : ℕ
  pub shutting_down : Bool
  pub shutdown_deadline : ℕ
  pub drain_timer : Option ℕ
  pub stopped : Bool

is_past : (a b : ℕ) → a ≤ b → leb a b ≡ true
is_past a b q = ground arith

-- A tick after a time the clock's tick has reached the one that the time was rounded up to.
tick_reached : (tick a b : ℕ) → 0 < tick → a + tick ≤ b + 1 → tick_of tick a ≤ floor_tick tick b
unfolding tick_of floor_tick
tick_reached tick a b p q =
    (le-div_iff_mul-le p).1 (omega (arith, div-mul-le_self (a + tick - 1) tick, q))

module _ (S : Type 0) (h : Hooks S) where
  abbrev pub all_drained : List S → Bool
  all_drained [] = true
  all_drained (o ∷ os) = if h.is_drained o then all_drained os else false

  pub drain_step : Loop S → Loop S
  drain_step l =
      if all_drained l.owned || leb l.shutdown_deadline l.now
      then record l { owned = map h.shutdown_write l.owned; stopped = true }
      else record l { drain_timer = some (l.now + 1000000) }

  pub begin_shutdown : ℕ → Loop S → Loop S
  begin_shutdown deadline l =
      let started = record l {
        shutting_down = true;
        owned = map h.notify_hook (map h.begin_hook l.owned);
        shutdown_deadline = deadline;
      } in
      if l.shutting_down then l else drain_step started

  -- The wheel has come to a tick; what is due there is called, at the loop's time.
  pub fire_drain : ℕ → Option ℕ → Loop S → Loop S
  fire_drain reached none l = l
  fire_drain reached (some expiry) l =
      if leb (tick_of l.tick expiry) reached
      then drain_step (record l { drain_timer = none })
      else l

  -- A poll at a time, before which the owned objects have changed; a loop that has stopped polls no more.
  -- The wheel is `lag` ticks behind the clock after its advance: 0, unless the clock went more ticks ahead of
  -- it than one advance takes.
  pub poll : ℕ → ℕ → (List S → List S) → Loop S → Loop S
  poll t lag f l =
      if l.stopped
      then l
      else fire_drain (floor_tick l.tick t - lag) l.drain_timer
          (record l { now = t; owned = f l.owned })

  pub run : List (ℕ × ℕ × (List S → List S)) → Loop S → Loop S
  run [] l = l
  run ((t, lag, f) ∷ ps) l = run ps (poll t lag f l)

  -- A loop that drains has stopped, or has armed a timer that is due soon after the deadline.
  abbrev Drains : ℕ → ℕ → Loop S → Type 0
  Drains tick deadline l =
      (l.shutdown_deadline ≡ deadline)
      × (l.tick ≡ tick)
      × ((l.stopped ≡ true)
          ⊎ ((expiry : ℕ) × (expiry < deadline + 1000000) × (l.drain_timer ≡ some expiry)))

  drain_step-Drains : (l : Loop S) → Drains l.tick l.shutdown_deadline (drain_step l)
  unfolding drain_step
  drain_step-Drains l =
      let d = all_drained l.owned in
      let last : Loop S = record l { owned = map h.shutdown_write l.owned; stopped = true } in
      let next : Loop S = record l { drain_timer = some (l.now + 1000000) } in
      if_cases (Drains l.tick l.shutdown_deadline) (d || leb l.shutdown_deadline l.now) last next
        (λ e. (refl, refl, inl refl))
        (λ e. (
          refl,
          refl,
          inr (
            l.now + 1000000,
            soon l.shutdown_deadline l.now (or_false d (leb l.shutdown_deadline l.now) e).1,
            refl,
          ),
        ))
    where
      soon : (a b : ℕ) → leb a b ≡ false → b + 1000000 < a + 1000000
      soon a b e = ground arith

  fire_drain-Drains :
      (tick deadline reached : ℕ) (o : Option ℕ) (l : Loop S)
      → l.drain_timer ≡ o
      → Drains tick deadline l
      → Drains tick deadline (fire_drain reached o l)
  unfolding fire_drain
  fire_drain-Drains tick deadline reached none l e w = w
  fire_drain-Drains tick deadline reached (some expiry) l e w =
      let l1 : Loop S = record l { drain_timer = none } in
      if_cases (Drains tick deadline) (leb (tick_of l.tick expiry) reached) (drain_step l1) l
        (λ f.
          subst (λ n. Drains n deadline (drain_step l1)) w.1
            (subst (λ n. Drains l.tick n (drain_step l1)) w.0 (drain_step-Drains l1)))
        (λ f. w)

  poll-Drains :
      (tick deadline t lag : ℕ) (f : List S → List S) (l : Loop S)
      → Drains tick deadline l
      → Drains tick deadline (poll t lag f l)
  unfolding poll
  poll-Drains tick deadline t lag f l w =
      let l1 : Loop S = record l { now = t; owned = f l.owned } in
      let reached = floor_tick l.tick t - lag in
      if_cases (Drains tick deadline) l.stopped l (fire_drain reached l.drain_timer l1) (λ e. w)
        (λ e. fire_drain-Drains tick deadline reached l.drain_timer l1 refl w)

  run-Drains :
      (tick deadline : ℕ) (ps : List (ℕ × ℕ × (List S → List S))) (l : Loop S)
      → Drains tick deadline l
      → Drains tick deadline (run ps l)
  unfolding run
  run-Drains tick deadline [] l w = w
  run-Drains tick deadline ((t, lag, f) ∷ ps) l w =
      run-Drains tick deadline ps (poll t lag f l) (poll-Drains tick deadline t lag f l w)

  -- From the deadline on a drain step stops the loop.
  drain_step-stopped : (l : Loop S) → l.shutdown_deadline ≤ l.now → (drain_step l).stopped ≡ true
  unfolding drain_step
  drain_step-stopped l k =
      let d = all_drained l.owned in
      let last : Loop S = record l { owned = map h.shutdown_write l.owned; stopped = true } in
      ap (λ b. (if b then last else record l { drain_timer = some (l.now + 1000000) }).stopped)
        (ap (λ b. d || b) (is_past l.shutdown_deadline l.now k) ∙ or_true d)

  poll-stopped :
      (tick deadline t : ℕ) (f : List S → List S) (l : Loop S)
      → Drains tick deadline l
      → 0 < tick
      → deadline + 1000000 + tick ≤ t
      → (poll t 0 f l).stopped ≡ true
  unfolding poll fire_drain
  poll-stopped tick deadline t f l w p k =
      let l1 : Loop S = record l { now = t; owned = f l.owned } in
      let reached = floor_tick l.tick t - 0 in
      if_cases (λ (x : Loop S). x.stopped ≡ true) l.stopped l (fire_drain reached l.drain_timer l1)
        (λ e. e)
        (λ e. elim w.2 [
          | inl d ↦ absurd (true≢false (sym d ∙ e))
          | inr d ↦
              subst (λ o. (fire_drain reached o l1).stopped ≡ true) (sym d.2) (due_now d.0 d.1)
        ])
    where
      due_now :
          (expiry : ℕ)
          → expiry < deadline + 1000000
          → (fire_drain
              (floor_tick l.tick t - 0)
              (some expiry)
              (record l { now = t; owned = f l.owned })).stopped
            ≡ true
      due_now expiry q =
          let l1 : Loop S = record l { now = t; owned = f l.owned } in
          let l2 : Loop S = record l1 { drain_timer = none } in
          let r = tick_reached l.tick expiry t (omega (arith, w.1, p)) (omega (arith, w.1, q, k)) in
          ap (λ b. (if b then drain_step l2 else l1).stopped)
            (is_past (tick_of l.tick expiry) (floor_tick l.tick t - 0) (omega (arith, r)))
          ∙ drain_step-stopped l2 (omega (arith, w.0, k))

  -- However often the loop polls, however far behind the clock its wheel is at these polls and whatever its
  -- objects still hold: with a tick that is not 0, a poll a millisecond and a tick or more after the deadline
  -- at which the wheel is up with the clock finds the loop stopped or stops it.
  pub poll-begin_shutdown :
      (deadline t : ℕ) (ps : List (ℕ × ℕ × (List S → List S))) (f : List S → List S) (l : Loop S)
      → l.shutting_down ≡ false
      → 0 < l.tick
      → deadline + 1000000 + l.tick ≤ t
      → (poll t 0 f (run ps (begin_shutdown deadline l))).stopped ≡ true
  unfolding begin_shutdown
  poll-begin_shutdown deadline t ps f l n p k =
      let started : Loop S = record l {
        shutting_down = true;
        owned = map h.notify_hook (map h.begin_hook l.owned);
        shutdown_deadline = deadline;
      } in
      let w : Drains l.tick deadline (begin_shutdown deadline l) =
        subst (λ b. Drains l.tick deadline (if b then l else drain_step started)) (sym n)
          (drain_step-Drains started) in
      poll-stopped l.tick deadline t f (run ps (begin_shutdown deadline l))
        (run-Drains l.tick deadline ps (begin_shutdown deadline l) w) p k
