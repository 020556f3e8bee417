-- ===== src/Core/EventManager/Shutdown/Owned.antt =====
-- What a loop owns, at the beginning of its shutdown.
use affini_x.Base.{
  ℕ, ◌≡◌, sym, subst, true, false, ◌||◌, if◌then◌else◌, if_cases, some, List, [], ◌∷◌, map, All,
  leb, ◌+◌,
}
use affini_x.Core.EventManager.Shutdown.{Hooks, Loop, all_drained, drain_step, begin_shutdown}

map-All :
    {S : Type 0} (P : S → Type 0) (f : S → S)
    → ((o : S) → P o → P (f o))
    → (os : List S) → All P os
    → All P (map f os)
map-All P f g [] w = tt
map-All P f g (o ∷ os) w = (g o w.0, map-All P f g os w.1)

map-All_of :
    {S : Type 0} (P : S → Type 0) (f : S → S)
    → ((o : S) → P (f o))
    → (os : List S) → All P (map f os)
map-All_of P f g [] = tt
map-All_of P f g (o ∷ os) = (g o, map-All_of P f g os)

module _ (S : Type 0) (h : Hooks S) where
  drain_step-All :
      (P : S → Type 0)
      → ((o : S) → P o → P (h.shutdown_write o))
      → (l : Loop S) → All P l.owned
      → All P (drain_step S h l).owned
  unfolding drain_step
  drain_step-All P g l w =
      let last : Loop S = record l { owned = map h.shutdown_write l.owned; stopped = true } in
      let next : Loop S = record l { drain_timer = some (l.now + 1000000) } in
      if_cases (λ (x : Loop S). All P x.owned)
        (all_drained S h l.owned || leb l.shutdown_deadline l.now) last next
        (λ e. map-All P h.shutdown_write g l.owned w) (λ e. w)

  -- What the first hook brings about, and the others keep, holds of every object once a shutdown has begun.
  pub begin_shutdown-All :
      (P : S → Type 0)
      → ((o : S) → P (h.begin_hook o))
      → ((o : S) → P o → P (h.notify_hook o))
      → ((o : S) → P o → P (h.shutdown_write o))
      → (deadline : ℕ) (l : Loop S) → l.shutting_down ≡ false
      → All P (begin_shutdown S h deadline l).owned
  unfolding begin_shutdown
  begin_shutdown-All P b n g deadline l e =
      let started : Loop S = record l {
        shutting_down = true;
        owned = map h.notify_hook (map h.begin_hook l.owned);
        shutdown_deadline = deadline;
      } in
      subst (λ x. All P (if x then l else drain_step S h started).owned) (sym e)
        (drain_step-All P g started (
          map-All P h.notify_hook n (map h.begin_hook l.owned)
            (map-All_of P h.begin_hook b l.owned)))
