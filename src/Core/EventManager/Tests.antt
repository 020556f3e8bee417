-- ===== src/Core/EventManager/Tests.antt =====
-- Timers of a loop: one of a group, one of fixed rate, one of fixed delay.
use affini_x.Base.{ℕ, ◌≡◌, refl, ◌==◌, if◌then◌else◌, true, false, none, some, List, [], ◌∷◌}
use affini_x.Core.EventManager.{
  fixed_rate, fixed_delay, Timers, afters, everys, reschedules, groups_new, cancels_group, Event,
  reads_clock, expires, works, ends, create, cancel, reschedule, expire, unlink_timer, at_callback,
  put, step, run,
}
use affini_x.Core.EventManager.Cancelled.{cancel_is_final}
use affini_x.Core.EventManager.Dangles.{one_shot, IsLeftLinked, reschedule_dangles}
use affini_x.Core.EventManager.Deferred.{remainder_starves, rounds, times}
use affini_x.Core.EventManager.Lists.{run-IsSound}
use affini_x.Core.EventManager.Sound.{IsSound, is_careful, careful_calls}

-- A group with a one-shot timer, a timer of fixed rate and one of fixed delay.
abbrev set_up : List Event
set_up =
    works groups_new
    ∷ works (afters 10 (some 0))
    ∷ works (everys 4 0 fixed_rate none)
    ∷ works (everys 4 0 fixed_delay (some 0))
    ∷ []

-- Timer 1 comes up late and cancels the group in its callback, then arms another timer.
abbrev busy : List Event
busy =
    works groups_new
    ∷ works (afters 10 (some 0))
    ∷ works (everys 4 0 fixed_rate none)
    ∷ works (everys 4 0 fixed_delay (some 0))
    ∷ reads_clock 13
    ∷ expires 2 (reschedules 0 7 ∷ [])
    ∷ expires 1 (cancels_group 0 ∷ afters 2 none ∷ [])
    ∷ ends
    ∷ works (reschedules 1 50)
    ∷ []

busy_table :
    (run busy create).timers
    ≡ none
      ∷ some (record {
        expiry = 63;
        period = 4;
        mode = fixed_rate;
        cancelled = false;
        group = none;
        is_linked = true;
        is_dead = false;
      })
      ∷ none
      ∷ some (record {
        expiry = 15;
        period = 0;
        mode = fixed_rate;
        cancelled = false;
        group = none;
        is_linked = true;
        is_dead = false;
      })
      ∷ []
unfolding run create
busy_table = refl

run-IsSound_example : IsSound (run busy create)
unfolding create is_careful careful_calls step
run-IsSound_example = run-IsSound busy create refl (record { slots = tt; whole = refl })

abbrev late : Timers
unfolding run create
late = run set_up (record create { now = 1 })

cancel_is_final_example :
    (expire 0 [] (run busy (cancel 0 late).1) ≡ run busy (cancel 0 late).1)
    × ((reschedule 0 3 (run busy (cancel 0 late).1)).0 ≡ false)
unfolding cancel late
cancel_is_final_example = cancel_is_final 0 3 [] busy late refl

reschedule_dangles_example :
    let n = unlink_timer (one_shot 11 fixed_rate (some 0)) in
    ((reschedule 0 3 (expire 0 [] late)).0 ≡ true)
    × IsLeftLinked 0 (reschedule 0 3 (expire 0 [] late)).1
    × ((reschedule 0 3 (at_callback 0 n (put 0 n late))).0 ≡ true)
    × IsLeftLinked 0 (expire 0 (reschedules 0 3 ∷ []) late)
unfolding late
reschedule_dangles_example = reschedule_dangles 0 11 3 fixed_rate (some 0) late refl

-- Two tasks that defer themselves, a batch of two, and a third task.
abbrev deferring : ℕ → List ℕ
deferring t = if t == 3 then [] else t ∷ []

remainder_starves_example :
    rounds deferring 2 5 (1 ∷ 2 ∷ 3 ∷ []) ≡ (times 5 (1 ∷ 2 ∷ []), 1 ∷ 2 ∷ 3 ∷ [])
remainder_starves_example = remainder_starves deferring (1 ∷ 2 ∷ []) (3 ∷ []) 5 (refl, (refl, tt))
