-- ===== src/Core/EventManager/Idle.antt =====
-- A timer whose callback runs and that was not linked again before it: what the callback's calls leave of it.
use affini_x.Base.{
  ℕ, ◌≡◌, ◌≢◌, ◌⊎◌, inl, refl, subst, Bool, true, false, not, Option, none, some, List, ◌&&◌, arith,
  ◌==◌, get_elem?, set,
}
use affini_x.Core.EventManager.{
  TimerNode, Timers, Call, get, either, insert_timer, reschedule_node, reschedule, call,
}
use affini_x.Core.EventManager.Sound.{bears, careful_call, if_second}
use affini_x.Core.EventManager.Slots.{get_elem?-set_has, call-Has}

-- In no structure, and not dead unless it was cancelled.
abbrev pub is_idle : Option (Option TimerNode) → Bool
is_idle (some (some n)) = not n.is_linked && either n.cancelled (not n.is_dead)
is_idle o = false

abbrev pub Idle : ℕ → Timers → Type 0
Idle id s = is_idle (get_elem? s.timers id) ≡ true

pub get_elem?-set_idle :
    (os : List (Option TimerNode)) (id j : ℕ) (o : Option TimerNode)
    → is_idle (get_elem? os id) ≡ true
    → (j ≢ id) ⊎ (is_idle (some o) ≡ true)
    → is_idle (get_elem? (set os j o) id) ≡ true
get_elem?-set_idle os id j o e h = get_elem?-set_has is_idle refl (λ n. refl) os id j o e h

-- A call of `reschedule` that the lists bear and that is answered true is not for the timer itself.
borne_apart :
    (c d : Bool) (id j : ℕ) → c ≡ false → either c (not d && not (id == j)) ≡ true → j ≢ id
borne_apart true d id j e b = cc
borne_apart false true id j e b = cc
borne_apart false false id j e b = λ q. absurd (ground arith)

reschedule_node-Idle :
    (id j d : ℕ) (o : Option TimerNode) (s : Timers)
    → bears (some id) j o ≡ true
    → Idle id s
    → Idle id (reschedule_node j d o s).1
unfolding insert_timer
reschedule_node-Idle id j d none s b e = e
reschedule_node-Idle id j d (some n) s b e =
    if_second (Idle id) n.cancelled _ _ (λ _. e)
      (λ c. get_elem?-set_idle s.timers id j _ e (inl (borne_apart n.cancelled n.is_dead id j c b)))

pub call-Idle :
    (id : ℕ) (c : Call) (s : Timers)
    → careful_call (some id) c s ≡ true
    → Idle id s
    → Idle id (call c s)
unfolding reschedule
call-Idle id c s b e =
    call-Has is_idle refl (λ n. refl) id c s
      (λ j d q.
        reschedule_node-Idle id j d (get j s) s (subst (λ x. careful_call (some id) x s ≡ true) q b)
          e)
      e
