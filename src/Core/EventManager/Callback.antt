-- ===== src/Core/EventManager/Callback.antt =====
-- The calls of a callback, and what is known of a timer before and after it.
use affini_x.Base.{
  ℕ, ◌≡◌, refl, Bool, true, false, not, Option, none, some, List, [], ◌∷◌, ◌&&◌, if◌then◌else◌,
}
use affini_x.Core.EventManager.{TimerNode, Timers, Call, either, call, calls, is_held}
use affini_x.Core.EventManager.Sound.{is_sound, IsSound, careful_call, careful_calls, call-IsSound}
use affini_x.Core.EventManager.Idle.{Idle, call-Idle}

pub and-true : (a b : Bool) → a && b ≡ true → (a ≡ true) × (b ≡ true)
and-true true b e = (refl, e)
and-true false b e = cc

pub calls-IsSound :
    (f : Option ℕ) (cs : List Call) (s : Timers)
    → careful_calls f cs s ≡ true
    → IsSound s
    → IsSound (calls cs s)
unfolding calls careful_calls
calls-IsSound f [] s e w = w
calls-IsSound f (c ∷ cs) s e w =
    let p = and-true (careful_call f c s) (careful_calls f cs (call c s)) e in
    calls-IsSound f cs (call c s) p.1 (call-IsSound f c s p.0 w)

pub calls-Idle :
    (id : ℕ) (cs : List Call) (s : Timers)
    → careful_calls (some id) cs s ≡ true
    → Idle id s
    → Idle id (calls cs s)
unfolding calls careful_calls
calls-Idle id [] s e w = w
calls-Idle id (c ∷ cs) s e w =
    let p = and-true (careful_call (some id) c s) (careful_calls (some id) cs (call c s)) e in
    calls-Idle id cs (call c s) p.1 (call-Idle id c s p.0 w)

pub if_sound :
    (P : Timers → Type 0) (b : Bool) (x y : Timers)
    → (b ≡ true → P x)
    → (b ≡ false → P y)
    → P (if b then x else y)
if_sound P true x y p q = p refl
if_sound P false x y p q = q refl

pub linked-is_held : (n : TimerNode) → n.is_linked ≡ true → is_held n ≡ true
linked-is_held n l = elim n.group as (λ g. (elim g [ none ↦ n.is_linked | some h ↦ true ]) ≡ true) [
  | none ↦ l
  | some g ↦ refl
]

pub held_lem :
    (d h c : Bool) → h ≡ true → not (d && h) && either (not c) d ≡ true → (d ≡ false) × (c ≡ false)
held_lem false h false q e = (refl, refl)
held_lem false h true q e = cc
held_lem true h c q e = cc

-- A linked timer that is sound is neither dead nor cancelled.
pub linked_lem :
    (n : TimerNode)
    → n.is_linked ≡ true
    → is_sound n ≡ true
    → (n.is_dead ≡ false) × (n.cancelled ≡ false)
linked_lem n l e = held_lem n.is_dead (is_held n) n.cancelled (linked-is_held n l) e

-- An idle timer that is not cancelled is in no structure and not dead.
pub idle_lem :
    (l c d : Bool) → c ≡ false → not l && either c (not d) ≡ true → (l ≡ false) × (d ≡ false)
idle_lem true c d q e = cc
idle_lem false true d q e = cc
idle_lem false false true q e = cc
idle_lem false false false q e = (refl, refl)
