-- ===== src/Sim/Net/Schedule.antt =====
-- A delivery that no fault takes, and events with nothing for the peer.
use affini_x.Base.{
  ℕ, ◌+◌, ◌≤◌, ◌≡◌, refl, sym, ap, ◌∙◌, Bool, true, false, Option, none, some, List, [], ◌∷◌, ◌++◌,
  ◌&&◌, arith, ltb, if◌then◌else◌, length, set,
}
use mathlib.Core.List.{append-nil}
use affini_x.Sim.Net.{
  SimEvent, Link, SimNet, Fate, push, fragments, free_at, move_free, flat, schedule, is_a_side,
  link_of, link_at, find_link,
}
use affini_x.Sim.Net.Fifo.{
  IsOrdered, payload, in_flight, push_empty_lem, push_pieces_lem, flat-fragments,
}
use affini_x.Sim.Net.Flow.{target, LeadsTo, link_at-set, link_of-push_pieces}

-- Whether the network carries bytes handed to it over the link, or a fault takes them.
abbrev pub is_carried : Fate → Option (ℕ × Link) → Bool
is_carried f none = false
is_carried f (some (k, l)) =
    if l.partitioned
    then false
    else if f.is_lost
    then false
    else if f.is_reset
    then false
    else if f.starts_partition
    then false
    else true

-- What the state promises to the descriptor `f` that `fd` of `src` sends to.
pub record IsFlowing (src fd f : ℕ) (n : SimNet) : Type 0 where
  pub mark : ℕ
  pub ordered : IsOrdered f mark n
  pub linked : LeadsTo src fd f mark (link_of n fd)

-- A step keeps the promise and puts `data'` on its way to `f`.
abbrev pub Sends : ℕ → ℕ → ℕ → List ℕ → SimNet → SimNet → Type 0
Sends src fd f data' n n' =
    IsFlowing src fd f n' × (in_flight f n'.queue ≡ in_flight f n.queue ++ data')

pub flat-pieces :
    (b : Bool) (cuts data' : List ℕ) → flat (if b then fragments cuts data' else data' ∷ []) ≡ data'
flat-pieces true cuts data' = flat-fragments cuts data'
flat-pieces false cuts data' = append-nil data'

pub move_free_lem :
    (l : Link) (src fd t : ℕ) (b : Bool)
    → is_a_side l src fd ≡ b
    → (target (move_free l b t) src fd ≡ target l src fd)
      × (free_at (move_free l b t) (is_a_side (move_free l b t) src fd) ≡ t)
move_free_lem l src fd t true e = (refl, rw e refl)
move_free_lem l src fd t false e = (refl, rw e refl)

pub due_after : (t now : ℕ) → t ≤ (if ltb now t then t else now)
due_after t now = ground arith

pub schedule_lem :
    (f : Fate) (src fd k : ℕ) (l : Link) (dst : ℕ) (data' : List ℕ) (n : SimNet)
    → link_of n fd ≡ some (k, l)
    → IsOrdered (target l src fd) (free_at l (is_a_side l src fd)) n
    → Sends src fd
        (target l src fd)
        data'
        n
        (schedule f k l (is_a_side l src fd) dst (target l src fd) data' n)
unfolding schedule
schedule_lem f src fd k l dst data' n e w =
    let b = is_a_side l src fd in
    let due = if ltb (n.now + f.delay) (free_at l b) then free_at l b else n.now + f.delay in
    let pieces =
      if f.is_fragmented && ltb 1 (length data') then fragments f.cuts data' else data' ∷ [] in
    let end_at = due + length pieces in
    let l' = move_free l b end_at in
    let n1 : SimNet = record n { links = set n.links k l' } in
    let w1 : IsOrdered (target l src fd) (free_at l b) n1 = record {
      sorted = w.sorted;
      seqs = w.seqs;
      below = w.below;
    } in
    let p =
      push_pieces_lem (target l src fd) (free_at l b) due dst pieces n1 w1
        (due_after (free_at l b) (n.now + f.delay)) in
    let moved = move_free_lem l src fd end_at b refl in
    let found =
      link_of-push_pieces fd due dst (target l src fd) pieces n1
      ∙ link_at-set n.links (find_link n.fd_link fd) k l l' e in
    (
      record { mark = end_at; ordered = p.0; linked = rw found moved },
      p.1
          ∙ ap (λ d. in_flight (target l src fd) n.queue ++ d)
              (flat-pieces (f.is_fragmented && ltb 1 (length data')) f.cuts data'),
    )

-- An event with nothing for `f` keeps the promise.
pub push_other_lem :
    (src fd f : ℕ) (ev : SimEvent) (n : SimNet)
    → payload f ev ≡ []
    → IsFlowing src fd f n
    → Sends src fd f [] n (push ev n)
unfolding push
push_other_lem src fd f ev n e w =
    let p = push_empty_lem f w.mark ev n e w.ordered in
    (
      record { mark = w.mark; ordered = p.0; linked = w.linked },
      p.1 ∙ sym (append-nil (in_flight f n.queue)),
    )

-- A change of the links and descriptors alone keeps what is on its way.
pub relink_lem :
    (src fd f : ℕ) (n : SimNet) (m : List (ℕ × ℕ)) (links : List Link) (d : ℕ)
    → (w : IsFlowing src fd f n) → LeadsTo src fd f w.mark (link_at links (find_link m fd))
    → IsFlowing src fd f (record n { fd_link = m; links = links; dropped = d })
relink_lem src fd f n m links d w e = record {
  mark = w.mark;
  ordered = record { sorted = w.ordered.sorted; seqs = w.ordered.seqs; below = w.ordered.below };
  linked = e;
}
