-- ===== src/Sim/Net/Stream.antt =====
-- The deliveries of one descriptor in any order with the network's other steps: what the peer is given and
-- what is on its way make up what was accepted.
use affini_x.Base.{
  ℕ, ◌+◌, ◌≡◌, refl, sym, ap, subst, ◌∙◌, Option, none, some, List, [], ◌∷◌, ◌++◌, if◌then◌else◌,
  ◌==◌, get_elem?, All,
}
use mathlib.Core.List.{append_assoc, append-nil}
use affini_x.Sim.Net.{
  SimEvent, SimNet, Fate, push, flat, link_of, deliver_bytes, pop_from, pop, partition, apply,
  set_now, post_task, event, post,
}
use affini_x.Sim.Net.Fifo.{IsSorted, IsBelow, SeqsBelow, payload, in_flight}
use affini_x.Sim.Net.Deliver.{if_same, deliver_lem, apply_lem, partition_lem}
use affini_x.Sim.Net.Schedule.{is_carried, IsFlowing, push_other_lem}

-- What can happen to the network while `fd` sends. `give` hands out the next event and applies it.
pub data Move : Type 0 where
  send : Fate → List (List ℕ) → Move
  give : Move
  cut : ℕ → ℕ → Move
  wait : ℕ → Move
  posts : ℕ → ℕ → ℕ → Move
  other : SimEvent → Move

abbrev pub give_to : Option (SimEvent × SimNet) → SimNet → SimNet
give_to none n = n
give_to (some (ev, n1)) n = apply ev n1

abbrev pub move : ℕ → ℕ → Move → SimNet → SimNet
move src fd (send ft iov) n = deliver_bytes ft src fd iov n
move src fd give n = give_to (pop n) n
move src fd (cut k window) n = partition k window n
move src fd (wait d) n = set_now d n
move src fd (posts shard task delay) n = post_task shard task delay n
move src fd (other ev) n = push ev n

-- What one move puts on its way to the other end of the link of `fd`, and what it takes out for `f`.
abbrev pub carried_by : ℕ → Move → SimNet → List ℕ
carried_by fd (send ft iov) n = if is_carried ft (link_of n fd) then flat iov else []
carried_by fd m n = []

abbrev pub given : ℕ → List SimEvent → List ℕ
given f [] = []
given f (ev ∷ q) = payload f ev

abbrev pub given_by : ℕ → Move → SimNet → List ℕ
given_by f give n = given f n.queue
given_by f m n = []

abbrev pub IsElsewhere : ℕ → Move → Type 0
IsElsewhere f (other ev) = payload f ev ≡ []
IsElsewhere f m = Unit

abbrev pub run : ℕ → ℕ → List Move → SimNet → SimNet
run src fd [] n = n
run src fd (m ∷ ms) n = run src fd ms (move src fd m n)

abbrev pub sent : ℕ → ℕ → List Move → SimNet → List ℕ
sent src fd [] n = []
sent src fd (m ∷ ms) n = carried_by fd m n ++ sent src fd ms (move src fd m n)

abbrev pub received : ℕ → ℕ → ℕ → List Move → SimNet → List ℕ
received src fd f [] n = []
received src fd f (m ∷ ms) n = given_by f m n ++ received src fd f ms (move src fd m n)

pop_from_lem :
    (src fd f : ℕ) (q : List SimEvent) (n : SimNet)
    → n.queue ≡ q
    → IsFlowing src fd f n
    → IsFlowing src fd f (give_to (pop_from q n) n)
      × (given f q ++ in_flight f (give_to (pop_from q n) n).queue ≡ in_flight f q)
pop_from_lem src fd f [] n e w = (w, ap (in_flight f) e)
pop_from_lem src fd f (ev ∷ q) n e w =
    let sorted = subst IsSorted e w.ordered.sorted in
    let seqs = subst (SeqsBelow n.next_seq) e w.ordered.seqs in
    let below = subst (IsBelow f w.mark) e w.ordered.below in
    let n1 : SimNet = record n { queue = q } in
    let w1 : IsFlowing src fd f n1 = record {
      mark = w.mark;
      ordered = record { sorted = sorted.1; seqs = seqs.1; below = below.1 };
      linked = w.linked;
    } in
    let p = apply_lem src fd f ev n1 w1 in
    (p.0, ap (λ r. payload f ev ++ r) (p.1 ∙ append-nil (in_flight f q)))

give_lem :
    (src fd f : ℕ) (n : SimNet)
    → IsFlowing src fd f n
    → IsFlowing src fd f (give_to (pop n) n)
      × (given f n.queue ++ in_flight f (give_to (pop n) n).queue ≡ in_flight f n.queue)
unfolding pop
give_lem src fd f n w = pop_from_lem src fd f n.queue n refl w

move_lem :
    (src fd f : ℕ) (m : Move) (n : SimNet)
    → IsElsewhere f m
    → IsFlowing src fd f n
    → IsFlowing src fd f (move src fd m n)
      × (given_by f m n ++ in_flight f (move src fd m n).queue
          ≡ in_flight f n.queue ++ carried_by fd m n)
unfolding partition set_now post_task
move_lem src fd f (send ft iov) n h w = deliver_lem ft src fd f iov n w
move_lem src fd f give n h w =
    let p = give_lem src fd f n w in (p.0, p.1 ∙ sym (append-nil (in_flight f n.queue)))
move_lem src fd f (cut k window) n h w =
    partition_lem src fd f k window n (get_elem? n.links k) refl w
move_lem src fd f (wait d) n h w = (
  record {
    mark = w.mark;
    ordered = record { sorted = w.ordered.sorted; seqs = w.ordered.seqs; below = w.ordered.below };
    linked = w.linked;
  },
  sym (append-nil (in_flight f n.queue)),
)
move_lem src fd f (posts shard task delay) n h w =
    push_other_lem src fd f (event (n.now + delay) post 0 0 shard task) n (if_same (0 == f)) w
move_lem src fd f (other ev) n h w = push_other_lem src fd f ev n h w

-- Whatever faults, partitions, settings of the clock, posts and other traffic come between the sends of
-- `fd`, the peer `f` is given, in order, exactly what was on its way and then what the network carried:
-- what has been handed out followed by what is still on its way is what was on its way at the start
-- followed by the bytes of the sends that no fault took. The queue is in order at the start, what is on
-- its way to `f` is due before the mark of the link of `fd`, which leads to `f`, and no other event
-- carries bytes to `f`.
pub stream_lem :
    (src fd f : ℕ) (ms : List Move) (n : SimNet)
    → All (IsElsewhere f) ms
    → IsFlowing src fd f n
    → received src fd f ms n ++ in_flight f (run src fd ms n).queue
      ≡ in_flight f n.queue ++ sent src fd ms n
stream_lem src fd f [] n h w = sym (append-nil (in_flight f n.queue))
stream_lem src fd f (m ∷ ms) n h w =
    let n1 = move src fd m n in
    let p = move_lem src fd f m n h.0 w in
    let ih = stream_lem src fd f ms n1 h.1 p.0 in
    append_assoc (given_by f m n) (received src fd f ms n1) (in_flight f (run src fd ms n1).queue)
    ∙ ap (λ r. given_by f m n ++ r) ih
    ∙ sym (append_assoc (given_by f m n) (in_flight f n1.queue) (sent src fd ms n1))
    ∙ ap (λ r. r ++ sent src fd ms n1) p.1
    ∙ append_assoc (in_flight f n.queue) (carried_by fd m n) (sent src fd ms n1)
