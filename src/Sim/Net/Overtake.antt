-- ===== src/Sim/Net/Overtake.antt =====
-- `SimNet::detach`: the end of a stream takes the latency of its own draw, without the mark that keeps the
-- sends of a direction in order.
use affini_x.Base.{
  ℕ, ◌+◌, ◌≤◌, ◌<◌, ◌≡◌, refl, ap, Bool, true, false, some, List, [], ◌∷◌, ◌++◌, ◌&&◌, arith, inl,
  inr, leb, ◌==◌, if◌then◌else◌, All,
}
use affini_x.Sim.Net.{
  Kind, peer_fin, SimEvent, Link, SimNet, detach, enqueue, event, is_a_side, link_of, push,
}
use affini_x.Sim.Net.Fifo.{in_flight, later_cases, payload, SeqsBelow}
use affini_x.Sim.Net.Flow.{target}

abbrev pub is_fin : Kind → Bool
is_fin peer_fin = true
is_fin k = false

abbrev pub ends : ℕ → SimEvent → Bool
ends f ev = (ev.fd == f) && is_fin ev.kind

-- The bytes that come up for the descriptor `f` before its end of stream.
abbrev pub before_fin : ℕ → List SimEvent → List ℕ
before_fin f [] = []
before_fin f (ev ∷ q) = let rest = before_fin f q in if ends f ev then [] else payload f ev ++ rest

-- The events due no later than `t` at the front of a queue.
abbrev pub due_by : ℕ → List SimEvent → List SimEvent
due_by t [] = []
due_by t (ev ∷ q) = let rest = due_by t q in if leb ev.due t then ev ∷ rest else []

eq_and : (f g : ℕ) → g ≡ f → (g == f) && true ≡ true
eq_and f g e = ground arith

ends_self : (f : ℕ) (ev : SimEvent) → ev.fd ≡ f → ev.kind ≡ peer_fin → ends f ev ≡ true
ends_self f ev e k = rw k (eq_and f ev.fd e)

enqueue_fin_lem :
    (f : ℕ) (ev : SimEvent) (q : List SimEvent)
    → ends f ev ≡ true
    → SeqsBelow ev.seq q
    → All (λ x. ends f x ≡ false) q
    → before_fin f (enqueue ev q) ≡ in_flight f (due_by ev.due q)
enqueue_fin_lem f ev [] e s a = rw e refl
enqueue_fin_lem f ev (x ∷ q) e s a = elim (later_cases x ev s.0) [
  | inl p ↦
      let ge : ev.due < x.due = p.1 in
      let over : leb x.due ev.due ≡ false = ground arith in rw p.0 (rw over (rw e refl))
  | inr p ↦
      let le : x.due ≤ ev.due = p.1 in
      let within : leb x.due ev.due ≡ true = ground arith in
      rw p.0 (rw within (rw a.0 (ap (λ r. payload f x ++ r) (enqueue_fin_lem f ev q e s.1 a.1))))
]

-- When `fd` is detached from a link that is not partitioned, the peer sees as the whole stream only the bytes
-- on their way that are due by now plus the latency drawn for the end: what comes up before the end of
-- stream is what is due by then, although the rest was sent before it. The numbers of the queued events
-- are below the network's, and no end of stream is on its way to the peer yet.
pub detach_lem :
    (src fd latency k : ℕ) (l : Link) (n : SimNet)
    → link_of n fd ≡ some (k, l)
    → l.partitioned ≡ false
    → SeqsBelow n.next_seq n.queue
    → All (λ x. ends (target l src fd) x ≡ false) n.queue
    → before_fin (target l src fd) (detach src fd latency n).queue
      ≡ in_flight (target l src fd) (due_by (n.now + latency) n.queue)
unfolding detach push
detach_lem src fd latency k l n e whole s a =
    let f = target l src fd in
    let dst = if is_a_side l src fd then l.b else l.a in
    let ev : SimEvent = record (event (n.now + latency) peer_fin dst f 0 0) { seq = n.next_seq } in
    let mine : ends f ev ≡ true = ends_self f ev refl refl in
    rw e (rw whole (enqueue_fin_lem f ev n.queue mine s a))
