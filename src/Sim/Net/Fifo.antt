-- ===== src/Sim/Net/Fifo.antt =====
-- The bytes of one direction of a link arrive in the order in which they were sent.
use affini_x.Base.{
  ℕ, ◌+◌, ◌≤◌, ◌<◌, ◌≡◌, ◌⊎◌, inl, inr, refl, sym, ap, ◌∙◌, true, false, List, [], ◌∷◌, ◌++◌, arith,
  ◌==◌, if◌then◌else◌, length, take, drop, take-append-drop, All, dec_lt,
}
use mathlib.Core.List.{append_assoc, append-nil}
use affini_x.Sim.Net.{
  Kind, bytes, SimEvent, SimNet, later, enqueue, push, event, fragments, push_pieces, flat,
}

abbrev pub kind_bytes : Kind → List ℕ
kind_bytes (bytes p) = p
kind_bytes k = []

-- What an event carries to the descriptor `f`.
abbrev pub payload : ℕ → SimEvent → List ℕ
payload f ev = if ev.fd == f then kind_bytes ev.kind else []

-- The bytes on their way to the descriptor `f`, in the order in which the events come up.
abbrev pub in_flight : ℕ → List SimEvent → List ℕ
in_flight f [] = []
in_flight f (ev ∷ q) = payload f ev ++ in_flight f q

abbrev pub IsSorted : List SimEvent → Type 0
IsSorted [] = Unit
IsSorted (x ∷ q) = All (λ y. x.due ≤ y.due) q × IsSorted q

-- What is on its way to `f` is due before `t`.
abbrev pub IsBelow : ℕ → ℕ → List SimEvent → Type 0
IsBelow f t q = All (λ x. (x.due < t) ⊎ (payload f x ≡ [])) q

abbrev pub SeqsBelow : ℕ → List SimEvent → Type 0
SeqsBelow s q = All (λ x. x.seq < s) q

pub later_cases :
    (x ev : SimEvent)
    → x.seq < ev.seq
    → ((later x ev ≡ true) × (ev.due < x.due)) ⊎ ((later x ev ≡ false) × (x.due ≤ ev.due))
unfolding later
later_cases x ev h = elim (dec_lt ev.due x.due) [
  | yes lt ↦ inl (ground arith, lt)
  | no ge ↦ inr (ground arith, omega (arith, ge))
]

All-enqueue :
    (P : SimEvent → Type 0) (ev : SimEvent) (q : List SimEvent)
    → P ev
    → All P q
    → All P (enqueue ev q)
All-enqueue P ev [] p a = (p, tt)
All-enqueue P ev (x ∷ q) p a =
    elim (later x ev) as (λ b. All P (if b then ev ∷ x ∷ q else x ∷ enqueue ev q)) [
      | true ↦ (p, a)
      | false ↦ (a.0, All-enqueue P ev q p a.1)
    ]

All-weaken : (s t : ℕ) (q : List SimEvent) → s ≤ t → All (λ y. t ≤ y.due) q → All (λ y. s ≤ y.due) q
All-weaken s t [] h a = tt
All-weaken s t (x ∷ q) h a = (omega (arith, a.0), All-weaken s t q h a.1)

enqueue-IsSorted :
    (ev : SimEvent) (q : List SimEvent) → SeqsBelow ev.seq q → IsSorted q → IsSorted (enqueue ev q)
enqueue-IsSorted ev [] s o = (tt, tt)
enqueue-IsSorted ev (x ∷ q) s o = elim (later_cases x ev s.0) [
  | inl p ↦ rw p.0 ((omega (arith, p.1), All-weaken ev.due x.due q (omega (arith, p.1)) o.0), o)
  | inr p ↦ rw p.0 (All-enqueue (λ y. x.due ≤ y.due) ev q p.1 o.0, enqueue-IsSorted ev q s.1 o.1)
]

-- Nothing is on its way to `f` behind a time before which all of it is due.
late_empty :
    (f t : ℕ) (q : List SimEvent) → IsBelow f t q → All (λ y. t ≤ y.due) q → in_flight f q ≡ []
late_empty f t [] b a = refl
late_empty f t (x ∷ q) b a = elim b.0 [
  | inl lt ↦ absurd (omega (arith, lt, a.0))
  | inr e ↦ ap (λ p. p ++ in_flight f q) e ∙ late_empty f t q b.1 a.1
]

IsBelow-later : (f s t : ℕ) (q : List SimEvent) → s ≤ t → IsBelow f s q → IsBelow f t q
IsBelow-later f s t [] h b = tt
IsBelow-later f s t (x ∷ q) h b =
    (elim b.0 [ inl lt ↦ inl (omega (arith, lt)) | inr e ↦ inr e ], IsBelow-later f s t q h b.1)

in_flight-enqueue :
    (f : ℕ) (ev : SimEvent) (q : List SimEvent)
    → SeqsBelow ev.seq q
    → IsSorted q
    → IsBelow f ev.due q
    → in_flight f (enqueue ev q) ≡ in_flight f q ++ payload f ev
in_flight-enqueue f ev [] s o b = append-nil (payload f ev)
in_flight-enqueue f ev (x ∷ q) s o b = elim (later_cases x ev s.0) [
  | inl p ↦
      let all_late : All (λ y. ev.due ≤ y.due) (x ∷ q) =
        (omega (arith, p.1), All-weaken ev.due x.due q (omega (arith, p.1)) o.0) in
      let e : in_flight f (x ∷ q) ≡ [] = late_empty f ev.due (x ∷ q) b all_late in
      rw p.0 (
        ap (λ r. payload f ev ++ r) e
        ∙ append-nil (payload f ev)
        ∙ sym (ap (λ r. r ++ payload f ev) e))
  | inr p ↦ rw p.0 (
      ap (λ r. payload f x ++ r) (in_flight-enqueue f ev q s.1 o.1 b.1)
      ∙ sym (append_assoc (payload f x) (in_flight f q) (payload f ev)))
]

-- An event with nothing for `f` may come anywhere.
in_flight-enqueue_empty :
    (f : ℕ) (ev : SimEvent) (q : List SimEvent)
    → payload f ev ≡ []
    → in_flight f (enqueue ev q) ≡ in_flight f q
in_flight-enqueue_empty f ev [] e = ap (λ r. r ++ []) e
in_flight-enqueue_empty f ev (x ∷ q) e =
    elim (later x ev)
      as (λ b. in_flight f (if b then ev ∷ x ∷ q else x ∷ enqueue ev q) ≡ in_flight f (x ∷ q)) [
        | true ↦ ap (λ r. r ++ in_flight f (x ∷ q)) e
        | false ↦ ap (λ r. payload f x ++ r) (in_flight-enqueue_empty f ev q e)
      ]

SeqsBelow-suc : (s : ℕ) (q : List SimEvent) → SeqsBelow s q → SeqsBelow (s + 1) q
SeqsBelow-suc s [] a = tt
SeqsBelow-suc s (x ∷ q) a = (omega (arith, a.0), SeqsBelow-suc s q a.1)

-- The queue is in order, and what is on its way to `f` is due before `t`.
pub record IsOrdered (f t : ℕ) (n : SimNet) : Type 0 where
  pub sorted : IsSorted n.queue
  pub seqs : SeqsBelow n.next_seq n.queue
  pub below : IsBelow f t n.queue

push_lem :
    (f t due dst : ℕ) (p : List ℕ) (n : SimNet)
    → IsOrdered f t n
    → t ≤ due
    → IsOrdered f (due + 1) (push (event due (bytes p) dst f 0 0) n)
      × (in_flight f (push (event due (bytes p) dst f 0 0) n).queue ≡ in_flight f n.queue ++ p)
unfolding push
push_lem f t due dst p n w le =
    let ev : SimEvent = record (event due (bytes p) dst f 0 0) { seq = n.next_seq } in
    let b = IsBelow-later f t due n.queue le w.below in
    let mine : payload f ev ≡ p = ground arith in
    (
      record {
        sorted = enqueue-IsSorted ev n.queue w.seqs w.sorted;
        seqs =
            All-enqueue (λ x. x.seq < n.next_seq + 1) ev n.queue (omega arith)
              (SeqsBelow-suc n.next_seq n.queue w.seqs);
        below =
            All-enqueue (λ x. (x.due < due + 1) ⊎ (payload f x ≡ [])) ev n.queue (inl (omega arith))
              (IsBelow-later f due (due + 1) n.queue (omega arith) b);
      },
      in_flight-enqueue f ev n.queue w.seqs w.sorted b ∙ ap (λ r. in_flight f n.queue ++ r) mine,
    )

pub push_empty_lem :
    (f t : ℕ) (ev : SimEvent) (n : SimNet)
    → payload f ev ≡ []
    → IsOrdered f t n
    → IsOrdered f t (push ev n) × (in_flight f (push ev n).queue ≡ in_flight f n.queue)
unfolding push
push_empty_lem f t ev n e w =
    let ev' : SimEvent = record ev { seq = n.next_seq } in
    (
      record {
        sorted = enqueue-IsSorted ev' n.queue w.seqs w.sorted;
        seqs =
            All-enqueue (λ x. x.seq < n.next_seq + 1) ev' n.queue (omega arith)
              (SeqsBelow-suc n.next_seq n.queue w.seqs);
        below = All-enqueue (λ x. (x.due < t) ⊎ (payload f x ≡ [])) ev' n.queue (inr e) w.below;
      },
      in_flight-enqueue_empty f ev' n.queue e,
    )

pub push_pieces_lem :
    (f t due dst : ℕ) (ps : List (List ℕ)) (n : SimNet)
    → IsOrdered f t n
    → t ≤ due
    → IsOrdered f (due + length ps) (push_pieces due dst f ps n)
      × (in_flight f (push_pieces due dst f ps n).queue ≡ in_flight f n.queue ++ flat ps)
unfolding push_pieces
push_pieces_lem f t due dst [] n w le = (
  record {
    sorted = w.sorted;
    seqs = w.seqs;
    below = IsBelow-later f t (due + 0) n.queue (omega arith) w.below;
  },
  sym (append-nil (in_flight f n.queue)),
)
push_pieces_lem f t due dst (p ∷ ps) n w le =
    let a = push_lem f t due dst p n w le in
    let n1 = push (event due (bytes p) dst f 0 0) n in
    let r = push_pieces_lem f (due + 1) (due + 1) dst ps n1 a.0 (omega arith) in
    (
      record {
        sorted = r.0.sorted;
        seqs = r.0.seqs;
        below =
            IsBelow-later f (due + 1 + length ps) (due + length (p ∷ ps)) _ (omega arith) r.0.below;
      },
      r.1 ∙ ap (λ x. x ++ flat ps) a.1 ∙ append_assoc (in_flight f n.queue) p (flat ps),
    )

pub flat-fragments : (cuts data' : List ℕ) → flat (fragments cuts data') ≡ data'
unfolding fragments
flat-fragments cuts [] = refl
flat-fragments [] (b ∷ bs) = append-nil (b ∷ bs)
flat-fragments (c ∷ cuts) (b ∷ bs) =
    ap (λ r. (b ∷ take c bs) ++ r) (flat-fragments cuts (drop c bs))
    ∙ ap (λ r. b ∷ r) (take-append-drop c bs)
