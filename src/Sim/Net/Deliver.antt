-- ===== src/Sim/Net/Deliver.antt =====
-- What one operation of the network adds to the bytes on their way to a descriptor.
use affini_x.Base.{
  ℕ, ◌+◌, ◌≡◌, refl, sym, subst, ◌∙◌, Bool, true, false, Option, none, some, List, [], ◌==◌,
  if◌then◌else◌, get_elem?, set,
}
use mathlib.Core.List.{append-nil}
use affini_x.Sim.Net.{
  bytes, peer_reset, partition_end, SimEvent, Link, SimNet, Fate, push, event, free_at, flat,
  reset_both, econnreset, deliver_on, is_a_side, link_of, deliver_to, deliver_bytes, find_link,
  erase_link, partition_at, end_partition, end_at, apply, apply_kind, accept, connect_done,
  peer_fin, post,
}
use affini_x.Sim.Net.Fifo.{in_flight}
use affini_x.Sim.Net.Flow.{
  target, LeadsTo, LeadsTo-set_partitioned, link_at-set, find_link-erase_self, find_link-erase_none,
}
use affini_x.Sim.Net.Schedule.{
  is_carried, IsFlowing, Sends, schedule_lem, push_other_lem, relink_lem,
}

pub if_same : (b : Bool) → Path (List ℕ) (if b then [] else []) []
if_same true = refl
if_same false = refl

branches :
    (S : List ℕ → SimNet → Type 0) (p a b c : Bool) (data' : List ℕ) (x y z u : SimNet)
    → S [] x
    → S [] y
    → S [] z
    → S data' u
    → S
        (if (if p
            then false
            else if a
            then false
            else if b
            then false
            else if c
            then false
            else true)
          then data'
          else [])
        (if p then x else if a then x else if b then y else if c then z else u)
branches S true a b c data' x y z u hx hy hz hu = hx
branches S false true b c data' x y z u hx hy hz hu = hx
branches S false false true c data' x y z u hx hy hz hu = hy
branches S false false false true data' x y z u hx hy hz hu = hz
branches S false false false false data' x y z u hx hy hz hu = hu

dropped_lem :
    (src fd f d : ℕ) (n : SimNet)
    → IsFlowing src fd f n
    → Sends src fd f [] n (record n { dropped = d })
dropped_lem src fd f d n w =
    (relink_lem src fd f n n.fd_link n.links d w w.linked, sym (append-nil (in_flight f n.queue)))

Sends-then :
    (src fd f : ℕ) (n n1 n2 : SimNet)
    → Sends src fd f [] n n1
    → Sends src fd f [] n1 n2
    → Sends src fd f [] n n2
Sends-then src fd f n n1 n2 p q = (q.0, q.1 ∙ append-nil (in_flight f n1.queue) ∙ p.1)

reset_both_lem :
    (ft : Fate) (src fd dst dst_fd f : ℕ) (n : SimNet)
    → IsFlowing src fd f n
    → Sends src fd f [] n (reset_both ft src fd dst dst_fd n)
reset_both_lem ft src fd dst dst_fd f n w =
    let ev1 = event (n.now + ft.reset_latencies.0) peer_reset dst dst_fd econnreset 0 in
    let ev2 = event (n.now + ft.reset_latencies.1) peer_reset src fd econnreset 0 in
    let n1 = push ev1 n in
    let n2 = push ev2 n1 in
    let p = push_other_lem src fd f ev1 n (if_same (dst_fd == f)) w in
    let q = push_other_lem src fd f ev2 n1 (if_same (fd == f)) p.0 in
    let r = Sends-then src fd f n n1 n2 p q in
    let m = erase_link (erase_link n2.fd_link fd) dst_fd in
    let gone : find_link m fd ≡ none =
      find_link-erase_none (erase_link n2.fd_link fd) fd dst_fd
        (find_link-erase_self n2.fd_link fd) in
    (relink_lem src fd f n2 m n2.links n2.dropped q.0 (rw gone tt), r.1)

deliver_on_lem :
    (ft : Fate) (src fd k : ℕ) (l : Link) (data' : List ℕ) (n : SimNet)
    → link_of n fd ≡ some (k, l)
    → (w : IsFlowing src fd (target l src fd) n) → free_at l (is_a_side l src fd) ≡ w.mark
    → Sends src fd
        (target l src fd)
        (if is_carried ft (some (k, l)) then data' else [])
        n
        (deliver_on ft src fd k l data' n)
unfolding deliver_on
deliver_on_lem ft src fd k l data' n e w at =
    let b = is_a_side l src fd in
    let f = target l src fd in
    let dst = if b then l.b else l.a in
    let shut : Link = record l { partitioned = true } in
    let n1 : SimNet = record n { links = set n.links k shut } in
    let found = link_at-set n.links (find_link n.fd_link fd) k l shut e in
    let w1 =
      relink_lem src fd f n n.fd_link (set n.links k shut) n.dropped w (rw found (refl, at)) in
    let ev = event (n.now + ft.window) partition_end 0 0 k 0 in
    let p = push_other_lem src fd f ev n1 (if_same (0 == f)) w1 in
    branches (λ d m. Sends src fd f d n m) l.partitioned ft.is_lost ft.is_reset ft.starts_partition
      data' _ _ _ _ (dropped_lem src fd f (n.dropped + 1) n w)
      (reset_both_lem ft src fd dst f f n w)
      (Sends-then src fd f n (push ev n1) _ p
        (dropped_lem src fd f (n.dropped + 1) (push ev n1) p.0))
      (schedule_lem ft src fd k l dst data' n e (rw at w.ordered))

deliver_to_lem :
    (ft : Fate) (src fd f : ℕ) (data' : List ℕ) (n : SimNet) (o : Option (ℕ × Link))
    → link_of n fd ≡ o
    → IsFlowing src fd f n
    → Sends src fd f (if is_carried ft o then data' else []) n (deliver_to ft src fd data' o n)
deliver_to_lem ft src fd f data' n none e w = (w, sym (append-nil (in_flight f n.queue)))
deliver_to_lem ft src fd f data' n (some (k, l)) e w =
    let at = subst (LeadsTo src fd f w.mark) e w.linked in
    subst
      (λ g.
        (v : IsFlowing src fd g n)
        → (free_at l (is_a_side l src fd) ≡ v.mark)
        → Sends src fd g (if is_carried ft (some (k, l)) then data' else []) n
            (deliver_on ft src fd k l data' n))
      at.0 (λ v h. deliver_on_lem ft src fd k l data' n e v h) w at.1

pub deliver_lem :
    (ft : Fate) (src fd f : ℕ) (iov : List (List ℕ)) (n : SimNet)
    → IsFlowing src fd f n
    → Sends src fd f
        (if is_carried ft (link_of n fd) then flat iov else [])
        n
        (deliver_bytes ft src fd iov n)
unfolding deliver_bytes
deliver_lem ft src fd f iov n w = deliver_to_lem ft src fd f (flat iov) n (link_of n fd) refl w

retract_lem :
    (src fd f k : ℕ) (l : Link) (p : Bool) (n : SimNet)
    → get_elem? n.links k ≡ some l
    → IsFlowing src fd f n
    → IsFlowing src fd f (record n { links = set n.links k (record l { partitioned = p }) })
retract_lem src fd f k l p n e w =
    relink_lem src fd f n n.fd_link (set n.links k (record l { partitioned = p })) n.dropped w
      (LeadsTo-set_partitioned src fd f w.mark n.links (find_link n.fd_link fd) k l p e w.linked)

end_partition_lem :
    (src fd f k : ℕ) (n : SimNet) (o : Option Link)
    → get_elem? n.links k ≡ o
    → IsFlowing src fd f n
    → Sends src fd f [] n (end_at k n o)
end_partition_lem src fd f k n none e w = (w, sym (append-nil (in_flight f n.queue)))
end_partition_lem src fd f k n (some l) e w =
    (retract_lem src fd f k l false n e w, sym (append-nil (in_flight f n.queue)))

pub partition_lem :
    (src fd f k window : ℕ) (n : SimNet) (o : Option Link)
    → get_elem? n.links k ≡ o
    → IsFlowing src fd f n
    → Sends src fd f [] n (partition_at k window n o)
partition_lem src fd f k window n none e w = (w, sym (append-nil (in_flight f n.queue)))
partition_lem src fd f k window n (some l) e w =
    push_other_lem src fd f (event (n.now + window) partition_end 0 0 k 0)
      (record n { links = set n.links k (record l { partitioned = true }) }) (if_same (0 == f))
      (retract_lem src fd f k l true n e w)

pub apply_lem :
    (src fd f : ℕ) (ev : SimEvent) (n : SimNet)
    → IsFlowing src fd f n
    → Sends src fd f [] n (apply ev n)
unfolding apply end_partition
apply_lem src fd f ev n w = elim ev.kind as (λ k. Sends src fd f [] n (apply_kind k ev.aux n)) [
  | partition_end ↦ end_partition_lem src fd f ev.aux n (get_elem? n.links ev.aux) refl w
  | bytes p ↦ (w, sym (append-nil (in_flight f n.queue)))
  | accept ↦ (w, sym (append-nil (in_flight f n.queue)))
  | connect_done ↦ (w, sym (append-nil (in_flight f n.queue)))
  | peer_fin ↦ (w, sym (append-nil (in_flight f n.queue)))
  | peer_reset ↦ (w, sym (append-nil (in_flight f n.queue)))
  | post ↦ (w, sym (append-nil (in_flight f n.queue)))
]
