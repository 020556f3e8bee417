-- ===== src/Sim/Net.antt =====
-- src/sim/net.cpp and include/afx/sim/net.hpp. Backends, descriptors and ports are numbers; a time is a
-- number of nanoseconds. What the seeded generator decides is an argument, a `Fate`; the port of a
-- listening descriptor and the number of a new descriptor come from the system and are arguments too.
-- An error in `aux` is the number without its sign (the source has -ECONNREFUSED and ECONNRESET).
pub mod Deliver
pub mod Fifo
pub mod Flow
pub mod Overtake
pub mod Schedule
pub mod Stream
mod Tests
use affini_x.Base.{
  ℕ, zero, suc, ◌+◌, ◌-◌, Bool, true, false, not, Option, none, some, List, [], ◌∷◌, ◌++◌, ◌&&◌,
  ltb, leb, ◌==◌, if◌then◌else◌, length, get_elem?, set, take, drop,
}

pub data Kind : Type 0 where
  bytes : List ℕ → Kind
  accept : Kind
  connect_done : Kind
  peer_fin : Kind
  peer_reset : Kind
  partition_end : Kind
  post : Kind

pub record SimEvent : Type 0 where
  pub due : ℕ
  pub seq : ℕ
  pub kind : Kind
  pub dst : ℕ
  pub fd : ℕ
  pub aux : ℕ
  pub ud : ℕ

pub record Link : Type 0 where
  pub a : ℕ
  pub a_fd : ℕ
  pub b : ℕ
  pub b_fd : ℕ
  pub partitioned : Bool
  pub next_free_ab : ℕ
  pub next_free_ba : ℕ

pub record Listener : Type 0 where
  pub port : ℕ
  pub backend : ℕ
  pub listen_fd : ℕ

-- `queue` holds the events in the order in which the priority queue gives them out.
pub record SimNet : Type 0 where
  pub queue : List SimEvent
  pub fd_link : List (ℕ × ℕ)
  pub listeners : List Listener
  pub links : List Link
  pub next_seq : ℕ
  pub dropped : ℕ
  pub now : ℕ

-- The draws of one delivery, each the answer to a test against the fault profile.
pub record Fate : Type 0 where
  pub is_lost : Bool
  pub is_reset : Bool
  pub starts_partition : Bool
  pub reset_latencies : ℕ × ℕ
  pub window : ℕ
  pub delay : ℕ
  pub is_fragmented : Bool
  pub cuts : List ℕ

pub create : SimNet
create = record {
  queue = [];
  fd_link = [];
  listeners = [];
  links = [];
  next_seq = 0;
  dropped = 0;
  now = 0;
}

pub set_now : ℕ → SimNet → SimNet
set_now t n = record n { now = t }

pub later : SimEvent → SimEvent → Bool
later x y = if x.due == y.due then ltb y.seq x.seq else ltb y.due x.due

abbrev pub enqueue : SimEvent → List SimEvent → List SimEvent
enqueue ev [] = ev ∷ []
enqueue ev (x ∷ q) = if later x ev then ev ∷ x ∷ q else x ∷ enqueue ev q

pub push : SimEvent → SimNet → SimNet
push ev n = record n {
  queue = enqueue (record ev { seq = n.next_seq }) n.queue;
  next_seq = n.next_seq + 1;
}

abbrev pub event : ℕ → Kind → ℕ → ℕ → ℕ → ℕ → SimEvent
event due kind dst fd aux ud = record {
  due = due;
  seq = 0;
  kind = kind;
  dst = dst;
  fd = fd;
  aux = aux;
  ud = ud;
}

abbrev pub find_link : List (ℕ × ℕ) → ℕ → Option ℕ
find_link [] fd = none
find_link ((k, l) ∷ m) fd = if k == fd then some l else find_link m fd

abbrev pub erase_link : List (ℕ × ℕ) → ℕ → List (ℕ × ℕ)
erase_link [] fd = []
erase_link ((k, l) ∷ m) fd = let rest = erase_link m fd in if k == fd then rest else (k, l) ∷ rest

abbrev pub find_listener : List Listener → ℕ → Option Listener
find_listener [] port = none
find_listener (l ∷ ls) port = if l.port == port then some l else find_listener ls port

abbrev pub forget_port : List Listener → ℕ → List Listener
forget_port [] port = []
forget_port (l ∷ ls) port =
    let rest = forget_port ls port in if l.port == port then rest else l ∷ rest

pub listen : ℕ → ℕ → ℕ → SimNet → SimNet
listen backend listen_fd port n = if port == 0 then n else record n {
  listeners =
      record { port = port; backend = backend; listen_fd = listen_fd }
      ∷ forget_port n.listeners port;
}

abbrev pub econnrefused : ℕ
econnrefused = 111

abbrev pub econnreset : ℕ
econnreset = 104

abbrev pub connect_to : ℕ → ℕ → ℕ → ℕ → ℕ → Option Listener → SimNet → SimNet
connect_to src fd ud peer_fd latency none n =
    push (event (n.now + latency) connect_done src fd econnrefused ud) n
connect_to src fd ud peer_fd latency (some l) n =
    let link : Link = record {
      a = src;
      a_fd = fd;
      b = l.backend;
      b_fd = peer_fd;
      partitioned = false;
      next_free_ab = 0;
      next_free_ba = 0;
    } in
    let k = length n.links in
    let n1 : SimNet = record n {
      links = n.links ++ link ∷ [];
      fd_link = (peer_fd, k) ∷ erase_link ((fd, k) ∷ erase_link n.fd_link fd) peer_fd;
    } in
    push (event (n.now + latency) accept l.backend l.listen_fd peer_fd 0)
      (push (event (n.now + latency) connect_done src fd 0 ud) n1)

pub connect : ℕ → ℕ → ℕ → ℕ → ℕ → ℕ → SimNet → SimNet
unfolding push
connect src fd port ud peer_fd latency n =
    connect_to src fd ud peer_fd latency (find_listener n.listeners port) n

-- The pieces of a fragmented delivery: each cut leaves at least one byte behind it on its left, and the
-- last piece takes what is left.
pub fragments : List ℕ → List ℕ → List (List ℕ)
fragments cuts [] = []
fragments [] (b ∷ bs) = (b ∷ bs) ∷ []
fragments (c ∷ cuts) (b ∷ bs) = (b ∷ take c bs) ∷ fragments cuts (drop c bs)

-- The pieces at successive instants.
pub push_pieces : ℕ → ℕ → ℕ → List (List ℕ) → SimNet → SimNet
unfolding push
push_pieces due dst fd [] n = n
push_pieces due dst fd (p ∷ ps) n =
    push_pieces (due + 1) dst fd ps (push (event due (bytes p) dst fd 0 0) n)

-- Whether `fd` of `src` is the a-side of a link.
abbrev pub is_a_side : Link → ℕ → ℕ → Bool
is_a_side l src fd = (l.a == src) && (l.a_fd == fd)

abbrev pub free_at : Link → Bool → ℕ
free_at l a_to_b = if a_to_b then l.next_free_ab else l.next_free_ba

abbrev pub move_free : Link → Bool → ℕ → Link
move_free l a_to_b t =
    if a_to_b then record l { next_free_ab = t } else record l { next_free_ba = t }

abbrev pub flat : List (List ℕ) → List ℕ
flat [] = []
flat (b ∷ bs) = b ++ flat bs

-- The delivery once no fault has taken it.
pub schedule : Fate → ℕ → Link → Bool → ℕ → ℕ → List ℕ → SimNet → SimNet
unfolding push push_pieces fragments
schedule f k l a_to_b dst dst_fd data' n =
    let due =
      if ltb (n.now + f.delay) (free_at l a_to_b) then free_at l a_to_b else n.now + f.delay in
    let pieces =
      if f.is_fragmented && ltb 1 (length data') then fragments f.cuts data' else data' ∷ [] in
    push_pieces due dst dst_fd pieces
      (record n { links = set n.links k (move_free l a_to_b (due + length pieces)) })

abbrev pub reset_both : Fate → ℕ → ℕ → ℕ → ℕ → SimNet → SimNet
reset_both f src fd dst dst_fd n =
    let n1 = push (event (n.now + f.reset_latencies.0) peer_reset dst dst_fd econnreset 0) n in
    let n2 = push (event (n.now + f.reset_latencies.1) peer_reset src fd econnreset 0) n1 in
    record n2 { fd_link = erase_link (erase_link n2.fd_link fd) dst_fd }

pub deliver_on : Fate → ℕ → ℕ → ℕ → Link → List ℕ → SimNet → SimNet
unfolding push schedule
deliver_on f src fd k l data' n =
    let a_to_b = is_a_side l src fd in
    let dst = if a_to_b then l.b else l.a in
    let dst_fd = if a_to_b then l.b_fd else l.a_fd in
    if l.partitioned
    then record n { dropped = n.dropped + 1 }
    else if f.is_lost
    then record n { dropped = n.dropped + 1 }
    else if f.is_reset
    then reset_both f src fd dst dst_fd n
    else if f.starts_partition
    then (let n1 =
          push (event (n.now + f.window) partition_end 0 0 k 0)
            (record n { links = set n.links k (record l { partitioned = true }) }) in
        record n1 { dropped = n1.dropped + 1 })
    else schedule f k l a_to_b dst dst_fd data' n

abbrev pub paired : ℕ → Option Link → Option (ℕ × Link)
paired k none = none
paired k (some l) = some (k, l)

abbrev pub link_at : List Link → Option ℕ → Option (ℕ × Link)
link_at links none = none
link_at links (some k) = paired k (get_elem? links k)

abbrev pub link_of : SimNet → ℕ → Option (ℕ × Link)
link_of n fd = link_at n.links (find_link n.fd_link fd)

abbrev pub deliver_to : Fate → ℕ → ℕ → List ℕ → Option (ℕ × Link) → SimNet → SimNet
deliver_to f src fd data' none n = n
deliver_to f src fd data' (some (k, l)) n = deliver_on f src fd k l data' n

pub deliver_bytes : Fate → ℕ → ℕ → List (List ℕ) → SimNet → SimNet
unfolding deliver_on
deliver_bytes f src fd iov n = deliver_to f src fd (flat iov) (link_of n fd) n

abbrev pub forget_listener : List Listener → ℕ → ℕ → List Listener
forget_listener [] src fd = []
forget_listener (l ∷ ls) src fd =
    let rest = forget_listener ls src fd in
    if (l.backend == src) && (l.listen_fd == fd) then rest else l ∷ rest

abbrev pub detach_from : ℕ → ℕ → ℕ → Option (ℕ × Link) → SimNet → SimNet
detach_from src fd latency none n = n
detach_from src fd latency (some (k, l)) n =
    let a_to_b = is_a_side l src fd in
    let dst = if a_to_b then l.b else l.a in
    let dst_fd = if a_to_b then l.b_fd else l.a_fd in
    let n1 : SimNet = record n { fd_link = erase_link (erase_link n.fd_link fd) dst_fd } in
    if l.partitioned then n1 else push (event (n.now + latency) peer_fin dst dst_fd 0 0) n1

pub detach : ℕ → ℕ → ℕ → SimNet → SimNet
unfolding push
detach src fd latency n =
    let n1 : SimNet = record n { listeners = forget_listener n.listeners src fd } in
    detach_from src fd latency (link_of n1 fd) n1

-- A task for a shard, which the simulated runtime applies: `aux` is the shard and `ud` the task.
pub post_task : ℕ → ℕ → ℕ → SimNet → SimNet
unfolding push
post_task shard task delay n = push (event (n.now + delay) post 0 0 shard task) n

abbrev pub partition_at : ℕ → ℕ → SimNet → Option Link → SimNet
partition_at k window n none = n
partition_at k window n (some l) =
    push (event (n.now + window) partition_end 0 0 k 0)
      (record n { links = set n.links k (record l { partitioned = true }) })

pub partition : ℕ → ℕ → SimNet → SimNet
unfolding push
partition k window n = partition_at k window n (get_elem? n.links k)

abbrev pub end_at : ℕ → SimNet → Option Link → SimNet
end_at k n none = n
end_at k n (some l) = record n { links = set n.links k (record l { partitioned = false }) }

pub end_partition : ℕ → SimNet → SimNet
end_partition k n = end_at k n (get_elem? n.links k)

-- What an event that has come up changes in the network; every kind but this one is a call of the backend
-- `dst` or of the runtime.
abbrev pub apply_kind : Kind → ℕ → SimNet → SimNet
apply_kind partition_end aux n = end_partition aux n
apply_kind k aux n = n

pub apply : SimEvent → SimNet → SimNet
unfolding end_partition
apply ev n = apply_kind ev.kind ev.aux n

abbrev pub due_first : List SimEvent → ℕ → Bool
due_first [] t = false
due_first (ev ∷ q) t = leb ev.due t

pub due_next : ℕ → SimNet → Bool
due_next t n = due_first n.queue t

abbrev pub pop_from : List SimEvent → SimNet → Option (SimEvent × SimNet)
pop_from [] n = none
pop_from (ev ∷ q) n = some (ev, record n { queue = q })

pub pop : SimNet → Option (SimEvent × SimNet)
pop n = pop_from n.queue n
