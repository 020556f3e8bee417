-- ===== src/Itc/MpscRing.antt =====
-- include/afx/itc/mpsc_ring.hpp. An action is what one thread does with one access to an atomic or to a
-- cell's data, and a run is any sequence of actions: any number of producers, each with its number, and one
-- consumer. Positions wrap at 2^64, `& mask_` is the remainder by the capacity, a power of two, and an item
-- is a number. The relaxed loads are taken to read the last store.
pub mod Word
pub mod Sound
pub mod Load
pub mod Claim
pub mod Push
pub mod Pop
pub mod Order
pub mod Full
mod Tests
use affini_x.Base.{
  ℕ, zero, suc, ◌+◌, ◌-◌, ◌%◌, ◌^◌, Bool, true, false, List, [], ◌∷◌, ◌++◌, ltb, ◌==◌,
  if◌then◌else◌, update,
}
use affini_x.Itc.SpscRing.{add_size, sub_size}

pub record Cell : Type 0 where
  pub seq : ℕ
  pub item : ℕ

pub record MpscRing : Type 0 where
  pub cap : ℕ
  pub cells : ℕ → Cell
  pub enq_pos : ℕ
  pub deq_pos : ℕ

-- Where a producer of the item `v` stands in `push_impl`: it holds a position and loads the cell's sequence
-- number, has seen its own position there and tries the exchange, loads the position anew, owns the
-- position and writes the item, or has written it and publishes.
pub data Producer : Type 0 where
  idle : Producer
  looks : ℕ → ℕ → Producer
  swaps : ℕ → ℕ → Producer
  reloads : ℕ → Producer
  writes : ℕ → ℕ → Producer
  publishes : ℕ → ℕ → Producer

-- Where the consumer stands in `try_pop`: before it, with the position stored and the item to move, or with
-- the cell to give back.
pub data Consumer : Type 0 where
  ready : Consumer
  takes : ℕ → Consumer
  releases : ℕ → Consumer

-- The ring with its threads. `claimed` are the items in the order in which their pushes won their
-- positions, `popped` those that pops returned, and `refused` counts the pushes that were answered false.
pub record System : Type 0 where
  pub ring : MpscRing
  pub producers : ℕ → Producer
  pub consumer : Consumer
  pub claimed : List ℕ
  pub popped : List ℕ
  pub refused : ℕ

abbrev pub index : MpscRing → ℕ → ℕ
index r pos = pos % 2 ^ 64 % r.cap

abbrev pub create_ring : ℕ → MpscRing
create_ring capacity = record {
  cap = capacity;
  cells = λ i. record { seq = i; item = 0 };
  enq_pos = 0;
  deq_pos = 0;
}

pub create : ℕ → System
create capacity = record {
  ring = create_ring capacity;
  producers = λ k. idle;
  consumer = ready;
  claimed = [];
  popped = [];
  refused = 0;
}

abbrev pub put : ℕ → Producer → System → System
put k p s = record s { producers = update s.producers k p }

-- The load of the position, at the start of a push and after a sequence number that was ahead.
abbrev pub load_pos : ℕ → ℕ → System → System
load_pos k v s = put k (looks v s.ring.enq_pos) s

-- The load of the sequence number. A difference of 2^63 or more is negative.
abbrev pub load_seq : ℕ → ℕ → ℕ → System → System
load_seq k v pos s =
    let dif = sub_size (s.ring.cells (index s.ring pos)).seq pos in
    if dif == 0
    then put k (swaps v pos) s
    else if ltb dif (2 ^ 63)
    then put k (reloads v) s
    else record (put k idle s) { refused = s.refused + 1 }

-- `compare_exchange_weak`, which may fail without a reason.
abbrev pub exchange : ℕ → Bool → ℕ → ℕ → System → System
exchange k fails v pos s =
    let r = s.ring in
    if fails
    then load_pos k v s
    else if r.enq_pos == pos
    then record (put k (writes v pos) s) {
      ring = record r { enq_pos = add_size pos 1 };
      claimed = s.claimed ++ v ∷ [];
    }
    else load_pos k v s

abbrev pub set_cell : ℕ → Cell → MpscRing → MpscRing
set_cell i c r = record r { cells = update r.cells i c }

abbrev pub write_item : ℕ → ℕ → ℕ → System → System
write_item k v pos s =
    let i = index s.ring pos in
    let c = s.ring.cells i in
    record (put k (publishes v pos) s) { ring = set_cell i (record c { item = v }) s.ring }

abbrev pub store_seq : ℕ → ℕ → System → System
store_seq k pos s =
    let i = index s.ring pos in
    let c = s.ring.cells i in
    record (put k idle s) { ring = set_cell i (record c { seq = add_size pos 1 }) s.ring }

-- The next step of the producer `k` where it is inside a push.
pub push_step : ℕ → Bool → Producer → System → System
push_step k fails idle s = s
push_step k fails (looks v pos) s = load_seq k v pos s
push_step k fails (swaps v pos) s = exchange k fails v pos s
push_step k fails (reloads v) s = load_pos k v s
push_step k fails (writes v pos) s = write_item k v pos s
push_step k fails (publishes v pos) s = store_seq k pos s

pub begin_push : ℕ → ℕ → Producer → System → System
begin_push k v idle s = load_pos k v s
begin_push k v p s = s

-- Whether the cell of the position that is popped next is published; `empty` is the opposite.
abbrev pub is_published : MpscRing → Bool
is_published r = sub_size (r.cells (index r r.deq_pos)).seq (add_size r.deq_pos 1) == 0

-- The next step of the consumer.
pub pop_step : Consumer → System → System
pop_step ready s =
    let r = s.ring in
    if is_published r
    then record s { ring = record r { deq_pos = add_size r.deq_pos 1 }; consumer = takes r.deq_pos }
    else s
pop_step (takes pos) s = record s {
  popped = s.popped ++ (s.ring.cells (index s.ring pos)).item ∷ [];
  consumer = releases pos;
}
pop_step (releases pos) s =
    let i = index s.ring pos in
    let c = s.ring.cells i in
    record s {
      ring = set_cell i (record c { seq = add_size pos s.ring.cap }) s.ring;
      consumer = ready;
    }

pub data Action : Type 0 where
  begins : ℕ → ℕ → Action
  pushes : ℕ → Bool → Action
  pops : Action

pub act : Action → System → System
unfolding begin_push push_step pop_step
act (begins k v) s = begin_push k v (s.producers k) s
act (pushes k fails) s = push_step k fails (s.producers k) s
act pops s = pop_step s.consumer s

pub run : List Action → System → System
unfolding act
run [] s = s
run (a ∷ as') s = run as' (act a s)
