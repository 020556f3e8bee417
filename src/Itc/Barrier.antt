-- ===== src/Itc/Barrier.antt =====
-- include/afx/itc/barrier.hpp. The poster and the shards take turns in any order: a post to the next mailbox,
-- whose answer is an argument and is not looked at; a shard that runs `per_shard`; a shard that counts down,
-- and runs `done` where it is the last. A shard is its number.
pub mod Once
mod Tests
use affini_x.Base.{
  ℕ, zero, suc, ◌+◌, ◌-◌, ◌==◌, Bool, true, false, if◌then◌else◌, List, [], ◌∷◌, ◌++◌, contains,
  erase,
}
use affini_x.Itc.SpscRing.{sub_size}

-- `unposted` are the mailboxes that are still to be posted to, `waiting` the shards whose task is queued,
-- `counting` those that have run `per_shard` and not counted down, `refused` those whose post was refused,
-- `arrived` the shards that ran `per_shard` and `done_by` those that ran `done`.
pub record Barrier : Type 0 where
  pub remaining : ℕ
  pub unposted : ℕ
  pub refused : List ℕ
  pub waiting : List ℕ
  pub counting : List ℕ
  pub arrived : List ℕ
  pub done_by : List ℕ

-- The state that the tasks share; without mailboxes there is none and nothing is posted.
pub arrive_all : ℕ → Barrier
arrive_all n = record {
  remaining = n;
  unposted = n;
  refused = [];
  waiting = [];
  counting = [];
  arrived = [];
  done_by = [];
}

-- The post to the mailbox after which `left` are left to be posted to; shards are numbered from the last.
pub post_at : ℕ → Bool → Barrier → Barrier
post_at zero ok b = b
post_at (suc left) true b = record b { unposted = left; waiting = b.waiting ++ left ∷ [] }
post_at (suc left) false b = record b { unposted = left; refused = b.refused ++ left ∷ [] }

pub run_shard : ℕ → Barrier → Barrier
run_shard i b =
    if contains i b.waiting
    then record b {
      waiting = erase i b.waiting;
      counting = b.counting ++ i ∷ [];
      arrived = b.arrived ++ i ∷ [];
    }
    else b

-- `fetch_sub`, which gives the count before it.
pub count_down : ℕ → Barrier → Barrier
count_down i b =
    if contains i b.counting
    then record b {
      remaining = sub_size b.remaining 1;
      counting = erase i b.counting;
      done_by = if b.remaining == 1 then b.done_by ++ i ∷ [] else b.done_by;
    }
    else b

pub data Action : Type 0 where
  posts : Bool → Action
  runs : ℕ → Action
  counts : ℕ → Action

pub act : Action → Barrier → Barrier
act (posts ok) b = post_at b.unposted ok b
act (runs i) b = run_shard i b
act (counts i) b = count_down i b

pub run : List Action → Barrier → Barrier
run [] b = b
run (a ∷ as') b = run as' (act a b)
