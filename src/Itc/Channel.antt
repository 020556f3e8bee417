-- ===== src/Itc/Channel.antt =====
-- include/afx/itc/channel.hpp, a channel of kind SPSC. `drains_posted` counts the drain tasks that
-- wait in the target's mailbox; whether the mailbox takes a post is an argument.
pub mod Stalls
mod Tests
use affini_x.Base.{ℕ, ◌+◌, ◌-◌, Bool, true, false, not, List, [], ◌∷◌, ltb, ◌==◌, if◌then◌else◌}
use affini_x.Itc.SpscRing
use affini_x.Itc.SpscRing.{SpscRing}

pub record ChannelState : Type 0 where
  pub spsc : SpscRing
  pub drain_posted : Bool
  pub has_target : Bool
  pub has_cb : Bool
  pub drains_posted : ℕ

pub poke : Bool → ChannelState → ChannelState
poke accepted st = if not st.has_target then st else if st.drain_posted then st else record st {
  drain_posted = true;
  drains_posted = if accepted then st.drains_posted + 1 else st.drains_posted;
}

pub push : Bool → ChannelState → ℕ → Bool × ChannelState
unfolding poke
push accepted st v =
    let (done, ring) = SpscRing.try_push st.spsc v in
    let st' : ChannelState = record st { spsc = ring } in
    (done, if done then poke accepted st' else st')

pub push_bulk : Bool → ChannelState → List ℕ → ℕ × ChannelState
unfolding poke
push_bulk accepted st vs =
    let (n, ring) = SpscRing.try_push_bulk st.spsc vs in
    let st' : ChannelState = record st { spsc = ring } in
    (n, if n == 0 then st' else poke accepted st')

abbrev pub drain_limit : ℕ
drain_limit = 1024

-- The batch that the callback gets, if it is called.
pub drain : ChannelState → List ℕ × ChannelState
drain st =
    if not st.has_cb
    then ([], record st { drain_posted = false })
    else (let (batch, ring) = SpscRing.drain_contiguous st.spsc drain_limit in
        (batch, record st { spsc = ring; drain_posted = false }))

-- The consumer's loop runs one posted drain.
pub run_posted : ChannelState → List ℕ × ChannelState
unfolding drain
run_posted st =
    if st.drains_posted == 0
    then ([], st)
    else drain (record st { drains_posted = st.drains_posted - 1 })

-- A producer that pushes items one by one; the mailbox takes every further post.
pub push_each : ChannelState → List ℕ → ChannelState
push_each st [] = st
push_each st (v ∷ vs) = push_each (push true st v).1 vs
