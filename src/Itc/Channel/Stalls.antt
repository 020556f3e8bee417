-- ===== src/Itc/Channel/Stalls.antt =====
-- Two ways in which items stay in a channel with no drain on its way.

use affini_x.Base.{
  ℕ, ◌-◌, ◌%◌, ◌<◌, ◌≡◌, refl, ap, ◌∙◌, min, Bool, true, false, List, [], ◌∷◌, arith, ◌==◌, length,
  take, length-drop,
}
use affini_x.Itc.SpscRing.{SpscRing}
use affini_x.Itc.SpscRing
use affini_x.Itc.SpscRing.Queue.{IsValid, contents, drain_contiguous_lem}
use affini_x.Itc.Channel.{ChannelState, poke, push, drain_limit, run_posted, push_each}

-- The drain of one post hands over one run of the buffer: where the queued items wrap round its end,
-- or are more than 1024, the rest stays queued, and no drain is posted for it.
pub drain_leaves_rest :
    (st : ChannelState)
    → IsValid st.spsc
    → st.has_cb ≡ true
    → st.drains_posted ≡ 1
    → min (st.spsc.cap - st.spsc.head % st.spsc.cap) drain_limit < length (contents st.spsc)
    → let (batch, st') = run_posted st in
      (batch ≡ take (min (st.spsc.cap - st.spsc.head % st.spsc.cap) drain_limit) (contents st.spsc))
      × (0 < length (contents st'.spsc))
      × (st'.drain_posted ≡ false)
      × (st'.drains_posted ≡ 0)
unfolding run_posted
drain_leaves_rest st v cb one more =
    let p = drain_contiguous_lem st.spsc drain_limit v in
    let n =
      min (min (length (contents st.spsc)) (st.spsc.cap - st.spsc.head % st.spsc.cap))
        drain_limit in
    let e : n ≡ min (st.spsc.cap - st.spsc.head % st.spsc.cap) drain_limit = omega arith in
    let z : (st.drains_posted == 0) ≡ false = ground arith in
    let left : length (contents (SpscRing.drain_contiguous st.spsc drain_limit).1)
        ≡ length (contents st.spsc) - n =
      ap length p.1 ∙ length-drop n (contents st.spsc) in
    rw z (
      rw cb (
        p.0 ∙ ap (λ k. take k (contents st.spsc)) e,
        omega (arith, left, e, more),
        refl,
        omega (arith, one),
      ))

poke-posted : (accepted : Bool) (st : ChannelState) → st.drain_posted ≡ true → poke accepted st ≡ st
unfolding poke
poke-posted accepted st e = ground arith

push-keeps :
    (accepted : Bool) (st : ChannelState) (v : ℕ)
    → st.drain_posted ≡ true
    → ((push accepted st v).1.drain_posted ≡ true)
      × ((push accepted st v).1.drains_posted ≡ st.drains_posted)
unfolding push
push-keeps accepted st v e = (ground arith, ground arith)

poked :
    (st : ChannelState)
    → st.has_target ≡ true
    → st.drain_posted ≡ false
    → ((poke false st).drain_posted ≡ true) × ((poke false st).drains_posted ≡ st.drains_posted)
unfolding poke
poked st t f = (ground (arith, t, f), ground (arith, t, f))

stuck :
    (st : ChannelState) (vs : List ℕ)
    → st.drain_posted ≡ true
    → (push_each st vs).drains_posted ≡ st.drains_posted
unfolding push_each
stuck st [] e = refl
stuck st (v ∷ vs) e = let k = push-keeps true st v e in stuck (push true st v).1 vs k.0 ∙ k.1

-- A post that the full mailbox refuses leaves the flag set: from then on no push posts a drain, though
-- the mailbox would take it, and the consumer's loop hands over nothing.
pub refused_post_stalls :
    (st : ChannelState) (vs : List ℕ)
    → st.has_target ≡ true
    → st.drain_posted ≡ false
    → st.drains_posted ≡ 0
    → ((push_each (poke false st) vs).drains_posted ≡ 0)
      × ((run_posted (push_each (poke false st) vs)).0 ≡ [])
unfolding run_posted
refused_post_stalls st vs t f z =
    let p = poked st t f in
    let e : (push_each (poke false st) vs).drains_posted ≡ 0 =
      stuck (poke false st) vs p.0 ∙ p.1 ∙ z in
    (e, rw e refl)
