-- ===== src/Itc/Barrier/Once.antt =====
-- Runs of a barrier: when `done` runs, and how often.
use affini_x.Base.{
  length-erase, ℕ, zero, suc, ◌+◌, ◌^◌, ◌==◌, ◌≡◌, ◌≤◌, ◌<◌, refl, ap, ◌∙◌, Bool, true, false,
  if◌then◌else◌, if_cases, List, [], ◌∷◌, ◌++◌, length, length-append, contains, erase, count,
  count-append, count-erase, ltb, arith,
}
use affini_x.Itc.SpscRing.{sub_size}
use affini_x.Itc.Barrier.{
  Barrier, arrive_all, post_at, run_shard, count_down, Action, posts, runs, counts, act, run,
}

-- Of `n` shards: the count is that of the shards that have not counted down, the refused ones among them.
record Counts (n : ℕ) (b : Barrier) : Type 0 where
  left : b.remaining ≡ b.unposted + length b.refused + length b.waiting + length b.counting
  shards :
      (i : ℕ)
      → (if ltb i b.unposted then 1 else 0)
          + count i b.refused
          + count i b.waiting
          + count i b.arrived
        ≡ (if ltb i n then 1 else 0)
  small : b.remaining ≤ n
  once : length b.done_by ≡ (if b.remaining == 0 then 1 else 0)

one_less :
    (i u : ℕ)
    → (if ltb i (suc u) then 1 else 0) ≡ (if ltb i u then 1 else 0) + (if u == i then 1 else 0)
one_less i u = ground arith

post_at-Counts :
    (n u : ℕ) (ok : Bool) (b : Barrier) → b.unposted ≡ u → Counts n b → Counts n (post_at u ok b)
unfolding post_at
post_at-Counts n zero ok b e h = h
post_at-Counts n (suc u) true b e h = record {
  left = omega (arith, h.left, e, length-append b.waiting (u ∷ []));
  shards = λ i.
      let s = h.shards i in
      let a = count-append i b.waiting (u ∷ []) in grind (arith, s, e, a, one_less i u);
  small = h.small;
  once = h.once;
}
post_at-Counts n (suc u) false b e h = record {
  left = omega (arith, h.left, e, length-append b.refused (u ∷ []));
  shards = λ i.
      let s = h.shards i in
      let a = count-append i b.refused (u ∷ []) in grind (arith, s, e, a, one_less i u);
  small = h.small;
  once = h.once;
}

run_shard-Counts : (n i : ℕ) (b : Barrier) → Counts n b → Counts n (run_shard i b)
unfolding run_shard
run_shard-Counts n i b h =
    if_cases (Counts n) (contains i b.waiting)
      (record b {
        waiting = erase i b.waiting;
        counting = b.counting ++ i ∷ [];
        arrived = b.arrived ++ i ∷ [];
      })
      b
      (λ e. record {
        left = omega (arith, h.left, length-erase i b.waiting e, length-append b.counting (i ∷ []));
        shards = λ j.
            omega
              (arith, h.shards j, count-erase j i b.waiting e, count-append j b.arrived (i ∷ []));
        small = h.small;
        once = h.once;
      })
      (λ e. h)

count_down-Counts : (n i : ℕ) (b : Barrier) → n < 2 ^ 64 → Counts n b → Counts n (count_down i b)
unfolding count_down
count_down-Counts n i b k h =
    let less = sub_size b.remaining 1 in
    let ended : Barrier = record b {
      remaining = less;
      counting = erase i b.counting;
      done_by = if b.remaining == 1 then b.done_by ++ i ∷ [] else b.done_by;
    } in
    if_cases (Counts n) (contains i b.counting) ended b
      (λ e.
        let c = length-erase i b.counting e in
        let some_left : 0 < b.remaining = omega (arith, h.left, c) in
        let one_less : less + 1 ≡ b.remaining =
          minus b.remaining some_left (omega (arith, h.small, k)) in
        record {
          left = omega (arith, h.left, c, one_less);
          shards = h.shards;
          small = omega (arith, h.small, one_less);
          once = last b.remaining less b.done_by some_left one_less h.once;
        })
      (λ e. h)
  where
    minus : (r : ℕ) → 0 < r → r < 2 ^ 64 → sub_size r 1 + 1 ≡ r
    minus r p q = omega arith

    last :
        (r s : ℕ) (ds : List ℕ)
        → 0 < r
        → s + 1 ≡ r
        → length ds ≡ (if r == 0 then 1 else 0)
        → length (if r == 1 then ds ++ i ∷ [] else ds) ≡ (if s == 0 then 1 else 0)
    last r s ds p q o = let a = length-append ds (i ∷ []) in ground arith

act-Counts : (n : ℕ) (a : Action) (b : Barrier) → n < 2 ^ 64 → Counts n b → Counts n (act a b)
unfolding act
act-Counts n (posts ok) b k h = post_at-Counts n b.unposted ok b refl h
act-Counts n (runs i) b k h = run_shard-Counts n i b h
act-Counts n (counts i) b k h = count_down-Counts n i b k h

run-Counts :
    (n : ℕ) (as' : List Action) (b : Barrier) → n < 2 ^ 64 → Counts n b → Counts n (run as' b)
unfolding run
run-Counts n [] b k h = h
run-Counts n (a ∷ as') b k h = run-Counts n as' (act a b) k (act-Counts n a b k h)

-- In whatever order the posts and the tasks of at least one and fewer than 2^64 shards come: `done` runs once,
-- when every mailbox has been posted to, no post was refused and every task has counted down, and it has not
-- run otherwise; so a post that is refused keeps it from running for good. Each shard, and no other number, is
-- in exactly one of four states, and once in it: still to be posted to, refused, waiting, or one that has run
-- `per_shard`.
pub run-done_by :
    (n : ℕ) (as' : List Action) (i : ℕ)
    → 0 < n
    → n < 2 ^ 64
    → let b = run as' (arrive_all n) in
      (length b.done_by ≡ (
        if b.unposted + length b.refused + length b.waiting + length b.counting == 0 then 1 else 0))
      × ((if ltb i b.unposted then 1 else 0)
            + count i b.refused
            + count i b.waiting
            + count i b.arrived
          ≡ (if ltb i n then 1 else 0))
unfolding arrive_all
run-done_by n as' i p k =
    let h = run-Counts n as' (arrive_all n) k (record {
      left = omega arith;
      shards = λ j. omega arith;
      small = omega arith;
      once = not_yet n p;
    }) in
    (h.once ∙ ap (λ m. if m == 0 then 1 else 0) h.left, h.shards i)
  where
    not_yet : (m : ℕ) → 0 < m → ◌≡◌ {A = ℕ} 0 (if m == 0 then 1 else 0)
    not_yet m q = ground arith
