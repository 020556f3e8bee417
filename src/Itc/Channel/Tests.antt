-- ===== src/Itc/Channel/Tests.antt =====
-- The two stalls at concrete channels.
use affini_x.Base.{◌-◌, ◌%◌, ◌<◌, min, ◌≡◌, refl, true, false, [], ◌∷◌, arith, length, take}
use native.Mathlib.Nat.{dvd_of_mod-eq-zero}
use affini_x.Itc.SpscRing.{SpscRing}
use affini_x.Itc.SpscRing.Queue.{IsValid, contents}
use affini_x.Itc.Channel.{ChannelState, poke, run_posted, push_each, drain_limit}
use affini_x.Itc.Channel.Stalls.{drain_leaves_rest, refused_post_stalls}

-- Positions stand in the middle of a ring of 4, and 3 items wrap round its end.
abbrev wrapped : SpscRing
wrapped = record { cap = 4; buf = 12 ∷ 0 ∷ 10 ∷ 11 ∷ []; head = 2; tail = 5 }

wrapped-IsValid : IsValid wrapped
wrapped-IsValid = record {
  divides = dvd_of_mod-eq-zero 4 refl;
  positive = omega arith;
  storage = refl;
  within = omega arith;
  head_fits = omega arith;
  tail_fits = omega arith;
  bounded = omega arith;
}

abbrev posted : ChannelState
posted = record {
  spsc = wrapped;
  drain_posted = true;
  has_target = true;
  has_cb = true;
  drains_posted = 1;
}

abbrev idle : ChannelState
idle = record {
  spsc = wrapped;
  drain_posted = false;
  has_target = true;
  has_cb = true;
  drains_posted = 0;
}

drain_leaves_rest_example :
    let (batch, st') = run_posted posted in
    (batch ≡ take (min (4 - 2 % 4) drain_limit) (contents wrapped))
    × (0 < length (contents st'.spsc))
    × (st'.drain_posted ≡ false)
    × (st'.drains_posted ≡ 0)
drain_leaves_rest_example = drain_leaves_rest posted wrapped-IsValid refl refl (omega arith)

refused_post_stalls_example :
    ((push_each (poke false idle) (1 ∷ [])).drains_posted ≡ 0)
    × ((run_posted (push_each (poke false idle) (1 ∷ []))).0 ≡ [])
refused_post_stalls_example = refused_post_stalls idle (1 ∷ []) refl refl refl
