-- ===== src/Sim/Net/Tests.antt =====
-- A client of backend 1 connected to a listener of backend 0, its sends and its close.
use affini_x.Base.{◌≡◌, refl, inr, true, false, List, [], ◌∷◌, ◌+◌, ◌++◌, arith}
use affini_x.Sim.Net.{
  connect, create, detach, Fate, later, listen, set_now, SimNet, push, deliver_bytes, deliver_on,
  schedule, push_pieces, fragments, pop, apply, end_partition, partition,
}
use affini_x.Sim.Net.Schedule.{IsFlowing}
use affini_x.Sim.Net.Fifo.{in_flight}
use affini_x.Sim.Net.Overtake.{before_fin, detach_lem, due_by}
use affini_x.Sim.Net.Stream.{Move, cut, give, received, run, send, sent, stream_lem, wait}

abbrev connected : SimNet
unfolding connect create listen later push
connected = connect 1 5 80 77 6 10 (listen 0 3 80 create)

abbrev fine : Fate
fine = record {
  is_lost = false;
  is_reset = false;
  starts_partition = false;
  reset_latencies = (1, 1);
  window = 5;
  delay = 9;
  is_fragmented = false;
  cuts = [];
}

abbrev in_pieces : Fate
in_pieces = record fine { is_fragmented = true; cuts = 0 ∷ 1 ∷ []; delay = 4 }

abbrev lost : Fate
lost = record fine { is_lost = true }

connected-IsFlowing : IsFlowing 1 5 6 connected
unfolding connect create listen later push
connected-IsFlowing = record {
  mark = 0;
  ordered = record {
    sorted = ((omega arith, tt), (tt, tt));
    seqs = (omega arith, (omega arith, tt));
    below = (inr refl, (inr refl, tt));
  };
  linked = (refl, refl);
}

-- The second send is cut in pieces and drawn a smaller latency, the third is lost, and a partition takes
-- the fourth.
abbrev moves : List Move
moves =
    send fine ((1 ∷ 2 ∷ []) ∷ (3 ∷ []) ∷ [])
    ∷ send in_pieces ((4 ∷ 5 ∷ 6 ∷ 7 ∷ []) ∷ [])
    ∷ send lost ((8 ∷ []) ∷ [])
    ∷ cut 0 100
    ∷ send fine ((9 ∷ []) ∷ [])
    ∷ wait 20
    ∷ give
    ∷ give
    ∷ give
    ∷ give
    ∷ []

sends_kept : sent 1 5 moves connected ≡ 1 ∷ 2 ∷ 3 ∷ 4 ∷ 5 ∷ 6 ∷ 7 ∷ []
unfolding connect create listen later push set_now deliver_bytes deliver_on schedule push_pieces
    fragments pop apply partition end_partition
sends_kept = refl

handed_out : received 1 5 6 moves connected ≡ 1 ∷ 2 ∷ 3 ∷ 4 ∷ []
unfolding connect create listen later push set_now deliver_bytes deliver_on schedule push_pieces
    fragments pop apply partition end_partition
handed_out = refl

stream_lem_example :
    received 1 5 6 moves connected ++ in_flight 6 (run 1 5 moves connected).queue
    ≡ in_flight 6 connected.queue ++ sent 1 5 moves connected
stream_lem_example =
    stream_lem 1 5 6 moves connected (tt, (tt, (tt, (tt, (tt, (tt, (tt, (tt, (tt, (tt, tt))))))))))
      connected-IsFlowing

-- Two sends of one instant: the second is a nanosecond behind the first.
abbrev two_sent : SimNet
unfolding connect create listen later push deliver_bytes deliver_on schedule push_pieces fragments
two_sent = run 1 5 (send fine ((1 ∷ []) ∷ []) ∷ send fine ((2 ∷ []) ∷ []) ∷ []) connected

-- The peer sees the end of the stream before the second byte.
close_after_two : before_fin 6 (detach 1 5 9 two_sent).queue ≡ 1 ∷ []
unfolding connect create listen later push deliver_bytes deliver_on schedule push_pieces fragments
    detach
close_after_two = refl

detach_lem_example :
    before_fin 6 (detach 1 5 9 two_sent).queue
    ≡ in_flight 6 (due_by (two_sent.now + 9) two_sent.queue)
unfolding connect create listen later push deliver_bytes deliver_on schedule push_pieces fragments
detach_lem_example =
    detach_lem 1 5 9 0 _ two_sent refl refl
      (omega arith, (omega arith, (omega arith, (omega arith, tt))))
      (refl, (refl, (refl, (refl, tt))))
