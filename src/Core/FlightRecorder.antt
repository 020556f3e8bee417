-- ===== src/Core/FlightRecorder.antt =====
-- include/afx/core/flight_recorder.hpp, built with AFX_FLIGHT_RECORDER. `dump` writes what a snapshot of
-- any size would hold.
pub mod Newest
mod Tests
use affini_x.Base.{
  ℕ, zero, suc, ◌+◌, ◌-◌, ◌%◌, ◌^◌, List, [], ◌∷◌, ltb, if◌then◌else◌, get_or, set, replicate,
}

pub record FlightRecord : Type 0 where
  pub tsc : ℕ
  pub kind : ℕ
  pub handle : ℕ
  pub a : ℕ
  pub b : ℕ
  pub trace : ℕ

pub record FlightRecorder : Type 0 where
  pub ring : List FlightRecord
  pub head : ℕ

abbrev pub recorder_capacity : ℕ
recorder_capacity = 4096

abbrev pub no_record : FlightRecord
no_record = record { tsc = 0; kind = 0; handle = 0; a = 0; b = 0; trace = 0 }

pub create : FlightRecorder
create = record { ring = replicate recorder_capacity no_record; head = 0 }

pub add_record : FlightRecord → FlightRecorder → FlightRecorder
add_record e r = record {
  ring = set r.ring (r.head % recorder_capacity) e;
  head = (r.head + 1) % 2 ^ 64;
}

pub recorded : FlightRecorder → ℕ
recorded r = if ltb r.head recorder_capacity then r.head else recorder_capacity

pub read_ring : List FlightRecord → ℕ → ℕ → List FlightRecord
read_ring ring pos zero = []
read_ring ring pos (suc n) =
    get_or ring (pos % recorder_capacity) no_record ∷ read_ring ring (pos + 1) n

pub snapshot : FlightRecorder → ℕ → List FlightRecord
unfolding recorded read_ring
snapshot r cap =
    let n = if ltb cap (recorded r) then cap else recorded r in read_ring r.ring (r.head - n) n
