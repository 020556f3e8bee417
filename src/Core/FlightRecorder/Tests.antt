-- ===== src/Core/FlightRecorder/Tests.antt =====
-- A recorder with three records.
use affini_x.Base.{ℕ, List, [], ◌∷◌}
use affini_x.Core.FlightRecorder.{FlightRecord}

abbrev event : ℕ → FlightRecord
event n = record { tsc = n; kind = 1; handle = 7; a = 0; b = 0; trace = 0 }

abbrev events : List FlightRecord
events = event 30 ∷ event 20 ∷ event 10 ∷ []
