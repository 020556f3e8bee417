-- ===== src/Core/Context/Tests.antt =====
-- Contexts at concrete inputs.
use affini_x.Base.{true, none, some}
use affini_x.Core.Context.{Deadline, no_deadline, Context}

abbrev near : Deadline
near = record { t = 50; is_set = true }

abbrev far : Deadline
far = record { t = 90; is_set = true }

abbrev ambient : Context
ambient = record {
  deadline = near;
  trace = record { hi = 1; lo = 2; span = 3 };
  stop = record { state = some 4 };
  priority = 0;
}

abbrev own : Context
own = record {
  deadline = no_deadline;
  trace = record { hi = 0; lo = 0; span = 0 };
  stop = record { state = none };
  priority = 1;
}
