-- ===== src/Core/IoBuffer/Tests.antt =====
-- The buffer at concrete inputs.
use affini_x.Base.{◌+◌, ◌*◌, ◌%◌, ◌^◌, ◌<◌, ◌≡◌, refl, none, some, [], ◌∷◌, arith}
use affini_x.Core.IoBuffer.Grow.{IsValid}
use affini_x.Core.IoBuffer.Queue.{append_lem}
use affini_x.Core.IoBuffer.Overrun.{append_overruns}
use affini_x.Core.IoBuffer.{IoBuffer, readable, doubled, append}

abbrev small_buffer : IoBuffer
small_buffer = record {
  cap = 6;
  buf = 0 ∷ 0 ∷ 1 ∷ 2 ∷ 3 ∷ 4 ∷ [];
  headroom = 2;
  start = 2;
  size = 4;
}

small_buffer-IsValid : IsValid small_buffer
small_buffer-IsValid = record {
  bounds = record { allocated = refl; room = omega arith; ends = omega arith };
  starts = omega arith;
}

append_lem_example :
    (b' : IoBuffer) × (append small_buffer (5 ∷ 6 ∷ []) ≡ some b')
    × IsValid b'
    × (readable b' ≡ 1 ∷ 2 ∷ 3 ∷ 4 ∷ 5 ∷ 6 ∷ [])
    × (b'.headroom ≡ 2)
    × (b'.cap < 2 ^ 64)
append_lem_example =
    append_lem small_buffer (5 ∷ 6 ∷ []) small_buffer-IsValid (omega arith) (omega arith)

-- From a capacity of 2^63 the doubling does not end.
grows_forever : doubled 65 (2 ^ 63 * 2 % 2 ^ 64) (2 ^ 63 + 1) ≡ none
unfolding doubled
grows_forever = refl

-- What `small_buffer` is after the header.
abbrev headed : IoBuffer
headed = record { cap = 6; buf = 9 ∷ 9 ∷ 1 ∷ 2 ∷ 3 ∷ 4 ∷ []; headroom = 2; start = 0; size = 6 }

append_overruns_example : append headed (7 ∷ []) ≡ none
append_overruns_example =
    append_overruns headed (7 ∷ [])
      (record { allocated = refl; room = omega arith; ends = omega arith }) (omega arith)
      (omega arith) (omega arith) (omega arith)
