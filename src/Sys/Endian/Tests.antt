-- ===== src/Sys/Endian/Tests.antt =====
-- Byte orders of a concrete value.
use affini_x.Base.{◌≡◌, true, reverse, arith}
use affini_x.Sys.Endian.{to_bytes, be, le, in_memory}
use affini_x.Sys.Endian.Orders.{be_le_lem}

be_le_lem_example :
    (in_memory true 2 (be true 2 258) ≡ reverse (to_bytes 2 258))
    × (in_memory true 2 (le true 2 258) ≡ to_bytes 2 258)
    × (be true 2 (be true 2 258) ≡ 258)
    × (le true 2 (le true 2 258) ≡ 258)
be_le_lem_example = be_le_lem true 2 258 (omega arith)
