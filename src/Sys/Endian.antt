-- ===== src/Sys/Endian.antt =====
-- include/afx/sys/endian.hpp for a width of `w` bytes. The compiler's `__builtin_bswap` reverses the
-- bytes of a value; the order of the machine is an argument.
mod Tests
pub mod Orders
use affini_x.Base.{
  ℕ, zero, suc, ◌+◌, ◌*◌, ◌/◌, ◌%◌, Bool, true, false, not, List, [], ◌∷◌, reverse, if◌then◌else◌,
}

-- The bytes of a value, the lowest first, and the value of such bytes.
pub to_bytes : ℕ → ℕ → List ℕ
to_bytes zero v = []
to_bytes (suc w) v = v % 256 ∷ to_bytes w (v / 256)

pub of_bytes : List ℕ → ℕ
of_bytes [] = 0
of_bytes (b ∷ bs) = b + 256 * of_bytes bs

pub byteswap : ℕ → ℕ → ℕ
unfolding to_bytes of_bytes
byteswap w v = of_bytes (reverse (to_bytes w v))

pub le : Bool → ℕ → ℕ → ℕ
unfolding byteswap
le little_endian w v = if little_endian then v else byteswap w v

pub be : Bool → ℕ → ℕ → ℕ
unfolding byteswap
be little_endian w v = if not little_endian then v else byteswap w v

-- The bytes of a value as they stand in the machine's memory.
pub in_memory : Bool → ℕ → ℕ → List ℕ
unfolding to_bytes
in_memory little_endian w v = if little_endian then to_bytes w v else reverse (to_bytes w v)
