-- ===== src/Core/Histogram.antt =====
-- include/afx/core/stats.hpp, `Histogram`, but for its two answers in `double`. The counters are 64 bits
-- wide and wrap.
pub mod Merge
mod Tests
use affini_x.Base.{
  ℕ, zero, suc, ◌+◌, ◌-◌, ◌*◌, ◌/◌, ◌%◌, ◌^◌, List, [], ◌∷◌, ltb, leb, ◌==◌, if◌then◌else◌,
  replicate,
}

pub record Histogram : Type 0 where
  pub buckets : List ℕ
  pub total_count : ℕ
  pub total : ℕ
  pub max_value : ℕ
  pub min_value : ℕ

pub create : Histogram
create = record {
  buckets = replicate 64 0;
  total_count = 0;
  total = 0;
  max_value = 0;
  min_value = 2 ^ 64 - 1;
}

-- The place of the highest bit, at `b` or below.
pub highest_bit : ℕ → ℕ → ℕ
highest_bit zero v = 0
highest_bit (suc b) v = if leb (2 ^ suc b) v then suc b else highest_bit b v

-- `63 - __builtin_clzll(value_ns | 1)`.
pub bucket_of : ℕ → ℕ
unfolding highest_bit
bucket_of value_ns = highest_bit 63 (value_ns / 2 * 2 + 1)

abbrev pub bump : List ℕ → ℕ → List ℕ
bump [] b = []
bump (n ∷ ns) zero = (n + 1) % 2 ^ 64 ∷ ns
bump (n ∷ ns) (suc b) = n ∷ bump ns b

pub add_value : Histogram → ℕ → Histogram
unfolding bucket_of
add_value h value_ns = record {
  buckets = bump h.buckets (bucket_of value_ns);
  total_count = (h.total_count + 1) % 2 ^ 64;
  total = (h.total + value_ns) % 2 ^ 64;
  max_value = if ltb h.max_value value_ns then value_ns else h.max_value;
  min_value = if ltb value_ns h.min_value then value_ns else h.min_value;
}

pub max_seen : Histogram → ℕ
max_seen h = if h.total_count == 0 then 0 else h.max_value

pub min_seen : Histogram → ℕ
min_seen h = if h.total_count == 0 then 0 else h.min_value

abbrev pub add_each : List ℕ → List ℕ → List ℕ
add_each [] ms = []
add_each (n ∷ ns) [] = n ∷ ns
add_each (n ∷ ns) (m ∷ ms) = (n + m) % 2 ^ 64 ∷ add_each ns ms

pub merge : Histogram → Histogram → Histogram
merge h o = record {
  buckets = add_each h.buckets o.buckets;
  total_count = (h.total_count + o.total_count) % 2 ^ 64;
  total = (h.total + o.total) % 2 ^ 64;
  max_value = if ltb h.max_value o.max_value then o.max_value else h.max_value;
  min_value = if ltb o.min_value h.min_value then o.min_value else h.min_value;
}
