-- ===== src/Core/Histogram/Tests.antt =====
-- Histograms at concrete values.
use affini_x.Base.{◌≡◌, refl, [], ◌∷◌}
use affini_x.Core.Histogram.{Histogram, create, bucket_of, highest_bit}
use affini_x.Core.Histogram.Merge.{add_values}

abbrev shard : Histogram
shard = add_values create (900 ∷ 3 ∷ [])

buckets_of : (bucket_of 0 ≡ 0) × (bucket_of 1023 ≡ 9) × (bucket_of 1024 ≡ 10)
unfolding bucket_of highest_bit
buckets_of = (refl, refl, refl)
