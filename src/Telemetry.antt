-- ===== src/Telemetry.antt =====
-- core/src/telemetry.rs: `JitterStats`. Bucket counters are 32-bit, the other counters and the
-- times 64-bit; all wrap, as in a release build, but the saturating sum.
pub mod Histogram
pub mod Extremes
pub mod Percentile
use fieldbus_control_node.Prelude.{
  ℕ, zero, suc, ◌+◌, ◌-◌, ◌*◌, ◌/◌, ◌%◌, ◌^◌, ◌<◌, Bool, not, List, [], ◌∷◌, ltb, leb, ◌==◌,
  if◌then◌else◌, u32, u64, saturating_add, get_or, set, replicate, length,
}

abbrev pub bucket_width_us : ℕ
bucket_width_us = 10

abbrev pub num_buckets : ℕ
num_buckets = 4000

abbrev pub overflow_floor_us : ℕ
overflow_floor_us = bucket_width_us * num_buckets

pub record JitterStats : Type 0 where
  pub buckets : List ℕ
  pub count : ℕ
  pub sum_us : ℕ
  pub min_us : ℕ
  pub max_us : ℕ
  pub missed_deadlines : ℕ

unfoldable pub new : JitterStats
new = record {
  buckets = replicate (num_buckets + 1) 0;
  count = 0;
  sum_us = 0;
  min_us = 2 ^ 64 - 1;
  max_us = 0;
  missed_deadlines = 0;
}

-- The bucket of a sample.
unfoldable pub bucket : ℕ → ℕ
bucket jitter_us =
    let idx = jitter_us / bucket_width_us in if leb num_buckets idx then num_buckets else idx

-- `record` of the source, which is a reserved word here.
unfoldable pub record_sample : JitterStats → ℕ → JitterStats
record_sample j jitter_us =
    let idx = bucket jitter_us in
    record {
      buckets = set j.buckets idx (u32 (get_or j.buckets idx 0 + 1));
      count = u64 (j.count + 1);
      sum_us = saturating_add j.sum_us jitter_us;
      min_us = if ltb jitter_us j.min_us then jitter_us else j.min_us;
      max_us = if ltb j.max_us jitter_us then jitter_us else j.max_us;
      missed_deadlines = j.missed_deadlines;
    }

unfoldable pub record_miss : JitterStats → JitterStats
record_miss j = record j { missed_deadlines = u64 (j.missed_deadlines + 1) }

unfoldable pub min_us : JitterStats → ℕ
min_us j = if j.count == 0 then 0 else j.min_us

unfoldable pub mean_us : JitterStats → ℕ
mean_us j = if j.count == 0 then 0 else j.sum_us / j.count

-- The loop over the buckets: the index of the next one, and the count so far.
unfoldable pub find_rank : ℕ → ℕ → ℕ → List ℕ → ℕ
find_rank rank i cumulative [] = overflow_floor_us
find_rank rank i cumulative (c ∷ cs) =
    let rest = find_rank rank (i + 1) (u64 (cumulative + c)) cs in
    if leb rank (u64 (cumulative + c))
    then (if leb num_buckets i then overflow_floor_us else (i + 1) * bucket_width_us)
    else rest

-- `rank` of the source, from the count and the permille.
unfoldable pub rank_of : ℕ → ℕ → ℕ
rank_of count permille =
    let scaled = u64 (count * permille) in
    let rank = if not (scaled % 1000 == 0) then scaled / 1000 + 1 else scaled / 1000 in
    if rank == 0 then 1 else rank

unfoldable pub percentile_permille : JitterStats → ℕ → ℕ
percentile_permille j permille =
    if j.count == 0 then 0 else find_rank (rank_of j.count permille) 0 0 j.buckets

unfoldable pub p50_us : JitterStats → ℕ
unfolding percentile_permille
p50_us j = percentile_permille j 500

unfoldable pub p95_us : JitterStats → ℕ
unfolding percentile_permille
p95_us j = percentile_permille j 950

unfoldable pub p99_us : JitterStats → ℕ
unfolding percentile_permille
p99_us j = percentile_permille j 990

unfoldable pub overflowed : JitterStats → Bool
overflowed j = ltb 0 (get_or j.buckets num_buckets 0)

-- A run's samples, in order.
unfoldable pub record_all : JitterStats → List ℕ → JitterStats
record_all j [] = j
record_all j (s ∷ ss) = record_all (record_sample j s) ss
