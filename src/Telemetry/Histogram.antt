-- ===== src/Telemetry/Histogram.antt =====
-- core/src/telemetry.rs: the buckets of the histogram against the recorded samples.
use fieldbus_control_node.Prelude.{
  ℕ, zero, suc, ◌+◌, ◌*◌, ◌^◌, ◌<◌, ◌≤◌, ◌≡◌, refl, sym, ap, ◌∙◌, arith, List, [], ◌∷◌, ltb, ◌==◌,
  if◌then◌else◌, u32, get_or, length, length-set, get_or-set_self, get_or-set_ne, get_or-replicate,
  length-replicate, sum, take, sum-take-suc, take-length,
}
use native.Mathlib.Decide.{ℕ_discrete}
use fieldbus_control_node.Telemetry.{
  JitterStats, num_buckets, new, bucket, record_sample, record_all,
}

-- How many samples pass a test: those of one bucket, and those under a limit.
abbrev pub in_bucket : ℕ → List ℕ → ℕ
in_bucket i [] = 0
in_bucket i (s ∷ ss) = if bucket s == i then suc (in_bucket i ss) else in_bucket i ss

abbrev pub below : ℕ → List ℕ → ℕ
below t [] = 0
below t (s ∷ ss) = if ltb s t then suc (below t ss) else below t ss

in_bucket-cons :
    (i s : ℕ) (ss : List ℕ) → in_bucket i (s ∷ ss) ≡ in_bucket i (s ∷ []) + in_bucket i ss
in_bucket-cons i s ss = ground arith

in_bucket_one-le : (i s : ℕ) → in_bucket i (s ∷ []) ≤ 1
in_bucket_one-le i s = ground arith

bucket-lt : (s : ℕ) → bucket s < num_buckets + 1
unfolding bucket
bucket-lt s = ground arith

record_sample-bucket :
    (j : JitterStats) (s i : ℕ)
    → length j.buckets ≡ num_buckets + 1
    → get_or j.buckets i 0 + 1 < 2 ^ 32
    → get_or (record_sample j s).buckets i 0 ≡ get_or j.buckets i 0 + in_bucket i (s ∷ [])
unfolding record_sample
record_sample-bucket j s i l h =
    let w = u32 (get_or j.buckets (bucket s) 0 + 1) in
    elim (ℕ_discrete (bucket s) i) [
      | yes e ↦
          let hit = get_or-set_self j.buckets (bucket s) w 0 (omega (arith, bucket-lt s)) in
          rw (← e) (ground (arith, hit, ap (λ (k : ℕ). get_or j.buckets k 0) e))
      | no ne ↦ ground (arith, get_or-set_ne j.buckets (bucket s) i w 0 ne)
    ]

record_sample-length :
    (j : JitterStats) (s : ℕ) → length (record_sample j s).buckets ≡ length j.buckets
unfolding record_sample
record_sample-length j s = length-set j.buckets (bucket s) _

pub record_all-bucket :
    (j : JitterStats) (ss : List ℕ) (i : ℕ)
    → length j.buckets ≡ num_buckets + 1
    → get_or j.buckets i 0 + length ss < 2 ^ 32
    → get_or (record_all j ss).buckets i 0 ≡ get_or j.buckets i 0 + in_bucket i ss
unfolding record_all
record_all-bucket j [] i l h = omega arith
record_all-bucket j (s ∷ ss) i l h =
    let one = record_sample-bucket j s i l (omega arith) in
    let rest =
      record_all-bucket (record_sample j s) ss i (record_sample-length j s ∙ l)
        (omega (arith, in_bucket_one-le i s)) in
    omega (arith, in_bucket-cons i s ss)

pub record_all-length :
    (j : JitterStats) (ss : List ℕ) → length (record_all j ss).buckets ≡ length j.buckets
unfolding record_all
record_all-length j [] = refl
record_all-length j (s ∷ ss) = record_all-length (record_sample j s) ss ∙ record_sample-length j s

pub record_all-count :
    (j : JitterStats) (ss : List ℕ)
    → j.count + length ss < 2 ^ 64
    → (record_all j ss).count ≡ j.count + length ss
unfolding record_all record_sample
record_all-count j [] h = omega arith
record_all-count j (s ∷ ss) h = omega (arith, record_all-count (record_sample j s) ss (omega arith))

in_bucket-le : (i : ℕ) (ss : List ℕ) → in_bucket i ss ≤ length ss
in_bucket-le i [] = omega arith
in_bucket-le i (s ∷ ss) = ground (arith, in_bucket-le i ss)

pub below-le : (t : ℕ) (ss : List ℕ) → below t ss ≤ length ss
below-le t [] = omega arith
below-le t (s ∷ ss) = ground (arith, below-le t ss)

-- Under the overflow floor, the samples under a bucket's upper edge are those under its lower edge
-- and those in it.
below-bucket :
    (b : ℕ) (ss : List ℕ)
    → b < num_buckets
    → below ((b + 1) * 10) ss ≡ below (b * 10) ss + in_bucket b ss
unfolding bucket
below-bucket b [] h = omega arith
below-bucket b (s ∷ ss) h = ground (arith, below-bucket b ss)

below-zero : (ss : List ℕ) → below 0 ss ≡ 0
below-zero [] = refl
below-zero (s ∷ ss) = ground (arith, below-zero ss)

new_bucket : (i : ℕ) → get_or new.buckets i 0 ≡ 0
unfolding new
new_bucket i = get_or-replicate (num_buckets + 1) i 0

new_length : length new.buckets ≡ num_buckets + 1
unfolding new
new_length = length-replicate (num_buckets + 1) 0

pub buckets-length : (ss : List ℕ) → length (record_all new ss).buckets ≡ num_buckets + 1
buckets-length ss = record_all-length new ss ∙ new_length

pub buckets_count :
    (ss : List ℕ) (i : ℕ)
    → length ss < 2 ^ 32
    → get_or (record_all new ss).buckets i 0 ≡ in_bucket i ss
buckets_count ss i h =
    omega (arith, record_all-bucket new ss i new_length (omega (arith, new_bucket i)), new_bucket i)

-- The first buckets together count the samples under their upper edge.
pub sum_buckets-below :
    (ss : List ℕ) (b : ℕ)
    → length ss < 2 ^ 32
    → b ≤ num_buckets
    → sum (take b (record_all new ss).buckets) ≡ below (b * 10) ss
sum_buckets-below ss zero h k = omega (arith, below-zero ss)
sum_buckets-below ss (suc b) h k = omega (
  arith,
  sum-take-suc b (record_all new ss).buckets,
  buckets_count ss b h,
  sum_buckets-below ss b h (omega arith),
  below-bucket b ss (omega arith),
  ap (λ (t : ℕ). below t ss) (add-ten b),
)
  where
    add-ten : (b : ℕ) → (b + 1) * 10 ≡ suc b * 10
    add-ten b = omega arith

in_overflow : (ss : List ℕ) → below (num_buckets * 10) ss + in_bucket num_buckets ss ≡ length ss
unfolding bucket
in_overflow [] = omega arith
in_overflow (s ∷ ss) = ground (arith, in_overflow ss)

-- All the buckets together count all the samples.
pub sum_buckets-length :
    (ss : List ℕ) → length ss < 2 ^ 32 → sum (record_all new ss).buckets ≡ length ss
sum_buckets-length ss h =
    let bs = (record_all new ss).buckets in
    let whole : take (suc num_buckets) bs ≡ bs =
      ap (λ n. take n bs) (sym (buckets-length ss)) ∙ take-length bs in
    omega (
      arith,
      ap sum whole,
      sum-take-suc num_buckets bs,
      buckets_count ss num_buckets h,
      sum_buckets-below ss num_buckets h (omega arith),
      in_overflow ss,
    )

pub new_count : new.count ≡ 0
unfolding new
new_count = refl
