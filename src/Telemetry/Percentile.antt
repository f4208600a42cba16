-- ===== src/Telemetry/Percentile.antt =====
-- core/src/telemetry.rs: `percentile_permille` against the recorded samples.
use fieldbus_control_node.Prelude.{
  ℕ, suc, ◌+◌, ◌-◌, ◌*◌, ◌^◌, ◌<◌, ◌≤◌, ◌≡◌, ap, ◌∙◌, ◌⊎◌, inl, inr, arith, List, [], ◌∷◌, leb,
  if◌then◌else◌, u64, length, sum, take, subst,
}
use native.Mathlib.Decide.{dec_lt}
use fieldbus_control_node.Telemetry.{
  num_buckets, overflow_floor_us, new, record_all, find_rank, rank_of, percentile_permille,
}
use fieldbus_control_node.Telemetry.Histogram.{
  below, sum_buckets-below, sum_buckets-length, buckets-length, record_all-count, new_count,
}

-- The value reported for a bucket.
abbrev edge : ℕ → ℕ
edge b = if leb num_buckets b then overflow_floor_us else (b + 1) * 10

-- The loop stops at the first bucket at which the count so far reaches the rank, when the rank is
-- not past the whole count.
find_rank-first :
    (rank i cumulative : ℕ) (cs : List ℕ)
    → cumulative + sum cs < 2 ^ 64
    → cumulative < rank
    → rank ≤ cumulative + sum cs
    → (d : ℕ) × (d < length cs)
      × (find_rank rank i cumulative cs ≡ edge (i + d))
      × (cumulative + sum (take d cs) < rank)
      × (rank ≤ cumulative + sum (take (suc d) cs))
unfolding find_rank
find_rank-first rank i cumulative [] h g k = absurd (omega arith)
find_rank-first rank i cumulative (c ∷ cs) h g k =
    let fits : u64 (cumulative + c) ≡ cumulative + c = omega arith in
    elim (dec_lt (cumulative + c) rank) [
      | yes more ↦
          let (d, in_range, found, under, over) =
            find_rank-first rank (i + 1) (u64 (cumulative + c)) cs (omega arith) (omega arith)
              (omega arith) in
          let shift : i + 1 + d ≡ i + suc d = omega arith in
          (
            suc d,
            omega arith,
            ground (arith, found, ap edge shift),
            omega (arith, under),
            omega (arith, over),
          )
      | no enough ↦
          let same : i + 0 ≡ i = omega arith in
          (0, omega arith, ground (arith, ap edge same), omega arith, omega arith)
    ]

-- The rank is the least number that is at least one and at least the given share of the count.
pub rank_of-nearest :
    (count permille : ℕ)
    → count * permille < 2 ^ 64
    → (1 ≤ rank_of count permille)
      × (count * permille ≤ rank_of count permille * 1000)
      × ((rank_of count permille ≡ 1) ⊎ ((rank_of count permille - 1) * 1000 < count * permille))
unfolding rank_of
rank_of-nearest count permille h = ground arith

rank_of-le :
    (count permille : ℕ)
    → count * permille < 2 ^ 64
    → 0 < count
    → permille ≤ 1000
    → rank_of count permille ≤ count
unfolding rank_of
rank_of-le count permille h g k =
    let most : count * permille ≤ count * 1000 = grind arith in ground arith

percentile-find_rank :
    (ss : List ℕ) (permille : ℕ)
    → 0 < length ss
    → length ss < 2 ^ 32
    → percentile_permille (record_all new ss) permille
      ≡ find_rank (rank_of (length ss) permille) 0 0 (record_all new ss).buckets
unfolding percentile_permille
percentile-find_rank ss permille g h =
    let n : (record_all new ss).count ≡ length ss =
      omega (arith, record_all-count new ss (omega (arith, new_count)), new_count) in
    rw n (ground arith)

percentile-rank :
    (ss : List ℕ) (permille : ℕ)
    → 0 < length ss
    → length ss < 2 ^ 32
    → permille ≤ 1000
    → let r = percentile_permille (record_all new ss) permille in
      let rank = rank_of (length ss) permille in
      (b : ℕ) × (((b < num_buckets) × (r ≡ (b + 1) * 10) × (rank ≤ below r ss))
        ⊎ ((b ≡ num_buckets) × (r ≡ overflow_floor_us)))
      × (below (b * 10) ss < rank)
percentile-rank ss permille g h k =
    let bs = (record_all new ss).buckets in
    let rank = rank_of (length ss) permille in
    let scaled : length ss * permille < 2 ^ 64 =
      let most : length ss * permille ≤ length ss * 1000 = grind arith in omega arith in
    let total = sum_buckets-length ss h in
    let (b, in_range, found, under, over) =
      find_rank-first rank 0 0 bs (omega (arith, total))
        (omega (arith, (rank_of-nearest (length ss) permille scaled).0))
        (omega (arith, total, rank_of-le (length ss) permille scaled g k)) in
    let reported = percentile-find_rank ss permille g h ∙ found in
    let fits : b ≤ num_buckets = omega (arith, buckets-length ss) in
    let lower : below (b * 10) ss < rank = omega (arith, sum_buckets-below ss b h fits) in
    elim (dec_lt b num_buckets) [
      | yes inside ↦
          let r : percentile_permille (record_all new ss) permille ≡ (b + 1) * 10 =
            reported ∙ ground arith in
          let upper : rank ≤ below (suc b * 10) ss =
            omega (arith, sum_buckets-below ss (suc b) h inside) in
          let edges : suc b * 10 ≡ percentile_permille (record_all new ss) permille =
            omega (arith, r) in
          (b, inl (inside, r, subst (λ t. rank ≤ below t ss) edges upper), lower)
      | no outside ↦
          let last : b ≡ num_buckets = omega arith in
          (b, inr (last, reported ∙ ground arith), lower)
    ]

-- The percentile of recorded samples, a share of `permille` thousandths: unless the overflow floor
-- is reported, what is reported is the upper edge of a bucket, and at least one sample and at least
-- the share of them lie below it; and below the lower edge of the bucket lie either no samples or
-- less than the share.
pub percentile_brackets :
    (ss : List ℕ) (permille : ℕ)
    → 0 < length ss
    → length ss < 2 ^ 32
    → permille ≤ 1000
    → let r = percentile_permille (record_all new ss) permille in
      (b : ℕ) × (((b < num_buckets)
          × (r ≡ (b + 1) * 10)
          × (1 ≤ below r ss)
          × (length ss * permille ≤ below r ss * 1000))
        ⊎ ((b ≡ num_buckets) × (r ≡ overflow_floor_us)))
      × ((below (b * 10) ss ≡ 0) ⊎ (below (b * 10) ss * 1000 < length ss * permille))
percentile_brackets ss permille g h k =
    let scaled : length ss * permille < 2 ^ 64 =
      let most : length ss * permille ≤ length ss * 1000 = grind arith in omega arith in
    let (least, reaches, nearest) = rank_of-nearest (length ss) permille scaled in
    let (b, found, lower) = percentile-rank ss permille g h k in
    (
      b,
      elim found [
        | inl (inside, r, upper) ↦ inl (inside, r, omega arith, omega arith)
        | inr over ↦ inr over
      ],
      elim nearest [ inl one ↦ inl (omega arith) | inr above ↦ inr (omega arith) ],
    )
