-- ===== src/Telemetry/Extremes.antt =====
-- core/src/telemetry.rs: `min_us` and `max_us` against the recorded samples.
use fieldbus_control_node.Prelude.{
  ℕ, suc, ◌-◌, ◌^◌, ◌<◌, ◌≤◌, ◌≡◌, refl, ◌⊎◌, inl, inr, arith, List, [], ◌∷◌, length, All, Any,
  subst, ◌∙◌, sym,
}
use fieldbus_control_node.Telemetry.{JitterStats, new, record_sample, record_all, min_us}
use fieldbus_control_node.Telemetry.Histogram.{record_all-count, new_count}

sample-max :
    (j : JitterStats) (s : ℕ)
    → let m = (record_sample j s).max_us in (j.max_us ≤ m) × (s ≤ m) × ((m ≡ j.max_us) ⊎ (m ≡ s))
unfolding record_sample
sample-max j s = ground arith

record_all-max :
    (j : JitterStats) (ss : List ℕ)
    → let m = (record_all j ss).max_us in
      (j.max_us ≤ m) × All (λ s. s ≤ m) ss × ((m ≡ j.max_us) ⊎ Any (λ s. m ≡ s) ss)
unfolding record_all
record_all-max j [] = (omega arith, tt, inl refl)
record_all-max j (s ∷ ss) =
    let one = sample-max j s in
    let rest = record_all-max (record_sample j s) ss in
    (
      omega arith,
      (omega arith, rest.1),
      elim rest.2 [
        | inl e ↦ elim one.2 [ inl f ↦ inl (e ∙ f) | inr f ↦ inr (inl (e ∙ f)) ]
        | inr later ↦ inr (inr later)
      ],
    )

sample-min :
    (j : JitterStats) (s : ℕ)
    → let m = (record_sample j s).min_us in (m ≤ j.min_us) × (m ≤ s) × ((m ≡ j.min_us) ⊎ (m ≡ s))
unfolding record_sample
sample-min j s = ground arith

record_all-min :
    (j : JitterStats) (ss : List ℕ)
    → let m = (record_all j ss).min_us in
      (m ≤ j.min_us) × All (λ s. m ≤ s) ss × ((m ≡ j.min_us) ⊎ Any (λ s. m ≡ s) ss)
unfolding record_all
record_all-min j [] = (omega arith, tt, inl refl)
record_all-min j (s ∷ ss) =
    let one = sample-min j s in
    let rest = record_all-min (record_sample j s) ss in
    (
      omega arith,
      (omega arith, rest.1),
      elim rest.2 [
        | inl e ↦ elim one.2 [ inl f ↦ inl (e ∙ f) | inr f ↦ inr (inl (e ∙ f)) ]
        | inr later ↦ inr (inr later)
      ],
    )

new_extremes : (new.max_us ≡ 0) × (new.min_us ≡ 2 ^ 64 - 1)
unfolding new
new_extremes = (refl, refl)

-- For at least one 64-bit sample: the reported smallest and largest are samples, and bound all of
-- them.
pub extremes_exact :
    (s : ℕ) (ss : List ℕ)
    → suc (length ss) < 2 ^ 64
    → All (λ x. x < 2 ^ 64) (s ∷ ss)
    → let j = record_all new (s ∷ ss) in
      All (λ x. x ≤ j.max_us) (s ∷ ss)
      × Any (λ x. j.max_us ≡ x) (s ∷ ss)
      × All (λ x. min_us j ≤ x) (s ∷ ss)
      × Any (λ x. min_us j ≡ x) (s ∷ ss)
unfolding min_us
extremes_exact s ss h fits =
    let j = record_all new (s ∷ ss) in
    let most = record_all-max new (s ∷ ss) in
    let least = record_all-min new (s ∷ ss) in
    let n : j.count ≡ suc (length ss) =
      omega (arith, record_all-count new (s ∷ ss) (omega (arith, new_count)), new_count) in
    let shown : min_us j ≡ j.min_us = rw n (ground arith) in
    let attained : Any (λ x. j.max_us ≡ x) (s ∷ ss) = elim most.2 [
      | inl e ↦ inl (omega (arith, new_extremes))
      | inr a ↦ a
    ] in
    let reached : Any (λ x. j.min_us ≡ x) (s ∷ ss) = elim least.2 [
      | inl e ↦ inl (omega (arith, new_extremes))
      | inr a ↦ a
    ] in
    (
      most.1,
      attained,
      subst (λ m. All (λ x. m ≤ x) (s ∷ ss)) (sym shown) least.1,
      subst (λ m. Any (λ x. m ≡ x) (s ∷ ss)) (sym shown) reached,
    )
