-- ===== src/J1939/Validator/Accounting.antt =====
-- core/src/j1939.rs: the validator's counters against the outcomes that it returned.
use fieldbus_control_node.Prelude.{
  ℕ, suc, ◌+◌, ◌^◌, ◌<◌, ◌≡◌, arith, List, [], ◌∷◌, ◌==◌, if◌then◌else◌, u32, length, sum, sum-set,
  length-set, get_or, get_or-set_self, get_or-set_ne, Result, ok, err, ◌∙◌,
}
use native.Mathlib.Decide.{ℕ_discrete}
use fieldbus_control_node.J1939.Payload.{Frame, Payload}
use fieldbus_control_node.J1939.Validator.{
  Validator, Reject, index, new, classify, record_outcome, validate, validate_all, bad_length,
}

pub index-lt : (r : Reject) → index r < 8
unfolding index
index-lt bad_length = omega arith
index-lt _ = omega arith

-- What `validate` returned for each frame of a burst, in order.
abbrev pub outcomes : Validator → List Frame → List (Result Payload Reject)
outcomes v [] = []
outcomes v (f ∷ fs) = classify v f ∷ outcomes (validate v f).0 fs

abbrev pub accepted_in : List (Result Payload Reject) → ℕ
accepted_in [] = 0
accepted_in (ok p ∷ os) = suc (accepted_in os)
accepted_in (err r ∷ os) = accepted_in os

abbrev pub refused_in : ℕ → List (Result Payload Reject) → ℕ
refused_in i [] = 0
refused_in i (ok p ∷ os) = refused_in i os
refused_in i (err r ∷ os) = if index r == i then suc (refused_in i os) else refused_in i os

-- The counters of a validator are 32-bit words, one for each reason, and the total of the reasons
-- is the total refused.
pub record IsCounted (v : Validator) : Type 0 where
  pub accepted_fits : v.accepted < 2 ^ 32
  pub rejected_fits : v.rejected < 2 ^ 32
  pub one_per_reason : length v.by_reason ≡ 8
  pub total : u32 (sum v.by_reason) ≡ v.rejected

record_outcome-IsCounted :
    (v : Validator) (o : Result Payload Reject) → IsCounted v → IsCounted (record_outcome v o)
unfolding record_outcome
record_outcome-IsCounted v (ok p) c = ground arith
record_outcome-IsCounted v (err r) c = record {
  accepted_fits = c.accepted_fits;
  rejected_fits = omega arith;
  one_per_reason = length-set v.by_reason (index r) _ ∙ c.one_per_reason;
  total = ground (
    arith,
    index-lt r,
    c.one_per_reason,
    c.total,
    sum-set v.by_reason (index r) (u32 (get_or v.by_reason (index r) 0 + 1)),
  );
}

pub validate-IsCounted : (v : Validator) (f : Frame) → IsCounted v → IsCounted (validate v f).0
unfolding validate
validate-IsCounted v f c = record_outcome-IsCounted v (classify v f) c

pub new-IsCounted : IsCounted new
unfolding new
new-IsCounted = omega arith

-- Whatever frames arrive, the per-reason counters add up to the refusals, modulo 2 ^ 32.
pub validate_all-IsCounted :
    (v : Validator) (fs : List Frame) → IsCounted v → IsCounted (validate_all v fs)
unfolding validate_all
validate_all-IsCounted v [] c = c
validate_all-IsCounted v (f ∷ fs) c =
    validate_all-IsCounted (validate v f).0 fs (validate-IsCounted v f c)

accepted_in-cons :
    (o : Result Payload Reject) (os : List (Result Payload Reject))
    → accepted_in (o ∷ os) ≡ accepted_in (o ∷ []) + accepted_in os
accepted_in-cons (ok p) os = omega arith
accepted_in-cons (err r) os = omega arith

refused_in-cons :
    (i : ℕ) (o : Result Payload Reject) (os : List (Result Payload Reject))
    → refused_in i (o ∷ os) ≡ refused_in i (o ∷ []) + refused_in i os
refused_in-cons i (ok p) os = omega arith
refused_in-cons i (err r) os = ground arith

record_outcome-accepted :
    (v : Validator) (o : Result Payload Reject)
    → v.accepted < 2 ^ 32
    → (record_outcome v o).accepted ≡ u32 (v.accepted + accepted_in (o ∷ []))
unfolding record_outcome
record_outcome-accepted v (ok p) h = omega arith
record_outcome-accepted v (err r) h = omega arith

record_outcome-reason :
    (v : Validator) (o : Result Payload Reject) (i : ℕ)
    → length v.by_reason ≡ 8
    → get_or v.by_reason i 0 < 2 ^ 32
    → get_or (record_outcome v o).by_reason i 0
      ≡ u32 (get_or v.by_reason i 0 + refused_in i (o ∷ []))
unfolding record_outcome
record_outcome-reason v (ok p) i h g = omega arith
record_outcome-reason v (err r) i h g =
    let w = u32 (get_or v.by_reason (index r) 0 + 1) in
    elim (ℕ_discrete (index r) i) [
      | yes e ↦
          let hit = get_or-set_self v.by_reason (index r) w 0 (omega (arith, index-lt r)) in
          rw (← e) (ground (arith, hit))
      | no ne ↦ ground (arith, get_or-set_ne v.by_reason (index r) i w 0 ne)
    ]

-- From counters that fit 32 bits, each counter grows by the number of outcomes of its kind,
-- modulo 2 ^ 32: the accepted, and the refusals under each index.
pub validate_all-tallies :
    (v : Validator) (fs : List Frame) (i : ℕ)
    → IsCounted v
    → i < 8
    → get_or v.by_reason i 0 < 2 ^ 32
    → ((validate_all v fs).accepted ≡ u32 (v.accepted + accepted_in (outcomes v fs)))
      × (get_or (validate_all v fs).by_reason i 0
          ≡ u32 (get_or v.by_reason i 0 + refused_in i (outcomes v fs)))
unfolding validate_all validate
validate_all-tallies v [] i c h g = (omega arith, omega arith)
validate_all-tallies v (f ∷ fs) i c h g =
    let o = classify v f in
    let v' = record_outcome v o in
    let reason = record_outcome-reason v o i c.one_per_reason g in
    let rest =
      validate_all-tallies v' fs i (record_outcome-IsCounted v o c) h (omega (arith, reason)) in
    let accepted = record_outcome-accepted v o c.accepted_fits in
    (
      omega (arith, rest, accepted, accepted_in-cons o (outcomes v' fs)),
      omega (arith, rest, reason, refused_in-cons i o (outcomes v' fs)),
    )
