-- ===== src/J1939/Validator/Sequence.antt =====
-- core/src/j1939.rs: the sequence rule of the validator against a sender that numbers its frames.
use fieldbus_control_node.Prelude.{
  All, ℕ, suc, ◌+◌, ◌^◌, ◌<◌, ◌≤◌, ◌≡◌, ◌≢◌, refl, ◌∙◌, ◌⊎◌, inl, inr, none, some, arith, List, [],
  ◌∷◌, ◌==◌, if◌then◌else◌, u8, u32, ℤ, pos, negsuc, ◌≤ℤ◌, length, ok, err, subst,
}
use fieldbus_control_node.J1939.Ident.{pgn_sensor, sa_sensor, priority}
use fieldbus_control_node.J1939.Ident.Roundtrip.{unpack-pack-from_pgn}
use fieldbus_control_node.J1939.Payload.{Frame, Payload, IsI16, decode, sensor_frame, status_ok}
use fieldbus_control_node.J1939.Payload.Roundtrip.{IsPayload, decode-encode, encode-checked}
use fieldbus_control_node.J1939.Validator.{
  Validator, Reject, duplicate, out_of_order, classify, sequence_check, range_check, record_outcome,
  validate, validate_all, validate_all-cons, reset_sequence,
}

abbrev pub IsInRange : ℤ → Type 0
IsInRange v = (negsuc 9999 ≤ℤ v) × (v ≤ℤ pos 10000)

-- A frame with a sensor's identifier, full length and a checked payload is judged by its sequence
-- number and its value alone.
pub classify-checked :
    (v : Validator) (p : Payload)
    → IsPayload p
    → classify v (sensor_frame p.seq p.value p.status) ≡ sequence_check v.last_seq p
unfolding classify sensor_frame
classify-checked v p w =
    let id = unpack-pack-from_pgn priority pgn_sensor sa_sensor (omega arith) in
    let codec = encode-checked p w in
    let same = decode-encode p w.value_fits in ground (arith, id.0, id.1, codec.0, codec.1, same)

-- A frame that was just accepted is refused as a duplicate when it arrives again, at once.
pub replay_refused :
    (v : Validator) (f : Frame) (p : Payload)
    → classify v f ≡ ok p
    → (validate (validate v f).0 f).1 ≡ err duplicate
unfolding validate classify record_outcome decode
replay_refused v f p e = ground arith

-- The sender's frames for a list of readings, numbered from `s` on and wrapping at 256.
pub stream : ℕ → List ℤ → List Frame
stream s [] = []
stream s (x ∷ xs) = sensor_frame (u8 s) x status_ok ∷ stream (s + 1) xs

abbrev pub reading : ℕ → ℤ → Payload
reading s x = record { seq = u8 s; value = x; status = status_ok }

-- The validator takes frame number `s` next.
abbrev pub Expects : Validator → ℕ → Type 0
Expects v s =
    (v.last_seq ≡ none)
    ⊎ ((last : ℕ) × (v.last_seq ≡ some last) × (last < 2 ^ 8) × (u8 (last + 1) ≡ u8 s))

reading-IsPayload : (s : ℕ) (x : ℤ) → IsI16 x → IsPayload (reading s x)
reading-IsPayload s x h = record {
  seq_fits = omega arith;
  value_fits = h;
  status_fits = omega arith;
}

in_range-IsI16 : (x : ℤ) → IsInRange x → IsI16 x
in_range-IsI16 x h = omega arith

pub expected_accepted :
    (v : Validator) (s : ℕ) (x : ℤ)
    → Expects v s
    → IsInRange x
    → classify v (sensor_frame (u8 s) x status_ok) ≡ ok (reading s x)
unfolding sequence_check range_check
expected_accepted v s x w h =
    classify-checked v (reading s x) (reading-IsPayload s x (in_range-IsI16 x h)) ∙ ground arith

-- A validator that takes number `s` next accepts a sender's whole stream from `s` on, across the
-- wrap of the number, when every reading is in range: it counts one acceptance for each frame,
-- refuses none, and then takes the number after the last.
pub stream_accepted :
    (v : Validator) (s : ℕ) (xs : List ℤ)
    → v.accepted < 2 ^ 32
    → Expects v s
    → All IsInRange xs
    → let v' = validate_all v (stream s xs) in
      (v'.accepted ≡ u32 (v.accepted + length xs))
      × (v'.rejected ≡ v.rejected)
      × (v'.by_reason ≡ v.by_reason)
      × Expects v' (s + length xs)
unfolding stream record_outcome
stream_accepted v s [] h w a = unfold validate_all in (omega arith, refl, refl, ground arith)
stream_accepted v s (x ∷ xs) h w a =
    let e = expected_accepted v s x w a.0 in
    let v' = record_outcome v (ok (reading s x)) in
    let rest =
      stream_accepted v' (s + 1) xs (omega arith) (inr (u8 s, refl, omega arith, omega arith))
        a.1 in
    let shift : s + 1 + length xs ≡ s + suc (length xs) = omega arith in
    rw (validate_all-cons v _ (stream (s + 1) xs) _ e) (
      omega (arith, rest.0),
      rest.1,
      rest.2,
      subst (Expects (validate_all v' (stream (s + 1) xs))) shift rest.3,
    )

-- With `last` accepted last, any other number than the next is refused and moves nothing.
unexpected_refused :
    (v : Validator) (last s : ℕ) (x : ℤ)
    → v.last_seq ≡ some last
    → u8 s ≢ u8 (last + 1)
    → IsI16 x
    → (r : Reject) × (classify v (sensor_frame (u8 s) x status_ok) ≡ err r)
unfolding sequence_check range_check
unexpected_refused v last s x e ne h =
    let c = classify-checked v (reading s x) (reading-IsPayload s x h) in
    ((if u8 s == last then duplicate else out_of_order (u8 (last + 1)) (u8 s)), c ∙ ground arith)

-- After `lost` frames that never arrived, up to 256 - `lost` later frames are all refused.
pub gap_refused :
    (v : Validator) (last lost : ℕ) (xs : List ℤ)
    → v.last_seq ≡ some last
    → v.rejected < 2 ^ 32
    → last < 2 ^ 8
    → 0 < lost
    → lost + length xs ≤ 2 ^ 8
    → All IsI16 xs
    → let v' = validate_all v (stream (last + 1 + lost) xs) in
      (v'.last_seq ≡ some last)
      × (v'.accepted ≡ v.accepted)
      × (v'.rejected ≡ u32 (v.rejected + length xs))
unfolding stream record_outcome
gap_refused v last lost [] e b h g k a = unfold validate_all in ground arith
gap_refused v last lost (x ∷ xs) e b h g k a =
    let (r, c) = unexpected_refused v last (last + 1 + lost) x e (omega arith) a.0 in
    let shift : last + 1 + lost + 1 ≡ last + 1 + (lost + 1) = omega arith in
    let rest =
      gap_refused (record_outcome v (err r)) last (lost + 1) xs e (omega arith) h (omega arith)
        (omega arith) a.1 in
    rw (validate_all-cons v _ _ _ c, shift) (rest.0, rest.1, omega (arith, rest.2))

-- After a gap the validator is out of step only until the sender's number wraps: once
-- 256 - `lost` further frames have been refused, which leaves the sequence position and the
-- accepted count as they were, the next frame carries the expected number and, with a reading in range, is accepted.
pub gap_resynchronises :
    (v : Validator) (last lost : ℕ) (xs : List ℤ) (y : ℤ)
    → v.last_seq ≡ some last
    → v.rejected < 2 ^ 32
    → last < 2 ^ 8
    → 0 < lost
    → lost + length xs ≡ 2 ^ 8
    → All IsI16 xs
    → IsInRange y
    → let v' = validate_all v (stream (last + 1 + lost) xs) in
      let s = last + 1 + lost + length xs in
      (v'.last_seq ≡ some last)
      × (v'.accepted ≡ v.accepted)
      × (v'.rejected ≡ u32 (v.rejected + length xs))
      × (classify v' (sensor_frame (u8 s) y status_ok) ≡ ok (reading s y))
gap_resynchronises v last lost xs y e b h g k a r =
    let refused = gap_refused v last lost xs e b h g (omega arith) a in
    (
      refused.0,
      refused.1,
      refused.2,
      expected_accepted _ (last + 1 + lost + length xs) y (inr (last, refused.0, h, omega arith)) r,
    )

-- After `reset_sequence` a frame of any number is taken, and the counters are kept.
pub reset_takes_any :
    (v : Validator) (s : ℕ) (x : ℤ)
    → IsInRange x
    → (classify (reset_sequence v) (sensor_frame (u8 s) x status_ok) ≡ ok (reading s x))
      × ((reset_sequence v).accepted ≡ v.accepted)
      × ((reset_sequence v).rejected ≡ v.rejected)
      × ((reset_sequence v).by_reason ≡ v.by_reason)
unfolding reset_sequence
reset_takes_any v s x h = (expected_accepted _ s x (inl refl) h, refl, refl, refl)
