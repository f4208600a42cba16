-- ===== src/Host/Bus/Faults.antt =====
-- host/src/bus.rs: what a validator makes of the frames that a cycle delivers.
use fieldbus_control_node.Prelude.{
  ℕ, ◌+◌, ◌<◌, ◌^◌, ◌≡◌, refl, sym, ap, ◌∙◌, subst, arith, Bool, true, false, some, List, [], ◌∷◌,
  ◌++◌, u8, ℤ, pos, ◌+ℤ◌, inr, bit_xor, Result, ok, err,
}
use fieldbus_control_node.Prelude.Bits.{bit_xor-ne}
use fieldbus_control_node.J1939.Ident.{priority, pgn_sensor, sa_sensor}
use fieldbus_control_node.J1939.Ident.Roundtrip.{unpack-pack-from_pgn}
use fieldbus_control_node.J1939.Payload.{Frame, Payload, encode, sensor_frame, status_ok}
use fieldbus_control_node.J1939.Payload.Roundtrip.{IsPayload, encode-checked}
use fieldbus_control_node.J1939.Validator.{
  Validator, Reject, bad_length, bad_crc, duplicate, out_of_order, out_of_range, classify, validate,
  validate_all, validate_all-cons, record_outcome, sequence_check, range_check, value_max,
}
use fieldbus_control_node.J1939.Validator.Accounting.{outcomes}
use fieldbus_control_node.J1939.Validator.Sequence.{
  IsInRange, Expects, reading, expected_accepted, classify-checked,
}
use fieldbus_control_node.Host.Bus.{FaultSchedule, contains, when, extras, burst}

-- The refusals that a cycle's faults are there to cause, in the order of the frames.
abbrev pub injected : FaultSchedule → ℕ → ℕ → List Reject
injected s cycle seq =
    when (contains s.bad_crc cycle) bad_crc
    ++ (when (contains s.duplicate cycle) duplicate
        ++ (when (contains s.out_of_order cycle) (out_of_order (u8 (seq + 1)) (u8 (seq + 5)))
            ++ (when (contains s.out_of_range cycle) out_of_range
                ++ when (contains s.bad_length cycle) bad_length)))

abbrev pub refusals : List Reject → List (Result Payload Reject)
refusals [] = []
refusals (r ∷ rs) = err r ∷ refusals rs

-- Frame by frame, the refusals of a validator that accepted number `last` last.
abbrev Refused : ℕ → List Frame → List Reject → Type 0
Refused last [] [] = Unit
Refused last [] (r ∷ rs) = ⊥
Refused last (f ∷ fs) [] = ⊥
Refused last (f ∷ fs) (r ∷ rs) =
    ((v : Validator) → v.last_seq ≡ some last → classify v f ≡ err r) × Refused last fs rs

Refused-append :
    (last : ℕ) (b : Bool) (f : Frame) (r : Reject) (fs : List Frame) (rs : List Reject)
    → ((v : Validator) → v.last_seq ≡ some last → classify v f ≡ err r)
    → Refused last fs rs
    → Refused last (when b f ++ fs) (when b r ++ rs)
unfolding when
Refused-append last true f r fs rs h g = (h, g)
Refused-append last false f r fs rs h g = g

Refused-when :
    (last : ℕ) (b : Bool) (f : Frame) (r : Reject)
    → ((v : Validator) → v.last_seq ≡ some last → classify v f ≡ err r)
    → Refused last (when b f) (when b r)
unfolding when
Refused-when last true f r h = (h, tt)
Refused-when last false f r h = tt

outcomes-Refused :
    (v : Validator) (last : ℕ) (fs : List Frame) (rs : List Reject)
    → v.last_seq ≡ some last
    → Refused last fs rs
    → outcomes v fs ≡ refusals rs
unfolding validate record_outcome
outcomes-Refused v last [] [] e h = refl
outcomes-Refused v last [] (r ∷ rs) e h = elim h [ ]
outcomes-Refused v last (f ∷ fs) [] e h = elim h [ ]
outcomes-Refused v last (f ∷ fs) (r ∷ rs) e h =
    let rest = outcomes-Refused (record_outcome v (err r)) last fs rs e h.1 in
    subst (λ o. o ∷ outcomes (record_outcome v o) fs ≡ err r ∷ refusals rs) (sym (h.0 v e))
      (ap (◌∷◌ (err r)) rest)

last_seq-Refused :
    (v : Validator) (last : ℕ) (fs : List Frame) (rs : List Reject)
    → v.last_seq ≡ some last
    → Refused last fs rs
    → (validate_all v fs).last_seq ≡ some last
unfolding record_outcome
last_seq-Refused v last [] rs e h = unfold validate_all in e
last_seq-Refused v last (f ∷ fs) [] e h = elim h [ ]
last_seq-Refused v last (f ∷ fs) (r ∷ rs) e h =
    let rest = last_seq-Refused (record_outcome v (err r)) last fs rs e h.1 in
    ap (λ (w : Validator). w.last_seq) (validate_all-cons v f fs (err r) (h.0 v e)) ∙ rest

module _ (last : ℕ) (x : ℤ) (fits : last < 2 ^ 8) (within : IsInRange x) where
  corrupted_refused :
      (v : Validator)
      → let good = sensor_frame last x status_ok in
        classify v (record good { bytes = record good.bytes { b7 = bit_xor good.bytes.b7 0xFF } })
        ≡ err bad_crc
  unfolding classify sensor_frame
  corrupted_refused v =
      let p : Payload = record { seq = last; value = x; status = status_ok } in
      let w : IsPayload p = record {
        seq_fits = fits;
        value_fits = omega arith;
        status_fits = omega arith;
      } in
      let id = unpack-pack-from_pgn priority pgn_sensor sa_sensor (omega arith) in
      let codec = encode-checked p w in
      let flipped : bit_xor (encode p).b7 0xFF ≡ (encode p).b7 → ⊥ =
        bit_xor-ne (encode p).b7 0xFF (omega arith) in
      ground (arith, id.0, id.1, codec.0, codec.1, flipped)

  repeated_refused :
      (v : Validator)
      → v.last_seq ≡ some last
      → classify v (sensor_frame last x status_ok) ≡ err duplicate
  unfolding sequence_check
  repeated_refused v e =
      classify-checked v (record { seq = last; value = x; status = status_ok })
        (record { seq_fits = fits; value_fits = omega arith; status_fits = omega arith })
      ∙ ground arith

  skipped_refused :
      (v : Validator)
      → v.last_seq ≡ some last
      → classify v (sensor_frame (u8 (last + 5)) x status_ok)
        ≡ err (out_of_order (u8 (last + 1)) (u8 (last + 5)))
  unfolding sequence_check
  skipped_refused v e =
      classify-checked v (record { seq = u8 (last + 5); value = x; status = status_ok })
        (record { seq_fits = omega arith; value_fits = omega arith; status_fits = omega arith })
      ∙ ground arith

  exceeding_refused :
      (v : Validator)
      → v.last_seq ≡ some last
      → classify v (sensor_frame (u8 (last + 1)) (value_max +ℤ pos 1) status_ok) ≡ err out_of_range
  unfolding sequence_check range_check
  exceeding_refused v e =
      classify-checked v
        (record { seq = u8 (last + 1); value = value_max +ℤ pos 1; status = status_ok })
        (record { seq_fits = omega arith; value_fits = omega arith; status_fits = omega arith })
      ∙ ground arith

  short_refused :
      (v : Validator)
      → classify v (record (sensor_frame (u8 (last + 1)) x status_ok) { dlc = 4 }) ≡ err bad_length
  unfolding classify
  short_refused v = refl

  extras-Refused :
      (s : FaultSchedule) (cycle : ℕ) → Refused last (extras s cycle last x) (injected s cycle last)
  unfolding extras
  extras-Refused s cycle =
      Refused-append last (contains s.bad_crc cycle) _ bad_crc _ _ (λ v e. corrupted_refused v)
        (Refused-append last (contains s.duplicate cycle) _ duplicate _ _ repeated_refused (
          Refused-append last (contains s.out_of_order cycle) _ _ _ _ skipped_refused (
            Refused-append last (contains s.out_of_range cycle) _ _ _ _ exceeding_refused
              (Refused-when last (contains s.bad_length cycle) _ _ (λ v e. short_refused v)))))

-- Whatever is scheduled for a cycle: a validator that takes the bus's number next accepts the
-- cycle's own frame, when its reading is in range, and refuses each injected frame for exactly the
-- reason that it was injected for; then it takes the number that the bus sends next.
pub burst_attributed :
    (s : FaultSchedule) (cycle seq : ℕ) (x : ℤ) (v : Validator)
    → seq < 2 ^ 8
    → Expects v seq
    → IsInRange x
    → (outcomes v (burst s cycle seq x) ≡ ok (reading seq x) ∷ refusals (injected s cycle seq))
      × Expects (validate_all v (burst s cycle seq x)) (seq + 1)
unfolding burst validate record_outcome
burst_attributed s cycle seq x v fits w within =
    let good = sensor_frame seq x status_ok in
    let same : u8 seq ≡ seq = omega arith in
    let e : classify v good ≡ ok (reading seq x) =
      subst (λ k. classify v (sensor_frame k x status_ok) ≡ ok (reading seq x)) same
        (expected_accepted v seq x w within) in
    let v' = record_outcome v (ok (reading seq x)) in
    let at : v'.last_seq ≡ some seq = ap some same in
    let refused = extras-Refused seq x fits within s cycle in
    let after = last_seq-Refused v' seq (extras s cycle seq x) (injected s cycle seq) at refused in
    let last : (validate_all v (good ∷ extras s cycle seq x)).last_seq ≡ some seq =
      ap (λ (u : Validator). u.last_seq) (validate_all-cons v good (extras s cycle seq x) _ e)
      ∙ after in
    let rest = outcomes-Refused v' seq (extras s cycle seq x) (injected s cycle seq) at refused in
    (
      subst
          (λ o.
            o ∷ outcomes (record_outcome v o) (extras s cycle seq x)
            ≡ ok (reading seq x) ∷ refusals (injected s cycle seq))
          (sym e) (ap (◌∷◌ (ok (reading seq x))) rest),
      inr (seq, last, fits, refl),
    )
