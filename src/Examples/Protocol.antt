-- ===== src/Examples/Protocol.antt =====
-- The theorems on core/src/j1939.rs at concrete frames.
use fieldbus_control_node.Prelude.{
  ℕ, ◌+◌, ◌^◌, ◌<◌, ◌%◌, ◌≡◌, ◌≢◌, ◌↔◌, inl, refl, arith, some, [], ◌∷◌, u8, u32, pos, length,
  replicate, length-replicate, zero, suc, ok, err, All,
}
use fieldbus_control_node.J1939.Crc.{crc8_j1850}
use fieldbus_control_node.J1939.Crc.Detects.{single_byte_detected}
use fieldbus_control_node.J1939.Ident.{CanId, from_pgn, pack, unpack, pgn}
use fieldbus_control_node.J1939.Ident.Roundtrip.{unpack-pack-from_pgn}
use fieldbus_control_node.J1939.Payload.{Frame, decode, sensor_frame, IsI16, status_ok}
use fieldbus_control_node.J1939.Validator.{
  Validator, Reject, unknown_pgn, index, new, classify, validate_all,
}
use fieldbus_control_node.J1939.Validator.Attribution.{
  Faulty, classify-first_fault, classify-ok_iff,
}
use fieldbus_control_node.J1939.Validator.Sequence.{
  stream, reading, gap_resynchronises, expected_accepted,
}

-- Frame 7 with the reading 100, and the same frame under another identifier.
abbrev good : Frame
good = sensor_frame 7 (pos 100) 0

abbrev damaged : Frame
damaged = record good { id = 0 }

good_accepted : classify new good ≡ ok (reading 7 (pos 100))
unfolding new
good_accepted = expected_accepted new 7 (pos 100) (inl refl) (omega arith)

damaged_refused : classify new damaged ≡ err unknown_pgn
unfolding classify sensor_frame unpack pgn
damaged_refused = refl

classify-ok_iff_example :
    (classify new good ≡ ok (reading 7 (pos 100)))
    ↔ (((q : Reject) → ¬ Faulty new good q) × (reading 7 (pos 100) ≡ decode good.bytes))
classify-ok_iff_example = classify-ok_iff new good (reading 7 (pos 100))

classify-first_fault_example :
    Faulty new damaged unknown_pgn
    × ((q : Reject) → index q < index unknown_pgn → ¬ Faulty new damaged q)
classify-first_fault_example = classify-first_fault new damaged unknown_pgn damaged_refused

-- A validator that took frame 9 last, and the readings of 255 frames after one that was lost.
abbrev after_nine : Validator
after_nine = record { last_seq = some 9; accepted = 1; rejected = 0; by_reason = [] }

zeros_fit : (n : ℕ) → All IsI16 (replicate n (pos 0))
unfolding replicate
zeros_fit zero = tt
zeros_fit (suc n) = (omega arith, zeros_fit n)

gap_resynchronises_example :
    let xs = replicate 255 (pos 0) in
    let v' = validate_all after_nine (stream (9 + 1 + 1) xs) in
    let s = 9 + 1 + 1 + length xs in
    (v'.last_seq ≡ some 9)
    × (v'.accepted ≡ 1)
    × (v'.rejected ≡ u32 (0 + length xs))
    × (classify v' (sensor_frame (u8 s) (pos 5) status_ok) ≡ ok (reading s (pos 5)))
gap_resynchronises_example =
    gap_resynchronises after_nine 9 1 (replicate 255 (pos 0)) (pos 5) refl (omega arith)
      (omega arith) (omega arith) (omega (arith, length-replicate 255 (pos 0))) (zeros_fit 255)
      (omega arith)

single_byte_detected_example : crc8_j1850 (1 ∷ 2 ∷ 3 ∷ []) ≢ crc8_j1850 (1 ∷ 0xFF ∷ 3 ∷ [])
single_byte_detected_example =
    single_byte_detected (1 ∷ []) 2 0xFF (3 ∷ []) (omega arith, tt) (omega arith) (omega arith)
      (omega arith, tt) (omega arith)

abbrev ident : CanId
ident = from_pgn 3 0xFF00 0x80

unpack-pack-from_pgn_example :
    let raw = pack (from_pgn 3 0xFF00 0x80) in
    (pgn (unpack raw) ≡ 0xFF00 % 2 ^ 17)
    × ((unpack raw).source_address ≡ 0x80)
    × ((unpack raw).priority ≡ 3 % 8)
    × ((unpack raw).reserved ≡ 0)
    × (raw < 2 ^ 29)
unpack-pack-from_pgn_example = unpack-pack-from_pgn 3 0xFF00 0x80 (omega arith)
