-- ===== src/J1939/Validator/Attribution.antt =====
-- core/src/j1939.rs: `classify` against an independent list of the faults of a frame.
use fieldbus_control_node.Prelude.{
  ℕ, ◌+◌, ◌/◌, ◌%◌, ◌^◌, ◌<◌, ◌≤◌, ◌≡◌, ◌≢◌, ◌⊎◌, some, arith, pos, negsuc, ◌≤ℤ◌, Result, ok, err,
  Option-cases, inl, inr, subst, ◌↔◌, Result-cases,
}
use fieldbus_control_node.J1939.Ident.Roundtrip.{pgn-unpack, source_address-unpack}
use fieldbus_control_node.J1939.Crc.{crc8_j1850}
use fieldbus_control_node.J1939.Payload.{Frame, Payload, covered, decode}
use fieldbus_control_node.J1939.Validator.{
  Validator, Reject, bad_length, unknown_pgn, unexpected_source, bad_crc, bad_reserved, duplicate,
  out_of_order, out_of_range, index, classify,
}

-- What each reason says of a frame at a validator.
abbrev pub Faulty : Validator → Frame → Reject → Type 0
Faulty v f bad_length = f.dlc ≢ 8
Faulty v f unknown_pgn = f.id / 2 ^ 8 % 2 ^ 17 ≢ 0xFF00
Faulty v f unexpected_source = f.id % 2 ^ 8 ≢ 0x80
Faulty v f bad_crc = f.bytes.b7 ≢ crc8_j1850 (covered f.bytes)
Faulty v f bad_reserved = f.bytes.b4 + f.bytes.b5 + f.bytes.b6 ≢ 0
Faulty v f duplicate = v.last_seq ≡ some f.bytes.b0
Faulty v f (out_of_order expected got) =
    (last : ℕ) × (v.last_seq ≡ some last)
    × (expected ≡ (last + 1) % 2 ^ 8)
    × (got ≡ f.bytes.b0)
    × (got ≢ last)
    × (got ≢ expected)
Faulty v f out_of_range =
    ((decode f.bytes).value ≤ℤ negsuc 10000) ⊎ (pos 10001 ≤ℤ (decode f.bytes).value)

-- A refused frame has the fault it is refused for.
refused-Faulty : (v : Validator) (f : Frame) (r : Reject) → classify v f ≡ err r → Faulty v f r
unfolding classify decode
refused-Faulty v f bad_length e = ground (arith, pgn-unpack f.id, source_address-unpack f.id)
refused-Faulty v f unknown_pgn e = ground (arith, pgn-unpack f.id, source_address-unpack f.id)
refused-Faulty v f unexpected_source e = ground (arith, pgn-unpack f.id, source_address-unpack f.id)
refused-Faulty v f bad_crc e = ground (arith, pgn-unpack f.id, source_address-unpack f.id)
refused-Faulty v f bad_reserved e = ground (arith, pgn-unpack f.id, source_address-unpack f.id)
refused-Faulty v f duplicate e = ground (arith, pgn-unpack f.id, source_address-unpack f.id)
refused-Faulty v f (out_of_order expected got) e = elim (Option-cases v.last_seq) [
  | inl n ↦ absurd (ground (arith, pgn-unpack f.id, source_address-unpack f.id))
  | inr (last, n) ↦ (
    last,
    n,
    ground (arith, pgn-unpack f.id, source_address-unpack f.id),
    ground (arith, pgn-unpack f.id, source_address-unpack f.id),
    ground (arith, pgn-unpack f.id, source_address-unpack f.id),
    ground (arith, pgn-unpack f.id, source_address-unpack f.id),
  )
]
refused-Faulty v f out_of_range e = ground (arith, pgn-unpack f.id, source_address-unpack f.id)

-- The outcome is a refusal with a reason of at most a given rank.
abbrev RefusedBy : Result Payload Reject → ℕ → Type 0
RefusedBy (ok p) n = ⊥
RefusedBy (err r) n = index r ≤ n

-- A frame with a fault is refused, for that fault or for one that is checked before it.
Faulty-RefusedBy :
    (v : Validator) (f : Frame) (q : Reject) → Faulty v f q → RefusedBy (classify v f) (index q)
unfolding classify decode index
Faulty-RefusedBy v f bad_length h = ground (arith, pgn-unpack f.id, source_address-unpack f.id)
Faulty-RefusedBy v f unknown_pgn h = ground (arith, pgn-unpack f.id, source_address-unpack f.id)
Faulty-RefusedBy v f unexpected_source h =
    ground (arith, pgn-unpack f.id, source_address-unpack f.id)
Faulty-RefusedBy v f bad_crc h = ground (arith, pgn-unpack f.id, source_address-unpack f.id)
Faulty-RefusedBy v f bad_reserved h = ground (arith, pgn-unpack f.id, source_address-unpack f.id)
Faulty-RefusedBy v f duplicate h = ground (arith, pgn-unpack f.id, source_address-unpack f.id)
Faulty-RefusedBy v f (out_of_order expected got) h =
    ground (arith, pgn-unpack f.id, source_address-unpack f.id)
Faulty-RefusedBy v f out_of_range h = ground (arith, pgn-unpack f.id, source_address-unpack f.id)

-- A refusal names a fault that the frame has, and the frame has no fault of a smaller index.
pub classify-first_fault :
    (v : Validator) (f : Frame) (r : Reject)
    → classify v f ≡ err r
    → Faulty v f r × ((q : Reject) → index q < index r → ¬ Faulty v f q)
classify-first_fault v f r e = (
  refused-Faulty v f r e,
  λ q lt h.
      let low = subst (λ o. RefusedBy o (index q)) e (Faulty-RefusedBy v f q h) in omega arith,
)

pub accepted-decode :
    (v : Validator) (f : Frame) (p : Payload) → classify v f ≡ ok p → p ≡ decode f.bytes
unfolding classify
accepted-decode v f p e = ground arith

-- A frame is accepted exactly when it has none of the eight faults, and what is accepted is its
-- decoded payload.
pub classify-ok_iff :
    (v : Validator) (f : Frame) (p : Payload)
    → (classify v f ≡ ok p) ↔ (((q : Reject) → ¬ Faulty v f q) × (p ≡ decode f.bytes))
classify-ok_iff v f p = (
  λ e. (
    λ q h. subst (λ o. RefusedBy o (index q)) e (Faulty-RefusedBy v f q h),
    accepted-decode v f p e,
  ),
  λ h. elim (Result-cases (classify v f)) [
    | inl (p', e) ↦ let d = accepted-decode v f p' e in let d' = h.1 in cc
    | inr (r, e) ↦ absurd (h.0 r (refused-Faulty v f r e))
  ],
)
