-- ===== src/J1939/Payload/Roundtrip.antt =====
-- core/src/j1939.rs: `encode` and `decode` against each other and the receiver's checks.
use fieldbus_control_node.Prelude.{ℕ, ◌+◌, ◌^◌, ◌<◌, ◌≡◌, refl, arith, ℤ}
use fieldbus_control_node.J1939.Payload.{
  covered, Payload, IsI16, i16_bits, i16_of_bits, encode, decode,
}
use fieldbus_control_node.J1939.Crc.{crc8_j1850, IsBytes}
use fieldbus_control_node.J1939.Crc.Detects.{crc8_j1850-lt}

i16_of_bits-i16_bits : (v : ℤ) → IsI16 v → i16_of_bits (i16_bits v) ≡ v
unfolding i16_of_bits i16_bits
i16_of_bits-i16_bits v h = ground arith

i16_bits-lt : (v : ℤ) → i16_bits v < 2 ^ 16
unfolding i16_bits
i16_bits-lt v = ground arith

pub i16_of_bits-IsI16 : (w : ℕ) → w < 2 ^ 16 → IsI16 (i16_of_bits w)
unfolding i16_of_bits
i16_of_bits-IsI16 w h = ground arith

-- Decoding an encoded payload gives it back, for every `i16` value.
pub decode-encode : (p : Payload) → IsI16 p.value → decode (encode p) ≡ p
unfolding decode encode
decode-encode p h = ground (arith, i16_bits-lt p.value, i16_of_bits-i16_bits p.value)

-- A payload within its widths.
pub record IsPayload (p : Payload) : Type 0 where
  pub seq_fits : p.seq < 2 ^ 8
  pub value_fits : IsI16 p.value
  pub status_fits : p.status < 2 ^ 8

-- What is written: the checksum of the first seven bytes, reserved bytes all zero, and bytes only.
pub encode-checked :
    (p : Payload)
    → IsPayload p
    → let d = encode p in
      (d.b7 ≡ crc8_j1850 (covered d))
      × (d.b4 + d.b5 + d.b6 ≡ 0)
      × IsBytes (covered d)
      × (d.b7 < 2 ^ 8)
unfolding encode
encode-checked p v =
    let bytes : IsBytes (covered (encode p)) =
      (v.seq_fits, (omega arith, (omega arith, (v.status_fits, omega arith)))) in
    (refl, refl, bytes, crc8_j1850-lt (covered (encode p)) bytes)
