-- ===== src/J1939/Payload.antt =====
-- core/src/j1939.rs, the frame and its 8-byte payload: `Frame`, `Payload` with `encode` and
-- `decode`, and the two frame builders.
pub mod Roundtrip
use fieldbus_control_node.Prelude.{
  ℕ, suc, ◌+◌, ◌-◌, ◌/◌, ◌%◌, ◌*◌, ◌^◌, ◌≤◌, ◌<◌, List, [], ◌∷◌, ltb, if◌then◌else◌, u8, ◌>>>◌, ℤ,
  pos, negsuc, pos_part, neg_part, ◌≤ℤ◌,
}
use fieldbus_control_node.J1939.Ident.{
  priority, pgn_sensor, pgn_command, sa_sensor, sa_controller, from_pgn, pack,
}
use fieldbus_control_node.J1939.Crc.{crc8_j1850}

abbrev pub payload_len : ℕ
payload_len = 8

abbrev pub status_ok : ℕ
status_ok = 0x00

abbrev pub status_safe : ℕ
status_safe = 0x01

-- `[u8; 8]`.
pub record Bytes8 : Type 0 where
  pub b0 : ℕ
  pub b1 : ℕ
  pub b2 : ℕ
  pub b3 : ℕ
  pub b4 : ℕ
  pub b5 : ℕ
  pub b6 : ℕ
  pub b7 : ℕ

-- `&data[0..7]`: the bytes that the checksum covers.
abbrev pub covered : Bytes8 → List ℕ
covered d = d.b0 ∷ d.b1 ∷ d.b2 ∷ d.b3 ∷ d.b4 ∷ d.b5 ∷ d.b6 ∷ []

pub record Frame : Type 0 where
  pub id : ℕ
  pub dlc : ℕ
  pub bytes : Bytes8

pub record Payload : Type 0 where
  pub seq : ℕ
  pub value : ℤ
  pub status : ℕ

abbrev pub IsI16 : ℤ → Type 0
IsI16 v = (negsuc 32767 ≤ℤ v) × (v ≤ℤ pos 32767)

-- The bit pattern of an `i16`, and the `i16` of a bit pattern.
unfoldable pub i16_bits : ℤ → ℕ
i16_bits (pos n) = n % 2 ^ 16
i16_bits (negsuc n) = 2 ^ 16 - 1 - n % 2 ^ 16

unfoldable pub i16_of_bits : ℕ → ℤ
i16_of_bits w = if ltb w (2 ^ 15) then pos w else negsuc (2 ^ 16 - 1 - w)

unfoldable pub encode : Payload → Bytes8
unfolding i16_bits
encode p = record {
  b0 = p.seq;
  b1 = u8 (i16_bits p.value);
  b2 = u8 (i16_bits p.value >>> 8);
  b3 = p.status;
  b4 = 0;
  b5 = 0;
  b6 = 0;
  b7 =
      crc8_j1850
        (p.seq ∷ u8 (i16_bits p.value) ∷ u8 (i16_bits p.value >>> 8) ∷ p.status ∷ 0 ∷ 0 ∷ 0 ∷ []);
}

unfoldable pub decode : Bytes8 → Payload
unfolding i16_of_bits
decode d = record { seq = d.b0; value = i16_of_bits (d.b1 + d.b2 * 2 ^ 8); status = d.b3 }

unfoldable pub sensor_frame : ℕ → ℤ → ℕ → Frame
sensor_frame seq value status = record {
  id = pack (from_pgn priority pgn_sensor sa_sensor);
  dlc = payload_len;
  bytes = encode (record { seq = seq; value = value; status = status });
}

unfoldable pub command_frame : ℕ → ℤ → ℕ → Frame
command_frame seq value status = record {
  id = pack (from_pgn priority pgn_command sa_controller);
  dlc = payload_len;
  bytes = encode (record { seq = seq; value = value; status = status });
}
