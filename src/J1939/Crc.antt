-- ===== src/J1939/Crc.antt =====
-- core/src/j1939.rs, the checksum: `crc8_j1850`, a bit at a time.
pub mod Detects
use fieldbus_control_node.Prelude.{
  ℕ, zero, suc, ◌<◌, ◌^◌, not, List, [], ◌∷◌, bit_and, bit_xor, ◌==◌, if◌then◌else◌, u8, ◌<<<◌,
}

-- One turn of the inner loop.
shift_bit : ℕ → ℕ
shift_bit crc =
    if not (bit_and crc 0x80 == 0) then bit_xor (u8 (crc <<< 1)) 0x1D else u8 (crc <<< 1)

-- `for _ in 0..8`, with the turns left.
shift_bits : ℕ → ℕ → ℕ
unfolding shift_bit
shift_bits zero crc = crc
shift_bits (suc left) crc = shift_bits left (shift_bit crc)

-- The body of the loop over the bytes.
unfoldable pub crc_byte : ℕ → ℕ → ℕ
unfolding shift_bits
crc_byte crc b = shift_bits 8 (bit_xor crc b)

-- The loop over the bytes, from a checksum so far.
unfoldable pub crc_bytes : ℕ → List ℕ → ℕ
unfolding crc_byte
crc_bytes crc [] = crc
crc_bytes crc (b ∷ bytes) = crc_bytes (crc_byte crc b) bytes

unfoldable pub crc8_j1850 : List ℕ → ℕ
unfolding crc_bytes
crc8_j1850 bytes = crc_bytes 0xFF bytes

-- Every entry is a byte.
abbrev pub IsBytes : List ℕ → Type 0
IsBytes [] = Unit {0}
IsBytes (b ∷ bytes) = (b < 2 ^ 8) × IsBytes bytes
