-- ===== src/Cloud/Sign/Hex.antt =====
-- cloud/src/lib.rs: secrets as hexadecimal text.
use fieldbus_control_node.Prelude.{
  ℕ, ◌+◌, ◌*◌, ◌/◌, ◌%◌, ◌^◌, ◌<◌, ◌≤◌, ◌≡◌, refl, arith, true, some, List, [], ◌∷◌, length, ok,
}
use fieldbus_control_node.J1939.Crc.{IsBytes}
use fieldbus_control_node.Cloud.Sign.{
  hex_digit, hex, digit, two_digits, from_str_radix, or_not_hex, pairs, is_ascii, unhex,
}

digit-hex_digit : (n : ℕ) → n < 16 → digit (hex_digit n) ≡ some n
unfolding digit hex_digit
digit-hex_digit n h = ground arith

hex_digit-ne_plus : (n : ℕ) → (48 ≤ hex_digit n) × (hex_digit n < n + 88)
unfolding hex_digit
hex_digit-ne_plus n = ground arith

from_str_radix-hex :
    (b : ℕ) → b < 2 ^ 8 → from_str_radix (hex_digit (b / 16)) (hex_digit (b % 16)) ≡ some b
unfolding from_str_radix two_digits
from_str_radix-hex b h = ground (
  arith,
  digit-hex_digit (b / 16) (omega arith),
  digit-hex_digit (b % 16) (omega arith),
  hex_digit-ne_plus (b / 16),
)

pub length-hex : (bytes : List ℕ) → length (hex bytes) ≡ 2 * length bytes
unfolding hex
length-hex [] = omega arith
length-hex (b ∷ bytes) = omega (arith, length-hex bytes)

pub is_ascii-hex : (bytes : List ℕ) → IsBytes bytes → is_ascii (hex bytes) ≡ true
unfolding is_ascii hex
is_ascii-hex [] v = refl
is_ascii-hex (b ∷ bytes) v =
    ground (arith, hex_digit-ne_plus (b / 16), hex_digit-ne_plus (b % 16), is_ascii-hex bytes v.1)

pairs-hex : (bytes : List ℕ) → IsBytes bytes → pairs (hex bytes) ≡ ok bytes
unfolding pairs hex or_not_hex
pairs-hex [] v = refl
pairs-hex (b ∷ bytes) v = rw (from_str_radix-hex b v.0, pairs-hex bytes v.1)

-- Bytes that are written as hexadecimal digits are read back.
pub unhex-hex : (bytes : List ℕ) → IsBytes bytes → unhex (hex bytes) ≡ ok bytes
unfolding unhex
unhex-hex bytes v =
    rw (length-hex bytes, is_ascii-hex bytes v)
      (let even : 2 * length bytes % 2 ≡ 0 = omega arith in rw even (pairs-hex bytes v))

-- A plus sign passes for the digit zero in front of another digit, so two secrets that are
-- different texts, one of them no hexadecimal text, give one key.
pub unhex_plus :
    (c v : ℕ)
    → digit c ≡ some v
    → (unhex (b'+' ∷ c ∷ []) ≡ ok (v ∷ [])) × (unhex (b'0' ∷ c ∷ []) ≡ ok (v ∷ []))
unfolding unhex pairs is_ascii from_str_radix two_digits or_not_hex digit
unhex_plus c v h = (ground arith, ground arith)
