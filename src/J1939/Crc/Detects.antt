-- ===== src/J1939/Crc/Detects.antt =====
-- core/src/j1939.rs: the checksum and changes of the message.
use fieldbus_control_node.Prelude.{
  ℕ, ◌≤◌, zero, suc, ◌+◌, ◌/◌, ◌%◌, ◌^◌, ◌<◌, ◌≡◌, ◌≢◌, refl, ap, ◌∙◌, sym, Bool, true, ◌&&◌, List,
  [], ◌∷◌, ◌++◌, arith, bit_xor, ◌==◌, ltb, if◌then◌else◌,
}
use fieldbus_control_node.Prelude.Bits.{bit_xor-lt, bit_xor-injective, bit_xor_comm}
use fieldbus_control_node.J1939.Crc.{IsBytes, shift_bits, crc_byte, crc_bytes, crc8_j1850}

-- A test of every byte value up to a bound, run once.
passes_up_to : (ℕ → Bool) → ℕ → Bool
passes_up_to test zero = test 0
passes_up_to test (suc top) = test (suc top) && passes_up_to test top

passes_each : (test : ℕ → Bool) (top c : ℕ) → c ≤ top → passes_up_to test top ≡ true → test c ≡ true
unfolding passes_up_to
passes_each test zero c small all = let none_less : c ≡ 0 = omega arith in rw none_less all
passes_each test (suc top) c small all = ground (arith, passes_each test top c)

-- One turn run backwards: an odd checksum is one that took the polynomial.
unshift_bit : ℕ → ℕ
unshift_bit c = if c % 2 == 1 then bit_xor c 0x1D / 2 + 128 else c / 2

unshift_bits : ℕ → ℕ → ℕ
unfolding unshift_bit
unshift_bits zero c = c
unshift_bits (suc left) c = unshift_bits left (unshift_bit c)

-- A whole byte's turns stay within a byte and can be run backwards.
byte_turns_table :
    passes_up_to (λ x. (unshift_bits 8 (shift_bits 8 x) == x) && ltb (shift_bits 8 x) 256) 255
    ≡ true
unfolding passes_up_to shift_bits unshift_bits
byte_turns_table = refl

byte_turns : (x : ℕ) → x < 2 ^ 8 → (unshift_bits 8 (shift_bits 8 x) ≡ x) × (shift_bits 8 x < 2 ^ 8)
byte_turns x h = ground (
  arith,
  passes_each (λ y. (unshift_bits 8 (shift_bits 8 y) == y) && ltb (shift_bits 8 y) 256) 255 x
      (omega arith) byte_turns_table,
)

byte_turns-injective : (x y : ℕ) → x < 2 ^ 8 → y < 2 ^ 8 → shift_bits 8 x ≡ shift_bits 8 y → x ≡ y
byte_turns-injective x y h g e = sym (byte_turns x h).0 ∙ ap (unshift_bits 8) e ∙ (byte_turns y g).0

crc_byte-lt : (c b : ℕ) → c < 2 ^ 8 → b < 2 ^ 8 → crc_byte c b < 2 ^ 8
unfolding crc_byte
crc_byte-lt c b h g = (byte_turns (bit_xor c b) (bit_xor-lt 8 c b h g)).1

-- Different bytes, and different checksums so far, lead to different checksums.
crc_byte-injective :
    (c b d : ℕ) → c < 2 ^ 8 → b < 2 ^ 8 → d < 2 ^ 8 → crc_byte c b ≡ crc_byte c d → b ≡ d
unfolding crc_byte
crc_byte-injective c b d h g k e = bit_xor-injective c b d (
    byte_turns-injective (bit_xor c b) (bit_xor c d) (bit_xor-lt 8 c b h g) (bit_xor-lt 8 c d h k)
      e)

crc_byte-injective_state :
    (c d b : ℕ) → c < 2 ^ 8 → d < 2 ^ 8 → b < 2 ^ 8 → crc_byte c b ≡ crc_byte d b → c ≡ d
unfolding crc_byte
crc_byte-injective_state c d b h g k e = bit_xor-injective b c d (
    bit_xor_comm b c
    ∙ byte_turns-injective (bit_xor c b) (bit_xor d b) (bit_xor-lt 8 c b h k) (bit_xor-lt 8 d b g k)
        e
    ∙ bit_xor_comm d b)

crc_bytes-lt : (c : ℕ) (bytes : List ℕ) → c < 2 ^ 8 → IsBytes bytes → crc_bytes c bytes < 2 ^ 8
unfolding crc_bytes
crc_bytes-lt c [] h v = h
crc_bytes-lt c (b ∷ bytes) h v = crc_bytes-lt (crc_byte c b) bytes (crc_byte-lt c b h v.0) v.1

-- The checksum is a byte.
pub crc8_j1850-lt : (bytes : List ℕ) → IsBytes bytes → crc8_j1850 bytes < 2 ^ 8
unfolding crc8_j1850
crc8_j1850-lt bytes v = crc_bytes-lt 0xFF bytes (omega arith) v

crc_bytes-injective :
    (c d : ℕ) (bytes : List ℕ)
    → c < 2 ^ 8
    → d < 2 ^ 8
    → IsBytes bytes
    → crc_bytes c bytes ≡ crc_bytes d bytes
    → c ≡ d
unfolding crc_bytes
crc_bytes-injective c d [] h g v e = e
crc_bytes-injective c d (b ∷ bytes) h g v e = crc_byte-injective_state c d b h g v.0 (
    crc_bytes-injective (crc_byte c b) (crc_byte d b) bytes (crc_byte-lt c b h v.0)
      (crc_byte-lt d b g v.0) v.1 e)

crc_bytes-single :
    (c : ℕ) (before : List ℕ) (b d : ℕ) (after : List ℕ)
    → c < 2 ^ 8
    → IsBytes before
    → b < 2 ^ 8
    → d < 2 ^ 8
    → IsBytes after
    → crc_bytes c (before ++ b ∷ after) ≡ crc_bytes c (before ++ d ∷ after)
    → b ≡ d
unfolding crc_bytes
crc_bytes-single c [] b d after h v g k w e = crc_byte-injective c b d h g k (
    crc_bytes-injective (crc_byte c b) (crc_byte c d) after (crc_byte-lt c b h g)
      (crc_byte-lt c d h k) w e)
crc_bytes-single c (x ∷ before) b d after h v g k w e =
    crc_bytes-single (crc_byte c x) before b d after (crc_byte-lt c x h v.0) v.1 g k w e

-- For byte messages: two messages that differ in exactly one byte, at any position and by any
-- amount, have different checksums.
pub single_byte_detected :
    (before : List ℕ) (b d : ℕ) (after : List ℕ)
    → IsBytes before
    → b < 2 ^ 8
    → d < 2 ^ 8
    → IsBytes after
    → b ≢ d
    → crc8_j1850 (before ++ b ∷ after) ≢ crc8_j1850 (before ++ d ∷ after)
unfolding crc8_j1850
single_byte_detected before b d after v h g w ne e =
    ne (crc_bytes-single 0xFF before b d after (omega arith) v h g w e)
