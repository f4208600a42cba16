-- ===== src/Cloud/Http/Digest.antt =====
-- cloud/src/main.rs: the constant-time comparison, against equality.
use fieldbus_control_node.Prelude.{
  ℕ, ◌≡◌, ◌↔◌, refl, sym, arith, true, List, [], ◌∷◌, length, bit_or, bit_xor,
}
use mathlib.Core.List.{head-eq_of_cons-eq, tail-eq_of_cons-eq, cons-eq-cons}
use fieldbus_control_node.J1939.Crc.{IsBytes}
use fieldbus_control_node.Prelude.Bits.{bit_or-zero_iff, bit_xor-zero_iff}
use fieldbus_control_node.Cloud.Map.Orders.{Text}
use fieldbus_control_node.Cloud.Sign.{hex}
use fieldbus_control_node.Cloud.Sign.Hex.{length-hex, is_ascii-hex}
use fieldbus_control_node.Cloud.Http.Admin.{differences, constant_time_hex_equal}

differences-zero :
    (d : ℕ) (left right : Text)
    → length left ≡ length right
    → (differences d left right ≡ 0) ↔ ((d ≡ 0) × (left ≡ right))
unfolding differences
differences-zero d [] [] h = (λ e. (e, refl), λ p. p.0)
differences-zero d [] (r ∷ right) h = absurd (omega arith)
differences-zero d (l ∷ left) [] h = absurd (omega arith)
differences-zero d (l ∷ left) (r ∷ right) h =
    let rest = differences-zero (bit_or d (bit_xor l r)) left right (omega arith) in
    let both = bit_or-zero_iff d (bit_xor l r) in
    let same = bit_xor-zero_iff l r in
    (
      λ e.
          let (z, tails) = rest.0 e in
          let (d0, x) = both.0 z in (d0, cons-eq-cons.1 (same.0 x, tails)),
      λ (d0, e). rest.1 (both.1 (d0, same.1 (head-eq_of_cons-eq e)), tail-eq_of_cons-eq e),
    )

-- The comparison is true exactly for the 64 characters that write the digest in hexadecimal: no
-- other text passes, and none of the expected length is refused for the place where it differs.
pub constant_time_hex_equal_iff :
    (actual : List ℕ) (expected : Text)
    → IsBytes actual
    → (constant_time_hex_equal actual expected ≡ true)
      ↔ ((expected ≡ hex actual) × (length actual ≡ 32))
unfolding constant_time_hex_equal
constant_time_hex_equal_iff actual expected bytes =
    let long = length-hex actual in
    let ascii = is_ascii-hex actual bytes in
    (
      λ h.
          let same_length : length (hex actual) ≡ length expected = ground (arith, h) in
          let z : differences 0 (hex actual) expected ≡ 0 = ground (arith, h) in
          let e = ((differences-zero 0 (hex actual) expected same_length).0 z).1 in
          let sixty_four : length expected ≡ 64 = ground (arith, h) in (sym e, omega arith),
      λ (e, n).
          let z = (differences-zero 0 (hex actual) (hex actual) refl).1 (refl, refl) in
          rw e (ground (arith, long, ascii, z, n)),
    )
