-- ===== src/Prelude/Bits.antt =====
-- Laws of the native bit operations at variables: masks, disjoint fields, exclusive or.
use Prim.Native.Nat.{
  ℕ, zero, suc, ◌+◌, ◌*◌, ◌/◌, ◌%◌, ◌^◌, ◌≤◌, ◌<◌, min, max, bit_and, bit_or, bit_xor, digits,
  differ, bit_and-bitwise, bit_or-bitwise, bit_xor-bitwise,
}
use mathlib.Core.Path.{◌≡◌, refl, ap, ◌∙◌, sym}
use mathlib.Core.Logic.{◌↔◌}
use native.Mathlib.Nat.{pow-suc, le_refl, one-le-pow}
use native.Mathlib.Decide.{dec_lt}
use native.Mathlib.Omega.{arith}

-- One digit of a bit operation: the fuel of `digits` does not matter once it is enough.
module _ (z : ℕ → ℕ) (f : ℕ → ℕ → ℕ) where
  digits_enough : (a b k l : ℕ) → a ≤ k → a ≤ l → digits z f k a b ≡ digits z f l a b
  digits_enough zero b zero zero s t = refl
  digits_enough zero b zero (suc l) s t = refl
  digits_enough zero b (suc k) zero s t = refl
  digits_enough zero b (suc k) (suc l) s t = refl
  digits_enough (suc a) b zero l s t = absurd (omega arith)
  digits_enough (suc a) b (suc k) zero s t = absurd (omega arith)
  digits_enough (suc a) b (suc k) (suc l) s t =
      rw (digits_enough (suc a / 2) (b / 2) k l (omega arith) (omega arith))

  lowest_digit :
      (a b : ℕ)
      → digits z f (suc a) (suc a) b
        ≡ digits z f (suc a / 2) (suc a / 2) (b / 2) * 2 + f (suc a % 2) (b % 2)
  lowest_digit a b =
      omega (arith, digits_enough (suc a / 2) (b / 2) a (suc a / 2) (omega arith) (le_refl _))

pub bit_and_halves : (a b : ℕ) → bit_and a b ≡ bit_and (a / 2) (b / 2) * 2 + min (a % 2) (b % 2)
bit_and_halves zero b = simp bit_and-bitwise (omega arith)
bit_and_halves (suc a) b = simp bit_and-bitwise (lowest_digit (λ y. 0) min a b)

pub bit_or_halves : (a b : ℕ) → bit_or a b ≡ bit_or (a / 2) (b / 2) * 2 + max (a % 2) (b % 2)
bit_or_halves zero b = simp bit_or-bitwise (omega arith)
bit_or_halves (suc a) b = simp bit_or-bitwise (lowest_digit (λ y. y) max a b)

pub bit_xor_halves : (a b : ℕ) → bit_xor a b ≡ bit_xor (a / 2) (b / 2) * 2 + differ (a % 2) (b % 2)
bit_xor_halves zero b = simp bit_xor-bitwise (omega arith)
bit_xor_halves (suc a) b = simp bit_xor-bitwise (lowest_digit (λ y. y) differ a b)

-- Exclusive or with nothing, and `|` with nothing.
bit_or-zero_below : (bound a : ℕ) → a < bound → bit_or a 0 ≡ a
bit_or-zero_below zero a small = absurd (omega arith)
bit_or-zero_below (suc bound) zero small = refl
bit_or-zero_below (suc bound) (suc a) small =
    let half = bit_or-zero_below bound (suc a / 2) (omega arith) in
    omega (arith, half, bit_or_halves (suc a) 0)

bit_and-zero_below : (bound a : ℕ) → a < bound → bit_and a 0 ≡ 0
bit_and-zero_below zero a small = absurd (omega arith)
bit_and-zero_below (suc bound) zero small = refl
bit_and-zero_below (suc bound) (suc a) small =
    let half = bit_and-zero_below bound (suc a / 2) (omega arith) in
    omega (arith, half, bit_and_halves (suc a) 0)

-- `|` of two fields that do not overlap is their sum.
pub bit_or-disjoint : (k a r : ℕ) (q : ℕ) → a ≡ q * 2 ^ k → r < 2 ^ k → bit_or a r ≡ a + r
bit_or-disjoint zero a r q e h =
    let r0 : r ≡ 0 = omega arith in rw (r0, bit_or-zero_below (suc a) a (omega arith)) (omega arith)
bit_or-disjoint (suc k) a r q e h = omega (
  arith,
  bit_or_halves a r,
  e,
  ap (λ (t : ℕ). q * t) (pow-suc 2 k),
  pow-suc 2 k,
  bit_or-disjoint k (a / 2) (r / 2) q (omega (arith, e, ap (λ (t : ℕ). q * t) (pow-suc 2 k)))
      (omega (arith, pow-suc 2 k)),
)

bit_and-fields : (k a q r m : ℕ) → a ≡ q * 2 ^ k + r → r < 2 ^ k → m + 1 ≡ 2 ^ k → bit_and a m ≡ r
bit_and-fields zero a q r m e h g =
    let m0 : m ≡ 0 = omega arith in
    omega (arith, ap (bit_and a) m0, bit_and-zero_below (suc a) a (omega arith))
bit_and-fields (suc k) a q r m e h g =
    let p = pow-suc 2 k in
    let qp = ap (λ (t : ℕ). q * t) p in
    let rest =
      bit_and-fields k (a / 2) q (r / 2) (m / 2) (omega (arith, e, p, qp)) (omega (arith, p))
        (omega (arith, p)) in
    let odd : m % 2 ≡ 1 = omega (arith, p) in
    let same : a % 2 ≡ r % 2 = omega (arith, e, qp) in
    omega (arith, bit_and_halves a m, rest, odd, same)

-- A mask of `k` low ones is the remainder by `2 ^ k`.
pub bit_and-mask : (k a m : ℕ) → m + 1 ≡ 2 ^ k → bit_and a m ≡ a % 2 ^ k
bit_and-mask k a m e =
    bit_and-fields k a (a / 2 ^ k) (a % 2 ^ k) m (omega arith) (ground (arith, one-le-pow k 2)) e

-- The digit of an exclusive or is the parity of the sum.
differ-parity : (x y : ℕ) → x < 2 → y < 2 → differ x y ≡ (x + y) % 2
differ-parity zero y h g = omega arith
differ-parity (suc zero) zero h g = omega arith
differ-parity (suc zero) (suc zero) h g = omega arith
differ-parity (suc zero) (suc (suc y)) h g = absurd (omega arith)
differ-parity (suc (suc x)) y h g = absurd (omega arith)

bit_xor_step : (a b : ℕ) → bit_xor a b ≡ bit_xor (a / 2) (b / 2) * 2 + (a % 2 + b % 2) % 2
bit_xor_step a b =
    omega (arith, bit_xor_halves a b, differ-parity (a % 2) (b % 2) (omega arith) (omega arith))

pub bit_xor-lt : (k a b : ℕ) → a < 2 ^ k → b < 2 ^ k → bit_xor a b < 2 ^ k
bit_xor-lt zero a b h g =
    let a0 : a ≡ 0 = omega arith in let b0 : b ≡ 0 = omega arith in rw (a0, b0) (omega arith)
bit_xor-lt (suc k) a b h g =
    let p = pow-suc 2 k in
    omega (
      arith,
      bit_xor_step a b,
      p,
      bit_xor-lt k (a / 2) (b / 2) (omega (arith, p)) (omega (arith, p)),
    )

bit_xor-injective_fuel : (n a b c : ℕ) → b + c ≤ n → bit_xor a b ≡ bit_xor a c → b ≡ c
bit_xor-injective_fuel zero a b c h e = omega arith
bit_xor-injective_fuel (suc n) a b c h e =
    let sb = bit_xor_step a b in
    let sc = bit_xor_step a c in
    let low : b % 2 ≡ c % 2 = omega (arith, sb, sc) in
    elim (dec_lt 0 (b + c)) [
      | yes p ↦ omega (
        arith,
        low,
        bit_xor-injective_fuel n (a / 2) (b / 2) (c / 2) (omega arith) (omega (arith, sb, sc)),
      )
      | no p ↦ omega arith
    ]

-- Exclusive or with a fixed number, on either side, loses nothing.
pub bit_xor-injective : (a b c : ℕ) → bit_xor a b ≡ bit_xor a c → b ≡ c
bit_xor-injective a b c e = bit_xor-injective_fuel (b + c) a b c (le_refl _) e

bit_xor-comm_fuel : (n a b : ℕ) → a + b ≤ n → bit_xor a b ≡ bit_xor b a
bit_xor-comm_fuel zero a b h =
    let a0 : a ≡ 0 = omega arith in let b0 : b ≡ 0 = omega arith in rw (a0, b0) refl
bit_xor-comm_fuel (suc n) a b h = elim (dec_lt 0 (a + b)) [
  | yes p ↦
      omega (
        arith,
        bit_xor_step a b,
        bit_xor_step b a,
        bit_xor-comm_fuel n (a / 2) (b / 2) (omega arith),
      )
  | no p ↦ let a0 : a ≡ 0 = omega arith in let b0 : b ≡ 0 = omega arith in rw (a0, b0) refl
]

pub bit_xor_comm : (a b : ℕ) → bit_xor a b ≡ bit_xor b a
bit_xor_comm a b = bit_xor-comm_fuel (a + b) a b (le_refl _)

pub bit_xor-zero : (a : ℕ) → bit_xor a 0 ≡ a
bit_xor-zero a = bit_xor_comm a 0 ∙ simp bit_xor-bitwise refl

-- Flipping the bits of a nonzero mask changes the number.
pub bit_xor-ne : (a m : ℕ) → 0 < m → bit_xor a m ≡ a → ⊥
bit_xor-ne a m h e =
    let z : m ≡ 0 = bit_xor-injective a m 0 (e ∙ sym (bit_xor-zero a)) in omega arith

bit_xor-self_fuel : (n a : ℕ) → a ≤ n → bit_xor a a ≡ 0
bit_xor-self_fuel zero a h = let a0 : a ≡ 0 = omega arith in rw a0 refl
bit_xor-self_fuel (suc n) a h = elim (dec_lt 0 a) [
  | yes p ↦
      let half = bit_xor-self_fuel n (a / 2) (omega arith) in omega (arith, bit_xor_step a a, half)
  | no p ↦ let a0 : a ≡ 0 = omega arith in rw a0 refl
]

-- Two numbers are equal exactly when they do not differ in a bit.
pub bit_xor-zero_iff : (a b : ℕ) → (bit_xor a b ≡ 0) ↔ (a ≡ b)
bit_xor-zero_iff a b =
    let self = bit_xor-self_fuel a a (le_refl _) in
    (λ e. bit_xor-injective a a b (self ∙ sym e), λ e. rw⁻¹ e self)

bit_or-zero_fuel : (n a b : ℕ) → a + b ≤ n → bit_or a b ≡ 0 → (a ≡ 0) × (b ≡ 0)
bit_or-zero_fuel zero a b h e = (omega arith, omega arith)
bit_or-zero_fuel (suc n) a b h e =
    let halves = bit_or_halves a b in
    elim (dec_lt 0 (a + b)) [
      | yes p ↦
          let rest = bit_or-zero_fuel n (a / 2) (b / 2) (omega arith) (omega arith) in
          let low : max (a % 2) (b % 2) ≡ 0 = omega arith in
          (omega (arith, rest.0, low), omega (arith, rest.1, low))
      | no p ↦ (omega arith, omega arith)
    ]

pub bit_or-zero_iff : (a b : ℕ) → (bit_or a b ≡ 0) ↔ ((a ≡ 0) × (b ≡ 0))
bit_or-zero_iff a b = (λ e. bit_or-zero_fuel (a + b) a b (le_refl _) e, λ (x, y). rw (x, y) refl)
