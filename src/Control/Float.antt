-- ===== src/Control/Float.antt =====
-- The interface to `f32`: the operations that core/src/control.rs, core/src/node.rs and
-- host/src/bus.rs use, and the documented behaviour of them that the theorems rely on. The
-- primitive type is no code of the repository, so it is a parameter.
use fieldbus_control_node.Prelude.{
  ℕ, zero, suc, ◌-◌, ◌*◌, ◌≤◌, ◌≤ℤ◌, ◌/◌, ◌^◌, ◌≡◌, Bool, true, false, if◌then◌else◌, ℤ, pos,
  negsuc, ltb_ℤ, leb_ℤ, ◌+ℤ◌, ◌-ℤ◌, ◌*ℤ◌, arith,
}
use fieldbus_control_node.J1939.Payload.{IsI16}

pub record Float32 : Type 1 where
  pub F : Type 0
  pub add : F → F → F
  pub sub : F → F → F
  pub mul : F → F → F
  -- `<` and `<=`, both false where a side is not a number.
  pub lt : F → F → Bool
  pub le : F → F → Bool
  -- The number nearest to a decimal: the first argument over ten to the second.
  pub literal : ℤ → ℕ → F
  pub min_positive : F
  -- `v as f32`, and `x as i16`, which truncates and saturates.
  pub of_i16 : ℤ → F
  pub to_i16 : F → ℤ

-- `f32::clamp` for ordered limits.
abbrev pub clamp : (fl : Float32) → fl.F → fl.F → fl.F → fl.F
clamp fl x lo hi = if fl.lt x lo then lo else if fl.lt hi x then hi else x

-- Documented behaviour of the comparisons (IEEE 754) and of the casts.
pub record FloatLaws (fl : Float32) : Type 0 where
  -- A comparison that holds has a number on both sides.
  pub le_left : (a b : fl.F) → fl.le a b ≡ true → fl.le a a ≡ true
  pub le_right : (a b : fl.F) → fl.le a b ≡ true → fl.le b b ≡ true
  -- Numbers are totally ordered.
  pub le_of_not_lt :
      (a b : fl.F) → fl.le a a ≡ true → fl.le b b ≡ true → fl.lt a b ≡ false → fl.le b a ≡ true
  pub le_total :
      (a b : fl.F) → fl.le a a ≡ true → fl.le b b ≡ true → fl.le a b ≡ false → fl.le b a ≡ true
  pub not_lt_of_le : (a b : fl.F) → fl.le a b ≡ true → fl.lt b a ≡ false
  -- Decimals are numbers, and rounding keeps their order.
  pub literal_mono : (a b : ℤ) (k : ℕ) → a ≤ℤ b → fl.le (fl.literal a k) (fl.literal b k) ≡ true
  -- A cast to `i16` is an `i16`.
  pub to_i16-IsI16 : (x : fl.F) → IsI16 (fl.to_i16 x)

-- A model of the interface: fixed-point numbers in thousandths.
of_parts : Bool → ℕ → ℤ
of_parts negative zero = pos 0
of_parts true (suc n) = negsuc n
of_parts false (suc n) = pos (suc n)

unfoldable pub div_trunc : ℤ → ℕ → ℤ
unfolding of_parts
div_trunc (pos n) d = of_parts false (n / d)
div_trunc (negsuc n) d = of_parts true (suc n / d)

unfoldable pub saturate : ℤ → ℤ
saturate v =
    if ltb_ℤ v (negsuc 32767) then negsuc 32767 else if ltb_ℤ (pos 32767) v then pos 32767 else v

abbrev pub thousandths : Float32
thousandths = record {
  F = ℤ;
  add = ◌+ℤ◌;
  sub = ◌-ℤ◌;
  mul = λ a b. div_trunc (a *ℤ b) 1000;
  lt = ltb_ℤ;
  le = leb_ℤ;
  literal = λ m k. m *ℤ pos (10 ^ (3 - k));
  min_positive = pos 1;
  of_i16 = λ v. v *ℤ pos 1000;
  to_i16 = λ x. saturate (div_trunc x 1000);
}

pub leb_ℤ-refl : (a : ℤ) → leb_ℤ a a ≡ true
leb_ℤ-refl a = ground arith

leb_ℤ_of_not_ltb : (a b : ℤ) → ltb_ℤ a b ≡ false → leb_ℤ b a ≡ true
leb_ℤ_of_not_ltb a b h = ground arith

not_ltb_of_leb_ℤ : (a b : ℤ) → leb_ℤ a b ≡ true → ltb_ℤ b a ≡ false
not_ltb_of_leb_ℤ a b h = ground arith

leb_ℤ_total : (a b : ℤ) → leb_ℤ a b ≡ false → leb_ℤ b a ≡ true
leb_ℤ_total a b h = ground arith

scale_mono : (a b : ℤ) (p : ℕ) → a ≤ℤ b → leb_ℤ (a *ℤ pos p) (b *ℤ pos p) ≡ true
scale_mono (pos a) (pos b) p h = let m : a * p ≤ b * p = grind arith in ground arith
scale_mono (pos a) (negsuc b) p h = absurd (omega arith)
scale_mono (negsuc a) (pos b) p h = ground arith
scale_mono (negsuc a) (negsuc b) p h = let m : suc b * p ≤ suc a * p = grind arith in ground arith

saturate-IsI16 : (v : ℤ) → IsI16 (saturate v)
unfolding saturate
saturate-IsI16 v = ground arith

pub thousandths-laws : FloatLaws thousandths
thousandths-laws = record {
  le_left = λ a b h. leb_ℤ-refl a;
  le_right = λ a b h. leb_ℤ-refl b;
  le_of_not_lt = λ a b h k n. leb_ℤ_of_not_ltb a b n;
  le_total = λ a b h k n. leb_ℤ_total a b n;
  not_lt_of_le = λ a b h. not_ltb_of_leb_ℤ a b h;
  literal_mono = λ a b k h. scale_mono a b (10 ^ (3 - k)) h;
  to_i16-IsI16 = λ x. saturate-IsI16 (div_trunc x 1000);
}
