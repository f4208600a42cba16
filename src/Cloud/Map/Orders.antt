-- ===== src/Cloud/Map/Orders.antt =====
-- The orders of the keys: numbers, pairs of numbers, and texts, which are compared byte by byte.
use fieldbus_control_node.Prelude.{
  ℕ, ◌≡◌, ◌↔◌, arith, Bool, true, false, List, [], ◌∷◌, ltb, ◌==◌, ◌&&◌, ◌||◌,
}
use fieldbus_control_node.Cloud.Map.{Ord}

-- A text is the list of its bytes.
abbrev pub Text : Type 0
Text = List ℕ

unfoldable pub eq_text : Text → Text → Bool
eq_text [] [] = true
eq_text [] (b ∷ bs) = false
eq_text (a ∷ as') [] = false
eq_text (a ∷ as') (b ∷ bs) = a == b && eq_text as' bs

unfoldable pub lt_text : Text → Text → Bool
lt_text [] [] = false
lt_text [] (b ∷ bs) = true
lt_text (a ∷ as') [] = false
lt_text (a ∷ as') (b ∷ bs) = ltb a b || (a == b && lt_text as' bs)

pub eq_text_iff : (s t : Text) → (eq_text s t ≡ true) ↔ (s ≡ t)
unfolding eq_text
eq_text_iff [] [] = ground arith
eq_text_iff [] (b ∷ bs) = ground arith
eq_text_iff (a ∷ as') [] = ground arith
eq_text_iff (a ∷ as') (b ∷ bs) = ground (arith, eq_text_iff as' bs)

pub lt_text_irrefl : (s : Text) → lt_text s s ≡ false
unfolding lt_text
lt_text_irrefl [] = ground arith
lt_text_irrefl (a ∷ as') = ground (arith, lt_text_irrefl as')

pub lt_text_trans : (s t u : Text) → lt_text s t ≡ true → lt_text t u ≡ true → lt_text s u ≡ true
unfolding lt_text
lt_text_trans [] [] u h g = ground arith
lt_text_trans [] (b ∷ bs) [] h g = ground arith
lt_text_trans [] (b ∷ bs) (c ∷ cs) h g = ground arith
lt_text_trans (a ∷ as') [] u h g = ground arith
lt_text_trans (a ∷ as') (b ∷ bs) [] h g = ground arith
lt_text_trans (a ∷ as') (b ∷ bs) (c ∷ cs) h g = ground (arith, lt_text_trans as' bs cs)

pub lt_text_total : (s t : Text) → eq_text s t ≡ false → lt_text s t ≡ false → lt_text t s ≡ true
unfolding eq_text lt_text
lt_text_total [] [] h g = ground arith
lt_text_total [] (b ∷ bs) h g = ground arith
lt_text_total (a ∷ as') [] h g = ground arith
lt_text_total (a ∷ as') (b ∷ bs) h g = ground (arith, lt_text_total as' bs)

abbrev pub text_ord : Ord Text
text_ord = record {
  eq = eq_text;
  lt = lt_text;
  eq_iff = eq_text_iff;
  lt_irrefl = lt_text_irrefl;
  lt_trans = lt_text_trans;
  lt_total = lt_text_total;
}

-- A boot counter and a sequence number.
abbrev pub Key : Type 0
Key = ℕ × ℕ

unfoldable pub eq_key : Key → Key → Bool
eq_key a b = a.0 == b.0 && a.1 == b.1

unfoldable pub lt_key : Key → Key → Bool
lt_key a b = ltb a.0 b.0 || (a.0 == b.0 && ltb a.1 b.1)

pub eq_key_iff : (a b : Key) → (eq_key a b ≡ true) ↔ (a ≡ b)
unfolding eq_key
eq_key_iff a b = ground arith

pub lt_key_irrefl : (a : Key) → lt_key a a ≡ false
unfolding lt_key
lt_key_irrefl a = ground arith

pub lt_key_trans : (a b c : Key) → lt_key a b ≡ true → lt_key b c ≡ true → lt_key a c ≡ true
unfolding lt_key
lt_key_trans a b c h g = ground arith

pub lt_key_total : (a b : Key) → eq_key a b ≡ false → lt_key a b ≡ false → lt_key b a ≡ true
unfolding eq_key lt_key
lt_key_total a b h g = ground arith

abbrev pub key_ord : Ord Key
key_ord = record {
  eq = eq_key;
  lt = lt_key;
  eq_iff = eq_key_iff;
  lt_irrefl = lt_key_irrefl;
  lt_trans = lt_key_trans;
  lt_total = lt_key_total;
}

pub lt_number_trans : (a b c : ℕ) → ltb a b ≡ true → ltb b c ≡ true → ltb a c ≡ true
lt_number_trans a b c h g = ground arith

pub lt_number_total : (a b : ℕ) → (a == b) ≡ false → ltb a b ≡ false → ltb b a ≡ true
lt_number_total a b h g = ground arith

pub number_eq_iff : (a b : ℕ) → ((a == b) ≡ true) ↔ (a ≡ b)
number_eq_iff a b = ground arith

pub lt_number_irrefl : (a : ℕ) → ltb a a ≡ false
lt_number_irrefl a = ground arith

abbrev pub number_ord : Ord ℕ
number_ord = record {
  eq = ◌==◌;
  lt = ltb;
  eq_iff = number_eq_iff;
  lt_irrefl = lt_number_irrefl;
  lt_trans = lt_number_trans;
  lt_total = lt_number_total;
}
