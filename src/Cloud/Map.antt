-- ===== src/Cloud/Map.antt =====
-- `std::collections::BTreeMap` as an association list in the order of its keys.
pub mod Orders
use fieldbus_control_node.Prelude.{
  ℕ, suc, ◌+◌, ◌≡◌, refl, ◌↔◌, ◌⊎◌, inl, inr, arith, Bool, true, false, Option, none, some, List,
  [], ◌∷◌, if◌then◌else◌, length, Bool-cases, sym, ap, ◌∙◌,
}

-- A total order on keys.
pub record Ord {ℓ} (K : Type ℓ) : Type ℓ where
  pub eq : K → K → Bool
  pub lt : K → K → Bool
  pub eq_iff : (a b : K) → (eq a b ≡ true) ↔ (a ≡ b)
  pub lt_irrefl : (a : K) → lt a a ≡ false
  pub lt_trans : (a b c : K) → lt a b ≡ true → lt b c ≡ true → lt a c ≡ true
  pub lt_total : (a b : K) → eq a b ≡ false → lt a b ≡ false → lt b a ≡ true

abbrev pub Map : Type 0 → Type 0 → Type 0
Map K V = List (K × V)

module _ {K V : Type 0} (o : Ord K) where
  unfoldable pub get : K → Map K V → Option V
  get k [] = none
  get k ((j, w) ∷ m) = if o.eq j k then some w else get k m

  unfoldable pub insert : K → V → Map K V → Map K V
  insert k v [] = (k, v) ∷ []
  insert k v ((j, w) ∷ m) =
      let rest = insert k v m in
      if o.eq j k then (k, v) ∷ m else if o.lt k j then (k, v) ∷ (j, w) ∷ m else (j, w) ∷ rest

  unfoldable pub contains_key : K → Map K V → Bool
  contains_key k [] = false
  contains_key k ((j, w) ∷ m) = if o.eq j k then true else contains_key k m

  pub get-insert :
      (k j : K) (v : V) (m : Map K V)
      → get j (insert k v m) ≡ (if o.eq k j then some v else get j m)
  unfolding get insert
  get-insert k j v [] = refl
  get-insert k j v ((i, w) ∷ m) =
      ground (arith, o.eq_iff i k, o.eq_iff k j, o.eq_iff i j, get-insert k j v m)

  pub contains_key-get : (k : K) (m : Map K V) → contains_key k m ≡ false → get k m ≡ none
  unfolding get contains_key
  contains_key-get k [] h = refl
  contains_key-get k ((j, w) ∷ m) h = ground (arith, contains_key-get k m)

  pub length-insert :
      (k : K) (v : V) (m : Map K V) → get k m ≡ none → length (insert k v m) ≡ suc (length m)
  unfolding get insert
  length-insert k v [] h = refl
  length-insert k v ((j, w) ∷ m) h = ground (arith, length-insert k v m)

  -- The keys rise along the list, above a bound.
  abbrev pub Above : K → Map K V → Type 0
  Above k [] = Unit {0}
  Above k ((j, w) ∷ m) = (o.lt k j ≡ true) × Above j m

  abbrev pub IsSorted : Map K V → Type 0
  IsSorted [] = Unit {0}
  IsSorted ((j, w) ∷ m) = Above j m

  Above-IsSorted : (b : K) (m : Map K V) → Above b m → IsSorted m
  Above-IsSorted b [] a = tt
  Above-IsSorted b ((j, w) ∷ m) a = a.1

  get_below : (k j : K) (m : Map K V) → Above j m → o.lt k j ≡ true → get k m ≡ none
  unfolding get
  get_below k j [] a h = refl
  get_below k j ((i, w) ∷ m) a h =
      let lt : o.lt k i ≡ true = o.lt_trans k j i h a.0 in
      ground (arith, o.eq_iff i k, o.lt_irrefl i, get_below k i m a.1 lt, lt)

  insert-Above :
      (b k : K) (v : V) (m : Map K V) → Above b m → o.lt b k ≡ true → Above b (insert k v m)
  unfolding insert
  insert-Above b k v [] a h = (h, tt)
  insert-Above b k v ((j, w) ∷ m) a h =
      ground (arith, o.eq_iff j k, o.lt_total j k, o.lt_total k j, insert-Above j k v m a.1)

  pub insert-IsSorted : (k : K) (v : V) (m : Map K V) → IsSorted m → IsSorted (insert k v m)
  unfolding insert
  insert-IsSorted k v [] s = tt
  insert-IsSorted k v ((j, w) ∷ m) s = ground (
    arith,
    o.eq_iff j k,
    o.lt_total k j,
    o.lt_total j k,
    insert-Above j k v m s,
    ap (λ (i : K). Above i m),
  )

  -- A measure of the values, added up over the map.
  unfoldable pub total : (V → ℕ) → Map K V → ℕ
  total f [] = 0
  total f ((j, w) ∷ m) = f w + total f m

  abbrev pub measured : (V → ℕ) → Option V → ℕ
  measured f none = 0
  measured f (some w) = f w

  -- Writing a key replaces its share of the total.
  pub total-insert :
      (f : V → ℕ) (k : K) (v : V) (m : Map K V)
      → IsSorted m
      → total f (insert k v m) + measured f (get k m) ≡ total f m + f v
  unfolding total insert get
  total-insert f k v [] s = omega arith
  total-insert f k v ((j, w) ∷ m) s =
      ground (arith, get_below k j m s, total-insert f k v m (Above-IsSorted j m s))
