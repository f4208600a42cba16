-- ===== src/Cloud/Ingest/Fresh.antt =====
-- cloud/src/lib.rs: the identities under which `Store` keeps its readings.
use fieldbus_control_node.Prelude.{
  ◌≡◌, refl, ap, ◌∙◌, arith, Bool, true, false, Option, none, some, List, [], ◌∷◌, if◌then◌else◌,
}
use fieldbus_control_node.Cloud.Map.{Map, get, insert, get-insert}
use fieldbus_control_node.Cloud.Map.Orders.{
  Text, Key, text_ord, key_ord, eq_text, eq_text_iff, eq_key, eq_key_iff,
}
use fieldbus_control_node.Cloud.Wire.{Float64, Envelope}
use fieldbus_control_node.Cloud.Store.{Readings, key_of, put, stored, or_default}
use fieldbus_control_node.Cloud.Ingest.{same_identity, pending, or_else, known}

module _ (f64 : Float64) where
  found_in :
      (b : Bool) (m : Map Key (Envelope f64)) (o : Option (Map Key (Envelope f64))) (key : Key)
      → get key_ord key (or_default f64 (if b then some m else o))
        ≡ (if b then get key_ord key m else get key_ord key (or_default f64 o))
  unfolding or_default
  found_in true m o key = refl
  found_in false m o key = refl

  -- A written reading is found under its identity, and nothing else moves.
  pub stored-put :
      (r : Readings f64) (e : Envelope f64) (id : Text) (key : Key)
      → stored f64 (put f64 r e) id key
        ≡ (if same_identity f64 e id key then some e else stored f64 r id key)
  unfolding put stored same_identity
  stored-put r e id key =
      let dev = e.reading.device_id in
      let m = or_default f64 (get text_ord dev r) in
      let m' = insert key_ord (key_of f64 e.reading) e m in
      let inner : get key_ord key m'
          ≡ (if eq_key (key_of f64 e.reading) key then some e else get key_ord key m) =
        get-insert key_ord (key_of f64 e.reading) key e m in
      let same : eq_text dev id ≡ true → get key_ord key m ≡ stored f64 r id key =
        λ p. ap (λ (i : Text). stored f64 r i key) ((eq_text_iff dev id).0 p) in
      let here : (if eq_text dev id then get key_ord key m' else stored f64 r id key)
          ≡ (if same_identity f64 e id key then some e else stored f64 r id key) =
        ground (arith, inner, same) in
      ap (λ o. get key_ord key (or_default f64 o)) (get-insert text_ord dev id m' r)
      ∙ found_in (eq_text dev id) m' (get text_ord id r) key
      ∙ here

  pub same_identity_lem :
      (e : Envelope f64) (id : Text) (key : Key)
      → same_identity f64 e id key ≡ true
      → (e.reading.device_id ≡ id) × (key_of f64 e.reading ≡ key)
  unfolding same_identity
  same_identity_lem e id key h =
      ground (arith, eq_text_iff e.reading.device_id id, eq_key_iff (key_of f64 e.reading) key)

  -- The readings in the order in which they are written.
  unfoldable pub put_all : Readings f64 → List (Envelope f64) → Readings f64
  put_all r [] = r
  put_all r (e ∷ es) = put_all (put f64 r e) es

  -- No identity of the list is stored yet, and none comes twice.
  abbrev pub Fresh : Readings f64 → List (Envelope f64) → Type 0
  Fresh r [] = Unit
  Fresh r (e ∷ es) =
      (stored f64 r e.reading.device_id (key_of f64 e.reading) ≡ none) × Fresh (put f64 r e) es

  pub known-put :
      (r : Readings f64) (e : Envelope f64) (es : List (Envelope f64)) (id : Text) (key : Key)
      → stored f64 r e.reading.device_id (key_of f64 e.reading) ≡ none
      → known f64 (put f64 r e) es id key ≡ known f64 r (e ∷ es) id key
  unfolding known pending or_else
  known-put r e es id key h = ground (arith, stored-put r e id key, same_identity_lem e id key, h)

  or_none : (o : Option (Envelope f64)) → o ≡ or_else f64 o none
  unfolding or_else
  or_none none = refl
  or_none (some e) = refl

  pub stored-put_all :
      (r : Readings f64) (es : List (Envelope f64)) (id : Text) (key : Key)
      → Fresh r es
      → stored f64 (put_all r es) id key ≡ known f64 r es id key
  unfolding put_all known pending
  stored-put_all r [] id key h = or_none (stored f64 r id key)
  stored-put_all r (e ∷ es) id key h =
      stored-put_all (put f64 r e) es id key h.1 ∙ known-put r e es id key h.0
