-- ===== src/Cloud/Ingest/Screen.antt =====
-- cloud/src/lib.rs: what the checks of `ingest` make of a batch.
use fieldbus_control_node.Prelude.{
  ◌≡◌, refl, ◌∙◌, subst, arith, true, Option, none, some, List, [], ◌∷◌, ◌++◌, All, Option-cases,
  inl, inr, ok, bind-ok,
}
use fieldbus_control_node.Cloud.Map.Orders.{Text, Key, eq_text_iff, eq_key_iff}
use fieldbus_control_node.Cloud.Wire.{Float64, Envelope, eq_reading}
use fieldbus_control_node.Cloud.Sign.{Crates}
use fieldbus_control_node.Cloud.Store.{Disk, Store, Readings, key_of, put, stored}
use fieldbus_control_node.Cloud.Ingest.{
  same_identity, pending, or_else, known, take_unless, authentic, screen,
}
use fieldbus_control_node.Cloud.Ingest.Fresh.{Fresh, known-put}

module _ (f64 : Float64) where
  -- The identity of the envelope holds a reading equal to its own.
  abbrev pub Kept : (Text → Key → Option (Envelope f64)) → Envelope f64 → Type 0
  Kept find e =
      (prior : Envelope f64) × (find e.reading.device_id (key_of f64 e.reading) ≡ some prior)
      × (eq_reading f64 prior.reading e.reading ≡ true)

  known-append :
      (r : Readings f64) (es : List (Envelope f64)) (e : Envelope f64) (id : Text) (key : Key)
      → known f64 r (es ++ e ∷ []) id key
        ≡ or_else f64 (known f64 r es id key) (pending f64 id key (e ∷ []))
  unfolding known pending or_else
  known-append r [] e id key = ground arith
  known-append r (x ∷ es) e id key = ground (arith, known-append r es e id key)

  none_left : (o : Option (Envelope f64)) → or_else f64 o none ≡ none → o ≡ none
  unfolding or_else
  none_left none h = refl
  none_left (some e) h = h

  Fresh-append :
      (r : Readings f64) (es : List (Envelope f64)) (e : Envelope f64)
      → Fresh f64 r es
      → known f64 r es e.reading.device_id (key_of f64 e.reading) ≡ none
      → Fresh f64 r (es ++ e ∷ [])
  unfolding known or_else pending
  Fresh-append r [] e h g =
      (none_left (stored f64 r e.reading.device_id (key_of f64 e.reading)) g, tt)
  Fresh-append r (x ∷ es) e h g =
      (h.0, Fresh-append (put f64 r x) es e h.1 (known-put f64 r x es _ _ h.0 ∙ g))

  same_identity_self :
      (e : Envelope f64) → same_identity f64 e e.reading.device_id (key_of f64 e.reading) ≡ true
  unfolding same_identity
  same_identity_self e = ground (
    arith,
    (eq_text_iff e.reading.device_id e.reading.device_id).1 refl,
    (eq_key_iff (key_of f64 e.reading) (key_of f64 e.reading)).1 refl,
  )

  pub eq_reading_refl :
      (e : Envelope f64)
      → f64.is_finite e.reading.value ≡ true
      → eq_reading f64 e.reading e.reading ≡ true
  unfolding eq_reading
  eq_reading_refl e h = ground (
    arith,
    f64.eq_refl e.reading.value h,
    eq_text_iff e.reading.device_id e.reading.device_id,
    eq_text_iff e.reading.firmware_version e.reading.firmware_version,
    eq_text_iff e.reading.quality e.reading.quality,
  )

  -- What one envelope does to the readings that are to be stored.
  abbrev Taken : Readings f64 → List (Envelope f64) → Envelope f64 → List (Envelope f64) → Type 0
  Taken r es e es' =
      Fresh f64 r es'
      × Kept (known f64 r es') e
      × ((id : Text) (key : Key) (p : Envelope f64)
          → known f64 r es id key ≡ some p
          → known f64 r es' id key ≡ some p)

  added :
      (r : Readings f64) (es : List (Envelope f64)) (e : Envelope f64)
      → f64.is_finite e.reading.value ≡ true
      → Fresh f64 r es
      → known f64 r es e.reading.device_id (key_of f64 e.reading) ≡ none
      → Taken r es e (es ++ e ∷ [])
  unfolding or_else pending
  added r es e fin fr n =
      let at = known-append r es e in
      let self = same_identity_self e in
      let id = e.reading.device_id in
      let key = key_of f64 e.reading in
      let found : known f64 r (es ++ e ∷ []) id key ≡ some e = ground (arith, at id key, self, n) in
      (
        Fresh-append r es e fr n,
        (e, found, eq_reading_refl e fin),
        λ j k p h. ground (arith, at j k, h),
      )

  take_lem :
      (r : Readings f64) (es es' : List (Envelope f64)) (e : Envelope f64)
      → f64.is_finite e.reading.value ≡ true
      → Fresh f64 r es
      → take_unless f64 e es (known f64 r es e.reading.device_id (key_of f64 e.reading)) ≡ ok es'
      → Taken r es e es'
  unfolding take_unless
  take_lem r es es' e fin fr h =
      let found = known f64 r es e.reading.device_id (key_of f64 e.reading) in
      elim (Option-cases found) [
        | inl n ↦
            let same : es ++ e ∷ [] ≡ es' = ground (arith, h, n) in
            subst (Taken r es e) same (added r es e fin fr n)
        | inr (prior, p) ↦
            let same : (es ≡ es') × (eq_reading f64 prior.reading e.reading ≡ true) =
              ground (arith, h, p) in
            subst (Taken r es e) same.0 (fr, (prior, p, same.1), λ j k q g. g)
      ]

  module _ (crates : Crates f64) (disk : Disk f64) where
    pub authentic-IsFinite :
        (s : Store f64) (e : Envelope f64)
        → authentic f64 crates disk s e ≡ ok tt
        → f64.is_finite e.reading.value ≡ true
    unfolding authentic
    authentic-IsFinite s e h = ground arith

    pub screen-cons :
        (s : Store f64) (es es' : List (Envelope f64)) (e : Envelope f64)
        (batch : List (Envelope f64))
        → screen f64 crates disk s es (e ∷ batch) ≡ ok es'
        → (authentic f64 crates disk s e ≡ ok tt)
          × ((mid : List (Envelope f64)) × (take_unless f64 e es
                  (known f64 s.readings es e.reading.device_id (key_of f64 e.reading))
                ≡ ok mid)
              × (screen f64 crates disk s mid batch ≡ ok es'))
    unfolding screen
    screen-cons s es es' e batch h =
        let (x, p, rest) = bind-ok (authentic f64 crates disk s e) _ es' h in
        (p, bind-ok _ _ es' rest)

    pub screen_lem :
        (s : Store f64) (es es' batch : List (Envelope f64))
        → screen f64 crates disk s es batch ≡ ok es'
        → Fresh f64 s.readings es
        → Fresh f64 s.readings es'
          × All (Kept (known f64 s.readings es')) batch
          × ((id : Text) (key : Key) (p : Envelope f64)
              → known f64 s.readings es id key ≡ some p
              → known f64 s.readings es' id key ≡ some p)
    unfolding screen
    screen_lem s es es' [] h fr =
        let same : es ≡ es' = ground (arith, h) in
        (
          subst (Fresh f64 s.readings) same fr,
          tt,
          λ id key p g. subst (λ l. known f64 s.readings l id key ≡ some p) same g,
        )
    screen_lem s es es' (e ∷ batch) h fr =
        let (a, (mid, t, rest)) = screen-cons s es es' e batch h in
        let (fr', (p, at, eq), up) = take_lem s.readings es mid e (authentic-IsFinite s e a) fr t in
        let (fr'', all, up') = screen_lem s mid es' batch rest fr' in
        (fr'', ((p, up' _ _ p at, eq), all), λ id key q g. up' id key q (up id key q g))
