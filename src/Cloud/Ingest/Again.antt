-- ===== src/Cloud/Ingest/Again.antt =====
-- cloud/src/lib.rs: a batch that is sent again after it was accepted.
use fieldbus_control_node.Prelude.{
  ℕ, ◌+◌, ◌≤◌, ◌≡◌, refl, sym, ap, ◌∙◌, subst, arith, false, ◌||◌, Option, none, some, List, [],
  ◌∷◌, ◌==◌, ltb, length, All, if_true, if_false, Bool-cases, Option-cases, Result-cases, inl, inr,
  Result, ok, err, ℤ, saturating_add,
}
use mathlib.Core.Option.{some-injective}
use fieldbus_control_node.Cloud.Map.{Map, get, get-insert, IsSorted}
use fieldbus_control_node.Cloud.Map.Orders.{Text, text_ord, eq_text, eq_text_iff}
use fieldbus_control_node.Cloud.Wire.{
  Float64, Envelope, Reading, DeviceRecord, Error, reading_accepted, invalid, max_batch,
  max_stored_readings,
}
use fieldbus_control_node.Cloud.Sign.{Crates}
use fieldbus_control_node.Cloud.Store.{
  Disk, Store, stored, touch, append, written, apply, reading_count, or_error,
}
use fieldbus_control_node.Cloud.Ingest.{
  known, or_else, take_unless, authentic, screen, append_all, store_screened, ingest,
}
use fieldbus_control_node.Cloud.Ingest.Screen.{Kept, screen-cons, screen_lem}
use fieldbus_control_node.Cloud.Ingest.Confirm.{
  append_all-nil, append_all-ok, append_all-err, append_all_lem, ingest-ok, ingest_confirms,
}
use fieldbus_control_node.Cloud.Ingest.Count.{count, count-put_all}

module _ (f64 : Float64) where
  -- Every device is still there, with its secret.
  abbrev KeepsSecrets : Map Text DeviceRecord → Map Text DeviceRecord → Type 0
  KeepsSecrets before after =
      (id : Text) (d : DeviceRecord)
      → get text_ord id before ≡ some d
      → (d' : DeviceRecord) × (get text_ord id after ≡ some d') × (d'.secret_hex ≡ d.secret_hex)

  touch-KeepsSecrets :
      (ds : Map Text DeviceRecord) (r : Reading f64) (t : ℤ) (o : Option DeviceRecord)
      → get text_ord r.device_id ds ≡ o
      → KeepsSecrets ds (touch f64 ds r t o)
  unfolding touch
  touch-KeepsSecrets ds r t none e id d h = (d, h, refl)
  touch-KeepsSecrets ds r t (some c) e id d h =
      let at = get-insert text_ord r.device_id id _ ds in
      elim (Bool-cases (eq_text r.device_id id)) [
        | inl p ↦
            let same : r.device_id ≡ id = (eq_text_iff r.device_id id).0 p in
            let one : c ≡ d = some-injective _ _ (sym e ∙ ap (λ i. get text_ord i ds) same ∙ h) in
            (_, at ∙ if_true _ _ p, ap (λ (x : DeviceRecord). x.secret_hex) one)
        | inr p ↦ (d, at ∙ if_false _ _ p ∙ h, refl)
      ]

  module _ (crates : Crates f64) (disk : Disk f64) where
    append-KeepsSecrets :
        (s : Store f64) (e : Envelope f64) (t : ℤ)
        → KeepsSecrets s.devices (append f64 crates disk s (reading_accepted e t)).0.devices
    unfolding append written apply
    append-KeepsSecrets s e t = elim (Option-cases (disk s.log (reading_accepted e t))) [
      | inl p ↦
          subst
            (λ w.
              KeepsSecrets s.devices (written f64 crates disk s (reading_accepted e t) w).0.devices)
            (sym p) (touch-KeepsSecrets s.devices e.reading t _ refl)
      | inr (m, p) ↦
          subst
            (λ w.
              KeepsSecrets s.devices (written f64 crates disk s (reading_accepted e t) w).0.devices)
            (sym p) (λ id d h. (d, h, refl))
    ]

    append_all-KeepsSecrets :
        (s : Store f64) (t : ℤ) (n : ℕ) (es : List (Envelope f64))
        → KeepsSecrets s.devices (append_all f64 crates disk s t n es).0.devices
    append_all-KeepsSecrets s t n [] =
        subst (λ (a : Store f64 × Result ℕ Error). KeepsSecrets s.devices a.0.devices)
          (sym (append_all-nil f64 crates disk s t n)) (λ id d h. (d, h, refl))
    append_all-KeepsSecrets s t n (e ∷ es) =
        let at = λ (a : Store f64 × Result ℕ Error). KeepsSecrets s.devices a.0.devices in
        let (s1, wrote) = append f64 crates disk s (reading_accepted e t) in
        let first : KeepsSecrets s.devices s1.devices = append-KeepsSecrets s e t in
        elim (Result-cases wrote) [
          | inl (done, p) ↦
              let rest = append_all-KeepsSecrets s1 t (n + 1) es in
              subst at (sym (append_all-ok f64 crates disk s s1 t n e es (ap (λ q. (s1, q)) p)))
                (λ id d h.
                  let (d1, h1, k1) = first id d h in
                  let (d2, h2, k2) = rest id d1 h1 in (d2, h2, k2 ∙ k1))
          | inr (x, p) ↦
              subst at (sym (append_all-err f64 crates disk s s1 t n e es x (ap (λ q. (s1, q)) p)))
                first
        ]

    authentic-again :
        (s s' : Store f64) (e : Envelope f64)
        → KeepsSecrets s.devices s'.devices
        → authentic f64 crates disk s e ≡ ok tt
        → authentic f64 crates disk s' e ≡ ok tt
    unfolding authentic or_error
    authentic-again s s' e keeps h =
        elim (Option-cases (get text_ord e.reading.device_id s.devices)) [
          | inl p ↦ absurd (ground (arith, h, p))
          | inr (d, p) ↦
              let (d', p', same) = keeps e.reading.device_id d p in rw (p', same) (rw p at h)
        ]

    -- Every envelope of a batch passes its checks, and its identity holds an equal reading.
    abbrev IsConfirmed : Store f64 → Envelope f64 → Type 0
    IsConfirmed s e = (authentic f64 crates disk s e ≡ ok tt) × Kept f64 (stored f64 s.readings) e

    screen-authentic :
        (s : Store f64) (es es' batch : List (Envelope f64))
        → screen f64 crates disk s es batch ≡ ok es'
        → All (λ e. authentic f64 crates disk s e ≡ ok tt) batch
    screen-authentic s es es' [] h = tt
    screen-authentic s es es' (e ∷ batch) h =
        let (a, (mid, t, rest)) = screen-cons f64 crates disk s es es' e batch h in
        (a, screen-authentic s mid es' batch rest)

    confirmed :
        (s s' : Store f64) (batch : List (Envelope f64))
        → KeepsSecrets s.devices s'.devices
        → All (λ e. authentic f64 crates disk s e ≡ ok tt) batch
        → All (Kept f64 (stored f64 s'.readings)) batch
        → All (IsConfirmed s') batch
    confirmed s s' [] keeps a k = tt
    confirmed s s' (e ∷ batch) keeps a k =
        ((authentic-again s s' e keeps a.0, k.0), confirmed s s' batch keeps a.1 k.1)

    screen-IsConfirmed :
        (s : Store f64) (batch : List (Envelope f64))
        → All (IsConfirmed s) batch
        → screen f64 crates disk s [] batch ≡ ok []
    unfolding screen known or_else take_unless
    screen-IsConfirmed s [] h = refl
    screen-IsConfirmed s (e ∷ batch) h =
        rw (h.0.0, h.0.1.1, h.0.1.2) (screen-IsConfirmed s batch h.1)

    ingest-size :
        (s s' : Store f64) (batch : List (Envelope f64)) (t : ℤ) (n : ℕ)
        → ingest f64 crates disk s batch t ≡ (s', ok n)
        → (length batch == 0 || ltb max_batch (length batch)) ≡ false
    unfolding ingest
    ingest-size s s' batch t n h =
        elim (Bool-cases (length batch == 0 || ltb max_batch (length batch))) [
          | inl p ↦
              let bad : err (invalid "batch must contain 1..64 readings") ≡ ok n =
                ap (λ q. q.1) (sym (if_true _ _ p) ∙ h) in
              absurd (ground arith)
          | inr p ↦ p
        ]

    ingest-IsConfirmed :
        (s : Store f64) (batch : List (Envelope f64)) (t : ℤ)
        → (length batch == 0 || ltb max_batch (length batch)) ≡ false
        → count f64 s.readings ≤ max_stored_readings
        → All (IsConfirmed s) batch
        → ingest f64 crates disk s batch t ≡ (s, ok 0)
    unfolding ingest store_screened reading_count
    ingest-IsConfirmed s batch t size fits all =
        let room : ltb max_stored_readings (saturating_add (reading_count f64 s) 0) ≡ false =
          ground arith in
        if_false _ _ size
        ∙ ap (store_screened f64 crates disk s t) (screen-IsConfirmed s batch all)
        ∙ if_false _ _ room
        ∙ append_all-nil f64 crates disk s t 0

    -- In a store whose map of readings is in the order of its keys, an accepted batch is counted
    -- exactly: the number of stored readings grows by the count of the answer and is within the
    -- limit. The same batch sent again, at any time, is accepted with the count zero and leaves the
    -- store as it is.
    pub ingest_again :
        (s s' : Store f64) (batch : List (Envelope f64)) (t t' : ℤ) (n : ℕ)
        → IsSorted text_ord s.readings
        → ingest f64 crates disk s batch t ≡ (s', ok n)
        → (reading_count f64 s' ≡ reading_count f64 s + n)
          × (reading_count f64 s' ≤ max_stored_readings)
          × (ingest f64 crates disk s' batch t' ≡ (s', ok 0))
    unfolding reading_count
    ingest_again s s' batch t t' n sorted h =
        let (es, p, q, room) = ingest-ok f64 crates disk s s' batch t n h in
        let (rs, m) = append_all_lem f64 crates disk s t 0 n es s' q in
        let (fresh, kept, up) = screen_lem f64 crates disk s [] es batch p tt in
        let grown : count f64 s'.readings ≡ count f64 s.readings + length es =
          ap (count f64) rs ∙ count-put_all f64 s.readings es sorted fresh in
        let fits : count f64 s'.readings ≤ max_stored_readings = ground arith in
        let keeps : KeepsSecrets s.devices s'.devices =
          subst (λ (a : Store f64 × Result ℕ Error). KeepsSecrets s.devices a.0.devices) q
            (append_all-KeepsSecrets s t 0 es) in
        let again =
          confirmed s s' batch keeps (screen-authentic s [] es batch p)
            (ingest_confirms f64 crates disk s s' batch t n h) in
        (
          omega (arith, grown, m),
          fits,
          ingest-IsConfirmed s' batch t' (ingest-size s s' batch t n h) fits again,
        )
