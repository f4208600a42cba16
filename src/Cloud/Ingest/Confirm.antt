-- ===== src/Cloud/Ingest/Confirm.antt =====
-- cloud/src/lib.rs: what an accepted batch leaves in the store.
use fieldbus_control_node.Prelude.{
  ℕ, ◌+◌, ◌≤◌, ◌≡◌, refl, sym, ap, ◌∙◌, arith, ◌||◌, List, [], ◌∷◌, ◌==◌, ltb, length, All, All-map,
  if_true, if_false, Bool-cases, Option-cases, inl, inr, ◌⊎◌, Result, ok, err, Result-cases, ℤ,
  saturating_add,
}
use fieldbus_control_node.Cloud.Wire.{
  Float64, Envelope, reading_accepted, Error, invalid, conflict, max_batch, max_stored_readings,
}
use fieldbus_control_node.Cloud.Sign.{Crates}
use fieldbus_control_node.Cloud.Store.{
  Disk, Store, key_of, put, stored, append, written, apply, reading_count,
}
use fieldbus_control_node.Cloud.Ingest.{screen, append_all, store_screened, ingest}
use fieldbus_control_node.Cloud.Ingest.Screen.{Kept, screen_lem}
use fieldbus_control_node.Cloud.Ingest.Fresh.{put_all, stored-put_all}

module _ (f64 : Float64) where
  module _ (crates : Crates f64) (disk : Disk f64) where
    -- One appended reading: the store with it, or the store as it was.
    pub append-cases :
        (s : Store f64) (e : Envelope f64) (t : ℤ)
        → ((s' : Store f64) × (append f64 crates disk s (reading_accepted e t) ≡ (s', ok tt))
            × (s'.readings ≡ put f64 s.readings e))
          ⊎ ((s' : Store f64) × (x : Error) × (append f64 crates disk s (reading_accepted e t)
                ≡ (s', err x))
              × (s'.readings ≡ s.readings))
    unfolding append written apply
    append-cases s e t = elim (Option-cases (disk s.log (reading_accepted e t))) [
      | inl p ↦ inl (_, ap (written f64 crates disk s (reading_accepted e t)) p, refl)
      | inr (m, p) ↦ inr (_, _, ap (written f64 crates disk s (reading_accepted e t)) p, refl)
    ]

    -- What the loop does after one append.
    abbrev continue :
        ℤ
        → ℕ
        → List (Envelope f64)
        → Store f64 × Result (Unit {0}) Error
        → Store f64 × Result ℕ Error
    continue t n es (s, ok done) = append_all f64 crates disk s t (n + 1) es
    continue t n es (s, err x) = (s, err x)

    pub append_all-nil :
        (s : Store f64) (t : ℤ) (n : ℕ) → append_all f64 crates disk s t n [] ≡ (s, ok n)
    unfolding append_all
    append_all-nil s t n = refl

    pub append_all-ok :
        (s s1 : Store f64) (t : ℤ) (n : ℕ) (e : Envelope f64) (es : List (Envelope f64))
        → append f64 crates disk s (reading_accepted e t) ≡ (s1, ok tt)
        → append_all f64 crates disk s t n (e ∷ es) ≡ append_all f64 crates disk s1 t (n + 1) es
    unfolding append_all
    append_all-ok s s1 t n e es p = ap (continue t n es) p

    pub append_all-err :
        (s s1 : Store f64) (t : ℤ) (n : ℕ) (e : Envelope f64) (es : List (Envelope f64)) (x : Error)
        → append f64 crates disk s (reading_accepted e t) ≡ (s1, err x)
        → append_all f64 crates disk s t n (e ∷ es) ≡ (s1, err x)
    unfolding append_all
    append_all-err s s1 t n e es x p = ap (continue t n es) p

    pub append_all_lem :
        (s : Store f64) (t : ℤ) (n m : ℕ) (es : List (Envelope f64)) (s' : Store f64)
        → append_all f64 crates disk s t n es ≡ (s', ok m)
        → (s'.readings ≡ put_all f64 s.readings es) × (m ≡ n + length es)
    unfolding put_all
    append_all_lem s t n m [] s' h =
        let h' = sym (append_all-nil s t n) ∙ h in
        ground (arith, ap (λ p. p.0.readings) h', ap (λ p. p.1) h')
    append_all_lem s t n m (e ∷ es) s' h = elim (append-cases s e t) [
      | inl (s1, p, q) ↦
          let (rs, c) =
            append_all_lem s1 t (n + 1) m es s' (sym (append_all-ok s s1 t n e es p) ∙ h) in
          (rs ∙ ap (λ r. put_all f64 r es) q, omega (arith, c))
      | inr (s1, x, p, q) ↦
          let bad : err x ≡ ok m = ap (λ p. p.1) (sym (append_all-err s s1 t n e es x p) ∙ h) in
          ground arith
    ]

    stored_screened :
        (s s' : Store f64) (t : ℤ) (n : ℕ) (r : Result (List (Envelope f64)) Error)
        → store_screened f64 crates disk s t r ≡ (s', ok n)
        → (es : List (Envelope f64)) × (r ≡ ok es)
          × (append_all f64 crates disk s t 0 es ≡ (s', ok n))
          × (saturating_add (reading_count f64 s) (length es) ≤ max_stored_readings)
    unfolding store_screened
    stored_screened s s' t n (err x) h =
        let bad : err x ≡ ok n = ap (λ p. p.1) h in absurd (ground arith)
    stored_screened s s' t n (ok es) h =
        elim (Bool-cases
          (ltb max_stored_readings (saturating_add (reading_count f64 s) (length es)))) [
            | inl p ↦
                let bad : err conflict ≡ ok n = ap (λ q. q.1) (sym (if_true _ _ p) ∙ h) in
                absurd (ground arith)
            | inr p ↦ (es, refl, sym (if_false _ _ p) ∙ h, ground arith)
          ]

    -- An accepted batch went through the checks, found room and was written.
    pub ingest-ok :
        (s s' : Store f64) (batch : List (Envelope f64)) (t : ℤ) (n : ℕ)
        → ingest f64 crates disk s batch t ≡ (s', ok n)
        → (es : List (Envelope f64)) × (screen f64 crates disk s [] batch ≡ ok es)
          × (append_all f64 crates disk s t 0 es ≡ (s', ok n))
          × (saturating_add (reading_count f64 s) (length es) ≤ max_stored_readings)
    unfolding ingest
    ingest-ok s s' batch t n h =
        elim (Bool-cases (length batch == 0 || ltb max_batch (length batch))) [
          | inl p ↦
              let bad : err (invalid "batch must contain 1..64 readings") ≡ ok n =
                ap (λ q. q.1) (sym (if_true _ _ p) ∙ h) in
              absurd (ground arith)
          | inr p ↦
              stored_screened s s' t n (screen f64 crates disk s [] batch)
                (sym (if_false _ _ p) ∙ h)
        ]

    -- Whatever the disk does, a batch that `ingest` accepts is on record as a whole: the identity of
    -- each of its envelopes holds a reading equal to the envelope's.
    pub ingest_confirms :
        (s s' : Store f64) (batch : List (Envelope f64)) (t : ℤ) (n : ℕ)
        → ingest f64 crates disk s batch t ≡ (s', ok n)
        → All (Kept f64 (stored f64 s'.readings)) batch
    ingest_confirms s s' batch t n h =
        let (es, p, q, room) = ingest-ok s s' batch t n h in
        let (fr, kept, up) = screen_lem f64 crates disk s [] es batch p tt in
        let rs = (append_all_lem s t 0 n es s' q).0 in
        All-map
          (λ e k. (
            k.0,
            ap (λ r. stored f64 r e.reading.device_id (key_of f64 e.reading)) rs
                ∙ stored-put_all f64 s.readings es _ _ fr
                ∙ k.1,
            k.2,
          ))
          batch kept

    pub ingest-cases :
        (s : Store f64) (batch : List (Envelope f64)) (t : ℤ)
        → ((x : Error) × (ingest f64 crates disk s batch t ≡ (s, err x)))
          ⊎ ((es : List (Envelope f64)) × (screen f64 crates disk s [] batch ≡ ok es)
              × (ingest f64 crates disk s batch t ≡ append_all f64 crates disk s t 0 es))
    unfolding ingest store_screened
    ingest-cases s batch t = elim (Bool-cases (length batch == 0 || ltb max_batch (length batch))) [
      | inl p ↦ inl (_, if_true _ _ p)
      | inr p ↦ elim (Result-cases (screen f64 crates disk s [] batch)) [
        | inr (x, q) ↦ inl (x, if_false _ _ p ∙ ap (store_screened f64 crates disk s t) q)
        | inl (es, q) ↦
            elim (Bool-cases
              (ltb max_stored_readings (saturating_add (reading_count f64 s) (length es)))) [
                | inl full ↦ inl (
                  _,
                  if_false _ _ p ∙ ap (store_screened f64 crates disk s t) q ∙ if_true _ _ full,
                )
                | inr room ↦ inr (
                  es,
                  q,
                  if_false _ _ p ∙ ap (store_screened f64 crates disk s t) q ∙ if_false _ _ room,
                )
              ]
      ]
    ]
