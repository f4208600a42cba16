-- ===== src/Cloud/Ingest/Keeps.antt =====
-- cloud/src/lib.rs: stored readings and refused batches under `ingest`.
use fieldbus_control_node.Prelude.{
  ℕ, ◌+◌, ◌≡◌, sym, ap, ◌∙◌, subst, arith, none, some, List, [], ◌∷◌, length, inl, inr, Result, ok,
  err, ℤ,
}
use fieldbus_control_node.Cloud.Map.Orders.{Text, Key}
use fieldbus_control_node.Cloud.Wire.{Float64, Envelope, Event, reading_accepted, Error}
use fieldbus_control_node.Cloud.Sign.{Crates}
use fieldbus_control_node.Cloud.Store.{Disk, Store, put, stored, append, written}
use fieldbus_control_node.Cloud.Ingest.{append_all, ingest}
use fieldbus_control_node.Cloud.Ingest.Screen.{screen_lem}
use fieldbus_control_node.Cloud.Ingest.Confirm.{
  append-cases, append_all-nil, append_all-ok, append_all-err, ingest-cases,
}
use fieldbus_control_node.Cloud.Ingest.Fresh.{Fresh, stored-put, same_identity_lem}

module _ (f64 : Float64) where
  module _ (crates : Crates f64) (disk : Disk f64) where
    append_all-keeps :
        (s : Store f64) (t : ℤ) (n : ℕ) (es : List (Envelope f64)) (id : Text) (key : Key)
        (p : Envelope f64)
        → Fresh f64 s.readings es
        → stored f64 s.readings id key ≡ some p
        → stored f64 (append_all f64 crates disk s t n es).0.readings id key ≡ some p
    append_all-keeps s t n [] id key p fr h =
        ap (λ (a : Store f64 × Result ℕ Error). stored f64 a.0.readings id key)
          (append_all-nil f64 crates disk s t n)
        ∙ h
    append_all-keeps s t n (e ∷ es) id key p fr h =
        let at = λ (a : Store f64 × Result ℕ Error). stored f64 a.0.readings id key in
        elim (append-cases f64 crates disk s e t) [
          | inl (s1, q, rs) ↦
              let fr1 = subst (λ r. Fresh f64 r es) (sym rs) fr.1 in
              let kept : stored f64 (put f64 s.readings e) id key ≡ some p = ground (
                arith,
                h,
                fr.0,
                stored-put f64 s.readings e id key,
                same_identity_lem f64 e id key,
              ) in
              ap at (append_all-ok f64 crates disk s s1 t n e es q)
              ∙ append_all-keeps s1 t (n + 1) es id key p fr1
                  (ap (λ r. stored f64 r id key) rs ∙ kept)
          | inr (s1, x, q, rs) ↦
              ap at (append_all-err f64 crates disk s s1 t n e es x q)
              ∙ ap (λ r. stored f64 r id key) rs
              ∙ h
        ]

    -- A stored reading is never replaced or lost: whatever a batch contains, whatever `ingest`
    -- answers and wherever the disk fails, it is still under its identity afterwards.
    pub ingest_keeps :
        (s : Store f64) (batch : List (Envelope f64)) (t : ℤ) (id : Text) (key : Key)
        (p : Envelope f64)
        → stored f64 s.readings id key ≡ some p
        → stored f64 (ingest f64 crates disk s batch t).0.readings id key ≡ some p
    ingest_keeps s batch t id key p h =
        let at = λ (a : Store f64 × Result ℕ Error). stored f64 a.0.readings id key in
        elim (ingest-cases f64 crates disk s batch t) [
          | inl (x, q) ↦ ap at q ∙ h
          | inr (es, q, run) ↦
              ap at run
              ∙ append_all-keeps s t 0 es id key p (screen_lem f64 crates disk s [] es batch q tt).0
                  h
        ]

    append-reliable :
        (s : Store f64) (e : Envelope f64) (t : ℤ)
        → ((log : List (Event f64)) (event : Event f64) → disk log event ≡ none)
        → (s' : Store f64) × (append f64 crates disk s (reading_accepted e t) ≡ (s', ok tt))
    unfolding append written
    append-reliable s e t ready = (
      _,
      ap (written f64 crates disk s (reading_accepted e t)) (ready s.log (reading_accepted e t)),
    )

    append_all-reliable :
        (s : Store f64) (t : ℤ) (n : ℕ) (es : List (Envelope f64))
        → ((log : List (Event f64)) (event : Event f64) → disk log event ≡ none)
        → (append_all f64 crates disk s t n es).1 ≡ ok (n + length es)
    append_all-reliable s t n [] ready =
        ap (λ (a : Store f64 × Result ℕ Error). a.1) (append_all-nil f64 crates disk s t n)
        ∙ ap ok (omega arith)
    append_all-reliable s t n (e ∷ es) ready =
        let (s1, q) = append-reliable s e t ready in
        ap (λ (a : Store f64 × Result ℕ Error). a.1) (append_all-ok f64 crates disk s s1 t n e es q)
        ∙ append_all-reliable s1 t (n + 1) es ready
        ∙ ap ok (omega arith)

    -- While the disk takes every write, a batch that `ingest` refuses leaves the whole store as it
    -- was, whatever part of the batch was acceptable.
    pub ingest_refuses_whole :
        (s s' : Store f64) (batch : List (Envelope f64)) (t : ℤ) (x : Error)
        → ((log : List (Event f64)) (event : Event f64) → disk log event ≡ none)
        → ingest f64 crates disk s batch t ≡ (s', err x)
        → s' ≡ s
    ingest_refuses_whole s s' batch t x ready h = elim (ingest-cases f64 crates disk s batch t) [
      | inl (y, q) ↦ ap (λ (a : Store f64 × Result ℕ Error). a.0) (sym h ∙ q)
      | inr (es, q, run) ↦
          let bad : err x ≡ ok (0 + length es) =
            ap (λ (a : Store f64 × Result ℕ Error). a.1) (sym h ∙ run)
            ∙ append_all-reliable s t 0 es ready in
          absurd (ground arith)
    ]
