-- ===== src/Cloud/Store/Recovery.antt =====
-- cloud/src/lib.rs: the store that `Store::open` rebuilds from the file.
use fieldbus_control_node.Prelude.{
  ℕ, ◌≡◌, refl, sym, ap, subst, if_lem, ◌+◌, ◌∙◌, arith, Bool, true, false, Option, some, List, [],
  ◌∷◌, ◌++◌, Option-cases, inl, inr, ◌==◌, ◌||◌, not, length, ltb, Result, ok, err, Result-cases, ℤ,
}
use fieldbus_control_node.Cloud.Map.Orders.{Text}
use fieldbus_control_node.Cloud.Wire.{
  Float64, Envelope, Event, registered, credential_rotated, reading_accepted, firmware_published,
  config_published, Error, FirmwareMetadata, ConfigMetadata,
}
use fieldbus_control_node.Cloud.Sign.{Crates}
use fieldbus_control_node.Cloud.Store.{
  Store, Disk, apply, replay, empty, open_log, written, append, commit, register, register_check,
  rotate_credential, rotate_check, publish_firmware, publish_config,
}
use fieldbus_control_node.Cloud.Ingest.{ingest, append_all}
use fieldbus_control_node.Cloud.Ingest.Confirm.{
  append_all-nil, append_all-ok, append_all-err, ingest-cases,
}

module _ (f64 : Float64) where
  -- The store is what its log comes to.
  abbrev pub IsDurable : Store f64 → Type 0
  IsDurable s = open_log f64 s.log ≡ s

  abbrev pub with_log : Store f64 → List (Event f64) → Store f64
  with_log s log = record s { log = log }

  pub replay-append :
      (s : Store f64) (es : List (Event f64)) (e : Event f64)
      → replay f64 s (es ++ e ∷ []) ≡ apply f64 (replay f64 s es) e
  unfolding replay
  replay-append s [] e = refl
  replay-append s (x ∷ es) e = replay-append (apply f64 s x) es e

  apply-with_log :
      (s : Store f64) (log : List (Event f64)) (e : Event f64)
      → apply f64 (with_log s log) e ≡ with_log (apply f64 s e) log
  unfolding apply
  apply-with_log s log (registered d) = refl
  apply-with_log s log (credential_rotated d) = refl
  apply-with_log s log (reading_accepted e t) = refl
  apply-with_log s log (firmware_published m) = refl
  apply-with_log s log (config_published m) = refl

  apply-log : (s : Store f64) (e : Event f64) → (apply f64 s e).log ≡ s.log
  unfolding apply
  apply-log s (registered d) = refl
  apply-log s (credential_rotated d) = refl
  apply-log s (reading_accepted e t) = refl
  apply-log s (firmware_published m) = refl
  apply-log s (config_published m) = refl

  replay-with_log :
      (s : Store f64) (log es : List (Event f64))
      → replay f64 (with_log s log) es ≡ with_log (replay f64 s es) log
  unfolding replay
  replay-with_log s log [] = refl
  replay-with_log s log (e ∷ es) =
      ap (λ t. replay f64 t es) (apply-with_log s log e) ∙ replay-with_log (apply f64 s e) log es

  empty-with_log : (log log' : List (Event f64)) → empty f64 log' ≡ with_log (empty f64 log) log'
  unfolding empty
  empty-with_log log log' = refl

  open_log-empty :
      (log : List (Event f64)) → open_log f64 log ≡ with_log (replay f64 (empty f64 []) log) log
  unfolding open_log
  open_log-empty log =
      ap (λ t. replay f64 t log) (empty-with_log [] log) ∙ replay-with_log (empty f64 []) log log

  pub apply-IsDurable :
      (s : Store f64) (e : Event f64)
      → IsDurable s
      → IsDurable (apply f64 (record s { log = s.log ++ e ∷ [] }) e)
  unfolding open_log
  apply-IsDurable s e h =
      let log' = s.log ++ e ∷ [] in
      let s' : Store f64 = record s { log = log' } in
      ap (open_log f64) (apply-log s' e)
      ∙ ap (λ t. replay f64 t log') (empty-with_log s.log log')
      ∙ replay-append (with_log (empty f64 s.log) log') s.log e
      ∙ ap (λ t. apply f64 t e) (replay-with_log (empty f64 s.log) log' s.log)
      ∙ ap (λ t. apply f64 (with_log t log') e) h

  replay-log : (s : Store f64) (es : List (Event f64)) → (replay f64 s es).log ≡ s.log
  unfolding replay
  replay-log s [] = refl
  replay-log s (e ∷ es) = replay-log (apply f64 s e) es ∙ apply-log s e

  log_kept : (log : List (Event f64)) → (open_log f64 log).log ≡ log
  unfolding open_log empty
  log_kept log = replay-log (empty f64 log) log

  replay-empty-log : (log : List (Event f64)) → (replay f64 (empty f64 []) log).log ≡ []
  unfolding empty
  replay-empty-log log = replay-log (empty f64 []) log

  open_log-IsDurable : (log : List (Event f64)) → IsDurable (open_log f64 log)
  open_log-IsDurable log = ap (open_log f64) (log_kept log)

  -- The requests that change the store.
  pub data Request : Type 0 where
    -- device_id, secret_hex, firmware_version
    register_device : Text → Text → Text → Request
    rotate : Text → Text → Request
    -- batch, received_ms
    ingest_batch : List (Envelope f64) → ℤ → Request
    firmware : FirmwareMetadata → Request
    config : ConfigMetadata → Request

  module _ (crates : Crates f64) (disk : Disk f64) where
    unfoldable pub serve : Store f64 → Request → Store f64
    serve s (register_device id secret_hex version) =
        (register f64 crates disk s id secret_hex version).0
    serve s (rotate id secret_hex) = (rotate_credential f64 crates disk s id secret_hex).0
    serve s (ingest_batch batch t) = (ingest f64 crates disk s batch t).0
    serve s (firmware m) = (publish_firmware f64 crates disk s m).0
    serve s (config m) = (publish_config f64 crates disk s m).0

    unfoldable pub serve_all : Store f64 → List Request → Store f64
    serve_all s [] = s
    serve_all s (q ∷ qs) = serve_all (serve s q) qs

    -- A failed write leaves no line behind.
    abbrev pub IsClean : Type 0
    IsClean =
        (log : List (Event f64)) (e : Event f64) (x : Error) (left : Bool)
        → disk log e ≡ some (x, left)
        → left ≡ false

    append-IsDurable :
        (s : Store f64) (e : Event f64)
        → IsClean
        → IsDurable s
        → IsDurable (append f64 crates disk s e).0
    unfolding append written
    append-IsDurable s e clean h =
        let at = λ (w : Option (Error × Bool)). IsDurable (written f64 crates disk s e w).0 in
        elim (Option-cases (disk s.log e)) [
          | inl p ↦ subst at (sym p) (apply-IsDurable s e h)
          | inr ((x, false), p) ↦ subst at (sym p) h
          | inr ((x, true), p) ↦
              let bad : true ≡ false = clean s.log e x true p in absurd (ground arith)
        ]

    commit-IsDurable :
        {A : Type 0} (s : Store f64) (r : Result (Event f64 × A) Error)
        → IsClean
        → IsDurable s
        → IsDurable (commit f64 crates disk s r).0
    unfolding commit
    commit-IsDurable s (err x) clean h = h
    commit-IsDurable s (ok (e, a)) clean h = append-IsDurable s e clean h

    append_all-IsDurable :
        (s : Store f64) (t : ℤ) (n : ℕ) (es : List (Envelope f64))
        → IsClean
        → IsDurable s
        → IsDurable (append_all f64 crates disk s t n es).0
    append_all-IsDurable s t n [] clean h =
        subst (λ (a : Store f64 × Result ℕ Error). IsDurable a.0)
          (sym (append_all-nil f64 crates disk s t n)) h
    append_all-IsDurable s t n (e ∷ es) clean h =
        let at = λ (a : Store f64 × Result ℕ Error). IsDurable a.0 in
        let (s1, r) = append f64 crates disk s (reading_accepted e t) in
        let h1 : IsDurable s1 = append-IsDurable s (reading_accepted e t) clean h in
        elim (Result-cases r) [
          | inl (done, p) ↦
              subst at (sym (append_all-ok f64 crates disk s s1 t n e es (ap (λ q. (s1, q)) p)))
                (append_all-IsDurable s1 t (n + 1) es clean h1)
          | inr (x, p) ↦
              subst at (sym (append_all-err f64 crates disk s s1 t n e es x (ap (λ q. (s1, q)) p)))
                h1
        ]

    serve-IsDurable : (s : Store f64) (q : Request) → IsClean → IsDurable s → IsDurable (serve s q)
    unfolding serve register rotate_credential publish_firmware publish_config
    serve-IsDurable s (register_device id secret_hex version) clean h =
        commit-IsDurable s (register_check f64 crates disk s id secret_hex version) clean h
    serve-IsDurable s (rotate id secret_hex) clean h =
        commit-IsDurable s (rotate_check f64 crates disk s id secret_hex) clean h
    serve-IsDurable s (ingest_batch batch t) clean h =
        let at = λ (a : Store f64 × Result ℕ Error). IsDurable a.0 in
        elim (ingest-cases f64 crates disk s batch t) [
          | inl (x, p) ↦ subst at (sym p) h
          | inr (es, p, run) ↦ subst at (sym run) (append_all-IsDurable s t 0 es clean h)
        ]
    serve-IsDurable s (firmware m) clean h =
        if_lem (λ (a : Store f64 × Result (Unit {0}) Error). IsDurable a.0)
          (length m.version == 0 || not (length m.sha256 == 64)) h
          (append-IsDurable s (firmware_published m) clean h)
    serve-IsDurable s (config m) clean h =
        if_lem (λ (a : Store f64 × Result (Unit {0}) Error). IsDurable a.0)
          (m.sample_period_ms == 0 || ltb m.stale_after_ms m.sample_period_ms) h
          (append-IsDurable s (config_published m) clean h)

    serve_all-IsDurable :
        (s : Store f64) (qs : List Request) → IsClean → IsDurable s → IsDurable (serve_all s qs)
    unfolding serve_all
    serve_all-IsDurable s [] clean h = h
    serve_all-IsDurable s (q ∷ qs) clean h =
        serve_all-IsDurable (serve s q) qs clean (serve-IsDurable s q clean h)

    pub serve_all-replay :
        (log : List (Event f64)) (qs : List Request)
        → IsClean
        → let s = serve_all (with_log (replay f64 (empty f64 []) log) log) qs in
          replay f64 (empty f64 []) s.log ≡ with_log s []
    serve_all-replay log qs clean =
        let s = serve_all (with_log (replay f64 (empty f64 []) log) log) qs in
        let read = replay f64 (empty f64 []) s.log in
        let durable : IsDurable s =
          subst (λ t. IsDurable (serve_all t qs)) (open_log-empty log)
            (serve_all-IsDurable (open_log f64 log) qs clean (open_log-IsDurable log)) in
        ap (with_log read) (replay-empty-log s.log)
        ∙ ap (λ t. with_log t []) (sym (open_log-empty s.log) ∙ durable)
