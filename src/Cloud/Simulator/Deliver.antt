-- ===== src/Cloud/Simulator/Deliver.antt =====
-- cloud/src/lib.rs: `DeviceSimulator::sync` with `Store::ingest` as the server.
use fieldbus_control_node.Prelude.{
  ℕ, ◌≡◌, refl, ap, arith, true, some, List, [], ◌∷◌, ◌++◌, ◌⊎◌, take, take-drop, All, Result, ok,
  err, ℤ, bind-ok, Result-cases, subst, sym, ◌∙◌, inl, inr,
}
use fieldbus_control_node.Cloud.Wire.{Float64, Reading, Envelope, Error, eq_reading, max_batch}
use fieldbus_control_node.Cloud.Map.Orders.{Text}
use fieldbus_control_node.Cloud.Sign.{Crates, signed, sign}
use fieldbus_control_node.Cloud.Store.{Store, Disk, stored, key_of}
use fieldbus_control_node.Cloud.Ingest.{ingest}
use fieldbus_control_node.Cloud.Ingest.Screen.{Kept}
use fieldbus_control_node.Cloud.Ingest.Confirm.{ingest_confirms}
use fieldbus_control_node.Cloud.Simulator.Ring.{sync_cases}
use fieldbus_control_node.Cloud.Simulator.{DeviceSimulator, sign_all, settle, submit, sync}

module _ (f64 : Float64) where
  -- The reading's identity holds an equal reading.
  abbrev pub Delivered : Store f64 → Reading f64 → Type 0
  Delivered s r =
      (prior : Envelope f64) × (stored f64 s.readings r.device_id (key_of f64 r) ≡ some prior)
      × (eq_reading f64 prior.reading r ≡ true)

  module _ (crates : Crates f64) (disk : Disk f64) (t : ℤ) where
    signed-reading :
        (secret : Text) (r : Reading f64) (e : Envelope f64)
        → signed f64 crates secret r ≡ ok e
        → e.reading ≡ r
    unfolding signed
    signed-reading secret r e h =
        let (sig, p, same) = bind-ok (sign f64 crates secret r) _ e h in
        let read : Result (Envelope f64) Error → Reading f64 =
          λ x. elim x [ ok e' ↦ e'.reading | err y ↦ r ] in
        ap read (sym same)

    sign_all-Delivered :
        (s : Store f64) (secret : Text) (rs : List (Reading f64)) (es : List (Envelope f64))
        → sign_all f64 crates secret rs ≡ ok es
        → All (Kept f64 (stored f64 s.readings)) es
        → All (Delivered s) rs
    unfolding sign_all
    sign_all-Delivered s secret [] es h k = tt
    sign_all-Delivered s secret (r ∷ rs) es h k =
        let (e, p, rest) = bind-ok (signed f64 crates secret r) _ es h in
        let (es1, q, last) = bind-ok (sign_all f64 crates secret rs) _ es rest in
        let same : e ∷ es1 ≡ es = ground (arith, last) in
        let k' = subst (All (Kept f64 (stored f64 s.readings))) (sym same) k in
        (
          subst (Delivered s) (signed-reading secret r e p) k'.0,
          sign_all-Delivered s secret rs es1 q k'.1,
        )

    -- The store as the server that `sync` sends its batch to.
    unfoldable pub post : Store f64 → List (Envelope f64) → Store f64 × Result ℕ Error
    post s es = ingest f64 crates disk s es t

    submit-Delivered :
        (d d' : DeviceSimulator f64) (s s' : Store f64) (n : ℕ)
        (r : Result (List (Envelope f64)) Error)
        → sign_all f64 crates d.secret_hex (take max_batch d.ring) ≡ r
        → submit f64 crates post d s r ≡ (d', s', ok n)
        → All (Delivered s') (take max_batch d.ring)
    unfolding submit settle post
    submit-Delivered d d' s s' n (err x) e h =
        let bad : err x ≡ ok n = ap (λ a. a.2) h in absurd (ground arith)
    submit-Delivered d d' s s' n (ok []) e h = sign_all-Delivered s' d.secret_hex _ [] e tt
    submit-Delivered d d' s s' n (ok (x ∷ es)) e h =
        let (w, answer) = ingest f64 crates disk s (x ∷ es) t in
        let same : w ≡ s' = ap (λ a. a.1) h in
        elim (Result-cases answer) [
          | inl (m, p) ↦
              let kept = ingest_confirms f64 crates disk s w (x ∷ es) t m (ap (λ a. (w, a)) p) in
              sign_all-Delivered s' d.secret_hex _ (x ∷ es) e
                (subst (λ u. All (Kept f64 (stored f64 u.readings)) (x ∷ es)) same kept)
          | inr (y, p) ↦
              let bad : err y ≡ ok n =
                ap (λ a. (settle f64 crates d (x ∷ es) a).1) (sym p) ∙ ap (λ a. a.2) h in
              absurd (ground arith)
        ]

    sync-taken :
        (d d' : DeviceSimulator f64) (s s' : Store f64) (n : ℕ)
        → sync f64 crates post d s ≡ (d', s', ok n)
        → All (Delivered s') (take max_batch d.ring)
    unfolding sync
    sync-taken d d' s s' n h = submit-Delivered d d' s s' n _ refl h

    -- What a device gives up is on record: whatever the store answers to `sync`, the ring that the
    -- device had is what it gave up with the ring that it keeps behind it, and each reading given up
    -- is in the store under its identity, with equal contents. After an error nothing is given up,
    -- and after a success the oldest 64 readings, or all of fewer, are.
    pub sync-Delivered :
        (d : DeviceSimulator f64) (s : Store f64)
        → let (d', s', r) = sync f64 crates post d s in
          (gone : List (Reading f64)) × (d.ring ≡ gone ++ d'.ring)
          × All (Delivered s') gone
          × (((x : Error) × (r ≡ err x) × (gone ≡ []))
              ⊎ ((n : ℕ) × (r ≡ ok n) × (gone ≡ take 64 d.ring)))
    sync-Delivered d s =
        let (d', s', r) = sync f64 crates post d s in
        elim (sync_cases f64 crates post d s) [
          | inl (x, same, e) ↦
              ([], ap (λ (c : DeviceSimulator f64). c.ring) (sym same), tt, inl (x, e, refl))
          | inr (n, same, e, small) ↦ (
            take max_batch d.ring,
            take-drop max_batch d.ring
                ∙ ap (λ (c : DeviceSimulator f64). take max_batch d.ring ++ c.ring) (sym same),
            sync-taken d d' s s' n (ap (λ q. (d', s', q)) e),
            inr (n, e, refl),
          )
        ]
