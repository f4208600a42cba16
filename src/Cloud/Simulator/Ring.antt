-- ===== src/Cloud/Simulator/Ring.antt =====
-- cloud/src/lib.rs: the ring of readings that `DeviceSimulator` has not seen confirmed.
use fieldbus_control_node.Prelude.{
  ℕ, ◌+◌, ◌-◌, ◌≤◌, ◌≡◌, ◌⊎◌, inl, inr, refl, sym, ap, subst, ◌∙◌, arith, List, [], ◌∷◌, ◌++◌, ltb,
  ◌==◌, if_true, if_false, Bool-cases, length, length-append, take, drop, length-take_le,
  length-take_length_le, ltb→le, drop-add, drop-append, length-drop, drop-length-take, Result, ok,
  err, bind-ok, ℤ,
}
use mathlib.Core.List.{append_assoc, append-nil}
use fieldbus_control_node.Cloud.Map.Orders.{Text}
use fieldbus_control_node.Cloud.Wire.{Float64, Reading, Envelope, Error, max_batch, max_ring}
use fieldbus_control_node.Cloud.Sign.{Crates, signed}
use fieldbus_control_node.Cloud.Simulator.{
  DeviceSimulator, new, reading_of, make_room, sample, reboot, sign_all, settle, submit, sync,
}

module _ (f64 : Float64) where
  -- timestamp_ms, value, quality; or a run of `sync`; or a reboot
  pub data Action : Type 0 where
    sampled : ℤ → f64.F → Text → Action
    synced rebooted : Action

  module _ (crates : Crates f64) {W : Type 0}
      (send : W → List (Envelope f64) → W × Result ℕ Error) where
    unfoldable pub act : DeviceSimulator f64 → W → Action → DeviceSimulator f64 × W
    act d w (sampled t value quality) = (sample f64 d t value quality, w)
    act d w synced = let (d', w', r) = sync f64 crates send d w in (d', w')
    act d w rebooted = (reboot f64 d, w)

    unfoldable pub act_all : DeviceSimulator f64 → W → List Action → DeviceSimulator f64
    act_all d w [] = d
    act_all d w (a ∷ as') = let (d', w') = act d w a in act_all d' w' as'

    -- The readings that the actions take, in order.
    unfoldable pub readings_taken : DeviceSimulator f64 → W → List Action → List (Reading f64)
    readings_taken d w [] = []
    readings_taken d w (a ∷ as') =
        let (d', w') = act d w a in
        let rest = readings_taken d' w' as' in
        elim a [
          | sampled t value quality ↦ reading_of f64 d t value quality ∷ rest
          | synced ↦ rest
          | rebooted ↦ rest
        ]

    length-sign_all :
        (secret : Text) (rs : List (Reading f64)) (es : List (Envelope f64))
        → sign_all f64 crates secret rs ≡ ok es
        → length es ≡ length rs
    unfolding sign_all
    length-sign_all secret [] es h = ground (arith, h)
    length-sign_all secret (r ∷ rs) es h =
        let (e, p, rest) = bind-ok (signed f64 crates secret r) _ es h in
        let (es1, q, last) = bind-ok (sign_all f64 crates secret rs) _ es rest in
        let same : ok (e ∷ es1) ≡ ok es = last in
        ground (arith, length-sign_all secret rs es1 q, same)

    -- What `sync` does to the device: nothing, or the head of the ring goes.
    abbrev pub Synced : DeviceSimulator f64 → DeviceSimulator f64 × W × Result ℕ Error → Type 0
    Synced d out =
        ((x : Error) × (out.0 ≡ d) × (out.2 ≡ err x))
        ⊎ ((n : ℕ) × (out.0 ≡ record d { ring = drop max_batch d.ring })
            × (out.2 ≡ ok n)
            × (n ≤ max_batch))

    settle-Synced :
        (d : DeviceSimulator f64) (w : W) (es : List (Envelope f64)) (r : Result ℕ Error)
        → length es ≡ length (take max_batch d.ring)
        → Synced d (let (d', r') = settle f64 crates d es r in (d', w, r'))
    unfolding settle
    settle-Synced d w es (err x) h = inl (x, refl, refl)
    settle-Synced d w es (ok n) h = elim (Bool-cases (ltb (length es) n)) [
      | inl p ↦ inl (
        _,
        ap (λ (a : DeviceSimulator f64 × Result ℕ Error). a.0) (if_true _ _ p),
        ap (λ (a : DeviceSimulator f64 × Result ℕ Error). a.1) (if_true _ _ p),
      )
      | inr p ↦
          let rest : drop (length es) d.ring ≡ drop max_batch d.ring =
            ap (λ k. drop k d.ring) h ∙ drop-length-take max_batch d.ring in
          inr (
            n,
            ap (λ (a : DeviceSimulator f64 × Result ℕ Error). a.0) (if_false _ _ p)
                ∙ ap (λ r. record d { ring = r }) rest,
            ap (λ (a : DeviceSimulator f64 × Result ℕ Error). a.1) (if_false _ _ p),
            omega (arith, length-take_le max_batch d.ring, h, ltb→le (length es) n p),
          )
    ]

    submit-Synced :
        (d : DeviceSimulator f64) (w : W) (r : Result (List (Envelope f64)) Error)
        → sign_all f64 crates d.secret_hex (take max_batch d.ring) ≡ r
        → Synced d (submit f64 crates send d w r)
    unfolding submit
    submit-Synced d w (err x) h = inl (x, refl, refl)
    submit-Synced d w (ok []) h =
        let none_left = length-sign_all d.secret_hex (take max_batch d.ring) [] h in
        let rest : d.ring ≡ drop max_batch d.ring =
          ap (λ k. drop k d.ring) none_left ∙ drop-length-take max_batch d.ring in
        inr (0, ap (λ r. record d { ring = r }) rest, refl, omega arith)
    submit-Synced d w (ok (e ∷ es)) h =
        let (w', answer) = send w (e ∷ es) in
        settle-Synced d w' (e ∷ es) answer (length-sign_all d.secret_hex _ _ h)

    -- Whatever the server answers, `sync` either fails and keeps every pending reading, or succeeds
    -- with a count of at most a batch and gives up exactly the oldest readings, a batch of them or all.
    pub sync_cases : (d : DeviceSimulator f64) (w : W) → Synced d (sync f64 crates send d w)
    unfolding sync
    sync_cases d w = submit-Synced d w _ refl

    -- The ring is the end of the list of the readings taken.
    abbrev pub Latest : List (Reading f64) → DeviceSimulator f64 → Type 0
    Latest all d =
        (gone : ℕ) × (d.ring ≡ drop gone all)
        × (gone + length d.ring ≡ length all)
        × (length d.ring ≤ max_ring)

    sample-Latest :
        (all : List (Reading f64)) (d : DeviceSimulator f64) (t : ℤ) (value : f64.F)
        (quality : Text)
        → Latest all d
        → Latest (all ++ reading_of f64 d t value quality ∷ []) (sample f64 d t value quality)
    unfolding sample make_room
    sample-Latest all d t value quality (gone, same, count, small) =
        let new = reading_of f64 d t value quality ∷ [] in
        let shape =
          λ (e : DeviceSimulator f64). Latest (all ++ new) (record e { ring = e.ring ++ new }) in
        elim (Bool-cases (length d.ring == max_ring)) [
          | inl full ↦
              let at_full : length d.ring ≡ max_ring = ground (arith, full) in
              subst shape (sym (if_true _ _ full)) (
                gone + 1,
                ap (λ r. r ++ new) (ap (drop 1) same ∙ drop-add gone 1 all)
                    ∙ sym (drop-append (gone + 1) all new (ground (arith, full, count))),
                omega (
                  arith,
                  length-append (drop 1 d.ring) new,
                  length-append all new,
                  length-drop 1 d.ring,
                  count,
                  at_full,
                ),
                omega (arith, length-append (drop 1 d.ring) new, length-drop 1 d.ring, at_full),
              )
          | inr room ↦ subst shape (sym (if_false _ _ room)) (
            gone,
            ap (λ r. r ++ new) same ∙ sym (drop-append gone all new (omega arith)),
            omega (arith, length-append d.ring new, length-append all new, count),
            ground (arith, length-append d.ring new, room, small),
          )
        ]

    synced-Latest :
        (all : List (Reading f64)) (d d' : DeviceSimulator f64)
        → Latest all d
        → d' ≡ record d { ring = drop max_batch d.ring }
        → Latest all d'
    synced-Latest all d d' (gone, same, count, small) h =
        let k = length (take max_batch d.ring) in
        let rest : d'.ring ≡ drop k d.ring =
          ap (λ (e : DeviceSimulator f64). e.ring) h ∙ sym (drop-length-take max_batch d.ring) in
        let left : length d'.ring ≡ length d.ring - k = ap length rest ∙ length-drop k d.ring in
        (
          gone + k,
          rest ∙ ap (drop k) same ∙ drop-add gone k all,
          omega (arith, left, count, length-take_length_le max_batch d.ring),
          omega (arith, left, small),
        )

    reboot-Latest :
        (all : List (Reading f64)) (d : DeviceSimulator f64)
        → Latest all d
        → Latest all (reboot f64 d)
    unfolding reboot
    reboot-Latest all d h = h

    act-Latest :
        (all : List (Reading f64)) (d : DeviceSimulator f64) (w : W) (as' : List Action)
        → Latest all d
        → Latest (all ++ readings_taken d w as') (act_all d w as')
    unfolding act act_all readings_taken
    act-Latest all d w [] h = subst (λ l. Latest l d) (sym (append-nil all)) h
    act-Latest all d w (sampled t value quality ∷ as') h =
        let new = reading_of f64 d t value quality in
        let d' = sample f64 d t value quality in
        subst (λ l. Latest l (act_all d' w as'))
          (append_assoc all (new ∷ []) (readings_taken d' w as'))
          (act-Latest (all ++ new ∷ []) d' w as' (sample-Latest all d t value quality h))
    act-Latest all d w (synced ∷ as') h =
        let out = sync f64 crates send d w in
        elim (sync_cases d w) [
          | inl (x, same, failed) ↦ act-Latest all out.0 out.1 as' (subst (Latest all) (sym same) h)
          | inr (n, same, done, small) ↦
              act-Latest all out.0 out.1 as' (synced-Latest all d out.0 h same)
        ]
    act-Latest all d w (rebooted ∷ as') h =
        act-Latest all (reboot f64 d) w as' (reboot-Latest all d h)

    -- Whatever a server answers, after any samples, runs of `sync` and reboots of a new device: what
    -- is pending is exactly the end of the list of the readings taken, in their order and at most
    -- `MAX_RING` of them.
    pub act_all-Latest :
        (id firmware secret : Text) (boot : ℕ) (w : W) (as' : List Action)
        → Latest
            (readings_taken (new f64 id firmware secret boot) w as')
            (act_all (new f64 id firmware secret boot) w as')
    unfolding new
    act_all-Latest id firmware secret boot w as' =
        act-Latest [] (new f64 id firmware secret boot) w as' (0, refl, refl, omega arith)
