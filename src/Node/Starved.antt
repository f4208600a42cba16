-- ===== src/Node/Starved.antt =====
-- core/src/node.rs: periods in which no frame is accepted.
use fieldbus_control_node.Prelude.{
  ℕ, ◌+◌, ◌^◌, ◌<◌, ◌≤◌, ◌≡◌, refl, ap, ◌∙◌, ◌⊎◌, inl, inr, arith, Option, none, some, List, [],
  ◌∷◌, Result, ok, err,
}
use fieldbus_control_node.J1939.Payload.{Frame, Payload}
use fieldbus_control_node.J1939.Validator.{Validator, Reject, validate_all}
use fieldbus_control_node.J1939.Validator.Accounting.{outcomes, accepted_in}
use fieldbus_control_node.Watchdog.{SafeState, check}
use fieldbus_control_node.Watchdog.Reaction.{
  check_all, check_all-IsPrompt, Periodic, Within, IsPrompt,
}
use fieldbus_control_node.Control.Float.{Float32}
use fieldbus_control_node.Node.{ControlNode, actuate, step}
use fieldbus_control_node.Node.Ingest.{
  fed, watched, checked, step_lem, actuate-keeps, last_accepted,
}
use fieldbus_control_node.Node.Safe.{run}

module _ (fl : Float32) where
  open fl use {F}

  -- None of the frames is accepted, in the order in which they arrive.
  abbrev pub AllRefused : Validator → List Frame → Type 0
  AllRefused v fs = accepted_in (outcomes v fs) ≡ 0

  last_accepted-none :
      (fresh : Option F) (os : List (Result Payload Reject))
      → accepted_in os ≡ 0
      → last_accepted fl fresh os ≡ fresh
  last_accepted-none fresh [] h = refl
  last_accepted-none fresh (ok p ∷ os) h = absurd (omega arith)
  last_accepted-none fresh (err r ∷ os) h = last_accepted-none fresh os h

  actuate-validator :
      (n : ControlNode fl) (v : Validator) (fresh : Option F) (s : Option SafeState)
      → actuate fl (record n { validator = v }) fresh s
        ≡ (record (actuate fl n fresh s).0 { validator = v }, (actuate fl n fresh s).1)
  unfolding actuate
  actuate-validator n v fresh none = refl
  actuate-validator n v fresh (some s) = refl

  -- A period full of frames that are all refused leaves the node as a period of silence does, but
  -- for the validator, and sends the same command, actuator value and safe state.
  pub garbage_is_silence :
      (n : ControlNode fl) (now : ℕ) (fs : List Frame)
      → AllRefused n.validator fs
      → let r = step fl n now fs in
        let q = step fl n now [] in
        (r.0 ≡ record q.0 { validator = r.0.validator })
        × (r.1.command_frame ≡ q.1.command_frame)
        × (r.1.actuator ≡ q.1.actuator)
        × (r.1.safe_state ≡ q.1.safe_state)
  unfolding validate_all
  garbage_is_silence n now fs h =
      rw (step_lem fl n now fs, step_lem fl n now [])
        (rw (h, last_accepted-none none (outcomes n.validator fs) h)
          (rw
            (actuate-validator (record n { watchdog = (check n.watchdog now).0 })
              (validate_all n.validator fs) none (check n.watchdog now).1)
            (refl, refl, refl, refl)))

  -- No period of a run accepts a frame.
  abbrev pub Starved : ControlNode fl → List (ℕ × List Frame) → Type 0
  Starved n [] = Unit {0}
  Starved n ((now, fs) ∷ periods) = AllRefused n.validator fs × Starved (step fl n now fs).0 periods

  abbrev pub times : List (ℕ × List Frame) → List ℕ
  times [] = []
  times ((now, fs) ∷ periods) = now ∷ times periods

  step-watchdog :
      (n : ControlNode fl) (now : ℕ) (fs : List Frame)
      → AllRefused n.validator fs
      → (step fl n now fs).0.watchdog ≡ (check n.watchdog now).0
  step-watchdog n now fs h = rw (step_lem fl n now fs) (
      (actuate-keeps fl (checked fl n now fs) (last_accepted fl none (outcomes n.validator fs))
        (check (watched fl n now fs) now).1).1
      ∙ ap (λ k. (check (fed fl n.watchdog now k) now).0) h)

  run-watchdog :
      (n : ControlNode fl) (periods : List (ℕ × List Frame))
      → Starved n periods
      → (run fl n periods).watchdog ≡ check_all n.watchdog (times periods)
  unfolding run check_all
  run-watchdog n [] h = refl
  run-watchdog n ((now, fs) ∷ periods) h =
      run-watchdog (step fl n now fs).0 periods h.1
      ∙ ap (λ w. check_all w (times periods)) (step-watchdog n now fs h.0)

  -- A node that is not safe and within its budget at `prev`, and then runs periods at most `period`
  -- apart in which nothing is accepted, is either still unlatched with every period within the
  -- budget, or latched with a reaction past the budget by at most one period.
  pub run-IsPrompt :
      (n : ControlNode fl) (period prev : ℕ) (periods : List (ℕ × List Frame))
      → n.watchdog.latched ≡ none
      → n.watchdog.last_seen_us + n.watchdog.timeout_us < 2 ^ 64
      → prev ≤ n.watchdog.last_seen_us + n.watchdog.timeout_us
      → Periodic period prev (times periods)
      → Starved n periods
      → (((run fl n periods).watchdog.latched ≡ none)
          × Within (n.watchdog.last_seen_us + n.watchdog.timeout_us) (times periods))
        ⊎ ((s : SafeState) × ((run fl n periods).watchdog.latched ≡ some s)
            × IsPrompt period n.watchdog s)
  run-IsPrompt n period prev periods e fits before h starved =
      let w = run-watchdog n periods starved in
      elim (check_all-IsPrompt n.watchdog period prev (times periods) e fits before h) [
        | inl (same, all) ↦ inl (ap (λ u. u.latched) (w ∙ same) ∙ e, all)
        | inr (s, l, q) ↦ inr (s, ap (λ u. u.latched) w ∙ l, q)
      ]
