-- ===== src/Node/Ingest.antt =====
-- core/src/node.rs: the receive loop of `step`, in terms of the outcomes of its frames.
use fieldbus_control_node.Prelude.{
  ℕ, zero, suc, ◌≡◌, refl, sym, ap, ◌∙◌, arith, ◌+◌, u8, if◌then◌else◌, Option, none, some, List,
  [], ◌∷◌, Result, ok, err, Result-cases, inl, inr,
}
use fieldbus_control_node.J1939.Payload.{Frame, Payload, command_frame, status_ok, status_safe}
use fieldbus_control_node.J1939.Validator.{Reject, classify, record_outcome, validate, validate_all}
use fieldbus_control_node.J1939.Validator.Accounting.{outcomes, accepted_in}
use fieldbus_control_node.Watchdog.{Watchdog, SafeState, feed, check}
use fieldbus_control_node.Watchdog.Latch.{check-keeps}
use fieldbus_control_node.Control.Float.{Float32}
use fieldbus_control_node.Node.{
  ControlNode, StepOutput, take_outcome, ingest, actuate, step, is_some,
}

pub feed-feed : (w : Watchdog) (t : ℕ) → feed (feed w t) t ≡ feed w t
unfolding feed
feed-feed w t = ground arith

module _ (fl : Float32) where
  open fl use {F, of_i16, to_i16}

  -- The value of the last accepted frame, if there is one.
  abbrev pub last_accepted : Option F → List (Result Payload Reject) → Option F
  last_accepted fresh [] = fresh
  last_accepted fresh (ok p ∷ os) = last_accepted (some (of_i16 p.value)) os
  last_accepted fresh (err r ∷ os) = last_accepted fresh os

  -- Fed once at the period's time when a frame was accepted, and otherwise left alone.
  abbrev pub fed : Watchdog → ℕ → ℕ → Watchdog
  fed w now_us zero = w
  fed w now_us (suc accepted) = feed w now_us

  fed-feed : (w : Watchdog) (t k : ℕ) → fed (feed w t) t k ≡ feed w t
  fed-feed w t zero = refl
  fed-feed w t (suc k) = feed-feed w t

  -- One period's receive loop: the validator sees every frame, in order; the watchdog is fed
  -- exactly when at least one was accepted; the fresh value is that of the last accepted one; and
  -- nothing else of the node changes.
  pub ingest_lem :
      (n : ControlNode fl) (fresh : Option F) (now : ℕ) (fs : List Frame)
      → let os = outcomes n.validator fs in
        ingest fl n fresh now fs ≡ (
          record n {
            validator = validate_all n.validator fs;
            watchdog = fed n.watchdog now (accepted_in os);
          },
          last_accepted fresh os,
        )
  unfolding ingest validate_all validate take_outcome
  ingest_lem n fresh now [] = refl
  ingest_lem n fresh now (f ∷ fs) = elim (Result-cases (classify n.validator f)) [
    | inl (p, e) ↦
        let n' = record n {
          validator = record_outcome n.validator (ok p);
          watchdog = feed n.watchdog now;
        } in
        let rest = ingest_lem n' (some (of_i16 p.value)) now fs in
        let k = accepted_in (outcomes n'.validator fs) in
        rw e (
          rest
          ∙ ap
              (λ w. (
                record n' { validator = validate_all n'.validator fs; watchdog = w },
                last_accepted (some (of_i16 p.value)) (outcomes n'.validator fs),
              ))
              (fed-feed n.watchdog now k))
    | inr (r, e) ↦
        rw e (ingest_lem (record n { validator = record_outcome n.validator (err r) }) fresh now fs)
  ]

  -- The control law leaves the validator, the watchdog and the sequence number alone.
  pub actuate-keeps :
      (n : ControlNode fl) (fresh : Option F) (s : Option SafeState)
      → let n' = (actuate fl n fresh s).0 in
        (n'.validator ≡ n.validator)
        × (n'.watchdog ≡ n.watchdog)
        × (n'.tx_seq ≡ n.tx_seq)
        × (n'.setpoint ≡ n.setpoint)
  unfolding actuate
  actuate-keeps n fresh none = (refl, refl, refl, refl)
  actuate-keeps n fresh (some s) = (refl, refl, refl, refl)

  -- The watchdog of a period, after the frames and before the check.
  abbrev pub watched : ControlNode fl → ℕ → List Frame → Watchdog
  watched n now fs = fed n.watchdog now (accepted_in (outcomes n.validator fs))

  -- The node that the control law runs on.
  abbrev pub checked : ControlNode fl → ℕ → List Frame → ControlNode fl
  checked n now fs = record n {
    validator = validate_all n.validator fs;
    watchdog = (check (watched n now fs) now).0;
  }

  abbrev pub actuated : ControlNode fl → ℕ → List Frame → ControlNode fl × F
  actuated n now fs =
      actuate fl (checked n now fs) (last_accepted none (outcomes n.validator fs))
        (check (watched n now fs) now).1

  -- A step, with its receive loop replaced by the outcomes of the frames.
  pub step_lem :
      (n : ControlNode fl) (now : ℕ) (fs : List Frame)
      → let a = actuated n now fs in
        let safe = (check (watched n now fs) now).1 in
        step fl n now fs ≡ (
          record a.0 { tx_seq = u8 (a.0.tx_seq + 1) },
          record {
            command_frame = some (
                command_frame a.0.tx_seq
                  (to_i16 a.1)
                  (if is_some safe then status_safe else status_ok));
            actuator = a.1;
            safe_state = safe;
            accepted = a.0.validator.accepted;
            rejected = a.0.validator.rejected;
          },
        )
  unfolding step
  step_lem n now fs = rw (ingest_lem n none now fs) refl

  -- The parts of a step that do not depend on the control law.
  pub record IsStep (n : ControlNode fl) (now : ℕ) (fs : List Frame)
      (r : ControlNode fl × StepOutput fl) : Type 0 where
    pub validator : r.0.validator ≡ validate_all n.validator fs
    pub watchdog : r.0.watchdog ≡ (check (watched n now fs) now).0
    pub safe_state : r.1.safe_state ≡ r.0.watchdog.latched
    pub accepted : r.1.accepted ≡ r.0.validator.accepted
    pub rejected : r.1.rejected ≡ r.0.validator.rejected

  pub step-parts :
      (n : ControlNode fl) (now : ℕ) (fs : List Frame) → IsStep n now fs (step fl n now fs)
  step-parts n now fs =
      let keeps =
        actuate-keeps (checked n now fs) (last_accepted none (outcomes n.validator fs))
          (check (watched n now fs) now).1 in
      rw (step_lem n now fs) (record {
        validator = keeps.0;
        watchdog = keeps.1;
        safe_state = (check-keeps (watched n now fs) now).2 ∙ ap (λ w. w.latched) (sym keeps.1);
        accepted = refl;
        rejected = refl;
      })
