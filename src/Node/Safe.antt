-- ===== src/Node/Safe.antt =====
-- core/src/node.rs: the node in its safe state, and `reset`.
use fieldbus_control_node.Prelude.{
  ℕ, zero, suc, ◌≡◌, refl, sym, ap, ◌∙◌, none, some, List, [], ◌∷◌, false,
}
use fieldbus_control_node.J1939.Payload.{Frame, command_frame}
use fieldbus_control_node.J1939.Validator.{Validator, validate_all}
use fieldbus_control_node.J1939.Validator.Accounting.{outcomes, accepted_in}
use fieldbus_control_node.Watchdog.{Watchdog, SafeState, feed, check}
use fieldbus_control_node.Watchdog
use fieldbus_control_node.Watchdog.Latch.{latched-feed, latched-check}
use fieldbus_control_node.Control.Float.{Float32}
use fieldbus_control_node.Control.LowPass
use fieldbus_control_node.Control.Pi
use fieldbus_control_node.J1939.Validator
use fieldbus_control_node.Node.{ControlNode, actuate, step, reset, safe_actuator}
use fieldbus_control_node.Node.Ingest.{
  fed, watched, checked, step_lem, actuate-keeps, last_accepted,
}

module _ (fl : Float32) where
  open fl use {F, to_i16}

  fed-latched : (w : Watchdog) (now k : ℕ) → (fed fl w now k).latched ≡ w.latched
  fed-latched w now zero = refl
  fed-latched w now (suc k) = latched-feed w now

  -- A step that reports a safe state commands the safe actuator value, under status 1, and leaves
  -- the filter and the controller as they were.
  pub step-safe :
      (n : ControlNode fl) (now : ℕ) (fs : List Frame) (s : SafeState)
      → (step fl n now fs).1.safe_state ≡ some s
      → let r = step fl n now fs in
        (r.1.actuator ≡ safe_actuator fl)
        × (r.1.command_frame ≡ some (command_frame n.tx_seq (to_i16 (safe_actuator fl)) 0x01))
        × (r.0.filter ≡ n.filter)
        × (r.0.pi ≡ n.pi)
  unfolding actuate
  step-safe n now fs s e =
      let e' : (check (watched fl n now fs) now).1 ≡ some s =
        ap (λ r. r.1.safe_state) (sym (step_lem fl n now fs)) ∙ e in
      rw (step_lem fl n now fs) (rw e' (refl, refl, refl, refl))

  -- Every period of a run, at its time and with the frames that it received.
  unfoldable pub run : ControlNode fl → List (ℕ × List Frame) → ControlNode fl
  run n [] = n
  run n ((now, fs) ∷ periods) = run (step fl n now fs).0 periods

  pub step-latched :
      (n : ControlNode fl) (now : ℕ) (fs : List Frame) (s : SafeState)
      → n.watchdog.latched ≡ some s
      → ((step fl n now fs).0.watchdog.latched ≡ some s)
        × ((step fl n now fs).1.safe_state ≡ some s)
  step-latched n now fs s e =
      let w = watched fl n now fs in
      let l =
        latched-check w now s
          (fed-latched n.watchdog now (accepted_in (outcomes n.validator fs)) ∙ e) in
      let k =
        (actuate-keeps fl (checked fl n now fs) (last_accepted fl none (outcomes n.validator fs))
          (check w now).1).1 in
      rw (step_lem fl n now fs) (rw k l.0, l.1)

  run-latched :
      (n : ControlNode fl) (periods : List (ℕ × List Frame)) (s : SafeState)
      → n.watchdog.latched ≡ some s
      → (run n periods).watchdog.latched ≡ some s
  unfolding run
  run-latched n [] s e = e
  run-latched n ((now, fs) ∷ periods) s e =
      run-latched (step fl n now fs).0 periods s (step-latched n now fs s e).0

  -- Once a safe state is latched no bus traffic ends it: whatever frames arrive in whatever
  -- periods, every later step reports the same state and commands the safe actuator value.
  pub run-stays_safe :
      (n : ControlNode fl) (periods : List (ℕ × List Frame)) (now : ℕ) (fs : List Frame)
      (s : SafeState)
      → n.watchdog.latched ≡ some s
      → let out = (step fl (run n periods) now fs).1 in
        (out.safe_state ≡ some s) × (out.actuator ≡ safe_actuator fl)
  run-stays_safe n periods now fs s e =
      let l = step-latched (run n periods) now fs s (run-latched n periods s e) in
      (l.1, (step-safe (run n periods) now fs s l.1).0)

  -- `reset` clears the latch, arms the watchdog at the given time, forgets the sequence position,
  -- the integral and the filter, and keeps the counters, the sequence number that is sent, the
  -- gains and the limits.
  pub reset_lem :
      (n : ControlNode fl) (now : ℕ)
      → let n' = reset fl n now in
        (n'.watchdog ≡ Watchdog.new n.watchdog.timeout_us now)
        × (n'.validator ≡ record n.validator { last_seq = none })
        × (n'.pi ≡ record n.pi { integral = safe_actuator fl })
        × (n'.filter ≡ record n.filter { y = safe_actuator fl; primed = false })
        × (n'.tx_seq ≡ n.tx_seq)
  unfolding reset Watchdog.reset Watchdog.new Validator.reset_sequence Pi.reset LowPass.reset
  reset_lem n now = (refl, refl, refl, refl, refl)
