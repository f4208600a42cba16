-- ===== src/Host/Run/Latched.antt =====
-- host/src/runner.rs: what a run notes of the safe state.
use fieldbus_control_node.Prelude.{
  ℕ, zero, suc, ◌+◌, ◌<◌, ◌≡◌, refl, sym, ap, ◌∙◌, subst, arith, true, false, Option, none, some,
  List, ◌⊎◌, inl, inr, pos, Option-cases,
}
use mathlib.Core.Option.{none-ne-some}
use fieldbus_control_node.J1939.Payload.{Frame}
use fieldbus_control_node.J1939.Validator.Accounting.{outcomes}
use fieldbus_control_node.Watchdog.{Watchdog, SafeState, check}
use fieldbus_control_node.Watchdog
use fieldbus_control_node.Control.Float.{Float32, FloatLaws}
use fieldbus_control_node.Node.{ControlNode, StepOutput, step, safe_actuator, with_watchdog_timeout}
use fieldbus_control_node.Node.Ingest.{watched, checked, step_lem, actuate-keeps, last_accepted}
use fieldbus_control_node.Node.Safe.{step-safe, step-latched}
use fieldbus_control_node.Host.Schedule.{System}
use fieldbus_control_node.Host.Contention.{HogWindow}
use fieldbus_control_node.Host.Run.{
  CanBus, Clock, RunConfig, Loop, Seen, differs, note_trip, note_output, exchange, run_cycle,
  run_cycles, started, unseen, outcome_of, run,
}

-- What the loop has noted before a cycle, where `latch` is what the node's watchdog holds before
-- each cycle: either no trip, or the one of the earlier cycle that set the latch, and since then the
-- safe actuator value.
abbrev Noted : (fl : Float32) → (ℕ → Option SafeState) → ℕ → Seen fl → Type 0
Noted fl latch cycle s =
    (s.actuator_zero_since_trip ≡ true)
    × (((s.trip_cycle ≡ none) × (s.safe_state ≡ none) × (latch cycle ≡ none))
        ⊎ ((k : ℕ) × (safe : SafeState) × (k < cycle)
            × (latch k ≡ none)
            × (latch (k + 1) ≡ some safe)
            × (latch cycle ≡ some safe)
            × (s.trip_cycle ≡ some k)
            × (s.safe_state ≡ some safe)
            × (s.last_actuator ≡ safe_actuator fl)))

check-latched : (w : Watchdog) (t : ℕ) → (check w t).0.latched ≡ (check w t).1
unfolding check
check-latched w t = ground arith

module _ (fl : Float32) where
  step-reports :
      (n : ControlNode fl) (now : ℕ) (fs : List Frame)
      → (step fl n now fs).0.watchdog.latched ≡ (step fl n now fs).1.safe_state
  step-reports n now fs =
      let w = watched fl n now fs in
      let k =
        (actuate-keeps fl (checked fl n now fs) (last_accepted fl none (outcomes n.validator fs))
          (check w now).1).1 in
      rw (step_lem fl n now fs) (rw k (check-latched w now))

  safe-same : (laws : FloatLaws fl) → differs fl (safe_actuator fl) (fl.literal (pos 0) 0) ≡ false
  unfolding differs
  safe-same laws = ground (arith, laws.literal_mono (pos 0) (pos 0) 0 (omega arith))

  note_output-Noted :
      (laws : FloatLaws fl) (latch : ℕ → Option SafeState) (cycle : ℕ) (s : Seen fl)
      (out : StepOutput fl)
      → latch (cycle + 1) ≡ out.safe_state
      → ((safe : SafeState) → latch cycle ≡ some safe → out.safe_state ≡ some safe)
      → ((safe : SafeState) → out.safe_state ≡ some safe → out.actuator ≡ safe_actuator fl)
      → Noted fl latch cycle s
      → Noted fl latch (cycle + 1) (note_output fl s cycle out)
  unfolding note_output note_trip
  note_output-Noted laws latch cycle s out reports keeps zeroed h =
      elim (Option-cases out.safe_state) [
        | inl e ↦ elim h.1 [
          | inl n ↦ rw e (rw n.0 (h.0, inl (refl, n.1, reports ∙ e)))
          | inr (k, safe, lt, before, at, now, trip, kept, last) ↦
              absurd (none-ne-some safe (sym e ∙ keeps safe now))
        ]
        | inr (safe, e) ↦ elim h.1 [
          | inl n ↦
              let set : latch (cycle + 1) ≡ some safe = reports ∙ e in
              rw e (
                rw n.0 (
                  rw (zeroed safe e) (
                    rw (safe-same laws)
                      (h.0, inr (cycle, safe, omega arith, n.2, set, set, refl, refl, refl)))))
          | inr (k, safe', lt, before, at, now, trip, kept, last) ↦
              let same = keeps safe' now in
              let z = zeroed safe' same in
              rw same (
                rw trip (
                  rw z (
                    rw (safe-same laws) (
                      h.0,
                      inr (k, safe', omega arith, before, at, reports ∙ same, refl, kept, refl),
                    ))))
        ]
      ]

  module _ (io : CanBus) (cfg : RunConfig) (clock : Clock) where
    run_cycles-snoc :
        (left cycle : ℕ) (l : Loop fl io)
        → run_cycles fl io cfg clock (suc left) cycle l
          ≡ run_cycle fl io cfg clock (run_cycles fl io cfg clock left cycle l) (cycle + left)
    unfolding run_cycles
    run_cycles-snoc zero cycle l = ap (run_cycle fl io cfg clock l) (omega arith)
    run_cycles-snoc (suc left) cycle l =
        run_cycles-snoc left (cycle + 1) (run_cycle fl io cfg clock l cycle)
        ∙ ap (run_cycle fl io cfg clock (run_cycles fl io cfg clock (suc left) cycle l))
            (omega arith)

    run_cycles-next :
        (n : ℕ) (l : Loop fl io)
        → run_cycles fl io cfg clock (n + 1) 0 l
          ≡ run_cycle fl io cfg clock (run_cycles fl io cfg clock n 0 l) n
    run_cycles-next n l =
        ap (λ m. run_cycles fl io cfg clock m 0 l) (omega arith)
        ∙ run_cycles-snoc n 0 l
        ∙ ap (run_cycle fl io cfg clock (run_cycles fl io cfg clock n 0 l)) (omega arith)

    -- What the node's watchdog holds after that many cycles of a run.
    abbrev pub latch_after : io.State → Option HogWindow → ℕ → Option SafeState
    latch_after b w k =
        (run_cycles fl io cfg clock k 0 (started fl io cfg w b)).node.watchdog.latched

    run_cycle-Noted :
        (laws : FloatLaws fl) (latch : ℕ → Option SafeState) (l : Loop fl io) (cycle : ℕ)
        → latch cycle ≡ l.node.watchdog.latched
        → latch (cycle + 1) ≡ (run_cycle fl io cfg clock l cycle).node.watchdog.latched
        → Noted fl latch cycle l.seen
        → Noted fl latch (cycle + 1) (run_cycle fl io cfg clock l cycle).seen
    unfolding run_cycle exchange
    run_cycle-Noted laws latch l cycle now next h =
        note_output-Noted laws latch cycle l.seen _ (next ∙ step-reports l.node _ _)
          (λ safe e. (step-latched fl l.node _ _ safe (sym now ∙ e)).1)
          (λ safe e. (step-safe fl l.node _ _ safe e).0) h

    run_cycles-Noted :
        (laws : FloatLaws fl) (b : io.State) (w : Option HogWindow) (n : ℕ)
        → Noted fl (latch_after b w) n (run_cycles fl io cfg clock n 0 (started fl io cfg w b)).seen
    run_cycles-Noted laws b w zero =
        unfold run_cycles started unseen with_watchdog_timeout Watchdog.new in
        (refl, inl (refl, refl, refl))
    run_cycles-Noted laws b w (suc n) =
        let l0 = started fl io cfg w b in
        let next = run_cycles-next n l0 in
        subst (λ m. Noted fl (latch_after b w) m (run_cycles fl io cfg clock m 0 l0).seen)
          (omega arith)
          (subst (λ (l : Loop fl io). Noted fl (latch_after b w) (n + 1) l.seen) (sym next)
            (run_cycle-Noted laws (latch_after b w) (run_cycles fl io cfg clock n 0 l0) n refl
              (ap (λ (l : Loop fl io). l.node.watchdog.latched) next)
              (run_cycles-Noted laws b w n)))

-- Whatever the bus delivers and whenever the cycles run: either the node's watchdog is not latched
-- after the last cycle, and the run ends with no safe state and no trip; or the run ends with the
-- safe state that the watchdog has latched and names the executed cycle that latched it, the one
-- before which the watchdog was not latched and after which it was, and its last command is the
-- safe actuator value. And the report that the actuator was commanded to zero from the trip on is
-- always true. Zero is a number that is equal to itself, by the laws of the comparisons.
pub run-stops :
    (fl : Float32) (laws : FloatLaws fl) (io : CanBus) (sys : System) (clock : Clock) (b : io.State)
    (cfg : RunConfig) (w : Option HogWindow)
    → let out = (run fl io sys clock b cfg w).1 in
      (out.actuator_zero_since_trip ≡ true)
      × (((out.trip_cycle ≡ none)
            × (out.safe_state ≡ none)
            × (latch_after fl io cfg clock b w out.executed_cycles ≡ none))
          ⊎ ((k : ℕ) × (safe : SafeState) × (k < out.executed_cycles)
              × (latch_after fl io cfg clock b w k ≡ none)
              × (latch_after fl io cfg clock b w (k + 1) ≡ some safe)
              × (latch_after fl io cfg clock b w out.executed_cycles ≡ some safe)
              × (out.trip_cycle ≡ some k)
              × (out.safe_state ≡ some safe)
              × (out.last_actuator ≡ safe_actuator fl)))
unfolding run outcome_of
run-stops fl laws io sys clock b cfg w = run_cycles-Noted fl io cfg clock laws b w cfg.cycles
