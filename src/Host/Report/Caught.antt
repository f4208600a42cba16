-- ===== src/Host/Report/Caught.antt =====
-- host/src/report.rs: when the `sensor-freeze` control counts as caught, for a run's own outcome.
use fieldbus_control_node.Prelude.{
  ℕ, ◌<◌, ◌≤◌, ◌≡◌, ◌↔◌, refl, arith, Bool, true, false, not, ◌&&◌, Option, none, some,
}
use mathlib.Core.Option
use mathlib.Core.Option.{none-ne-some, some-injective}
use fieldbus_control_node.Watchdog.{
  SafeState, sensor_stale, reason_name, time_since_last_accepted_us,
}
use fieldbus_control_node.Control.Float.{Float32, FloatLaws}
use fieldbus_control_node.Node.{is_some}
use fieldbus_control_node.Host.Schedule.{System}
use fieldbus_control_node.Host.Manifest.{Manifest, NegativeControl}
use fieldbus_control_node.Host.Contention.{HogWindow}
use fieldbus_control_node.Host.Run.{CanBus, Clock, RunConfig, RunOutcome, run}
use fieldbus_control_node.Host.Run.Latched.{run-stops}
use fieldbus_control_node.Host.Report.{GateReport, all_passed}
use fieldbus_control_node.Host.Report.Build.{evaluate_positive_gate}
use fieldbus_control_node.Host.Report.Gate.{tripped_fails}
use fieldbus_control_node.Host.Report.Verdict.{
  evaluate_sensor_freeze, within, after, named_stale, freeze_check, or_max,
}

-- The trip came after the cycle at which the sensor stops, if one is given.
abbrev pub TrippedAfter : Option ℕ → Option ℕ → Type 0
TrippedAfter none trip = Unit {0}
TrippedAfter (some c) trip = (t : ℕ) × (trip ≡ some t) × (c < t)

freeze_check_iff :
    (trip frozen : Option ℕ)
    → (all_passed (freeze_check trip frozen) ≡ true) ↔ TrippedAfter frozen trip
unfolding all_passed freeze_check after
freeze_check_iff trip none = (λ h. tt, λ h. refl)
freeze_check_iff none (some c) = ground arith
freeze_check_iff (some t) (some c) = ground arith

stale_name : (s : SafeState) → named_stale (some (reason_name s)) ≡ true
unfolding named_stale reason_name
stale_name s =
    elim s.reason as (λ r. named_stale (some (reason_name (record { reason = r }))) ≡ true) [
      | sensor_stale a b c ↦ refl
    ]

verdict_iff :
    (safe : Option SafeState) (zeroed pass frozen : Bool) (bound : ℕ)
    → (is_some safe
          && (named_stale (Option.map reason_name safe)
              && (within (Option.map time_since_last_accepted_us safe) bound
                  && (is_some safe && zeroed && (is_some safe && (not pass && frozen)))))
        ≡ true)
      ↔ ((s : SafeState) × (safe ≡ some s)
          × (time_since_last_accepted_us s ≤ bound)
          × (zeroed ≡ true)
          × (pass ≡ false)
          × (frozen ≡ true))
unfolding within
verdict_iff none zeroed pass frozen bound =
    (λ h. absurd (ground arith), λ h. absurd (none-ne-some _ h.1))
verdict_iff (some s) zeroed pass frozen bound =
    let n = stale_name s in
    (
      λ h. (
        s,
        refl,
        ground (arith, n, h),
        ground (arith, n, h),
        ground (arith, n, h),
        ground (arith, n, h),
      ),
      λ (t, e, le, z, p, f). ground (arith, n, some-injective _ _ e, le, z, p, f),
    )

-- Every check of the verdict, on its own terms.
pub sensor_freeze_iff :
    (fl : Float32) (out : RunOutcome fl) (gate : GateReport) (spec : NegativeControl)
    → ((evaluate_sensor_freeze fl gate out spec).caught ≡ true) ↔ (
        (s : SafeState) × (out.safe_state ≡ some s)
        × (time_since_last_accepted_us s ≤ or_max spec.max_reaction_time_us)
        × (out.actuator_zero_since_trip ≡ true)
        × (gate.pass ≡ false)
        × TrippedAfter spec.freeze_at_cycle out.trip_cycle)
unfolding evaluate_sensor_freeze all_passed
sensor_freeze_iff fl out gate spec =
    let f = freeze_check_iff out.trip_cycle spec.freeze_at_cycle in
    let v =
      verdict_iff out.safe_state out.actuator_zero_since_trip gate.pass
        (all_passed (freeze_check out.trip_cycle spec.freeze_at_cycle))
        (or_max spec.max_reaction_time_us) in
    (
      λ h. let (s, e, le, z, p, t) = v.0 h in (s, e, le, z, p, f.0 t),
      λ (s, e, le, z, p, t). v.1 (s, e, le, z, p, f.1 t),
    )

-- The outcome of any run counts as a caught sensor freeze exactly when it ended in a safe state
-- within the bound after the last accepted frame, tripped later than the cycle at which the sensor
-- stops, if the control gives one: the other checks of the verdict follow, when the manifest's gate
-- lets no watchdog trip, whatever the bus and the clock did.
pub run-caught_iff :
    (fl : Float32) (laws : FloatLaws fl) (io : CanBus) (sys : System) (clock : Clock) (b : io.State)
    (cfg : RunConfig) (w : Option HogWindow) (m : Manifest) (spec : NegativeControl)
    → m.positive_gate.watchdog_may_trip ≡ false
    → let out = (run fl io sys clock b cfg w).1 in
      ((evaluate_sensor_freeze fl (evaluate_positive_gate fl out m) out spec).caught ≡ true) ↔ (
        (s : SafeState) × (out.safe_state ≡ some s)
        × (time_since_last_accepted_us s ≤ or_max spec.max_reaction_time_us)
        × TrippedAfter spec.freeze_at_cycle out.trip_cycle)
run-caught_iff fl laws io sys clock b cfg w m spec strict =
    let out = (run fl io sys clock b cfg w).1 in
    let v = sensor_freeze_iff fl out (evaluate_positive_gate fl out m) spec in
    (
      λ h. let (s, e, le, z, p, t) = v.0 h in (s, e, le, t),
      λ (s, e, le, t). v.1 (
        s,
        e,
        le,
        (run-stops fl laws io sys clock b cfg w).0,
        tripped_fails fl out m s strict e,
        t,
      ),
    )
