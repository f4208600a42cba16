-- ===== src/Host/Report/Verdict.antt =====
-- host/src/report.rs: the verdicts on the negative controls.
use Prim.Native.String.{String}
use fieldbus_control_node.Prelude.{
  same_text, ℕ, zero, suc, ◌+◌, ◌==◌, Bool, true, false, ◌++◌, not, ◌&&◌, Option, none, some, List,
  [], ◌∷◌, leb, ltb, get_or, ◌^◌, ◌-◌, if◌then◌else◌,
}
use mathlib.Core.Option
use fieldbus_control_node.J1939.Validator.{reject_kinds}
use fieldbus_control_node.Watchdog.{reason_name, time_since_last_accepted_us}
use fieldbus_control_node.Control.Float.{Float32}
use fieldbus_control_node.Node.{is_some}
use fieldbus_control_node.Host.Manifest.{NegativeControl}
use fieldbus_control_node.Host.Run.{RunOutcome}
use fieldbus_control_node.Host.Report.{Check, GateReport, ControlReport, all_passed, reason_key}

-- The diagnostics pass always: they are no part of the verdict.
unfoldable pub evaluate_cpu_hog : GateReport → ControlReport
evaluate_cpu_hog gate =
    let caught = not gate.pass in
    record {
      id = "cpu-hog";
      caught_checks =
          record { name = "positive_gate_fails"; passed = caught }
          ∷ record { name = "hog_threads_with_policy_granted"; passed = true }
          ∷ record { name = "misses_inside_versus_outside_the_hog_window"; passed = true }
          ∷ record { name = "p99_jitter_inside_versus_outside_the_hog_window"; passed = true }
          ∷ [];
      caught = caught;
    }

-- The index of a reason's name, among those from one on.
unfoldable pub find_key : String → ℕ → ℕ → Option ℕ
find_key name i zero = none
find_key name i (suc left) =
    let rest = find_key name (i + 1) left in if same_text (reason_key i) name then some i else rest

unfoldable pub count_is : List ℕ → Option ℕ → ℕ → Bool
count_is counts none want = false
count_is counts (some i) want = get_or counts i 0 == want

unfoldable pub total_check : ℕ → Option ℕ → List Check
total_check rejected none = []
total_check rejected (some total) =
    record { name = "rejected_total"; passed = rejected == total } ∷ []

-- One check for each expected reason, which names it.
unfoldable pub reason_checks : List ℕ → List (String × ℕ) → List Check
reason_checks counts [] = []
reason_checks counts ((name, want) ∷ expected) =
    record { name = name; passed = count_is counts (find_key name 0 reject_kinds) want }
    ∷ reason_checks counts expected

unfoldable pub histogram_checks : List ℕ → Option (List (String × ℕ)) → List Check
histogram_checks counts none = []
histogram_checks counts (some expected) = reason_checks counts expected

unfoldable pub accepted_check : ℕ → Option ℕ → List Check
accepted_check accepted none = []
accepted_check accepted (some acc) = record { name = "accepted"; passed = accepted == acc } ∷ []

-- `reaction.map(|v| v <= max_reaction).unwrap_or(false)`
unfoldable pub within : Option ℕ → ℕ → Bool
within none bound = false
within (some v) bound = leb v bound

-- `outcome.trip_cycle.map(|t| t > c).unwrap_or(false)`
unfoldable pub after : Option ℕ → ℕ → Bool
after none c = false
after (some t) c = ltb c t

unfoldable pub named_stale : Option String → Bool
named_stale none = same_text "none" "sensor_stale"
named_stale (some name) = same_text name "sensor_stale"

unfoldable pub freeze_check : Option ℕ → Option ℕ → List Check
freeze_check trip none = []
freeze_check trip (some c) =
    record { name = "freeze_cycle_from_manifest"; passed = after trip c } ∷ []

unfoldable pub or_max : Option ℕ → ℕ
or_max none = 2 ^ 64 - 1
or_max (some v) = v

module _ (fl : Float32) where
  unfoldable pub evaluate_can_corrupt : GateReport → RunOutcome fl → NegativeControl → ControlReport
  evaluate_can_corrupt gate outcome spec =
      let checks =
        total_check outcome.rejected spec.expected_rejected_total
        ++ (histogram_checks outcome.rejected_by_reason spec.expected_rejected_by_reason
            ++ (accepted_check outcome.accepted spec.expected_accepted
                ++ record { name = "positive_gate_fails"; passed = not gate.pass } ∷ [])) in
      record { id = "can-corrupt"; caught_checks = checks; caught = all_passed checks }

  unfoldable pub evaluate_sensor_freeze :
      GateReport → RunOutcome fl → NegativeControl → ControlReport
  evaluate_sensor_freeze gate outcome spec =
      let tripped = is_some outcome.safe_state in
      let reason = Option.map reason_name outcome.safe_state in
      let reaction = Option.map time_since_last_accepted_us outcome.safe_state in
      let max_reaction = or_max spec.max_reaction_time_us in
      let checks =
        record { name = "watchdog_tripped"; passed = tripped }
        ∷ record { name = "watchdog_reason"; passed = named_stale reason }
        ∷ record { name = "reaction_time_us"; passed = within reaction max_reaction }
        ∷ record {
          name = "actuator_zero_since_trip";
          passed = tripped && outcome.actuator_zero_since_trip;
        }
        ∷ record { name = "safe_state_persists_to_end_of_run"; passed = tripped }
        ∷ record { name = "positive_gate_fails"; passed = not gate.pass }
        ∷ freeze_check outcome.trip_cycle spec.freeze_at_cycle in
      record { id = "sensor-freeze"; caught_checks = checks; caught = all_passed checks }
