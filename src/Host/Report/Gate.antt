-- ===== src/Host/Report/Gate.antt =====
-- host/src/report.rs: when the positive gate passes.
use fieldbus_control_node.Prelude.{◌≤◌, ◌≡◌, ◌↔◌, ◌⊎◌, arith, true, false, none, some}
use fieldbus_control_node.Watchdog.{SafeState}
use fieldbus_control_node.Control.Float.{Float32}
use fieldbus_control_node.Telemetry.{p99_us}
use fieldbus_control_node.Host.Manifest.{Manifest}
use fieldbus_control_node.Host.Run.{RunOutcome}
use fieldbus_control_node.Host.Report.{all_passed, from_checks}
use fieldbus_control_node.Host.Report.Build.{evaluate_positive_gate}

-- A run passes the positive gate exactly when its missed deadlines, its 99th percentile and its
-- refused frames are within the bounds, and it ended in no safe state unless the gate allows one.
positive_gate_iff :
    (fl : Float32) (out : RunOutcome fl) (m : Manifest)
    → let g = m.positive_gate in
      ((evaluate_positive_gate fl out m).pass ≡ true) ↔ (
        (out.jitter.missed_deadlines ≤ g.missed_deadlines_max)
        × (p99_us out.jitter ≤ g.p99_jitter_us_max)
        × (out.rejected ≤ g.rejected_frames_max)
        × ((g.watchdog_may_trip ≡ true) ⊎ (out.safe_state ≡ none)))
unfolding evaluate_positive_gate from_checks all_passed
positive_gate_iff fl out m = ground arith

pub tripped_fails :
    (fl : Float32) (out : RunOutcome fl) (m : Manifest) (s : SafeState)
    → m.positive_gate.watchdog_may_trip ≡ false
    → out.safe_state ≡ some s
    → (evaluate_positive_gate fl out m).pass ≡ false
unfolding evaluate_positive_gate from_checks all_passed
tripped_fails fl out m s e h = ground arith
