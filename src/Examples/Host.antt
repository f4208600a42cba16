-- ===== src/Examples/Host.antt =====
-- The theorems on the loop and the reports of host/src at concrete inputs: a run on the simulated
-- bus, whose sensor stops at cycle 2.
use fieldbus_control_node.Prelude.{
  u32, get_or, ℕ, ◌<◌, ◌≤◌, ◌*◌, ◌+◌, ◌≡◌, ◌↔◌, ◌⊎◌, refl, arith, true, false, Option, none, some,
  List, [], ◌∷◌, u64, pos, length,
}
use fieldbus_control_node.Watchdog.{SafeState, time_since_last_accepted_us}
use fieldbus_control_node.Control.Float.{saturate, div_trunc, thousandths, thousandths-laws}
use fieldbus_control_node.Node.{safe_actuator}
use fieldbus_control_node.Host.Bus.{noise, frozen, contains, FaultSchedule, SimBus, clean}
use fieldbus_control_node.Host.Bus
use fieldbus_control_node.Host.Schedule.{
  System, time_constraint, default_timeshare, virtual, real_time,
}
use fieldbus_control_node.Host.Hog.{terminate}
use fieldbus_control_node.Host.Hog.Spin.{
  Shared, initial, ThreadEvent, sets, proceeds, turns, outside, woken, finished, play, happen,
  launched, call, proceed, turn_at, turn, notify,
}
use fieldbus_control_node.Host.Hog.Turns.{setting, holders, AllSound}
use fieldbus_control_node.Host.Hog.Wakes.{play-AllSound}
use fieldbus_control_node.Host.Hog.Stops.{IsStuck, AllFinished, play-AllFinished}
use fieldbus_control_node.Host.Manifest.{Manifest, NegativeControl}
use fieldbus_control_node.Host.Contention.{HogWindow}
use fieldbus_control_node.Host.Run.{started, Clock, RunConfig, RunOutcome, run}
use fieldbus_control_node.Host.Run.Listed.{labels, due}
use fieldbus_control_node.Host.Run.Misses.{Attributed, run-Attributed}
use fieldbus_control_node.Host.Bus.Caused.{caused_through}
use fieldbus_control_node.Host.Run.Histogram.{ReadsInRange, run-histogram}
use fieldbus_control_node.Host.Run.Latched.{latch_after, run-stops}
use fieldbus_control_node.Host.Report.Build.{evaluate_positive_gate}
use fieldbus_control_node.Host.Report.Verdict.{evaluate_sensor_freeze, or_max}
use fieldbus_control_node.Host.Report.Caught.{TrippedAfter, run-caught_iff}
use fieldbus_control_node.Host.Command.{sim_bus}

abbrev system : System
system = record { pthread_setschedparam = λ thread. pos 1; printed_rc = λ rc. "rc=1" }

-- Every cycle wakes 100 microseconds late, and its work ends 25 milliseconds after its start.
abbrev slow : Clock
slow = record {
  woke = λ cycle. cycle * 10000 + 100;
  finished = λ cycle. cycle * 10000 + 25100;
  wall = 120000;
}

abbrev freezing : SimBus thousandths
freezing = Bus.new thousandths 7 (record clean { freeze_at = some 2 })

abbrev config : RunConfig
config = record {
  cycles = 12;
  period_us = 10000;
  control_thread_policy = default_timeshare;
  watchdog_timeout_us = 80000;
  mode = real_time;
}

abbrev window : HogWindow
window = record { start_cycle = 3; end_cycle = 8; threads = 2; policy = time_constraint }

abbrev pub outcome : RunOutcome thousandths
outcome = (run thousandths (sim_bus thousandths) system slow freezing config (some window)).1

abbrev virtual_outcome : RunOutcome thousandths
virtual_outcome =
    (run thousandths (sim_bus thousandths) system slow freezing (record config { mode = virtual })
      none).1

run-Attributed_example :
    (labels outcome.misses ≡ due config slow 12 0 0)
    × (outcome.jitter.missed_deadlines ≡ u64 (length outcome.misses))
    × Attributed (some window) outcome.misses outcome.hog
run-Attributed_example =
    run-Attributed thousandths (sim_bus thousandths) system slow freezing config (some window)

abbrev latch_then : ℕ → Option SafeState
latch_then = latch_after thousandths (sim_bus thousandths) config slow freezing (some window)

run-stops_example :
    (outcome.actuator_zero_since_trip ≡ true)
    × (((outcome.trip_cycle ≡ none)
          × (outcome.safe_state ≡ none)
          × (latch_then outcome.executed_cycles ≡ none))
        ⊎ ((k : ℕ) × (safe : SafeState) × (k < outcome.executed_cycles)
            × (latch_then k ≡ none)
            × (latch_then (k + 1) ≡ some safe)
            × (latch_then outcome.executed_cycles ≡ some safe)
            × (outcome.trip_cycle ≡ some k)
            × (outcome.safe_state ≡ some safe)
            × (outcome.last_actuator ≡ safe_actuator thousandths)))
run-stops_example =
    run-stops thousandths thousandths-laws (sim_bus thousandths) system slow freezing config
      (some window)

abbrev freeze_control : NegativeControl
freeze_control = record {
  id = "sensor-freeze";
  injection_cycles = none;
  expected_rejected_total = none;
  expected_rejected_by_reason = none;
  expected_accepted = none;
  control_thread_policy = none;
  hog_thread_policy = none;
  freeze_at_cycle = some 2;
  max_reaction_time_us = some 100000;
}

abbrev pub manifest : Manifest
manifest = record {
  loop = record { target_period_us = 10000; cycles = 12; seed = 7 };
  watchdog = record { timeout_us = 80000 };
  positive_gate = record {
    missed_deadlines_max = 0;
    p99_jitter_us_max = 1000;
    rejected_frames_max = 0;
    watchdog_may_trip = false;
  };
  negative_controls = freeze_control ∷ [];
}

run-caught_iff_example :
    ((evaluate_sensor_freeze thousandths
        (evaluate_positive_gate thousandths outcome manifest)
        outcome
        freeze_control).caught
      ≡ true)
    ↔ ((s : SafeState) × (outcome.safe_state ≡ some s)
        × (time_since_last_accepted_us s ≤ or_max (some 100000))
        × TrippedAfter (some 2) outcome.trip_cycle)
run-caught_iff_example =
    run-caught_iff thousandths thousandths-laws (sim_bus thousandths) system slow freezing config
      (some window) manifest freeze_control refl

-- A spinner goes to sleep, and `stop` sets TERMINATE while it waits.
abbrev history : List ThreadEvent
history =
    turns 0 ∷ turns 0 ∷ turns 0 ∷ turns 0 ∷ sets terminate ∷ proceeds ∷ proceeds ∷ proceeds ∷ []

abbrev told : Shared
told = record { state = terminate; locked = false; setter = outside; spinners = woken ∷ [] }

abbrev ended : Shared
ended = record { state = terminate; locked = false; setter = outside; spinners = finished ∷ [] }

told_then : play (initial 1) history ≡ some told
unfolding play initial launched happen turn_at turn call proceed notify
told_then = refl

ended_then : play told (turns 0 ∷ turns 0 ∷ turns 0 ∷ []) ≡ some ended
unfolding play happen turn_at turn
ended_then = refl

play-AllSound_example :
    (setting told.setter + holders told.spinners ≤ 1)
    × AllSound told.state told.setter told.spinners
play-AllSound_example = play-AllSound 1 history told told_then

play-AllFinished_example :
    (length (turns 0 ∷ turns 0 ∷ turns 0 ∷ []) ≤ 5 * length told.spinners)
    × (IsStuck ended → AllFinished ended.spinners)
play-AllFinished_example =
    play-AllFinished 1 history (turns 0 ∷ turns 0 ∷ turns 0 ∷ []) told ended told_then
      (record { state = refl; setter = refl }) tt ended_then

-- A corrupted frame in cycle 0, and none that is sent in cycle 1.
abbrev corrupting : FaultSchedule
corrupting = record clean { bad_crc = 0 ∷ 1 ∷ []; dropped = 1 ∷ [] }

abbrev two_cycles : RunConfig
two_cycles = record config { cycles = 2 }

corrupting-ReadsInRange :
    ReadsInRange thousandths two_cycles slow corrupting 2 0
      (started thousandths (sim_bus thousandths) two_cycles none (Bus.new thousandths 7 corrupting))
unfolding started Bus.new noise saturate div_trunc frozen contains
corrupting-ReadsInRange = (λ e. omega arith, (λ e. absurd (ground (arith, e)), tt))

run-histogram_example :
    get_or
      (run thousandths
        (sim_bus thousandths)
        system
        slow
        (Bus.new thousandths 7 corrupting)
        two_cycles
        none).1.rejected_by_reason
      3
      0
    ≡ u32 (caused_through corrupting 3 0 2)
run-histogram_example =
    run-histogram thousandths system slow 7 corrupting two_cycles none 3 (omega arith) (omega arith)
      corrupting-ReadsInRange
