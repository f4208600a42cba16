-- ===== src/Examples/Loop.antt =====
-- The theorems on core/src/node.rs, core/src/watchdog.rs, core/src/control.rs, core/src/telemetry.rs
-- and host/src at concrete inputs.
use fieldbus_control_node.Prelude.{
  ℕ, ◌+◌, ◌*◌, ◌<◌, ◌≤◌, ◌≡◌, ◌⊎◌, inl, refl, arith, true, none, some, List, [], ◌∷◌, u8, pos,
  length, ok, if◌then◌else◌,
}
use fieldbus_control_node.J1939.Payload.{Frame, sensor_frame}
use fieldbus_control_node.J1939.Validator
use fieldbus_control_node.J1939.Validator.{classify, validate_all}
use fieldbus_control_node.J1939.Validator.Accounting.{outcomes, accepted_in}
use fieldbus_control_node.J1939.Validator.Sequence.{reading, Expects}
use fieldbus_control_node.Watchdog
use fieldbus_control_node.Watchdog.{Watchdog, SafeState, sensor_stale, check}
use fieldbus_control_node.Watchdog.Reaction.{IsPrompt, Within}
use fieldbus_control_node.Control.Float.{thousandths, thousandths-laws, leb_ℤ-refl}
use fieldbus_control_node.Control.Pi.{Pi, candidate_integral, unsaturated, update}
use fieldbus_control_node.Control.Pi
use fieldbus_control_node.Node.{
  ControlNode, with_watchdog_timeout, ingest, step, is_some, safe_actuator, out_min, out_max,
}
use fieldbus_control_node.Node.Ingest.{fed, last_accepted, ingest_lem}
use fieldbus_control_node.Node.Safe.{run, run-stays_safe}
use fieldbus_control_node.Node.Starved.{Starved, times, run-IsPrompt, garbage_is_silence}
use fieldbus_control_node.Node.Command.{IsCommand, step-IsCommand}
use fieldbus_control_node.Node.Bounds.{run-bounded}
use fieldbus_control_node.Telemetry.{
  num_buckets, overflow_floor_us, min_us, rank_of, percentile_permille, p99_us, record_all,
}
use fieldbus_control_node.Telemetry
use fieldbus_control_node.Telemetry.Histogram.{below}
use fieldbus_control_node.Telemetry.Percentile.{percentile_brackets}
use fieldbus_control_node.Host.Bus.{FaultSchedule, burst}
use fieldbus_control_node.Host.Bus.Faults.{injected, refusals, burst_attributed}

abbrev good : Frame
good = sensor_frame 0 (pos 100) 0

abbrev short : Frame
short = record good { dlc = 4 }

abbrev node : ControlNode thousandths
node = with_watchdog_timeout thousandths 0 80000

abbrev tripped : SafeState
tripped = record { reason = sensor_stale 0 90000 80000 }

abbrev tripped_watchdog : Watchdog
tripped_watchdog = record { timeout_us = 80000; last_seen_us = 0; latched = some tripped }

abbrev safe_node : ControlNode thousandths
safe_node = record node { watchdog = tripped_watchdog }

run-stays_safe_example :
    let out =
      (step thousandths
        (run thousandths safe_node ((100000, good ∷ []) ∷ []))
        110000
        (good ∷ [])).1 in
    (out.safe_state ≡ some tripped) × (out.actuator ≡ safe_actuator thousandths)
run-stays_safe_example =
    run-stays_safe thousandths safe_node ((100000, good ∷ []) ∷ []) 110000 (good ∷ []) tripped refl

abbrev silent : List (ℕ × List Frame)
silent = (50000, short ∷ []) ∷ (100000, []) ∷ []

silent_starves : Starved thousandths node silent
unfolding classify
silent_starves = (refl, (refl, tt))

run-IsPrompt_example :
    (((run thousandths node silent).watchdog.latched ≡ none)
      × Within (node.watchdog.last_seen_us + node.watchdog.timeout_us) (times thousandths silent))
    ⊎ ((s : SafeState) × ((run thousandths node silent).watchdog.latched ≡ some s)
        × IsPrompt 50000 node.watchdog s)
unfolding with_watchdog_timeout Watchdog.new
run-IsPrompt_example =
    run-IsPrompt thousandths node 50000 0 silent refl (omega arith) (omega arith)
      (omega arith, (omega arith, tt)) silent_starves

garbage_is_silence_example :
    let r = step thousandths node 10000 (short ∷ []) in
    let q = step thousandths node 10000 [] in
    (r.0 ≡ record q.0 { validator = r.0.validator })
    × (r.1.command_frame ≡ q.1.command_frame)
    × (r.1.actuator ≡ q.1.actuator)
    × (r.1.safe_state ≡ q.1.safe_state)
unfolding classify
garbage_is_silence_example = garbage_is_silence thousandths node 10000 (short ∷ []) refl

step-IsCommand_example :
    let r = step thousandths node 10000 (good ∷ []) in
    (f : Frame) × (r.1.command_frame ≡ some f)
    × IsCommand f (record {
      seq = node.tx_seq;
      value = thousandths.to_i16 r.1.actuator;
      status = if is_some r.1.safe_state then 0x01 else 0x00;
    })
    × (r.0.tx_seq ≡ u8 (node.tx_seq + 1))
unfolding with_watchdog_timeout
step-IsCommand_example =
    step-IsCommand thousandths thousandths-laws node 10000 (good ∷ []) (omega arith)

ingest_lem_example :
    let os = outcomes node.validator (good ∷ short ∷ []) in
    ingest thousandths node none 10000 (good ∷ short ∷ []) ≡ (
      record node {
        validator = validate_all node.validator (good ∷ short ∷ []);
        watchdog = fed thousandths node.watchdog 10000 (accepted_in os);
      },
      last_accepted thousandths none os,
    )
ingest_lem_example = ingest_lem thousandths node none 10000 (good ∷ short ∷ [])

abbrev armed : Watchdog
armed = record { timeout_us = 80000; last_seen_us = 0; latched = none }

run-bounded_example :
    let u =
      (step thousandths
        (run thousandths (with_watchdog_timeout thousandths 0 80000) [])
        10000
        (good ∷ [])).1.actuator in
    (thousandths.le (out_min thousandths) u ≡ true)
    × (thousandths.le u (out_max thousandths) ≡ true)
run-bounded_example = run-bounded thousandths thousandths-laws 0 80000 [] 10000 (good ∷ []) (
    leb_ℤ-refl
      (step thousandths (run thousandths (with_watchdog_timeout thousandths 0 80000) []) 10000
        (good ∷ [])).1.actuator)

abbrev wound : Pi thousandths
wound = Pi.new thousandths (pos 600) (pos 4000) (pos 0) (pos 1000000)

abbrev samples : List ℕ
samples = 12 ∷ 7 ∷ 45000 ∷ []

percentile_brackets_example :
    let r = percentile_permille (record_all Telemetry.new samples) 500 in
    (b : ℕ) × (((b < num_buckets)
        × (r ≡ (b + 1) * 10)
        × (1 ≤ below r samples)
        × (length samples * 500 ≤ below r samples * 1000))
      ⊎ ((b ≡ num_buckets) × (r ≡ overflow_floor_us)))
    × ((below (b * 10) samples ≡ 0) ⊎ (below (b * 10) samples * 1000 < length samples * 500))
percentile_brackets_example =
    percentile_brackets samples 500 (omega arith) (omega arith) (omega arith)

-- One stall over three periods, after which two cycles start late in one period.
abbrev starts : List ℕ
starts = 0 ∷ 41000 ∷ 43000 ∷ 50000 ∷ []

abbrev all_faults : FaultSchedule
all_faults = record {
  bad_crc = 3 ∷ [];
  duplicate = 3 ∷ [];
  out_of_order = 3 ∷ [];
  out_of_range = 3 ∷ [];
  bad_length = 3 ∷ [];
  dropped = [];
  freeze_at = none;
}

burst_attributed_example :
    (outcomes Validator.new (burst all_faults 3 7 (pos 100))
      ≡ ok (reading 7 (pos 100)) ∷ refusals (injected all_faults 3 7))
    × Expects (validate_all Validator.new (burst all_faults 3 7 (pos 100))) (7 + 1)
unfolding Validator.new
burst_attributed_example =
    burst_attributed all_faults 3 7 (pos 100) Validator.new (omega arith) (inl refl) (omega arith)
