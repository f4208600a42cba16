-- ===== src/Host/Report.antt =====
-- host/src/report.rs: the summaries of a run and the positive gate, without the texts that format
-- the numbers for a reader, and without the host's environment.
pub mod Build
pub mod Verdict
pub mod Gate
pub mod Caught
use Prim.Native.String.{String}
use fieldbus_control_node.Prelude.{
  ℕ, zero, suc, ◌+◌, ◌==◌, Bool, true, not, ◌&&◌, ◌||◌, Option, none, some, List, [], ◌∷◌, leb, ltb,
  map, get_or, take, length, ℤ, pos, ◌-ℤ◌, Result, ok, err,
}
use mathlib.Core.Option
use fieldbus_control_node.J1939.Validator.{reject_kinds}
use fieldbus_control_node.Watchdog.{
  SafeState, reason_name, time_since_last_accepted_us, overshoot_past_budget_us,
}
use fieldbus_control_node.Control.Float.{Float32}
use fieldbus_control_node.Node.{is_some}
use fieldbus_control_node.Telemetry.{
  JitterStats, bucket_width_us, p50_us, p95_us, p99_us, min_us, mean_us, overflowed,
}
use fieldbus_control_node.Host.Schedule.{
  MissKind, miss_name, ThreadPolicy, policy_name, SchedulingReport,
}
use fieldbus_control_node.Host.Manifest.{Manifest, NegativeControl, HostError, control}
use fieldbus_control_node.Host.Timing.{Miss}
use fieldbus_control_node.Host.Contention.{HogOutcome}
use fieldbus_control_node.Host.Run.{RunOutcome}

abbrev pub max_explained_misses : ℕ
max_explained_misses = 200

-- `Reject::name`.
unfoldable pub reason_key : ℕ → String
reason_key zero = "bad_length"
reason_key (suc zero) = "unknown_pgn"
reason_key (suc (suc zero)) = "unexpected_source"
reason_key (suc (suc (suc zero))) = "bad_crc"
reason_key (suc (suc (suc (suc zero)))) = "bad_reserved"
reason_key (suc (suc (suc (suc (suc zero))))) = "duplicate"
reason_key (suc (suc (suc (suc (suc (suc zero)))))) = "out_of_order"
reason_key (suc (suc (suc (suc (suc (suc (suc n))))))) = "out_of_range"

pub record MissReport : Type 0 where
  pub cycle : ℕ
  pub kind : String
  pub jitter_us : ℕ
  pub work_us : ℕ
  pub overrun_us : ℕ

pub record DeadlineReport : Type 0 where
  pub count : ℕ
  pub explained : List MissReport
  pub explained_truncated : Bool

pub record CanReport : Type 0 where
  pub accepted : ℕ
  pub rejected : ℕ
  pub rejected_by_reason : List (String × ℕ)

pub record WatchdogReport : Type 0 where
  pub tripped : Bool
  pub reason : Option String
  pub reaction_time_us : Option ℕ
  pub reaction_bound_us : Option ℕ
  pub reaction_margin_us : Option ℤ
  pub overshoot_past_budget_us : Option ℕ
  pub trip_cycle : Option ℕ
  pub actuator_zero_since_trip : Bool
  pub timeout_us : ℕ

-- Without `detail`, a text for the reader.
pub record ThreadPolicyReport : Type 0 where
  pub policy : String
  pub requested : String
  pub granted : Bool
  pub qos_class : String

pub record JitterReport : Type 0 where
  pub p50 : ℕ
  pub p95 : ℕ
  pub p99 : ℕ
  pub max : ℕ
  pub min : ℕ
  pub mean : ℕ
  pub samples : ℕ
  pub histogram_bucket_width_us : ℕ
  pub histogram_overflowed : Bool

unfoldable pub jitter_report : JitterStats → JitterReport
jitter_report j = record {
  p50 = p50_us j;
  p95 = p95_us j;
  p99 = p99_us j;
  max = j.max_us;
  min = min_us j;
  mean = mean_us j;
  samples = j.count;
  histogram_bucket_width_us = bucket_width_us;
  histogram_overflowed = overflowed j;
}

pub record HogReport : Type 0 where
  pub threads : ℕ
  pub policy : ThreadPolicyReport
  pub policy_granted : ℕ
  pub window_start_cycle : ℕ
  pub window_end_cycle : ℕ
  pub misses_inside_window : ℕ
  pub misses_outside_window : ℕ
  pub jitter_inside_window : JitterReport
  pub jitter_outside_window : JitterReport

pub record Check : Type 0 where
  pub name : String
  pub passed : Bool

pub record GateReport : Type 0 where
  pub checks : List Check
  pub pass : Bool

pub record ControlReport : Type 0 where
  pub id : String
  pub caught_checks : List Check
  pub caught : Bool

pub record RunReport : Type 0 where
  pub run_id : String
  pub target_period_us : ℕ
  pub cycles : ℕ
  pub wall_us : ℕ
  pub jitter_us : JitterReport
  pub missed_deadlines : DeadlineReport
  pub can : CanReport
  pub watchdog : WatchdogReport
  pub control_thread_policy : ThreadPolicyReport
  pub hog : Option HogReport
  pub gate : GateReport
  pub control : Option ControlReport

unfoldable pub all_passed : List Check → Bool
all_passed [] = true
all_passed (c ∷ cs) = c.passed && all_passed cs

unfoldable pub from_checks : List Check → GateReport
from_checks checks = record { checks = checks; pass = all_passed checks }
