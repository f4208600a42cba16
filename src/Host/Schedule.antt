-- ===== src/Host/Schedule.antt =====
-- host/src/runner.rs: modes, kinds of misses and scheduling policies, on Linux. The operating
-- system and the standard library's printing of a number are parameters.
use Prim.Native.String.{String}
use fieldbus_control_node.Host.Manifest.{HostError, unknown_policy}
use fieldbus_control_node.Prelude.{
  same_text, ℕ, Bool, true, false, Result, ok, err, ℤ, pos, negsuc, zero, suc, if◌then◌else◌,
}

abbrev is_zero_ℤ : ℤ → Bool
is_zero_ℤ (pos zero) = true
is_zero_ℤ (pos (suc n)) = false
is_zero_ℤ (negsuc n) = false

pub data Mode : Type 0 where
  real_time virtual : Mode

unfoldable pub mode_name : Mode → String
mode_name real_time = "real-time"
mode_name virtual = "virtual-time"

pub data MissKind : Type 0 where
  work_overran skipped_period : MissKind

unfoldable pub miss_name : MissKind → String
miss_name work_overran = "work_overran"
miss_name skipped_period = "skipped_period"

pub data ThreadPolicy : Type 0 where
  time_constraint default_timeshare : ThreadPolicy

unfoldable pub policy_name : ThreadPolicy → String
policy_name time_constraint = "mach-time-constraint"
policy_name default_timeshare = "default-timeshare"

unfoldable pub from_manifest : String → Result ThreadPolicy HostError
from_manifest name =
    if same_text name "mach-time-constraint"
    then ok time_constraint
    else if same_text name "default-timeshare"
    then ok default_timeshare
    else err (unknown_policy name)

pub record SchedulingReport : Type 0 where
  pub requested : String
  pub granted : Bool
  pub detail : String
  pub qos_class : String

-- The return code of `pthread_setschedparam` for `SCHED_FIFO`, by the calling thread: 0 for the
-- control thread, and one more than its index for a spinner; and the report of a code, printed.
pub record System : Type 0 where
  pub pthread_setschedparam : ℕ → ℤ
  pub printed_rc : ℤ → String

unfoldable pub qos_class_of_current_thread : String
qos_class_of_current_thread = "not applicable on this platform"

unfoldable pub request_realtime_policy : System → ℕ → SchedulingReport
request_realtime_policy sys thread =
    let rc = sys.pthread_setschedparam thread in
    record {
      requested = "SCHED_FIFO priority=80";
      granted = is_zero_ℤ rc;
      detail = sys.printed_rc rc;
      qos_class = qos_class_of_current_thread;
    }

unfoldable pub apply : System → ℕ → ThreadPolicy → SchedulingReport
apply sys thread time_constraint = request_realtime_policy sys thread
apply sys thread default_timeshare = record {
  requested = "none: the default timeshare policy";
  granted = false;
  detail = "no thread_policy_set call was made on this thread";
  qos_class = qos_class_of_current_thread;
}

-- What `run` does about the control thread, by the mode.
unfoldable pub schedule : System → Mode → ThreadPolicy → SchedulingReport
schedule sys real_time policy = apply sys 0 policy
schedule sys virtual policy = record {
  requested = "none";
  granted = false;
  detail = "virtual-time mode does not sleep, so no scheduling policy is requested";
  qos_class = qos_class_of_current_thread;
}
