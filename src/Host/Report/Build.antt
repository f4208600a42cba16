-- ===== src/Host/Report/Build.antt =====
-- host/src/report.rs: `build_run_report` and the positive gate.
use Prim.Native.String.{String}
use fieldbus_control_node.Prelude.{
  ℕ, zero, suc, ◌+◌, ◌==◌, not, ◌&&◌, ◌||◌, Option, none, some, List, [], ◌∷◌, leb, ltb, map,
  get_or, take, length, ℤ, pos, ◌-ℤ◌, Result, ok, err, u64, ◌^◌, ◌-◌, if◌then◌else◌,
}
use mathlib.Core.Option
use fieldbus_control_node.J1939.Validator.{reject_kinds}
use fieldbus_control_node.Watchdog.{
  reason_name, time_since_last_accepted_us, overshoot_past_budget_us,
}
use fieldbus_control_node.Control.Float.{Float32}
use fieldbus_control_node.Node.{is_some}
use fieldbus_control_node.Telemetry.{p99_us}
use fieldbus_control_node.Host.Schedule.{miss_name, ThreadPolicy, policy_name, SchedulingReport}
use fieldbus_control_node.Host.Manifest.{Manifest, NegativeControl, HostError, control}
use fieldbus_control_node.Host.Timing.{Miss}
use fieldbus_control_node.Host.Contention.{HogOutcome}
use fieldbus_control_node.Host.Run.{RunOutcome}
use fieldbus_control_node.Host.Report.{
  MissReport, WatchdogReport, ThreadPolicyReport, HogReport, GateReport, RunReport, from_checks,
  jitter_report, max_explained_misses, reason_key,
}

unfoldable pub thread_policy_report : ThreadPolicy → SchedulingReport → ThreadPolicyReport
thread_policy_report policy s = record {
  policy = policy_name policy;
  requested = s.requested;
  granted = s.granted;
  qos_class = s.qos_class;
}

unfoldable pub hog_report : HogOutcome → HogReport
hog_report h = record {
  threads = h.threads;
  policy = record {
    policy = policy_name h.policy;
    requested = h.policy_requested;
    granted = h.policy_granted == h.threads && ltb 0 h.threads;
    qos_class = h.qos_class;
  };
  policy_granted = h.policy_granted;
  window_start_cycle = h.start_cycle;
  window_end_cycle = h.end_cycle;
  misses_inside_window = h.misses_inside_window;
  misses_outside_window = h.misses_outside_window;
  jitter_inside_window = jitter_report h.jitter_inside_window;
  jitter_outside_window = jitter_report h.jitter_outside_window;
}

unfoldable pub miss_report : Miss → MissReport
miss_report m = record {
  cycle = m.cycle;
  kind = miss_name m.kind;
  jitter_us = m.jitter_us;
  work_us = m.work_us;
  overrun_us = m.overrun_us;
}

-- The counters of the reasons from one on, under their names.
unfoldable pub by_reason : List ℕ → ℕ → ℕ → List (String × ℕ)
by_reason counts i zero = []
by_reason counts i (suc left) = (reason_key i, get_or counts i 0) ∷ by_reason counts (i + 1) left

-- `.ok().and_then(|c| c.max_reaction_time_us)`
unfoldable pub bound_of : Result NegativeControl HostError → Option ℕ
bound_of (ok c) = c.max_reaction_time_us
bound_of (err e) = none

-- `x as i64`.
unfoldable pub as_i64 : ℕ → ℤ
as_i64 x = if ltb x (2 ^ 63) then pos x else pos x -ℤ pos (2 ^ 64)

-- `b as i64 - r as i64`, which wraps.
unfoldable pub margin : Option ℕ → Option ℕ → Option ℤ
unfolding as_i64
margin (some b) (some r) = some (as_i64 (u64 (b + (2 ^ 64 - r))))
margin none r = none
margin (some b) none = none

module _ (fl : Float32) where
  unfoldable pub evaluate_positive_gate : RunOutcome fl → Manifest → GateReport
  evaluate_positive_gate outcome m =
      let g = m.positive_gate in
      let misses = outcome.jitter.missed_deadlines in
      let p99 = p99_us outcome.jitter in
      let tripped = is_some outcome.safe_state in
      from_checks (
        record { name = "missed_deadlines"; passed = leb misses g.missed_deadlines_max }
        ∷ record { name = "p99_jitter_us"; passed = leb p99 g.p99_jitter_us_max }
        ∷ record { name = "rejected_frames"; passed = leb outcome.rejected g.rejected_frames_max }
        ∷ record { name = "watchdog_tripped"; passed = g.watchdog_may_trip || not tripped }
        ∷ [])

  unfoldable pub watchdog_report : RunOutcome fl → Manifest → WatchdogReport
  watchdog_report outcome m =
      let reaction = Option.map time_since_last_accepted_us outcome.safe_state in
      let bound = bound_of (control m "sensor-freeze") in
      record {
        tripped = is_some outcome.safe_state;
        reason = Option.map reason_name outcome.safe_state;
        reaction_time_us = reaction;
        reaction_bound_us = bound;
        reaction_margin_us = margin bound reaction;
        overshoot_past_budget_us = Option.map overshoot_past_budget_us outcome.safe_state;
        trip_cycle = outcome.trip_cycle;
        actuator_zero_since_trip = outcome.actuator_zero_since_trip;
        timeout_us = m.watchdog.timeout_us;
      }

  unfoldable pub build_run_report : String → RunOutcome fl → ℕ → Manifest → RunReport
  build_run_report run_id outcome period_us m =
      let explained = map miss_report (take max_explained_misses outcome.misses) in
      record {
        run_id = run_id;
        target_period_us = period_us;
        cycles = outcome.executed_cycles;
        wall_us = outcome.wall_us;
        jitter_us = jitter_report outcome.jitter;
        missed_deadlines = record {
          count = outcome.jitter.missed_deadlines;
          explained = explained;
          explained_truncated = ltb (length explained) (length outcome.misses);
        };
        can = record {
          accepted = outcome.accepted;
          rejected = outcome.rejected;
          rejected_by_reason = by_reason outcome.rejected_by_reason 0 reject_kinds;
        };
        watchdog = watchdog_report outcome m;
        control_thread_policy =
            thread_policy_report outcome.control_thread_policy outcome.scheduling;
        hog = Option.map hog_report outcome.hog;
        gate = evaluate_positive_gate outcome m;
        control = none;
      }
