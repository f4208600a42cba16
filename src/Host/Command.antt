-- ===== src/Host/Command.antt =====
-- host/src/main.rs: `cmd_run`, from the parsed options and the parsed manifest to the report and
-- the verdict, and the verdict of `cmd_report`, without the files that they read and write.
use Prim.Native.String.{String}
use fieldbus_control_node.Prelude.{
  ℕ, ◌+◌, ◌*◌, ◌/◌, ◌==◌, Bool, false, ◌&&◌, Option, none, some, List, [], ◌∷◌, Result, ok, err,
  ◌>>=◌, u64, if◌then◌else◌, length,
}
use fieldbus_control_node.Control.Float.{Float32}
use fieldbus_control_node.Host.Bus.{FaultSchedule, SimBus, clean, send, recv_until}
use fieldbus_control_node.Host.Bus
use fieldbus_control_node.Host.Schedule.{Mode, System, ThreadPolicy, time_constraint, from_manifest}
use fieldbus_control_node.Host.Manifest.{
  Manifest, NegativeControl, HostError, missing_field, no_output, control,
}
use fieldbus_control_node.Host.Contention.{HogWindow}
use fieldbus_control_node.Host.Run.{CanBus, Clock, RunConfig, RunOutcome, run}
use fieldbus_control_node.Host.Report.{ControlReport, GateReport, RunReport}
use fieldbus_control_node.Host.Report.Build.{build_run_report}
use fieldbus_control_node.Host.Report.Verdict.{
  evaluate_cpu_hog, evaluate_can_corrupt, evaluate_sensor_freeze,
}

-- The options, without the paths of the files; whether an output was named.
pub record Opts : Type 0 where
  pub cycles : Option ℕ
  pub period_us : Option ℕ
  pub seed : Option ℕ
  pub mode : Mode
  pub run_id : Option String
  pub has_out : Bool

-- What a control makes of a run: the faults, the window and the control thread's policy.
pub record Setup : Type 0 where
  pub faults : FaultSchedule
  pub hog_window : Option HogWindow
  pub control_thread_policy : ThreadPolicy

unfoldable pub positive_setup : Setup
positive_setup = record {
  faults = clean;
  hog_window = none;
  control_thread_policy = time_constraint;
}

unfoldable pub ok_or {ℓ} : {A : Type ℓ} → Option A → HostError → Result A HostError
ok_or none e = err e
ok_or (some a) e = ok a

unfoldable pub hog_setup : ℕ → ℕ → NegativeControl → Result Setup HostError
hog_setup logical_cores cycles spec = do
  own ← ok_or spec.control_thread_policy (missing_field "control_thread_policy")
  policy ← from_manifest own
  theirs ← ok_or spec.hog_thread_policy (missing_field "hog_thread_policy")
  hog_policy ← from_manifest theirs
  ok (record positive_setup {
    control_thread_policy = policy;
    hog_window = some (record {
      start_cycle = u64 (cycles * 3) / 10;
      end_cycle = u64 (cycles * 7) / 10;
      threads = u64 (2 * logical_cores);
      policy = hog_policy;
    });
  })

unfoldable pub corrupt_setup : NegativeControl → Result Setup HostError
corrupt_setup spec = do
  c ← ok_or spec.injection_cycles (missing_field "injection_cycles")
  ok (record positive_setup {
    faults = record clean {
      bad_crc = c.bad_crc;
      duplicate = c.duplicate;
      out_of_order = c.out_of_order;
      out_of_range = c.out_of_range;
      bad_length = c.bad_length;
    };
  })

unfoldable pub freeze_setup : NegativeControl → Result Setup HostError
freeze_setup spec = do
  cycle ← ok_or spec.freeze_at_cycle (missing_field "freeze_at_cycle")
  ok (record positive_setup { faults = record clean { freeze_at = some cycle } })

-- The controls that the dispatch lets through.
pub data ControlId : Type 0 where
  cpu_hog can_corrupt sensor_freeze : ControlId

unfoldable pub control_name : ControlId → String
control_name cpu_hog = "cpu-hog"
control_name can_corrupt = "can-corrupt"
control_name sensor_freeze = "sensor-freeze"

unfoldable pub setup_of : ℕ → ℕ → ControlId → NegativeControl → Result Setup HostError
setup_of logical_cores cycles cpu_hog spec = hog_setup logical_cores cycles spec
setup_of logical_cores cycles can_corrupt spec = corrupt_setup spec
setup_of logical_cores cycles sensor_freeze spec = freeze_setup spec

unfoldable pub prepare_run : ℕ → ℕ → Option ControlId → Manifest → Result Setup HostError
prepare_run logical_cores cycles none m = ok positive_setup
prepare_run logical_cores cycles (some id) m = do
  spec ← control m (control_name id)
  setup_of logical_cores cycles id spec

unfoldable pub unwrap_or {ℓ} : {A : Type ℓ} → Option A → A → A
unwrap_or none a = a
unwrap_or (some b) a = b

unfoldable pub default_run_id : Option ControlId → String
default_run_id none = "positive"
default_run_id (some id) = control_name id

module _ (fl : Float32) where
  abbrev pub sim_bus : CanBus
  sim_bus = record { State = SimBus fl; send = send fl; recv_until = recv_until fl }

  unfoldable pub evaluate_control :
      ControlId → GateReport → RunOutcome fl → NegativeControl → ControlReport
  evaluate_control cpu_hog gate outcome spec = evaluate_cpu_hog gate
  evaluate_control can_corrupt gate outcome spec = evaluate_can_corrupt fl gate outcome spec
  evaluate_control sensor_freeze gate outcome spec = evaluate_sensor_freeze fl gate outcome spec

  -- The report with the control's verdict in it, and the verdict.
  unfoldable pub judge :
      Option ControlId → RunReport → RunOutcome fl → Manifest → Result (RunReport × Bool) HostError
  judge none report outcome m = ok (report, report.gate.pass)
  judge (some id) report outcome m = do
    spec ← control m (control_name id)
    let c = evaluate_control id report.gate outcome spec
    ok (record report { control = some c }, c.caught)

  unfoldable pub cmd_run :
      System → Clock → ℕ → Opts → Option ControlId → Manifest → Result (RunReport × Bool) HostError
  cmd_run sys clock logical_cores o id m =
      let cycles = unwrap_or o.cycles m.loop.cycles in
      let period_us = unwrap_or o.period_us m.loop.target_period_us in
      let seed = unwrap_or o.seed m.loop.seed in
      let run_id = unwrap_or o.run_id (default_run_id id) in
      if o.has_out
      then (prepare_run logical_cores cycles id m >>= λ setup.
          let cfg : RunConfig = record {
            cycles = cycles;
            period_us = period_us;
            control_thread_policy = setup.control_thread_policy;
            watchdog_timeout_us = m.watchdog.timeout_us;
            mode = o.mode;
          } in
          let outcome =
            (run fl sim_bus sys clock (Bus.new fl seed setup.faults) cfg setup.hog_window).1 in
          judge id (build_run_report fl run_id outcome period_us m) outcome m)
      else err no_output

pub record Summary : Type 0 where
  pub positive_runs_passed : ℕ
  pub positive_runs_total : ℕ
  pub controls_caught : ℕ
  pub controls_total : ℕ
  pub overall_pass : Bool

unfoldable pub count_passed : List RunReport → ℕ
count_passed [] = 0
count_passed (r ∷ rs) = (if r.gate.pass then 1 else 0) + count_passed rs

-- `r.control.as_ref().map(|c| c.caught).unwrap_or(false)`
unfoldable pub is_caught : Option ControlReport → Bool
is_caught none = false
is_caught (some c) = c.caught

unfoldable pub count_caught : List RunReport → ℕ
count_caught [] = 0
count_caught (r ∷ rs) = (if is_caught r.control then 1 else 0) + count_caught rs

unfoldable pub summarise : List RunReport → List RunReport → Summary
summarise positives controls =
    let passed = count_passed positives in
    let caught = count_caught controls in
    record {
      positive_runs_passed = passed;
      positive_runs_total = length positives;
      controls_caught = caught;
      controls_total = length controls;
      overall_pass = passed == length positives && caught == length controls;
    }
