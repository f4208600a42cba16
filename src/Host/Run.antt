-- ===== src/Host/Run.antt =====
-- host/src/runner.rs: `run`, the periodic loop, as a function of the bus, of the clock's readings
-- and of the operating system. The local variables of the function are the record `Loop`.
pub mod Listed
pub mod Misses
pub mod Virtual
pub mod Latched
pub mod Histogram
use fieldbus_control_node.Prelude.{
  ℕ, zero, suc, ◌+◌, ◌*◌, Bool, true, false, not, ◌&&◌, Option, none, some, List, if◌then◌else◌,
  u64, Result, pos,
}
use fieldbus_control_node.J1939.Payload.{Frame}
use fieldbus_control_node.Watchdog.{SafeState}
use fieldbus_control_node.Control.Float.{Float32}
use fieldbus_control_node.Node.{
  ControlNode, StepOutput, with_watchdog_timeout, step, is_some, rejected_by_reason,
}
use fieldbus_control_node.Telemetry.{JitterStats}
use fieldbus_control_node.Host.Bus.{BusError}
use fieldbus_control_node.Host.Schedule.{
  Mode, real_time, virtual, ThreadPolicy, System, SchedulingReport, schedule,
}
use fieldbus_control_node.Host.Hog.{CpuHog}
use fieldbus_control_node.Host.Timing.{Miss, Timing, time_start, time_end, untimed}
use fieldbus_control_node.Host.Contention.{
  HogWindow, HogOutcome, prepare, signal_hog, in_window, hog_outcome,
}

-- The trait `CanBus` over the state of one implementation of it.
pub record CanBus : Type 1 where
  pub State : Type 0
  pub send : State → Frame → State × Result (Unit {0}) BusError
  pub recv_until : State → ℕ → State × List Frame

-- What the monotonic clock reads, in microseconds from the loop's origin: in each cycle after the
-- sleep and after the work, and at the end of the run.
pub record Clock : Type 0 where
  pub woke : ℕ → ℕ
  pub finished : ℕ → ℕ
  pub wall : ℕ

pub record RunConfig : Type 0 where
  pub cycles : ℕ
  pub period_us : ℕ
  pub control_thread_policy : ThreadPolicy
  pub watchdog_timeout_us : ℕ
  pub mode : Mode

unfoldable pub start_us : Mode → Clock → ℕ → ℕ → ℕ
start_us real_time clock cycle scheduled_us = clock.woke cycle
start_us virtual clock cycle scheduled_us = scheduled_us

unfoldable pub end_us : Mode → Clock → ℕ → ℕ → ℕ
end_us real_time clock cycle scheduled_us = clock.finished cycle
end_us virtual clock cycle scheduled_us = scheduled_us

module _ (fl : Float32) where
  open fl use {F, le, literal}

  -- `a != b` of `f32`, true where a side is not a number.
  unfoldable pub differs : F → F → Bool
  differs a b = not (le a b && le b a)

  pub record RunOutcome : Type 0 where
    pub jitter : JitterStats
    pub misses : List Miss
    pub executed_cycles : ℕ
    pub accepted : ℕ
    pub rejected : ℕ
    pub rejected_by_reason : List ℕ
    pub safe_state : Option SafeState
    pub trip_cycle : Option ℕ
    pub actuator_zero_since_trip : Bool
    pub last_actuator : F
    pub control_thread_policy : ThreadPolicy
    pub scheduling : SchedulingReport
    pub wall_us : ℕ
    pub hog : Option HogOutcome

  -- What the loop keeps about the node's outputs.
  pub record Seen : Type 0 where
    pub trip_cycle : Option ℕ
    pub safe_state : Option SafeState
    pub actuator_zero_since_trip : Bool
    pub last_actuator : F
    pub accepted : ℕ
    pub rejected : ℕ

  unfoldable pub unseen : Seen
  unseen = record {
    trip_cycle = none;
    safe_state = none;
    actuator_zero_since_trip = true;
    last_actuator = literal (pos 0) 0;
    accepted = 0;
    rejected = 0;
  }

  -- `if let Some(s) = out.safe_state`: the first one is kept, with its cycle.
  unfoldable pub note_trip : Seen → ℕ → Option SafeState → Seen
  note_trip s cycle none = s
  note_trip s cycle (some safe) =
      if is_some s.trip_cycle
      then s
      else record s { trip_cycle = some cycle; safe_state = some safe }

  -- What the loop notes of a cycle's output.
  unfoldable pub note_output : Seen → ℕ → StepOutput fl → Seen
  note_output s cycle out =
      let s' = note_trip s cycle out.safe_state in
      let moved = is_some s'.trip_cycle && differs out.actuator (literal (pos 0) 0) in
      record s' {
        accepted = out.accepted;
        rejected = out.rejected;
        last_actuator = out.actuator;
        actuator_zero_since_trip = if moved then false else s'.actuator_zero_since_trip;
      }

  module _ (io : CanBus) where
    pub record Loop : Type 0 where
      pub hog : Option (HogWindow × CpuHog)
      pub bus : io.State
      pub node : ControlNode fl
      pub timing : Timing
      pub seen : Seen

    unfoldable pub send_command : io.State → Option Frame → io.State
    send_command b none = b
    send_command b (some f) = (io.send b f).0

    -- Receive, step the node, transmit.
    unfoldable pub exchange :
        RunConfig → io.State → ControlNode fl → ℕ → ℕ → io.State × ControlNode fl × StepOutput fl
    exchange cfg b node cycle start =
        let (b', frames) = io.recv_until b (u64 (u64 (cycle * cfg.period_us) + cfg.period_us)) in
        let (node', out) = step fl node start frames in
        (send_command b' out.command_frame, node', out)

    unfoldable pub run_cycle : RunConfig → Clock → Loop → ℕ → Loop
    run_cycle cfg clock l cycle =
        let scheduled = u64 (cycle * cfg.period_us) in
        let hog = signal_hog l.hog cycle in
        let start = start_us cfg.mode clock cycle scheduled in
        let inside = in_window hog cycle in
        let t = time_start cfg.period_us l.timing inside cycle start in
        let (b, node, out) = exchange cfg l.bus l.node cycle start in
        let end = end_us cfg.mode clock cycle scheduled in
        record {
          hog = hog;
          bus = b;
          node = node;
          timing = time_end cfg.period_us t inside cycle start end;
          seen = note_output l.seen cycle out;
        }

    -- The cycles that are left, and the index of the next one.
    unfoldable pub run_cycles : RunConfig → Clock → ℕ → ℕ → Loop → Loop
    run_cycles cfg clock zero cycle l = l
    run_cycles cfg clock (suc left) cycle l =
        run_cycles cfg clock left (cycle + 1) (run_cycle cfg clock l cycle)

    unfoldable pub started : RunConfig → Option HogWindow → io.State → Loop
    started cfg hog_window b = record {
      hog = prepare hog_window;
      bus = b;
      node = with_watchdog_timeout fl 0 cfg.watchdog_timeout_us;
      timing = untimed cfg.period_us;
      seen = unseen;
    }

    unfoldable pub outcome_of : System → RunConfig → Clock → Loop → RunOutcome
    outcome_of sys cfg clock l = record {
      jitter = l.timing.jitter;
      misses = l.timing.misses;
      executed_cycles = cfg.cycles;
      accepted = l.seen.accepted;
      rejected = l.seen.rejected;
      rejected_by_reason = rejected_by_reason fl l.node;
      safe_state = l.seen.safe_state;
      trip_cycle = l.seen.trip_cycle;
      actuator_zero_since_trip = l.seen.actuator_zero_since_trip;
      last_actuator = l.seen.last_actuator;
      control_thread_policy = cfg.control_thread_policy;
      scheduling = schedule sys cfg.mode cfg.control_thread_policy;
      wall_us = clock.wall;
      hog = hog_outcome sys l.timing l.hog;
    }

    -- The bus, as the run leaves it, and the outcome.
    unfoldable pub run :
        System → Clock → io.State → RunConfig → Option HogWindow → io.State × RunOutcome
    run sys clock b cfg hog_window =
        let l = run_cycles cfg clock cfg.cycles 0 (started cfg hog_window b) in
        (l.bus, outcome_of sys cfg clock l)
