-- ===== src/Node.antt =====
-- core/src/node.rs: `ControlNode`, one control period as a function of the state, the time and the
-- frames received.
pub mod Ingest
pub mod Command
pub mod Safe
pub mod Starved
pub mod Bounds
use fieldbus_control_node.Prelude.{
  ℕ, ◌+◌, Bool, true, false, Option, none, some, List, [], ◌∷◌, if◌then◌else◌, u8, pos, negsuc,
  Result, ok, err,
}
use fieldbus_control_node.J1939.Payload.{Frame, Payload, command_frame, status_ok, status_safe}
use fieldbus_control_node.J1939.Validator.{Validator, Reject, validate}
use fieldbus_control_node.J1939.Validator
use fieldbus_control_node.Watchdog.{Watchdog, SafeState, feed, check}
use fieldbus_control_node.Watchdog
use fieldbus_control_node.Control.Float.{Float32}
use fieldbus_control_node.Control.LowPass.{LowPass}
use fieldbus_control_node.Control.LowPass
use fieldbus_control_node.Control.Pi.{Pi}
use fieldbus_control_node.Control.Pi

abbrev pub watchdog_timeout_us : ℕ
watchdog_timeout_us = 80000

abbrev pub is_some {ℓ} : {A : Type ℓ} → Option A → Bool
is_some none = false
is_some (some a) = true

module _ (fl : Float32) where
  open fl use {F, literal, of_i16, to_i16}

  abbrev pub setpoint : F
  setpoint = literal (pos 500) 0

  -- 0.30
  abbrev pub filter_alpha : F
  filter_alpha = literal (pos 30) 2

  -- 0.60
  abbrev pub kp : F
  kp = literal (pos 60) 2

  -- 4.00
  abbrev pub ki : F
  ki = literal (pos 400) 2

  -- -1000
  abbrev pub out_min : F
  out_min = literal (negsuc 999) 0

  abbrev pub out_max : F
  out_max = literal (pos 1000) 0

  abbrev pub safe_actuator : F
  safe_actuator = literal (pos 0) 0

  pub record StepOutput : Type 0 where
    pub command_frame : Option Frame
    pub actuator : F
    pub safe_state : Option SafeState
    pub accepted : ℕ
    pub rejected : ℕ

  pub record ControlNode : Type 0 where
    pub validator : Validator
    pub filter : LowPass fl
    pub pi : Pi fl
    pub watchdog : Watchdog
    pub tx_seq : ℕ
    pub setpoint : F

  unfoldable pub with_watchdog_timeout : ℕ → ℕ → ControlNode
  with_watchdog_timeout start_us timeout_us = record {
    validator = Validator.new;
    filter = LowPass.new fl filter_alpha;
    pi = Pi.new fl kp ki out_min out_max;
    watchdog = Watchdog.new timeout_us start_us;
    tx_seq = 0;
    setpoint = setpoint;
  }

  unfoldable pub new : ℕ → ControlNode
  unfolding with_watchdog_timeout
  new start_us = with_watchdog_timeout start_us watchdog_timeout_us

  -- What an accepted frame does besides: it feeds the watchdog, and its value is the fresh one.
  unfoldable pub take_outcome :
      ControlNode → Option F → ℕ → Result Payload Reject → ControlNode × Option F
  take_outcome n fresh now_us (ok payload) =
      (record n { watchdog = feed n.watchdog now_us }, some (of_i16 payload.value))
  take_outcome n fresh now_us (err r) = (n, fresh)

  -- The loop over the received frames.
  unfoldable pub ingest : ControlNode → Option F → ℕ → List Frame → ControlNode × Option F
  ingest n fresh now_us [] = (n, fresh)
  ingest n fresh now_us (frame ∷ received) =
      let (v, outcome) = validate n.validator frame in
      let (n', fresh') = take_outcome (record n { validator = v }) fresh now_us outcome in
      ingest n' fresh' now_us received

  -- `if let Some(v) = fresh { self.filter.update(v); }`
  unfoldable pub filter_fresh : LowPass fl → Option F → LowPass fl
  filter_fresh f none = f
  filter_fresh f (some v) = (LowPass.update fl f v).0

  -- The control law, run when no safe state is latched.
  unfoldable pub control : ControlNode → Option F → ControlNode × F
  unfolding filter_fresh
  control n fresh =
      let f = filter_fresh n.filter fresh in
      let (c, out) = Pi.update fl n.pi n.setpoint (LowPass.value fl f) in
      (record n { filter = f; pi = c }, out)

  unfoldable pub actuate : ControlNode → Option F → Option SafeState → ControlNode × F
  unfolding control
  actuate n fresh (some s) = (n, safe_actuator)
  actuate n fresh none = control n fresh

  unfoldable pub step : ControlNode → ℕ → List Frame → ControlNode × StepOutput
  step n now_us received =
      let (n₁, fresh) = ingest n none now_us received in
      let (w, safe_state) = check n₁.watchdog now_us in
      let (n₂, actuator) = actuate (record n₁ { watchdog = w }) fresh safe_state in
      let status = if is_some safe_state then status_safe else status_ok in
      let frame = command_frame n₂.tx_seq (to_i16 actuator) status in
      (
        record n₂ { tx_seq = u8 (n₂.tx_seq + 1) },
        record {
          command_frame = some frame;
          actuator = actuator;
          safe_state = safe_state;
          accepted = n₂.validator.accepted;
          rejected = n₂.validator.rejected;
        },
      )

  unfoldable pub reset : ControlNode → ℕ → ControlNode
  reset n now_us = record n {
    watchdog = Watchdog.reset n.watchdog now_us;
    pi = Pi.reset fl n.pi;
    filter = LowPass.reset fl n.filter;
    validator = Validator.reset_sequence n.validator;
  }

  unfoldable pub safe_state : ControlNode → Option SafeState
  safe_state n = n.watchdog.latched

  unfoldable pub rejected_by_reason : ControlNode → List ℕ
  rejected_by_reason n = n.validator.by_reason
