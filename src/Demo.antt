-- ===== src/Demo.antt =====
-- wasm/src/lib.rs: `run_demo`, from the mode and the two numbers that the page asks for to the
-- samples and the summary of the result, without its JSON text.
pub mod Fed
pub mod Silent
pub mod Loop
pub mod Outcome
use Prim.Native.String.{String}
use fieldbus_control_node.Prelude.{
  ℕ, zero, suc, ◌+◌, ◌-◌, ◌*◌, ◌/◌, ◌%◌, Bool, true, false, not, ◌&&◌, ◌||◌, Option, none, some,
  List, [], ◌∷◌, ltb, ◌==◌, if◌then◌else◌, min, u8, u32, bit_xor, ℤ, pos, ◌-ℤ◌, same_text,
}
use fieldbus_control_node.J1939.Payload.{Frame, sensor_frame, status_ok}
use fieldbus_control_node.Watchdog.{
  SafeReason, SafeState, sensor_stale, time_since_last_accepted_us,
}
use fieldbus_control_node.Control.Float.{Float32}
use fieldbus_control_node.Node.{
  ControlNode, StepOutput, with_watchdog_timeout, watchdog_timeout_us, step, is_some,
}

abbrev pub period_us : ℕ
period_us = 10000

unfoldable pub clamp : ℕ → ℕ → ℕ → ℕ
clamp low high n = if ltb n low then low else if ltb high n then high else n

unfoldable pub cycles_of : ℕ → ℕ
unfolding clamp
cycles_of requested_cycles = clamp 50 2000 requested_cycles

unfoldable pub fault_cycle_of : ℕ → ℕ → ℕ
fault_cycle_of cycles requested_fault_cycle = min requested_fault_cycle (cycles - 1)

-- The reading of a cycle: at most 599 and at least -600, so its casts to `i32` and `i16` are exact.
unfoldable pub reading_at : ℕ → ℤ
reading_at cycle = pos (u32 (cycle * 37) % 1200) -ℤ pos 600

unfoldable pub demo_frame : ℕ → Frame
unfolding reading_at
demo_frame cycle = sensor_frame (u8 cycle) (reading_at cycle) status_ok

unfoldable pub corrupt : Frame → Frame
corrupt f = record f { bytes = record f.bytes { b7 = bit_xor f.bytes.b7 0x01 } }

-- What the node receives in a cycle.
unfoldable pub received : String → ℕ → ℕ → List Frame
unfolding demo_frame corrupt
received mode fault_cycle cycle =
    let frozen = same_text mode "sensor_stale" && not (ltb cycle fault_cycle) in
    let frame = demo_frame cycle in
    if frozen
    then []
    else if same_text mode "bad_crc" && cycle == fault_cycle
    then frame ∷ corrupt frame ∷ []
    else frame ∷ []

-- `map_or(default, |state| state.time_since_last_accepted_us())`
unfoldable pub reaction_or : ℕ → Option SafeState → ℕ
reaction_or default none = default
reaction_or default (some state) = time_since_last_accepted_us state

unfoldable pub trip_cycle : SafeReason → ℕ
trip_cycle (sensor_stale last_seen_us tripped_at_us timeout_us) = u32 (tripped_at_us / period_us)

unfoldable pub safe_cycle_of : Option SafeState → Option ℕ
safe_cycle_of none = none
safe_cycle_of (some state) = some (trip_cycle state.reason)

unfoldable pub mode_shown : String → String
mode_shown mode =
    if same_text mode "bad_crc" || same_text mode "sensor_stale" then mode else "normal"

module _ (fl : Float32) where
  pub record Sample : Type 0 where
    pub cycle : ℕ
    pub actuator : fl.F
    pub accepted : ℕ
    pub rejected : ℕ
    pub safe : Bool
    pub reaction_us : ℕ

  pub record Demo : Type 0 where
    pub mode : String
    pub cycles : ℕ
    pub fault_cycle : ℕ
    pub samples : List Sample
    pub accepted : ℕ
    pub rejected : ℕ
    pub safe_latched : Bool
    pub safe_cycle : Option ℕ
    pub reaction_us : ℕ

  unfoldable pub sample_of : ℕ → StepOutput fl → Sample
  sample_of cycle output = record {
    cycle = cycle;
    actuator = output.actuator;
    accepted = output.accepted;
    rejected = output.rejected;
    safe = is_some output.safe_state;
    reaction_us = reaction_or 0 output.safe_state;
  }

  -- What the loop leaves: the node, the last reaction time and the samples.
  pub record Played : Type 0 where
    pub node : ControlNode fl
    pub last_reaction_us : ℕ
    pub samples : List Sample

  -- The loop from `cycle` on, with `left` cycles to go.
  unfoldable pub play : String → ℕ → ℕ → ℕ → ControlNode fl → ℕ → Played
  play mode fault_cycle zero cycle n last_reaction_us = record {
    node = n;
    last_reaction_us = last_reaction_us;
    samples = [];
  }
  play mode fault_cycle (suc left) cycle n last_reaction_us =
      let (n', output) = step fl n (cycle * period_us) (received mode fault_cycle cycle) in
      let rest =
        play mode fault_cycle left (cycle + 1) n'
          (reaction_or last_reaction_us output.safe_state) in
      record rest { samples = sample_of cycle output ∷ rest.samples }

  unfoldable pub run_demo : String → ℕ → ℕ → Demo
  unfolding cycles_of fault_cycle_of
  run_demo mode requested_cycles requested_fault_cycle =
      let cycles = cycles_of requested_cycles in
      let fault_cycle = fault_cycle_of cycles requested_fault_cycle in
      let node = with_watchdog_timeout fl 0 watchdog_timeout_us in
      let played = play mode fault_cycle cycles 0 node 0 in
      let last = (step fl played.node (cycles * period_us) []).1 in
      record {
        mode = mode_shown mode;
        cycles = cycles;
        fault_cycle = fault_cycle;
        samples = played.samples;
        accepted = last.accepted;
        rejected = last.rejected;
        safe_latched = is_some last.safe_state;
        safe_cycle = safe_cycle_of last.safe_state;
        reaction_us = reaction_or played.last_reaction_us last.safe_state;
      }
