-- ===== src/Host/Bus.antt =====
-- host/src/bus.rs: the simulated bus, its plant and its schedule of faults. A set of cycles is a
-- list of them.
pub mod Faults
pub mod Caused
use Prim.Native.String.{String}
use fieldbus_control_node.Prelude.{
  ℕ, ◌+◌, ◌*◌, ◌%◌, Bool, true, false, not, ◌&&◌, ◌||◌, Option, none, some, List, [], ◌∷◌, ◌++◌,
  ltb, ◌==◌, if◌then◌else◌, length, u8, u64, ◌>>>◌, bit_xor, ℤ, pos, ◌+ℤ◌, Result, ok,
}
use fieldbus_control_node.J1939.Crc.{crc8_j1850}
use fieldbus_control_node.J1939.Payload.{
  Frame, covered, decode, sensor_frame, payload_len, status_ok,
}
use fieldbus_control_node.J1939.Validator.{value_max}
use fieldbus_control_node.Control.Float.{Float32}

pub data BusError : Type 0 where
  io : String → BusError

pub record FaultSchedule : Type 0 where
  pub bad_crc : List ℕ
  pub duplicate : List ℕ
  pub out_of_order : List ℕ
  pub out_of_range : List ℕ
  pub bad_length : List ℕ
  pub dropped : List ℕ
  pub freeze_at : Option ℕ

unfoldable pub clean : FaultSchedule
clean = record {
  bad_crc = [];
  duplicate = [];
  out_of_order = [];
  out_of_range = [];
  bad_length = [];
  dropped = [];
  freeze_at = none;
}

unfoldable pub contains : List ℕ → ℕ → Bool
contains [] cycle = false
contains (c ∷ cs) cycle = c == cycle || contains cs cycle

unfoldable pub is_empty {ℓ} : {A : Type ℓ} → List A → Bool
is_empty [] = true
is_empty (c ∷ cs) = false

-- `freeze_at.is_some_and(|f| cycle >= f)`.
unfoldable pub frozen : Option ℕ → ℕ → Bool
frozen none cycle = false
frozen (some f) cycle = not (ltb cycle f)

unfoldable pub never_frozen : Option ℕ → Bool
never_frozen none = true
never_frozen (some f) = false

unfoldable pub is_clean : FaultSchedule → Bool
is_clean s =
    is_empty s.bad_crc
    && (is_empty s.duplicate
        && (is_empty s.out_of_order
            && (is_empty s.out_of_range
                && (is_empty s.bad_length && (is_empty s.dropped && never_frozen s.freeze_at)))))

unfoldable pub injected_count : FaultSchedule → ℕ
injected_count s =
    length s.bad_crc
    + length s.duplicate
    + length s.out_of_order
    + length s.out_of_range
    + length s.bad_length

-- A frame that is pushed only under a condition.
unfoldable pub when {ℓ} : {A : Type ℓ} → Bool → A → List A
when true a = a ∷ []
when false a = []

-- The injected frames of a cycle.
unfoldable pub extras : FaultSchedule → ℕ → ℕ → ℤ → List Frame
extras s cycle seq value =
    let good = sensor_frame seq value status_ok in
    let corrupted = record good { bytes = record good.bytes { b7 = bit_xor good.bytes.b7 0xFF } } in
    let short = record (sensor_frame (u8 (seq + 1)) value status_ok) { dlc = 4 } in
    when (contains s.bad_crc cycle) corrupted
    ++ (when (contains s.duplicate cycle) good
        ++ (when (contains s.out_of_order cycle) (sensor_frame (u8 (seq + 5)) value status_ok)
            ++ (when (contains s.out_of_range cycle)
                  (sensor_frame (u8 (seq + 1)) (value_max +ℤ pos 1) status_ok)
                ++ when (contains s.bad_length cycle) short)))

-- The frames of a cycle whose sensor transmits: the good one, and behind it the injected ones.
unfoldable pub burst : FaultSchedule → ℕ → ℕ → ℤ → List Frame
burst s cycle seq value = sensor_frame seq value status_ok ∷ extras s cycle seq value

module _ (fl : Float32) where
  pub record SimBus : Type 0 where
    pub cycle : ℕ
    pub plant : fl.F
    pub seq : ℕ
    pub rng : ℕ
    pub faults : FaultSchedule
    pub sent : ℕ

  abbrev pub plant_gain : fl.F
  plant_gain = fl.literal (pos 5) 2

  unfoldable pub new : ℕ → FaultSchedule → SimBus
  new seed faults = record {
    cycle = 0;
    plant = fl.literal (pos 0) 0;
    seq = 0;
    rng = bit_xor seed 0x9E3779B97F4A7C15;
    faults = faults;
    sent = 0;
  }

  unfoldable pub noise : SimBus → SimBus × fl.F
  noise b =
      let rng = u64 (b.rng * 6364136223846793005 + 1442695040888963407) in
      (
        record b { rng = rng },
        fl.sub (fl.literal (pos ((rng >>> 33) % 5)) 0) (fl.literal (pos 2) 0),
      )

  unfoldable pub send : SimBus → Frame → SimBus × Result (Unit {0}) BusError
  send b frame =
      if frame.dlc == payload_len && frame.bytes.b7 == crc8_j1850 (covered frame.bytes)
      then (
        record b {
          plant =
              fl.add b.plant
                (fl.mul plant_gain (fl.sub (fl.of_i16 (decode frame.bytes).value) b.plant));
          sent = u64 (b.sent + 1);
        },
        ok tt,
      )
      else (b, ok tt)

  unfoldable pub transmit : SimBus → ℕ → SimBus × List Frame
  transmit b cycle =
      let (b', error) = noise b in
      let value = fl.to_i16 (fl.add b'.plant error) in
      (record b' { seq = u8 (b'.seq + 1) }, burst b'.faults cycle b'.seq value)

  unfoldable pub recv_until : SimBus → ℕ → SimBus × List Frame
  recv_until b deadline_us =
      let cycle = b.cycle in
      let b' = record b { cycle = u64 (b.cycle + 1) } in
      if frozen b.faults.freeze_at cycle || contains b.faults.dropped cycle
      then (b', [])
      else transmit b' cycle
