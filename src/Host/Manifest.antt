-- ===== src/Host/Manifest.antt =====
-- host/src/manifest.rs: the frozen experiment, once its file is read and parsed. A map from names
-- to numbers is the list of its entries.
use Prim.Native.String.{String}
use fieldbus_control_node.Prelude.{
  same_text, ℕ, Bool, Option, List, [], ◌∷◌, Result, ok, err, if◌then◌else◌,
}

pub record LoopSpec : Type 0 where
  pub target_period_us : ℕ
  pub cycles : ℕ
  pub seed : ℕ

pub record WatchdogSpec : Type 0 where
  pub timeout_us : ℕ

pub record PositiveGate : Type 0 where
  pub missed_deadlines_max : ℕ
  pub p99_jitter_us_max : ℕ
  pub rejected_frames_max : ℕ
  pub watchdog_may_trip : Bool

pub record InjectionCycles : Type 0 where
  pub bad_crc : List ℕ
  pub duplicate : List ℕ
  pub out_of_order : List ℕ
  pub out_of_range : List ℕ
  pub bad_length : List ℕ

pub record NegativeControl : Type 0 where
  pub id : String
  pub injection_cycles : Option InjectionCycles
  pub expected_rejected_total : Option ℕ
  pub expected_rejected_by_reason : Option (List (String × ℕ))
  pub expected_accepted : Option ℕ
  pub control_thread_policy : Option String
  pub hog_thread_policy : Option String
  pub freeze_at_cycle : Option ℕ
  pub max_reaction_time_us : Option ℕ

pub record Manifest : Type 0 where
  pub loop : LoopSpec
  pub watchdog : WatchdogSpec
  pub positive_gate : PositiveGate
  pub negative_controls : List NegativeControl

-- The errors of the host's commands, without their sentences.
pub data HostError : Type 0 where
  no_control : String → HostError
  missing_field : String → HostError
  unknown_policy : String → HostError
  no_output : HostError

-- The first control with the given `id`.
unfoldable pub find_control : List NegativeControl → String → Result NegativeControl HostError
find_control [] id = err (no_control id)
find_control (c ∷ cs) id = let rest = find_control cs id in if same_text c.id id then ok c else rest

unfoldable pub control : Manifest → String → Result NegativeControl HostError
unfolding find_control
control m id = find_control m.negative_controls id
