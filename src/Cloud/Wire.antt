-- ===== src/Cloud/Wire.antt =====
-- cloud/src/lib.rs: the records of the protocol and of the event log.
use Prim.Native.String.{String}
use fieldbus_control_node.Prelude.{ℕ, ◌≡◌, Bool, true, Option, ◌==◌, ◌&&◌, ℤ, pos_part, neg_part}
use fieldbus_control_node.Cloud.Map.Orders.{Text, eq_text}

abbrev pub protocol_version : ℕ
protocol_version = 1

abbrev pub max_batch : ℕ
max_batch = 64

abbrev pub max_ring : ℕ
max_ring = 256

abbrev pub max_stored_readings : ℕ
max_stored_readings = 100000

-- The primitive type `f64`, as far as the service uses it: a finite number equals itself.
pub record Float64 : Type 1 where
  pub F : Type 0
  pub is_finite : F → Bool
  pub eq : F → F → Bool
  pub eq_refl : (x : F) → is_finite x ≡ true → eq x x ≡ true

pub data Error : Type 0 where
  io invalid : String → Error
  unauthorized not_found conflict : Error

pub record DeviceRecord : Type 0 where
  pub device_id : Text
  pub credential_version : ℕ
  pub secret_hex : Text
  pub firmware_version : Text
  pub config_version : ℕ
  pub last_seen_ms : Option ℤ
  pub last_sequence : Option ℕ
  pub boot_counter : Option ℕ

pub record FirmwareMetadata : Type 0 where
  pub version : Text
  pub sha256 : Text
  pub min_bootloader : Text
  pub rollback_version : Option Text

pub record ConfigMetadata : Type 0 where
  pub version : ℕ
  pub sample_period_ms : ℕ
  pub stale_after_ms : ℕ

pub record Health : Type 0 where
  pub device_id : Text
  pub online : Bool
  pub stale : Bool
  pub last_seen_ms : Option ℤ
  pub last_sequence : Option ℕ
  pub boot_counter : Option ℕ

module _ (f64 : Float64) where
  pub record Reading : Type 0 where
    pub device_id : Text
    pub firmware_version : Text
    pub sequence : ℕ
    pub device_timestamp_ms : ℤ
    pub boot_counter : ℕ
    pub value : f64.F
    pub quality : Text

  pub record Envelope : Type 0 where
    pub protocol_version : ℕ
    pub reading : Reading
    pub signature : Text

  pub data Event : Type 0 where
    registered credential_rotated : DeviceRecord → Event
    -- envelope, received_ms
    reading_accepted : Envelope → ℤ → Event
    firmware_published : FirmwareMetadata → Event
    config_published : ConfigMetadata → Event

  abbrev eq_ℤ : ℤ → ℤ → Bool
  eq_ℤ a b = pos_part a == pos_part b && neg_part a == neg_part b

  -- `==` of two readings, field by field; the values compare as floats.
  unfoldable pub eq_reading : Reading → Reading → Bool
  eq_reading a b =
      eq_text a.device_id b.device_id
      && (eq_text a.firmware_version b.firmware_version
          && (a.sequence == b.sequence
              && (eq_ℤ a.device_timestamp_ms b.device_timestamp_ms
                  && (a.boot_counter == b.boot_counter
                      && (f64.eq a.value b.value && eq_text a.quality b.quality)))))
