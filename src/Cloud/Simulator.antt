-- ===== src/Cloud/Simulator.antt =====
-- cloud/src/lib.rs: `DeviceSimulator`.
pub mod Ring
pub mod Deliver
use Prim.Native.String.{String}
use fieldbus_control_node.Prelude.{
  ℕ, ◌+◌, Bool, List, [], ◌∷◌, ◌++◌, ltb, ◌==◌, if◌then◌else◌, length, take, drop, u64, Result, ok,
  err, ◌>>=◌, ℤ,
}
use fieldbus_control_node.Cloud.Map.Orders.{Text}
use fieldbus_control_node.Cloud.Wire.{
  Float64, Reading, Envelope, Error, invalid, max_batch, max_ring,
}
use fieldbus_control_node.Cloud.Sign.{Crates, signed}

module _ (f64 : Float64) where
  pub record DeviceSimulator : Type 0 where
    pub device_id : Text
    pub firmware_version : Text
    pub secret_hex : Text
    pub boot_counter : ℕ
    pub next_sequence : ℕ
    pub ring : List (Reading f64)
    pub dropped_when_full : ℕ

  unfoldable pub new : Text → Text → Text → ℕ → DeviceSimulator
  new device_id firmware secret_hex boot_counter = record {
    device_id = device_id;
    firmware_version = firmware;
    secret_hex = secret_hex;
    boot_counter = boot_counter;
    next_sequence = 0;
    ring = [];
    dropped_when_full = 0;
  }

  unfoldable pub reading_of : DeviceSimulator → ℤ → f64.F → Text → Reading f64
  reading_of d timestamp_ms value quality = record {
    device_id = d.device_id;
    firmware_version = d.firmware_version;
    sequence = d.next_sequence;
    device_timestamp_ms = timestamp_ms;
    boot_counter = d.boot_counter;
    value = value;
    quality = quality;
  }

  -- A full ring gives up its oldest reading.
  unfoldable pub make_room : DeviceSimulator → DeviceSimulator
  make_room d =
      if length d.ring == max_ring
      then record d { ring = drop 1 d.ring; dropped_when_full = u64 (d.dropped_when_full + 1) }
      else d

  unfoldable pub sample : DeviceSimulator → ℤ → f64.F → Text → DeviceSimulator
  sample d timestamp_ms value quality =
      let reading = reading_of d timestamp_ms value quality in
      let d' = make_room (record d { next_sequence = u64 (d.next_sequence + 1) }) in
      record d' { ring = d'.ring ++ reading ∷ [] }

  unfoldable pub reboot : DeviceSimulator → DeviceSimulator
  reboot d = record d { boot_counter = u64 (d.boot_counter + 1); next_sequence = 0 }

  module _ (crates : Crates f64) where
    -- The batch that `sync` sends: the signed readings at the head of the ring.
    unfoldable pub sign_all : Text → List (Reading f64) → Result (List (Envelope f64)) Error
    sign_all secret_hex [] = ok []
    sign_all secret_hex (r ∷ rs) = do
      e ← signed f64 crates secret_hex r
      es ← sign_all secret_hex rs
      ok (e ∷ es)

    -- What the device makes of the answer to a batch.
    unfoldable pub settle :
        DeviceSimulator → List (Envelope f64) → Result ℕ Error → DeviceSimulator × Result ℕ Error
    settle d batch (err e) = (d, err e)
    settle d batch (ok n) =
        if ltb (length batch) n
        then (d, err (invalid "accepted count exceeds submitted batch"))
        else (record d { ring = drop (length batch) d.ring }, ok n)

    -- `send` passes on the state of the server that it talks to.
    module _ {W : Type 0} (send : W → List (Envelope f64) → W × Result ℕ Error) where
      unfoldable pub submit :
          DeviceSimulator
          → W
          → Result (List (Envelope f64)) Error
          → DeviceSimulator × W × Result ℕ Error
      submit d w (err e) = (d, w, err e)
      submit d w (ok []) = (d, w, ok 0)
      submit d w (ok (e ∷ es)) =
          let (w', answer) = send w (e ∷ es) in
          let (d', r) = settle d (e ∷ es) answer in (d', w', r)

      unfoldable pub sync : DeviceSimulator → W → DeviceSimulator × W × Result ℕ Error
      sync d w = submit d w (sign_all d.secret_hex (take max_batch d.ring))
