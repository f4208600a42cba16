-- ===== src/Cloud/Store.antt =====
-- cloud/src/lib.rs: `Store`. The log is the list of the events whose lines the file has, and the
-- lines themselves are bytes in Store.File. What becomes of a line, whether it is printed and
-- written, and whether a failed write leaves it there, is up to the disk, a parameter.
pub mod Recovery
pub mod File
use Prim.Native.String.{String}
use fieldbus_control_node.Prelude.{
  ℕ, zero, suc, ◌+◌, ◌-◌, ◌<◌, ◌^◌, Bool, true, false, not, ◌&&◌, ◌||◌, Option, none, some, List,
  [], ◌∷◌, ◌++◌, map, ltb, leb, ◌==◌, if◌then◌else◌, length, Result, ok, err, ◌>>=◌, u64, ℤ, pos,
  negsuc, leb_ℤ, ltb_ℤ, ◌-ℤ◌,
}
use fieldbus_control_node.Cloud.Map.{Map, Ord, get, insert, contains_key, total}
use fieldbus_control_node.Cloud.Map.Orders.{
  Text, Key, text_ord, key_ord, number_ord, eq_text, eq_key,
}
use fieldbus_control_node.Cloud.Wire.{
  Float64, Reading, Envelope, Event, registered, credential_rotated, reading_accepted,
  firmware_published, config_published, Error, io, invalid, unauthorized, not_found, conflict,
  DeviceRecord, FirmwareMetadata, ConfigMetadata, Health, eq_reading, protocol_version, max_batch,
  max_stored_readings,
}
use fieldbus_control_node.Cloud.Sign.{Crates, unhex, sign}

-- `i64::saturating_sub`.
unfoldable pub saturating_sub : ℤ → ℤ → ℤ
saturating_sub a b =
    let d = a -ℤ b in
    if ltb_ℤ d (negsuc (2 ^ 63 - 1))
    then negsuc (2 ^ 63 - 1)
    else if ltb_ℤ (pos (2 ^ 63 - 1)) d
    then pos (2 ^ 63 - 1)
    else d

module _ (f64 : Float64) where
  -- The stored readings: for each device, by boot counter and sequence number.
  abbrev pub Readings : Type 0
  Readings = Map Text (Map Key (Envelope f64))

  pub record Store : Type 0 where
    -- The events whose lines the file at `path` has.
    pub log : List (Event f64)
    pub devices : Map Text DeviceRecord
    pub readings : Readings
    pub firmware : Map Text FirmwareMetadata
    pub config : Map ℕ ConfigMetadata

  unfoldable pub empty : List (Event f64) → Store
  empty log = record { log = log; devices = []; readings = []; firmware = []; config = [] }

  unfoldable pub key_of : Reading f64 → Key
  key_of r = (r.boot_counter, r.sequence)

  -- `entry(device_id).or_default()`.
  unfoldable pub or_default : Option (Map Key (Envelope f64)) → Map Key (Envelope f64)
  or_default none = []
  or_default (some m) = m

  unfoldable pub put : Readings → Envelope f64 → Readings
  put readings e =
      let id = e.reading.device_id in
      insert text_ord id
        (insert key_ord (key_of e.reading) e (or_default (get text_ord id readings))) readings

  unfoldable pub stored : Readings → Text → Key → Option (Envelope f64)
  stored readings id key = get key_ord key (or_default (get text_ord id readings))

  -- `if let Some(d) = self.devices.get_mut(&device_id)`.
  unfoldable pub touch :
      Map Text DeviceRecord → Reading f64 → ℤ → Option DeviceRecord → Map Text DeviceRecord
  touch devices r received_ms none = devices
  touch devices r received_ms (some d) = insert text_ord r.device_id seen devices
    where
      seen : DeviceRecord
      seen = record d {
        last_seen_ms = some received_ms;
        last_sequence = some r.sequence;
        boot_counter = some r.boot_counter;
      }

  unfoldable pub apply : Store → Event f64 → Store
  apply s (registered d) = record s { devices = insert text_ord d.device_id d s.devices }
  apply s (credential_rotated d) = record s { devices = insert text_ord d.device_id d s.devices }
  apply s (reading_accepted e received_ms) =
      let id = e.reading.device_id in
      record s {
        readings = put s.readings e;
        devices = touch s.devices e.reading received_ms (get text_ord id s.devices);
      }
  apply s (firmware_published m) = record s { firmware = insert text_ord m.version m s.firmware }
  apply s (config_published m) = record s { config = insert number_ord m.version m s.config }

  unfoldable pub replay : Store → List (Event f64) → Store
  replay s [] = s
  replay s (event ∷ events) = replay (apply s event) events

  -- The specification of `Store::open`, which Store.File has on the bytes of the file: what a list
  -- of events comes to.
  unfoldable pub open_log : List (Event f64) → Store
  open_log log = replay (empty log) log

  unfoldable pub reading_count : Store → ℕ
  reading_count s = total text_ord length s.readings

  -- `online` of `health`.
  seen_within : Option ℤ → ℤ → ℤ → Bool
  seen_within none now stale_after_ms = false
  seen_within (some t) now stale_after_ms =
      leb_ℤ t now && leb_ℤ (saturating_sub now t) stale_after_ms

  health_of : Text → ℤ → ℤ → Option DeviceRecord → Result Health Error
  health_of id now stale_after_ms none = err not_found
  health_of id now stale_after_ms (some d) =
      let online = seen_within d.last_seen_ms now stale_after_ms in
      ok (record {
        device_id = id;
        online = online;
        stale = not online;
        last_seen_ms = d.last_seen_ms;
        last_sequence = d.last_sequence;
        boot_counter = d.boot_counter;
      })

  unfoldable pub health : Store → Text → ℤ → ℤ → Result Health Error
  unfolding health_of seen_within
  health s id now stale_after_ms = health_of id now stale_after_ms (get text_ord id s.devices)

  -- `self.devices.keys().filter_map(…)`.
  healths : Store → ℤ → ℤ → Map Text DeviceRecord → List Health
  healths s now stale_after_ms [] = []
  healths s now stale_after_ms ((id, d) ∷ m) =
      let rest = healths s now stale_after_ms m in
      elim (health s id now stale_after_ms) [ ok h ↦ h ∷ rest | err e ↦ rest ]

  unfoldable pub dashboard : Store → ℤ → ℤ → List Health
  unfolding healths
  dashboard s now stale_after_ms = healths s now stale_after_ms s.devices

  -- What becomes of a line that is to be written behind those of the file: no error; or the error,
  -- `io` or, when serde_json does not print the event, `invalid`, and whether the line stands in the
  -- file all the same (`sync_data` may fail after `write_all`).
  abbrev pub Disk : Type 0
  Disk = List (Event f64) → Event f64 → Option (Error × Bool)

  module _ (crates : Crates f64) (disk : Disk) where
    -- The write, with what the disk says of it, and then `apply`.
    unfoldable pub written :
        Store → Event f64 → Option (Error × Bool) → Store × Result (Unit {0}) Error
    written s event (some (e, left)) =
        (record s { log = if left then s.log ++ event ∷ [] else s.log }, err e)
    written s event none = (apply (record s { log = s.log ++ event ∷ [] }) event, ok tt)

    unfoldable pub append : Store → Event f64 → Store × Result (Unit {0}) Error
    append s event = written s event (disk s.log event)

    -- A checked request appends its event and returns a value, or fails and changes nothing.
    unfoldable pub commit :
        {A : Type 0} → Store → Result (Event f64 × A) Error → Store × Result A Error
    commit s (err e) = (s, err e)
    commit s (ok (event, a)) = let (s', wrote) = append s event in (s', wrote >>= λ _. ok a)

    unfoldable pub register_check :
        Store → Text → Text → Text → Result (Event f64 × DeviceRecord) Error
    register_check s device_id secret_hex firmware_version =
        if contains_key text_ord device_id s.devices
        then err conflict
        else (unhex secret_hex >>= λ _.
            let d : DeviceRecord = record {
              device_id = device_id;
              credential_version = 1;
              secret_hex = secret_hex;
              firmware_version = firmware_version;
              config_version = 1;
              last_seen_ms = none;
              last_sequence = none;
              boot_counter = none;
            } in
            ok (registered d, d))

    unfoldable pub register : Store → Text → Text → Text → Store × Result DeviceRecord Error
    register s device_id secret_hex firmware_version =
        commit s (register_check s device_id secret_hex firmware_version)

    unfoldable pub or_error {ℓ} : {A : Type ℓ} → Option A → Error → Result A Error
    or_error none e = err e
    or_error (some a) e = ok a

    unfoldable pub rotate_check : Store → Text → Text → Result (Event f64 × DeviceRecord) Error
    rotate_check s id secret_hex = do
      d ← or_error (get text_ord id s.devices) not_found
      key ← unhex secret_hex
      let d' : DeviceRecord = record d {
        credential_version = u64 (d.credential_version + 1);
        secret_hex = secret_hex;
      }
      ok (credential_rotated d', d')

    unfoldable pub rotate_credential : Store → Text → Text → Store × Result DeviceRecord Error
    rotate_credential s id secret_hex = commit s (rotate_check s id secret_hex)

    unfoldable pub publish_firmware : Store → FirmwareMetadata → Store × Result (Unit {0}) Error
    publish_firmware s m =
        if length m.version == 0 || not (length m.sha256 == 64)
        then (s, err (invalid "invalid firmware metadata"))
        else append s (firmware_published m)

    unfoldable pub publish_config : Store → ConfigMetadata → Store × Result (Unit {0}) Error
    publish_config s m =
        if m.sample_period_ms == 0 || ltb m.stale_after_ms m.sample_period_ms
        then (s, err (invalid "invalid config metadata"))
        else append s (config_published m)
