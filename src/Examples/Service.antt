-- ===== src/Examples/Service.antt =====
-- The theorems on cloud/src/lib.rs at concrete inputs.
use fieldbus_control_node.Prelude.{
  ℕ, suc, ◌+◌, ◌≤◌, ◌≡◌, refl, ap, arith, true, ◌&&◌, ◌==◌, none, some, List, [], ◌∷◌, All, ◌++◌,
  ◌⊎◌, take, ℤ, pos, pos_part, neg_part, Result, ok, err,
}
use fieldbus_control_node.Cloud.Map.Orders.{Text, eq_text, lt_text, eq_key, lt_key}
use fieldbus_control_node.Cloud.Map.{get, insert, total}
use fieldbus_control_node.Cloud.Wire.{
  Float64, Reading, DeviceRecord, Envelope, Event, registered, Error, unauthorized, eq_reading,
}
use fieldbus_control_node.Cloud.Sign.{
  Crates, hex, digit, two_digits, from_str_radix, or_not_hex, pairs, is_ascii, unhex, body_of, sign,
}
use fieldbus_control_node.Cloud.Sign.Hex.{unhex-hex, unhex_plus}
use fieldbus_control_node.Cloud.Store.{
  Store, Disk, empty, key_of, or_default, put, stored, touch, apply, replay, open_log,
  reading_count, written, append, or_error,
}
use fieldbus_control_node.Cloud.Store.Recovery.{IsClean}
use fieldbus_control_node.Cloud.Ingest.{
  same_identity, pending, or_else, known, take_unless, authentic, screen, append_all,
  store_screened, ingest,
}
use fieldbus_control_node.Cloud.Ingest.Screen.{Kept}
use fieldbus_control_node.Cloud.Ingest.Confirm.{ingest_confirms}
use fieldbus_control_node.Cloud.Ingest.Count.{open_log-IsSorted}
use fieldbus_control_node.Cloud.Ingest.Again.{ingest_again}
use fieldbus_control_node.Cloud.Ingest.Keeps.{ingest_keeps, ingest_refuses_whole}
use fieldbus_control_node.Cloud.Simulator.{DeviceSimulator, new, sync}
use fieldbus_control_node.Cloud.Simulator.Deliver.{Delivered, post, sync-Delivered}
use fieldbus_control_node.Cloud.Simulator.Ring.{
  Action, sampled, synced, rebooted, act_all, readings_taken, Latest, act_all-Latest,
}

pub eq_self : (x : ℤ) → pos_part x == pos_part x && neg_part x == neg_part x ≡ true
eq_self x = ground arith

-- Integers for the floating-point numbers, a digest that is always one zero byte, and a body that
-- is always empty.
abbrev pub integers : Float64
integers = record {
  F = ℤ;
  is_finite = λ x. true;
  eq = λ x y. pos_part x == pos_part y && neg_part x == neg_part y;
  eq_refl = λ x h. eq_self x;
}

abbrev pub crates : Crates integers
crates = record { sha256 = λ bytes. 0 ∷ []; to_vec = λ r. ok [] }

abbrev pub writes_all : Disk integers
writes_all = λ log e. none

abbrev device_name : Text
device_name = 97 ∷ []

abbrev device : DeviceRecord
device = record {
  device_id = device_name;
  credential_version = 1;
  secret_hex = 48 ∷ 49 ∷ [];
  firmware_version = 49 ∷ [];
  config_version = 1;
  last_seen_ms = none;
  last_sequence = none;
  boot_counter = none;
}

abbrev log : List (Event integers)
log = registered device ∷ []

abbrev store : Store integers
store = open_log integers log

abbrev numbered : ℕ → Text → Envelope integers
numbered k signature = record {
  protocol_version = 1;
  reading = record {
    device_id = device_name;
    firmware_version = 49 ∷ [];
    sequence = k;
    device_timestamp_ms = pos 5;
    boot_counter = 1;
    value = pos 20;
    quality = 103 ∷ [];
  };
  signature = signature;
}

abbrev batch : List (Envelope integers)
batch = numbered 0 (48 ∷ 48 ∷ []) ∷ numbered 1 (48 ∷ 48 ∷ []) ∷ []

abbrev after : Store integers × Result ℕ Error
after = ingest integers crates writes_all store batch (pos 9)

batch_accepted : after.1 ≡ ok 2
unfolding open_log empty key_of or_default put stored touch apply replay reading_count written
    append or_error same_identity pending or_else known take_unless authentic screen append_all
    store_screened ingest hex digit two_digits from_str_radix or_not_hex pairs is_ascii unhex
    body_of sign get insert total eq_text lt_text eq_key lt_key eq_reading
batch_accepted = refl

ingest_confirms_example : All (Kept integers (stored integers after.0.readings)) batch
ingest_confirms_example =
    ingest_confirms integers crates writes_all store after.0 batch (pos 9) 2
      (ap (λ (r : Result ℕ Error). (after.0, r)) batch_accepted)

ingest_again_example :
    (reading_count integers after.0 ≡ reading_count integers store + 2)
    × (reading_count integers after.0 ≤ 100000)
    × (ingest integers crates writes_all after.0 batch (pos 12) ≡ (after.0, ok 0))
ingest_again_example =
    ingest_again integers crates writes_all store after.0 batch (pos 9) (pos 12) 2
      (open_log-IsSorted integers log) (ap (λ (r : Result ℕ Error). (after.0, r)) batch_accepted)

first_stored :
    stored integers after.0.readings device_name (1, 0) ≡ some (numbered 0 (48 ∷ 48 ∷ []))
unfolding open_log empty key_of or_default put stored touch apply replay reading_count written
    append or_error same_identity pending or_else known take_unless authentic screen append_all
    store_screened ingest hex digit two_digits from_str_radix or_not_hex pairs is_ascii unhex
    body_of sign get insert total eq_text lt_text eq_key lt_key eq_reading
first_stored = refl

ingest_keeps_example :
    stored integers
      (ingest integers crates writes_all after.0 (numbered 0 [] ∷ []) (pos 9)).0.readings
      device_name
      (1, 0)
    ≡ some (numbered 0 (48 ∷ 48 ∷ []))
ingest_keeps_example =
    ingest_keeps integers crates writes_all after.0 (numbered 0 [] ∷ []) (pos 9) device_name (1, 0)
      (numbered 0 (48 ∷ 48 ∷ [])) first_stored

-- The second envelope of the batch has a wrong signature.
abbrev forged : List (Envelope integers)
forged = numbered 0 (48 ∷ 48 ∷ []) ∷ numbered 1 (48 ∷ 49 ∷ []) ∷ []

forged_refused : (ingest integers crates writes_all store forged (pos 9)).1 ≡ err unauthorized
unfolding open_log empty key_of or_default put stored touch apply replay reading_count written
    append or_error same_identity pending or_else known take_unless authentic screen append_all
    store_screened ingest hex digit two_digits from_str_radix or_not_hex pairs is_ascii unhex
    body_of sign get insert total eq_text lt_text eq_key lt_key eq_reading
forged_refused = refl

ingest_refuses_whole_example : (ingest integers crates writes_all store forged (pos 9)).0 ≡ store
ingest_refuses_whole_example =
    ingest_refuses_whole integers crates writes_all store
      (ingest integers crates writes_all store forged (pos 9)).0 forged (pos 9) unauthorized
      (λ l e. refl)
      (ap (λ (r : Result ℕ Error). ((ingest integers crates writes_all store forged (pos 9)).0, r))
        forged_refused)

pub disk-IsClean : IsClean integers crates writes_all
disk-IsClean l e x left h = ground arith

-- A server that takes every batch and counts the calls.
abbrev taking : ℕ → List (Envelope integers) → ℕ × Result ℕ Error
taking calls es = (suc calls, ok 0)

abbrev actions : List (Action integers)
actions =
    sampled (pos 5) (pos 20) (103 ∷ [])
    ∷ rebooted
    ∷ sampled (pos 6) (pos 21) (103 ∷ [])
    ∷ synced
    ∷ []

act_all-Latest_example :
    Latest integers crates taking
      (readings_taken integers crates taking
        (new integers device_name [] (48 ∷ 49 ∷ []) 1)
        0
        actions)
      (act_all integers crates taking (new integers device_name [] (48 ∷ 49 ∷ []) 1) 0 actions)
act_all-Latest_example =
    act_all-Latest integers crates taking device_name [] (48 ∷ 49 ∷ []) 1 0 actions

unhex-hex_example : unhex (hex (0 ∷ 171 ∷ [])) ≡ ok (0 ∷ 171 ∷ [])
unhex-hex_example = unhex-hex (0 ∷ 171 ∷ []) (omega arith, (omega arith, tt))

five : digit 53 ≡ some 5
unfolding digit
five = refl

unhex_plus_example : (unhex (b'+' ∷ 53 ∷ []) ≡ ok (5 ∷ [])) × (unhex (b'0' ∷ 53 ∷ []) ≡ ok (5 ∷ []))
unhex_plus_example = unhex_plus 53 5 five

abbrev sampled_device : DeviceSimulator integers
sampled_device = record {
  device_id = device_name;
  firmware_version = 49 ∷ [];
  secret_hex = 48 ∷ 49 ∷ [];
  boot_counter = 1;
  next_sequence = 1;
  ring = (numbered 0 []).reading ∷ [];
  dropped_when_full = 0;
}

abbrev synced_device : DeviceSimulator integers × Store integers × Result ℕ Error
synced_device = sync integers crates (post integers crates writes_all (pos 9)) sampled_device store

sync-Delivered_example :
    let (d', s', r) = synced_device in
    (gone : List (Reading integers)) × (sampled_device.ring ≡ gone ++ d'.ring)
    × All (Delivered integers s') gone
    × (((x : Error) × (r ≡ err x) × (gone ≡ []))
        ⊎ ((n : ℕ) × (r ≡ ok n) × (gone ≡ take 64 sampled_device.ring)))
sync-Delivered_example = sync-Delivered integers crates writes_all (pos 9) sampled_device store
