-- ===== src/Cloud/Ingest.antt =====
-- cloud/src/lib.rs: `Store::ingest`.
pub mod Fresh
pub mod Screen
pub mod Confirm
pub mod Keeps
pub mod Count
pub mod Again
use Prim.Native.String.{String}
use fieldbus_control_node.Prelude.{
  ℕ, ◌+◌, Bool, not, ◌&&◌, ◌||◌, Option, none, some, List, [], ◌∷◌, ◌++◌, ltb, ◌==◌, if◌then◌else◌,
  length, saturating_add, Result, ok, err, ◌>>=◌, ℤ,
}
use fieldbus_control_node.Cloud.Map.{get}
use fieldbus_control_node.Cloud.Map.Orders.{Text, Key, text_ord, eq_text, eq_key}
use fieldbus_control_node.Cloud.Wire.{
  Float64, Envelope, Event, reading_accepted, Error, invalid, unauthorized, conflict, eq_reading,
  protocol_version, max_batch, max_stored_readings,
}
use fieldbus_control_node.Cloud.Sign.{Crates, sign}
use fieldbus_control_node.Cloud.Store.{
  Disk, Store, Readings, key_of, stored, reading_count, append, or_error,
}

module _ (f64 : Float64) where
  -- The identity that is looked for in the store and among the readings not yet stored.
  unfoldable pub same_identity : Envelope f64 → Text → Key → Bool
  same_identity prior id key =
      eq_text prior.reading.device_id id && eq_key (key_of f64 prior.reading) key

  unfoldable pub pending : Text → Key → List (Envelope f64) → Option (Envelope f64)
  pending id key [] = none
  pending id key (prior ∷ unseen) =
      if same_identity prior id key then some prior else pending id key unseen

  -- `stored.or(pending)`.
  unfoldable pub or_else : Option (Envelope f64) → Option (Envelope f64) → Option (Envelope f64)
  or_else none later = later
  or_else (some e) later = some e

  unfoldable pub known : Readings f64 → List (Envelope f64) → Text → Key → Option (Envelope f64)
  known readings unseen id key = or_else (stored f64 readings id key) (pending id key unseen)

  -- A retry may repeat an identity, but cannot replace its reading.
  unfoldable pub take_unless :
      Envelope f64
      → List (Envelope f64)
      → Option (Envelope f64)
      → Result (List (Envelope f64)) Error
  take_unless e unseen none = ok (unseen ++ e ∷ [])
  take_unless e unseen (some prior) =
      if not (eq_reading f64 prior.reading e.reading) then err conflict else ok unseen

  module _ (crates : Crates f64) (disk : Disk f64) where
    -- The checks of one envelope that come before the identity is looked up.
    unfoldable pub authentic : Store f64 → Envelope f64 → Result (Unit {0}) Error
    authentic s e =
        if not (e.protocol_version == protocol_version)
        then err (invalid "unsupported protocol version")
        else do
          d ← or_error f64 crates disk (get text_ord e.reading.device_id s.devices) unauthorized
          signature ← sign f64 crates d.secret_hex e.reading
          if not (eq_text signature e.signature)
              then err unauthorized
              else if not (f64.is_finite e.reading.value) || length e.reading.quality == 0
              then err (invalid "invalid reading")
              else ok tt

    -- The loop over the batch, with the readings to store so far.
    unfoldable pub screen :
        Store f64 → List (Envelope f64) → List (Envelope f64) → Result (List (Envelope f64)) Error
    screen s unseen [] = ok unseen
    screen s unseen (e ∷ batch) = do
      checked ← authentic s e
      unseen' ←
          take_unless e unseen (known s.readings unseen e.reading.device_id (key_of f64 e.reading))
      screen s unseen' batch

    -- The loop that appends, with the count so far; a failed append ends it.
    unfoldable pub append_all : Store f64 → ℤ → ℕ → List (Envelope f64) → Store f64 × Result ℕ Error
    append_all s received_ms accepted [] = (s, ok accepted)
    append_all s received_ms accepted (e ∷ unseen) =
        let (s', wrote) = append f64 crates disk s (reading_accepted e received_ms) in
        let rest = append_all s' received_ms (accepted + 1) unseen in
        elim wrote [ ok done ↦ rest | err x ↦ (s', err x) ]

    unfoldable pub store_screened :
        Store f64 → ℤ → Result (List (Envelope f64)) Error → Store f64 × Result ℕ Error
    store_screened s received_ms (err e) = (s, err e)
    store_screened s received_ms (ok unseen) =
        if ltb max_stored_readings (saturating_add (reading_count f64 s) (length unseen))
        then (s, err conflict)
        else append_all s received_ms 0 unseen

    unfoldable pub ingest : Store f64 → List (Envelope f64) → ℤ → Store f64 × Result ℕ Error
    ingest s batch received_ms =
        if length batch == 0 || ltb max_batch (length batch)
        then (s, err (invalid "batch must contain 1..64 readings"))
        else store_screened s received_ms (screen s [] batch)
