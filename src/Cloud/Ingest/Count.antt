-- ===== src/Cloud/Ingest/Count.antt =====
-- cloud/src/lib.rs: the number of the stored readings under `put`, and the order of their map.
use fieldbus_control_node.Prelude.{
  ℕ, suc, ◌+◌, ◌≡◌, refl, arith, Option, none, some, List, [], ◌∷◌, length,
}
use fieldbus_control_node.Cloud.Map.{
  Map, get, insert, IsSorted, insert-IsSorted, total, total-insert, length-insert, measured,
}
use fieldbus_control_node.Cloud.Map.Orders.{Key, text_ord, key_ord}
use fieldbus_control_node.Cloud.Wire.{
  Float64, Envelope, Event, registered, credential_rotated, reading_accepted, firmware_published,
  config_published,
}
use fieldbus_control_node.Cloud.Store.{
  Store, Readings, empty, replay, open_log, key_of, put, stored, or_default, apply,
}
use fieldbus_control_node.Cloud.Ingest.Fresh.{Fresh, put_all}

module _ (f64 : Float64) where
  measured-or_default :
      (o : Option (Map Key (Envelope f64))) → measured text_ord length o ≡ length (or_default f64 o)
  unfolding or_default
  measured-or_default none = refl
  measured-or_default (some m) = refl

  abbrev pub count : Readings f64 → ℕ
  count r = total text_ord length r

  count-put :
      (r : Readings f64) (e : Envelope f64)
      → IsSorted text_ord r
      → stored f64 r e.reading.device_id (key_of f64 e.reading) ≡ none
      → count (put f64 r e) ≡ suc (count r)
  unfolding put stored
  count-put r e sorted fresh =
      let id = e.reading.device_id in
      let key = key_of f64 e.reading in
      let m = or_default f64 (get text_ord id r) in
      let grown = length-insert key_ord key e m fresh in
      let whole = total-insert text_ord length id (insert key_ord key e m) r sorted in
      omega (arith, grown, whole, measured-or_default (get text_ord id r))

  pub put-IsSorted :
      (r : Readings f64) (e : Envelope f64) → IsSorted text_ord r → IsSorted text_ord (put f64 r e)
  unfolding put
  put-IsSorted r e sorted = insert-IsSorted text_ord e.reading.device_id _ r sorted

  pub count-put_all :
      (r : Readings f64) (es : List (Envelope f64))
      → IsSorted text_ord r
      → Fresh f64 r es
      → count (put_all f64 r es) ≡ count r + length es
  unfolding put_all
  count-put_all r [] sorted fresh = omega arith
  count-put_all r (e ∷ es) sorted fresh = omega (
    arith,
    count-put r e sorted fresh.0,
    count-put_all (put f64 r e) es (put-IsSorted r e sorted) fresh.1,
  )

  apply-IsSorted :
      (s : Store f64) (e : Event f64)
      → IsSorted text_ord s.readings
      → IsSorted text_ord (apply f64 s e).readings
  unfolding apply
  apply-IsSorted s (registered d) h = h
  apply-IsSorted s (credential_rotated d) h = h
  apply-IsSorted s (reading_accepted e t) h = put-IsSorted s.readings e h
  apply-IsSorted s (firmware_published m) h = h
  apply-IsSorted s (config_published m) h = h

  replay-IsSorted :
      (s : Store f64) (es : List (Event f64))
      → IsSorted text_ord s.readings
      → IsSorted text_ord (replay f64 s es).readings
  unfolding replay
  replay-IsSorted s [] h = h
  replay-IsSorted s (e ∷ es) h = replay-IsSorted (apply f64 s e) es (apply-IsSorted s e h)

  -- The devices of an opened store's readings are in the order of their names.
  pub open_log-IsSorted : (log : List (Event f64)) → IsSorted text_ord (open_log f64 log).readings
  unfolding open_log empty
  open_log-IsSorted log = replay-IsSorted (empty f64 log) log tt
