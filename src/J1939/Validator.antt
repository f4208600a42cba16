-- ===== src/J1939/Validator.antt =====
-- core/src/j1939.rs, the validator: `Reject` and `Validator`. Counters are 32-bit and wrap, as in
-- a release build.
pub mod Attribution
pub mod Accounting
pub mod Sequence
use fieldbus_control_node.Prelude.{
  ℕ, ◌+◌, ◌-◌, ◌≡◌, ◌<◌, ◌^◌, Bool, not, ◌||◌, Option, none, some, List, [], ◌∷◌, ◌==◌,
  if◌then◌else◌, u8, u32, ℤ, pos, negsuc, ltb_ℤ, get_or, set, replicate, length, Result, ok, err,
}
use fieldbus_control_node.J1939.Ident.{pgn_sensor, sa_sensor, unpack, pgn}
use fieldbus_control_node.J1939.Crc.{crc8_j1850}
use fieldbus_control_node.J1939.Payload.{Frame, Payload, Bytes8, covered, payload_len, decode}

abbrev pub value_min : ℤ
value_min = negsuc 9999

abbrev pub value_max : ℤ
value_max = pos 10000

pub data Reject : Type 0 where
  bad_length unknown_pgn unexpected_source bad_crc bad_reserved duplicate : Reject
  -- expected, got
  out_of_order : ℕ → ℕ → Reject
  out_of_range : Reject

abbrev pub reject_kinds : ℕ
reject_kinds = 8

unfoldable pub index : Reject → ℕ
index bad_length = 0
index unknown_pgn = 1
index unexpected_source = 2
index bad_crc = 3
index bad_reserved = 4
index duplicate = 5
index (out_of_order expected got) = 6
index out_of_range = 7

pub record Validator : Type 0 where
  pub last_seq : Option ℕ
  pub accepted : ℕ
  pub rejected : ℕ
  pub by_reason : List ℕ

-- `Validator::new`.
unfoldable pub new : Validator
unfolding replicate
new = record { last_seq = none; accepted = 0; rejected = 0; by_reason = replicate reject_kinds 0 }

-- The last two checks of `classify`: the range, and before it the sequence.
unfoldable pub range_check : Payload → Result Payload Reject
range_check p =
    if ltb_ℤ p.value value_min || ltb_ℤ value_max p.value then err out_of_range else ok p

unfoldable pub sequence_check : Option ℕ → Payload → Result Payload Reject
unfolding range_check
sequence_check none p = range_check p
sequence_check (some last) p =
    if p.seq == last
    then err duplicate
    else if not (p.seq == u8 (last + 1))
    then err (out_of_order (u8 (last + 1)) p.seq)
    else range_check p

unfoldable pub classify : Validator → Frame → Result Payload Reject
unfolding sequence_check
classify v frame =
    if not (frame.dlc == payload_len)
    then err bad_length
    else let id = unpack frame.id in
      if not (pgn id == pgn_sensor)
      then err unknown_pgn
      else if not (id.source_address == sa_sensor)
      then err unexpected_source
      else if not (frame.bytes.b7 == crc8_j1850 (covered frame.bytes))
      then err bad_crc
      else if not (frame.bytes.b4 == 0) || (not (frame.bytes.b5 == 0) || not (frame.bytes.b6 == 0))
      then err bad_reserved
      else sequence_check v.last_seq (decode frame.bytes)

-- `self.by_reason[r.index()] += 1`.
abbrev pub count_reason : List ℕ → ℕ → List ℕ
count_reason counts i = set counts i (u32 (get_or counts i 0 + 1))

-- The state that `validate` leaves for each outcome.
unfoldable pub record_outcome : Validator → Result Payload Reject → Validator
unfolding index
record_outcome v (ok p) = record v { last_seq = some p.seq; accepted = u32 (v.accepted + 1) }
record_outcome v (err r) = record v {
  rejected = u32 (v.rejected + 1);
  by_reason = count_reason v.by_reason (index r);
}

unfoldable pub validate : Validator → Frame → Validator × Result Payload Reject
validate v frame = let outcome = classify v frame in (record_outcome v outcome, outcome)

unfoldable pub reset_sequence : Validator → Validator
reset_sequence v = record v { last_seq = none }

-- A burst of frames, in arrival order, as the node's loop feeds them.
unfoldable pub validate_all : Validator → List Frame → Validator
validate_all v [] = v
validate_all v (frame ∷ frames) = validate_all (validate v frame).0 frames

-- One frame of a burst, by its outcome.
pub validate_all-cons :
    (v : Validator) (f : Frame) (fs : List Frame) (o : Result Payload Reject)
    → classify v f ≡ o
    → validate_all v (f ∷ fs) ≡ validate_all (record_outcome v o) fs
unfolding validate_all validate
validate_all-cons v f fs o e = rw e
