-- ===== src/J1939/Ident.antt =====
-- core/src/j1939.rs, the identifier: `Id` with `from_pgn`, `pack`, `unpack` and `pgn`.
pub mod Roundtrip
use fieldbus_control_node.Prelude.{ℕ, ◌<◌, ◌^◌, ◌%◌, bit_and, bit_or, ◌<<<◌, ◌>>>◌, u8}

abbrev pub priority : ℕ
priority = 3

abbrev pub pgn_sensor : ℕ
pgn_sensor = 0xFF00

abbrev pub pgn_command : ℕ
pgn_command = 0xFF01

abbrev pub sa_sensor : ℕ
sa_sensor = 0x80

abbrev pub sa_controller : ℕ
sa_controller = 0x28

abbrev pub sa_actuator : ℕ
sa_actuator = 0x81

-- `Id` of the source.
pub record CanId : Type 0 where
  pub priority : ℕ
  pub reserved : ℕ
  pub data_page : ℕ
  pub pdu_format : ℕ
  pub pdu_specific : ℕ
  pub source_address : ℕ

unfoldable pub from_pgn : ℕ → ℕ → ℕ → CanId
from_pgn priority pgn sa = record {
  priority = bit_and priority 0x07;
  reserved = 0;
  data_page = u8 (bit_and (pgn >>> 16) 0x01);
  pdu_format = u8 (bit_and (pgn >>> 8) 0xFF);
  pdu_specific = u8 (bit_and pgn 0xFF);
  source_address = sa;
}

-- The shifts are of 32-bit words; every shifted field fits, so none loses a bit.
unfoldable pub pack : CanId → ℕ
pack i =
    bit_or
      (bit_or
        (bit_or
          (bit_or (bit_or (bit_and i.priority 0x07 <<< 26) (bit_and i.reserved 0x01 <<< 25))
            (bit_and i.data_page 0x01 <<< 24))
          (i.pdu_format <<< 16))
        (i.pdu_specific <<< 8))
      i.source_address

unfoldable pub unpack : ℕ → CanId
unpack raw = record {
  priority = u8 (bit_and (raw >>> 26) 0x07);
  reserved = u8 (bit_and (raw >>> 25) 0x01);
  data_page = u8 (bit_and (raw >>> 24) 0x01);
  pdu_format = u8 (bit_and (raw >>> 16) 0xFF);
  pdu_specific = u8 (bit_and (raw >>> 8) 0xFF);
  source_address = u8 (bit_and raw 0xFF);
}

unfoldable pub pgn : CanId → ℕ
pgn i = bit_or (bit_or (i.data_page <<< 16) (i.pdu_format <<< 8)) i.pdu_specific

-- Every field within its declared width.
pub record IsIdent (i : CanId) : Type 0 where
  pub priority_fits : i.priority < 8
  pub reserved_fits : i.reserved < 2
  pub data_page_fits : i.data_page < 2
  pub pdu_format_fits : i.pdu_format < 256
  pub pdu_specific_fits : i.pdu_specific < 256
  pub source_address_fits : i.source_address < 256
