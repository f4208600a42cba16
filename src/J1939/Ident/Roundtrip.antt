-- ===== src/J1939/Ident/Roundtrip.antt =====
-- core/src/j1939.rs: the identifier's fields against its 29-bit word.
use fieldbus_control_node.Prelude.{ℕ, ◌+◌, ◌*◌, ◌/◌, ◌%◌, ◌^◌, ◌<◌, ◌≡◌, refl, arith, bit_and}
use fieldbus_control_node.Prelude.Bits.{bit_and-mask, bit_or-disjoint}
use fieldbus_control_node.J1939.Ident.{CanId, IsIdent, from_pgn, pack, unpack, pgn}

mask1 : (a : ℕ) → bit_and a 0x01 ≡ a % 2
mask1 a = bit_and-mask 1 a 1 refl

mask3 : (a : ℕ) → bit_and a 0x07 ≡ a % 8
mask3 a = bit_and-mask 3 a 7 refl

mask8 : (a : ℕ) → bit_and a 0xFF ≡ a % 256
mask8 a = bit_and-mask 8 a 255 refl

-- The word as a sum of its fields, for any priority, reserved bit and data page: those are masked.
pub pack_as_sum :
    (i : CanId)
    → i.pdu_format < 256
    → i.pdu_specific < 256
    → i.source_address < 256
    → pack i
      ≡ i.priority % 8 * 2 ^ 26
        + i.reserved % 2 * 2 ^ 25
        + i.data_page % 2 * 2 ^ 24
        + i.pdu_format * 2 ^ 16
        + i.pdu_specific * 2 ^ 8
        + i.source_address
unfolding pack
pack_as_sum i hf hs ha =
    let p = i.priority in
    let r = i.reserved in
    let d = i.data_page in
    let f = i.pdu_format in
    let s = i.pdu_specific in
    let a = i.source_address in
    rw (mask3 p, mask1 r, mask1 d)
      (rw
        (
          bit_or-disjoint 26 (p % 8 * 2 ^ 26) (r % 2 * 2 ^ 25) (p % 8) refl (omega arith),
          bit_or-disjoint 25 (p % 8 * 2 ^ 26 + r % 2 * 2 ^ 25) (d % 2 * 2 ^ 24) (p % 8 * 2 + r % 2)
              (omega arith) (omega arith),
          bit_or-disjoint 24 (p % 8 * 2 ^ 26 + r % 2 * 2 ^ 25 + d % 2 * 2 ^ 24) (f * 2 ^ 16)
              (p % 8 * 4 + r % 2 * 2 + d % 2) (omega arith) (omega arith),
          bit_or-disjoint 16 (p % 8 * 2 ^ 26 + r % 2 * 2 ^ 25 + d % 2 * 2 ^ 24 + f * 2 ^ 16)
              (s * 2 ^ 8) (p % 8 * 1024 + r % 2 * 512 + d % 2 * 256 + f) (omega arith)
              (omega arith),
          bit_or-disjoint 8
              (p % 8 * 2 ^ 26 + r % 2 * 2 ^ 25 + d % 2 * 2 ^ 24 + f * 2 ^ 16 + s * 2 ^ 8) a
              (p % 8 * 262144 + r % 2 * 131072 + d % 2 * 65536 + f * 256 + s) (omega arith)
              (omega arith),
        )
        refl)

pub unpack_as_digits :
    (raw : ℕ)
    → unpack raw ≡ record {
      priority = raw / 2 ^ 26 % 8;
      reserved = raw / 2 ^ 25 % 2;
      data_page = raw / 2 ^ 24 % 2;
      pdu_format = raw / 2 ^ 16 % 256;
      pdu_specific = raw / 2 ^ 8 % 256;
      source_address = raw % 256;
    }
unfolding unpack
unpack_as_digits raw = ground (
  arith,
  mask3 (raw / 2 ^ 26),
  mask1 (raw / 2 ^ 25),
  mask1 (raw / 2 ^ 24),
  mask8 (raw / 2 ^ 16),
  mask8 (raw / 2 ^ 8),
  mask8 raw,
)

unpack-IsIdent : (raw : ℕ) → IsIdent (unpack raw)
unpack-IsIdent raw = rw (unpack_as_digits raw) (omega arith)

-- Unpacking a packed identifier gives back every field, when each field is within its width.
pub unpack-pack : (i : CanId) → IsIdent i → unpack (pack i) ≡ i
unpack-pack i v =
    rw
      (
        unpack_as_digits (pack i),
        pack_as_sum i v.pdu_format_fits v.pdu_specific_fits v.source_address_fits,
      )
      (ground arith)

-- Packing the fields of a raw word gives back its low 29 bits; the bits above are dropped.
pub pack-unpack : (raw : ℕ) → pack (unpack raw) ≡ raw % 2 ^ 29
pack-unpack raw =
    let v = unpack-IsIdent raw in
    rw (pack_as_sum (unpack raw) v.pdu_format_fits v.pdu_specific_fits v.source_address_fits)
      (rw (unpack_as_digits raw) (omega arith))

pgn_as_sum :
    (i : CanId)
    → i.pdu_format < 256
    → i.pdu_specific < 256
    → pgn i ≡ i.data_page * 2 ^ 16 + i.pdu_format * 2 ^ 8 + i.pdu_specific
unfolding pgn
pgn_as_sum i hf hs =
    let d = i.data_page in
    let f = i.pdu_format in
    let s = i.pdu_specific in
    rw
      (
        bit_or-disjoint 16 (d * 2 ^ 16) (f * 2 ^ 8) d refl (omega arith),
        bit_or-disjoint 8 (d * 2 ^ 16 + f * 2 ^ 8) s (d * 256 + f) (omega arith) (omega arith),
      )
      refl

-- The group number read off a raw word is its bits 8 to 24.
pub pgn-unpack : (raw : ℕ) → pgn (unpack raw) ≡ raw / 2 ^ 8 % 2 ^ 17
pgn-unpack raw =
    let v = unpack-IsIdent raw in
    rw (pgn_as_sum (unpack raw) v.pdu_format_fits v.pdu_specific_fits)
      (rw (unpack_as_digits raw) (omega arith))

pub source_address-unpack : (raw : ℕ) → (unpack raw).source_address ≡ raw % 256
source_address-unpack raw = rw (unpack_as_digits raw) refl

from_pgn_as_digits :
    (p g sa : ℕ)
    → from_pgn p g sa ≡ record {
      priority = p % 8;
      reserved = 0;
      data_page = g / 2 ^ 16 % 2;
      pdu_format = g / 2 ^ 8 % 256;
      pdu_specific = g % 256;
      source_address = sa;
    }
unfolding from_pgn
from_pgn_as_digits p g sa = ground (arith, mask3 p, mask1 (g / 2 ^ 16), mask8 (g / 2 ^ 8), mask8 g)

-- A group number sent from an address is read back by the receiver: the group cut to 17 bits,
-- the address and the priority cut to 3 bits, with the reserved bit clear, within 29 bits.
pub unpack-pack-from_pgn :
    (p g sa : ℕ)
    → sa < 256
    → let raw = pack (from_pgn p g sa) in
      (pgn (unpack raw) ≡ g % 2 ^ 17)
      × ((unpack raw).source_address ≡ sa)
      × ((unpack raw).priority ≡ p % 8)
      × ((unpack raw).reserved ≡ 0)
      × (raw < 2 ^ 29)
unpack-pack-from_pgn p g sa h =
    rw
      (
        pgn-unpack (pack (from_pgn p g sa)),
        unpack_as_digits (pack (from_pgn p g sa)),
        from_pgn_as_digits p g sa,
        pack_as_sum
            (record {
              priority = p % 8;
              reserved = 0;
              data_page = g / 2 ^ 16 % 2;
              pdu_format = g / 2 ^ 8 % 256;
              pdu_specific = g % 256;
              source_address = sa;
            })
            (omega arith) (omega arith) h,
      )
      (omega arith)
