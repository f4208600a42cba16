-- ===== src/Cloud/Sign.antt =====
-- cloud/src/lib.rs: `hex`, `unhex`, `sign` and `signed`. SHA-256 and the JSON writer are crates,
-- and so parameters.
pub mod Hex
use Prim.Native.String.{String}
use fieldbus_control_node.Prelude.{
  ℕ, ◌+◌, ◌-◌, ◌*◌, ◌/◌, ◌%◌, Bool, true, false, not, ◌&&◌, Option, none, some, List, [], ◌∷◌, ◌++◌,
  map, ltb, leb, ◌==◌, if◌then◌else◌, bit_xor, length, take, replicate, Result, ok, err, ◌>>=◌,
}
use fieldbus_control_node.Cloud.Map.Orders.{Text}
use fieldbus_control_node.Cloud.Wire.{Float64, Reading, Envelope, Error, invalid, protocol_version}

-- A digit of `{:02x}`.
pub hex_digit : ℕ → ℕ
hex_digit n = if ltb n 10 then n + 48 else n + 87

unfoldable pub hex : List ℕ → Text
unfolding hex_digit
hex [] = []
hex (b ∷ bytes) = hex_digit (b / 16) ∷ hex_digit (b % 16) ∷ hex bytes

-- A digit that `from_str_radix` reads in base 16.
unfoldable pub digit : ℕ → Option ℕ
digit c =
    if leb b'0' c && leb c b'9'
    then some (c - 48)
    else if leb b'a' c && leb c b'f'
    then some (c - 87)
    else if leb b'A' c && leb c b'F'
    then some (c - 55)
    else none

unfoldable pub two_digits : Option ℕ → Option ℕ → Option ℕ
two_digits none low = none
two_digits (some high) none = none
two_digits (some high) (some low) = some (high * 16 + low)

-- `u8::from_str_radix` on two characters: a leading plus sign is allowed.
unfoldable pub from_str_radix : ℕ → ℕ → Option ℕ
from_str_radix a b = if a == b'+' then digit b else two_digits (digit a) (digit b)

unfoldable pub or_not_hex : Option ℕ → Result ℕ Error
or_not_hex none = err (invalid "secret is not hex")
or_not_hex (some b) = ok b

unfoldable pub pairs : Text → Result (List ℕ) Error
pairs [] = ok []
pairs (a ∷ []) = ok []
pairs (a ∷ b ∷ rest) = do
  byte ← or_not_hex (from_str_radix a b)
  bytes ← pairs rest
  ok (byte ∷ bytes)

unfoldable pub is_ascii : Text → Bool
is_ascii [] = true
is_ascii (c ∷ cs) = ltb c 128 && is_ascii cs

unfoldable pub unhex : Text → Result (List ℕ) Error
unhex s =
    if not (length s % 2 == 0)
    then err (invalid "secret must be even-length hex")
    else if not (is_ascii s)
    then err (invalid "secret must contain ASCII hex")
    else pairs s

module _ (f64 : Float64) where
  -- `sha2` and `serde_json::to_vec`.
  pub record Crates : Type 0 where
    pub sha256 : List ℕ → List ℕ
    pub to_vec : Reading f64 → Result (List ℕ) String

  module _ (crates : Crates) where
    unfoldable pub body_of : Result (List ℕ) String → Result (List ℕ) Error
    body_of (ok bytes) = ok bytes
    body_of (err e) = err (invalid e)

    -- The key of HMAC: hashed when it is longer than a block, and filled up with zeros.
    unfoldable pub block_key : List ℕ → List ℕ
    block_key key =
        let key' = if ltb 64 (length key) then crates.sha256 key else key in
        take 64 (key' ++ replicate 64 0)

    unfoldable pub sign : Text → Reading f64 → Result Text Error
    sign secret_hex reading = do
      key ← unhex secret_hex
      body ← body_of (crates.to_vec reading)
      let inner = map (bit_xor 0x36) (block_key key)
      let outer = map (bit_xor 0x5c) (block_key key)
      let inner_sum = crates.sha256 (inner ++ body)
      ok (hex (crates.sha256 (outer ++ inner_sum)))

    unfoldable pub signed : Text → Reading f64 → Result (Envelope f64) Error
    signed secret_hex reading = do
      signature ← sign secret_hex reading
      ok (record { protocol_version = protocol_version; reading = reading; signature = signature })
