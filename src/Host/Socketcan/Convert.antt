-- ===== src/Host/Socketcan/Convert.antt =====
-- host/src/socketcan.rs: the conversions of frames against each other.
use fieldbus_control_node.Prelude.{
  ℕ, zero, suc, ◌^◌, ◌<◌, ◌≤◌, ◌≡◌, refl, sym, ap, ◌∙◌, arith, some, ok, err, List, [], ◌∷◌, length,
  take, get_or, min, take-length, u8,
}
use Prim.Native.String.{◌++◌}
use fieldbus_control_node.J1939.Payload.{Frame, Bytes8}
use fieldbus_control_node.Host.Bus.{io}
use fieldbus_control_node.Host.Socketcan.{
  Crate, CrateLaws, extended, data_frame, bytes_of, copy_from, or_io, from_id, from_socketcan,
  to_socketcan, SocketCanBus, send, write_out,
}

min-le : (a b : ℕ) → (min a b ≤ a) × (min a b ≤ b)
min-le a b = ground arith

min-of_le : (a b : ℕ) → a ≤ b → min a b ≡ a
min-of_le a b h = ground arith

length-take_eq : (n : ℕ) (xs : List ℕ) → n ≤ length xs → length (take n xs) ≡ n
length-take_eq zero xs h = refl
length-take_eq (suc n) [] h = elim h [ ]
length-take_eq (suc n) (x ∷ xs) h = ap suc (length-take_eq n xs (omega arith))

get_or-take :
    (n i : ℕ) (xs : List ℕ) → (n ≤ i → get_or xs i 0 ≡ 0) → get_or (take n xs) i 0 ≡ get_or xs i 0
get_or-take zero i xs h = sym (h (omega arith))
get_or-take (suc n) i [] h = refl
get_or-take (suc n) zero (x ∷ xs) h = refl
get_or-take (suc n) (suc i) (x ∷ xs) h = get_or-take n i xs (λ le. h (omega arith))

-- The bytes past a frame's length are zero.
abbrev pub IsPadded : ℕ → Bytes8 → Type 0
IsPadded n d = (i : ℕ) → n ≤ i → get_or (bytes_of d) i 0 ≡ 0

copy_from-take : (n : ℕ) (d : Bytes8) → IsPadded n d → copy_from (take n (bytes_of d)) ≡ d
unfolding copy_from bytes_of
copy_from-take n d h =
    let at : (i : ℕ) → get_or (take n (bytes_of d)) i 0 ≡ get_or (bytes_of d) i 0 =
      λ i. get_or-take n i (bytes_of d) (h i) in
    rw (at 0, at 1, at 2, at 3, at 4, at 5, at 6, at 7) refl

-- A frame that a CAN bus carries as it is: 29 bits of identifier, a length that fits, and no byte
-- past the length.
pub record IsCarried (f : Frame) : Type 0 where
  pub narrow : f.id < 2 ^ 29
  pub short : f.dlc ≤ 8
  pub padded : IsPadded f.dlc f.bytes

length-taken : (n : ℕ) (d : Bytes8) → n ≤ 8 → length (take n (bytes_of d)) ≡ n
unfolding bytes_of
length-taken n d h = length-take_eq n (bytes_of d) h

module _ (crate : Crate) where
  from_id-short :
      (e : crate.ExtendedId) (payload : List ℕ)
      → length payload ≤ 8
      → from_id crate (extended e) payload
        ≡ some (record { id = crate.as_raw e; dlc = length payload; bytes = copy_from payload })
  unfolding from_id
  from_id-short e payload h =
      let whole = ap (λ n. take n payload) (min-of_le (length payload) 8 h) ∙ take-length payload in
      let fits : u8 (length payload) ≡ length payload = omega arith in rw (whole, fits) refl

  module _ (laws : CrateLaws crate) where
    -- A frame with an identifier of 29 bits is converted, and reads back as its first eight bytes.
    pub to_socketcan-fits :
        (f : Frame)
        → f.id < 2 ^ 29
        → let n = min f.dlc 8 in
          (d : crate.DataFrame) × (to_socketcan crate f ≡ ok d)
          × (from_socketcan crate (data_frame d)
              ≡ some (record { id = f.id; dlc = n; bytes = copy_from (take n (bytes_of f.bytes)) }))
    unfolding to_socketcan from_socketcan or_io
    to_socketcan-fits f h =
        let n = min f.dlc 8 in
        let bytes = take n (bytes_of f.bytes) in
        let (e, made, raw) = laws.extended_id-fits f.id h in
        let le : n ≤ 8 = (min-le f.dlc 8).1 in
        let len : length bytes ≡ n = length-taken n f.bytes le in
        let (d, built, id, payload) = laws.new_frame-fits (extended e) bytes (omega arith) in
        (
          d,
          rw (made, built) refl,
          rw (id, payload, from_id-short e bytes (omega arith), raw, len) refl,
        )

    -- What crosses the socket is what was sent: a frame with an identifier of 29 bits, a length of
    -- at most eight and zeros past its length is converted, and its data frame converts back to it.
    pub from_socketcan-to_socketcan :
        (f : Frame)
        → IsCarried f
        → (d : crate.DataFrame) × (to_socketcan crate f ≡ ok d)
          × (from_socketcan crate (data_frame d) ≡ some f)
    from_socketcan-to_socketcan f v =
        let (d, made, back) = to_socketcan-fits f v.narrow in
        let n = min-of_le f.dlc 8 v.short in
        let bytes : copy_from (take (min f.dlc 8) (bytes_of f.bytes)) ≡ f.bytes =
          ap (λ k. copy_from (take k (bytes_of f.bytes))) n
          ∙ copy_from-take f.dlc f.bytes v.padded in
        (d, made, back ∙ rw (bytes, n) refl)

    -- A wider identifier is an error of the bus, and nothing is written.
    pub send-wide :
        (b : SocketCanBus crate) (f : Frame)
        → 2 ^ 29 ≤ f.id
        → send crate b f
          ≡ (b, err (io ("identifier " ++ crate.lower_hex f.id ++ " exceeds 29 bits")))
    unfolding send write_out to_socketcan or_io
    send-wide b f h = rw (laws.extended_id-wide f.id h) refl
