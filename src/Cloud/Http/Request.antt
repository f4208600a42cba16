-- ===== src/Cloud/Http/Request.antt =====
-- cloud/src/main.rs: `read_request`. A connection is the bytes that arrive on it and how they end.
use Prim.Native.String.{String}
use fieldbus_control_node.Prelude.{
  ℕ, ◌+◌, Bool, true, false, ◌||◌, Option, none, some, List, [], ◌∷◌, ◌++◌, ltb, leb, ◌==◌,
  if◌then◌else◌, length, take, Result, ok, err, ◌>>=◌,
}
use fieldbus_control_node.Cloud.Map.Orders.{Text, eq_text}
use fieldbus_control_node.Cloud.Wire.{Error, io, invalid}
use fieldbus_control_node.Cloud.Http.Lines.{
  lines, skip_one, split_once, eq_ignore_ascii_case, transfer_encoding, content_length,
}

-- The bytes, and the error that a read meets behind them, if it is not the end of the stream.
pub record Stream : Type 0 where
  pub bytes : List ℕ
  pub ending : Option String

-- What the server uses of `str`: `trim`, `split_whitespace`, `parse::<usize>`, and the test of
-- `String::from_utf8`.
pub record Strings : Type 0 where
  pub trim : Text → Text
  pub split_whitespace : Text → List Text
  pub parse_usize : Text → Option ℕ
  pub is_utf8 : Text → Bool

abbrev pub max_head : ℕ
max_head = 8192

abbrev pub max_body : ℕ
max_body = 65536

unfoldable pub too_long : Text → Text → Bool
too_long head line =
    length line == 0 || (ltb max_head (length line) || ltb max_head (length head + length line))

unfoldable pub oversized : Error
oversized = invalid "invalid or oversized headers"

-- The end of the stream: an error of the read, or an empty line.
unfoldable pub at_end : Option String → Error
at_end none = oversized
at_end (some e) = io e

-- The loop over the lines, byte by byte: the head and the line so far, and the bytes left. A line
-- ends behind a newline or after 8193 bytes.
unfoldable pub read_head : Option String → Text → Text → List ℕ → Result (Text × List ℕ) Error
read_head ending head line [] = err (at_end ending)
read_head ending head line (c ∷ cs) =
    let line' = line ++ c ∷ [] in
    elim (c == 10 || length line' == 8193) [
      | false ↦ read_head ending head line' cs
      | true ↦ elim (too_long head line') [
        | true ↦ err oversized
        | false ↦ elim (eq_text line' (13 ∷ 10 ∷ [])) [
          | true ↦ ok (head ++ line', cs)
          | false ↦ read_head ending (head ++ line') [] cs
        ]
      ]
    ]

unfoldable pub or_invalid {ℓ} : {A : Type ℓ} → Option A → String → Result A Error
or_invalid none message = err (invalid message)
or_invalid (some a) message = ok a

unfoldable pub is_given : Option ℕ → Bool
is_given none = false
is_given (some n) = true

module _ (str : Strings) where
  -- One line of the head: the length that is known behind it.
  unfoldable pub header : Option ℕ → Option (Text × Text) → Result (Option ℕ) Error
  header length none = ok length
  header length (some (name, value)) =
      if eq_ignore_ascii_case name transfer_encoding
      then err (invalid "chunked requests unsupported")
      else if eq_ignore_ascii_case name content_length
      then (if is_given length
          then err (invalid "duplicate content length")
          else (or_invalid (str.parse_usize (str.trim value)) "invalid content length" >>= λ n.
              ok (some n)))
      else ok length

  unfoldable pub headers : Option ℕ → List Text → Result (Option ℕ) Error
  headers length [] = ok length
  headers length (line ∷ rest) = do length' ← header length (split_once line); headers length' rest

  unfoldable pub length_of : Option ℕ → ℕ
  length_of none = 0
  length_of (some n) = n

  -- `read_exact`.
  unfoldable pub read_exact : Option String → ℕ → List ℕ → Result Text Error
  read_exact ending n bytes =
      if leb n (length bytes)
      then ok (take n bytes)
      else err (io (elim ending [ none ↦ "failed to fill whole buffer" | some e ↦ e ]))

  unfoldable pub utf8 : Text → String → Result Text Error
  utf8 text message = if str.is_utf8 text then ok text else err (invalid message)

  unfoldable pub read_body : Option String → ℕ → List ℕ → Result Text Error
  read_body ending n rest =
      if ltb max_body n
      then err (invalid "request exceeds 64 KiB")
      else (read_exact ending n rest >>= λ bytes. utf8 bytes "invalid JSON encoding")

  unfoldable pub read_request : Stream → Result (Text × Text) Error
  read_request stream = do
    (raw, rest) ← read_head stream.ending [] [] stream.bytes
    head ← utf8 raw "invalid headers"
    given ← headers none (skip_one (lines head))
    body ← read_body stream.ending (length_of given) rest
    ok (head, body)
