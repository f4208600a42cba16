-- ===== src/Cloud/Http/Lines.antt =====
-- cloud/src/main.rs: the names that the server compares with, and what it uses of `str`.
use fieldbus_control_node.Prelude.{
  ℕ, ◌+◌, Bool, true, false, ◌&&◌, Option, none, some, List, [], ◌∷◌, ◌++◌, leb, ◌==◌,
  if◌then◌else◌,
}
use mathlib.Core.Option
use fieldbus_control_node.Cloud.Map.Orders.{Text, eq_text}

abbrev pub authorization : Text
authorization =
    b'a' ∷ b'u' ∷ b't' ∷ b'h' ∷ b'o' ∷ b'r' ∷ b'i' ∷ b'z' ∷ b'a' ∷ b't' ∷ b'i' ∷ b'o' ∷ b'n' ∷ []

abbrev pub transfer_encoding : Text
transfer_encoding =
    b't' ∷ b'r' ∷ b'a' ∷ b'n' ∷ b's' ∷ b'f' ∷ b'e' ∷ b'r' ∷ b'-' ∷ b'e' ∷ b'n' ∷ b'c' ∷ b'o' ∷ b'd'
    ∷ b'i' ∷ b'n' ∷ b'g' ∷ []

abbrev pub content_length : Text
content_length =
    b'c' ∷ b'o' ∷ b'n' ∷ b't' ∷ b'e' ∷ b'n' ∷ b't' ∷ b'-' ∷ b'l' ∷ b'e' ∷ b'n' ∷ b'g' ∷ b't' ∷ b'h'
    ∷ []

abbrev pub bearer : Text
bearer = b'B' ∷ b'e' ∷ b'a' ∷ b'r' ∷ b'e' ∷ b'r' ∷ b' ' ∷ []

abbrev pub post : Text
post = b'P' ∷ b'O' ∷ b'S' ∷ b'T' ∷ []

abbrev pub get_method : Text
get_method = b'G' ∷ b'E' ∷ b'T' ∷ []

abbrev pub register_path : Text
register_path = b'/' ∷ b'r' ∷ b'e' ∷ b'g' ∷ b'i' ∷ b's' ∷ b't' ∷ b'e' ∷ b'r' ∷ []

abbrev pub rotate_path : Text
rotate_path =
    b'/' ∷ b'r' ∷ b'o' ∷ b't' ∷ b'a' ∷ b't' ∷ b'e' ∷ b'-' ∷ b'c' ∷ b'r' ∷ b'e' ∷ b'd' ∷ b'e' ∷ b'n'
    ∷ b't' ∷ b'i' ∷ b'a' ∷ b'l' ∷ []

abbrev pub firmware_path : Text
firmware_path = b'/' ∷ b'f' ∷ b'i' ∷ b'r' ∷ b'm' ∷ b'w' ∷ b'a' ∷ b'r' ∷ b'e' ∷ []

abbrev pub config_path : Text
config_path = b'/' ∷ b'c' ∷ b'o' ∷ b'n' ∷ b'f' ∷ b'i' ∷ b'g' ∷ []

abbrev pub ingest_path : Text
ingest_path = b'/' ∷ b'i' ∷ b'n' ∷ b'g' ∷ b'e' ∷ b's' ∷ b't' ∷ []

abbrev pub healthz_path : Text
healthz_path = b'/' ∷ b'h' ∷ b'e' ∷ b'a' ∷ b'l' ∷ b't' ∷ b'h' ∷ b'z' ∷ []

abbrev pub dashboard_path : Text
dashboard_path = b'/' ∷ b'd' ∷ b'a' ∷ b's' ∷ b'h' ∷ b'b' ∷ b'o' ∷ b'a' ∷ b'r' ∷ b'd' ∷ []

abbrev pub metrics_path : Text
metrics_path = b'/' ∷ b'm' ∷ b'e' ∷ b't' ∷ b'r' ∷ b'i' ∷ b'c' ∷ b's' ∷ []

abbrev pub health_prefix : Text
health_prefix = b'/' ∷ b'h' ∷ b'e' ∷ b'a' ∷ b'l' ∷ b't' ∷ b'h' ∷ b'/' ∷ []

abbrev pub device_id_field : Text
device_id_field = b'd' ∷ b'e' ∷ b'v' ∷ b'i' ∷ b'c' ∷ b'e' ∷ b'_' ∷ b'i' ∷ b'd' ∷ []

abbrev pub secret_hex_field : Text
secret_hex_field = b's' ∷ b'e' ∷ b'c' ∷ b'r' ∷ b'e' ∷ b't' ∷ b'_' ∷ b'h' ∷ b'e' ∷ b'x' ∷ []

abbrev pub firmware_version_field : Text
firmware_version_field =
    b'f' ∷ b'i' ∷ b'r' ∷ b'm' ∷ b'w' ∷ b'a' ∷ b'r' ∷ b'e' ∷ b'_' ∷ b'v' ∷ b'e' ∷ b'r' ∷ b's' ∷ b'i'
    ∷ b'o' ∷ b'n' ∷ []

abbrev pub insecure : Text
insecure = b'1' ∷ []

-- A line without the carriage return at its end.
unfoldable pub chomp : Text → Text
chomp [] = []
chomp (c ∷ []) = if c == 13 then [] else c ∷ []
chomp (c ∷ d ∷ cs) = c ∷ chomp (d ∷ cs)

-- `str::lines`: the line so far, and the text behind it.
unfoldable pub lines_from : Text → Text → List Text
lines_from [] [] = []
lines_from (c ∷ line) [] = (c ∷ line) ∷ []
lines_from line (c ∷ cs) = elim (c == 10) [
  | true ↦ chomp line ∷ lines_from [] cs
  | false ↦ lines_from (line ++ c ∷ []) cs
]

unfoldable pub lines : Text → List Text
unfolding lines_from
lines text = lines_from [] text

unfoldable pub skip_one {ℓ} : {A : Type ℓ} → List A → List A
skip_one [] = []
skip_one (x ∷ xs) = xs

-- `line.split_once(':')`.
unfoldable pub split_once : Text → Option (Text × Text)
split_once [] = none
split_once (c ∷ cs) =
    let rest = split_once cs in
    if c == b':' then some ([], cs) else Option.map (λ r. (c ∷ r.0, r.1)) rest

unfoldable pub lower : ℕ → ℕ
lower c = if leb b'A' c && leb c b'Z' then c + 32 else c

unfoldable pub lower_text : Text → Text
lower_text [] = []
lower_text (c ∷ cs) = lower c ∷ lower_text cs

unfoldable pub eq_ignore_ascii_case : Text → Text → Bool
eq_ignore_ascii_case a b = eq_text (lower_text a) (lower_text b)

unfoldable pub strip_prefix : Text → Text → Option Text
strip_prefix [] text = some text
strip_prefix (p ∷ ps) [] = none
strip_prefix (p ∷ ps) (c ∷ cs) = let rest = strip_prefix ps cs in if p == c then rest else none
