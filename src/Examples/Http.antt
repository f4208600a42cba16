-- ===== src/Examples/Http.antt =====
-- The theorems on cloud/src/main.rs at concrete inputs.
use fieldbus_control_node.Prelude.{
  ℕ, ◌≤◌, ◌≡◌, ◌↔◌, ◌⊎◌, ◌==◌, refl, arith, true, false, none, some, Option, List, [], ◌∷◌, ◌++◌,
  pos, length, replicate, ok, err, ◌*◌, ◌+◌, ◌-◌,
}
use fieldbus_control_node.J1939.Crc.{IsBytes}
use fieldbus_control_node.Cloud.Map.Orders.{Text, eq_text}
use fieldbus_control_node.Cloud.Sign.{hex}
use fieldbus_control_node.Cloud.Store.{Store, empty}
use fieldbus_control_node.Cloud.Http.Lines.{
  lines, lines_from, chomp, skip_one, split_once, eq_ignore_ascii_case, lower_text, lower,
  content_length, post, register_path,
}
use fieldbus_control_node.Cloud.Http.Request.{
  Stream, Strings, read_request, read_head, too_long, utf8, headers, header, or_invalid, is_given,
  length_of, read_body, read_exact,
}
use fieldbus_control_node.Cloud.Http.Admin.{Environment, constant_time_hex_equal}
use fieldbus_control_node.Cloud.Http.Answers.{no_metrics, first_word, second_word}
use fieldbus_control_node.Cloud.Http.Server.{Json, handle, serve_connections, request_line}
use fieldbus_control_node.Cloud.Http.Digest.{constant_time_hex_equal_iff}
use fieldbus_control_node.Cloud.Http.Guarded.{MayChange, handle-keeps}
use fieldbus_control_node.Cloud.Http.Metered.{IsBalanced, serve_connections-IsBalanced}
use fieldbus_control_node.Cloud.Http.Limits.{read_request-bounded}
use fieldbus_control_node.Examples.Service.{integers, crates, writes_all}

-- Words that single spaces part, and decimal numbers.
abbrev words_from : Text → Text → List Text
words_from word [] = word ∷ []
words_from word (c ∷ cs) = elim (c == 32) [
  | true ↦ word ∷ words_from [] cs
  | false ↦ words_from (word ++ c ∷ []) cs
]

abbrev decimal : ℕ → Text → Option ℕ
decimal n [] = some n
decimal n (c ∷ cs) = decimal (n * 10 + (c - 48)) cs

abbrev strings : Strings
strings = record {
  trim = λ text. text;
  split_whitespace = λ text. words_from [] text;
  parse_usize = λ text. decimal 0 text;
  is_utf8 = λ text. true;
}

-- Every body is refused but one that is to be any text.
abbrev parsers : Json integers
parsers = record {
  Value = Text;
  value = λ text. ok text;
  field = λ value name. value;
  batch = λ text. err "no batch";
  firmware = λ text. err "no firmware";
  config = λ text. err "no config";
}

abbrev locked_down : Environment
locked_down = record { token_sha256 = none; allow_insecure = none }

-- A post to the register path with a body of two bytes.
abbrev posted : Text
posted =
    post ++ 32 ∷ register_path ++ 13 ∷ 10 ∷ content_length ++ b':' ∷ b'2' ∷ 13 ∷ 10 ∷ 13 ∷ 10 ∷ []

abbrev request : Stream
request = record { bytes = posted ++ 97 ∷ 98 ∷ 99 ∷ []; ending = none }

abbrev nothing_stored : Store integers
nothing_stored = empty integers []

request_read : read_request strings request ≡ ok (posted, 97 ∷ 98 ∷ [])
unfolding read_request read_head too_long utf8 headers header lines lines_from chomp skip_one
    split_once eq_ignore_ascii_case lower_text lower or_invalid is_given length_of read_body
    read_exact eq_text
request_read = refl

read_request-bounded_example : (length posted ≤ 8192) × (length {A = ℕ} (97 ∷ 98 ∷ []) ≤ 65536)
read_request-bounded_example =
    read_request-bounded strings request posted (97 ∷ 98 ∷ []) request_read

abbrev digest : List ℕ
digest = replicate 32 171

digest-IsBytes : IsBytes digest
unfolding replicate
digest-IsBytes = ground arith

constant_time_hex_equal_iff_example :
    (constant_time_hex_equal digest (hex digest) ≡ true)
    ↔ ((hex digest ≡ hex digest) × (length digest ≡ 32))
constant_time_hex_equal_iff_example = constant_time_hex_equal_iff digest (hex digest) digest-IsBytes

handle-keeps_example :
    ((handle integers crates writes_all strings parsers locked_down nothing_stored no_metrics
        (pos 5)
        request).0
      ≡ nothing_stored)
    ⊎ ((head : Text) × (body : Text) × (read_request strings request ≡ ok (head, body))
        × let words = request_line integers crates writes_all strings parsers (lines head) in
          MayChange integers crates writes_all strings parsers locked_down
            (first_word words)
            (second_word words)
            head)
handle-keeps_example =
    handle-keeps integers crates writes_all strings parsers locked_down nothing_stored no_metrics
      (pos 5) request

serve_connections-IsBalanced_example :
    IsBalanced
      (serve_connections integers crates writes_all strings parsers locked_down nothing_stored
        no_metrics
        ((pos 5, request) ∷ (pos 6, record { bytes = []; ending = some "timed out" }) ∷ [])).1
serve_connections-IsBalanced_example =
    serve_connections-IsBalanced integers crates writes_all strings parsers locked_down
      nothing_stored
      ((pos 5, request) ∷ (pos 6, record { bytes = []; ending = some "timed out" }) ∷ [])
