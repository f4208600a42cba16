-- ===== src/Cloud/Http/Limits.antt =====
-- cloud/src/main.rs: the bounds of what `read_request` lets in.
use Prim.Native.String.{String}
use fieldbus_control_node.Prelude.{
  ℕ, ◌+◌, ◌≤◌, ◌≡◌, sym, ap, subst, arith, Option, none, List, [], ◌∷◌, ◌++◌, length, length-append,
  length-take_le, ok-injective, Result, ok, err, bind-ok, ltb, leb, ◌==◌, ◌||◌, Bool-cases, inl,
  inr,
}
use fieldbus_control_node.Cloud.Map.Orders.{Text, eq_text}
use fieldbus_control_node.Cloud.Wire.{Error}
use fieldbus_control_node.Cloud.Http.Lines.{lines, skip_one}
use fieldbus_control_node.Cloud.Http.Request.{
  Stream, Strings, max_body, too_long, read_head, read_exact, read_body, utf8, headers, length_of,
  read_request,
}

head_length : Result (Text × List ℕ) Error → ℕ
head_length (ok r) = length r.0
head_length (err e) = 0

read_head-length :
    (ending : Option String) (bytes : List ℕ) (head line raw rest : Text)
    → read_head ending head line bytes ≡ ok (raw, rest)
    → length raw ≤ 8192
unfolding read_head too_long head_length
read_head-length ending [] head line raw rest e = ground arith
read_head-length ending (c ∷ cs) head line raw rest e =
    let line' = line ++ c ∷ [] in
    let l = length-append head line' in
    elim (Bool-cases (c == 10 || length line' == 8193)) [
      | inr open_line ↦
          read_head-length ending cs head line' raw rest (rw (read_head, open_line) at e)
      | inl full ↦ elim (Bool-cases (too_long head line')) [
        | inl long ↦ absurd (ground (arith, rw (read_head, full, long) at e))
        | inr short ↦ elim (Bool-cases (eq_text line' (13 ∷ 10 ∷ []))) [
          | inl blank ↦
              let fits : length head + length line' ≤ 8192 = ground (arith, short) in
              let same : length (head ++ line') ≡ length raw =
                ap head_length (rw (read_head, full, short, blank) at e) in
              omega (arith, l, fits, same)
          | inr other ↦
              read_head-length ending cs (head ++ line') [] raw rest
                (rw (read_head, full, short, other) at e)
        ]
      ]
    ]

utf8-same :
    (str : Strings) (text : Text) (message : String) (t : Text)
    → utf8 str text message ≡ ok t
    → length t ≡ length text
unfolding utf8
utf8-same str text message t e = elim (Bool-cases (str.is_utf8 text)) [
  | inl p ↦ sym (ap text_length (rw (utf8, p) at e))
  | inr p ↦ absurd (ground (arith, rw (utf8, p) at e))
]
  where
    text_length : Result Text Error → ℕ
    text_length (ok t) = length t
    text_length (err e) = 0

read_exact-length :
    (str : Strings) (ending : Option String) (n : ℕ) (bytes : List ℕ) (t : Text)
    → read_exact str ending n bytes ≡ ok t
    → length t ≤ n
unfolding read_exact
read_exact-length str ending n bytes t e = elim (Bool-cases (leb n (length bytes))) [
  | inl p ↦
      subst (λ u. length u ≤ n) (ok-injective (rw (read_exact, p) at e)) (length-take_le n bytes)
  | inr p ↦ absurd (ground (arith, rw (read_exact, p) at e))
]

read_body-length :
    (str : Strings) (ending : Option String) (n : ℕ) (rest : List ℕ) (body : Text)
    → read_body str ending n rest ≡ ok body
    → length body ≤ 65536
unfolding read_body
read_body-length str ending n rest body e = elim (Bool-cases (ltb max_body n)) [
  | inl p ↦ absurd (ground (arith, rw (read_body, p) at e))
  | inr p ↦
      let (bytes, got, valid) =
        bind-ok (read_exact str ending n rest) (λ b. utf8 str b "invalid JSON encoding") body
          (rw (read_body, p) at e) in
      let fits : n ≤ 65536 = ground (arith, p) in
      omega (
        arith,
        utf8-same str bytes "invalid JSON encoding" body valid,
        read_exact-length str ending n rest bytes got,
      )
]

-- A request that the server reads has a head of at most 8192 bytes and a body of at most 65536,
-- however many bytes arrive and however they are cut into lines.
pub read_request-bounded :
    (str : Strings) (stream : Stream) (head body : Text)
    → read_request str stream ≡ ok (head, body)
    → (length head ≤ 8192) × (length body ≤ 65536)
unfolding read_request
read_request-bounded str stream head body e =
    let (r, got_head, e₁) = bind-ok (read_head stream.ending [] [] stream.bytes) _ (head, body) e in
    let (h, valid, e₂) = bind-ok (utf8 str r.0 "invalid headers") _ (head, body) e₁ in
    let (given, counted, e₃) = bind-ok (headers str none (skip_one (lines h))) _ (head, body) e₂ in
    let (b, got_body, e₄) =
      bind-ok (read_body str stream.ending (length_of str given) r.1) _ (head, body) e₃ in
    let same = ok-injective e₄ in
    (
      subst (λ (p : Text × Text). length p.0 ≤ 8192) same
          (omega (
            arith,
            utf8-same str r.0 "invalid headers" h valid,
            read_head-length stream.ending stream.bytes [] [] r.0 r.1 got_head,
          )),
      subst (λ (p : Text × Text). length p.1 ≤ 65536) same
          (read_body-length str stream.ending (length_of str given) r.1 b got_body),
    )
