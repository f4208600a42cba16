-- ===== src/Cloud/Http/Admin.antt =====
-- cloud/src/main.rs: `constant_time_hex_equal` and `admin_authorized`. The environment and SHA-256
-- are parameters.
use fieldbus_control_node.Prelude.{
  ℕ, Bool, false, not, ◌&&◌, ◌||◌, Option, none, some, List, [], ◌∷◌, ◌==◌, if◌then◌else◌, length,
  bit_or, bit_xor,
}
use fieldbus_control_node.Cloud.Map.Orders.{Text, eq_text}
use fieldbus_control_node.Cloud.Sign.{hex, is_ascii}
use fieldbus_control_node.Cloud.Http.Lines.{
  lines, skip_one, split_once, eq_ignore_ascii_case, strip_prefix, authorization, bearer, insecure,
}
use fieldbus_control_node.Cloud.Http.Request.{Strings}

-- The loop over the zipped bytes.
unfoldable pub differences : ℕ → Text → Text → ℕ
differences difference [] right = difference
differences difference (l ∷ left) [] = difference
differences difference (l ∷ left) (r ∷ right) =
    differences (bit_or difference (bit_xor l r)) left right

unfoldable pub constant_time_hex_equal : List ℕ → Text → Bool
constant_time_hex_equal actual expected =
    if not (length expected == 64) || not (is_ascii expected)
    then false
    else let actual_hex = hex actual in
      length actual_hex == length expected && differences 0 actual_hex expected == 0

-- FIELDBUS_ADMIN_TOKEN_SHA256 and FIELDBUS_ALLOW_INSECURE_ADMIN.
pub record Environment : Type 0 where
  pub token_sha256 : Option Text
  pub allow_insecure : Option Text

unfoldable pub allows : Option Text → Bool
allows none = false
allows (some value) = eq_text value insecure

module _ (str : Strings) (sha256 : List ℕ → List ℕ) where
  unfoldable pub authorization_of : Option (Text × Text) → List Text → List Text
  authorization_of none values = values
  authorization_of (some (name, value)) values =
      if eq_ignore_ascii_case name authorization then str.trim value ∷ values else values

  -- The values of the authorization headers.
  unfoldable pub authorizations : List Text → List Text
  authorizations [] = []
  authorizations (line ∷ rest) = authorization_of (split_once line) (authorizations rest)

  unfoldable pub token_matches : Option Text → Text → Bool
  token_matches none expected = false
  token_matches (some token) expected = constant_time_hex_equal (sha256 token) expected

  -- Exactly one header, with a bearer token.
  unfoldable pub presents : List Text → Text → Bool
  presents [] expected = false
  presents (value ∷ []) expected = token_matches (strip_prefix bearer value) expected
  presents (v ∷ w ∷ values) expected = false

  unfoldable pub authorized_by : Environment → Option Text → Text → Bool
  authorized_by env none head = allows env.allow_insecure
  authorized_by env (some []) head = allows env.allow_insecure
  authorized_by env (some (c ∷ cs)) head =
      presents (authorizations (skip_one (lines head))) (c ∷ cs)

  unfoldable pub admin_authorized : Environment → Text → Bool
  admin_authorized env head = authorized_by env env.token_sha256 head
