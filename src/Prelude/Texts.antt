-- ===== src/Prelude/Texts.antt =====
-- Equality of two strings as a test.
use Prim.Native.String.{String}
use text.Mathlib.Text.{◌==◌}
use mathlib.Core.Bool.{Bool, true}
use mathlib.Core.Path.{◌≡◌}
use text.Mathlib.TextEquality.{eq_iff}

abbrev pub same_text : String → String → Bool
same_text s t = s == t

pub same_text_lem : (s t : String) → same_text s t ≡ true → s ≡ t
same_text_lem s t h = (eq_iff s t).0 h
