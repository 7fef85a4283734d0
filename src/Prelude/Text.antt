-- ===== src/Prelude/Text.antt =====
-- Equality of texts as a test.
use Prim.Native.String.{String}
use mathlib.Core.Bool.{Bool, true}
use mathlib.Core.Path.{◌≡◌}
use mathlib.Core.Logic.{◌↔◌}
use text.Mathlib.Text.{◌==◌}
use text.Mathlib.TextEquality.{eq_iff}

abbrev pub eqb_String : String → String → Bool
eqb_String a b = a == b

pub eqb_String_iff : (a b : String) → (eqb_String a b ≡ true) ↔ (a ≡ b)
eqb_String_iff a b = eq_iff a b
