-- ===== src/Common/Texts.antt =====
-- Text: the comparison `===` of two strings, and the truth of a text that may be missing.
use Prim.Native.String.{String}
use mathlib.Core.Bool.{Bool, false, ◌||◌, not}
use mathlib.Core.Option.{Option, none, some}
use mathlib.Core.List.{List, [], ◌∷◌}
use text.Mathlib.Text.{◌==◌ as text_eq}
pub use text.Mathlib.TextEquality.{eq_iff}
pub use text.Mathlib.TextPositions.{eq_refl}

infix 50 ◌===◌
abbrev pub ◌===◌ : String → String → Bool
a === b = text_eq a b

-- `includes` of an array of texts
abbrev pub includes : List String → String → Bool
includes [] a = false
includes (x ∷ xs) a = x === a || includes xs a

-- A missing text and the empty one are both false in a test.
abbrev pub truthy : Option String → Bool
truthy none = false
truthy (some s) = not (s === "")
