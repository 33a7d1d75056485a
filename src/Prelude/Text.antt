-- ===== src/Prelude/Text.antt =====
-- Texts: equality, joining, and JavaScript's falsy empty text.
use Prim.Native.String.{String}
use Prim.Native.String
use mathlib.Core.Path.{◌≡◌}
use mathlib.Core.Bool.{Bool, true}
use mathlib.Core.Option.{Option, none, some}
use text.Mathlib.Text.{◌==◌ as str_eq}
use text.Mathlib.TextEquality.{eq_iff}
use text.Mathlib.TextPositions.{eq_refl}
use agents_playground.Prelude.Tests.{if◌then◌else◌}

abbrev pub text_eq : String → String → Bool
text_eq a b = str_eq a b

abbrev pub join : String → String → String
join a b = String.◌++◌ a b

pub text_eq_refl : (a : String) → text_eq a a ≡ true
text_eq_refl a = eq_refl a

pub text_eq→eq : (a b : String) → text_eq a b ≡ true → a ≡ b
text_eq→eq a b h = (eq_iff a b).0 h

-- An optional text in a Boolean position, `if (key)` or `key || null`: the empty text counts as
-- absent.
abbrev pub truthy : Option String → Option String
truthy none = none
truthy (some s) = if text_eq s "" then none else some s
