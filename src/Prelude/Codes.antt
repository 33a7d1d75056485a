-- ===== src/Prelude/Codes.antt =====
-- Texts that are taken apart: lists of character codes, with the JavaScript methods that the code
-- uses on them. Letters are the 26 of ASCII: coin symbols, addresses and amounts have no others.
use Prim.Native.Nat.{ℕ, ◌+◌, ◌-◌, ◌*◌}
use Prim.Native.Char.{code}
use Prim.Native.String.{String}
use Prim.Native.String.{[] as nil, ◌∷◌ as cons}
use mathlib.Core.Bool.{Bool, true, false, ◌&&◌, ◌||◌}
use mathlib.Core.List.{List, [], ◌∷◌, map}
use agents_playground.Prelude.Tests.{◌==◌, leb, if◌then◌else◌}

abbrev pub Chars : Type 0
Chars = List ℕ

abbrev pub codes : String → Chars
codes nil = []
codes (cons c s) = code c ∷ codes s

abbrev within : ℕ → ℕ → ℕ → Bool
within low high c = leb low c && leb c high

-- `\d`
abbrev pub is_digit : ℕ → Bool
is_digit c = within b'0' b'9' c

-- `[A-Z]`
abbrev pub is_capital : ℕ → Bool
is_capital c = within b'A' b'Z' c

-- What `trim` takes off: white space and line terminators.
abbrev pub is_space : ℕ → Bool
is_space c =
    within 9 13 c
    || c == 32
    || c == 160
    || c == 5760
    || within 8192 8202 c
    || within 8232 8233 c
    || c == 8239
    || c == 8287
    || c == 12288
    || c == 65279

abbrev pub to_upper : ℕ → ℕ
to_upper c = if within b'a' b'z' c then c - 32 else c

abbrev pub to_lower : ℕ → ℕ
to_lower c = if within b'A' b'Z' c then c + 32 else c

abbrev pub upper : Chars → Chars
upper = map to_upper

abbrev pub lower : Chars → Chars
lower = map to_lower

abbrev pub all : (ℕ → Bool) → Chars → Bool
all p [] = true
all p (c ∷ cs) = p c && all p cs

abbrev pub is_empty : Chars → Bool
is_empty [] = true
is_empty (c ∷ cs) = false

abbrev pub chars_eq : Chars → Chars → Bool
chars_eq [] [] = true
chars_eq [] (d ∷ ds) = false
chars_eq (c ∷ cs) [] = false
chars_eq (c ∷ cs) (d ∷ ds) = c == d && chars_eq cs ds

abbrev pub trim_start : Chars → Chars
trim_start [] = []
trim_start (c ∷ cs) = if is_space c then trim_start cs else c ∷ cs

-- A character before a text whose end was trimmed: dropped when it is white and nothing follows.
abbrev pub before_trimmed : ℕ → Chars → Chars
before_trimmed c [] = if is_space c then [] else c ∷ []
before_trimmed c (d ∷ ds) = c ∷ d ∷ ds

abbrev pub trim_end : Chars → Chars
trim_end [] = []
trim_end (c ∷ cs) = before_trimmed c (trim_end cs)

abbrev pub trim : Chars → Chars
trim cs = trim_end (trim_start cs)

-- `Number(text)` of digits, after those already read.
abbrev pub number_from : ℕ → Chars → ℕ
number_from n [] = n
number_from n (c ∷ cs) = number_from (n * 10 + (c - b'0')) cs
