-- ===== src/Prelude/Texts.antt =====
-- Python's `str.split(".")` and `int` of a text of decimal digits.
use Prim.Native.Nat.{ℕ, ◌+◌, ◌-◌, ◌*◌}
use Prim.Native.Char.{Char, code}
use Prim.Native.String.{String, [] as no_text, ◌∷◌ as text_cons}
use mathlib.Core.Bool.{Bool, true, false, ◌&&◌}
use mathlib.Core.List.{List, [], ◌∷◌}
use ucf.Prelude.Tests.{◌==◌, nat_eq, leb, if◌then◌else◌}

-- The code of ".".
abbrev dot : ℕ
dot = 46

-- A character that stands before the first segment joins it.
abbrev prepend : Char → List String → List String
prepend c [] = text_cons c no_text ∷ []
prepend c (s ∷ ss) = text_cons c s ∷ ss

-- version.split(".")
unfoldable pub split_dots : String → List String
split_dots no_text = no_text ∷ []
split_dots (text_cons c s) =
    let rest = split_dots s in if code c == dot then no_text ∷ rest else prepend c rest

-- [0-9]
abbrev pub is_digit : Char → Bool
is_digit c = leb 48 (code c) && leb (code c) 57

abbrev pub digit : Char → ℕ
digit c = code c - 48

-- [0-9]*
abbrev pub all_digits : String → Bool
all_digits no_text = true
all_digits (text_cons c s) = is_digit c && all_digits s

-- int(s), after a number that was read before
abbrev pub int_from : ℕ → String → ℕ
int_from n no_text = n
int_from n (text_cons c s) = int_from (n * 10 + digit c) s

-- s.startswith(prefix)
abbrev pub starts_with : String → String → Bool
starts_with no_text s = true
starts_with (text_cons c p) no_text = false
starts_with (text_cons c p) (text_cons d s) = code c == code d && starts_with p s
