-- ===== src/Prelude/Text.antt =====
-- Python's `str` methods and `int` on ASCII texts, as lists of code points. A text outside ASCII is not modelled.
use vllm_exl.Prelude.Numbers.{ℤ, pos, negsuc}
use Prim.Native.Nat.{ℕ, zero, suc, ◌+◌, ◌-◌, ◌*◌}
use Prim.Native.Char.{code}
use Prim.Native.String.{String}
use mathlib.Core.Bool.{Bool, true, false, ◌&&◌, ◌||◌}
use mathlib.Core.List.{List, [], ◌∷◌, map, reverse}
use mathlib.Core.Option.{Option, none, some}
use vllm_exl.Prelude.Tests.{leb, ◌==◌, if◌then◌else◌}

abbrev pub Text : Type 0
Text = List ℕ

-- the text of a literal
abbrev pub text : String → Text
text String.[] = []
text (String.◌∷◌ c s) = code c ∷ text s

abbrev pub text_eq : Text → Text → Bool
text_eq [] [] = true
text_eq [] (d ∷ t) = false
text_eq (c ∷ s) [] = false
text_eq (c ∷ s) (d ∷ t) = c == d && text_eq s t

-- `s in {…}`
abbrev pub among : Text → List Text → Bool
among s [] = false
among s (t ∷ ts) = text_eq s t || among s ts

unfoldable pub is_space : ℕ → Bool
is_space c = leb 9 c && leb c 13 || leb 28 c && leb c 32

unfoldable pub lstrip : Text → Text
unfolding is_space
lstrip [] = []
lstrip (c ∷ s) = if is_space c then lstrip s else c ∷ s

unfoldable pub strip : Text → Text
unfolding lstrip
strip s = reverse (lstrip (reverse (lstrip s)))

unfoldable pub lower : Text → Text
lower = map (λ c. if leb 65 c && leb c 90 then c + 32 else c)

-- the digits of `int(s, 10)`, which may have single underscores between them
unfoldable pub digits : Bool → ℕ → Bool → Text → Option ℕ
digits good n after_digit [] = if good && after_digit then some n else none
digits good n after_digit (c ∷ s) =
    let digit = leb 48 c && leb c 57 in
    digits (good && (digit || c == 95 && after_digit)) (if digit then n * 10 + (c - 48) else n)
      digit s

abbrev pub negated : ℕ → ℤ
negated zero = pos 0
negated (suc n) = negsuc n

unfoldable pub signed : Text → Option ℤ
unfolding digits
signed [] = none
signed (c ∷ s) =
    if c == 45
    then elim (digits true 0 false s) [ none ↦ none | some n ↦ some (negated n) ]
    else elim (digits true 0 false (if c == 43 then s else c ∷ s)) [
      | none ↦ none
      | some n ↦ some (pos n)
    ]

-- `int(s, 10)`; `none` is its ValueError
unfoldable pub int : Text → Option ℤ
unfolding strip signed
int s = signed (strip s)

-- `s.split(sep)`
unfoldable pub split_on : ℕ → Text → Text → List Text
split_on sep field [] = reverse field ∷ []
split_on sep field (c ∷ s) =
    let rest = split_on sep [] s in
    let more = split_on sep (c ∷ field) s in if c == sep then reverse field ∷ rest else more

unfoldable pub split : ℕ → Text → List Text
unfolding split_on
split sep = split_on sep []

abbrev pub affirmative : List Text
affirmative = text "1" ∷ text "true" ∷ text "yes" ∷ text "on" ∷ []
