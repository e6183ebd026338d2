-- ===== src/Prelude/Text.antt =====
-- Go's `strings` on native texts, character by character.
use Prim.Native.Char.{code}
use Prim.Native.String
use Prim.Native.String.{String}
use mathlib.Core.Path.{◌≡◌, refl}
use mathlib.Core.Option.{Option, none, some}
use mathlib.Core.List.{List, [], ◌∷◌}
use procframe.Prelude.Tests.{if◌then◌else◌, eqb}

infixr 65 ◌+++◌
-- Concatenation of texts.
abbrev pub ◌+++◌ : String → String → String
s +++ t = String.◌++◌ s t

-- strings.CutPrefix: the rest of `s` behind the prefix `p`.
abbrev pub cut_prefix : String → String → Option String
cut_prefix String.[] s = some s
cut_prefix (String.◌∷◌ c p) String.[] = none
cut_prefix (String.◌∷◌ c p) (String.◌∷◌ d s) =
    let rest = cut_prefix p s in if eqb (code c) (code d) then rest else none

-- strings.IndexByte with the cut at the index: the text before and behind the first `=`.
abbrev pub cut_equals : String → Option (String × String)
cut_equals String.[] = none
cut_equals (String.◌∷◌ c s) =
    let rest = cut_equals s in
    if eqb (code c) b'='
    then some ("", s)
    else elim rest [ none ↦ none | some (name, value) ↦ some (String.◌∷◌ c name, value) ]

-- strings.Join.
abbrev pub join : String → List String → String
join sep [] = ""
join sep (s ∷ []) = s
join sep (s ∷ t ∷ ts) = s +++ sep +++ join sep (t ∷ ts)

cut_prefix_example : cut_prefix "--json=" "--json={}" ≡ some "{}"
cut_prefix_example = refl

cut_equals_example : cut_equals "level=a=b" ≡ some ("level", "a=b")
cut_equals_example = refl

join_example : join " " ("a" ∷ "b" ∷ "c" ∷ []) ≡ "a b c"
join_example = refl
