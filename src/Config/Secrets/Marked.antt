-- ===== src/Config/Secrets/Marked.antt =====
-- The list of the texts that are redacted: which texts it contains, and what the redaction leaves.
use Prim.Native.Char.{Char}
use mathlib.Core.Path.{subst}
use procframe.Prelude.{
  ◌≡◌, refl, sym, ◌≢◌, String, true, false, ◌||◌, none, List, [], ◌∷◌, ◌++◌, ◌==◌, arith, eq_iff,
  eq_refl, contains, lookup, Bool-cases, inl, inr,
}
use procframe.Prelude.Replace.{occurs, replace_all, Avoids, occurs-replaced, occurs-replace_same}
use procframe.Prelude.Distinct.{lookup-insert_other}
use procframe.Config.Field.{redacted_placeholder}
use procframe.Config.Json.{canonical_json_field_name}
use procframe.Config.Secrets.{
  Tokens, no_tokens, append_unique_token, redacted, normalize_loop, normalize_json_field_names,
}

redacted-keeps :
    (c : Char) (t : String) (tokens : List String) (text : String)
    → Avoids (String.◌∷◌ c t) redacted_placeholder
    → occurs (String.◌∷◌ c t) text ≡ false
    → occurs (String.◌∷◌ c t) (redacted tokens text) ≡ false
unfolding redacted replace_all
redacted-keeps c t [] text a h = h
redacted-keeps c t (u ∷ tokens) text a h =
    redacted-keeps c t tokens _ a (occurs-replaced u "[" "REDACTED]" c t 0 text a h)

-- A token that shares no character with the placeholder does not stand in the redacted text.
pub redacted-hides :
    (c : Char) (t : String) (tokens : List String) (text : String)
    → Avoids (String.◌∷◌ c t) redacted_placeholder
    → contains (String.◌∷◌ c t) tokens ≡ true
    → occurs (String.◌∷◌ c t) (redacted tokens text) ≡ false
unfolding redacted replace_all
redacted-hides c t [] text a h = ground arith
redacted-hides c t (u ∷ tokens) text a h = elim (Bool-cases (String.◌∷◌ c t == u)) [
  | inl same ↦ redacted-keeps c t tokens _ a (
      occurs-replace_same u "[" "REDACTED]" c t 0 text (sym ((eq_iff (String.◌∷◌ c t) u).0 same)) a)
  | inr other ↦ redacted-hides c t tokens _ a (ground arith)
]

contains-append :
    (t u : String) (ts : List String) → contains t (ts ++ u ∷ []) ≡ (contains t ts || t == u)
contains-append t u [] = ground arith
contains-append t u (v ∷ ts) = ground (arith, contains-append t u ts)

-- Every key of the set is in the slice.
abbrev pub IsMarked : Tokens → Type 0
IsMarked acc = (t : String) → contains t acc.tokens ≡ false → lookup t acc.seen ≡ none

pub append-keeps :
    (u t : String) (acc : Tokens)
    → contains t acc.tokens ≡ true
    → contains t (append_unique_token u acc).tokens ≡ true
unfolding append_unique_token
append-keeps u t acc h = ground (arith, contains-append t u acc.tokens)

pub append-contains :
    (t : String) (acc : Tokens)
    → IsMarked acc
    → t ≢ ""
    → contains t (append_unique_token t acc).tokens ≡ true
unfolding append_unique_token
append-contains t acc marked h =
    ground (arith, contains-append t t acc.tokens, eq_refl t, eq_iff t "", marked t)

pub append-IsMarked :
    (u : String) (acc : Tokens) → IsMarked acc → IsMarked (append_unique_token u acc)
unfolding append_unique_token
append-IsMarked u acc marked t = ground (
  arith,
  contains-append t u acc.tokens,
  marked t,
  eq_iff t u,
  eq_iff u t,
  lookup-insert_other u t tt acc.seen,
)

normalize-keeps :
    (fields : List String) (names : List (String × String)) (t : String) (acc : Tokens)
    → contains t acc.tokens ≡ true
    → contains t (normalize_loop fields names acc).tokens ≡ true
unfolding normalize_loop
normalize-keeps [] names t acc h = h
normalize-keeps (field ∷ fields) names t acc h =
    normalize-keeps fields names t _ (append-keeps (canonical_json_field_name field names) t acc h)

normalize_loop-contains :
    (field : String) (fields : List String) (names : List (String × String)) (acc : Tokens)
    → IsMarked acc
    → contains field fields ≡ true
    → canonical_json_field_name field names ≢ ""
    → contains (canonical_json_field_name field names) (normalize_loop fields names acc).tokens
      ≡ true
unfolding normalize_loop
normalize_loop-contains field [] names acc marked member named = ground arith
normalize_loop-contains field (at ∷ fields) names acc marked member named =
    elim (Bool-cases (field == at)) [
      | inl same ↦ normalize-keeps fields names _ _ (
          subst
            (λ f.
              contains (canonical_json_field_name field names)
                (append_unique_token (canonical_json_field_name f names) acc).tokens
              ≡ true)
            ((eq_iff field at).0 same)
            (append-contains (canonical_json_field_name field names) acc marked named))
      | inr other ↦
          normalize_loop-contains field fields names _
            (append-IsMarked (canonical_json_field_name at names) acc marked) (ground arith) named
    ]

pub no_tokens-IsMarked : IsMarked no_tokens
unfolding lookup
no_tokens-IsMarked t h = refl

-- A secret field is redacted under its JSON name.
pub normalize-contains :
    (field : String) (fields : List String) (names : List (String × String))
    → contains field fields ≡ true
    → canonical_json_field_name field names ≢ ""
    → contains (canonical_json_field_name field names) (normalize_json_field_names fields names)
      ≡ true
unfolding normalize_json_field_names
normalize-contains field fields names member named =
    normalize_loop-contains field fields names no_tokens no_tokens-IsMarked member named
