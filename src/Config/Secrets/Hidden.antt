-- ===== src/Config/Secrets/Hidden.antt =====
-- What an error about a configuration file does not show.
use mathlib.Core.Path.{subst}
use procframe.Prelude.{
  ◌≡◌, refl, sym, ap, ◌∙◌, ◌≢◌, ◌⊎◌, String, true, false, Option, none, some, List, [], ◌∷◌, ◌==◌,
  arith, eq_iff, contains, lookup, Bool-cases, inl, inr,
}
use procframe.Prelude.Replace.{occurs, Avoids}
use procframe.Prelude.Text.{◌+++◌}
use procframe.Errors.{Error, plain, error_text, Result, ok, err}
use procframe.Config.Field.{redacted_placeholder}
use procframe.Config.Json.{Json}
use procframe.Config.Secrets.{
  Tokens, no_tokens, append_unique_token, with_text, secret_value, tokens_from, redacted,
  secret_tokens_of, secret_loop, secret_json_value_tokens, redact_secret_error,
}
use procframe.Config.Secrets.Marked.{
  redacted-hides, IsMarked, append-keeps, append-contains, append-IsMarked, no_tokens-IsMarked,
}

not-empty : (raw : String) → raw ≢ "" → (raw == "") ≡ false
not-empty raw full = ground (arith, eq_iff raw "")

module _ {Value : Type 0} (json : Json Value) where
  open json use {parse_object, decode_string}

  text-keeps :
      (r : Result String) (t : String) (acc : Tokens)
      → contains t acc.tokens ≡ true
      → contains t (with_text json r acc).tokens ≡ true
  text-keeps (ok text) t acc h = append-keeps text t acc h
  text-keeps (err e) t acc h = h

  text-IsMarked :
      (r : Result String) (acc : Tokens) → IsMarked acc → IsMarked (with_text json r acc)
  text-IsMarked (ok text) acc marked = append-IsMarked text acc marked
  text-IsMarked (err e) acc marked = marked

  tokens_of-keeps :
      (raw t : String) (acc : Tokens)
      → contains t acc.tokens ≡ true
      → contains t (secret_tokens_of json raw acc).tokens ≡ true
  unfolding secret_tokens_of
  tokens_of-keeps raw t acc h = elim (Bool-cases (raw == "")) [
    | inl empty ↦ rw empty h
    | inr full ↦ rw full (text-keeps (decode_string raw) t _ (append-keeps raw t acc h))
  ]

  tokens_of-IsMarked :
      (raw : String) (acc : Tokens) → IsMarked acc → IsMarked (secret_tokens_of json raw acc)
  unfolding secret_tokens_of
  tokens_of-IsMarked raw acc marked = elim (Bool-cases (raw == "")) [
    | inl empty ↦ rw empty marked
    | inr full ↦ rw full (text-IsMarked (decode_string raw) _ (append-IsMarked raw acc marked))
  ]

  value-keeps :
      (o : Option String) (t : String) (acc : Tokens)
      → contains t acc.tokens ≡ true
      → contains t (secret_value json o acc).tokens ≡ true
  value-keeps none t acc h = h
  value-keeps (some raw) t acc h = tokens_of-keeps raw t acc h

  value-IsMarked :
      (o : Option String) (acc : Tokens) → IsMarked acc → IsMarked (secret_value json o acc)
  value-IsMarked none acc marked = marked
  value-IsMarked (some raw) acc marked = tokens_of-IsMarked raw acc marked

  loop-keeps :
      (values : List (String × String)) (fields : List String) (t : String) (acc : Tokens)
      → contains t acc.tokens ≡ true
      → contains t (secret_loop json values fields acc).tokens ≡ true
  unfolding secret_loop
  loop-keeps values [] t acc h = h
  loop-keeps values (field ∷ fields) t acc h =
      loop-keeps values fields t _ (value-keeps (lookup field values) t acc h)

  -- What a value is written as: its JSON, and its text where it is a JSON string.
  abbrev pub Shows : String → String → Type 0
  Shows raw token = (raw ≡ token) ⊎ (decode_string raw ≡ ok token)

  tokens_of-contains :
      (raw t : String) (acc : Tokens)
      → IsMarked acc
      → raw ≢ ""
      → t ≢ ""
      → Shows raw t
      → contains t (secret_tokens_of json raw acc).tokens ≡ true
  unfolding secret_tokens_of
  tokens_of-contains raw t acc marked full_raw full (inl same) = rw (not-empty raw full_raw) (
      text-keeps (decode_string raw) t _ (
        subst (λ u. contains u (append_unique_token raw acc).tokens ≡ true) same
          (append-contains raw acc marked full_raw)))
  tokens_of-contains raw t acc marked full_raw full (inr reads) = rw (not-empty raw full_raw) (
      ap (λ r. contains t (with_text json r (append_unique_token raw acc)).tokens) reads
      ∙ append-contains t _ (append-IsMarked raw acc marked) full)

  loop-contains :
      (values : List (String × String)) (fields : List String) (field raw t : String) (acc : Tokens)
      → IsMarked acc
      → contains field fields ≡ true
      → lookup field values ≡ some raw
      → raw ≢ ""
      → t ≢ ""
      → Shows raw t
      → contains t (secret_loop json values fields acc).tokens ≡ true
  unfolding secret_loop
  loop-contains values [] field raw t acc marked member there full_raw full shows = ground arith
  loop-contains values (at ∷ fields) field raw t acc marked member there full_raw full shows =
      elim (Bool-cases (field == at)) [
        | inl same ↦
            let found = ap (λ f. lookup f values) (sym ((eq_iff field at).0 same)) ∙ there in
            loop-keeps values fields t _ (
              ap (λ o. contains t (secret_value json o acc).tokens) found
              ∙ tokens_of-contains raw t acc marked full_raw full shows)
        | inr other ↦
            loop-contains values fields field raw t _ (value-IsMarked (lookup at values) acc marked)
              (ground arith) there full_raw full shows
      ]

  tokens-contains :
      (source : String) (values : List (String × String)) (fields : List String)
      (field raw t : String)
      → parse_object source ≡ ok values
      → contains field fields ≡ true
      → lookup field values ≡ some raw
      → raw ≢ ""
      → t ≢ ""
      → Shows raw t
      → contains t (secret_json_value_tokens json source fields) ≡ true
  unfolding secret_json_value_tokens
  tokens-contains source values fields field raw t parses member there full_raw full shows =
      ap (λ r. contains t (tokens_from json fields r)) parses
      ∙ loop-contains values fields field raw t no_tokens no_tokens-IsMarked member there full_raw
          full shows

  -- Where the JSON `source` has a secret field, neither its JSON nor its text stands in what the error
  -- of redactSecretError shows of another error, if it shares no character with the placeholder.
  pub redact_secret_error-hides :
      (label source : String) (e : Error) (values : List (String × String)) (fields : List String)
      (field raw token : String)
      → parse_object source ≡ ok values
      → contains field fields ≡ true
      → lookup field values ≡ some raw
      → raw ≢ ""
      → token ≢ ""
      → Shows raw token
      → Avoids token redacted_placeholder
      → (shown : String) × (redact_secret_error json label e source fields
          ≡ plain (label +++ ": " +++ shown))
        × (occurs token shown ≡ false)
  unfolding redact_secret_error
  redact_secret_error-hides label source e values fields field raw String.[] parses member there
        full_raw full shows apart =
      absurd (full refl)
  redact_secret_error-hides label source e values fields field raw (String.◌∷◌ c t) parses member
        there full_raw full shows apart =
      (
        redacted (secret_json_value_tokens json source fields) (error_text e),
        refl,
        redacted-hides c t _ (error_text e) apart (
            tokens-contains source values fields field raw (String.◌∷◌ c t) parses member there
              full_raw full shows),
      )
