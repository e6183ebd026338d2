-- ===== src/Config/Secrets.antt =====
-- config/file.go: the values of secret fields, and the errors that hide them.
pub mod Hidden
pub mod Marked
use procframe.Prelude.{
  String, Option, none, some, List, [], ◌∷◌, ◌++◌, ◌==◌, if◌then◌else◌, lookup, insert,
}
use procframe.Prelude.Text.{◌+++◌}
use procframe.Prelude.Replace.{replace_all}
use procframe.Errors.{Error, plain, error_text, Result, ok, err}
use procframe.Config.Field.{redacted_placeholder}
use procframe.Config.Json.{Json, canonical_json_field_name}

-- The slice and the set that `appendUniqueToken` changes.
pub record Tokens : Type 0 where
  pub tokens : List String
  pub seen : List (String × Unit {0})

abbrev pub no_tokens : Tokens
no_tokens = record { tokens = []; seen = [] }

unfoldable pub append_unique_token : String → Tokens → Tokens
append_unique_token token acc = if token == "" then acc else elim (lookup token acc.seen) [
  | some dup ↦ acc
  | none ↦ record { tokens = acc.tokens ++ token ∷ []; seen = insert token tt acc.seen }
]

-- The loop of `normalizeJSONFieldNames`; without fields it does nothing.
unfoldable pub normalize_loop : List String → List (String × String) → Tokens → Tokens
normalize_loop [] names acc = acc
normalize_loop (field ∷ fields) names acc =
    normalize_loop fields names (append_unique_token (canonical_json_field_name field names) acc)

unfoldable pub normalize_json_field_names : List String → List (String × String) → List String
normalize_json_field_names fields names = (normalize_loop fields names no_tokens).tokens

-- The loop of `redactSecretError`.
unfoldable pub redacted : List String → String → String
redacted [] text = text
redacted (token ∷ tokens) text = redacted tokens (replace_all token redacted_placeholder text)

module _ {Value : Type 0} (json : Json Value) where
  open json use {parse_object, decode_string}

  -- `if err := json.Unmarshal(raw, &decoded); err == nil { ... }`.
  abbrev pub with_text : Result String → Tokens → Tokens
  with_text (ok text) acc = append_unique_token text acc
  with_text (err e) acc = acc

  -- The value as it is written, and as a text where it is one.
  unfoldable pub secret_tokens_of : String → Tokens → Tokens
  secret_tokens_of raw acc =
      if raw == "" then acc else with_text (decode_string raw) (append_unique_token raw acc)

  abbrev pub secret_value : Option String → Tokens → Tokens
  secret_value none acc = acc
  secret_value (some raw) acc = secret_tokens_of raw acc

  unfoldable pub secret_loop : List (String × String) → List String → Tokens → Tokens
  secret_loop values [] acc = acc
  secret_loop values (field ∷ fields) acc =
      secret_loop values fields (secret_value (lookup field values) acc)

  abbrev pub tokens_from : List String → Result (List (String × String)) → List String
  tokens_from secret_fields (err e) = []
  tokens_from secret_fields (ok values) = (secret_loop values secret_fields no_tokens).tokens

  -- `secretJSONValueTokens`; without secret fields its loop does nothing.
  unfoldable pub secret_json_value_tokens : String → List String → List String
  secret_json_value_tokens source secret_fields = tokens_from secret_fields (parse_object source)

  unfoldable pub redact_secret_error : String → Error → String → List String → Error
  redact_secret_error label e source secret_fields =
      plain
        (label +++ ": " +++ redacted (secret_json_value_tokens source secret_fields) (error_text e))
