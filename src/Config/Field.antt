-- ===== src/Config/Field.antt =====
-- config/env.go, required.go and redact.go: what generated code calls for a single field.
use procframe.Prelude.{ℕ, String, Bool, Option, none, some, List, [], ◌∷◌, ◌==◌, if◌then◌else◌}
use procframe.Prelude.Text.{◌+++◌}
use procframe.Errors.{Error, plain, wrapping, error_text}
use procframe.Config.Load.{EnvLookup}

abbrev pub redacted_placeholder : String
redacted_placeholder = "[REDACTED]"

-- `RedactIfSet`, for a comparable type with its `==` and its zero value.
unfoldable pub redact_if_set : {A : Type 0} → (A → A → Bool) → A → A → A → A
redact_if_set same zero_value value replacement =
    if same value zero_value then value else replacement

-- `RedactBytes`; `bytes_of` is the conversion of a text to its bytes.
unfoldable pub redact_bytes : (String → List ℕ) → List ℕ → List ℕ
redact_bytes bytes_of [] = []
redact_bytes bytes_of (b ∷ bs) = bytes_of redacted_placeholder

unfoldable pub validate_required : String → Bool → Option Error
validate_required field_name present =
    if present
    then none
    else if field_name == ""
    then some (plain "required field is not set")
    else some (plain (field_name +++ " is required"))

module _ {S : Type 0} where
  -- `if err := setter(raw); err != nil { return ... }`.
  abbrev pub env_applied : String → S × Option Error → S × Option Error
  env_applied name (s, none) = (s, none)
  env_applied name (s, some e) =
      (s, some (wrapping ("apply env " +++ name +++ ": " +++ error_text e) e))

  abbrev pub looked_up :
      String → (String → S → S × Option Error) → Option String → S → S × Option Error
  looked_up name setter none s = (s, none)
  looked_up name setter (some raw) s = env_applied name (setter raw s)

  abbrev pub set_from :
      String → Option EnvLookup → Option (String → S → S × Option Error) → S → S × Option Error
  set_from name none setter s = (s, some (plain "env lookup is nil"))
  set_from name (some env) none s = (s, some (plain "env setter is nil"))
  set_from name (some env) (some setter) s = looked_up name setter (env name) s

  -- `ApplyEnv`, where the setter changes a state and `none` is a nil function.
  unfoldable pub apply_env :
      Option EnvLookup → String → Option (String → S → S × Option Error) → S → S × Option Error
  apply_env env name setter s = if name == "" then (s, none) else set_from name env setter s
