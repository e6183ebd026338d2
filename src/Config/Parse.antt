-- ===== src/Config/Parse.antt =====
-- config/parse.go: the parsers of configuration values. strconv, the decoder of base64 and
-- strings.ToLower are parameters.
use procframe.Prelude.{
  ℕ, String, Bool, Option, none, some, List, [], ◌∷◌, ◌++◌, ◌==◌, ◌%◌, ◌^◌, if◌then◌else◌,
}
use procframe.Prelude.Text.{◌+++◌, join}
use procframe.Errors.{plain, wrapping, error_text, Result, ok, err}
use procframe.Strconv.{Strconv}

-- `EnumMapping`.
pub record EnumMapping : Type 0 where
  pub name : String
  pub number : ℕ

-- `if err != nil { return ..., fmt.Errorf(what + ": %w", err) }; return T(v), nil`.
abbrev pub labelled : {A B : Type 0} → String → (A → B) → Result A → Result B
labelled what convert (err e) = err (wrapping (what +++ ": " +++ error_text e) e)
labelled what convert (ok v) = ok (convert v)

module _ {Float32 Float64 : Type 0} (strconv : Strconv Float32 Float64) where
  open strconv use {
    parse_int, parse_uint, parse_bool, parse_float, to_float32, max_float32, negated, exceeds,
    quote,
  }

  unfoldable pub parse_string : String → Result String
  parse_string raw = ok raw

  -- `decode` is base64.StdEncoding.DecodeString.
  unfoldable pub parse_bytes : {Bytes : Type 0} → (String → Result Bytes) → String → Result Bytes
  parse_bytes decode raw = labelled "parse bytes" (λ v. v) (decode raw)

  unfoldable pub parse_bool_value : String → Result Bool
  parse_bool_value raw = labelled "parse bool" (λ v. v) (parse_bool raw)

  unfoldable pub parse_int32 : String → Result ℕ
  parse_int32 raw = labelled "parse int32" (λ v. v % 2 ^ 32) (parse_int raw 32)

  unfoldable pub parse_int64 : String → Result ℕ
  parse_int64 raw = labelled "parse int64" (λ v. v) (parse_int raw 64)

  unfoldable pub parse_uint32 : String → Result ℕ
  parse_uint32 raw = labelled "parse uint32" (λ v. v % 2 ^ 32) (parse_uint raw 32)

  unfoldable pub parse_uint64 : String → Result ℕ
  parse_uint64 raw = labelled "parse uint64" (λ v. v) (parse_uint raw 64)

  within_float32 : String → Result Float64 → Result Float32
  within_float32 raw (err e) = err e
  within_float32 raw (ok v) =
      if exceeds v max_float32
      then err (plain ("parse float32: value " +++ quote raw +++ " overflows float32"))
      else if exceeds (negated max_float32) v
      then err (plain ("parse float32: value " +++ quote raw +++ " overflows float32"))
      else ok (to_float32 v)

  unfoldable pub parse_float32 : String → Result Float32
  unfolding within_float32
  parse_float32 raw = within_float32 raw (labelled "parse float32" (λ v. v) (parse_float raw 32))

  unfoldable pub parse_float64 : String → Result Float64
  parse_float64 raw = labelled "parse float64" (λ v. v) (parse_float raw 64)

  module _ (to_lower : String → String) where
    -- The loop of `ParseEnum`; a nil mapping is skipped.
    unfoldable pub parse_enum_loop :
        String → String → String → List String → List (Option EnumMapping) → Result ℕ
    parse_enum_loop raw lower type_name valid [] = err (
        plain (
          "invalid "
          +++ (if type_name == "" then "enum" else type_name)
          +++ " value "
          +++ quote raw
          +++ " (valid: "
          +++ join ", " valid
          +++ ")"))
    parse_enum_loop raw lower type_name valid (none ∷ ms) =
        parse_enum_loop raw lower type_name valid ms
    parse_enum_loop raw lower type_name valid (some m ∷ ms) =
        let rest = parse_enum_loop raw lower type_name (valid ++ m.name ∷ []) ms in
        if to_lower m.name == lower then ok m.number else rest

    unfoldable pub parse_enum : String → List (Option EnumMapping) → String → Result ℕ
    parse_enum raw mappings type_name = parse_enum_loop raw (to_lower raw) type_name [] mappings
