-- ===== src/Cli/Flags/Enums.antt =====
-- transport/cli/flag.go: `EnumValue` and `EnumSliceValue`.
pub mod Generated
use procframe.Prelude.{
  ℕ, ◌≡◌, String, Bool, Option, none, some, List, [], ◌∷◌, ◌++◌, ◌==◌, map, if◌then◌else◌, eqb,
}
use procframe.Prelude.Text.{◌+++◌, join}
use procframe.Errors.{Error, plain, Result, ok, err}
use procframe.Codegen.Naming.{EnumMapping}
use procframe.Strconv.{Strconv}
use procframe.Cli.Flags.{stored, appended, slice_string, sign_extend}

-- `to_lower` is strings.ToLower.
module _ (to_lower : String → String) where
  -- The first loop of `Set`.
  unfoldable pub find_value : String → List EnumMapping → Option ℕ
  find_value lower [] = none
  find_value lower (m ∷ ms) =
      let rest = find_value lower ms in
      if to_lower m.cli_value == lower then some m.number else rest

-- The loop of `String`, behind the test for 0.
unfoldable pub find_number : ℕ → List EnumMapping → Option String
find_number n [] = none
find_number n (m ∷ ms) =
    let rest = find_number n ms in if eqb m.number n then some m.cli_value else rest

abbrev pub or_empty : Option String → String
or_empty none = ""
or_empty (some s) = s

-- `EnumValue`'s `String`.
unfoldable pub enum_string : List EnumMapping → Option ℕ → String
enum_string mappings none = ""
enum_string mappings (some n) = if eqb n 0 then "" else or_empty (find_number n mappings)

module _ {Float32 Float64 : Type 0} (strconv : Strconv Float32 Float64) (to_lower : String → String)
    (type_name : String) (mappings : List EnumMapping) where
  open strconv use {format_int, quote}

  -- `Set` of both, up to what is stored.
  enum_found : String → Option ℕ → Result ℕ
  enum_found s (some n) = ok n
  enum_found s none = err (
      plain (
        "invalid "
        +++ type_name
        +++ " value "
        +++ quote s
        +++ " (valid: "
        +++ join ", " (map (λ m. m.cli_value) mappings)
        +++ ")"))

  unfoldable pub enum_number : String → Result ℕ
  unfolding enum_found
  enum_number s = enum_found s (find_value to_lower (to_lower s) mappings)

  unfoldable pub enum_set : String → ℕ → Option Error × ℕ
  enum_set s old = stored (λ n. n) (enum_number s) old

  unfoldable pub enum_slice_set : String → List ℕ → Option Error × List ℕ
  enum_slice_set s old = appended (λ n. n) (enum_number s) old

  -- One part of `EnumSliceValue`'s `String`.
  abbrev pub enum_part : ℕ → String
  enum_part n = elim (find_number n mappings) [
    | none ↦ format_int (sign_extend n)
    | some value ↦ value
  ]

  unfoldable pub enum_slice_string : Option (List ℕ) → String
  enum_slice_string v = slice_string enum_part v
