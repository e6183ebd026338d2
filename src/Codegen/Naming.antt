-- ===== src/Codegen/Naming.antt =====
-- internal/codegen/naming.go: how the values of an enum are spelled on the command line.
pub mod Collisions
use Prim.Native.Char.{Char, code}
use Prim.Native.String
use procframe.Prelude.{
  ℕ, String, Bool, true, false, ◌&&◌, Option, none, some, List, [], ◌∷◌, ◌++◌, if◌then◌else◌, eqb,
  lookup, insert,
}
use procframe.Prelude.Text.{◌+++◌, cut_prefix}
use procframe.Errors.{plain, Result, ok, err, ◌>>=◌}

-- What Go's packages `unicode` and `strings` say of letters.
pub record Letters : Type 0 where
  pub is_upper : Char → Bool
  pub is_lower : Char → Bool
  pub to_upper : Char → Char
  pub to_lower_text : String → String

-- `enumValueInfo`; the number is the bit pattern of the int32.
pub record EnumValueInfo : Type 0 where
  pub proto_name : String
  pub number : ℕ

-- `cli.EnumMapping`.
pub record EnumMapping : Type 0 where
  pub cli_value : String
  pub number : ℕ

-- strings.ReplaceAll(name, "_", "-").
unfoldable pub field_to_flag_name : String → String
field_to_flag_name String.[] = ""
field_to_flag_name (String.◌∷◌ c s) =
    String.◌∷◌ (if eqb (code c) b'_' then "-" else c) (field_to_flag_name s)

module _ (letters : Letters) where
  open letters use {is_upper, is_lower, to_upper, to_lower_text}

  -- `i+1 < len(runes) && unicode.IsLower(runes[i+1])`.
  starts_lower : String → Bool
  starts_lower String.[] = false
  starts_lower (String.◌∷◌ c s) = is_lower c

  -- What is written in front of `c` behind `prev`, before the rest `s`.
  separator : Option Char → Char → String → String
  unfolding starts_lower
  separator none c s = ""
  separator (some prev) c s =
      if is_upper c
      then (if is_lower prev then "_" else if is_upper prev && starts_lower s then "_" else "")
      else ""

  snake_from : Option Char → String → String
  unfolding separator
  snake_from prev String.[] = ""
  snake_from prev (String.◌∷◌ c s) =
      separator prev c s +++ String.◌∷◌ (to_upper c) (snake_from (some c) s)

  unfoldable pub camel_to_upper_snake : String → String
  unfolding snake_from
  camel_to_upper_snake s = snake_from none s

  strip : String → Option String → String
  strip name none = name
  strip name (some behind) = behind

  -- The value's name without its prefix, in lower case.
  unfoldable pub cli_value_of : String → EnumValueInfo → String
  unfolding strip
  cli_value_of prefix v = to_lower_text (strip v.proto_name (cut_prefix prefix v.proto_name))

  -- `if prev, dup := seen[cliVal]; dup { return ... }; seen[cliVal] = v.ProtoName`.
  mark : String → String → String → List (String × String) → Result (List (String × String))
  mark type_name value name seen = elim (lookup value seen) [
    | some prev ↦ err (
        plain (
          "enum " +++ type_name +++ ": stripped value \"" +++ value +++ "\" collides between "
          +++ prev +++ " and " +++ name))
    | none ↦ ok (insert value name seen)
  ]

  -- The loop of `enumCLIValues`.
  unfoldable pub values_loop :
      String
      → String
      → List (String × String)
      → List EnumMapping
      → List EnumValueInfo
      → Result (List EnumMapping)
  unfolding mark
  values_loop type_name prefix seen mappings [] = ok mappings
  values_loop type_name prefix seen mappings (v ∷ vs) =
      let value = cli_value_of prefix v in
      let skipped = values_loop type_name prefix seen mappings vs in
      let taken = mark type_name value v.proto_name seen >>= λ more.
      values_loop type_name prefix more
        (mappings ++ record { cli_value = value; number = v.number } ∷ []) vs in
      if eqb v.number 0 then skipped else taken

  unfoldable pub enum_cli_values : String → List EnumValueInfo → Result (List EnumMapping)
  enum_cli_values type_name values =
      values_loop type_name (camel_to_upper_snake type_name +++ "_") [] [] values
