-- ===== src/Strconv.antt =====
-- Go's package strconv and floating-point types, which are not part of the repository.
use procframe.Prelude.{ℕ, String, Bool}
use procframe.Errors.{Result}

-- `strconv`, where ParseInt and FormatInt take and give the 64 bits of an int64, and what Go does with
-- its floating-point types.
pub record Strconv (Float32 Float64 : Type 0) : Type 0 where
  pub parse_int : String → ℕ → Result ℕ
  pub parse_uint : String → ℕ → Result ℕ
  pub parse_bool : String → Result Bool
  pub parse_float : String → ℕ → Result Float64
  pub format_int : ℕ → String
  pub format_uint : ℕ → String
  pub format_bool : Bool → String
  pub format_float : Float64 → ℕ → String
  pub quote : String → String
  pub to_float32 : Float64 → Float32
  pub to_float64 : Float32 → Float64
  pub max_float32 : Float64
  pub negated : Float64 → Float64
  pub exceeds : Float64 → Float64 → Bool
