-- ===== src/Cli/Flags.antt =====
-- transport/cli/flag.go: the flag values. What a value points to is an argument of `Set`, which returns
-- it as it leaves it; `String` has `none` for a nil value and a nil pointer. Integers are bit patterns,
-- of 32 or of 64 bits. The package strconv and the floating-point types are parameters.
pub mod Enums
pub mod RoundTrip
use procframe.Prelude.{
  ℕ, ◌+◌, ◌-◌, ◌%◌, ◌^◌, String, Bool, Option, none, some, List, [], ◌∷◌, ◌++◌, ◌||◌, map,
  if◌then◌else◌, ltb,
}
use procframe.Prelude.Text.{◌+++◌, join}
use procframe.Strconv.{Strconv}
use procframe.Errors.{Error, plain, Result, ok, err}

-- `int32(n)` and `uint32(n)` of 64 bits, and `int64(n)` of the 32 bits of an int32.
abbrev pub low_bits : ℕ → ℕ
low_bits n = n % 2 ^ 32

abbrev pub sign_extend : ℕ → ℕ
sign_extend n = if ltb n (2 ^ 31) then n else n + (2 ^ 64 - 2 ^ 32)

module _ {A B : Type 0} where
  -- `if err != nil { return err }; *v.ptr = T(n); return nil`.
  abbrev pub stored : (A → B) → Result A → B → Option Error × B
  stored convert (err e) old = (some e, old)
  stored convert (ok n) old = (none, convert n)

  -- The same with `*v.ptr = append(*v.ptr, T(n))`.
  abbrev pub appended : (A → B) → Result A → List B → Option Error × List B
  appended convert (err e) old = (some e, old)
  appended convert (ok n) old = (none, old ++ convert n ∷ [])

module _ {A : Type 0} where
  abbrev pub scalar_string : (A → String) → Option A → String
  scalar_string format none = "0"
  scalar_string format (some n) = format n

  abbrev pub slice_string : (A → String) → Option (List A) → String
  slice_string format none = "[]"
  slice_string format (some []) = "[]"
  slice_string format (some (n ∷ ns)) = "[" +++ join "," (map format (n ∷ ns)) +++ "]"

unfoldable pub string_slice_set : String → List String → Option Error × List String
string_slice_set s old = (none, old ++ s ∷ [])

unfoldable pub string_slice_string : Option (List String) → String
string_slice_string v = slice_string (λ s. s) v

module _ {Float32 Float64 : Type 0} (strconv : Strconv Float32 Float64) where
  open strconv use {
    parse_int, parse_uint, parse_bool, parse_float, format_int, format_uint, format_bool,
    format_float, to_float32, to_float64, max_float32, negated, exceeds,
  }

  unfoldable pub int32_set : String → ℕ → Option Error × ℕ
  int32_set s old = stored low_bits (parse_int s 32) old

  unfoldable pub int32_string : Option ℕ → String
  int32_string v = scalar_string (λ n. format_int (sign_extend n)) v

  unfoldable pub int64_set : String → ℕ → Option Error × ℕ
  int64_set s old = stored (λ n. n) (parse_int s 64) old

  unfoldable pub int64_string : Option ℕ → String
  int64_string v = scalar_string format_int v

  unfoldable pub uint32_set : String → ℕ → Option Error × ℕ
  uint32_set s old = stored low_bits (parse_uint s 32) old

  unfoldable pub uint32_string : Option ℕ → String
  uint32_string v = scalar_string format_uint v

  unfoldable pub uint64_set : String → ℕ → Option Error × ℕ
  uint64_set s old = stored (λ n. n) (parse_uint s 64) old

  unfoldable pub uint64_string : Option ℕ → String
  uint64_string v = scalar_string format_uint v

  -- `n > math.MaxFloat32 || n < -math.MaxFloat32`.
  abbrev pub overflows : Float64 → Bool
  overflows n = exceeds n max_float32 || exceeds (negated max_float32) n

  abbrev pub fits_float32 : String → Result Float64 → Result Float64
  fits_float32 s (err e) = err e
  fits_float32 s (ok n) =
      if overflows n then err (plain ("value " +++ s +++ " overflows float32")) else ok n

  unfoldable pub float32_set : String → Float32 → Option Error × Float32
  float32_set s old = stored to_float32 (fits_float32 s (parse_float s 32)) old

  unfoldable pub float32_string : Option Float32 → String
  float32_string v = scalar_string (λ n. format_float (to_float64 n) 32) v

  unfoldable pub bool_slice_set : String → List Bool → Option Error × List Bool
  bool_slice_set s old = appended (λ b. b) (parse_bool s) old

  unfoldable pub bool_slice_string : Option (List Bool) → String
  bool_slice_string v = slice_string format_bool v

  unfoldable pub int32_slice_set : String → List ℕ → Option Error × List ℕ
  int32_slice_set s old = appended low_bits (parse_int s 32) old

  unfoldable pub int32_slice_string : Option (List ℕ) → String
  int32_slice_string v = slice_string (λ n. format_int (sign_extend n)) v

  unfoldable pub int64_slice_set : String → List ℕ → Option Error × List ℕ
  int64_slice_set s old = appended (λ n. n) (parse_int s 64) old

  unfoldable pub int64_slice_string : Option (List ℕ) → String
  int64_slice_string v = slice_string format_int v

  unfoldable pub uint32_slice_set : String → List ℕ → Option Error × List ℕ
  uint32_slice_set s old = appended low_bits (parse_uint s 32) old

  unfoldable pub uint32_slice_string : Option (List ℕ) → String
  uint32_slice_string v = slice_string format_uint v

  unfoldable pub uint64_slice_set : String → List ℕ → Option Error × List ℕ
  uint64_slice_set s old = appended (λ n. n) (parse_uint s 64) old

  unfoldable pub uint64_slice_string : Option (List ℕ) → String
  uint64_slice_string v = slice_string format_uint v

  unfoldable pub float32_slice_set : String → List Float32 → Option Error × List Float32
  float32_slice_set s old = appended to_float32 (fits_float32 s (parse_float s 32)) old

  unfoldable pub float32_slice_string : Option (List Float32) → String
  float32_slice_string v = slice_string (λ n. format_float (to_float64 n) 32) v

  unfoldable pub float64_slice_set : String → List Float64 → Option Error × List Float64
  float64_slice_set s old = appended (λ n. n) (parse_float s 64) old

  unfoldable pub float64_slice_string : Option (List Float64) → String
  float64_slice_string v = slice_string (λ n. format_float n 64) v
