-- ===== src/Examples/Flags.antt =====
-- The flag values with a small strconv.
use Prim.Native.Char.{Char}
use procframe.Prelude.{
  Bool, ◌≤◌, ◌∙◌, ◌+◌, ◌-◌, leb, ltb, ◌&&◌, ◌||◌, inl, inr, if-true, if◌then◌else◌, ℕ, zero, suc,
  ◌≡◌, ◌≢◌, refl, ap, String, true, false, Option, none, some, List, [], ◌∷◌, ◌^◌, ◌<◌, map, arith,
  All, lookup,
}
use procframe.Prelude.Text.{◌+++◌}
use procframe.Prelude.Distinct.{Distinct}
use procframe.Errors.{Result, ok, err, plain}
use procframe.Codegen.Naming.{EnumValueInfo, camel_to_upper_snake, cli_value_of, enum_cli_values}
use procframe.Codegen.Naming.Collisions.{spellings, enum_cli_values-Distinct}
use procframe.Strconv.{Strconv}
use procframe.Cli.Flags.{
  int32_slice_set, int64_slice_set, uint32_slice_set, uint64_slice_set, int32_string, int64_string,
  uint32_string, uint64_string,
}
use procframe.Cli.Flags.Enums.{enum_set, enum_string}
use procframe.Cli.Flags.Enums.Generated.{enum_set-generated}
use procframe.Cli.Flags.RoundTrip.{IsSigned, ReadsBack, set_each, integer_slices-restored}
use procframe.Examples.Names.{capitals, some_values, some_mappings, some_values-spelled}

abbrev stroke : Char
stroke = "|"

-- Numbers as strokes.
abbrev strokes : ℕ → String
strokes zero = ""
strokes (suc n) = String.◌∷◌ stroke (strokes n)

abbrev count : String → ℕ
count String.[] = 0
count (String.◌∷◌ c s) = suc (count s)

count-strokes : (n : ℕ) → count (strokes n) ≡ n
count-strokes zero = refl
count-strokes (suc n) = ap suc (count-strokes n)

-- A result in the range of its size, which is 64 at most.
abbrev sized : Bool → ℕ → Result ℕ
sized fits n = if fits then ok n else err (plain "value out of range")

abbrev unsigned_fits : ℕ → ℕ → Bool
unsigned_fits n bits = leb bits 64 && ltb n (2 ^ bits)

abbrev signed_fits : ℕ → ℕ → Bool
signed_fits n bits =
    leb bits 64 && (ltb n (2 ^ (bits - 1)) || (leb (2 ^ 64) (n + 2 ^ (bits - 1)) && ltb n (2 ^ 64)))

signed-fits : (n bits : ℕ) → bits ≤ 64 → IsSigned n bits → signed_fits n bits ≡ true
signed-fits n bits small (inl h) = ground arith
signed-fits n bits small (inr (h, top)) = ground arith

unsigned-fits : (n bits : ℕ) → bits ≤ 64 → n < 2 ^ bits → unsigned_fits n bits ≡ true
unsigned-fits n bits small h = ground arith

abbrev pub some_strconv : Strconv (Unit {0}) (Unit {0})
some_strconv = record {
  parse_int = λ s bits. sized (signed_fits (count s) bits) (count s);
  parse_uint = λ s bits. sized (unsigned_fits (count s) bits) (count s);
  parse_bool = λ s. ok true;
  parse_float = λ s bits. ok tt;
  format_int = strokes;
  format_uint = strokes;
  format_bool = λ b. "true";
  format_float = λ f bits. "0";
  quote = λ s. s;
  to_float32 = λ f. f;
  to_float64 = λ f. f;
  max_float32 = tt;
  negated = λ f. f;
  exceeds = λ f g. false;
}

some_strconv-ReadsBack : ReadsBack some_strconv
some_strconv-ReadsBack = record {
  signed = λ n bits some_bits small h.
      ap (λ m. sized (signed_fits m bits) m) (count-strokes n)
      ∙ if-true _ _ (signed-fits n bits small h);
  unsigned = λ n bits some_bits small h.
      ap (λ m. sized (unsigned_fits m bits) m) (count-strokes n)
      ∙ if-true _ _ (unsigned-fits n bits small h);
}

abbrev few : List ℕ
few = 3 ∷ 2 ^ 31 ∷ []

few-small : All (λ n. n < 2 ^ 32) few
few-small = (omega arith, (omega arith, tt))

few-wide : All (λ n. n < 2 ^ 64) few
few-wide = (omega arith, (omega arith, tt))

integer_slices-restored_example :
    let text = λ (string : Option ℕ → String) (n : ℕ). string (some n) in
    (set_each
        (int32_slice_set some_strconv)
        (map (text (int32_string some_strconv)) few)
        (none, 7 ∷ [])
      ≡ (none, 7 ∷ few))
    × (set_each
          (uint32_slice_set some_strconv)
          (map (text (uint32_string some_strconv)) few)
          (none, 7 ∷ [])
        ≡ (none, 7 ∷ few))
    × (set_each
          (int64_slice_set some_strconv)
          (map (text (int64_string some_strconv)) few)
          (none, 7 ∷ [])
        ≡ (none, 7 ∷ few))
    × (set_each
          (uint64_slice_set some_strconv)
          (map (text (uint64_string some_strconv)) few)
          (none, 7 ∷ [])
        ≡ (none, 7 ∷ few))
integer_slices-restored_example =
    integer_slices-restored some_strconv some_strconv-ReadsBack few few (7 ∷ []) few-small few-wide

abbrev low : EnumValueInfo
low = record { proto_name = "LV_LOW"; number = 1 }

abbrev lv : String
lv = camel_to_upper_snake capitals "LV" +++ "_"

spelled-Distinct : Distinct (spellings capitals lv some_values)
unfolding camel_to_upper_snake cli_value_of lookup
spelled-Distinct = (refl, (refl, tt))

accepted : enum_cli_values capitals "LV" some_values ≡ ok some_mappings
accepted =
    (enum_cli_values-Distinct capitals "LV" some_values some_mappings).1
      (spelled-Distinct, some_values-spelled)

low-spelled : "LOW" ≡ cli_value_of capitals lv low
unfolding camel_to_upper_snake cli_value_of
low-spelled = refl

one-not-zero : low.number ≢ 0
one-not-zero h = omega (arith, h)

enum_set-generated_example :
    (enum_set some_strconv (λ s. s) "LV" some_mappings "LOW" 0 ≡ (none, 1))
    × (enum_set some_strconv (λ s. s) "LV" some_mappings (enum_string some_mappings (some 1)) 0
        ≡ (none, 1))
enum_set-generated_example =
    enum_set-generated some_strconv capitals "LV"
      (record { proto_name = "LV_UNSPECIFIED"; number = 0 } ∷ [])
      (record { proto_name = "HIGH"; number = 2 } ∷ []) low some_mappings "LOW" 0 (λ s. refl)
      accepted one-not-zero low-spelled
