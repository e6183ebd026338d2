-- ===== src/Cli/Flags/Enums/Generated.antt =====
-- The enum flag of a generated command: internal/codegen/naming.go spells the values, and
-- transport/cli/flag.go reads and prints them.
use mathlib.Core.Path.{subst}
use procframe.Prelude.{
  ℕ, ◌≡◌, ◌≢◌, refl, ap, ◌∙◌, String, none, some, List, [], ◌∷◌, ◌++◌, eqb, arith, eq_iff, eq_refl,
  All, lookup, Bool-cases, inl, inr, if-false,
}
use procframe.Prelude.Text.{◌+++◌}
use procframe.Prelude.Distinct.{Distinct, Distinct-fresh, lookup-append}
use procframe.Errors.{ok}
use procframe.Codegen.Naming.{
  Letters, EnumValueInfo, EnumMapping, camel_to_upper_snake, cli_value_of, enum_cli_values,
}
use procframe.Codegen.Naming.Collisions.{spellings, mappings_of, enum_cli_values-Distinct}
use procframe.Strconv.{Strconv}
use procframe.Cli.Flags.Enums.{
  find_value, find_number, or_empty, enum_string, enum_found, enum_number, enum_set,
}

-- The mappings as a map from the spelling to the number.
abbrev keyed : List EnumMapping → List (String × ℕ)
keyed [] = []
keyed (m ∷ ms) = (m.cli_value, m.number) ∷ keyed ms

keyed-append : (xs ys : List EnumMapping) → keyed (xs ++ ys) ≡ keyed xs ++ keyed ys
keyed-append [] ys = refl
keyed-append (m ∷ xs) ys = ap (λ r. (m.cli_value, m.number) ∷ r) (keyed-append xs ys)

lookup-middle :
    {V : Type 0} (k : String) (v : V) (xs ys : List (String × V))
    → Distinct (xs ++ (k, v) ∷ ys)
    → lookup k (xs ++ (k, v) ∷ ys) ≡ some v
unfolding lookup
lookup-middle k v xs ys d =
    lookup-append k xs ((k, v) ∷ ys) ∙ rw (Distinct-fresh k v xs ys d, eq_refl) refl

-- A number that a mapping has is printed as some spelling.
find_number-middle :
    (xs ys : List EnumMapping) (m : EnumMapping)
    → (s : String) × (find_number m.number (xs ++ m ∷ ys) ≡ some s)
unfolding find_number
find_number-middle [] ys m = (m.cli_value, ground arith)
find_number-middle (x ∷ xs) ys m = elim (Bool-cases (eqb x.number m.number)) [
  | inl same ↦ (x.cli_value, rw same refl)
  | inr other ↦ let (s, found) = find_number-middle xs ys m in (s, rw other found)
]

module _ (to_lower : String → String) where
  abbrev IsLower : EnumMapping → Type 0
  IsLower m = to_lower m.cli_value ≡ m.cli_value

  find_value-lookup :
      (k : String) (ms : List EnumMapping)
      → All IsLower ms
      → find_value to_lower k ms ≡ lookup k (keyed ms)
  unfolding find_value lookup
  find_value-lookup k [] lower = refl
  find_value-lookup k (m ∷ ms) lower = rw (lower.0, find_value-lookup k ms lower.1) refl

  -- What is printed for a number stands for that number.
  lookup-find_number :
      (n : ℕ) (s : String) (ms : List EnumMapping)
      → Distinct (keyed ms)
      → find_number n ms ≡ some s
      → lookup s (keyed ms) ≡ some n
  unfolding find_number lookup
  lookup-find_number n s [] d h = ground arith
  lookup-find_number n s (m ∷ ms) d h = elim (Bool-cases (eqb m.number n)) [
    | inl same ↦ ground (arith, eq_refl s)
    | inr other ↦ ground (arith, lookup-find_number n s ms d.1, eq_iff m.cli_value s)
  ]

  find_number-IsLower :
      (n : ℕ) (s : String) (ms : List EnumMapping)
      → All IsLower ms
      → find_number n ms ≡ some s
      → to_lower s ≡ s
  unfolding find_number
  find_number-IsLower n s [] lower h = ground arith
  find_number-IsLower n s (m ∷ ms) lower h = elim (Bool-cases (eqb m.number n)) [
    | inl same ↦ subst (λ t. to_lower t ≡ t) (ground arith) lower.0
    | inr other ↦ find_number-IsLower n s ms lower.1 (ground arith)
  ]

module _ (letters : Letters) (prefix : String) where
  lookup-mappings_of :
      (k : String) (vs : List EnumValueInfo)
      → lookup k (spellings letters prefix vs) ≡ none
      → lookup k (keyed (mappings_of letters prefix vs)) ≡ none
  unfolding lookup
  lookup-mappings_of k [] h = refl
  lookup-mappings_of k (v ∷ vs) h = elim (Bool-cases (eqb v.number 0)) [
    | inl zero_value ↦ rw zero_value (lookup-mappings_of k vs (rw zero_value at h))
    | inr other ↦ rw other (ground (arith, (rw other at h), lookup-mappings_of k vs))
  ]

  mappings_of-Distinct :
      (vs : List EnumValueInfo)
      → Distinct (spellings letters prefix vs)
      → Distinct (keyed (mappings_of letters prefix vs))
  mappings_of-Distinct [] d = tt
  mappings_of-Distinct (v ∷ vs) d = elim (Bool-cases (eqb v.number 0)) [
    | inl zero_value ↦ rw zero_value (mappings_of-Distinct vs (rw zero_value at d))
    | inr other ↦
        let d' = rw other at d in
        rw other (lookup-mappings_of _ vs d'.0, mappings_of-Distinct vs d'.1)
  ]

  mappings_of-IsLower :
      (vs : List EnumValueInfo)
      → ((s : String) → letters.to_lower_text (letters.to_lower_text s) ≡ letters.to_lower_text s)
      → All (IsLower letters.to_lower_text) (mappings_of letters prefix vs)
  unfolding cli_value_of
  mappings_of-IsLower [] again = tt
  mappings_of-IsLower (v ∷ vs) again = elim (Bool-cases (eqb v.number 0)) [
    | inl zero_value ↦ rw zero_value (mappings_of-IsLower vs again)
    | inr other ↦ rw other (again _, mappings_of-IsLower vs again)
  ]

  -- A value of another number than 0 has its mapping.
  mappings_of-middle :
      (before after : List EnumValueInfo) (v : EnumValueInfo)
      → v.number ≢ 0
      → mappings_of letters prefix (before ++ v ∷ after)
        ≡ mappings_of letters prefix before
          ++ record { cli_value = cli_value_of letters prefix v; number = v.number }
            ∷ mappings_of letters prefix after
  mappings_of-middle [] after v h =
      if-false {b = eqb v.number 0} (mappings_of letters prefix after) _ (ground arith)
  mappings_of-middle (w ∷ before) after v h = elim (Bool-cases (eqb w.number 0)) [
    | inl zero_value ↦ rw zero_value (mappings_of-middle before after v h)
    | inr other ↦ rw other (
        ap (λ ms. record { cli_value = cli_value_of letters prefix w; number = w.number } ∷ ms)
          (mappings_of-middle before after v h))
  ]

  abbrev Found : EnumValueInfo → List EnumMapping → Type 0
  Found v ms =
      (find_value letters.to_lower_text (cli_value_of letters prefix v) ms ≡ some v.number)
      × (s : String) × (find_number v.number ms ≡ some s)
      × (find_value letters.to_lower_text (letters.to_lower_text s) ms ≡ some v.number)

  mappings_of-Found :
      (before after : List EnumValueInfo) (v : EnumValueInfo)
      → ((s : String) → letters.to_lower_text (letters.to_lower_text s) ≡ letters.to_lower_text s)
      → Distinct (spellings letters prefix (before ++ v ∷ after))
      → v.number ≢ 0
      → Found v (mappings_of letters prefix (before ++ v ∷ after))
  mappings_of-Found before after v again d h =
      let all = before ++ v ∷ after in
      let ms = mappings_of letters prefix all in
      let m : EnumMapping = record {
        cli_value = cli_value_of letters prefix v;
        number = v.number;
      } in
      let xs = mappings_of letters prefix before in
      let ys = mappings_of letters prefix after in
      let split : ms ≡ xs ++ m ∷ ys = mappings_of-middle before after v h in
      let keys : keyed ms ≡ keyed xs ++ (m.cli_value, m.number) ∷ keyed ys =
        ap keyed split ∙ keyed-append xs (m ∷ ys) in
      let apart = mappings_of-Distinct all d in
      let lower = mappings_of-IsLower all again in
      let (s, printed) = find_number-middle xs ys m in
      let printed' = ap (find_number v.number) split ∙ printed in
      (
        find_value-lookup letters.to_lower_text _ ms lower
            ∙ ap (lookup m.cli_value) keys
            ∙ lookup-middle m.cli_value m.number (keyed xs) (keyed ys) (subst Distinct keys apart),
        s,
        printed',
        ap (λ t. find_value letters.to_lower_text t ms)
              (find_number-IsLower letters.to_lower_text v.number s ms lower printed')
            ∙ find_value-lookup letters.to_lower_text s ms lower
            ∙ lookup-find_number letters.to_lower_text v.number s ms apart printed',
      )

module _ {Float32 Float64 : Type 0} (strconv : Strconv Float32 Float64) (to_lower : String → String)
    (type_name : String) (mappings : List EnumMapping) where
  set-found :
      (s : String) (old n : ℕ)
      → find_value to_lower (to_lower s) mappings ≡ some n
      → enum_set strconv to_lower type_name mappings s old ≡ (none, n)
  unfolding enum_set enum_number enum_found
  set-found s old n h = rw h refl

printed-as :
    (mappings : List EnumMapping) (n : ℕ) {s : String}
    → n ≢ 0
    → find_number n mappings ≡ some s
    → enum_string mappings (some n) ≡ s
unfolding enum_string
printed-as mappings n h found =
    if-false {b = eqb n 0} "" (or_empty (find_number n mappings)) (ground arith) ∙ ap or_empty found

-- For an enum whose values the generator has accepted, each value with another number than 0 is set by
-- its spelling, in any case of its letters, and what is printed for its number sets that number again,
-- also where two values share it. Lower case is the same in lower case.
pub enum_set-generated :
    {Float32 Float64 : Type 0} (strconv : Strconv Float32 Float64) (letters : Letters)
    (type_name : String) (before after : List EnumValueInfo) (v : EnumValueInfo)
    (mappings : List EnumMapping) (s : String) (old : ℕ)
    → ((s : String) → letters.to_lower_text (letters.to_lower_text s) ≡ letters.to_lower_text s)
    → enum_cli_values letters type_name (before ++ v ∷ after) ≡ ok mappings
    → v.number ≢ 0
    → letters.to_lower_text s
      ≡ cli_value_of letters (camel_to_upper_snake letters type_name +++ "_") v
    → let set = enum_set strconv letters.to_lower_text type_name mappings in
      (set s old ≡ (none, v.number))
      × (set (enum_string mappings (some v.number)) old ≡ (none, v.number))
enum_set-generated strconv letters type_name before after v mappings s old again accepted h
      spelled =
    let (apart, same) = (enum_cli_values-Distinct letters type_name _ mappings).0 accepted in
    let (spelling, t, printed, sets) =
      subst (Found letters _ v) same (mappings_of-Found letters _ before after v again apart h) in
    let lower = letters.to_lower_text in
    (
      set-found strconv lower type_name mappings s old v.number
          (ap (λ k. find_value lower k mappings) spelled ∙ spelling),
      ap (λ k. enum_set strconv lower type_name mappings k old)
            (printed-as mappings v.number h printed)
          ∙ set-found strconv lower type_name mappings t old v.number sets,
    )
