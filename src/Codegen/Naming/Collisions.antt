-- ===== src/Codegen/Naming/Collisions.antt =====
-- When the spelling of an enum's values is accepted.
use mathlib.Core.Path.{subst}
use procframe.Prelude.{
  ◌≡◌, sym, ap, ◌∙◌, ◌↔◌, String, none, List, [], ◌∷◌, ◌++◌, arith, append_assoc, append-nil,
  lookup, eqb, if◌then◌else◌, Bool-cases, inl, inr,
}
use procframe.Prelude.Text.{◌+++◌}
use procframe.Prelude.Distinct.{Distinct, insert-new, Distinct-add, Distinct-fresh}
use procframe.Errors.{ok, bind-eq-ok, ok-injective}
use procframe.Codegen.Naming.{
  Letters, EnumValueInfo, EnumMapping, camel_to_upper_snake, cli_value_of, mark, values_loop,
  enum_cli_values,
}

module _ (letters : Letters) where
  -- The spellings of the values but for those of number 0, each with the value's own name.
  abbrev pub spellings : String → List EnumValueInfo → List (String × String)
  spellings prefix [] = []
  spellings prefix (v ∷ vs) =
      let rest = spellings prefix vs in
      if eqb v.number 0 then rest else (cli_value_of letters prefix v, v.proto_name) ∷ rest

  abbrev pub mappings_of : String → List EnumValueInfo → List EnumMapping
  mappings_of prefix [] = []
  mappings_of prefix (v ∷ vs) =
      let rest = mappings_of prefix vs in
      if eqb v.number 0
      then rest
      else record { cli_value = cli_value_of letters prefix v; number = v.number } ∷ rest

  mark-new :
      (type_name value name : String) (seen : List (String × String))
      → lookup value seen ≡ none
      → mark letters type_name value name seen ≡ ok (seen ++ (value, name) ∷ [])
  unfolding mark
  mark-new type_name value name seen h = ground (arith, insert-new value name seen h)

  mark-ok :
      (type_name value name : String) (seen more : List (String × String))
      → mark letters type_name value name seen ≡ ok more
      → (lookup value seen ≡ none) × (seen ++ (value, name) ∷ [] ≡ more)
  unfolding mark
  mark-ok type_name value name seen more h = ground (arith, insert-new value name seen)

  module _ (type_name prefix : String) where
    loop-Distinct :
        (seen : List (String × String)) (ms : List EnumMapping) (vs : List EnumValueInfo)
        → Distinct (seen ++ spellings prefix vs)
        → values_loop letters type_name prefix seen ms vs ≡ ok (ms ++ mappings_of prefix vs)
    unfolding values_loop
    loop-Distinct seen ms [] d = ap ok (sym (append-nil ms))
    loop-Distinct seen ms (v ∷ vs) d = elim (Bool-cases (eqb v.number 0)) [
      | inl zero_value ↦ rw zero_value (loop-Distinct seen ms vs (rw zero_value at d))
      | inr other ↦
          let value = cli_value_of letters prefix v in
          let d' : Distinct (seen ++ (value, v.proto_name) ∷ spellings prefix vs) = rw other at d in
          rw other (
            rw
              (mark-new type_name value v.proto_name seen
                (Distinct-fresh value v.proto_name seen (spellings prefix vs) d'))
              (loop-Distinct (seen ++ (value, v.proto_name) ∷ [])
                  (ms ++ record { cli_value = value; number = v.number } ∷ []) vs
                  (rw (append_assoc seen ((value, v.proto_name) ∷ []) (spellings prefix vs)) d')
                ∙ ap ok (append_assoc ms _ (mappings_of prefix vs))))
    ]

    loop-ok :
        (seen : List (String × String)) (ms : List EnumMapping) (vs : List EnumValueInfo)
        (result : List EnumMapping)
        → values_loop letters type_name prefix seen ms vs ≡ ok result
        → Distinct seen
        → Distinct (seen ++ spellings prefix vs)
    unfolding values_loop
    loop-ok seen ms [] result h d = rw append-nil d
    loop-ok seen ms (v ∷ vs) result h d = elim (Bool-cases (eqb v.number 0)) [
      | inl zero_value ↦ rw zero_value (loop-ok seen ms vs result (rw zero_value at h) d)
      | inr other ↦
          let value = cli_value_of letters prefix v in
          let (more, marked, looped) =
            bind-eq-ok (mark letters type_name value v.proto_name seen) _ (rw other at h) in
          let (fresh, same) = mark-ok type_name value v.proto_name seen more marked in
          let moved =
            ap (λ l. l ++ spellings prefix vs) (sym same)
            ∙ append_assoc seen ((value, v.proto_name) ∷ []) (spellings prefix vs) in
          rw other (
            subst Distinct moved (
              loop-ok more _ vs result looped
                (subst Distinct same (Distinct-add value v.proto_name seen d fresh))))
    ]

  -- The spelling of an enum's values succeeds with a result exactly if no two values, but for those of
  -- number 0, have the same spelling, and the result is the spelling and the number of each of these,
  -- in their order.
  pub enum_cli_values-Distinct :
      (type_name : String) (values : List EnumValueInfo) (result : List EnumMapping)
      → let prefix = camel_to_upper_snake letters type_name +++ "_" in
        (enum_cli_values letters type_name values ≡ ok result)
        ↔ (Distinct (spellings prefix values) × (mappings_of prefix values ≡ result))
  unfolding enum_cli_values
  enum_cli_values-Distinct type_name values result = (
    λ h.
        let d = loop-ok type_name _ [] [] values result h tt in
        (d, ok-injective (sym (loop-Distinct type_name _ [] [] values d) ∙ h)),
    λ d. loop-Distinct type_name _ [] [] values d.0 ∙ ap ok d.1,
  )
