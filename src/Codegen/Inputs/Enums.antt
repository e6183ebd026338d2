-- ===== src/Codegen/Inputs/Enums.antt =====
-- Which enums the generator accepts.
use mathlib.Core.Path.{subst}
use procframe.Prelude.{
  ◌≡◌, ◌↔◌, refl, sym, ap, ◌∙◌, String, true, Option, none, some, List, [], ◌∷◌, ◌++◌, ◌==◌, arith,
  eq_iff, All, All-append, All-split, contains, if-true, if-false, Bool-cases, inl, inr,
}
use procframe.Errors.{Result, ok, err, ◌>>=◌, bind-eq-ok, ok-injective, err-not-ok}
use procframe.Codegen.Naming.{Letters, EnumMapping, enum_cli_values}
use procframe.Codegen.Descriptors.{ProtoEnum, ProtoField, ProtoMessage, ProtoFile}
use procframe.Codegen.Inputs.{
  generated_messages, enum_checked, check_enum, check_message_enums, check_messages,
  validate_enum_collisions,
}

-- The enums of the fields of messages.
abbrev pub enum_of : Option ProtoEnum → List ProtoEnum
enum_of none = []
enum_of (some e) = e ∷ []

abbrev pub field_enums : List ProtoField → List ProtoEnum
field_enums [] = []
field_enums (field ∷ fields) = enum_of field.enum ++ field_enums fields

abbrev pub message_enums : List ProtoMessage → List ProtoEnum
message_enums [] = []
message_enums (msg ∷ messages) = field_enums msg.fields ++ message_enums messages

-- The full name of an enum tells which one it is, as in a set of proto files.
abbrev pub IsNamed : (String → ProtoEnum) → ProtoEnum → Type 0
IsNamed enums e = enums e.full_name ≡ e

module _ (letters : Letters) where
  -- No two values of an enum are spelled alike.
  abbrev pub IsSpelled : ProtoEnum → Type 0
  IsSpelled e =
      (mappings : List EnumMapping) × (enum_cli_values letters e.name e.values ≡ ok mappings)

  module _ (enums : String → ProtoEnum) where
    abbrev IsKnown : List String → Type 0
    IsKnown checked = (n : String) → contains n checked ≡ true → IsSpelled (enums n)

    checked-ok :
        (r : Result (List EnumMapping)) (names : List String) {more : List String}
        → enum_checked letters r names ≡ ok more
        → ((mappings : List EnumMapping) × (r ≡ ok mappings)) × (names ≡ more)
    checked-ok (err e) names h = absurd (err-not-ok e h)
    checked-ok (ok ms) names h = ((ms, refl), ok-injective h)

    Known-cons :
        (e : ProtoEnum) (checked : List String)
        → IsNamed enums e
        → IsSpelled e
        → IsKnown checked
        → IsKnown (e.full_name ∷ checked)
    Known-cons e checked named spelled known n h = elim (Bool-cases (n == e.full_name)) [
      | inl same ↦
          subst IsSpelled (sym named ∙ ap enums (sym ((eq_iff n e.full_name).0 same))) spelled
      | inr other ↦ known n (ground arith)
    ]

    check_enum-ok :
        (o : Option ProtoEnum) (checked more : List String)
        → All (IsNamed enums) (enum_of o)
        → IsKnown checked
        → check_enum letters o checked ≡ ok more
        → All IsSpelled (enum_of o) × IsKnown more
    check_enum-ok none checked more named known h = (tt, subst IsKnown (ok-injective h) known)
    check_enum-ok (some e) checked more named known h =
        elim (Bool-cases (contains e.full_name checked)) [
          | inl again ↦ (
            (subst IsSpelled named.0 (known e.full_name again), tt),
            subst IsKnown (ok-injective (sym (if-true _ _ again) ∙ h)) known,
          )
          | inr new ↦
              let (spelled, names) =
                checked-ok (enum_cli_values letters e.name e.values) (e.full_name ∷ checked)
                  (sym (if-false _ _ new) ∙ h) in
              ((spelled, tt), subst IsKnown names (Known-cons e checked named.0 spelled known))
        ]

    fields-ok :
        (fields : List ProtoField) (checked more : List String)
        → All (IsNamed enums) (field_enums fields)
        → IsKnown checked
        → check_message_enums letters fields checked ≡ ok more
        → All IsSpelled (field_enums fields) × IsKnown more
    unfolding check_message_enums
    fields-ok [] checked more named known h = (tt, subst IsKnown (ok-injective h) known)
    fields-ok (field ∷ fields) checked more named known h =
        let (named_first, named_rest) = All-split _ (enum_of field.enum) _ named in
        let (next, one, rest) = bind-eq-ok (check_enum letters field.enum checked) _ h in
        let (spelled, known') = check_enum-ok field.enum checked next named_first known one in
        let (others, known'') = fields-ok fields next more named_rest known' rest in
        (All-append IsSpelled (enum_of field.enum) (field_enums fields) spelled others, known'')

    messages-ok :
        (messages : List ProtoMessage) (checked : List String)
        → All (IsNamed enums) (message_enums messages)
        → IsKnown checked
        → check_messages letters messages checked ≡ ok tt
        → All IsSpelled (message_enums messages)
    unfolding check_messages
    messages-ok [] checked named known h = tt
    messages-ok (msg ∷ messages) checked named known h =
        let (named_first, named_rest) = All-split _ (field_enums msg.fields) _ named in
        let (next, one, rest) = bind-eq-ok (check_message_enums letters msg.fields checked) _ h in
        let (spelled, known') = fields-ok msg.fields checked next named_first known one in
        All-append IsSpelled (field_enums msg.fields) (message_enums messages) spelled
          (messages-ok messages next named_rest known' rest)

  -- One field, from the enums that are spelled.
  check_enum-passes :
      (o : Option ProtoEnum) (checked : List String)
      → All IsSpelled (enum_of o)
      → (more : List String) × (check_enum letters o checked ≡ ok more)
  check_enum-passes none checked all = (checked, refl)
  check_enum-passes (some e) checked all = elim (Bool-cases (contains e.full_name checked)) [
    | inl again ↦ (checked, if-true _ _ again)
    | inr new ↦ (
      e.full_name ∷ checked,
      if-false _ _ new ∙ ap (λ r. enum_checked letters r (e.full_name ∷ checked)) all.0.1,
    )
  ]

  fields-pass :
      (fields : List ProtoField) (checked : List String)
      → All IsSpelled (field_enums fields)
      → (more : List String) × (check_message_enums letters fields checked ≡ ok more)
  unfolding check_message_enums
  fields-pass [] checked all = (checked, refl)
  fields-pass (field ∷ fields) checked all =
      let (first, others) = All-split IsSpelled (enum_of field.enum) (field_enums fields) all in
      let (next, one) = check_enum-passes field.enum checked first in
      let (more, rest) = fields-pass fields next others in
      (more, ap (λ r. r >>= λ names. check_message_enums letters fields names) one ∙ rest)

  messages-pass :
      (messages : List ProtoMessage) (checked : List String)
      → All IsSpelled (message_enums messages)
      → check_messages letters messages checked ≡ ok tt
  unfolding check_messages
  messages-pass [] checked all = refl
  messages-pass (msg ∷ messages) checked all =
      let (first, others) =
        All-split IsSpelled (field_enums msg.fields) (message_enums messages) all in
      let (next, one) = fields-pass msg.fields checked first in
      ap (λ r. r >>= λ names. check_messages letters messages names) one
      ∙ messages-pass messages next others

  -- Where the full name of an enum tells which one it is, the enums are accepted exactly if each one
  -- that a field of a generated file has spells its values apart.
  pub validate_enum_collisions-accepts :
      (enums : String → ProtoEnum) (files : List ProtoFile)
      → All (IsNamed enums) (message_enums (generated_messages files))
      → (validate_enum_collisions letters files ≡ ok tt)
        ↔ All IsSpelled (message_enums (generated_messages files))
  unfolding validate_enum_collisions
  validate_enum_collisions-accepts enums files named = (
    messages-ok enums (generated_messages files) [] named (λ n h. ground arith),
    messages-pass (generated_messages files) [],
  )
