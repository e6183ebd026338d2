-- ===== src/Codegen/ConfigCode/Parsers.antt =====
-- The parsers that are printed and the check of the generator read the same texts.
use procframe.Prelude.{
  ◌≡◌, ◌↔◌, refl, sym, ap, ◌∙◌, ℕ, String, true, false, none, some, List, [], ◌∷◌, ◌==◌, arith, map,
  inl, inr, Bool-cases, if-true, if-false, ◌%◌, ◌^◌,
}
use procframe.Errors.{Error, Result, ok, err, ok-injective, err-not-ok}
use procframe.Strconv.{Strconv}
use procframe.Config.Parse.{
  parse_string, parse_bytes, parse_bool_value, parse_int32, parse_int64, parse_uint32, parse_uint64,
  parse_float32, parse_float64, parse_enum,
}
use procframe.Codegen.Naming.{Letters, EnumValueInfo, EnumMapping, enum_cli_values}
use procframe.Codegen.ConfigModel.{
  Kind, bool_kind, int32_kind, sint32_kind, sfixed32_kind, int64_kind, sint64_kind, sfixed64_kind,
  uint32_kind, fixed32_kind, uint64_kind, fixed64_kind, float_kind, double_kind, string_kind,
  bytes_kind, enum_kind, message_kind, group_kind, ConfigFieldInfo,
}
use procframe.Codegen.Validate.{
  failed, names_value, enum_fallback, enum_default, parse_config_value,
}
use procframe.Codegen.ConfigCode.{
  Value, of_enum, with_value, named_number, enum_parser, else_number, else_named, else_value,
  emit_parser, emit_enum_parser, scalar_config_parser, emit_field_parser,
}

-- A text that a parser reads.
abbrev pub Reads : {A : Type 0} → Result A → Type 0
Reads {A} r = (v : A) × (r ≡ ok v)

failed-Reads : {A : Type 0} (r : Result A) → (failed r ≡ none) ↔ Reads r
failed-Reads (ok a) = (λ h. (a, refl), λ h. refl)
failed-Reads (err e) = (λ h. absurd (ground arith), λ h. absurd (err-not-ok e h.1))

with_value-Reads : {A B : Type 0} (f : A → B) (r : Result A) → Reads r ↔ Reads (with_value f r)
with_value-Reads f (ok a) = (λ h. (f a, refl), λ h. (a, refl))
with_value-Reads f (err e) = (λ h. absurd (err-not-ok e h.1), λ h. absurd (err-not-ok e h.1))

scalar-agrees :
    {A B : Type 0} (f : A → B) (r : Result A) (out : Result B)
    → with_value f r ≡ out
    → (failed r ≡ none) ↔ Reads out
scalar-agrees f r out same =
    let through = with_value-Reads f r in
    (
      λ h. let (v, eq) = through.0 ((failed-Reads r).0 h) in (v, sym same ∙ eq),
      λ h. (failed-Reads r).1 (through.1 (h.0, same ∙ h.1)),
    )

named-Some :
    (raw : String) (vs : List EnumValueInfo)
    → names_value raw vs ≡ true
    → (n : ℕ) × (named_number raw vs ≡ some n)
unfolding names_value named_number
named-Some raw [] h = absurd (ground arith)
named-Some raw (v ∷ vs) h = elim (Bool-cases (raw == v.proto_name)) [
  | inl same ↦ (v.number, rw same refl)
  | inr other ↦ rw other (named-Some raw vs (ground arith))
]

named-None :
    (raw : String) (vs : List EnumValueInfo)
    → names_value raw vs ≡ false
    → named_number raw vs ≡ none
unfolding names_value named_number
named-None raw [] h = refl
named-None raw (v ∷ vs) h = ground (arith, named-None raw vs)

module _ {Float32 Float64 Bytes : Type 0} (strconv : Strconv Float32 Float64) (letters : Letters)
    (decode : String → Result Bytes) where
  open strconv use {parse_int}

  at :
      {p q : String → Result (Value Float32 Float64 Bytes)} (raw : String)
      → ◌≡◌ {A = Result (String → Result (Value Float32 Float64 Bytes))} (ok q) (ok p)
      → q raw ≡ p raw
  at raw h = ap (λ f. f raw) (ok-injective h)

  -- The end of the parser of an enum, behind ParseEnum.
  number-agrees :
      (e : Error) (r : Result ℕ)
      → ((elim r [ ok v ↦ none | err other ↦ some e ]) ≡ none)
        ↔ Reads (else_number strconv letters decode e r)
  number-agrees e (ok v) = (λ h. (v % 2 ^ 32, refl), λ h. refl)
  number-agrees e (err other) = (λ h. absurd (ground arith), λ h. absurd (err-not-ok e h.1))

  fallback-agrees :
      (field : ConfigFieldInfo) (raw : String) (r : Result ℕ)
      → (enum_fallback strconv letters decode field raw r ≡ none)
        ↔ Reads (else_value strconv letters decode field raw r)
  unfolding enum_fallback
  fallback-agrees field raw (ok v) = (λ h. (v, refl), λ h. refl)
  fallback-agrees field raw (err e) =
      let number = number-agrees e (parse_int raw 32) in
      let rest = named_number raw field.enum_values in
      elim (Bool-cases (names_value raw field.enum_values)) [
        | inl named ↦
            let (n, found) = named-Some raw field.enum_values named in
            (λ h. (n, ap (else_named strconv letters decode e raw) found), λ h. if-true _ _ named)
        | inr unnamed ↦
            let same =
              ap (else_named strconv letters decode e raw)
                (named-None raw field.enum_values unnamed) in
            (
              λ h. let (v, eq) = number.0 (sym (if-false _ _ unnamed) ∙ h) in (v, same ∙ eq),
              λ h. if-false _ _ unnamed ∙ number.1 (h.0, sym same ∙ h.1),
            )
      ]

  enum-agrees :
      (field : ConfigFieldInfo) (raw : String) (p : String → Result (Value Float32 Float64 Bytes))
      (r : Result (List EnumMapping))
      → emit_enum_parser strconv letters decode field r ≡ ok p
      → (enum_default strconv letters decode field raw r ≡ none) ↔ Reads (p raw)
  unfolding enum_default enum_parser
  enum-agrees field raw p (err e) h = absurd (err-not-ok _ h)
  enum-agrees field raw p (ok mappings) h =
      let parsed =
        parse_enum strconv letters.to_lower_text raw
          (map (λ m. some (record { name = m.cli_value; number = m.number })) mappings)
          field.enum_type_name in
      let fallback = fallback-agrees field raw parsed in
      let through = with_value-Reads of_enum (else_value strconv letters decode field raw parsed) in
      (
        λ e. let (v, eq) = through.0 (fallback.0 e) in (v, sym (at raw h) ∙ eq),
        λ e. fallback.1 (through.1 (e.0, at raw h ∙ e.1)),
      )

  kind-agrees :
      (field : ConfigFieldInfo) (raw : String) (p : String → Result (Value Float32 Float64 Bytes))
      (kind : Kind)
      → emit_parser strconv letters decode field kind ≡ ok p
      → (parse_config_value strconv letters decode field raw kind ≡ none) ↔ Reads (p raw)
  unfolding parse_config_value scalar_config_parser
  kind-agrees field raw p bool_kind h =
      scalar-agrees _ (parse_bool_value strconv raw) (p raw) (at raw h)
  kind-agrees field raw p int32_kind h =
      scalar-agrees _ (parse_int32 strconv raw) (p raw) (at raw h)
  kind-agrees field raw p sint32_kind h =
      scalar-agrees _ (parse_int32 strconv raw) (p raw) (at raw h)
  kind-agrees field raw p sfixed32_kind h =
      scalar-agrees _ (parse_int32 strconv raw) (p raw) (at raw h)
  kind-agrees field raw p int64_kind h =
      scalar-agrees _ (parse_int64 strconv raw) (p raw) (at raw h)
  kind-agrees field raw p sint64_kind h =
      scalar-agrees _ (parse_int64 strconv raw) (p raw) (at raw h)
  kind-agrees field raw p sfixed64_kind h =
      scalar-agrees _ (parse_int64 strconv raw) (p raw) (at raw h)
  kind-agrees field raw p uint32_kind h =
      scalar-agrees _ (parse_uint32 strconv raw) (p raw) (at raw h)
  kind-agrees field raw p fixed32_kind h =
      scalar-agrees _ (parse_uint32 strconv raw) (p raw) (at raw h)
  kind-agrees field raw p uint64_kind h =
      scalar-agrees _ (parse_uint64 strconv raw) (p raw) (at raw h)
  kind-agrees field raw p fixed64_kind h =
      scalar-agrees _ (parse_uint64 strconv raw) (p raw) (at raw h)
  kind-agrees field raw p float_kind h =
      scalar-agrees _ (parse_float32 strconv raw) (p raw) (at raw h)
  kind-agrees field raw p double_kind h =
      scalar-agrees _ (parse_float64 strconv raw) (p raw) (at raw h)
  kind-agrees field raw p string_kind h =
      scalar-agrees _ (parse_string strconv raw) (p raw) (at raw h)
  kind-agrees field raw p bytes_kind h =
      scalar-agrees _ (parse_bytes strconv decode raw) (p raw) (at raw h)
  kind-agrees field raw p enum_kind h =
      enum-agrees field raw p (enum_cli_values letters field.enum_type_name field.enum_values) h
  kind-agrees field raw p message_kind h = absurd (err-not-ok _ h)
  kind-agrees field raw p group_kind h = absurd (err-not-ok _ h)

  -- The parser that is printed for a field reads a text exactly if the generator accepts that text as the
  -- field's default.
  pub emit_field_parser-agrees :
      (field : ConfigFieldInfo) (raw : String)
      (parser : String → Result (Value Float32 Float64 Bytes))
      → emit_field_parser strconv letters decode field ≡ ok parser
      → (parse_config_value strconv letters decode field raw field.kind ≡ none) ↔ Reads (parser raw)
  unfolding emit_field_parser
  emit_field_parser-agrees field raw parser h = kind-agrees field raw parser field.kind h
