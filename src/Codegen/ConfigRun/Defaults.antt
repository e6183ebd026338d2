-- ===== src/Codegen/ConfigRun/Defaults.antt =====
-- What the printed function for the defaults does to an accepted message.
use procframe.Prelude.{
  ◌≡◌, refl, ap, ◌∙◌, String, true, List, [], ◌∷◌, arith, All, if-true, if-false, Bool-cases, inl,
  inr,
}
use procframe.Prelude.Distinct.{Distinct}
use procframe.Errors.{Result, ok, ◌>>=◌}
use procframe.Strconv.{Strconv}
use procframe.Codegen.Naming.{Letters}
use procframe.Codegen.ConfigModel.{ConfigFieldInfo}
use procframe.Codegen.Validate.Accepted.{IsAcceptable}
use procframe.Codegen.ConfigCode.{Value, needs_string_parser, emit_field_parser}
use procframe.Codegen.ConfigCode.Parsers.{Reads, emit_field_parser-agrees}
use procframe.Codegen.ConfigRun.{Held, path_of, set_field, named_error, apply_defaults}
use procframe.Codegen.ConfigRun.Layers.{default_source, defaults-layer}
use procframe.Codegen.ConfigRun.Settled.{names_of, Settled, layer-Settled}

module _ {Float32 Float64 Bytes : Type 0} (strconv : Strconv Float32 Float64) (letters : Letters)
    (decode : String → Result Bytes) (go_name : String)
    (parse : ConfigFieldInfo → String → Result (Value Float32 Float64 Bytes)) where
  -- `parse` is the parser that is printed for the field, where one is.
  abbrev pub IsPrinted : ConfigFieldInfo → Type 0
  IsPrinted field =
      needs_string_parser field ≡ true
      → emit_field_parser strconv letters decode field ≡ ok (parse field)

  default-Reads :
      (f : ConfigFieldInfo)
      → f.has_default ≡ true
      → IsAcceptable strconv letters decode f
      → IsPrinted f
      → Reads (parse f f.default_string)
  unfolding needs_string_parser
  default-Reads f on acceptable printed =
      (emit_field_parser-agrees strconv letters decode f f.default_string (parse f)
          (printed (ground arith))).0
        (acceptable.readable on)

  defaults-pass :
      (fields : List ConfigFieldInfo) (held : Held (Value Float32 Float64 Bytes))
      → All (IsAcceptable strconv letters decode) fields
      → All IsPrinted fields
      → Reads (apply_defaults go_name parse fields held)
  unfolding apply_defaults
  defaults-pass [] held acceptable printed = (held, refl)
  defaults-pass (f ∷ fs) held acceptable printed = elim (Bool-cases f.has_default) [
    | inl on ↦
        let (v, reads) = default-Reads f on acceptable.0 printed.0 in
        let (final, rest) =
          defaults-pass fs (set_field go_name parse f v held) acceptable.1 printed.1 in
        (
          final,
          if-true _ _ on
              ∙ ap
                  (λ r. named_error go_name parse (path_of go_name parse f) r >>= λ x.
                    apply_defaults go_name parse fs (set_field go_name parse f x held))
                  reads
              ∙ rest,
        )
    | inr off ↦
        let (final, rest) = defaults-pass fs held acceptable.1 printed.1 in
        (final, if-false _ _ off ∙ rest)
  ]

  -- For a message whose fields the generator has accepted, and whose Go names are distinct, the printed
  -- function for the defaults never fails where `parse` is the parser that is printed for each field, and
  -- it sets each field with a default to what the field's parser reads from it, with the mark of presence
  -- where the field is required, and leaves the others as they are.
  pub apply_defaults-Settled :
      (fields : List ConfigFieldInfo) (held : Held (Value Float32 Float64 Bytes))
      → All (IsAcceptable strconv letters decode) fields
      → All IsPrinted fields
      → Distinct (names_of fields)
      → (final : Held (Value Float32 Float64 Bytes)) × (apply_defaults go_name parse fields held
          ≡ ok final)
        × All (λ f. Settled go_name parse f (default_source f) held final) fields
  apply_defaults-Settled fields held acceptable printed d =
      let (final, applied) = defaults-pass fields held acceptable printed in
      (
        final,
        applied,
        layer-Settled go_name parse default_source fields held final d
            (defaults-layer go_name parse fields held final applied),
      )
