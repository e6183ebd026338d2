-- ===== src/Config/File.antt =====
-- config/file.go: a configuration file laid over the fields of a message, and the errors of it, which
-- hide the values of secret fields. JSON, protojson and the file system are parameters.
pub mod Overlay
pub mod Merge
pub mod Laid
use procframe.Prelude.{
  String, Option, none, some, List, [], ◌∷◌, ◌++◌, ◌==◌, if◌then◌else◌, lookup, insert,
}
use procframe.Prelude.Text.{◌+++◌}
use procframe.Errors.{Error, plain, wrapping, error_text, Result, ok, err, ◌>>=◌}
use procframe.Config.Json.{
  Json, Messages, Parsers, canonical_json_field_name, config_json_field_names,
}
use procframe.Config.Secrets.{redact_secret_error, normalize_json_field_names}

-- What the maps of `parseJSONOverlay` hold.
pub record FieldMaps : Type 0 where
  pub overlay : List (String × String)
  pub present : List (String × Unit {0})
  pub seen_fields : List (String × String)

abbrev pub no_overlay : FieldMaps
no_overlay = record { overlay = []; present = []; seen_fields = [] }

unfoldable pub duplicate_field : (String → String) → String → String → String → Error
duplicate_field quote canonical prev field = plain (
    "duplicate config field "
    +++ quote canonical
    +++ " via "
    +++ quote prev
    +++ " and "
    +++ quote field)

same_parser_field : (String → String) → String → String → String → Error
same_parser_field quote canonical prev field = plain (
    "parser keys "
    +++ quote prev
    +++ " and "
    +++ quote field
    +++ " normalize to the same field "
    +++ quote canonical)

-- `fmt.Errorf("<what>: %w", err)`.
abbrev pub wrapped : {A : Type 0} → String → Result A → Result A
wrapped what (ok a) = ok a
wrapped what (err e) = err (wrapping (what +++ ": " +++ error_text e) e)

-- `if err != nil { return nil, hide(err) }`.
abbrev pub hidden : {A : Type 0} → (Error → Error) → Result A → Result A
hidden hide (ok a) = ok a
hidden hide (err e) = err (hide e)

-- `if prev, dup := seen[canonical]; dup { return ... }`, in front of the rest of a loop.
abbrev pub unless_seen : {A : Type 0} → Option String → (String → Error) → Result A → Result A
unless_seen (some prev) clash rest = err (clash prev)
unless_seen none clash rest = rest

module _ {Value : Type 0} (json : Json Value) (quote : String → String) where
  open json use {
    parse_object, parse_values, decode, marshal_values, marshal_object, trim_space, null,
  }

  -- One turn of the loop of `parseJSONOverlay`, behind the look into `seenFields`.
  unfoldable pub add_field : String → String → String → FieldMaps → FieldMaps
  add_field canonical field value o = record {
    overlay = insert canonical value o.overlay;
    present = if trim_space value == "null" then o.present else insert canonical tt o.present;
    seen_fields = insert canonical field o.seen_fields;
  }

  unfoldable pub overlay_loop :
      List (String × String) → List (String × String) → FieldMaps → Result FieldMaps
  unfolding add_field duplicate_field
  overlay_loop names [] o = ok o
  overlay_loop names ((field, value) ∷ raw) o =
      let canonical = canonical_json_field_name field names in
      unless_seen (lookup canonical o.seen_fields)
        (λ prev. duplicate_field quote canonical prev field)
        (overlay_loop names raw (add_field canonical field value o))

  unfoldable pub parse_json_overlay :
      String → List (String × String) → Result (List (String × String) × List (String × Unit {0}))
  parse_json_overlay source names = parse_object source >>= λ raw.
      overlay_loop names raw no_overlay >>= λ o. ok (o.overlay, o.present)

  -- `parsers[field]; parser != nil`.
  parsed : Option (Option (String → Result Value)) → String → Result Value
  parsed none value = decode value
  parsed (some none) value = decode value
  parsed (some (some parser)) value = parser value

  unfoldable pub decode_json_overlay_value : String → String → Parsers Value → Result Value
  unfolding parsed
  decode_json_overlay_value field value parsers =
      if trim_space value == "null" then ok null else parsed (lookup field parsers) value

  parsers_loop :
      List (String × String)
      → Parsers Value
      → Parsers Value
      → List (String × String)
      → Result (Parsers Value)
  unfolding same_parser_field
  parsers_loop names [] normalized origins = ok normalized
  parsers_loop names ((field, parser) ∷ parsers) normalized origins =
      let canonical = canonical_json_field_name field names in
      unless_seen (lookup canonical origins) (λ prev. same_parser_field quote canonical prev field)
        (parsers_loop names parsers (insert canonical parser normalized)
          (insert canonical field origins))

  -- `normalizeJSONFieldParsers`; without parsers its loop does nothing.
  unfoldable pub normalize_json_field_parsers :
      Parsers Value → List (String × String) → Result (Parsers Value)
  unfolding parsers_loop
  normalize_json_field_parsers parsers names = parsers_loop names parsers [] []

  -- `redactionData`.
  abbrev pub redaction_data : String → Result String → String
  redaction_data source (ok canonical) = canonical
  redaction_data source (err e) = source

  abbrev pub field_error : String → List (String × String) → List String → String → Error → Error
  field_error source whole secrets field e =
      redact_secret_error json ("parse config JSON field " +++ quote field) e
        (redaction_data source (marshal_object whole)) secrets

  -- The loop of `mergeJSONFile` over the overlay.
  unfoldable pub merge_loop :
      String
      → List (String × String)
      → Parsers Value
      → List String
      → List (String × Value)
      → List (String × String)
      → Result (List (String × Value))
  merge_loop source whole parsers secrets base [] = ok base
  merge_loop source whole parsers secrets base ((field, raw) ∷ fields) =
      hidden (field_error source whole secrets field) (decode_json_overlay_value field raw parsers)
      >>= λ value. merge_loop source whole parsers secrets (insert field value base) fields

  module _ {Message : Type 0} (messages : Messages Message)
      (read_file : String → Result String) where
    open messages use {marshal, unmarshal, fields}

    unfoldable pub current_json_map : Message → Result (List (String × Value))
    current_json_map message = wrapped "marshal current config" (marshal message) >>= λ raw.
        wrapped "parse current config JSON" (parse_values raw)

    -- `mergeJSONFile` up to the merged JSON, which is given with the fields that are present; from its end
    -- backwards.
    module _ (path : String) (message : Message) (parsers : Parsers Value)
        (secret_fields : List String) where
      abbrev pub names_of : List (String × String)
      names_of = config_json_field_names (fields message)

      abbrev pub secrets_of : List String
      secrets_of = normalize_json_field_names secret_fields names_of

      abbrev pub from_merged :
          List (String × Unit {0})
          → List (String × Value)
          → Result (String × List (String × Unit {0}))
      from_merged present merged =
          wrapped "marshal merged config JSON" (marshal_values merged) >>= λ json_text.
          ok (json_text, present)

      abbrev pub from_parsers :
          String
          → List (String × Value)
          → List (String × String) × List (String × Unit {0})
          → Parsers Value
          → Result (String × List (String × Unit {0}))
      from_parsers source base o normalized =
          merge_loop source o.0 normalized secrets_of base o.0 >>= from_merged o.1

      abbrev pub from_overlay :
          String
          → List (String × Value)
          → List (String × String) × List (String × Unit {0})
          → Result (String × List (String × Unit {0}))
      from_overlay source base o =
          wrapped "normalize config field parsers" (normalize_json_field_parsers parsers names_of)
          >>= from_parsers source base o

      abbrev pub from_base :
          String → List (String × Value) → Result (String × List (String × Unit {0}))
      from_base source base =
          wrapped ("parse config file " +++ quote path) (parse_json_overlay source names_of)
          >>= from_overlay source base

      abbrev pub from_source : String → Result (String × List (String × Unit {0}))
      from_source source = current_json_map message >>= from_base source

      unfoldable pub merged_json : Result (String × List (String × Unit {0}))
      merged_json = wrapped ("read config file " +++ quote path) (read_file path) >>= from_source

    abbrev pub unmarshalled :
        String
        → List String
        → List (String × Unit {0})
        → Message × Option Error
        → Message × Result (List (String × Unit {0}))
    unmarshalled json_text secrets present (message, none) = (message, ok present)
    unmarshalled json_text secrets present (message, some e) =
        (message, err (redact_secret_error json "unmarshal merged config JSON" e json_text secrets))

    abbrev pub finished :
        List String
        → Message
        → Result (String × List (String × Unit {0}))
        → Message × Result (List (String × Unit {0}))
    finished secrets message (err e) = (message, err e)
    finished secrets message (ok (json_text, present)) =
        unmarshalled json_text secrets present (unmarshal json_text message)

    -- `mergeJSONFile`, where the destination is not nil.
    unfoldable pub merge_json_file :
        String → Message → Parsers Value → List String → Message × Result (List (String × Unit {0}))
    merge_json_file path message parsers secret_fields =
        finished (secrets_of path message parsers secret_fields) message
          (merged_json path message parsers secret_fields)

    -- `mergeJSONFile`; `none` is a nil destination.
    unfoldable pub merge_json_file_into :
        String
        → Option Message
        → Parsers Value
        → List String
        → Option Message × Result (List (String × Unit {0}))
    merge_json_file_into path none parsers secret_fields =
        (none, err (plain "destination message is nil"))
    merge_json_file_into path (some message) parsers secret_fields =
        let (after, outcome) = merge_json_file path message parsers secret_fields in
        (some after, outcome)
