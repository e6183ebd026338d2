-- ===== src/Config/File/Merge.antt =====
-- What a message holds behind a configuration file, and what the error of a merge does not show.
use mathlib.Core.Path.{subst}
use procframe.Prelude.{
  ◌≡◌, sym, ap, ◌∙◌, ◌≢◌, String, true, false, Option, none, some, List, contains, lookup,
}
use procframe.Prelude.Distinct.{Distinct}
use procframe.Errors.{Error, plain, Result, ok, err, bind-eq-ok, ok-injective, err-not-ok}
use procframe.Prelude.Text.{◌+++◌}
use procframe.Prelude.Replace.{occurs, Avoids}
use procframe.Config.Field.{redacted_placeholder}
use procframe.Config.Secrets.Marked.{normalize-contains}
use procframe.Config.Secrets.Hidden.{Shows, redact_secret_error-hides}
use procframe.Config.Json.{
  Json, Messages, Parsers, config_json_field_names, canonical_json_field_name,
}
use procframe.Config.File.{
  normalize_json_field_parsers, merge_loop, current_json_map, merged_json, from_merged,
  from_parsers, from_overlay, from_base, from_source, secrets_of, finished, unmarshalled,
  merge_json_file, parse_json_overlay,
}
use procframe.Config.File.Overlay.{canonical_fields, present_fields, overlay-parsed}
use procframe.Config.File.Laid.{bind_wrapped-ok, Laid, loop-Laid}

module _ {Value Message : Type 0} (json : Json Value) (quote : String → String)
    (messages : Messages Message) (read_file : String → Result String) where
  open json use {parse_object, marshal_values}
  open messages use {unmarshal, fields}

  -- What a merge that succeeds has done: the file is a JSON object that names no field twice; the
  -- fields that are present are those that it does not give as null; each field of the merged JSON is
  -- the file's, where it has the field, and else what the message had; and the message is what protojson
  -- reads from the merged JSON.
  pub record IsOverlaid (path : String) (message after : Message) (parsers : Parsers Value)
      (present : List (String × Unit {0})) : Type 0 where
    pub source : String
    pub raw : List (String × String)
    pub normalized : Parsers Value
    pub base : List (String × Value)
    pub merged : List (String × Value)
    pub json_text : String
    pub read : read_file path ≡ ok source
    pub parsed_as : parse_object source ≡ ok raw
    pub unique :
        Distinct (canonical_fields json quote (config_json_field_names (fields message)) raw)
    pub given : present_fields json quote (config_json_field_names (fields message)) raw ≡ present
    pub normal :
        normalize_json_field_parsers json quote parsers (config_json_field_names (fields message))
        ≡ ok normalized
    pub current : current_json_map json quote messages read_file message ≡ ok base
    pub laid :
        (k : String)
        → Laid json quote normalized k
            (lookup k (canonical_fields json quote (config_json_field_names (fields message)) raw))
            base
            merged
    pub marshalled : marshal_values merged ≡ ok json_text
    pub stored : unmarshal json_text message ≡ (after, none)

  unmarshalled-ok :
      (json_text : String) (secrets : List String) (present : List (String × Unit {0}))
      (done : Message × Option Error) {after : Message} {shown : List (String × Unit {0})}
      → unmarshalled json quote messages read_file json_text secrets present done
        ≡ (after, ok shown)
      → (done ≡ (after, none)) × (present ≡ shown)
  unmarshalled-ok json_text secrets present (m, none) h = (cc, cc)
  unmarshalled-ok json_text secrets present (m, some e) h = absurd (err-not-ok _ (ap (λ q. q.1) h))

  finished-ok :
      (secrets : List String) (message : Message) (r : Result (String × List (String × Unit {0})))
      {after : Message} {shown : List (String × Unit {0})}
      → finished json quote messages read_file secrets message r ≡ (after, ok shown)
      → (json_text : String) × (r ≡ ok (json_text, shown))
        × (unmarshal json_text message ≡ (after, none))
  finished-ok secrets message (err e) h = absurd (err-not-ok e (ap (λ q. q.1) h))
  finished-ok secrets message (ok (json_text, present)) h =
      let (done, same) =
        unmarshalled-ok json_text secrets present (unmarshal json_text message) h in
      (json_text, ap (λ p. ok (json_text, p)) same, done)

  -- The steps of a merge that succeeds, put together.
  steps-IsOverlaid :
      (path : String) (message after : Message) (parsers : Parsers Value)
      (secret_fields : List String) (present : List (String × Unit {0})) (source : String)
      (base merged : List (String × Value)) (o : List (String × String) × List (String × Unit {0}))
      (normalized : Parsers Value) (json_text : String)
      → read_file path ≡ ok source
      → current_json_map json quote messages read_file message ≡ ok base
      → parse_json_overlay json quote source (config_json_field_names (fields message)) ≡ ok o
      → normalize_json_field_parsers json quote parsers (config_json_field_names (fields message))
        ≡ ok normalized
      → merge_loop json quote source o.0 normalized
          (secrets_of json quote messages read_file path message parsers secret_fields)
          base
          o.0
        ≡ ok merged
      → from_merged json quote messages read_file path message parsers secret_fields o.1 merged
        ≡ ok (json_text, present)
      → unmarshal json_text message ≡ (after, none)
      → IsOverlaid path message after parsers present
  steps-IsOverlaid path message after parsers secret_fields present source base merged o normalized
        json_text read current overlaid normal looped last stored =
      let names = config_json_field_names (fields message) in
      let (written, marshalled, whole) =
        bind_wrapped-ok "marshal merged config JSON" (marshal_values merged) _ last in
      let (raw, parsed_as, unique, same, given) =
        overlay-parsed json quote names source o overlaid in
      let triple = ok-injective whole in
      record {
        source = source;
        raw = raw;
        normalized = normalized;
        base = base;
        merged = merged;
        json_text = json_text;
        read = read;
        parsed_as = parsed_as;
        unique = unique;
        given = given ∙ ap (λ q. q.1) triple;
        normal = normal;
        current = current;
        laid = λ k.
            subst (λ l. Laid json quote normalized k (lookup k l) base merged) (sym same)
              (loop-Laid json quote source o.0 normalized _ k o.0 base merged
                (subst Distinct same unique) looped);
        marshalled = marshalled ∙ ap ok (ap (λ q. q.0) triple);
        stored = stored;
      }

  -- A merge that succeeds lays the fields of the file over those of the message, as `IsOverlaid` says:
  -- the file names no field twice, a field that it has is decoded from it and replaces the message's
  -- value, every other field keeps its value, and the fields that are not null are reported.
  pub merge_json_file-overlays :
      (path : String) (message after : Message) (parsers : Parsers Value)
      (secret_fields : List String) (present : List (String × Unit {0}))
      → merge_json_file json quote messages read_file path message parsers secret_fields
        ≡ (after, ok present)
      → IsOverlaid path message after parsers present
  unfolding merge_json_file merged_json
  merge_json_file-overlays path message after parsers secret_fields present h =
      let names = config_json_field_names (fields message) in
      let (json_text, prepared, stored) =
        finished-ok (secrets_of json quote messages read_file path message parsers secret_fields)
          message (merged_json json quote messages read_file path message parsers secret_fields)
          h in
      let (source, read, h₁) =
        bind_wrapped-ok _ (read_file path)
          (from_source json quote messages read_file path message parsers secret_fields) prepared in
      let (base, current, h₂) =
        bind-eq-ok (current_json_map json quote messages read_file message)
          (from_base json quote messages read_file path message parsers secret_fields source) h₁ in
      let (o, overlaid, h₃) =
        bind_wrapped-ok _ (parse_json_overlay json quote source names)
          (from_overlay json quote messages read_file path message parsers secret_fields source
            base)
          h₂ in
      let (normalized, normal, h₄) =
        bind_wrapped-ok _ (normalize_json_field_parsers json quote parsers names)
          (from_parsers json quote messages read_file path message parsers secret_fields source base
            o)
          h₃ in
      let (merged, looped, h₅) =
        bind-eq-ok
          (merge_loop json quote source o.0 normalized
            (secrets_of json quote messages read_file path message parsers secret_fields) base o.0)
          (from_merged json quote messages read_file path message parsers secret_fields o.1) h₄ in
      steps-IsOverlaid path message after parsers secret_fields present source base merged o
        normalized json_text read current overlaid normal looped h₅ stored

  -- Where protojson refuses the merged JSON, the error of the merge does not show a field of it that is
  -- secret under one of its names: neither its JSON nor its text, if that shares no character with the
  -- placeholder.
  pub merge_json_file-hides :
      (path : String) (message after : Message) (parsers : Parsers Value)
      (secret_fields : List String) (present : List (String × Unit {0})) (json_text : String)
      (e : Error) (values : List (String × String)) (field raw token : String)
      → merged_json json quote messages read_file path message parsers secret_fields
        ≡ ok (json_text, present)
      → unmarshal json_text message ≡ (after, some e)
      → parse_object json_text ≡ ok values
      → contains field secret_fields ≡ true
      → canonical_json_field_name field (config_json_field_names (fields message)) ≢ ""
      → lookup (canonical_json_field_name field (config_json_field_names (fields message))) values
        ≡ some raw
      → raw ≢ ""
      → token ≢ ""
      → Shows json raw token
      → Avoids token redacted_placeholder
      → (shown : String) × (merge_json_file json quote messages read_file path message parsers
            secret_fields
          ≡ (after, err (plain ("unmarshal merged config JSON" +++ ": " +++ shown))))
        × (occurs token shown ≡ false)
  unfolding merge_json_file
  merge_json_file-hides path message after parsers secret_fields present json_text e values field
        raw token prepared refused parses member named there full_raw full shows apart =
      let names = config_json_field_names (fields message) in
      let secrets = secrets_of json quote messages read_file path message parsers secret_fields in
      let (shown, same, unseen) =
        redact_secret_error-hides json "unmarshal merged config JSON" json_text e values secrets
          (canonical_json_field_name field names) raw token parses
          (normalize-contains field secret_fields names member named) there full_raw full shows
          apart in
      (
        shown,
        ap (finished json quote messages read_file secrets message) prepared
            ∙ ap (unmarshalled json quote messages read_file json_text secrets present) refused
            ∙ ap (λ x. (after, err x)) same,
        unseen,
      )
