-- ===== src/Examples/Files.antt =====
-- A configuration file laid over a message, with a secret field.
use procframe.Prelude.{
  ◌≡◌, ◌↔◌, refl, String, false, Option, none, some, List, [], ◌∷◌, ◌==◌, if◌then◌else◌, lookup,
  insert, eq_iff, arith, inr,
}
use procframe.Prelude.Text.{◌+++◌}
use procframe.Prelude.Distinct.{Distinct}
use procframe.Prelude.Replace.{occurs, replace_all, replace_from}
use procframe.Errors.{Error, plain, Result, ok, err}
use procframe.Config.Json.{
  Json, Messages, canonical_json_field_name, config_json_field_names, names_loop,
}
use procframe.Config.Secrets.{redacted}
use procframe.Config.File.{
  merge_json_file, merged_json, parse_json_overlay, overlay_loop, add_field, duplicate_field,
  merge_loop, decode_json_overlay_value, current_json_map, normalize_json_field_parsers,
}
use procframe.Config.File.Overlay.{canonical_fields, present_fields, parse_json_overlay-accepts}
use procframe.Config.File.Merge.{IsOverlaid, merge_json_file-overlays, merge_json_file-hides}

abbrev quoted : String → String
quoted s = "\"" +++ s +++ "\""

-- A file with three fields, two of them secret or null, and the JSON of the merged configuration.
abbrev file_text : String
file_text = "{\"log_level\": 5, \"apiToken\": \"xyz\", \"port\": null}"

abbrev merged_text : String
merged_text = "logLevel=5,port=null,apiToken=\"xyz\","

abbrev read_object : String → Result (List (String × String))
read_object s =
    if s == file_text
    then ok (("log_level", "5") ∷ ("apiToken", "\"xyz\"") ∷ ("port", "null") ∷ [])
    else if s == merged_text
    then ok (("logLevel", "5") ∷ ("apiToken", "\"xyz\"") ∷ ("port", "null") ∷ [])
    else err (plain "invalid character")

abbrev written_object : List (String × String) → String
written_object [] = ""
written_object ((k, v) ∷ fields) = k +++ "=" +++ v +++ "," +++ written_object fields

abbrev some_json : Json String
some_json = record {
  parse_object = read_object;
  parse_values = λ s. ok (("logLevel", "0") ∷ ("port", "80") ∷ []);
  decode = λ raw. ok raw;
  decode_string = λ raw. if raw == "\"xyz\"" then ok "xyz" else err (plain "cannot unmarshal");
  marshal_values = λ fields. ok (written_object fields);
  marshal_object = λ fields. ok (written_object fields);
  trim_space = λ s. s;
  null = "null";
}

abbrev some_messages : Option Error → Messages String
some_messages refusal = record {
  marshal = λ m. ok m;
  unmarshal = λ source. λ m. (source, refusal);
  fields = λ m. ("logLevel", "log_level") ∷ ("port", "port") ∷ ("apiToken", "api_token") ∷ [];
}

abbrev some_files : String → Result String
some_files path = if path == "app.json" then ok file_text else err (plain "no such file")

abbrev some_present : List (String × Unit {0})
some_present = ("logLevel", tt) ∷ ("apiToken", tt) ∷ []

prepared :
    (refusal : Option Error)
    → merged_json some_json quoted
        (some_messages refusal)
        some_files
        "app.json"
        "{}"
        []
        ("api_token" ∷ [])
      ≡ ok (merged_text, some_present)
unfolding merged_json current_json_map parse_json_overlay overlay_loop add_field
    canonical_json_field_name config_json_field_names names_loop normalize_json_field_parsers
    merge_loop decode_json_overlay_value lookup insert
prepared refusal = refl

merged_once :
    merge_json_file some_json quoted
      (some_messages none)
      some_files
      "app.json"
      "{}"
      []
      ("api_token" ∷ [])
    ≡ (merged_text, ok some_present)
unfolding merge_json_file
merged_once = rw (prepared none) refl

merge_json_file-overlays_example :
    IsOverlaid some_json quoted
      (some_messages none)
      some_files
      "app.json"
      "{}"
      merged_text
      []
      some_present
merge_json_file-overlays_example =
    merge_json_file-overlays some_json quoted (some_messages none) some_files "app.json" "{}"
      merged_text [] ("api_token" ∷ []) some_present merged_once

abbrev refusal : Error
refusal = plain "invalid value for field apiToken: xyz"

canonical_name :
    canonical_json_field_name "api_token"
      (config_json_field_names ((some_messages (some refusal)).fields "{}"))
    ≡ "apiToken"
unfolding canonical_json_field_name config_json_field_names names_loop lookup insert
canonical_name = refl

token_there :
    lookup {V = String}
      (canonical_json_field_name "api_token"
        (config_json_field_names ((some_messages (some refusal)).fields "{}")))
      (("logLevel", "5") ∷ ("apiToken", "\"xyz\"") ∷ ("port", "null") ∷ [])
    ≡ some "\"xyz\""
unfolding canonical_json_field_name config_json_field_names names_loop lookup insert
token_there = refl

merge_json_file-hides_example :
    (shown : String) × (merge_json_file some_json quoted
        (some_messages (some refusal))
        some_files
        "app.json"
        "{}"
        []
        ("api_token" ∷ [])
      ≡ (merged_text, err (plain ("unmarshal merged config JSON" +++ ": " +++ shown))))
    × (occurs "xyz" shown ≡ false)
merge_json_file-hides_example =
    merge_json_file-hides some_json quoted (some_messages (some refusal)) some_files "app.json" "{}"
      merged_text [] ("api_token" ∷ []) some_present merged_text refusal
      (("logLevel", "5") ∷ ("apiToken", "\"xyz\"") ∷ ("port", "null") ∷ []) "api_token" "\"xyz\""
      "xyz" (prepared (some refusal)) refl refl refl
      (λ h. ground (arith, eq_iff "apiToken" "", canonical_name)) token_there
      (ground (arith, eq_iff "\"xyz\"" "")) (ground (arith, eq_iff "xyz" "")) (inr refl)
      (refl, (refl, (refl, tt)))

parse_json_overlay-accepts_example :
    (parse_json_overlay some_json quoted file_text []
      ≡ ok (
        ("log_level", "5") ∷ ("apiToken", "\"xyz\"") ∷ ("port", "null") ∷ [],
        ("log_level", tt) ∷ ("apiToken", tt) ∷ [],
      ))
    ↔ (Distinct (
          canonical_fields some_json quoted []
            (("log_level", "5") ∷ ("apiToken", "\"xyz\"") ∷ ("port", "null") ∷ []))
        × (canonical_fields some_json quoted []
              (("log_level", "5") ∷ ("apiToken", "\"xyz\"") ∷ ("port", "null") ∷ [])
            ≡ ("log_level", "5") ∷ ("apiToken", "\"xyz\"") ∷ ("port", "null") ∷ [])
        × (present_fields some_json quoted []
              (("log_level", "5") ∷ ("apiToken", "\"xyz\"") ∷ ("port", "null") ∷ [])
            ≡ ("log_level", tt) ∷ ("apiToken", tt) ∷ []))
parse_json_overlay-accepts_example =
    parse_json_overlay-accepts some_json quoted [] file_text
      (("log_level", "5") ∷ ("apiToken", "\"xyz\"") ∷ ("port", "null") ∷ [])
      (("log_level", "5") ∷ ("apiToken", "\"xyz\"") ∷ ("port", "null") ∷ [])
      (("log_level", tt) ∷ ("apiToken", tt) ∷ []) refl

-- A field under its two names is refused.
twice_refused :
    overlay_loop some_json quoted
      (("log_level", "logLevel") ∷ [])
      (("logLevel", "1") ∷ ("log_level", "2") ∷ [])
      (record { overlay = []; present = []; seen_fields = [] })
    ≡ err (plain "duplicate config field \"logLevel\" via \"logLevel\" and \"log_level\"")
unfolding overlay_loop add_field duplicate_field canonical_json_field_name lookup insert
twice_refused = refl

-- A secret that begins with another one: the shorter is hidden first, and the end of the longer stays.
rest_of_secret_shown :
    redacted ("abc" ∷ "abcdef" ∷ []) "bad value abcdef" ≡ "bad value [REDACTED]def"
unfolding redacted replace_all replace_from
rest_of_secret_shown = refl
