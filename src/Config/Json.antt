-- ===== src/Config/Json.antt =====
-- config/file.go: encoding/json and protojson, which are parameters, and the names of the fields of a
-- message in JSON.
use procframe.Prelude.{String, Option, none, some, List, [], ◌∷◌, lookup, insert}
use procframe.Errors.{Error, Result}

-- encoding/json, with `bytes.TrimSpace`. A `json.RawMessage` is its text, `Value` is a decoded value
-- (`any`), and a map is the list of its entries. The
-- maps that are made from another one keep its order, where Go iterates over each in an order of its
-- own: that decides only which of several errors is returned.
pub record Json (Value : Type 0) : Type 0 where
  pub parse_object : String → Result (List (String × String))
  pub parse_values : String → Result (List (String × Value))
  pub decode : String → Result Value
  pub decode_string : String → Result String
  pub marshal_values : List (String × Value) → Result String
  pub marshal_object : List (String × String) → Result String
  pub trim_space : String → String
  pub null : Value

-- protojson and the descriptor of a message, whose fields have a JSON name and a name. An unmarshalling
-- that fails may have changed the message.
pub record Messages (Message : Type 0) : Type 0 where
  pub marshal : Message → Result String
  pub unmarshal : String → Message → Message × Option Error
  pub fields : Message → List (String × String)

-- `JSONFieldParser`; `none` is a nil function.
abbrev pub Parsers : Type 0 → Type 0
Parsers Value = List (String × Option (String → Result Value))

-- The loop of `configJSONFieldNames`.
unfoldable pub names_loop : List (String × String) → List (String × String) → List (String × String)
names_loop names [] = names
names_loop names ((json_name, name) ∷ fields) =
    names_loop (insert name json_name (insert json_name json_name names)) fields

unfoldable pub canonical_json_field_name : String → List (String × String) → String
canonical_json_field_name field names = elim (lookup field names) [
  | some canonical ↦ canonical
  | none ↦ field
]

-- `configJSONFieldNames`, for the fields of a message.
unfoldable pub config_json_field_names : List (String × String) → List (String × String)
config_json_field_names fields = names_loop [] fields
