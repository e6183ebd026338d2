-- ===== src/Examples/Names.antt =====
-- The spelling of the values of a small enum.
use Prim.Native.Char.{code}
use procframe.Prelude.{◌≡◌, refl, ◌↔◌, List, [], ◌∷◌, leb, ◌&&◌}
use procframe.Prelude.Text.{◌+++◌}
use procframe.Prelude.Distinct.{Distinct}
use procframe.Errors.{ok}
use procframe.Codegen.Naming.{
  Letters, EnumValueInfo, EnumMapping, camel_to_upper_snake, cli_value_of, enum_cli_values,
}
use procframe.Codegen.Naming.Collisions.{spellings, mappings_of, enum_cli_values-Distinct}

-- Letters without lower-case forms: all of `A` to `Z` are upper case, and no text changes.
abbrev pub capitals : Letters
capitals = record {
  is_upper = λ c. leb b'A' (code c) && leb (code c) b'Z';
  is_lower = λ c. leb b'a' (code c) && leb (code c) b'z';
  to_upper = λ c. c;
  to_lower_text = λ s. s;
}

abbrev pub some_values : List EnumValueInfo
some_values =
    record { proto_name = "LV_UNSPECIFIED"; number = 0 }
    ∷ record { proto_name = "LV_LOW"; number = 1 }
    ∷ record { proto_name = "HIGH"; number = 2 }
    ∷ []

abbrev pub some_mappings : List EnumMapping
some_mappings =
    record { cli_value = "LOW"; number = 1 } ∷ record { cli_value = "HIGH"; number = 2 } ∷ []

snake_example : camel_to_upper_snake capitals "HTTPStatus" ≡ "HTTP_Status"
unfolding camel_to_upper_snake
snake_example = refl

enum_cli_values-Distinct_example :
    let prefix = camel_to_upper_snake capitals "LV" +++ "_" in
    (enum_cli_values capitals "LV" some_values ≡ ok some_mappings) ↔ (
      Distinct (spellings capitals prefix some_values)
      × (mappings_of capitals prefix some_values ≡ some_mappings))
enum_cli_values-Distinct_example = enum_cli_values-Distinct capitals "LV" some_values some_mappings

pub some_values-spelled :
    mappings_of capitals (camel_to_upper_snake capitals "LV" +++ "_") some_values ≡ some_mappings
unfolding camel_to_upper_snake cli_value_of
some_values-spelled = refl
