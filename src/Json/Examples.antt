-- ===== src/Json/Examples.antt =====
-- A JSON text with every kind of value: the theorems there, and a run.
use nemotron_inference.Base.{◌≡◌, ◌⊎◌, refl, true, [], text, str_eq, arith}
use nemotron_inference.ModelSchedule.{is_digit, starts_with}
use nemotron_inference.Json.{
  positive, negative, JsonValue, null, boolean, integer, string, array, object, empty_array,
  element, empty_object, member, find_member, emplace_member, push_element, ParseError, parsed,
  thrown, is_space, skip_whitespace, after_byte, try_consume, expect, escaped_byte,
  parse_characters, parse_string, take_digits, to_int64, parse_digits, parse_integer, parse_literal,
  parse_scalar, parse_key, close_object, close_array, parse_value, at_end, parse_json,
}
use nemotron_inference.Json.Consumed.{parse_json-ends}
use nemotron_inference.Json.Printer.{write_value, Writable}
use nemotron_inference.Json.RoundTrip.{parse_json-write_value}

abbrev document : JsonValue
document = object (
    member (text "a")
      (array (
        element (integer (positive 1))
          (element (integer (negative 19)) (element (boolean true) empty_array))))
      (member (text "b\n\"") (string (text "x\\")) (member (text "c") null empty_object)))

spaced_run :
    parse_json (text "{\"a\" : [1, -20,true ] , \"b\\n\\\"\":\"x\\\\\", \"c\": null}\n")
    ≡ parsed document []
unfolding text str_eq is_digit starts_with emplace_member push_element is_space skip_whitespace
    after_byte try_consume expect escaped_byte parse_characters parse_string take_digits to_int64
    parse_digits parse_integer parse_literal parse_scalar parse_key close_object close_array
    parse_value at_end parse_json
spaced_run = refl

parse_json-ends_example :
    ((value : JsonValue) × (parse_json (text "{\"a\" 1}") ≡ parsed value []))
    ⊎ ((e : ParseError) × (parse_json (text "{\"a\" 1}") ≡ thrown e))
parse_json-ends_example = parse_json-ends (text "{\"a\" 1}")

document-Writable : Writable document
unfolding text find_member str_eq
document-Writable =
    (refl, (((omega arith), (omega arith, (tt, tt))), (refl, (tt, (refl, (tt, tt))))))

parse_json-write_value_example : parse_json (write_value document []) ≡ parsed document []
parse_json-write_value_example = parse_json-write_value document document-Writable
