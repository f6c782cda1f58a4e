-- ===== src/Json.antt =====
-- The JsonValue and the JsonParser of runtime/src/loader/manifest.cpp. The parser's place is the text
-- that is left; an exception is a value that knows how much text was left when it was thrown.
use nemotron_inference.Base.{
  ℕ, zero, suc, ◌+◌, ◌-◌, ◌*◌, ◌^◌, Bool, true, false, not, ◌&&◌, ◌||◌, List, [], ◌∷◌, ◌++◌, Option,
  none, some, ltb, leb, ◌==◌, if◌then◌else◌, length, drop, str_eq, text,
}
use nemotron_inference.ModelSchedule.{starts_with, is_digit}
mod Scanner
pub mod Advance
pub mod Consumed
pub mod Printer
pub mod Scalars
pub mod Containers
pub mod Heads
pub mod RoundTrip
mod Examples
unfoldable pub use Scanner.{
  find_member, emplace_member, push_element, is_space, skip_whitespace, after_byte, try_consume,
  expect, escaped_byte, parse_characters, parse_string,
}
pub use Scanner.*

-- The digits of an integer: their value and what follows.
unfoldable pub take_digits : ℕ → List ℕ → ℕ × List ℕ
take_digits value [] = (value, [])
take_digits value (ch ∷ rest) = elim (is_digit ch) [
  | true ↦ take_digits (value * 10 + (ch - b'0')) rest
  | false ↦ (value, ch ∷ rest)
]

-- std::stoll of a sign and digits, which throws where the number is no std::int64_t.
unfoldable pub to_int64 : Bool → ℕ → List ℕ → Parsed Integer
to_int64 false value rest =
    if ltb value (2 ^ 63) then parsed (positive value) rest else thrown out_of_range
to_int64 true zero rest = parsed (positive 0) rest
to_int64 true (suc value) rest =
    if ltb value (2 ^ 63) then parsed (negative value) rest else thrown out_of_range

unfoldable pub parse_digits : Bool → List ℕ → Parsed Integer
parse_digits minus [] = thrown (expected_digit 0)
parse_digits minus (ch ∷ rest) =
    if not (is_digit ch)
    then thrown (expected_digit (suc (length rest)))
    else (let (value, left) = take_digits 0 (ch ∷ rest) in to_int64 minus value left)

-- ParseInteger, at a minus sign or a digit.
unfoldable pub parse_integer : List ℕ → Parsed Integer
parse_integer [] = parse_digits false []
parse_integer (ch ∷ rest) =
    if ch == b'-' then parse_digits true rest else parse_digits false (ch ∷ rest)

-- The three literals, in the order in which they are tried.
unfoldable pub parse_literal : List ℕ → Parsed JsonValue
parse_literal input =
    if starts_with input (text "true")
    then parsed (boolean true) (drop (length (text "true")) input)
    else (if starts_with input (text "false")
        then parsed (boolean false) (drop (length (text "false")) input)
        else (if starts_with input (text "null")
            then parsed null (drop (length (text "null")) input)
            else thrown (unexpected_token (length input))))

-- A value that is neither an object nor an array.
unfoldable pub parse_scalar : ℕ → List ℕ → Parsed JsonValue
parse_scalar ch rest =
    if ch == 34
    then parse_string (ch ∷ rest) >>= (λ s left. parsed (string s) left)
    else (if ch == b'-' || is_digit ch
        then parse_integer (ch ∷ rest) >>= (λ n left. parsed (integer n) left)
        else parse_literal (ch ∷ rest))

-- The key of a member and its colon.
unfoldable pub parse_key : List ℕ → Parsed (List ℕ)
parse_key input = elim (skip_whitespace input) [
  | [] ↦ thrown (expected_key 0)
  | ch ∷ rest ↦
      if ch == 34
      then parse_string (ch ∷ rest)
        >>= (λ key left. expect b':' left >>= (λ _ after. parsed key after))
      else thrown (expected_key (suc (length rest)))
]

-- Behind a member: the end of the object, or a comma and the next round of the loop.
unfoldable pub close_object :
    (JsonObject → List ℕ → Parsed JsonValue) → JsonObject → List ℕ → Parsed JsonValue
close_object next members input = elim (try_consume b'}' input) [
  | some rest ↦ parsed (object members) rest
  | none ↦ expect b',' input >>= (λ _ rest. next members rest)
]

-- Behind an element, likewise.
unfoldable pub close_array :
    (JsonArray → List ℕ → Parsed JsonValue) → JsonArray → List ℕ → Parsed JsonValue
close_array next elements input = elim (try_consume b']' input) [
  | some rest ↦ parsed (array elements) rest
  | none ↦ expect b',' input >>= (λ _ rest. next elements rest)
]

unfoldable mutual
  pub parse_value : ℕ → List ℕ → Parsed JsonValue
  parse_value zero input = exhausted
  parse_value (suc fuel) input = elim (skip_whitespace input) [
    | [] ↦ thrown end_of_input
    | ch ∷ rest ↦ elim (ch == b'{') [
      | true ↦ elim (try_consume b'}' rest) [
        | some left ↦ parsed (object empty_object) left
        | none ↦ parse_members fuel empty_object (skip_whitespace rest)
      ]
      | false ↦ elim (ch == b'[') [
        | true ↦ elim (try_consume b']' rest) [
          | some left ↦ parsed (array empty_array) left
          | none ↦ parse_elements fuel empty_array (skip_whitespace rest)
        ]
        | false ↦ parse_scalar ch rest
      ]
    ]
  ]

  -- The loop of ParseObject.
  pub parse_members : ℕ → JsonObject → List ℕ → Parsed JsonValue
  parse_members zero members input = exhausted
  parse_members (suc fuel) members input = parse_key input >>= (λ key after.
      parse_value fuel after
      >>= (λ value left. close_object (parse_members fuel) (emplace_member key value members) left))

  -- The loop of ParseArray.
  pub parse_elements : ℕ → JsonArray → List ℕ → Parsed JsonValue
  parse_elements zero elements input = exhausted
  parse_elements (suc fuel) elements input =
      parse_value fuel input
      >>= (λ value left. close_array (parse_elements fuel) (push_element elements value) left)

-- Fuel for every text of this length.
abbrev pub enough : List ℕ → ℕ
enough input = suc (2 * length input)

-- The demand that nothing is left.
unfoldable pub at_end : JsonValue → List ℕ → Parsed JsonValue
at_end value [] = parsed value []
at_end value (ch ∷ rest) = thrown (trailing_content (suc (length rest)))

-- JsonParser(text).Parse()
unfoldable pub parse_json : List ℕ → Parsed JsonValue
parse_json input =
    parse_value (enough input) input >>= (λ value left. at_end value (skip_whitespace left))
