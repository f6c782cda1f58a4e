-- ===== src/Json/Scanner.antt =====
-- The values of JSON and the scanning of bytes and strings in the JsonParser of runtime/src/loader/manifest.cpp.
use nemotron_inference.Base.{
  ℕ, suc, Bool, true, false, ◌&&◌, ◌||◌, List, [], ◌∷◌, ◌++◌, Option, none, some, leb, ◌==◌,
  if◌then◌else◌, length, str_eq,
}

-- std::int64_t, in sign and magnitude: `negative n` is the number below zero by `suc n`.
pub data Integer : Type 0 where
  positive negative : ℕ → Integer

-- An object lists its members; `emplace` keeps the first of two with the same key.
mutual
  pub data JsonValue : Type 0 where
    null : JsonValue
    boolean : Bool → JsonValue
    integer : Integer → JsonValue
    string : List ℕ → JsonValue
    array : JsonArray → JsonValue
    object : JsonObject → JsonValue

  pub data JsonArray : Type 0 where
    empty_array : JsonArray
    element : JsonValue → JsonArray → JsonArray

  pub data JsonObject : Type 0 where
    empty_object : JsonObject
    member : List ℕ → JsonValue → JsonObject → JsonObject

unfoldable pub find_member : JsonObject → List ℕ → Option JsonValue
find_member empty_object key = none
find_member (member name value rest) key =
    if str_eq name key then some value else find_member rest key

-- object.emplace(key, value), at the end.
unfoldable pub emplace_member : List ℕ → JsonValue → JsonObject → JsonObject
emplace_member key value empty_object = member key value empty_object
emplace_member key value (member name old rest) =
    if str_eq name key
    then member name old rest
    else member name old (emplace_member key value rest)

unfoldable pub push_element : JsonArray → JsonValue → JsonArray
push_element empty_array value = element value empty_array
push_element (element first rest) value = element first (push_element rest value)

-- The exceptions; each position is the length of the text that was left.
pub data ParseError : Type 0 where
  trailing_content unexpected_token expected_key expected_digit : ℕ → ParseError
  unterminated_escape invalid_escape : ℕ → ParseError
  end_of_input unsupported_unicode unterminated_string out_of_range : ParseError
  expected_byte : ℕ → ℕ → ParseError

-- What a parsing function does: it returns a value and the text that is left, throws, or, in this
-- model, runs out of fuel.
pub data Parsed (A : Type 0) : Type 0 where
  parsed : A → List ℕ → Parsed A
  thrown : ParseError → Parsed A
  exhausted : Parsed A

infixl 20 ◌>>=◌
abbrev pub ◌>>=◌ : {A B : Type 0} → Parsed A → (A → List ℕ → Parsed B) → Parsed B
parsed a rest >>= k = k a rest
thrown e >>= k = thrown e
exhausted >>= k = exhausted

-- std::isspace
unfoldable pub is_space : ℕ → Bool
is_space ch = ch == 32 || (leb 9 ch && leb ch 13)

unfoldable pub skip_whitespace : List ℕ → List ℕ
skip_whitespace [] = []
skip_whitespace (ch ∷ rest) = elim (is_space ch) [ true ↦ skip_whitespace rest | false ↦ ch ∷ rest ]

-- The first byte of what is left is this one: what follows it.
unfoldable pub after_byte : ℕ → List ℕ → Option (List ℕ)
after_byte expected [] = none
after_byte expected (ch ∷ rest) = if ch == expected then some rest else none

-- TryConsume; `none` for false, where the whitespace is skipped all the same.
unfoldable pub try_consume : ℕ → List ℕ → Option (List ℕ)
try_consume expected input = after_byte expected (skip_whitespace input)

-- Expect
unfoldable pub expect : ℕ → List ℕ → Parsed (Unit {0})
expect expected input = elim (try_consume expected input) [
  | none ↦ thrown (expected_byte expected (length (skip_whitespace input)))
  | some rest ↦ parsed tt rest
]

-- The switch over an escaped byte: the byte it stands for.
unfoldable pub escaped_byte : ℕ → Option ℕ
escaped_byte ch =
    if ch == 34 || (ch == 92 || ch == b'/')
    then some ch
    else (if ch == b'b'
        then some 8
        else (if ch == b'f'
            then some 12
            else (if ch == b'n'
                then some 10
                else (if ch == b'r' then some 13 else (if ch == b't' then some 9 else none)))))

-- ParseString behind the opening quote; the bytes read so far are `result`.
unfoldable pub parse_characters : List ℕ → List ℕ → Parsed (List ℕ)
parse_characters [] result = thrown unterminated_string
parse_characters (ch ∷ []) result =
    if ch == 34
    then parsed result []
    else (if ch == 92 then thrown (unterminated_escape 0) else thrown unterminated_string)
parse_characters (ch ∷ (next ∷ rest)) result = elim (ch == 34) [
  | true ↦ parsed result (next ∷ rest)
  | false ↦ elim (ch == 92) [
    | false ↦ parse_characters (next ∷ rest) (result ++ (ch ∷ []))
    | true ↦ elim (escaped_byte next) [
      | some byte ↦ parse_characters rest (result ++ (byte ∷ []))
      | none ↦
          if next == b'u'
          then thrown unsupported_unicode
          else thrown (invalid_escape (suc (length rest)))
    ]
  ]
]

-- ParseString, at a quote.
unfoldable pub parse_string : List ℕ → Parsed (List ℕ)
parse_string input = expect 34 input >>= (λ _ rest. parse_characters rest [])
