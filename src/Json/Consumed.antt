-- ===== src/Json/Consumed.antt =====
-- The parser always ends: every call leaves less text than it was given, so the fuel is enough.
use nemotron_inference.Base.{
  ℕ, zero, suc, ◌*◌, ◌<◌, ◌≤◌, ◌≡◌, ◌⊎◌, refl, ap, inl, inr, List, [], ◌∷◌, arith, ◌==◌, length,
  Bool-cases, Option-cases,
}
use nemotron_inference.Json.{
  JsonValue, JsonArray, empty_array, JsonObject, empty_object, emplace_member, push_element,
  ParseError, trailing_content, Parsed, parsed, thrown, exhausted, ◌>>=◌, skip_whitespace,
  try_consume, expect, parse_scalar, parse_key, close_object, close_array, parse_value,
  parse_members, parse_elements, enough, at_end, parse_json,
}
use nemotron_inference.Json.Advance.{
  Consumes, Consumes-weaken, Consumes-bind, length-skip_whitespace, length-try_consume,
  expect-Consumes, parse_scalar-Consumes, parse_key-Consumes,
}

-- What the three functions do with this much fuel.
abbrev ValueAt : ℕ → Type 0
ValueAt fuel =
    (input : List ℕ)
    → suc (2 * length input) ≤ fuel
    → Consumes (length input) (parse_value fuel input)

abbrev MembersAt : ℕ → Type 0
MembersAt fuel =
    (members : JsonObject) (input : List ℕ)
    → suc (suc (2 * length input)) ≤ fuel
    → Consumes (length input) (parse_members fuel members input)

abbrev ElementsAt : ℕ → Type 0
ElementsAt fuel =
    (elements : JsonArray) (input : List ℕ)
    → suc (suc (2 * length input)) ≤ fuel
    → Consumes (length input) (parse_elements fuel elements input)

value_step : (fuel : ℕ) → MembersAt fuel → ElementsAt fuel → ValueAt (suc fuel)
unfolding parse_value
value_step fuel members elements input enough = skipped (skip_whitespace input) refl
  where
    skipped :
        (left : List ℕ)
        → skip_whitespace input ≡ left
        → Consumes (length input) (parse_value (suc fuel) input)
    skipped [] e = rw (e, parse_value) tt
    skipped (ch ∷ rest) e =
        let shorter : suc (length rest) ≤ length input =
          omega (arith, length-skip_whitespace input, ap (λ (t : List ℕ). length t) e) in
        let fewer : length (skip_whitespace rest) ≤ length rest = length-skip_whitespace rest in
        elim (Bool-cases (ch == b'{')) [
          | inl o ↦ elim (Option-cases (try_consume b'}' rest)) [
            | inr (left, c) ↦
                rw (e, o, c, parse_value) (omega (arith, length-try_consume b'}' rest left c))
            | inl c ↦
                rw (e, o, c, parse_value)
                  (Consumes-weaken (parse_members fuel empty_object (skip_whitespace rest))
                    (length (skip_whitespace rest)) (length input) (omega arith)
                    (members empty_object (skip_whitespace rest) (omega arith)))
          ]
          | inr no_object ↦ elim (Bool-cases (ch == b'[')) [
            | inl o ↦ elim (Option-cases (try_consume b']' rest)) [
              | inr (left, c) ↦
                  rw (e, no_object, o, c, parse_value)
                    (omega (arith, length-try_consume b']' rest left c))
              | inl c ↦
                  rw (e, no_object, o, c, parse_value)
                    (Consumes-weaken (parse_elements fuel empty_array (skip_whitespace rest))
                      (length (skip_whitespace rest)) (length input) (omega arith)
                      (elements empty_array (skip_whitespace rest) (omega arith)))
            ]
            | inr no_array ↦
                rw (e, no_object, no_array, parse_value)
                  (Consumes-weaken (parse_scalar ch rest) (suc (length rest)) (length input) shorter
                    (parse_scalar-Consumes ch rest))
          ]
        ]

-- A comma and what follows it.
comma_step :
    (input : List ℕ) (next : List ℕ → Parsed JsonValue)
    → ((rest : List ℕ) → length rest < length input → Consumes (length rest) (next rest))
    → Consumes (length input) (expect b',' input >>= (λ _ rest. next rest))
comma_step input next follow =
    Consumes-bind (expect b',' input) (λ _ rest. next rest) (length input) (length input)
      (expect-Consumes b',' input)
      (λ _ rest h.
        Consumes-weaken (next rest) (length rest) (length input) (omega arith) (follow rest h))

close_object-Consumes :
    (next : JsonObject → List ℕ → Parsed JsonValue) (members : JsonObject) (input : List ℕ)
    → ((rest : List ℕ) → length rest < length input → Consumes (length rest) (next members rest))
    → Consumes (length input) (close_object next members input)
unfolding close_object
close_object-Consumes next members input follow = elim (Option-cases (try_consume b'}' input)) [
  | inr (rest, c) ↦ rw (c, close_object) (length-try_consume b'}' input rest c)
  | inl c ↦ rw (c, close_object) (comma_step input (next members) follow)
]

close_array-Consumes :
    (next : JsonArray → List ℕ → Parsed JsonValue) (elements : JsonArray) (input : List ℕ)
    → ((rest : List ℕ) → length rest < length input → Consumes (length rest) (next elements rest))
    → Consumes (length input) (close_array next elements input)
unfolding close_array
close_array-Consumes next elements input follow = elim (Option-cases (try_consume b']' input)) [
  | inr (rest, c) ↦ rw (c, close_array) (length-try_consume b']' input rest c)
  | inl c ↦ rw (c, close_array) (comma_step input (next elements) follow)
]

members_step : (fuel : ℕ) → ValueAt fuel → MembersAt fuel → MembersAt (suc fuel)
unfolding parse_members
members_step fuel value more members input enough =
    Consumes-bind (parse_key input) (λ key after. parse_value fuel after >>= close key)
      (length input) (length input) (parse_key-Consumes input)
      (λ key after fewer.
        Consumes-bind (parse_value fuel after) (close key) (length after) (length input)
          (value after (omega arith))
          (λ v left h.
            Consumes-weaken (close key v left) (length left) (length input) (omega arith) (
              close_object-Consumes (parse_members fuel) (emplace_member key v members) left
                (λ rest r. more (emplace_member key v members) rest (omega arith)))))
  where
    close : List ℕ → JsonValue → List ℕ → Parsed JsonValue
    close key v left = close_object (parse_members fuel) (emplace_member key v members) left

elements_step : (fuel : ℕ) → ValueAt fuel → ElementsAt fuel → ElementsAt (suc fuel)
unfolding parse_elements
elements_step fuel value more elements input enough =
    Consumes-bind (parse_value fuel input) close (length input) (length input)
      (value input (omega arith))
      (λ v left h. Consumes-weaken (close v left) (length left) (length input) (omega arith) (
        close_array-Consumes (parse_elements fuel) (push_element elements v) left
          (λ rest r. more (push_element elements v) rest (omega arith))))
  where
    close : JsonValue → List ℕ → Parsed JsonValue
    close v left = close_array (parse_elements fuel) (push_element elements v) left

parse_all : (fuel : ℕ) → ValueAt fuel × (MembersAt fuel × ElementsAt fuel)
parse_all zero = (
  λ input e. absurd (omega arith),
  (λ members input e. absurd (omega arith), λ elements input e. absurd (omega arith)),
)
parse_all (suc fuel) =
    let (value, (members, elements)) = parse_all fuel in
    (
      value_step fuel members elements,
      (members_step fuel value members, elements_step fuel value elements),
    )

pub parse_value-Consumes :
    (fuel : ℕ) (input : List ℕ)
    → suc (2 * length input) ≤ fuel
    → Consumes (length input) (parse_value fuel input)
parse_value-Consumes fuel = (parse_all fuel).0

-- A value with nothing left, or an exception.
abbrev pub Ends : Parsed JsonValue → Type 0
Ends p = ((value : JsonValue) × (p ≡ parsed value [])) ⊎ ((e : ParseError) × (p ≡ thrown e))

at_end-Ends : (value : JsonValue) (left : List ℕ) → Ends (at_end value left)
unfolding at_end
at_end-Ends value [] = inl (value, refl)
at_end-Ends value (ch ∷ rest) = inr (trailing_content (suc (length rest)), refl)

finish-Ends :
    (p : Parsed JsonValue) (n : ℕ)
    → Consumes n p
    → Ends (p >>= (λ value left. at_end value (skip_whitespace left)))
finish-Ends (parsed value left) n h = at_end-Ends value (skip_whitespace left)
finish-Ends (thrown e) n h = inr (e, refl)
finish-Ends exhausted n h = absurd h

-- JsonParser::Parse ends on every text: it returns a value, with nothing left of the text, or throws.
pub parse_json-ends :
    (input : List ℕ)
    → ((value : JsonValue) × (parse_json input ≡ parsed value []))
      ⊎ ((e : ParseError) × (parse_json input ≡ thrown e))
unfolding parse_json
parse_json-ends input =
    finish-Ends (parse_value (enough input) input) (length input)
      (parse_value-Consumes (enough input) input (omega arith))
