-- ===== src/Json/Scalars.antt =====
-- The parser reads back strings, integers and literals.
use nemotron_inference.Base.{
  ℕ, suc, ◌+◌, ◌-◌, ◌*◌, ◌<◌, ◌≤◌, ◌≡◌, ◌≢◌, refl, inl, inr, Bool, true, false, ◌||◌, List, [], ◌∷◌,
  ◌++◌, arith, ◌==◌, append_assoc, append_nil, Bool-cases, to_string, fold_digits, IsDigits,
  IsNumeral, fold_digits-to_string, to_string-IsNumeral,
}
use nemotron_inference.ModelSchedule.{is_digit}
use nemotron_inference.ModelSchedule.Paths.{is_digit-true}
use nemotron_inference.Json.{
  Integer, positive, negative, JsonValue, Parsed, parsed, is_space, skip_whitespace, after_byte,
  try_consume, expect, escaped_byte, parse_characters, parse_string, take_digits, to_int64,
  parse_digits, parse_integer, parse_scalar, parse_value, end_of_input, thrown,
}
use nemotron_inference.Json.Printer.{write_characters, write_string, write_integer, InRange}

raw_step :
    (ch : ℕ) (more result : List ℕ)
    → ch == 34 ≡ false
    → ch == 92 ≡ false
    → more ≢ []
    → parse_characters (ch ∷ more) result ≡ parse_characters more (result ++ (ch ∷ []))
unfolding parse_characters
raw_step ch [] result quote slash ne = absurd (ne refl)
raw_step ch (next ∷ rest) result quote slash ne = rw (quote, slash, parse_characters)

escape_step :
    (ch : ℕ) (more result : List ℕ)
    → (ch == 34 || ch == 92) ≡ true
    → parse_characters (92 ∷ (ch ∷ more)) result ≡ parse_characters more (result ++ (ch ∷ []))
unfolding parse_characters escaped_byte
escape_step ch more result special = ground arith

write_characters-ne : (s tail : List ℕ) → write_characters s tail ≢ []
unfolding write_characters
write_characters-ne [] tail e = cc
write_characters-ne (ch ∷ s) tail e = ground arith

quote_step : (tail result : List ℕ) → parse_characters (34 ∷ tail) result ≡ parsed result tail
unfolding parse_characters
quote_step [] result = refl
quote_step (t ∷ tail) result = refl

parse_characters-write_characters :
    (s tail result : List ℕ)
    → parse_characters (write_characters s tail) result ≡ parsed (result ++ s) tail
unfolding write_characters
parse_characters-write_characters [] tail result = rw (append_nil result) (quote_step tail result)
parse_characters-write_characters (ch ∷ s) tail result =
    let ih = parse_characters-write_characters s tail (result ++ (ch ∷ [])) in
    let shift : (result ++ (ch ∷ [])) ++ s ≡ result ++ (ch ∷ s) = append_assoc result (ch ∷ []) s in
    elim (Bool-cases (ch == 34 || ch == 92)) [
      | inl special ↦
          rw (special, escape_step ch (write_characters s tail) result special, ih, shift)
      | inr plain ↦ rw (
        plain,
        raw_step ch (write_characters s tail) result (ground arith) (ground arith)
            (write_characters-ne s tail),
        ih,
        shift,
      )
    ]

pub parse_string-write_string :
    (s tail : List ℕ) → parse_string (write_string s tail) ≡ parsed s tail
unfolding parse_string write_string expect try_consume after_byte skip_whitespace is_space
parse_string-write_string s tail = parse_characters-write_characters s tail []

abbrev pub digit_step : ℕ → ℕ → ℕ
digit_step m ch = m * 10 + (ch - b'0')

pub digit_step-appends :
    (bound m d : ℕ) → d < 10 → m * 10 + d ≤ bound → digit_step m (b'0' + d) ≡ m * 10 + d
digit_step-appends bound m d small fits = omega arith

-- What follows a number does not go on with a digit.
abbrev pub EndsNumber : List ℕ → Type 0
EndsNumber [] = Unit
EndsNumber (ch ∷ rest) = is_digit ch ≡ false

pub take_digits-fold_digits :
    (acc : ℕ) (xs tail : List ℕ)
    → IsDigits xs
    → EndsNumber tail
    → take_digits acc (xs ++ tail) ≡ (fold_digits digit_step acc xs, tail)
unfolding take_digits
take_digits-fold_digits acc [] [] h e = refl
take_digits-fold_digits acc [] (ch ∷ tail) h e = rw (e, take_digits)
take_digits-fold_digits acc (x ∷ xs) tail h e =
    rw (is_digit-true x h.0.0 h.0.1, take_digits)
      (take_digits-fold_digits (digit_step acc x) xs tail h.1 e)

parse_digits-IsNumeral :
    (minus : Bool) (xs tail : List ℕ)
    → IsNumeral xs
    → EndsNumber tail
    → parse_digits minus (xs ++ tail) ≡ to_int64 minus (fold_digits digit_step 0 xs) tail
unfolding parse_digits
parse_digits-IsNumeral minus [] tail h e = absurd h
parse_digits-IsNumeral minus (ch ∷ xs) tail h e =
    rw (is_digit-true ch h.0.0 h.0.1, take_digits-fold_digits 0 (ch ∷ xs) tail h e, parse_digits)

parse_digits-to_string :
    (minus : Bool) (n : ℕ) (tail : List ℕ)
    → EndsNumber tail
    → parse_digits minus (to_string n ++ tail) ≡ to_int64 minus n tail
parse_digits-to_string minus n tail e = rw (
  parse_digits-IsNumeral minus (to_string n) tail (to_string-IsNumeral n) e,
  fold_digits-to_string digit_step n n (digit_step-appends n) (omega arith),
)

unsigned-IsNumeral :
    (xs tail : List ℕ) → IsNumeral xs → parse_integer (xs ++ tail) ≡ parse_digits false (xs ++ tail)
unfolding parse_integer
unsigned-IsNumeral [] tail h = absurd h
unsigned-IsNumeral (ch ∷ xs) tail h =
    let other : ch == b'-' ≡ false = ground arith in rw (other, parse_integer)

pub parse_integer-write_integer :
    (n : Integer) (tail : List ℕ)
    → InRange n
    → EndsNumber tail
    → parse_integer (write_integer n tail) ≡ parsed n tail
unfolding write_integer to_int64 parse_integer
parse_integer-write_integer (positive n) tail fits e =
    rw
      (
        unsigned-IsNumeral (to_string n) tail (to_string-IsNumeral n),
        parse_digits-to_string false n tail e,
      )
      (ground arith)
parse_integer-write_integer (negative n) tail fits e =
    rw (parse_digits-to_string true (suc n) tail e) (ground arith)

-- A text that a value starts: no space and no closing bracket.
abbrev pub Opens : List ℕ → Type 0
Opens [] = ⊥
Opens (ch ∷ rest) = (is_space ch ≡ false) × ((ch == b']' ≡ false) × (ch == b'}' ≡ false))

pub skip_whitespace-Opens : (input : List ℕ) → Opens input → skip_whitespace input ≡ input
unfolding skip_whitespace
skip_whitespace-Opens [] h = absurd h
skip_whitespace-Opens (ch ∷ rest) h = rw (h.0, skip_whitespace)

pub numeral-Opens : (xs tail : List ℕ) → IsNumeral xs → Opens (xs ++ tail)
unfolding is_space
numeral-Opens [] tail h = absurd h
numeral-Opens (ch ∷ xs) tail h = ground arith

-- What parse_value does with a text that starts neither an object nor an array.
abbrev pub scalar_of : List ℕ → Parsed JsonValue
scalar_of [] = thrown end_of_input
scalar_of (ch ∷ rest) = parse_scalar ch rest

abbrev pub StartsScalar : List ℕ → Type 0
StartsScalar [] = ⊥
StartsScalar (ch ∷ rest) = (ch == b'{' ≡ false) × (ch == b'[' ≡ false)

pub parse_value-scalar_of :
    (fuel : ℕ) (input : List ℕ)
    → Opens input
    → StartsScalar input
    → parse_value (suc fuel) input ≡ scalar_of input
unfolding parse_value skip_whitespace
parse_value-scalar_of fuel [] o s = absurd o
parse_value-scalar_of fuel (ch ∷ rest) o s = rw (o.0, s.0, s.1, skip_whitespace, parse_value)
