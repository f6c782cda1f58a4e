-- ===== src/Json/Heads.antt =====
-- What a written value starts with, and the scalars that the parser reads back.
use nemotron_inference.Base.{
  ℕ, suc, ◌≡◌, refl, true, false, ◌||◌, List, [], ◌∷◌, ◌++◌, arith, ◌==◌, to_string, IsNumeral,
  to_string-IsNumeral,
}
use nemotron_inference.ModelSchedule.{is_digit}
use nemotron_inference.Json.{
  Integer, positive, negative, JsonValue, null, boolean, integer, string, array, object,
  empty_array, element, empty_object, member, parsed, ◌>>=◌, is_space, parse_integer, parse_scalar,
  parse_value,
}
use nemotron_inference.Json.Printer.{
  write_characters, write_string, write_integer, write_value, InRange,
}
use nemotron_inference.Json.Scalars.{
  parse_string-write_string, parse_integer-write_integer, EndsNumber, Opens, numeral-Opens,
  scalar_of, StartsScalar, parse_value-scalar_of,
}

pub write_value-Opens : (value : JsonValue) (tail : List ℕ) → Opens (write_value value tail)
unfolding write_value is_space
write_value-Opens null tail = (refl, (refl, refl))
write_value-Opens (boolean true) tail = (refl, (refl, refl))
write_value-Opens (boolean false) tail = (refl, (refl, refl))
write_value-Opens (integer (positive n)) tail =
    numeral-Opens (to_string n) tail (to_string-IsNumeral n)
write_value-Opens (integer (negative n)) tail = (refl, (refl, refl))
write_value-Opens (string s) tail = (refl, (refl, refl))
write_value-Opens (array empty_array) tail = (refl, (refl, refl))
write_value-Opens (array (element value rest)) tail = (refl, (refl, refl))
write_value-Opens (object empty_object) tail = (refl, (refl, refl))
write_value-Opens (object (member key value rest)) tail = (refl, (refl, refl))

numeral-StartsScalar : (xs tail : List ℕ) → IsNumeral xs → StartsScalar (xs ++ tail)
numeral-StartsScalar [] tail h = absurd h
numeral-StartsScalar (ch ∷ xs) tail h = ground arith

numeral-scalar_of :
    (xs tail : List ℕ)
    → IsNumeral xs
    → scalar_of (xs ++ tail) ≡ (parse_integer (xs ++ tail) >>= (λ n left. parsed (integer n) left))
unfolding parse_scalar is_digit
numeral-scalar_of [] tail h = absurd h
numeral-scalar_of (ch ∷ xs) tail h =
    let a : ch == 34 ≡ false = ground arith in
    let b : (ch == b'-' || is_digit ch) ≡ true = ground arith in rw (a, b, parse_scalar)

write_integer-Opens : (n : Integer) (tail : List ℕ) → Opens (write_integer n tail)
unfolding write_integer is_space
write_integer-Opens (positive n) tail = numeral-Opens (to_string n) tail (to_string-IsNumeral n)
write_integer-Opens (negative n) tail = (refl, (refl, refl))

write_integer-StartsScalar : (n : Integer) (tail : List ℕ) → StartsScalar (write_integer n tail)
unfolding write_integer
write_integer-StartsScalar (positive n) tail =
    numeral-StartsScalar (to_string n) tail (to_string-IsNumeral n)
write_integer-StartsScalar (negative n) tail = (refl, refl)

write_integer-scalar_of :
    (n : Integer) (tail : List ℕ)
    → scalar_of (write_integer n tail)
      ≡ (parse_integer (write_integer n tail) >>= (λ k left. parsed (integer k) left))
unfolding write_integer parse_scalar
write_integer-scalar_of (positive n) tail =
    numeral-scalar_of (to_string n) tail (to_string-IsNumeral n)
write_integer-scalar_of (negative n) tail = refl

pub scalar_back :
    (fuel : ℕ) (n : Integer) (tail : List ℕ)
    → InRange n
    → EndsNumber tail
    → parse_value (suc fuel) (write_integer n tail) ≡ parsed (integer n) tail
scalar_back fuel n tail fits e = rw (
  parse_value-scalar_of fuel (write_integer n tail) (write_integer-Opens n tail)
      (write_integer-StartsScalar n tail),
  write_integer-scalar_of n tail,
  parse_integer-write_integer n tail fits e,
)

write_string-scalar_of :
    (s tail : List ℕ) → scalar_of (write_string s tail) ≡ parsed (string s) tail
unfolding write_string parse_scalar
write_string-scalar_of s tail = rw (parse_string-write_string s tail)

pub string_back :
    (fuel : ℕ) (s tail : List ℕ)
    → parse_value (suc fuel) (write_string s tail) ≡ parsed (string s) tail
unfolding write_string is_space
string_back fuel s tail =
    rw (parse_value-scalar_of fuel (34 ∷ write_characters s tail) (refl, (refl, refl)) (refl, refl))
      (write_string-scalar_of s tail)
