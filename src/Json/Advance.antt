-- ===== src/Json/Advance.antt =====
-- The parser's parts that do not call ParseValue: each takes some of the text it is given, or throws.
use nemotron_inference.Base.{
  ℕ, zero, suc, ◌+◌, ◌-◌, ◌*◌, ◌<◌, ◌≤◌, ◌≡◌, refl, ap, inl, inr, Bool, true, false, ◌||◌, List, [],
  ◌∷◌, ◌++◌, some, arith, ◌==◌, length, length-drop, drop, text, Bool-cases, Option-cases,
}
use nemotron_inference.ModelSchedule.{starts_with, is_digit}
use nemotron_inference.Json.{
  integer, string, Parsed, parsed, thrown, exhausted, ◌>>=◌, skip_whitespace, after_byte,
  try_consume, expect, escaped_byte, parse_characters, parse_string, take_digits, to_int64,
  parse_digits, parse_integer, parse_literal, parse_scalar, parse_key,
}

-- A call that returned, and left less text than this, or threw.
abbrev pub Consumes : {A : Type 0} → ℕ → Parsed A → Type 0
Consumes n (parsed a rest) = length rest < n
Consumes n (thrown e) = Unit
Consumes n exhausted = ⊥

pub Consumes-weaken : {A : Type 0} (p : Parsed A) (m n : ℕ) → m ≤ n → Consumes m p → Consumes n p
Consumes-weaken (parsed a rest) m n le h = omega arith
Consumes-weaken (thrown e) m n le h = tt
Consumes-weaken exhausted m n le h = h

pub Consumes-bind :
    {A B : Type 0} (p : Parsed A) (k : A → List ℕ → Parsed B) (m n : ℕ)
    → Consumes m p
    → ((a : A) (rest : List ℕ) → length rest < m → Consumes n (k a rest))
    → Consumes n (p >>= k)
Consumes-bind (parsed a rest) k m n h next = next a rest h
Consumes-bind (thrown e) k m n h next = tt
Consumes-bind exhausted k m n h next = h

pub length-skip_whitespace : (input : List ℕ) → length (skip_whitespace input) ≤ length input
unfolding skip_whitespace
length-skip_whitespace [] = omega arith
length-skip_whitespace (ch ∷ rest) = ground (arith, length-skip_whitespace rest)

length-after_byte :
    (expected : ℕ) (input rest : List ℕ)
    → after_byte expected input ≡ some rest
    → length rest < length input
unfolding after_byte
length-after_byte expected [] rest e = ground arith
length-after_byte expected (ch ∷ input) rest e = elim (Bool-cases (ch == expected)) [
  | inl h ↦ let same : input ≡ rest = ground arith in rw (← same) (omega arith)
  | inr h ↦ absurd (ground arith)
]

pub length-try_consume :
    (expected : ℕ) (input rest : List ℕ)
    → try_consume expected input ≡ some rest
    → length rest < length input
unfolding try_consume
length-try_consume expected input rest e =
    omega (
      arith,
      length-after_byte expected (skip_whitespace input) rest e,
      length-skip_whitespace input,
    )

pub expect-Consumes :
    (expected : ℕ) (input : List ℕ) → Consumes (length input) (expect expected input)
unfolding expect
expect-Consumes expected input = elim (Option-cases (try_consume expected input)) [
  | inl e ↦ rw (e, expect) tt
  | inr (rest, e) ↦ rw (e, expect) (length-try_consume expected input rest e)
]

parse_characters-Consumes :
    (input result : List ℕ) → Consumes (length input) (parse_characters input result)
unfolding parse_characters
parse_characters-Consumes [] result = tt
parse_characters-Consumes (ch ∷ []) result = ground arith
parse_characters-Consumes (ch ∷ (next ∷ rest)) result = elim (Bool-cases (ch == 34)) [
  | inl e ↦ rw (e, parse_characters) (omega arith)
  | inr e ↦ elim (Bool-cases (ch == 92)) [
    | inr n ↦
        rw (e, n, parse_characters)
          (Consumes-weaken (parse_characters (next ∷ rest) (result ++ (ch ∷ [])))
            (length (next ∷ rest)) (length (ch ∷ (next ∷ rest))) (omega arith)
            (parse_characters-Consumes (next ∷ rest) (result ++ (ch ∷ []))))
    | inl n ↦ elim (Option-cases (escaped_byte next)) [
      | inl o ↦ rw (e, n, o, parse_characters) (ground arith)
      | inr (byte, o) ↦
          rw (e, n, o, parse_characters)
            (Consumes-weaken (parse_characters rest (result ++ (byte ∷ []))) (length rest)
              (length (ch ∷ (next ∷ rest))) (omega arith)
              (parse_characters-Consumes rest (result ++ (byte ∷ []))))
    ]
  ]
]

parse_string-Consumes : (input : List ℕ) → Consumes (length input) (parse_string input)
unfolding parse_string
parse_string-Consumes input =
    Consumes-bind (expect 34 input) (λ _ rest. parse_characters rest []) (length input)
      (length input) (expect-Consumes 34 input)
      (λ _ rest h.
        Consumes-weaken (parse_characters rest []) (length rest) (length input) (omega arith)
          (parse_characters-Consumes rest []))

length-take_digits :
    (value : ℕ) (input : List ℕ) → length (take_digits value input).1 ≤ length input
unfolding take_digits
length-take_digits value [] = omega arith
length-take_digits value (ch ∷ rest) = elim (Bool-cases (is_digit ch)) [
  | inl e ↦ rw (e, take_digits) (omega (arith, length-take_digits (value * 10 + (ch - b'0')) rest))
  | inr e ↦ rw (e, take_digits) (omega arith)
]

to_int64-Consumes :
    (minus : Bool) (value : ℕ) (rest : List ℕ)
    → Consumes (suc (length rest)) (to_int64 minus value rest)
unfolding to_int64
to_int64-Consumes false value rest = ground arith
to_int64-Consumes true zero rest = omega arith
to_int64-Consumes true (suc value) rest = ground arith

pub take_digits-digit :
    (value ch : ℕ) (rest : List ℕ)
    → is_digit ch ≡ true
    → take_digits value (ch ∷ rest) ≡ take_digits (value * 10 + (ch - b'0')) rest
unfolding take_digits
take_digits-digit value ch rest e = rw (e, take_digits)

parse_digits-Consumes :
    (minus : Bool) (input : List ℕ) → Consumes (length input) (parse_digits minus input)
unfolding parse_digits
parse_digits-Consumes minus [] = tt
parse_digits-Consumes minus (ch ∷ rest) = elim (Bool-cases (is_digit ch)) [
  | inr e ↦ rw (e, parse_digits) tt
  | inl e ↦
      let number = take_digits (0 * 10 + (ch - b'0')) rest in
      rw (take_digits-digit 0 ch rest e, e, parse_digits)
        (Consumes-weaken (to_int64 minus number.0 number.1) (suc (length number.1))
          (suc (length rest)) (omega (arith, length-take_digits (0 * 10 + (ch - b'0')) rest))
          (to_int64-Consumes minus number.0 number.1))
]

parse_integer-Consumes : (input : List ℕ) → Consumes (length input) (parse_integer input)
unfolding parse_integer
parse_integer-Consumes [] = parse_digits-Consumes false []
parse_integer-Consumes (ch ∷ rest) = elim (Bool-cases (ch == b'-')) [
  | inr e ↦ rw (e, parse_integer) (parse_digits-Consumes false (ch ∷ rest))
  | inl e ↦
      rw (e, parse_integer)
        (Consumes-weaken (parse_digits true rest) (length rest) (suc (length rest)) (omega arith)
          (parse_digits-Consumes true rest))
]

-- A literal is not longer than a text that starts with it.
starts_with-Shorter :
    (value prefix : List ℕ) → starts_with value prefix ≡ true → length prefix ≤ length value
unfolding starts_with
starts_with-Shorter value [] e = omega arith
starts_with-Shorter [] (c ∷ prefix) e = absurd (cc)
starts_with-Shorter (b ∷ value) (c ∷ prefix) e = ground (arith, starts_with-Shorter value prefix)

drop-Consumes :
    (input prefix : List ℕ)
    → 0 < length prefix
    → starts_with input prefix ≡ true
    → length (drop (length prefix) input) < length input
drop-Consumes input prefix ne e =
    omega (arith, length-drop (length prefix) input, starts_with-Shorter input prefix e)

parse_literal-Consumes : (input : List ℕ) → Consumes (length input) (parse_literal input)
unfolding parse_literal
parse_literal-Consumes input = elim (Bool-cases (starts_with input (text "true"))) [
  | inl t ↦ rw (t, parse_literal) (drop-Consumes input (text "true") (unfold text in omega arith) t)
  | inr nt ↦ elim (Bool-cases (starts_with input (text "false"))) [
    | inl f ↦
        rw (nt, f, parse_literal)
          (drop-Consumes input (text "false") (unfold text in omega arith) f)
    | inr nf ↦ elim (Bool-cases (starts_with input (text "null"))) [
      | inl n ↦
          rw (nt, nf, n, parse_literal)
            (drop-Consumes input (text "null") (unfold text in omega arith) n)
      | inr nn ↦ rw (nt, nf, nn, parse_literal) tt
    ]
  ]
]

pub parse_scalar-Consumes :
    (ch : ℕ) (rest : List ℕ) → Consumes (suc (length rest)) (parse_scalar ch rest)
unfolding parse_scalar
parse_scalar-Consumes ch rest = elim (Bool-cases (ch == 34)) [
  | inl q ↦
      rw (q, parse_scalar)
        (Consumes-bind (parse_string (ch ∷ rest)) (λ s left. parsed (string s) left)
          (suc (length rest)) (suc (length rest)) (parse_string-Consumes (ch ∷ rest))
          (λ s left h. h))
  | inr nq ↦ elim (Bool-cases (ch == b'-' || is_digit ch)) [
    | inl d ↦
        rw (nq, d, parse_scalar)
          (Consumes-bind (parse_integer (ch ∷ rest)) (λ n left. parsed (integer n) left)
            (suc (length rest)) (suc (length rest)) (parse_integer-Consumes (ch ∷ rest))
            (λ n left h. h))
    | inr nd ↦ rw (nq, nd, parse_scalar) (parse_literal-Consumes (ch ∷ rest))
  ]
]

pub parse_key-Consumes : (input : List ℕ) → Consumes (length input) (parse_key input)
unfolding parse_key
parse_key-Consumes input = keyed (skip_whitespace input) refl
  where
    after_key :
        (key left : List ℕ)
        → Consumes (length left) (expect b':' left >>= (λ _ after. parsed key after))
    after_key key left =
        Consumes-bind (expect b':' left) (λ _ after. parsed key after) (length left) (length left)
          (expect-Consumes b':' left) (λ _ after h. h)

    keyed :
        (skipped : List ℕ)
        → skip_whitespace input ≡ skipped
        → Consumes (length input) (parse_key input)
    keyed [] e = rw (e, parse_key) tt
    keyed (ch ∷ rest) e = elim (Bool-cases (ch == 34)) [
      | inr n ↦ rw (e, n, parse_key) tt
      | inl q ↦
          let shorter : length (ch ∷ rest) ≤ length input =
            omega (arith, length-skip_whitespace input, ap (λ (t : List ℕ). length t) e) in
          rw (e, q, parse_key)
            (Consumes-bind (parse_string (ch ∷ rest))
              (λ key left. expect b':' left >>= (λ _ after. parsed key after)) (length (ch ∷ rest))
              (length input) (parse_string-Consumes (ch ∷ rest))
              (λ key left h.
                Consumes-weaken (expect b':' left >>= (λ _ after. parsed key after)) (length left)
                  (length input) (omega arith) (after_key key left)))
    ]
