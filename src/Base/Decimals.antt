-- ===== src/Base/Decimals.antt =====
-- std::to_string of an unsigned number.
use Prim.Native.Nat.{ℕ, zero, suc, ◌+◌, ◌-◌, ◌*◌, ◌/◌, ◌%◌, ◌<◌, ◌≤◌}
use mathlib.Core.Path.{◌≡◌, refl, sym, ap, ◌∙◌}
use mathlib.Core.Logic.{inl, inr}
use mathlib.Core.Bool.{true, false}
use mathlib.Core.List.{List, [], ◌∷◌, ◌++◌}
use native.Mathlib.Omega.{arith}
use nemotron_inference.Base.Tests.{ltb, Bool-cases}

-- The fuel bounds the number of digits.
unfoldable pub decimal : ℕ → ℕ → List ℕ
decimal zero n = []
decimal (suc fuel) n = elim (ltb n 10) [
  | true ↦ (b'0' + n) ∷ []
  | false ↦ decimal fuel (n / 10) ++ ((b'0' + n % 10) ∷ [])
]

unfoldable pub to_string : ℕ → List ℕ
to_string n = decimal (suc n) n

-- A loop over the digits of a number, from the first one on.
abbrev pub fold_digits : (ℕ → ℕ → ℕ) → ℕ → List ℕ → ℕ
fold_digits step acc [] = acc
fold_digits step acc (ch ∷ rest) = fold_digits step (step acc ch) rest

abbrev pub IsDigits : List ℕ → Type 0
IsDigits [] = Unit
IsDigits (ch ∷ rest) = ((b'0' ≤ ch) × (ch ≤ b'9')) × IsDigits rest

fold_digits-append :
    (step : ℕ → ℕ → ℕ) (acc : ℕ) (xs : List ℕ) (ch : ℕ)
    → fold_digits step acc (xs ++ (ch ∷ [])) ≡ step (fold_digits step acc xs) ch
fold_digits-append step acc [] ch = refl
fold_digits-append step acc (x ∷ xs) ch = fold_digits-append step (step acc x) xs ch

IsDigits-append :
    (xs : List ℕ) (ch : ℕ) → IsDigits xs → b'0' ≤ ch → ch ≤ b'9' → IsDigits (xs ++ (ch ∷ []))
IsDigits-append [] ch h lo hi = ((lo, hi), tt)
IsDigits-append (x ∷ xs) ch h lo hi = (h.0, IsDigits-append xs ch h.1 lo hi)

decimal-IsDigits : (fuel n : ℕ) → IsDigits (decimal fuel n)
unfolding decimal
decimal-IsDigits zero n = tt
decimal-IsDigits (suc fuel) n = elim (Bool-cases (ltb n 10)) [
  | inl e ↦ rw (e, decimal) ((omega arith, ground arith), tt)
  | inr e ↦
      rw (e, decimal)
        (IsDigits-append (decimal fuel (n / 10)) (b'0' + n % 10) (decimal-IsDigits fuel (n / 10))
          (omega arith) (omega arith))
]

-- A step that appends a digit, as long as the numbers stay within a bound.
abbrev pub Appends : (ℕ → ℕ → ℕ) → ℕ → Type 0
Appends step bound = (m d : ℕ) → d < 10 → m * 10 + d ≤ bound → step m (b'0' + d) ≡ m * 10 + d

fold_digits-decimal :
    (step : ℕ → ℕ → ℕ) (bound fuel n : ℕ)
    → Appends step bound
    → n ≤ bound
    → n < fuel
    → fold_digits step 0 (decimal fuel n) ≡ n
unfolding decimal
fold_digits-decimal step bound zero n appends fits enough = absurd (omega arith)
fold_digits-decimal step bound (suc fuel) n appends fits enough = elim (Bool-cases (ltb n 10)) [
  | inl e ↦
      let small : n < 10 = ground arith in
      let stepped = appends 0 n small (omega arith) in rw (e, decimal) (omega (arith, stepped))
  | inr e ↦
      let large : 10 ≤ n = ground arith in
      let ih = fold_digits-decimal step bound fuel (n / 10) appends (omega arith) (omega arith) in
      let stepped = appends (n / 10) (n % 10) (omega arith) (omega arith) in
      rw (e, decimal, fold_digits-append step 0 (decimal fuel (n / 10)) (b'0' + n % 10), ih)
        (omega (arith, stepped))
]

pub fold_digits-to_string :
    (step : ℕ → ℕ → ℕ) (bound n : ℕ)
    → Appends step bound
    → n ≤ bound
    → fold_digits step 0 (to_string n) ≡ n
unfolding to_string
fold_digits-to_string step bound n appends fits =
    fold_digits-decimal step bound (suc n) n appends fits (omega arith)

-- A number is printed as at least one digit.
abbrev pub IsNumeral : List ℕ → Type 0
IsNumeral [] = ⊥
IsNumeral (ch ∷ rest) = ((b'0' ≤ ch) × (ch ≤ b'9')) × IsDigits rest

IsNumeral-append : (xs : List ℕ) (ch : ℕ) → IsDigits (xs ++ (ch ∷ [])) → IsNumeral (xs ++ (ch ∷ []))
IsNumeral-append [] ch h = h
IsNumeral-append (x ∷ xs) ch h = h

pub to_string-IsNumeral : (n : ℕ) → IsNumeral (to_string n)
unfolding to_string decimal
to_string-IsNumeral n = elim (Bool-cases (ltb n 10)) [
  | inl e ↦ rw (e, decimal) ((omega arith, ground arith), tt)
  | inr e ↦
      rw (e, decimal)
        (IsNumeral-append (decimal n (n / 10)) (b'0' + n % 10) (
          IsDigits-append (decimal n (n / 10)) (b'0' + n % 10) (decimal-IsDigits n (n / 10))
            (omega arith) (omega arith)))
]

-- The value of the digits gives the number back.
read_back :
    (bound n : ℕ) → n ≤ bound → fold_digits (λ m ch. m * 10 + (ch - b'0')) 0 (to_string n) ≡ n
read_back bound n fits =
    fold_digits-to_string (λ m ch. m * 10 + (ch - b'0')) bound n (λ m d small le. omega arith) fits

pub to_string-injective : (m n : ℕ) → to_string m ≡ to_string n → m ≡ n
to_string-injective m n e =
    sym (read_back m m (omega arith))
    ∙ (ap (fold_digits (λ m ch. m * 10 + (ch - b'0')) 0) e ∙ read_back n n (omega arith))
