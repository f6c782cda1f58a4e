-- ===== src/MemoryBudget/Printed.antt =====
-- A line that the kernel prints is read back.
use nemotron_inference.Base.{
  ℕ, zero, suc, ◌<◌, ◌≡◌, refl, ap, ◌∙◌, true, false, List, [], ◌∷◌, ◌++◌, none, some, arith, ◌==◌,
  word, mul64, drop-append, append_nil, append_assoc, replicate, text, str_eq, to_string,
  to_string-IsNumeral, fold_digits-to_string, IsNumeral, IsDigits, fold_digits,
}
use nemotron_inference.ModelSchedule.{starts_with, is_digit}
use nemotron_inference.ModelSchedule.Paths.{starts_with-append, is_digit-true}
use nemotron_inference.Json.{is_space, skip_whitespace}
use nemotron_inference.Json.Scalars.{take_digits-fold_digits, digit_step, digit_step-appends}
use nemotron_inference.MemoryBudget.Meminfo.{
  read_unsigned, read_size, take_word, read_word, parse_meminfo_line, get_lines, scan_lines,
}

skip_whitespace-numeral :
    (spaces : ℕ) (xs tail : List ℕ)
    → IsNumeral xs
    → skip_whitespace (replicate spaces 32 ++ (xs ++ tail)) ≡ xs ++ tail
unfolding skip_whitespace is_space
skip_whitespace-numeral spaces [] tail h = absurd h
skip_whitespace-numeral zero (ch ∷ xs) tail h = ground arith
skip_whitespace-numeral (suc spaces) (ch ∷ xs) tail h =
    skip_whitespace-numeral spaces (ch ∷ xs) tail h

read_unsigned-IsNumeral :
    (xs : List ℕ) (n : ℕ)
    → IsNumeral xs
    → fold_digits digit_step 0 xs ≡ n
    → n < word
    → read_unsigned false (xs ++ text " kB") ≡ some (n, text " kB")
unfolding read_unsigned text is_digit
read_unsigned-IsNumeral [] n h e fits = absurd h
read_unsigned-IsNumeral (ch ∷ xs) n h e fits =
    let digit = is_digit-true ch h.0.0 h.0.1 in
    let taken = take_digits-fold_digits 0 (ch ∷ xs) (text " kB") h refl in
    ground (arith, digit, taken, e)

read_size-numeral :
    (spaces : ℕ) (xs : List ℕ) (n : ℕ)
    → IsNumeral xs
    → fold_digits digit_step 0 xs ≡ n
    → n < word
    → read_size (replicate spaces 32 ++ (xs ++ text " kB")) ≡ some (n, text " kB")
unfolding read_size
read_size-numeral spaces [] n h e fits = absurd h
read_size-numeral spaces (ch ∷ xs) n h e fits =
    let unsigned = read_unsigned-IsNumeral (ch ∷ xs) n h e fits in
    rw (skip_whitespace-numeral spaces (ch ∷ xs) (text " kB") h, read_size)
      (ground (arith, unsigned))

-- A line of /proc/meminfo.
unfoldable pub printed : List ℕ → ℕ → ℕ → List ℕ
printed key spaces n = key ++ (replicate spaces 32 ++ (to_string n ++ text " kB"))

unit_read : str_eq (read_word (text " kB")) (text "kB") ≡ true
unfolding str_eq read_word take_word skip_whitespace is_space text
unit_read = refl

pub parse_meminfo_line-printed :
    (key : List ℕ) (spaces n : ℕ)
    → n < word
    → parse_meminfo_line (printed key spaces n) key ≡ some (mul64 n 1024)
unfolding parse_meminfo_line printed
parse_meminfo_line-printed key spaces n fits =
    let line = replicate spaces 32 ++ (to_string n ++ text " kB") in
    rw (
      starts_with-append key line,
      drop-append key line,
      read_size-numeral spaces (to_string n) n (to_string-IsNumeral n)
          (fold_digits-to_string digit_step n n (digit_step-appends n) (omega arith)) fits,
      unit_read,
      parse_meminfo_line,
    )

pub unread : (key line : List ℕ) → starts_with line key ≡ false → parse_meminfo_line line key ≡ none
unfolding parse_meminfo_line
unread key line e = rw (e, parse_meminfo_line)

-- The file of these lines.
unfoldable pub contents_of : List (List ℕ) → List ℕ
contents_of [] = []
contents_of (line ∷ rest) = line ++ (10 ∷ contents_of rest)

abbrev pub OneLine : List ℕ → Type 0
OneLine [] = Unit
OneLine (ch ∷ rest) = (ch == 10 ≡ false) × OneLine rest

get_lines-line :
    (before line rest : List ℕ)
    → OneLine line
    → get_lines before (line ++ (10 ∷ rest)) ≡ (before ++ line) ∷ get_lines [] rest
unfolding get_lines
get_lines-line [] [] rest h = refl
get_lines-line (b ∷ before) [] rest h = rw (append_nil before)
get_lines-line before (ch ∷ line) rest h =
    rw (h.0, get_lines)
      (get_lines-line (before ++ (ch ∷ [])) line rest h.1
        ∙ ap (λ l. l ∷ get_lines [] rest) (append_assoc before (ch ∷ []) line))

abbrev pub AllOneLine : List (List ℕ) → Type 0
AllOneLine [] = Unit
AllOneLine (line ∷ rest) = OneLine line × AllOneLine rest

pub get_lines-contents_of :
    (lines : List (List ℕ)) → AllOneLine lines → get_lines [] (contents_of lines) ≡ lines
unfolding contents_of get_lines
get_lines-contents_of [] h = refl
get_lines-contents_of (line ∷ rest) h =
    get_lines-line [] line (contents_of rest) h.0
    ∙ ap (λ l. line ∷ l) (get_lines-contents_of rest h.1)

-- A line that says something else.
abbrev pub OtherLine : List ℕ → Type 0
OtherLine line =
    OneLine line
    × ((starts_with line (text "MemAvailable:") ≡ false)
        × (starts_with line (text "SwapFree:") ≡ false))

abbrev pub OtherLines : List (List ℕ) → Type 0
OtherLines [] = Unit
OtherLines (line ∷ rest) = OtherLine line × OtherLines rest

pub scan_lines-OtherLines :
    (lines rest : List (List ℕ)) (mem_available swap_free : ℕ)
    → OtherLines lines
    → scan_lines (lines ++ rest) mem_available swap_free ≡ scan_lines rest mem_available swap_free
unfolding scan_lines
scan_lines-OtherLines [] rest a s h = refl
scan_lines-OtherLines (line ∷ lines) rest a s h =
    rw
      (
        unread (text "MemAvailable:") line h.0.1.0,
        unread (text "SwapFree:") line h.0.1.1,
        scan_lines,
      )
      (scan_lines-OtherLines lines rest a s h.1)

pub OtherLines-append :
    (lines rest : List (List ℕ)) → OtherLines lines → AllOneLine rest → AllOneLine (lines ++ rest)
OtherLines-append [] rest h r = r
OtherLines-append (line ∷ lines) rest h r = (h.0.0, OtherLines-append lines rest h.1 r)

OneLine-append : (xs ys : List ℕ) → OneLine xs → OneLine ys → OneLine (xs ++ ys)
OneLine-append [] ys h r = r
OneLine-append (ch ∷ xs) ys h r = (h.0, OneLine-append xs ys h.1 r)

OneLine-replicate : (spaces : ℕ) → OneLine (replicate spaces 32)
OneLine-replicate zero = tt
OneLine-replicate (suc spaces) = (refl, OneLine-replicate spaces)

IsDigits-OneLine : (xs : List ℕ) → IsDigits xs → OneLine xs
IsDigits-OneLine [] h = tt
IsDigits-OneLine (ch ∷ xs) h = let digit = h.0.0 in (ground arith, IsDigits-OneLine xs h.1)

IsNumeral-OneLine : (xs : List ℕ) → IsNumeral xs → OneLine xs
IsNumeral-OneLine [] h = absurd h
IsNumeral-OneLine (ch ∷ xs) h = IsDigits-OneLine (ch ∷ xs) h

unit_line : OneLine (text " kB")
unfolding text
unit_line = (refl, (refl, (refl, tt)))

pub printed-OneLine : (key : List ℕ) (spaces n : ℕ) → OneLine key → OneLine (printed key spaces n)
unfolding printed
printed-OneLine key spaces n h =
    OneLine-append key (replicate spaces 32 ++ (to_string n ++ text " kB")) h (
      OneLine-append (replicate spaces 32) (to_string n ++ text " kB") (OneLine-replicate spaces) (
        OneLine-append (to_string n) (text " kB")
          (IsNumeral-OneLine (to_string n) (to_string-IsNumeral n)) unit_line))
