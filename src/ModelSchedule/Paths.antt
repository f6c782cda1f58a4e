-- ===== src/ModelSchedule/Paths.antt =====
-- ParseLayerPath reads back the names of a layer's tensors.
use nemotron_inference.Base.{
  ℕ, ◌+◌, ◌-◌, ◌*◌, ◌<◌, ◌≤◌, ◌≡◌, ◌≢◌, refl, true, false, List, [], ◌∷◌, ◌++◌, some, arith, add64,
  mul64, word, drop-append, text, to_string, fold_digits, IsDigits, IsNumeral,
  fold_digits-to_string, to_string-IsNumeral,
}
use nemotron_inference.ModelSchedule.{
  starts_with, is_digit, read_digits, finish_path, parse_index, parse_layer_path,
}

pub starts_with-append : (prefix rest : List ℕ) → starts_with (prefix ++ rest) prefix ≡ true
unfolding starts_with
starts_with-append [] rest = refl
starts_with-append (c ∷ prefix) rest = ground (arith, starts_with-append prefix rest)

pub is_digit-true : (ch : ℕ) → b'0' ≤ ch → ch ≤ b'9' → is_digit ch ≡ true
unfolding is_digit
is_digit-true ch lo hi = ground arith

abbrev digit_step : ℕ → ℕ → ℕ
digit_step m ch = add64 (mul64 m 10) (ch - b'0')

read_digits-fold_digits :
    (acc : ℕ) (xs : List ℕ) (ch : ℕ) (rest : List ℕ)
    → IsDigits xs
    → is_digit ch ≡ false
    → read_digits acc (xs ++ (ch ∷ rest)) ≡ (fold_digits digit_step acc xs, ch ∷ rest)
unfolding read_digits
read_digits-fold_digits acc [] ch rest h e = rw (e, read_digits)
read_digits-fold_digits acc (x ∷ xs) ch rest h e =
    rw (is_digit-true x h.0.0 h.0.1, read_digits)
      (read_digits-fold_digits (digit_step acc x) xs ch rest h.1 e)

digit_step-appends :
    (m d : ℕ) → d < 10 → m * 10 + d ≤ word - 1 → digit_step m (b'0' + d) ≡ m * 10 + d
digit_step-appends m d small fits = omega arith

parse_index-IsNumeral :
    (xs rest : List ℕ)
    → IsNumeral xs
    → parse_index (xs ++ rest) ≡ finish_path (read_digits 0 (xs ++ rest))
unfolding parse_index
parse_index-IsNumeral [] rest h = absurd h
parse_index-IsNumeral (ch ∷ xs) rest h = rw (is_digit-true ch h.0.0 h.0.1, parse_index)

IsNumeral-IsDigits : (xs : List ℕ) → IsNumeral xs → IsDigits xs
IsNumeral-IsDigits [] h = absurd h
IsNumeral-IsDigits (ch ∷ xs) h = h

abbrev dotted : ℕ → List ℕ → List ℕ
dotted layer_index local_name = to_string layer_index ++ (b'.' ∷ local_name)

parse_index-dotted :
    (layer_index first : ℕ) (rest : List ℕ)
    → layer_index < word
    → parse_index (dotted layer_index (first ∷ rest))
      ≡ some (record { layer_index = layer_index; local_name = first ∷ rest })
unfolding finish_path is_digit
parse_index-dotted layer_index first rest fits =
    let numeral = to_string-IsNumeral layer_index in
    let number =
      fold_digits-to_string digit_step (word - 1) layer_index digit_step-appends (omega arith) in
    rw (
      parse_index-IsNumeral (to_string layer_index) (b'.' ∷ (first ∷ rest)) numeral,
      read_digits-fold_digits 0 (to_string layer_index) b'.' (first ∷ rest)
          (IsNumeral-IsDigits (to_string layer_index) numeral) refl,
      number,
    )

not_backbone :
    (rest : List ℕ) → starts_with (text "layers." ++ rest) (text "backbone.layers.") ≡ false
unfolding starts_with text
not_backbone rest = refl

-- The two ways to write the name of a layer's tensor.
abbrev pub short_name : ℕ → List ℕ → List ℕ
short_name layer_index local_name = text "layers." ++ dotted layer_index local_name

abbrev pub backbone_name : ℕ → List ℕ → List ℕ
backbone_name layer_index local_name = text "backbone.layers." ++ dotted layer_index local_name

parse_layer_path-backbone_name :
    (layer_index first : ℕ) (rest : List ℕ)
    → layer_index < word
    → parse_layer_path (backbone_name layer_index (first ∷ rest))
      ≡ some (record { layer_index = layer_index; local_name = first ∷ rest })
unfolding parse_layer_path
parse_layer_path-backbone_name layer_index first rest fits =
    rw
      (
        starts_with-append (text "backbone.layers.") (dotted layer_index (first ∷ rest)),
        drop-append (text "backbone.layers.") (dotted layer_index (first ∷ rest)),
      )
      (parse_index-dotted layer_index first rest fits)

parse_layer_path-short_name :
    (layer_index first : ℕ) (rest : List ℕ)
    → layer_index < word
    → parse_layer_path (short_name layer_index (first ∷ rest))
      ≡ some (record { layer_index = layer_index; local_name = first ∷ rest })
unfolding parse_layer_path
parse_layer_path-short_name layer_index first rest fits =
    rw
      (
        not_backbone (dotted layer_index (first ∷ rest)),
        starts_with-append (text "layers.") (dotted layer_index (first ∷ rest)),
        drop-append (text "layers.") (dotted layer_index (first ∷ rest)),
      )
      (parse_index-dotted layer_index first rest fits)

-- ParseLayerPath reads the decimal index and the local name back from both ways to write a layer's
-- tensor, for an index that is a word and a local name that is not empty.
pub parse_layer_path-reads_back :
    (layer_index : ℕ) (local_name : List ℕ)
    → layer_index < word
    → local_name ≢ []
    → (parse_layer_path (short_name layer_index local_name)
        ≡ some (record { layer_index = layer_index; local_name = local_name }))
      × (parse_layer_path (backbone_name layer_index local_name)
          ≡ some (record { layer_index = layer_index; local_name = local_name }))
parse_layer_path-reads_back layer_index [] fits ne = absurd (ne refl)
parse_layer_path-reads_back layer_index (first ∷ rest) fits ne = (
  parse_layer_path-short_name layer_index first rest fits,
  parse_layer_path-backbone_name layer_index first rest fits,
)
