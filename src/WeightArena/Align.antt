-- ===== src/WeightArena/Align.antt =====
-- AlignUp goes to the next multiple.
use native.Mathlib.Nat.{mod-lt, mod-add-mod, mod_self}
use nemotron_inference.Base.{
  ℕ, ◌+◌, ◌-◌, ◌%◌, ◌<◌, ◌≤◌, ◌≡◌, ◌≢◌, ap, sym, ◌∙◌, inl, inr, false, arith, ◌==◌, add64, word,
  Bool-cases,
}
use nemotron_inference.WeightArena.{align_up}

fill_up :
    (value alignment : ℕ)
    → 0 < alignment
    → (value + (alignment - value % alignment)) % alignment ≡ 0
fill_up value alignment positive =
    let below = mod-lt value {m = alignment} positive in
    let whole : value % alignment + (alignment - value % alignment) ≡ alignment = omega arith in
    sym (mod-add-mod value alignment (alignment - value % alignment))
    ∙ (ap (λ (t : ℕ). t % alignment) whole ∙ mod_self alignment)

-- Where the sum of the two is a word, the result is a multiple, and less than one alignment further on.
pub align_up-next :
    (value alignment : ℕ)
    → 0 < alignment
    → value + alignment < word
    → (align_up value alignment % alignment ≡ 0)
      × (value ≤ align_up value alignment)
      × (align_up value alignment < value + alignment)
unfolding align_up
align_up-next value alignment positive fits =
    let nonzero : alignment == 0 ≡ false = ground arith in
    let below = mod-lt value {m = alignment} positive in
    let filled = fill_up value alignment positive in
    elim (Bool-cases (value % alignment == 0)) [
      | inl e ↦ rw (nonzero, e, align_up) (ground arith)
      | inr e ↦
          let r : value % alignment ≢ 0 = ground arith in
          let small : add64 value (alignment - value % alignment)
              ≡ value + (alignment - value % alignment) =
            omega arith in
          rw (nonzero, e, align_up, small) (filled, omega arith, omega arith)
    ]
