-- ===== src/Base/Texts.antt =====
-- Literals of the source as lists of bytes, std::string::empty, and std::unordered_set as a list.
use Prim.Native.Char.{code}
use Prim.Native.String.{String}
use mathlib.Core.Path.{◌≡◌, refl}
use mathlib.Core.Bool.{Bool, true, false}
use mathlib.Core.Logic.{◌↔◌, ◌⊎◌}
use mathlib.Core.List.{List, [], ◌∷◌}
use Prim.Native.Nat.{ℕ}
use native.Mathlib.Omega.{arith}
use nemotron_inference.Base.Tests.{if◌then◌else◌}
use nemotron_inference.Base.Maps.{Key}

-- The literals are ASCII. A text stays shut in proofs.
unfoldable pub text : String → List ℕ
text String.[] = []
text (String.◌∷◌ c s) = code c ∷ text s

abbrev pub is_empty {ℓ} : {A : Type ℓ} → List A → Bool
is_empty [] = true
is_empty (_ ∷ _) = false

pub is_empty_iff {ℓ} : {A : Type ℓ} (xs : List A) → (is_empty xs ≡ true) ↔ (xs ≡ [])
is_empty_iff [] = (λ e. refl, λ e. refl)
is_empty_iff (x ∷ xs) = (λ e. absurd (cc), λ e. absurd (cc))

module _ {K : Type 0} ⦃e : Key K⦄ where
  -- names.count(name) != 0
  unfoldable pub member : K → List K → Bool
  member k [] = false
  member k (j ∷ rest) = if e.same j k then true else member k rest

  abbrev pub Among : K → List K → Type 0
  Among k [] = ⊥
  Among k (j ∷ rest) = (j ≡ k) ⊎ Among k rest

  pub member_iff : (k : K) (keys : List K) → (member k keys ≡ true) ↔ Among k keys
  unfolding member
  member_iff k [] = ground arith
  member_iff k (j ∷ rest) = ground (arith, e.same_iff j k, member_iff k rest)
