-- ===== src/Base/Weights.antt =====
-- Sums over the entries of a map, and the number of its entries.
use mathlib.Core.Path.{◌≡◌}
use mathlib.Core.Option.{none, some}
use mathlib.Core.List.{List, [], ◌∷◌}
use Prim.Native.Nat.{ℕ, ◌+◌, ◌≤◌}
use native.Mathlib.Omega.{arith}
use nemotron_inference.Base.Lists.{length}
use nemotron_inference.Base.Maps.{Key, find, emplace, erase, modify}

module _ {ℓ κ} {K : Type ℓ} {V : Type κ} ⦃e : Key K⦄ where
  -- The sum of a number over the entries.
  unfoldable pub weight : (V → ℕ) → List (K × V) → ℕ
  weight w [] = 0
  weight w ((k, v) ∷ m) = w v + weight w m

  pub weight-emplace :
      (w : V → ℕ) (k : K) (v : V) (m : List (K × V))
      → find k m ≡ none
      → weight w (emplace k v m) ≡ w v + weight w m
  unfolding weight emplace
  weight-emplace w k v m h = rw (h, emplace)

  pub weight-erase :
      (w : V → ℕ) (k : K) (v : V) (m : List (K × V))
      → find k m ≡ some v
      → weight w (erase k m) + w v ≡ weight w m
  unfolding weight erase find
  weight-erase w k v [] h = cc
  weight-erase w k v ((i, x) ∷ m) h = ground (arith, weight-erase w k v m)

  pub weight-modify :
      (w : V → ℕ) (k : K) (f : V → V) (v : V) (m : List (K × V))
      → find k m ≡ some v
      → weight w (modify k f m) + w v ≡ weight w m + w (f v)
  unfolding weight modify find
  weight-modify w k f v [] h = cc
  weight-modify w k f v ((i, x) ∷ m) h = ground (arith, weight-modify w k f v m)

  -- An entry weighs no more than the map.
  pub weight-find-le :
      (w : V → ℕ) (k : K) (v : V) (m : List (K × V)) → find k m ≡ some v → w v ≤ weight w m
  weight-find-le w k v m h = omega (arith, weight-erase w k v m h)

  pub length-erase :
      (k : K) (v : V) (m : List (K × V)) → find k m ≡ some v → length (erase k m) + 1 ≡ length m
  unfolding erase find
  length-erase k v [] h = cc
  length-erase k v ((i, x) ∷ m) h = ground (arith, length-erase k v m)
