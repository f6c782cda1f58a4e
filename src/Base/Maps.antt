-- ===== src/Base/Maps.antt =====
-- std::unordered_map as an association list. The order of the entries stands for the iteration
-- order, which C++ leaves open; no entry is looked up by its position.
use mathlib.Core.Path.{◌≡◌, refl, subst}
use mathlib.Core.Bool.{Bool, true, false}
use mathlib.Core.Logic.{◌↔◌}
use mathlib.Core.Option
use mathlib.Core.Option.{Option, none, some}
use mathlib.Core.List.{List, [], ◌∷◌, ◌++◌}
use Prim.Native.Nat.{ℕ}
use native.Mathlib.Omega.{arith}
use mathlib.Core.Logic.{inl, inr}
use nemotron_inference.Base.Tests.{Bool-cases, Option-cases, if◌then◌else◌, ==_iff, ◌==◌}

-- The equality of a key type, as a test.
pub record Key {ℓ} (K : Type ℓ) : Type ℓ where
  pub same : K → K → Bool
  pub same_iff : (a b : K) → (same a b ≡ true) ↔ (a ≡ b)

abbrev nat_same : ℕ → ℕ → Bool
nat_same a b = a == b

instance abbrev pub nat_key : Key ℕ
nat_key = record { same = nat_same; same_iff = ==_iff }

-- std::string is the list of its bytes.
unfoldable pub str_eq : List ℕ → List ℕ → Bool
str_eq [] [] = true
str_eq [] (_ ∷ _) = false
str_eq (_ ∷ _) [] = false
str_eq (a ∷ s) (b ∷ t) = if a == b then str_eq s t else false

str_eq→eq : (s t : List ℕ) → str_eq s t ≡ true → s ≡ t
unfolding str_eq
str_eq→eq [] [] h = refl
str_eq→eq [] (_ ∷ _) h = cc
str_eq→eq (_ ∷ _) [] h = cc
str_eq→eq (a ∷ s) (b ∷ t) h = ground (arith, str_eq→eq s t)

str_eq_refl : (s : List ℕ) → str_eq s s ≡ true
unfolding str_eq
str_eq_refl [] = refl
str_eq_refl (a ∷ s) = ground (arith, str_eq_refl s)

pub str_eq_iff : (s t : List ℕ) → (str_eq s t ≡ true) ↔ (s ≡ t)
str_eq_iff s t = (str_eq→eq s t, λ e. rw (← e) (str_eq_refl s))

instance abbrev pub string_key : Key (List ℕ)
string_key = record { same = str_eq; same_iff = str_eq_iff }

pub same_refl {ℓ} : {K : Type ℓ} ⦃e : Key K⦄ (k : K) → e.same k k ≡ true
same_refl ⦃e⦄ k = (e.same_iff k k).1 refl

module _ {ℓ κ} {K : Type ℓ} {V : Type κ} ⦃e : Key K⦄ where
  unfoldable pub find : K → List (K × V) → Option V
  find k [] = none
  find k ((j, v) ∷ m) = if e.same j k then some v else find k m

  -- m.emplace(k, v): an entry that is there stays.
  unfoldable pub emplace : K → V → List (K × V) → List (K × V)
  emplace k v m = elim (find k m) [ none ↦ (k, v) ∷ m | some _ ↦ m ]

  -- m[k] = v
  unfoldable pub assign : K → V → List (K × V) → List (K × V)
  assign k v [] = (k, v) ∷ []
  assign k v ((j, w) ∷ m) = if e.same j k then (j, v) ∷ m else (j, w) ∷ assign k v m

  -- A write through the iterator that m.find(k) returned.
  unfoldable pub modify : K → (V → V) → List (K × V) → List (K × V)
  modify k f [] = []
  modify k f ((j, w) ∷ m) = if e.same j k then (j, f w) ∷ m else (j, w) ∷ modify k f m

  unfoldable pub erase : K → List (K × V) → List (K × V)
  erase k [] = []
  erase k ((j, w) ∷ m) = if e.same j k then m else (j, w) ∷ erase k m

  -- No key occurs twice.
  abbrev pub Distinct : List (K × V) → Type κ
  Distinct [] = Unit
  Distinct ((k, v) ∷ m) = (find k m ≡ none) × Distinct m

  pub find-cons :
      (k j : K) (v : V) (m : List (K × V))
      → find j ((k, v) ∷ m) ≡ (if e.same k j then some v else find j m)
  unfolding find
  find-cons k j v m = refl

  pub find-emplace :
      (k j : K) (v : V) (m : List (K × V))
      → find k m ≡ none
      → find j (emplace k v m) ≡ (if e.same k j then some v else find j m)
  unfolding find emplace
  find-emplace k j v m h = rw (h, emplace)

  pub find-assign :
      (k j : K) (v : V) (m : List (K × V))
      → find j (assign k v m) ≡ (if e.same k j then some v else find j m)
  unfolding find assign
  find-assign k j v [] = refl
  find-assign k j v ((i, w) ∷ m) =
      ground (arith, e.same_iff k j, e.same_iff i k, e.same_iff i j, find-assign k j v m)

  pub find-modify :
      (k j : K) (f : V → V) (m : List (K × V))
      → find j (modify k f m) ≡ (if e.same k j then Option.map f (find j m) else find j m)
  unfolding find modify
  find-modify k j f [] = ground arith
  find-modify k j f ((i, w) ∷ m) =
      ground (arith, e.same_iff k j, e.same_iff i k, e.same_iff i j, find-modify k j f m)

  pub find-erase :
      (k j : K) (m : List (K × V))
      → Distinct m
      → find j (erase k m) ≡ (if e.same k j then none else find j m)
  unfolding find erase
  find-erase k j [] d = ground arith
  find-erase k j ((i, w) ∷ m) d =
      ground (arith, e.same_iff k j, e.same_iff i k, e.same_iff i j, find-erase k j m d.1)

  pub emplace-Distinct : (k : K) (v : V) (m : List (K × V)) → Distinct m → Distinct (emplace k v m)
  unfolding emplace
  emplace-Distinct k v m d = ground arith

  pub assign-Distinct : (k : K) (v : V) (m : List (K × V)) → Distinct m → Distinct (assign k v m)
  unfolding assign find
  assign-Distinct k v [] d = (refl, tt)
  assign-Distinct k v ((i, w) ∷ m) d =
      ground (arith, assign-Distinct k v m d.1, find-assign k i v m, e.same_iff k i, e.same_iff i k)

  pub modify-Distinct :
      (k : K) (f : V → V) (m : List (K × V)) → Distinct m → Distinct (modify k f m)
  unfolding modify find
  modify-Distinct k f [] d = tt
  modify-Distinct k f ((i, w) ∷ m) d =
      ground (arith, modify-Distinct k f m d.1, find-modify k i f m, e.same_iff k i, e.same_iff i k)

  pub erase-Distinct : (k : K) (m : List (K × V)) → Distinct m → Distinct (erase k m)
  unfolding erase find
  erase-Distinct k [] d = tt
  erase-Distinct k ((i, w) ∷ m) d =
      ground (arith, erase-Distinct k m d.1, find-erase k i m d.1, e.same_iff k i, e.same_iff i k)

  -- A write that a second write takes back.
  pub modify_undo :
      (k : K) (f g : V → V) (v : V) (m : List (K × V))
      → find k m ≡ some v
      → g (f v) ≡ v
      → modify k g (modify k f m) ≡ m
  unfolding find modify
  modify_undo k f g v [] h back = refl
  modify_undo k f g v ((j, w) ∷ m) h back = elim (Bool-cases (e.same j k)) [
    | inl hit ↦ ground arith
    | inr miss ↦ ground (arith, modify_undo k f g v m)
  ]

  -- A fresh entry that is erased again.
  pub erase-emplace :
      (k : K) (v : V) (m : List (K × V)) → find k m ≡ none → erase k (emplace k v m) ≡ m
  unfolding erase emplace
  erase-emplace k v m absent = rw (absent, emplace) (ground (arith, same_refl k))

  -- Writes under two keys commute.
  pub modify_comm :
      (k j : K) (f g : V → V) (m : List (K × V))
      → e.same k j ≡ false
      → modify k f (modify j g m) ≡ modify j g (modify k f m)
  unfolding modify
  modify_comm k j f g [] ne = refl
  modify_comm k j f g ((i, w) ∷ m) ne =
      ground (arith, modify_comm k j f g m, e.same_iff i k, e.same_iff i j, e.same_iff k j)

  pub emplace_there : (k : K) (v w : V) (m : List (K × V)) → find k m ≡ some w → emplace k v m ≡ m
  unfolding emplace
  emplace_there k v w m h = rw (h, emplace)

  -- An entry stays, whatever is emplaced.
  pub find-emplace_kept :
      (k j : K) (v w : V) (m : List (K × V)) → find j m ≡ some w → find j (emplace k v m) ≡ some w
  unfolding emplace
  find-emplace_kept k j v w m found = elim (Option-cases (find k m)) [
    | inr (u, h) ↦ rw (h, emplace) found
    | inl h ↦ elim (Bool-cases (e.same k j)) [
      | inr other ↦ ground (arith, find-emplace k j v m h)
      | inl hit ↦
          let same : k ≡ j = (e.same_iff k j).0 hit in
          let gone : find j m ≡ none = subst (λ i. find i m ≡ none) same h in absurd (cc)
    ]
  ]

module _ {ℓ κ} {K : Type ℓ} {V : Type κ} ⦃e : Key K⦄ where
  -- m[k] for a map of vectors: a missing key counts as the empty vector.
  unfoldable pub list_at : K → List (K × List V) → List V
  list_at k m = elim (find k m) [ none ↦ [] | some values ↦ values ]

  -- m[k].push_back(v)
  unfoldable pub push_at : K → V → List (K × List V) → List (K × List V)
  push_at k v m = assign k (list_at k m ++ (v ∷ [])) m
