-- ===== src/Base/Contents.antt =====
-- A property of every entry of a map, read by `find`, so that it does not depend on the order.
use mathlib.Core.Path.{◌≡◌, subst}
use mathlib.Core.Logic.{inl, inr}
use mathlib.Core.Option
use mathlib.Core.Option.{none, some}
use mathlib.Core.List.{List, []}
use native.Mathlib.Omega.{arith}
use nemotron_inference.Base.Tests.{Bool-cases, Option-cases}
use nemotron_inference.Base.Maps.{
  Key, find, emplace, assign, erase, modify, Distinct, find-emplace, find-erase, find-modify,
  find-assign,
}

module _ {ℓ κ μ} {K : Type ℓ} {V : Type κ} ⦃e : Key K⦄ (P : K → V → Type μ) where
  pub record Entries (m : List (K × V)) : Type (ℓ ⊔ κ ⊔ μ) where
    pub entry : (k : K) (v : V) → find k m ≡ some v → P k v

  pub Entries-empty : Entries []
  unfolding find
  Entries-empty = record { entry = λ k v h. absurd (cc) }

  pub Entries-emplace :
      (k : K) (v : V) (m : List (K × V))
      → find k m ≡ none
      → P k v
      → Entries m
      → Entries (emplace k v m)
  Entries-emplace k v m absent p h = record {
    entry = λ j w found. elim (Bool-cases (e.same k j)) [
      | inl hit ↦
          let f : some v ≡ some w = ground (arith, find-emplace k j v m absent) in
          let v-w : v ≡ w = ground arith in
          subst (λ i. P i w) ((e.same_iff k j).0 hit) (subst (P k) v-w p)
      | inr miss ↦ h.entry j w (ground (arith, find-emplace k j v m absent))
    ];
  }

  pub Entries-erase : (k : K) (m : List (K × V)) → Distinct m → Entries m → Entries (erase k m)
  Entries-erase k m d h = record {
    entry = λ j w found. h.entry j w (ground (arith, find-erase k j m d));
  }

  pub Entries-modify :
      (k : K) (f : V → V) (m : List (K × V))
      → ((v : V) → find k m ≡ some v → P k v → P k (f v))
      → Entries m
      → Entries (modify k f m)
  Entries-modify k f m keep h = record {
    entry = λ j w found. elim (Bool-cases (e.same k j)) [
      | inl hit ↦
          subst (λ i. P i w) ((e.same_iff k j).0 hit)
            (changed w (ground (arith, e.same_iff k j, find-modify k k f m, e.same_iff k k)))
      | inr miss ↦ h.entry j w (ground (arith, find-modify k j f m))
    ];
  }
    where
      changed : (w : V) → Option.map f (find k m) ≡ some w → P k w
      changed w found = elim (Option-cases (find k m)) [
        | inl absent ↦ absurd (ground arith)
        | inr (v, old) ↦
            let f-w : f v ≡ w = ground arith in subst (P k) f-w (keep v old (h.entry k v old))
      ]

  pub Entries-assign :
      (k : K) (v : V) (m : List (K × V)) → P k v → Entries m → Entries (assign k v m)
  Entries-assign k v m p h = record {
    entry = λ j w found. elim (Bool-cases (e.same k j)) [
      | inl hit ↦
          let f : some v ≡ some w = ground (arith, find-assign k j v m) in
          let v-w : v ≡ w = ground arith in
          subst (λ i. P i w) ((e.same_iff k j).0 hit) (subst (P k) v-w p)
      | inr miss ↦ h.entry j w (ground (arith, find-assign k j v m))
    ];
  }
