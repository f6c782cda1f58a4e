-- ===== src/PrefixCache/Oldest.antt =====
-- The victim that the search of `EvictToBudget` picks.
use nemotron_inference.Base.{
  ℕ, ◌≤◌, ◌<◌, ◌≡◌, refl, inl, inr, Bool-cases, List, [], ◌∷◌, Option, none, some, arith, ltb, ◌==◌,
  nat_key, find, Distinct,
}
use nemotron_inference.PrefixCache.State.{CacheNode}
use nemotron_inference.PrefixCache.Nodes.{oldest}

-- No node was used before tick `t`.
abbrev pub NoneBefore : ℕ → List (ℕ × CacheNode) → Type 0
NoneBefore t nodes = (j : ℕ) (m : CacheNode) → find j nodes ≡ some m → t ≤ m.last_access_tick

NoneBefore-cons :
    (t i : ℕ) (x : CacheNode) (rest : List (ℕ × CacheNode))
    → t ≤ x.last_access_tick
    → NoneBefore t rest
    → NoneBefore t ((i, x) ∷ rest)
unfolding find
NoneBefore-cons t i x rest h all j m e = elim (Bool-cases (i == j)) [
  | inl hit ↦ ground arith
  | inr miss ↦ let r = all j m (ground arith) in omega arith
]

-- What the search returns from a bound and a victim so far: that victim, if no node is older than
-- the bound, and otherwise a node below the bound that none precedes.
pub data Pick (nodes : List (ℕ × CacheNode)) (bound : ℕ) (v r : Option ℕ) : Type 0 where
  keep : r ≡ v → NoneBefore bound nodes → Pick nodes bound v r
  pick :
      (id : ℕ) (n : CacheNode)
      → r ≡ some id
      → find id nodes ≡ some n
      → n.last_access_tick < bound
      → NoneBefore n.last_access_tick nodes
      → Pick nodes bound v r

pub found_behind :
    (i id : ℕ) (x n : CacheNode) (rest : List (ℕ × CacheNode))
    → find i rest ≡ none
    → find id rest ≡ some n
    → find id ((i, x) ∷ rest) ≡ some n
unfolding find
found_behind i id x n rest absent found = elim (Bool-cases (i == id)) [
  | inl hit ↦ let e : i ≡ id = ground arith in absurd (ground (arith, rw e at absent))
  | inr miss ↦ ground arith
]

pub oldest-Pick :
    (nodes : List (ℕ × CacheNode)) (bound : ℕ) (v : Option ℕ)
    → Distinct nodes
    → Pick nodes bound v (oldest nodes bound v)
unfolding oldest
oldest-Pick [] bound v d = keep refl (unfold find in λ j m e. absurd (cc))
oldest-Pick ((i, x) ∷ rest) bound v (absent, d) = elim (Bool-cases (ltb x.last_access_tick bound)) [
  | inl older ↦ rw older (elim (oldest-Pick rest x.last_access_tick (some i) d) [
    | keep r all ↦
        pick i x r (unfold find in ground arith) (ground arith)
          (NoneBefore-cons x.last_access_tick i x rest (omega arith) all)
    | pick id n r found lt all ↦
        pick id n r (found_behind i id x n rest absent found) (ground arith)
          (NoneBefore-cons n.last_access_tick i x rest (omega arith) all)
  ])
  | inr newer ↦ rw newer (elim (oldest-Pick rest bound v d) [
    | keep r all ↦ keep r (NoneBefore-cons bound i x rest (ground arith) all)
    | pick id n r found lt all ↦
        pick id n r (found_behind i id x n rest absent found) lt
          (NoneBefore-cons n.last_access_tick i x rest (ground arith) all)
  ])
]
