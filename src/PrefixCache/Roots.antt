-- ===== src/PrefixCache/Roots.antt =====
-- The global root that the loop of `Lookup` picks.
use nemotron_inference.Base.{
  ℕ, ◌≤◌, ◌<◌, ◌≡◌, refl, inl, inr, Bool-cases, true, ◌&&◌, List, [], ◌∷◌, some, arith, ltb, ◌==◌,
  nat_key, find, Distinct, length,
}
use nemotron_inference.PrefixCache.Identity.{SerializedPromptIdentity, prefix_matches}
use nemotron_inference.PrefixCache.State.{CacheNode}
use nemotron_inference.PrefixCache.Lookup.{best_root}
use nemotron_inference.PrefixCache.Oldest.{found_behind}

module _ (identity : SerializedPromptIdentity) where
  -- Every global root that matches has at most the given number of tokens.
  abbrev pub NoneLonger : ℕ → List (ℕ × CacheNode) → Type 0
  NoneLonger bound nodes =
      (j : ℕ) (m : CacheNode)
      → find j nodes ≡ some m
      → m.is_global_root ≡ true
      → prefix_matches m.identity identity ≡ true
      → length m.identity.token_ids ≤ bound

  NoneLonger-cons :
      (bound i : ℕ) (x : CacheNode) (rest : List (ℕ × CacheNode))
      → (x.is_global_root ≡ true
          → prefix_matches x.identity identity ≡ true
          → length x.identity.token_ids ≤ bound)
      → NoneLonger bound rest
      → NoneLonger bound ((i, x) ∷ rest)
  unfolding find
  NoneLonger-cons bound i x rest here all j m e root matches = elim (Bool-cases (i == j)) [
    | inl hit ↦ ground (arith, here)
    | inr miss ↦ all j m (ground arith) root matches
  ]

  NoneLonger-weaken :
      (a b : ℕ) (nodes : List (ℕ × CacheNode)) → a ≤ b → NoneLonger a nodes → NoneLonger b nodes
  NoneLonger-weaken a b nodes h all j m e root matches =
      let small = all j m e root matches in omega arith

  -- What the loop returns from a best id and length so far: that id, if no root is longer, and
  -- otherwise the id of a matching root, longer than the length so far, that none exceeds.
  pub data Best (nodes : List (ℕ × CacheNode)) (id bound r : ℕ) : Type 0 where
    stays : r ≡ id → NoneLonger bound nodes → Best nodes id bound r
    better :
        (n : CacheNode)
        → find r nodes ≡ some n
        → n.is_global_root ≡ true
        → prefix_matches n.identity identity ≡ true
        → bound < length n.identity.token_ids
        → NoneLonger (length n.identity.token_ids) nodes
        → Best nodes id bound r

  pub best_root-Best :
      (nodes : List (ℕ × CacheNode)) (id bound : ℕ)
      → Distinct nodes
      → Best nodes id bound (best_root identity nodes id bound)
  unfolding best_root
  best_root-Best [] id bound d = stays refl (unfold find in λ j m e root matches. absurd (cc))
  best_root-Best ((i, x) ∷ rest) id bound (absent, d) =
      elim (Bool-cases (
        x.is_global_root
        && (prefix_matches x.identity identity && ltb bound (length x.identity.token_ids)))) [
          | inl up ↦ rw up (elim (best_root-Best rest i (length x.identity.token_ids) d) [
            | stays same all ↦ rw same (
                better x (unfold find in ground arith) (ground arith) (ground arith) (ground arith)
                  (NoneLonger-cons (length x.identity.token_ids) i x rest (λ _ _. omega arith) all))
            | better n found root matches longer all ↦
                better n (found_behind i _ x n rest absent found) root matches (ground arith)
                  (NoneLonger-cons (length n.identity.token_ids) i x rest (λ _ _. omega arith) all)
          ])
          | inr down ↦ rw down (elim (best_root-Best rest id bound d) [
            | stays same all ↦
                stays same (NoneLonger-cons bound i x rest (λ root matches. ground arith) all)
            | better n found root matches longer all ↦
                better n (found_behind i _ x n rest absent found) root matches longer (
                  NoneLonger-cons (length n.identity.token_ids) i x rest
                    (λ root' matches'. ground arith) all)
          ])
        ]
