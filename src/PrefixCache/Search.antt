-- ===== src/PrefixCache/Search.antt =====
-- The search of `FindOrCreateNode`: it never meets a missing id, and it finds a node of the
-- identity exactly when the cache holds one.
use nemotron_inference.Base.{
  ℕ, ◌<◌, ◌≡◌, refl, ap, ◌∙◌, ◌≢◌, inl, inr, Bool-cases, Option-cases, Bool, true, false, List, [],
  ◌∷◌, Option, none, some, arith, ◌==◌, if◌then◌else◌, nat_key, find,
}
use nemotron_inference.ReusableState.{ReusableStateDescriptor}
use nemotron_inference.PrefixCache.Identity.{
  SerializedPromptIdentity, fingerprint_identity, same_identity,
}
use nemotron_inference.PrefixCache.Matching.{same_identity→eq, same_identity_refl}
use nemotron_inference.PrefixCache.State.{PrefixCache, CacheNode}
use nemotron_inference.PrefixCache.Nodes.{
  same_entry, equal_range, search_range, find_or_create_node, reuse_node, create_node,
}
use nemotron_inference.PrefixCache.Sound.{IsSound}
use nemotron_inference.PrefixCache.Index.{entries_of, IsIndexed}

-- A predicate of every element.
abbrev All {ℓ κ} : {A : Type ℓ} → (A → Type κ) → List A → Type κ
All P [] = Unit
All P (x ∷ xs) = P x × All P xs

equal_range-All {κ} :
    (P : ℕ → Type κ) (f : ℕ) (index : List (ℕ × ℕ))
    → ((id : ℕ) → 0 < entries_of f id index → P id)
    → All P (equal_range f index)
unfolding equal_range entries_of same_entry
equal_range-All P f [] h = tt
equal_range-All P f ((g, i) ∷ index) h = elim (Bool-cases (g == f)) [
  | inl e ↦ rw e (h i (ground arith), equal_range-All P f index (λ id q. h id (ground arith)))
  | inr e ↦ rw e (equal_range-All P f index (λ id q. h id (ground arith)))
]

-- Whether an id is in a list.
abbrev among : ℕ → List ℕ → Bool
among id [] = false
among id (x ∷ xs) = if x == id then true else among id xs

among-equal_range :
    (f id : ℕ) (index : List (ℕ × ℕ))
    → 0 < entries_of f id index
    → among id (equal_range f index) ≡ true
unfolding equal_range entries_of same_entry
among-equal_range f id [] h = absurd (omega arith)
among-equal_range f id ((g, i) ∷ index) h = ground (arith, among-equal_range f id index)

-- What the search may answer: a node of the identity, or that no id of the range has one.
pub data Found (nodes : List (ℕ × CacheNode)) (identity : SerializedPromptIdentity) (ids : List ℕ)
    (r : Option (Option (ℕ × CacheNode))) : Type 0 where
  present :
      (k : ℕ) (n : CacheNode)
      → r ≡ some (some (k, n))
      → find k nodes ≡ some n
      → n.identity ≡ identity
      → Found nodes identity ids r
  missing :
      r ≡ some none
      → ((k : ℕ) (n : CacheNode)
          → among k ids ≡ true
          → find k nodes ≡ some n
          → same_identity n.identity identity ≡ false)
      → Found nodes identity ids r

search_range-Found :
    (nodes : List (ℕ × CacheNode)) (identity : SerializedPromptIdentity) (ids : List ℕ)
    → All (λ id. (n : CacheNode) × (find id nodes ≡ some n)) ids
    → Found nodes identity ids (search_range nodes identity ids)
unfolding search_range
search_range-Found nodes identity [] all = missing refl (λ k n a e. absurd (cc))
search_range-Found nodes identity (id ∷ rest) ((n, e), all) =
    elim (Bool-cases (same_identity n.identity identity)) [
      | inl same ↦ present id n (ground arith) e (same_identity→eq n.identity identity same)
      | inr other ↦ elim (search_range-Found nodes identity rest all) [
        | present k m r found eq ↦ present k m (ground arith) found eq
        | missing r others ↦ missing (ground arith) (λ k m a found. ground (arith, others k m))
      ]
    ]

-- Every id of a range is a node, and every node of the fingerprint is in the range.
range_nodes :
    (c : PrefixCache) (f : ℕ)
    → IsIndexed c
    → All
        (λ id. (n : CacheNode) × (find id c.nodes ≡ some n))
        (equal_range f c.nodes_by_fingerprint)
range_nodes c f v = equal_range-All _ f c.nodes_by_fingerprint λ id q.
    elim (Option-cases (find id c.nodes)) [
      | inl e ↦ absurd (ground (arith, v.agree f id))
      | inr found ↦ found
    ]

in_range :
    (c : PrefixCache) (f id : ℕ) (n : CacheNode)
    → IsIndexed c
    → find id c.nodes ≡ some n
    → n.fingerprint ≡ f
    → among id (equal_range f c.nodes_by_fingerprint) ≡ true
in_range c f id n v e h =
    among-equal_range f id c.nodes_by_fingerprint (ground (arith, v.agree f id))

-- The two ways in which `FindOrCreateNode` goes on: with the node of that identity, or with a new
-- one where no node has it.
pub data Decision (c : PrefixCache) (identity : SerializedPromptIdentity)
    (state : ReusableStateDescriptor) : Type 0 where
  reuse :
      (k : ℕ) (n : CacheNode)
      → find k c.nodes ≡ some n
      → n.identity ≡ identity
      → find_or_create_node c identity state ≡ some (reuse_node c k n state)
      → Decision c identity state
  create :
      ((k : ℕ) (n : CacheNode) → find k c.nodes ≡ some n → n.identity ≢ identity)
      → find_or_create_node c identity state ≡ some (create_node c identity state)
      → Decision c identity state

pub find_or_create_node_decides :
    (c : PrefixCache) (identity : SerializedPromptIdentity) (state : ReusableStateDescriptor)
    → IsSound c
    → IsIndexed c
    → Decision c identity state
unfolding find_or_create_node
find_or_create_node_decides c identity state s v =
    elim (search_range-Found c.nodes identity
      (equal_range (fingerprint_identity identity) c.nodes_by_fingerprint)
      (range_nodes c (fingerprint_identity identity) v)) [
        | present k n r found same ↦ reuse k n found same (rw (r, find_or_create_node))
        | missing r others ↦
            create
              (λ k n found same.
                let hashed = (s.entries.entry k n found).hashed ∙ ap fingerprint_identity same in
                let t =
                  others k n (in_range c (fingerprint_identity identity) k n v found hashed)
                    found in
                let u : same_identity identity identity ≡ false = rw same at t in
                absurd (ground (arith, same_identity_refl identity)))
              (rw (r, find_or_create_node))
      ]
