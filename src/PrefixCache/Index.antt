-- ===== src/PrefixCache/Index.antt =====
-- The fingerprint index agrees with the node map, so that `FindOrCreateNode` finds a node of an
-- identity exactly when there is one.
use nemotron_inference.Base.{
  ℕ, suc, ◌-◌, ◌≡◌, refl, ◌∙◌, inl, inr, Option-cases, true, ◌↔◌, List, [], ◌∷◌, Option, none, some,
  arith, ◌==◌, if◌then◌else◌, add64, nat_key, find, modify, find-emplace, find-modify, find-erase,
}
use mathlib.Core.Option
use nemotron_inference.ReusableState.{ReusableStateArena, ReusableStateDescriptor}
use nemotron_inference.PrefixCache.Identity.{SerializedPromptIdentity}
use nemotron_inference.PrefixCache.State.{PrefixCache, CacheNode, new_cache, reset}
use nemotron_inference.PrefixCache.Nodes.{
  same_entry, erase_from_index, remove_found, remove_node, stamp, touch, restate, new_node,
  create_node, reuse_node,
}
use nemotron_inference.PrefixCache.Sound.{IsSound, absent_next}
use nemotron_inference.PrefixCache.Growth.{create_node_cases, reuse_node_cases}

same_entry_iff : (f i g j : ℕ) → (same_entry f i g j ≡ true) ↔ ((f ≡ g) × (i ≡ j))
unfolding same_entry
same_entry_iff f i g j = ground arith

-- How often the index holds a pair.
unfoldable pub entries_of : ℕ → ℕ → List (ℕ × ℕ) → ℕ
entries_of f id [] = 0
entries_of f id ((g, i) ∷ index) =
    if same_entry g i f id then suc (entries_of f id index) else entries_of f id index

-- How often it should: once, for a node of that fingerprint.
abbrev pub listed : ℕ → Option CacheNode → ℕ
listed f none = 0
listed f (some n) = if n.fingerprint == f then 1 else 0

pub record IsIndexed (c : PrefixCache) : Type 0 where
  pub agree : (f id : ℕ) → entries_of f id c.nodes_by_fingerprint ≡ listed f (find id c.nodes)

entries_of-erase_from_index :
    (f id g k : ℕ) (index : List (ℕ × ℕ))
    → entries_of f id (erase_from_index g k index)
      ≡ (if same_entry g k f id then entries_of f id index - 1 else entries_of f id index)
unfolding entries_of erase_from_index
entries_of-erase_from_index f id g k [] = ground arith
entries_of-erase_from_index f id g k ((h, j) ∷ index) = ground (
  arith,
  same_entry_iff h j g k,
  same_entry_iff h j f id,
  same_entry_iff g k f id,
  entries_of-erase_from_index f id g k index,
)

pub new_cache-IsIndexed :
    (max_bytes : ℕ) (arena : Option ReusableStateArena) → IsIndexed (new_cache max_bytes arena)
unfolding new_cache entries_of find
new_cache-IsIndexed max_bytes arena = record { agree = λ f id. refl }

pub reset-IsIndexed : (c : PrefixCache) → IsIndexed (reset c)
unfolding reset entries_of find
reset-IsIndexed c = record { agree = λ f id. refl }

-- A write that keeps a node's fingerprint.
pub rewrite-IsIndexed :
    (c : PrefixCache) (k : ℕ) (g : CacheNode → CacheNode) (tick : ℕ)
    → ((n : CacheNode) → (g n).fingerprint ≡ n.fingerprint)
    → IsIndexed c
    → IsIndexed (record c { nodes = modify k g c.nodes; tick = tick })
rewrite-IsIndexed c k g tick keep v = record {
  agree = λ f id. v.agree f id ∙ rw (find-modify k id g c.nodes) (kept f id);
}
  where
    kept :
        (f id : ℕ)
        → listed f (find id c.nodes)
          ≡ listed f (if k == id then Option.map g (find id c.nodes) else find id c.nodes)
    kept f id = elim (Option-cases (find id c.nodes)) [
      | inl e ↦ ground arith
      | inr (n, e) ↦ ground (arith, keep n)
    ]

pub touch-IsIndexed : (c : PrefixCache) (k : ℕ) → IsIndexed c → IsIndexed (touch c k)
unfolding touch
touch-IsIndexed c k v = elim (Option-cases (find k c.nodes)) [
  | inl e ↦ rw (e, touch) v
  | inr (n, e) ↦ rw (e, touch) (rewrite-IsIndexed c k (stamp c.tick) (add64 c.tick 1) (λ n. refl) v)
]

pub remove_node-IsIndexed :
    (c : PrefixCache) (k : ℕ) → IsSound c → IsIndexed c → IsIndexed (remove_node c k)
unfolding remove_node remove_found
remove_node-IsIndexed c k s v = elim (Option-cases (find k c.nodes)) [
  | inl e ↦ rw (e, remove_node) v
  | inr (n, e) ↦
      let node = s.entries.entry k n e in
      rw (e, remove_node)
        (record {
          agree = λ f id. ground (
            arith,
            v.agree f id,
            node.same_id,
            same_entry_iff n.fingerprint n.id f id,
            entries_of-erase_from_index f id n.fingerprint n.id c.nodes_by_fingerprint,
            find-erase k id c.nodes s.distinct,
          );
        })
]

pub create_node-IsIndexed :
    (c : PrefixCache) (identity : SerializedPromptIdentity) (state : ReusableStateDescriptor)
    → IsSound c
    → IsIndexed c
    → IsIndexed (create_node c identity state).0
create_node-IsIndexed c identity state s v =
    create_node_cases (λ r. IsIndexed r.0) c identity state (λ _. record { agree = v.agree })
      (unfold entries_of same_entry in
        record {
          agree = λ f id. ground (
            arith,
            v.agree f id,
            absent_next c s,
            find-emplace c.next_node_id id (new_node c.next_node_id identity state c.tick) c.nodes
                (absent_next c s),
          );
        })

pub reuse_node-IsIndexed :
    (c : PrefixCache) (key : ℕ) (node : CacheNode) (state : ReusableStateDescriptor)
    → IsIndexed c
    → IsIndexed (reuse_node c key node state).0
reuse_node-IsIndexed c key node state v =
    reuse_node_cases (λ r. IsIndexed r.0) c key node state (λ _. touch-IsIndexed c node.id v)
      (λ _. record { agree = v.agree })
      (λ _.
        touch-IsIndexed _ node.id
          (record { agree = (rewrite-IsIndexed c key (restate state) c.tick (λ n. refl) v).agree }))
