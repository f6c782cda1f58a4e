-- ===== src/PrefixCache/Growth.antt =====
-- Soundness through `FindOrCreateNode`: a new node, and a new state of an old one.
use nemotron_inference.Base.{
  ℕ, ◌+◌, ◌≤◌, ◌<◌, ◌≡◌, refl, inl, inr, Bool-cases, true, false, ◌∷◌, none, some, arith, add64,
  sub64, word, nat_key, string_key, find, emplace, modify, weight, emplace-Distinct,
  modify-Distinct, Entries-emplace, Entries-modify, weight-emplace, weight-modify, weight-find-le,
}
use nemotron_inference.ReusableState.{ReusableStateDescriptor, same_descriptor}
use nemotron_inference.PrefixCache.Identity.{
  SerializedPromptIdentity, fingerprint_identity, node_bytes,
}
use nemotron_inference.PrefixCache.State.{PrefixCache, CacheNode, retain_in, release_in}
use nemotron_inference.PrefixCache.Nodes.{restate, new_node, touch, create_node, reuse_node}
use nemotron_inference.PrefixCache.Sound.{IsNode, IsNode-later, IsSound, absent_next, touch-IsSound}

-- The tests of `RetainState`, split.
pub create_node_cases {ℓ} :
    (P : PrefixCache × ℕ → Type ℓ) (c : PrefixCache) (identity : SerializedPromptIdentity)
    (state : ReusableStateDescriptor)
    → ((retain_in c.state_arena state).1 ≡ false
        → P (record c { state_arena = (retain_in c.state_arena state).0 }, 0))
    → P (
      record c {
        state_arena = (retain_in c.state_arena state).0;
        next_node_id = add64 c.next_node_id 1;
        tick = add64 c.tick 1;
        current_bytes = add64 c.current_bytes (node_bytes identity state);
        nodes_by_fingerprint =
            (fingerprint_identity identity, c.next_node_id) ∷ c.nodes_by_fingerprint;
        nodes = emplace c.next_node_id (new_node c.next_node_id identity state c.tick) c.nodes;
      },
      c.next_node_id,
    )
    → P (create_node c identity state)
unfolding create_node
create_node_cases P c identity state refused granted =
    elim (Bool-cases (retain_in c.state_arena state).1) [
      | inl e ↦ rw (e, create_node) granted
      | inr e ↦ rw (e, create_node) (refused e)
    ]

pub create_node-IsSound :
    (c : PrefixCache) (identity : SerializedPromptIdentity) (state : ReusableStateDescriptor)
    → IsSound c
    → c.current_bytes + node_bytes identity state < word
    → c.next_node_id + 1 < word
    → c.tick + 1 < word
    → IsSound (create_node c identity state).0
create_node-IsSound c identity state v room ids ticks =
    create_node_cases (λ r. IsSound r.0) c identity state
      (λ _. record {
        distinct = v.distinct;
        entries = v.entries;
        exact = v.exact;
        small = v.small;
        started = v.started;
      })
      (record {
        distinct = emplace-Distinct c.next_node_id _ c.nodes v.distinct;
        entries =
            Entries-emplace (IsNode _ _) c.next_node_id _ c.nodes absent
              (record {
                same_id = refl;
                nonzero_id = v.started;
                fresh = omega arith;
                stamped = omega arith;
                hashed = refl;
                sized = refl;
                committed_set = tt;
                prompt_set = tt;
              })
              (record {
                entry = λ j x hx. IsNode-later (omega arith) (omega arith) (v.entries.entry j x hx);
              });
        exact = omega (
          arith,
          v.exact,
          weight-emplace (λ (n : CacheNode). n.total_bytes) c.next_node_id
              (new_node c.next_node_id identity state c.tick) c.nodes absent,
        );
        small = omega arith;
        started = omega arith;
      })
  where
    absent : find c.next_node_id c.nodes ≡ none
    absent = absent_next c v

-- The cache after the state of a node was replaced, before the node is touched.
abbrev pub restated : PrefixCache → ℕ → CacheNode → ReusableStateDescriptor → PrefixCache
restated c key node state = record c {
  state_arena = release_in (retain_in c.state_arena state).0 node.state;
  current_bytes = add64 (sub64 c.current_bytes node.total_bytes) (node_bytes node.identity state);
  nodes = modify key (restate state) c.nodes;
}

pub reuse_node_cases {ℓ} :
    (P : PrefixCache × ℕ → Type ℓ) (c : PrefixCache) (key : ℕ) (node : CacheNode)
    (state : ReusableStateDescriptor)
    → (same_descriptor node.state state ≡ true → P (touch c node.id, node.id))
    → ((retain_in c.state_arena state).1 ≡ false
        → P (record c { state_arena = (retain_in c.state_arena state).0 }, 0))
    → ((retain_in c.state_arena state).1 ≡ true
        → P (touch (restated c key node state) node.id, node.id))
    → P (reuse_node c key node state)
unfolding reuse_node
reuse_node_cases P c key node state kept refused replaced =
    elim (Bool-cases (same_descriptor node.state state)) [
      | inl same ↦ rw (same, reuse_node) (kept same)
      | inr new ↦ elim (Bool-cases (retain_in c.state_arena state).1) [
        | inl e ↦ rw (new, reuse_node) (rw e (replaced e))
        | inr e ↦ rw (new, reuse_node) (rw e (refused e))
      ]
    ]

pub restated-IsSound :
    (c : PrefixCache) (key : ℕ) (node : CacheNode) (state : ReusableStateDescriptor)
    → IsSound c
    → find key c.nodes ≡ some node
    → c.current_bytes + node_bytes node.identity state < word
    → IsSound (restated c key node state)
restated-IsSound c key node state v found room = record {
  distinct = modify-Distinct key (restate state) c.nodes v.distinct;
  entries =
      Entries-modify (IsNode c.next_node_id c.tick) key (restate state) c.nodes
        (λ x hx h. record {
          same_id = h.same_id;
          nonzero_id = h.nonzero_id;
          fresh = h.fresh;
          stamped = h.stamped;
          hashed = h.hashed;
          sized = refl;
          committed_set = h.committed_set;
          prompt_set = h.prompt_set;
        })
        v.entries;
  exact = omega (arith, v.exact, moved, part);
  small = omega arith;
  started = v.started;
}
  where
    moved :
        weight (λ (n : CacheNode). n.total_bytes) (modify key (restate state) c.nodes)
          + node.total_bytes
        ≡ weight (λ (n : CacheNode). n.total_bytes) c.nodes + node_bytes node.identity state
    moved = weight-modify (λ (n : CacheNode). n.total_bytes) key (restate state) node c.nodes found

    part : node.total_bytes ≤ weight (λ (n : CacheNode). n.total_bytes) c.nodes
    part = weight-find-le (λ (n : CacheNode). n.total_bytes) key node c.nodes found

pub reuse_node-IsSound :
    (c : PrefixCache) (key : ℕ) (node : CacheNode) (state : ReusableStateDescriptor)
    → IsSound c
    → find key c.nodes ≡ some node
    → c.current_bytes + node_bytes node.identity state < word
    → c.tick + 1 < word
    → IsSound (reuse_node c key node state).0
reuse_node-IsSound c key node state v found room ticks =
    reuse_node_cases (λ r. IsSound r.0) c key node state (λ _. touch-IsSound c node.id v ticks)
      (λ _. record {
        distinct = v.distinct;
        entries = v.entries;
        exact = v.exact;
        small = v.small;
        started = v.started;
      })
      (λ _. touch-IsSound _ node.id (restated-IsSound c key node state v found room) ticks)
