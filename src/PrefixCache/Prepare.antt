-- ===== src/PrefixCache/Prepare.antt =====
-- What `FindOrCreateNode` returns: a consistent cache with the node of the identity in the new
-- state, used last, or no node where the state could not be retained.
use nemotron_inference.Base.{
  ℕ, ◌+◌, ◌<◌, ◌≡◌, refl, ◌∙◌, false, some, arith, nat_key, find, emplace, modify, ==_iff,
  find-modify, find-emplace, word, add64,
}
use nemotron_inference.ReusableState.{ReusableStateDescriptor}
use nemotron_inference.ReusableState.Equality.{same_descriptor_iff}
use nemotron_inference.PrefixCache.Identity.{SerializedPromptIdentity, node_bytes}
use nemotron_inference.PrefixCache.State.{PrefixCache, CacheNode, retain_in}
use nemotron_inference.PrefixCache.Nodes.{
  touch, stamp, restate, new_node, create_node, reuse_node, find_or_create_node,
}
use nemotron_inference.PrefixCache.Sound.{IsSound, absent_next}
use nemotron_inference.PrefixCache.Growth.{create_node_cases, reuse_node_cases, restated}
use nemotron_inference.PrefixCache.Search.{reuse, create, find_or_create_node_decides}
use nemotron_inference.PrefixCache.Consistency.{
  IsConsistent, create_node-IsConsistent, reuse_node-IsConsistent,
}

-- Touching a node that is there.
pub touch_found :
    (c : PrefixCache) (k : ℕ) (n : CacheNode)
    → find k c.nodes ≡ some n
    → touch c k ≡ record c { nodes = modify k (stamp c.tick) c.nodes; tick = add64 c.tick 1 }
unfolding touch
touch_found c k n e = rw (e, touch)

pub find-touch_self :
    (c : PrefixCache) (k : ℕ) (n : CacheNode)
    → find k c.nodes ≡ some n
    → find k (touch c k).nodes ≡ some (stamp c.tick n)
find-touch_self c k n e =
    rw (touch_found c k n e) (find-modify k k (stamp c.tick) c.nodes ∙ ground (arith, ==_iff k k))

module _ (c : PrefixCache) (identity : SerializedPromptIdentity)
    (state : ReusableStateDescriptor) where
  -- The answer of `FindOrCreateNode`.
  pub data Answer (d : PrefixCache) (id : ℕ) : Type 0 where
    refused :
        id ≡ 0
        → d ≡ record c { state_arena = (retain_in c.state_arena state).0 }
        → (retain_in c.state_arena state).1 ≡ false
        → Answer d id
    ready :
        (n : CacheNode)
        → 0 < id
        → find id d.nodes ≡ some n
        → n.identity ≡ identity
        → n.state ≡ state
        → d.max_bytes ≡ c.max_bytes
        → d.tick ≡ c.tick + 1
        → Answer d id

  create_node-Answer :
      IsSound c
      → c.tick + 1 < word
      → Answer (create_node c identity state).0 (create_node c identity state).1
  create_node-Answer s ticks =
      create_node_cases (λ r. Answer r.0 r.1) c identity state (refused refl refl)
        (ready node s.started there refl refl refl (omega arith))
    where
      node : CacheNode
      node = new_node c.next_node_id identity state c.tick

      there : find c.next_node_id (emplace c.next_node_id node c.nodes) ≡ some node
      there =
          find-emplace c.next_node_id c.next_node_id node c.nodes (absent_next c s)
          ∙ ground (arith, ==_iff c.next_node_id c.next_node_id)

  touched-Answer :
      (e : PrefixCache) (k id : ℕ) (m : CacheNode)
      → c.tick + 1 < word
      → e.tick ≡ c.tick
      → e.max_bytes ≡ c.max_bytes
      → find k e.nodes ≡ some m
      → m.identity ≡ identity
      → m.state ≡ state
      → 0 < k
      → id ≡ k
      → Answer (touch e id) id
  touched-Answer e k id m ticks tick max found same_identity same_state pos here = rw here (
      ready (stamp e.tick m) pos (find-touch_self e k m found) same_identity same_state
        (rw (touch_found e k m found) max) (rw (touch_found e k m found) (omega arith)))

  reuse_node-Answer :
      (k : ℕ) (n : CacheNode)
      → IsSound c
      → c.tick + 1 < word
      → find k c.nodes ≡ some n
      → n.identity ≡ identity
      → Answer (reuse_node c k n state).0 (reuse_node c k n state).1
  reuse_node-Answer k n s ticks found same =
      let node = s.entries.entry k n found in
      reuse_node_cases (λ r. Answer r.0 r.1) c k n state
        (λ e.
          touched-Answer c k n.id n ticks refl refl found same
            ((same_descriptor_iff n.state state).0 e) node.nonzero_id node.same_id)
        (refused refl refl)
        (λ _.
          touched-Answer (restated c k n state) k n.id (restate state n) ticks refl refl
            (find-modify k k (restate state) c.nodes ∙ rw found (ground (arith, ==_iff k k))) same
            refl node.nonzero_id node.same_id)

  -- `FindOrCreateNode` on a consistent cache never meets a missing id, keeps the cache consistent,
  -- and returns the node of the identity in the given state, or 0 and an otherwise unchanged cache.
  -- The running total plus the node, the next id and the next tick are words.
  pub find_or_create_node-Answer :
      IsConsistent c
      → c.current_bytes + node_bytes identity state < word
      → c.next_node_id + 1 < word
      → c.tick + 1 < word
      → (d : PrefixCache) × (id : ℕ) × (find_or_create_node c identity state ≡ some (d, id))
        × IsConsistent d
        × Answer d id
  find_or_create_node-Answer v room ids ticks =
      elim (find_or_create_node_decides c identity state v.sound v.indexed) [
        | reuse k n found same e ↦ (
          (reuse_node c k n state).0,
          (reuse_node c k n state).1,
          e,
          reuse_node-IsConsistent c k n state v found (rw same room) ticks,
          reuse_node-Answer k n v.sound ticks found same,
        )
        | create none_has e ↦ (
          (create_node c identity state).0,
          (create_node c identity state).1,
          e,
          create_node-IsConsistent c identity state v room ids ticks,
          create_node-Answer v.sound ticks,
        )
      ]
