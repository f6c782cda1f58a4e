-- ===== src/PrefixCache/Consistency.antt =====
-- The consistency of the whole cache, through the steps that touch, remove, create and reuse nodes.
use nemotron_inference.Base.{
  ℕ, zero, suc, ◌+◌, ◌<◌, ◌≡◌, refl, ◌⊎◌, ◌-◌, ◌&&◌, not, ltb, length, inl, inr, Bool-cases,
  Option-cases, [], Option, none, some, arith, nat_key, string_key, find, word,
}
use nemotron_inference.ReusableState.{ReusableStateArena, ReusableStateDescriptor}
use nemotron_inference.PrefixCache.Identity.{SerializedPromptIdentity, node_bytes}
use nemotron_inference.PrefixCache.State.{
  PrefixCache, CacheNode, StringSet, new_cache, reset, is_empty,
}
use nemotron_inference.PrefixCache.Nodes.{
  touch, stamp, restate, remove_found, remove_node, create_node, reuse_node, evict_loop,
  evict_to_budget, oldest,
}
use nemotron_inference.PrefixCache.Sound.{
  IsSound, new_cache-IsSound, reset-IsSound, absent_next, touch-IsSound, remove_node-IsSound,
}
use nemotron_inference.PrefixCache.Growth.{
  create_node_cases, reuse_node_cases, create_node-IsSound, reuse_node-IsSound,
}
use nemotron_inference.PrefixCache.Index.{
  IsIndexed, new_cache-IsIndexed, reset-IsIndexed, touch-IsIndexed, remove_node-IsIndexed,
  create_node-IsIndexed, reuse_node-IsIndexed,
}
use nemotron_inference.PrefixCache.Heads.{Agree}
use nemotron_inference.PrefixCache.Agreement.{rewrite-Agree, emplace-Agree, erase-Agree}

abbrev pub committed : CacheNode → StringSet
committed n = n.committed_conversations

abbrev pub prompt : CacheNode → StringSet
prompt n = n.prompt_conversations

-- Both head maps agree with the nodes.
pub record IsHeaded (c : PrefixCache) : Type 0 where
  pub committed_agree : Agree committed c.nodes c.committed_heads
  pub prompt_agree : Agree prompt c.nodes c.prompt_heads

pub record IsConsistent (c : PrefixCache) : Type 0 where
  pub sound : IsSound c
  pub indexed : IsIndexed c
  pub headed : IsHeaded c

no_heads : (sets : CacheNode → StringSet) → Agree sets [] []
unfolding find
no_heads sets = record { distinct = tt; agree = λ y id. refl }

-- A new cache is consistent.
pub new_cache-IsConsistent :
    (max_bytes : ℕ) (arena : Option ReusableStateArena) → IsConsistent (new_cache max_bytes arena)
unfolding new_cache
new_cache-IsConsistent max_bytes arena = record {
  sound = unfold new_cache in new_cache-IsSound max_bytes arena;
  indexed = unfold new_cache in new_cache-IsIndexed max_bytes arena;
  headed = record { committed_agree = no_heads committed; prompt_agree = no_heads prompt };
}

pub reset-IsConsistent : (c : PrefixCache) → IsConsistent c → IsConsistent (reset c)
unfolding reset
reset-IsConsistent c v = record {
  sound = unfold reset in reset-IsSound c v.sound;
  indexed = unfold reset in reset-IsIndexed c;
  headed = record { committed_agree = no_heads committed; prompt_agree = no_heads prompt };
}

touch-IsHeaded : (c : PrefixCache) (k : ℕ) → IsHeaded c → IsHeaded (touch c k)
unfolding touch
touch-IsHeaded c k v = elim (Option-cases (find k c.nodes)) [
  | inl e ↦ rw (e, touch) v
  | inr (n, e) ↦
      rw (e, touch)
        (record {
          committed_agree =
              rewrite-Agree committed c.nodes c.committed_heads k (stamp c.tick) (λ n. refl)
                v.committed_agree;
          prompt_agree =
              rewrite-Agree prompt c.nodes c.prompt_heads k (stamp c.tick) (λ n. refl)
                v.prompt_agree;
        })
]

pub touch-IsConsistent :
    (c : PrefixCache) (k : ℕ) → IsConsistent c → c.tick + 1 < word → IsConsistent (touch c k)
touch-IsConsistent c k v ticks = record {
  sound = touch-IsSound c k v.sound ticks;
  indexed = touch-IsIndexed c k v.indexed;
  headed = touch-IsHeaded c k v.headed;
}

remove_node-IsHeaded :
    (c : PrefixCache) (k : ℕ) → IsSound c → IsHeaded c → IsHeaded (remove_node c k)
unfolding remove_node remove_found
remove_node-IsHeaded c k s v = elim (Option-cases (find k c.nodes)) [
  | inl e ↦ rw (e, remove_node) v
  | inr (n, e) ↦
      rw (e, remove_node)
        (record {
          committed_agree =
              erase-Agree committed c.nodes c.committed_heads k n s.distinct e v.committed_agree;
          prompt_agree = erase-Agree prompt c.nodes c.prompt_heads k n s.distinct e v.prompt_agree;
        })
]

-- `RemoveNode` takes a node out of the map, the index and both head maps, and keeps them consistent.
pub remove_node-IsConsistent :
    (c : PrefixCache) (k : ℕ) → IsConsistent c → IsConsistent (remove_node c k)
remove_node-IsConsistent c k v = record {
  sound = remove_node-IsSound c k v.sound;
  indexed = remove_node-IsIndexed c k v.sound v.indexed;
  headed = remove_node-IsHeaded c k v.sound v.headed;
}

create_node-IsHeaded :
    (c : PrefixCache) (identity : SerializedPromptIdentity) (state : ReusableStateDescriptor)
    → IsSound c
    → IsHeaded c
    → IsHeaded (create_node c identity state).0
create_node-IsHeaded c identity state s v =
    create_node_cases (λ r. IsHeaded r.0) c identity state
      (λ _. record { committed_agree = v.committed_agree; prompt_agree = v.prompt_agree })
      (record {
        committed_agree =
            emplace-Agree committed c.nodes c.committed_heads c.next_node_id _ (absent_next c s)
              refl v.committed_agree;
        prompt_agree =
            emplace-Agree prompt c.nodes c.prompt_heads c.next_node_id _ (absent_next c s) refl
              v.prompt_agree;
      })

reuse_node-IsHeaded :
    (c : PrefixCache) (key : ℕ) (node : CacheNode) (state : ReusableStateDescriptor)
    → IsHeaded c
    → IsHeaded (reuse_node c key node state).0
reuse_node-IsHeaded c key node state v =
    reuse_node_cases (λ r. IsHeaded r.0) c key node state (λ _. touch-IsHeaded c node.id v)
      (λ _. record { committed_agree = v.committed_agree; prompt_agree = v.prompt_agree })
      (λ _. touch-IsHeaded _ node.id (record {
        committed_agree =
            rewrite-Agree committed c.nodes c.committed_heads key (restate state) (λ n. refl)
              v.committed_agree;
        prompt_agree =
            rewrite-Agree prompt c.nodes c.prompt_heads key (restate state) (λ n. refl)
              v.prompt_agree;
      }))

pub create_node-IsConsistent :
    (c : PrefixCache) (identity : SerializedPromptIdentity) (state : ReusableStateDescriptor)
    → IsConsistent c
    → c.current_bytes + node_bytes identity state < word
    → c.next_node_id + 1 < word
    → c.tick + 1 < word
    → IsConsistent (create_node c identity state).0
create_node-IsConsistent c identity state v room ids ticks = record {
  sound = create_node-IsSound c identity state v.sound room ids ticks;
  indexed = create_node-IsIndexed c identity state v.sound v.indexed;
  headed = create_node-IsHeaded c identity state v.sound v.headed;
}

pub reuse_node-IsConsistent :
    (c : PrefixCache) (key : ℕ) (node : CacheNode) (state : ReusableStateDescriptor)
    → IsConsistent c
    → find key c.nodes ≡ some node
    → c.current_bytes + node_bytes node.identity state < word
    → c.tick + 1 < word
    → IsConsistent (reuse_node c key node state).0
reuse_node-IsConsistent c key node state v found room ticks = record {
  sound = reuse_node-IsSound c key node state v.sound found room ticks;
  indexed = reuse_node-IsIndexed c key node state v.indexed;
  headed = reuse_node-IsHeaded c key node state v.headed;
}

evict_loop_step :
    (fuel : ℕ) (c : PrefixCache)
    → (evict_loop (suc fuel) c ≡ c)
      ⊎ ((id : ℕ) × (evict_loop (suc fuel) c ≡ evict_loop fuel (remove_node c id)))
unfolding evict_loop
evict_loop_step fuel c = elim (Option-cases (oldest c.nodes (word - 1) none)) [
  | inl e ↦ inl (ground arith)
  | inr (id, e) ↦ elim (Bool-cases (ltb c.max_bytes c.current_bytes && not (is_empty c.nodes))) [
    | inl more ↦ inr (id, ground arith)
    | inr fits ↦ inl (ground arith)
  ]
]

-- What every removal keeps, eviction keeps.
pub evict_loop_keeps {ℓ} :
    (P : PrefixCache → Type ℓ)
    → ((c : PrefixCache) (k : ℕ) → P c → P (remove_node c k))
    → (fuel : ℕ) (c : PrefixCache) → P c
    → P (evict_loop fuel c)
unfolding evict_loop
evict_loop_keeps P keep zero c p = p
evict_loop_keeps P keep (suc fuel) c p = elim (evict_loop_step fuel c) [
  | inl e ↦ unfold evict_loop in rw e p
  | inr (id, e) ↦ rw e (evict_loop_keeps P keep fuel (remove_node c id) (keep c id p))
]

pub evict_to_budget-IsConsistent :
    (c : PrefixCache) → IsConsistent c → IsConsistent (evict_to_budget c)
unfolding evict_to_budget
evict_to_budget-IsConsistent c v =
    evict_loop_keeps IsConsistent remove_node-IsConsistent (length c.nodes) c v
