-- ===== src/PrefixCache/Sound.antt =====
-- The soundness of the node map: ids, ticks, fingerprints and the running total of bytes, and its
-- preservation by every step on the nodes.
use nemotron_inference.Base.{
  ℕ, ◌+◌, ◌≤◌, ◌<◌, ◌≡◌, refl, subst, inl, inr, Option-cases, Option, none, some, arith, add64,
  word, nat_key, string_key, find, modify, weight, Distinct, Entries, modify-Distinct,
  erase-Distinct, Entries-erase, Entries-modify, Entries-empty, weight-erase, weight-modify,
}
use nemotron_inference.ReusableState.{ReusableStateArena}
use nemotron_inference.PrefixCache.Identity.{fingerprint_identity, node_bytes}
use nemotron_inference.PrefixCache.State.{PrefixCache, CacheNode, new_cache, reset}
use nemotron_inference.PrefixCache.Nodes.{remove_found, remove_node, stamp, touch}

-- What holds of each node, under its key.
pub record IsNode (next_id tick k : ℕ) (n : CacheNode) : Type 0 where
  pub same_id : n.id ≡ k
  pub nonzero_id : 0 < k
  pub fresh : k < next_id
  pub stamped : n.last_access_tick < tick
  pub hashed : n.fingerprint ≡ fingerprint_identity n.identity
  pub sized : n.total_bytes ≡ node_bytes n.identity n.state
  pub committed_set : Distinct n.committed_conversations
  pub prompt_set : Distinct n.prompt_conversations

pub record IsSound (c : PrefixCache) : Type 0 where
  pub distinct : Distinct c.nodes
  pub entries : Entries (IsNode c.next_node_id c.tick) c.nodes
  pub exact : c.current_bytes ≡ weight (λ n. n.total_bytes) c.nodes
  pub small : c.current_bytes < word
  pub started : 0 < c.next_node_id

pub IsNode-later :
    {next next' tick tick' k : ℕ} {n : CacheNode}
    → next ≤ next'
    → tick ≤ tick'
    → IsNode next tick k n
    → IsNode next' tick' k n
IsNode-later p q h = record {
  same_id = h.same_id;
  nonzero_id = h.nonzero_id;
  fresh = omega arith;
  stamped = omega arith;
  hashed = h.hashed;
  sized = h.sized;
  committed_set = h.committed_set;
  prompt_set = h.prompt_set;
}

pub new_cache-IsSound :
    (max_bytes : ℕ) (arena : Option ReusableStateArena) → IsSound (new_cache max_bytes arena)
unfolding new_cache weight
new_cache-IsSound max_bytes arena = record {
  distinct = tt;
  entries = Entries-empty _;
  exact = refl;
  small = omega arith;
  started = omega arith;
}

pub reset-IsSound : (c : PrefixCache) → IsSound c → IsSound (reset c)
unfolding reset weight
reset-IsSound c v = record {
  distinct = tt;
  entries = Entries-empty _;
  exact = refl;
  small = omega arith;
  started = v.started;
}

pub absent_next : (c : PrefixCache) → IsSound c → find c.next_node_id c.nodes ≡ none
absent_next c v = elim (Option-cases (find c.next_node_id c.nodes)) [
  | inl e ↦ e
  | inr (n, e) ↦ absurd (let h = v.entries.entry c.next_node_id n e in omega (arith, h.fresh))
]

-- A write to a node that keeps its size.
pub rewrite-IsSound :
    (c : PrefixCache) (k : ℕ) (f : CacheNode → CacheNode) (n : CacheNode) (tick : ℕ)
    → IsSound c
    → find k c.nodes ≡ some n
    → c.tick ≤ tick
    → (f n).total_bytes ≡ n.total_bytes
    → (IsNode c.next_node_id tick k n → IsNode c.next_node_id tick k (f n))
    → IsSound (record c { nodes = modify k f c.nodes; tick = tick })
rewrite-IsSound c k f n tick v found later size keep = record {
  distinct = modify-Distinct k f c.nodes v.distinct;
  entries =
      Entries-modify (IsNode c.next_node_id tick) k f c.nodes
        (λ x hx.
          subst (λ y. IsNode c.next_node_id tick k y → IsNode c.next_node_id tick k (f y))
            (same x hx) keep)
        (record { entry = λ j x hx. IsNode-later (omega arith) later (v.entries.entry j x hx) });
  exact =
      omega (
        arith,
        v.exact,
        size,
        weight-modify (λ (n : CacheNode). n.total_bytes) k f n c.nodes found,
      );
  small = v.small;
  started = v.started;
}
  where
    same : (x : CacheNode) → find k c.nodes ≡ some x → n ≡ x
    same x hx = ground arith

pub touch-IsSound : (c : PrefixCache) (k : ℕ) → IsSound c → c.tick + 1 < word → IsSound (touch c k)
unfolding touch
touch-IsSound c k v room = elim (Option-cases (find k c.nodes)) [
  | inl e ↦ rw (e, touch) v
  | inr (n, e) ↦
      rw (e, touch)
        (rewrite-IsSound c k (stamp c.tick) n (add64 c.tick 1) v e (omega arith) refl λ h. record {
          same_id = h.same_id;
          nonzero_id = h.nonzero_id;
          fresh = h.fresh;
          stamped = omega arith;
          hashed = h.hashed;
          sized = h.sized;
          committed_set = h.committed_set;
          prompt_set = h.prompt_set;
        })
]

pub remove_node-IsSound : (c : PrefixCache) (k : ℕ) → IsSound c → IsSound (remove_node c k)
unfolding remove_node remove_found
remove_node-IsSound c k v = elim (Option-cases (find k c.nodes)) [
  | inl e ↦ rw (e, remove_node) v
  | inr (n, e) ↦
      let freed = weight-erase (λ (n : CacheNode). n.total_bytes) k n c.nodes e in
      rw (e, remove_node)
        (record {
          distinct = erase-Distinct k c.nodes v.distinct;
          entries = Entries-erase (IsNode c.next_node_id c.tick) k c.nodes v.distinct v.entries;
          exact = omega (arith, v.exact, v.small, freed);
          small = omega arith;
          started = v.started;
        })
]
