-- ===== src/PrefixCache/Isolation.antt =====
-- What every hit of `Lookup` has in common, whichever way it was found.
use nemotron_inference.Base.{
  ℕ, ◌+◌, ◌<◌, ◌≡◌, refl, sym, ap, ◌∙◌, true, List, some, nat_key, find, word, length,
}
use nemotron_inference.PrefixCache.State.{
  PrefixCache, CacheNode, CacheLookupRequest, CacheMatch, CacheMatchSource,
  conversation_committed_head, conversation_prompt_head, global_root, no_match, hit,
}
use nemotron_inference.PrefixCache.Nodes.{touch}
use nemotron_inference.PrefixCache.Lookup.{lookup}
use nemotron_inference.PrefixCache.Matching.{SameMetadata, IsTokenPrefix, prefix_matches_iff}
use nemotron_inference.PrefixCache.Consistency.{IsConsistent, touch-IsConsistent}
use nemotron_inference.PrefixCache.Lookups.{
  Names, RootAnswer, longest_root, no_root, from_head, past_head, CommittedAnswer, PromptAnswer,
}
use nemotron_inference.PrefixCache.Requests.{
  LookupAnswer, disabled, roots_only, committed_first, prompt_first, lookup-LookupAnswer,
}

-- What a hit is: a node of the cache, in the request's tenant and under its revisions and mode,
-- whose tokens begin the request's, together with its state.
pub record Reuse (c : PrefixCache) (request : CacheLookupRequest) (d : PrefixCache) (m : CacheMatch)
    : Type 0 where
  pub node : CacheNode
  pub found : find m.node_id c.nodes ≡ some node
  pub isolated : SameMetadata node.identity request.identity
  pub extends : IsTokenPrefix node.identity.token_ids request.identity.token_ids
  pub tokens : m.matched_token_count ≡ length node.identity.token_ids
  pub state : m.state ≡ node.state
  pub marked : d ≡ touch c m.node_id

-- Either a hit, or no change.
pub data Served (c : PrefixCache) (request : CacheLookupRequest) (d : PrefixCache) (m : CacheMatch)
    : Type 0 where
  reused : hit m ≡ true → Reuse c request d m → Served c request d m
  missed : d ≡ c → m ≡ no_match → Served c request d m

module _ (c d : PrefixCache) (request : CacheLookupRequest) (m : CacheMatch) where
  Names-Reuse :
      (id : ℕ) (n : CacheNode) (by : CacheMatchSource)
      → Names c request.identity id n by d m
      → Reuse c request d m
  Names-Reuse id n by names =
      let (metadata, prefix) = (prefix_matches_iff n.identity request.identity).0 names.matches in
      record {
        node = n;
        found = rw names.same_id names.found;
        isolated = metadata;
        extends = prefix;
        tokens = names.tokens;
        state = names.state;
        marked = names.marked ∙ ap (touch c) (sym names.same_id);
      }

  root-Served : RootAnswer c request.identity d m → Served c request d m
  unfolding hit
  root-Served (longest_root id n names root long all) =
      reused (rw (names.source_is, hit) refl) (Names-Reuse id n global_root names)
  root-Served (no_root same none_at all) = missed same none_at

  committed-Served : (x : List ℕ) → CommittedAnswer c request.identity x d m → Served c request d m
  unfolding hit
  committed-Served x (from_head id n head names) =
      reused (rw (names.source_is, hit) refl) (Names-Reuse id n conversation_committed_head names)
  committed-Served x (past_head misses rest) = root-Served rest

  prompt-Served : (x : List ℕ) → PromptAnswer c request.identity x d m → Served c request d m
  unfolding hit
  prompt-Served x (from_head id n head names) =
      reused (rw (names.source_is, hit) refl) (Names-Reuse id n conversation_prompt_head names)
  prompt-Served x (past_head misses rest) = committed-Served x rest

  answer-Served : LookupAnswer c request d m → Served c request d m
  answer-Served (disabled off same none_at) = missed same none_at
  answer-Served (roots_only anyone answer) = root-Served answer
  answer-Served (committed_first x someone forbidden answer) = committed-Served x answer
  answer-Served (prompt_first x someone allowed answer) = prompt-Served x answer

  Served-IsConsistent : Served c request d m → IsConsistent c → c.tick + 1 < word → IsConsistent d
  Served-IsConsistent (reused h reuse) v ticks =
      rw reuse.marked (touch-IsConsistent c m.node_id v ticks)
  Served-IsConsistent (missed same none_at) v ticks = rw same v

-- A lookup in a consistent cache whose next tick is a word either misses and changes nothing, or
-- hits a node of the request's tenant, revisions and mode whose tokens are a prefix of the request's,
-- returns that node's state and its number of tokens, and leaves a consistent cache that differs in
-- the node's mark of use.
pub lookup-Served :
    (c : PrefixCache) (request : CacheLookupRequest)
    → IsConsistent c
    → c.tick + 1 < word
    → (d : PrefixCache) × (m : CacheMatch) × (lookup c request ≡ some (d, m))
      × Served c request d m
      × IsConsistent d
lookup-Served c request v ticks =
    let (d, m, e, answer) = lookup-LookupAnswer c request v in
    let served = answer-Served c d request m answer in
    (d, m, e, served, Served-IsConsistent c d request m served v ticks)
