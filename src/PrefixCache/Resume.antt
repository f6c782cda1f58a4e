-- ===== src/PrefixCache/Resume.antt =====
-- A conversation finds what it published: `PublishConversationHead` followed by `Lookup`.
use nemotron_inference.Base.{
  ℕ, ◌<◌, ◌≡◌, refl, sym, ap, ◌∙◌, true, false, List, some, arith, nat_key, string_key, find,
  length,
}
use mathlib.Core.Option.{some-injective}
use nemotron_inference.ReusableState.{ReusableStateDescriptor}
use nemotron_inference.PrefixCache.Identity.{SerializedPromptIdentity, prefix_matches}
use nemotron_inference.PrefixCache.State.{
  PrefixCache, CacheNode, ConversationCheckpointKind, committed_head, prompt_head, CacheMatchSource,
  conversation_committed_head, conversation_prompt_head, CacheMatch, CacheLookupRequest,
}
use nemotron_inference.PrefixCache.Publish.{heads, publish_conversation_head}
use nemotron_inference.PrefixCache.Lookup.{build_match, lookup}
use nemotron_inference.PrefixCache.Matching.{SameMetadata, IsTokenPrefix, prefix_matches_iff}
use nemotron_inference.PrefixCache.Consistency.{IsConsistent}
use nemotron_inference.PrefixCache.Publishing.{
  Outcome, published, unretained, too_big, HasRoom, IsHead,
}
use nemotron_inference.PrefixCache.Published.{publish_conversation_head-Publication}
use nemotron_inference.PrefixCache.Lookups.{
  build_match-Names, lookup_committed_hit, lookup_prompt_hit,
}
use nemotron_inference.PrefixCache.Requests.{lookup_prompts, lookup_committeds}

-- The request that reads a head of the kind.
abbrev pub head_request :
    ConversationCheckpointKind → List ℕ → SerializedPromptIdentity → CacheLookupRequest
head_request committed_head x identity = record {
  identity = identity;
  conversation_id = some x;
  allow_prompt_head = false;
}
head_request prompt_head x identity = record {
  identity = identity;
  conversation_id = some x;
  allow_prompt_head = true;
}

abbrev pub head_source : ConversationCheckpointKind → CacheMatchSource
head_source committed_head = conversation_committed_head
head_source prompt_head = conversation_prompt_head

head_request-hit :
    (kind : ConversationCheckpointKind) (c : PrefixCache) (x : List ℕ)
    (identity : SerializedPromptIdentity) (id : ℕ) (n : CacheNode)
    → c.enabled ≡ true
    → find x (heads kind c) ≡ some id
    → find id c.nodes ≡ some n
    → prefix_matches n.identity identity ≡ true
    → lookup c (head_request kind x identity) ≡ build_match c id (head_source kind)
head_request-hit committed_head c x identity id n on head found matches =
    lookup_committeds c (head_request committed_head x identity) on x refl refl
    ∙ lookup_committed_hit c identity x id n head found matches
head_request-hit prompt_head c x identity id n on head found matches =
    lookup_prompts c (head_request prompt_head x identity) on x refl refl
    ∙ lookup_prompt_hit c identity x id n head found matches

-- What the conversation gets.
pub record Resumes (c : PrefixCache) (request : CacheLookupRequest) (source : CacheMatchSource)
    (id tokens : ℕ) (state : ReusableStateDescriptor) : Type 0 where
  pub after : PrefixCache
  pub answer : CacheMatch
  pub returns : lookup c request ≡ some (after, answer)
  pub source_is : answer.source ≡ source
  pub same_id : answer.node_id ≡ id
  pub all_tokens : answer.matched_token_count ≡ tokens
  pub same_state : answer.state ≡ state

Outcome-Resumes :
    (c r : PrefixCache) (x : List ℕ) (kind : ConversationCheckpointKind)
    (identity later : SerializedPromptIdentity) (state : ReusableStateDescriptor) (id : ℕ)
    → IsConsistent r
    → r.enabled ≡ true
    → prefix_matches identity later ≡ true
    → 0 < id
    → Outcome c identity state (IsHead kind x) r id
    → Resumes r (head_request kind x later) (head_source kind) id (length identity.token_ids) state
Outcome-Resumes c r x kind identity later state id v on matches pos
      (published n pos' found same_identity same_state head) =
    let hits : prefix_matches n.identity later ≡ true = rw same_identity matches in
    let (d, m, e, names) = build_match-Names r later id n (head_source kind) v found hits in
    record {
      after = d;
      answer = m;
      returns = head_request-hit kind r x later id n on head found hits ∙ e;
      source_is = names.source_is;
      same_id = names.same_id;
      all_tokens = names.tokens ∙ ap (λ i. length i.token_ids) same_identity;
      same_state = names.state ∙ same_state;
    }
Outcome-Resumes c r x kind identity later state id v on matches pos (unretained zero_id _ _) =
    absurd (omega arith)
Outcome-Resumes c r x kind identity later state id v on matches pos (too_big zero_id _) =
    absurd (omega arith)

-- In a consistent, enabled cache within its budget, where the sizes, the next id and the next ticks
-- are 64-bit words, after a PublishConversationHead that returned an id, a Lookup for the same
-- conversation, tenant, revisions and mode with tokens that continue the published ones, which
-- allows the prompt head if a prompt head was published and does not if a committed head was,
-- returns that node from that kind of head, with the published state and the number of the published
-- tokens.
pub publish_conversation_head-Resumes :
    (c r : PrefixCache) (x : List ℕ) (kind : ConversationCheckpointKind)
    (identity later : SerializedPromptIdentity) (state : ReusableStateDescriptor) (id : ℕ)
    → IsConsistent c
    → HasRoom c identity state
    → publish_conversation_head c x kind identity state ≡ some (r, id)
    → 0 < id
    → SameMetadata identity later
    → IsTokenPrefix identity.token_ids later.token_ids
    → Resumes r (head_request kind x later) (head_source kind) id (length identity.token_ids) state
publish_conversation_head-Resumes c r x kind identity later state id v room e pos metadata prefix =
    let p = publish_conversation_head-Publication c x kind identity state v room in
    let same : (p.after, p.node_id) ≡ (r, id) = some-injective _ _ (sym p.returns ∙ e) in
    let at_r : p.after ≡ r = ap (λ y. y.0) same in
    let at_id : p.node_id ≡ id = ap (λ y. y.1) same in
    let valid : IsConsistent r = rw (← at_r) p.consistent in
    let on : r.enabled ≡ true = sym (ap (λ y. y.enabled) at_r) ∙ p.stays_on in
    let outcome : Outcome c identity state (IsHead kind x) r id = rw (← at_r, ← at_id) p.outcome in
    Outcome-Resumes c r x kind identity later state id valid on
      ((prefix_matches_iff identity later).1 (metadata, prefix)) pos outcome
