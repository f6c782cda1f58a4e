-- ===== src/PrefixCache/Lookups.antt =====
-- `Lookup` on a consistent cache: it returns, it answers with the node that its order of preference
-- names, and it leaves the cache as it was but for the mark of use.
use nemotron_inference.Base.{
  ℕ, ◌<◌, ◌≡◌, refl, sym, ap, ◌∙◌, inl, inr, Bool-cases, Option-cases, true, false, List, Option,
  none, some, arith, ◌==◌, nat_key, string_key, find, ==_iff, length,
}
use nemotron_inference.PrefixCache.Identity.{SerializedPromptIdentity, prefix_matches}
use nemotron_inference.PrefixCache.State.{
  PrefixCache, CacheNode, CacheMatch, CacheMatchSource, conversation_committed_head,
  conversation_prompt_head, global_root, no_match, ConversationCheckpointKind, committed_head,
  prompt_head,
}
use nemotron_inference.PrefixCache.Nodes.{touch}
use nemotron_inference.PrefixCache.Publish.{heads}
use nemotron_inference.PrefixCache.Lookup.{
  build_match, match_head, best_root, lookup_root, lookup_committed, lookup_prompt,
}
use nemotron_inference.PrefixCache.Heads.{is_head, member}
use nemotron_inference.PrefixCache.Consistency.{IsConsistent}
use nemotron_inference.PrefixCache.Leave.{set_of, heads-Agree}
use nemotron_inference.PrefixCache.Roots.{NoneLonger, stays, better, best_root-Best}

-- A conversation's head is a node of a consistent cache.
pub head_there :
    (kind : ConversationCheckpointKind) (c : PrefixCache) (x : List ℕ) (id : ℕ)
    → IsConsistent c
    → find x (heads kind c) ≡ some id
    → (n : CacheNode) × (find id c.nodes ≡ some n)
head_there kind c x id v head = elim (Option-cases (find id c.nodes)) [
  | inl e ↦
      let agree = (heads-Agree kind c v.headed).agree x id in
      let on : true ≡ false =
        sym (ap (is_head id) head ∙ ground (arith, ==_iff id id))
        ∙ agree
        ∙ ap (member (set_of kind) x) e in
      absurd cc
  | inr p ↦ p
]

module _ (c : PrefixCache) (identity : SerializedPromptIdentity) where
  -- The conversation has no head of the kind that matches.
  abbrev pub HeadMisses : ConversationCheckpointKind → List ℕ → Type 0
  HeadMisses kind x =
      (id : ℕ) (n : CacheNode)
      → find x (heads kind c) ≡ some id
      → find id c.nodes ≡ some n
      → prefix_matches n.identity identity ≡ false

  -- The answer names the node, and the cache has marked it as used.
  pub record Names (id : ℕ) (n : CacheNode) (source : CacheMatchSource) (d : PrefixCache)
      (m : CacheMatch) : Type 0 where
    pub found : find id c.nodes ≡ some n
    pub matches : prefix_matches n.identity identity ≡ true
    pub source_is : m.source ≡ source
    pub same_id : m.node_id ≡ id
    pub tokens : m.matched_token_count ≡ length n.identity.token_ids
    pub state : m.state ≡ n.state
    pub marked : d ≡ touch c id

  -- The answer of the search over the global roots.
  pub data RootAnswer (d : PrefixCache) (m : CacheMatch) : Type 0 where
    longest_root :
        (id : ℕ) (n : CacheNode)
        → Names id n global_root d m
        → n.is_global_root ≡ true
        → 0 < length n.identity.token_ids
        → NoneLonger identity (length n.identity.token_ids) c.nodes
        → RootAnswer d m
    no_root : d ≡ c → m ≡ no_match → NoneLonger identity 0 c.nodes → RootAnswer d m

  -- The answer for a conversation.
  pub data HeadAnswer (kind : ConversationCheckpointKind) (source : CacheMatchSource) (x : List ℕ)
      (Otherwise : PrefixCache → CacheMatch → Type 0) (d : PrefixCache) (m : CacheMatch)
      : Type 0 where
    from_head :
        (id : ℕ) (n : CacheNode)
        → find x (heads kind c) ≡ some id
        → Names id n source d m
        → HeadAnswer kind source x Otherwise d m
    past_head : HeadMisses kind x → Otherwise d m → HeadAnswer kind source x Otherwise d m

  abbrev pub CommittedAnswer : List ℕ → PrefixCache → CacheMatch → Type 0
  CommittedAnswer x = HeadAnswer committed_head conversation_committed_head x RootAnswer

  abbrev pub PromptAnswer : List ℕ → PrefixCache → CacheMatch → Type 0
  PromptAnswer x = HeadAnswer prompt_head conversation_prompt_head x (CommittedAnswer x)

  -- It returns an answer of the kind.
  abbrev pub Returns :
      (PrefixCache → CacheMatch → Type 0) → Option (PrefixCache × CacheMatch) → Type 0
  Returns Answer run = (d : PrefixCache) × (m : CacheMatch) × (run ≡ some (d, m)) × Answer d m

  pub build_match-Names :
      (id : ℕ) (n : CacheNode) (source : CacheMatchSource)
      → IsConsistent c
      → find id c.nodes ≡ some n
      → prefix_matches n.identity identity ≡ true
      → Returns (Names id n source) (build_match c id source)
  unfolding build_match
  build_match-Names id n source v found matches =
      let entry = v.sound.entries.entry id n found in
      (
        touch c id,
        record {
          source = source;
          node_id = n.id;
          matched_token_count = length n.identity.token_ids;
          state = n.state;
        },
        rw (found, build_match),
        record {
          found = found;
          matches = matches;
          source_is = refl;
          same_id = entry.same_id;
          tokens = refl;
          state = refl;
          marked = refl;
        },
      )

  pub lookup_root-Returns : IsConsistent c → Returns RootAnswer (lookup_root c identity)
  unfolding lookup_root
  lookup_root-Returns v = elim (best_root-Best identity c.nodes 0 0 v.sound.distinct) [
    | stays same all ↦ (c, no_match, rw same refl, no_root refl refl all)
    | better n found root matches longer all ↦
        let entry = v.sound.entries.entry (best_root identity c.nodes 0 0) n found in
        let other : (best_root identity c.nodes 0 0 == 0) ≡ false =
          ground (arith, ==_iff (best_root identity c.nodes 0 0) 0, entry.nonzero_id) in
        let (d, m, e, names) =
          build_match-Names (best_root identity c.nodes 0 0) n global_root v found matches in
        (d, m, rw other e, longest_root (best_root identity c.nodes 0 0) n names root longer all)
  ]

  -- What `match_head` decides.
  data Matched (kind : ConversationCheckpointKind) (x : List ℕ) : Type 0 where
    matched :
        (id : ℕ) (n : CacheNode)
        → match_head c (heads kind c) x identity ≡ some (some id)
        → find x (heads kind c) ≡ some id
        → find id c.nodes ≡ some n
        → prefix_matches n.identity identity ≡ true
        → Matched kind x
    unmatched :
        match_head c (heads kind c) x identity ≡ some none → HeadMisses kind x → Matched kind x

  match_head-Matched :
      (kind : ConversationCheckpointKind) (x : List ℕ) → IsConsistent c → Matched kind x
  unfolding match_head
  match_head-Matched kind x v = elim (Option-cases (find x (heads kind c))) [
    | inl e ↦
        unmatched (rw (e, match_head) refl)
          (λ id n head found. absurd (let off : none ≡ some id = sym e ∙ head in cc))
    | inr (id, e) ↦
        let (n, found) = head_there kind c x id v e in
        elim (Bool-cases (prefix_matches n.identity identity)) [
          | inl hit ↦ matched id n (rw (e, match_head, found, hit) refl) e found hit
          | inr miss ↦ unmatched (rw (e, match_head, found, miss) refl) (λ j m head there.
              let same : id ≡ j = ground (arith, sym e ∙ head) in
              let node : some n ≡ some m = sym found ∙ rw same there in ground arith)
        ]
  ]

  pub lookup_committed-Returns :
      (x : List ℕ) → IsConsistent c → Returns (CommittedAnswer x) (lookup_committed c identity x)
  unfolding lookup_committed
  lookup_committed-Returns x v = elim (match_head-Matched committed_head x v) [
    | matched id n e head found hit ↦
        let (d, m, e', names) = build_match-Names id n conversation_committed_head v found hit in
        (d, m, rw e e', from_head id n head names)
    | unmatched e misses ↦
        let (d, m, e', answer) = lookup_root-Returns v in (d, m, rw e e', past_head misses answer)
  ]

  pub lookup_prompt-Returns :
      (x : List ℕ) → IsConsistent c → Returns (PromptAnswer x) (lookup_prompt c identity x)
  unfolding lookup_prompt
  lookup_prompt-Returns x v = elim (match_head-Matched prompt_head x v) [
    | matched id n e head found hit ↦
        let (d, m, e', names) = build_match-Names id n conversation_prompt_head v found hit in
        (d, m, rw e e', from_head id n head names)
    | unmatched e misses ↦
        let (d, m, e', answer) = lookup_committed-Returns x v in
        (d, m, rw e e', past_head misses answer)
  ]

  pub lookup_committed_hit :
      (x : List ℕ) (id : ℕ) (n : CacheNode)
      → find x c.committed_heads ≡ some id
      → find id c.nodes ≡ some n
      → prefix_matches n.identity identity ≡ true
      → lookup_committed c identity x ≡ build_match c id conversation_committed_head
  unfolding lookup_committed match_head
  lookup_committed_hit x id n head found hit = rw (head, match_head, found, hit) refl

  pub lookup_prompt_hit :
      (x : List ℕ) (id : ℕ) (n : CacheNode)
      → find x c.prompt_heads ≡ some id
      → find id c.nodes ≡ some n
      → prefix_matches n.identity identity ≡ true
      → lookup_prompt c identity x ≡ build_match c id conversation_prompt_head
  unfolding lookup_prompt match_head
  lookup_prompt_hit x id n head found hit = rw (head, match_head, found, hit) refl
