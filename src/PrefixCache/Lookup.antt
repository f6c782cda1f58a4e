-- ===== src/PrefixCache/Lookup.antt =====
-- `Lookup`, `Describe` and the head queries. `none` in an outer option stands for the exception of
-- `nodes.at` on a missing id.
use nemotron_inference.Base.{
  ℕ, Bool, true, false, ◌&&◌, List, [], ◌∷◌, Option, none, some, ltb, ◌==◌, if◌then◌else◌, nat_key,
  string_key, find, length,
}
use nemotron_inference.ReusableState.{ReusableStateDescriptor}
use nemotron_inference.PrefixCache.Identity.{SerializedPromptIdentity, prefix_matches}
use nemotron_inference.PrefixCache.State.{
  PrefixCache, CacheNode, StringSet, CacheLookupRequest, CacheMatch, CacheMatchSource, no_match,
  conversation_committed_head, conversation_prompt_head, global_root,
}
use nemotron_inference.PrefixCache.Nodes.{touch}
use nemotron_inference.PrefixCache.Publish.{◌>>=◌}

-- The lambda `build_match`. The node is read after the touch, which leaves what is read alone.
unfoldable pub build_match : PrefixCache → ℕ → CacheMatchSource → Option (PrefixCache × CacheMatch)
build_match c node_id source = elim (find node_id c.nodes) [
  | none ↦ none
  | some node ↦ some (
    touch c node_id,
    record {
      source = source;
      node_id = node.id;
      matched_token_count = length node.identity.token_ids;
      state = node.state;
    },
  )
]

-- Whether a conversation's head is there and matches: the id under which it stands.
unfoldable pub match_head :
    PrefixCache → List (List ℕ × ℕ) → List ℕ → SerializedPromptIdentity → Option (Option ℕ)
match_head c heads conversation_id identity = elim (find conversation_id heads) [
  | none ↦ some none
  | some head ↦ elim (find head c.nodes) [
    | none ↦ none
    | some node ↦ some (if prefix_matches node.identity identity then some head else none)
  ]
]

-- The loop over the global roots, with the best id and length so far.
unfoldable pub best_root : SerializedPromptIdentity → List (ℕ × CacheNode) → ℕ → ℕ → ℕ
best_root identity [] best_id best_length = best_id
best_root identity ((node_id, node) ∷ rest) best_id best_length =
    let better =
      node.is_global_root
      && (prefix_matches node.identity identity
          && ltb best_length (length node.identity.token_ids)) in
    best_root identity rest (if better then node_id else best_id)
      (if better then length node.identity.token_ids else best_length)

unfoldable pub lookup_root :
    PrefixCache → SerializedPromptIdentity → Option (PrefixCache × CacheMatch)
lookup_root c identity =
    let best_id = best_root identity c.nodes 0 0 in
    if best_id == 0 then some (c, no_match) else build_match c best_id global_root

unfoldable pub lookup_committed :
    PrefixCache → SerializedPromptIdentity → List ℕ → Option (PrefixCache × CacheMatch)
lookup_committed c identity conversation_id = do
  head ← match_head c c.committed_heads conversation_id identity
  elim head [
    | none ↦ lookup_root c identity
    | some id ↦ build_match c id conversation_committed_head
  ]

unfoldable pub lookup_prompt :
    PrefixCache → SerializedPromptIdentity → List ℕ → Option (PrefixCache × CacheMatch)
lookup_prompt c identity conversation_id = do
  head ← match_head c c.prompt_heads conversation_id identity
  elim head [
    | none ↦ lookup_committed c identity conversation_id
    | some id ↦ build_match c id conversation_prompt_head
  ]

unfoldable pub lookup : PrefixCache → CacheLookupRequest → Option (PrefixCache × CacheMatch)
lookup c request =
    if c.enabled
    then elim request.conversation_id [
      | none ↦ lookup_root c request.identity
      | some conversation_id ↦
          if request.allow_prompt_head
          then lookup_prompt c request.identity conversation_id
          else lookup_committed c request.identity conversation_id
    ]
    else some (c, no_match)

unfoldable pub committed_head_for_conversation : PrefixCache → List ℕ → Option ℕ
committed_head_for_conversation c conversation_id = find conversation_id c.committed_heads

unfoldable pub prompt_head_for_conversation : PrefixCache → List ℕ → Option ℕ
prompt_head_for_conversation c conversation_id = find conversation_id c.prompt_heads

-- The order of std::string: byte by byte, and a proper prefix comes first.
unfoldable pub str_less : List ℕ → List ℕ → Bool
str_less [] [] = false
str_less [] (_ ∷ _) = true
str_less (_ ∷ _) [] = false
str_less (a ∷ s) (b ∷ t) =
    let rest = str_less s t in if ltb a b then true else (if a == b then rest else false)

unfoldable pub insert_sorted : List ℕ → List (List ℕ) → List (List ℕ)
insert_sorted s [] = s ∷ []
insert_sorted s (t ∷ rest) = if str_less t s then t ∷ insert_sorted s rest else s ∷ t ∷ rest

-- `sorted_strings`: std::sort, by insertion. No string occurs twice in a set.
unfoldable pub sorted_strings : StringSet → List (List ℕ)
unfolding str_less insert_sorted
sorted_strings [] = []
sorted_strings ((s, _) ∷ rest) = insert_sorted s (sorted_strings rest)

pub record CacheEntryView : Type 0 where
  pub node_id : ℕ
  pub identity : SerializedPromptIdentity
  pub state : ReusableStateDescriptor
  pub is_global_root : Bool
  pub committed_conversations : List (List ℕ)
  pub prompt_conversations : List (List ℕ)
  pub last_access_tick : ℕ
  pub total_bytes : ℕ

unfoldable pub describe : PrefixCache → ℕ → Option CacheEntryView
unfolding sorted_strings
describe c node_id = elim (find node_id c.nodes) [
  | none ↦ none
  | some node ↦ some (record {
    node_id = node.id;
    identity = node.identity;
    state = node.state;
    is_global_root = node.is_global_root;
    committed_conversations = sorted_strings node.committed_conversations;
    prompt_conversations = sorted_strings node.prompt_conversations;
    last_access_tick = node.last_access_tick;
    total_bytes = node.total_bytes;
  })
]
