-- ===== src/PrefixCache/State.antt =====
-- The state of the prefix cache, `PrefixCache::Impl`, with the arena that it was given.
use nemotron_inference.Base.{
  ℕ, Bool, true, false, ◌||◌, not, List, [], ◌∷◌, Option, none, some, length, suc, if◌then◌else◌,
}
use nemotron_inference.ReusableState.{
  ReusableStateArena, ReusableStateDescriptor, retain_descriptor, release_descriptor, no_descriptor,
}
use nemotron_inference.PrefixCache.Identity.{SerializedPromptIdentity}

-- std::unordered_set<std::string>, as a map to the one-element type.
abbrev pub StringSet : Type 0
StringSet = List (List ℕ × Unit {0})

pub data ConversationCheckpointKind : Type 0 where
  committed_head prompt_head : ConversationCheckpointKind

pub data CacheMatchSource : Type 0 where
  no_source conversation_committed_head conversation_prompt_head global_root : CacheMatchSource

pub record CacheNode : Type 0 where
  pub id : ℕ
  pub identity : SerializedPromptIdentity
  pub state : ReusableStateDescriptor
  pub fingerprint : ℕ
  pub is_global_root : Bool
  pub committed_conversations : StringSet
  pub prompt_conversations : StringSet
  pub last_access_tick : ℕ
  pub total_bytes : ℕ

-- `state_arena` is `none` for a null pointer. The cache is the arena's only user while one of its
-- methods runs; what others do to the arena between two calls is a change of this field.
pub record PrefixCache : Type 0 where
  pub max_bytes : ℕ
  pub current_bytes : ℕ
  pub tick : ℕ
  pub next_node_id : ℕ
  pub nodes : List (ℕ × CacheNode)
  pub nodes_by_fingerprint : List (ℕ × ℕ)
  pub committed_heads : List (List ℕ × ℕ)
  pub prompt_heads : List (List ℕ × ℕ)
  pub state_arena : Option ReusableStateArena
  pub enabled : Bool

pub record CacheLookupRequest : Type 0 where
  pub identity : SerializedPromptIdentity
  pub conversation_id : Option (List ℕ)
  pub allow_prompt_head : Bool

pub record CacheMatch : Type 0 where
  pub source : CacheMatchSource
  pub node_id : ℕ
  pub matched_token_count : ℕ
  pub state : ReusableStateDescriptor

-- `return {};`
abbrev pub no_match : CacheMatch
no_match = record {
  source = no_source;
  node_id = 0;
  matched_token_count = 0;
  state = no_descriptor;
}

unfoldable pub hit : CacheMatch → Bool
hit m = elim m.source [ no_source ↦ false | _ ↦ true ]

unfoldable pub new_cache : ℕ → Option ReusableStateArena → PrefixCache
new_cache max_bytes state_arena = record {
  max_bytes = max_bytes;
  current_bytes = 0;
  tick = 1;
  next_node_id = 1;
  nodes = [];
  nodes_by_fingerprint = [];
  committed_heads = [];
  prompt_heads = [];
  state_arena = state_arena;
  enabled = true;
}

-- `state_arena->Release(d)`, guarded by the test for a null pointer.
unfoldable pub release_in :
    Option ReusableStateArena → ReusableStateDescriptor → Option ReusableStateArena
release_in none d = none
release_in (some a) d = some (release_descriptor a d)

-- `RetainState`: a cache without an arena retains anything.
unfoldable pub retain_in :
    Option ReusableStateArena → ReusableStateDescriptor → Option ReusableStateArena × Bool
retain_in none d = (none, true)
retain_in (some a) d = let (b, held) = retain_descriptor a d in (some b, held)

-- The loop of `Reset` over the nodes.
unfoldable pub release_nodes :
    Option ReusableStateArena → List (ℕ × CacheNode) → Option ReusableStateArena
unfolding release_in
release_nodes arena [] = arena
release_nodes arena ((_, node) ∷ rest) = release_nodes (release_in arena node.state) rest

unfoldable pub reset : PrefixCache → PrefixCache
reset c = record c {
  state_arena = release_nodes c.state_arena c.nodes;
  current_bytes = 0;
  nodes = [];
  nodes_by_fingerprint = [];
  committed_heads = [];
  prompt_heads = [];
}

unfoldable pub set_enabled : PrefixCache → Bool → PrefixCache
set_enabled c true = elim c.enabled [ true ↦ c | false ↦ record c { enabled = true } ]
set_enabled c false = elim c.enabled [ true ↦ record (reset c) { enabled = false } | false ↦ c ]

unfoldable pub clear : PrefixCache → PrefixCache
clear c = reset c

unfoldable pub is_empty {ℓ} : {A : Type ℓ} → List A → Bool
is_empty [] = true
is_empty (_ ∷ _) = false

unfoldable pub node_has_roles : CacheNode → Bool
unfolding is_empty
node_has_roles node =
    node.is_global_root
    || (not (is_empty node.committed_conversations) || not (is_empty node.prompt_conversations))

unfoldable pub node_count : PrefixCache → ℕ
node_count c = length c.nodes

unfoldable pub count_roots : List (ℕ × CacheNode) → ℕ
count_roots [] = 0
count_roots ((_, node) ∷ rest) =
    if node.is_global_root then suc (count_roots rest) else count_roots rest

unfoldable pub global_root_count : PrefixCache → ℕ
unfolding count_roots
global_root_count c = count_roots c.nodes
