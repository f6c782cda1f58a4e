-- ===== src/PrefixCache/Publish.antt =====
-- `PublishConversationHead`, `PublishGlobalRoot` and the assignment of roles. `none` stands for the
-- exception of `nodes.at` on a missing id.
use nemotron_inference.Base.{
  ℕ, true, List, Option, none, some, ◌==◌, if◌then◌else◌, nat_key, string_key, find, emplace,
  assign, modify, erase,
}
use nemotron_inference.ReusableState.{ReusableStateDescriptor}
use nemotron_inference.PrefixCache.Identity.{SerializedPromptIdentity}
use nemotron_inference.PrefixCache.State.{
  PrefixCache, CacheNode, ConversationCheckpointKind, committed_head, prompt_head, node_has_roles,
}
use nemotron_inference.PrefixCache.Nodes.{remove_node, touch, find_or_create_node, evict_to_budget}

abbrev pub heads : ConversationCheckpointKind → PrefixCache → List (List ℕ × ℕ)
heads committed_head c = c.committed_heads
heads prompt_head c = c.prompt_heads

abbrev pub with_heads : ConversationCheckpointKind → PrefixCache → List (List ℕ × ℕ) → PrefixCache
with_heads committed_head c m = record c { committed_heads = m }
with_heads prompt_head c m = record c { prompt_heads = m }

abbrev pub without_conversation : ConversationCheckpointKind → List ℕ → CacheNode → CacheNode
without_conversation committed_head id node = record node {
  committed_conversations = erase id node.committed_conversations;
}
without_conversation prompt_head id node = record node {
  prompt_conversations = erase id node.prompt_conversations;
}

abbrev pub with_conversation : ConversationCheckpointKind → List ℕ → CacheNode → CacheNode
with_conversation committed_head id node = record node {
  committed_conversations = emplace id tt node.committed_conversations;
}
with_conversation prompt_head id node = record node {
  prompt_conversations = emplace id tt node.prompt_conversations;
}

unfoldable pub remove_conversation_role :
    PrefixCache → ℕ → List ℕ → ConversationCheckpointKind → PrefixCache
remove_conversation_role c node_id conversation_id kind = elim (find node_id c.nodes) [
  | none ↦ c
  | some node ↦
      let d = record c {
        nodes = modify node_id (without_conversation kind conversation_id) c.nodes;
      } in
      if node_has_roles (without_conversation kind conversation_id node)
      then d
      else remove_node d node_id
]

-- The first half of `AssignConversationHead`: the conversation leaves the node that it had.
unfoldable pub leave_head : PrefixCache → ℕ → List ℕ → ConversationCheckpointKind → PrefixCache
leave_head c node_id conversation_id kind = elim (find conversation_id (heads kind c)) [
  | none ↦ c
  | some existing ↦
      if existing == node_id then c else remove_conversation_role c existing conversation_id kind
]

unfoldable pub assign_conversation_head :
    PrefixCache → ℕ → List ℕ → ConversationCheckpointKind → Option PrefixCache
assign_conversation_head c node_id conversation_id kind =
    let d = leave_head c node_id conversation_id kind in
    let e = with_heads kind d (assign conversation_id node_id (heads kind d)) in
    elim (find node_id e.nodes) [
      | none ↦ none
      | some _ ↦ some (
          touch
            (record e { nodes = modify node_id (with_conversation kind conversation_id) e.nodes })
            node_id)
    ]

abbrev pub as_root : CacheNode → CacheNode
as_root node = record node { is_global_root = true }

unfoldable pub assign_global_root : PrefixCache → ℕ → Option PrefixCache
assign_global_root c node_id = elim (find node_id c.nodes) [
  | none ↦ none
  | some _ ↦ some (touch (record c { nodes = modify node_id as_root c.nodes }) node_id)
]

-- `EvictToBudget(); return Describe(node_id).has_value() ? node_id : 0;`
unfoldable pub finish_publish : PrefixCache → ℕ → PrefixCache × ℕ
finish_publish c node_id =
    let d = evict_to_budget c in (d, elim (find node_id d.nodes) [ none ↦ 0 | some _ ↦ node_id ])

infixl 5 ◌>>=◌
abbrev pub ◌>>=◌ {ℓ κ} : {A : Type ℓ} {B : Type κ} → Option A → (A → Option B) → Option B
none >>= f = none
some a >>= f = f a

unfoldable pub publish_conversation_head :
    PrefixCache
    → List ℕ
    → ConversationCheckpointKind
    → SerializedPromptIdentity
    → ReusableStateDescriptor
    → Option (PrefixCache × ℕ)
publish_conversation_head c conversation_id kind identity state =
    if c.enabled
    then (do
      (d, node_id) ← find_or_create_node c identity state
      if node_id == 0 then some (d, 0) else (do
        e ← assign_conversation_head d node_id conversation_id kind
        some (finish_publish e node_id)))
    else some (c, 0)

unfoldable pub publish_global_root :
    PrefixCache → SerializedPromptIdentity → ReusableStateDescriptor → Option (PrefixCache × ℕ)
publish_global_root c identity state =
    if c.enabled
    then (do
      (d, node_id) ← find_or_create_node c identity state
      if node_id == 0
          then some (d, 0)
          else (do e ← assign_global_root d node_id; some (finish_publish e node_id)))
    else some (c, 0)
