-- ===== src/PrefixCache/Nodes.antt =====
-- Removal, access ticks and creation of cache nodes, and eviction. `none` stands for the exception
-- of `nodes.at` on a missing id.
use nemotron_inference.Base.{
  ℕ, zero, suc, ◌-◌, Bool, true, false, ◌&&◌, not, List, [], ◌∷◌, Option, none, some, ltb, ◌==◌,
  if◌then◌else◌, add64, sub64, word, length, nat_key, string_key, find, emplace, modify, erase,
}
use nemotron_inference.ReusableState.{ReusableStateDescriptor, same_descriptor}
use nemotron_inference.PrefixCache.Identity.{
  SerializedPromptIdentity, fingerprint_identity, same_identity, node_bytes,
}
use nemotron_inference.PrefixCache.State.{
  PrefixCache, CacheNode, StringSet, release_in, retain_in, is_empty,
}

-- Two entries of the index, pairs of a fingerprint and an id, are the same.
unfoldable pub same_entry : ℕ → ℕ → ℕ → ℕ → Bool
same_entry f i g j = f == g && i == j

-- `EraseFromFingerprintIndex`: the first entry of the node's fingerprint that holds its id.
unfoldable pub erase_from_index : ℕ → ℕ → List (ℕ × ℕ) → List (ℕ × ℕ)
erase_from_index fingerprint id [] = []
erase_from_index fingerprint id ((f, i) ∷ index) =
    if same_entry f i fingerprint id then index else (f, i) ∷ erase_from_index fingerprint id index

-- One round of the two loops of `RemoveNode` over the conversations of a node: a head that names
-- the node goes.
unfoldable pub erase_head : ℕ → List ℕ → List (List ℕ × ℕ) → List (List ℕ × ℕ)
erase_head node_id conversation_id heads = elim (find conversation_id heads) [
  | none ↦ heads
  | some head ↦ if head == node_id then erase conversation_id heads else heads
]

unfoldable pub erase_heads : ℕ → StringSet → List (List ℕ × ℕ) → List (List ℕ × ℕ)
erase_heads node_id [] heads = heads
erase_heads node_id ((conversation_id, _) ∷ rest) heads =
    erase_heads node_id rest (erase_head node_id conversation_id heads)

-- The part of `RemoveNode` behind the look-up.
unfoldable pub remove_found : PrefixCache → ℕ → CacheNode → PrefixCache
remove_found c node_id node = record c {
  state_arena = release_in c.state_arena node.state;
  committed_heads = erase_heads node_id node.committed_conversations c.committed_heads;
  prompt_heads = erase_heads node_id node.prompt_conversations c.prompt_heads;
  nodes_by_fingerprint = erase_from_index node.fingerprint node.id c.nodes_by_fingerprint;
  current_bytes = sub64 c.current_bytes node.total_bytes;
  nodes = erase node_id c.nodes;
}

unfoldable pub remove_node : PrefixCache → ℕ → PrefixCache
remove_node c node_id = elim (find node_id c.nodes) [
  | none ↦ c
  | some node ↦ remove_found c node_id node
]

abbrev pub stamp : ℕ → CacheNode → CacheNode
stamp tick node = record node { last_access_tick = tick }

unfoldable pub touch : PrefixCache → ℕ → PrefixCache
touch c node_id = elim (find node_id c.nodes) [
  | none ↦ c
  | some _ ↦ record c { nodes = modify node_id (stamp c.tick) c.nodes; tick = add64 c.tick 1 }
]

-- The ids in `equal_range(fingerprint)`.
unfoldable pub equal_range : ℕ → List (ℕ × ℕ) → List ℕ
equal_range fingerprint [] = []
equal_range fingerprint ((f, id) ∷ index) =
    if f == fingerprint then id ∷ equal_range fingerprint index else equal_range fingerprint index

-- The search of `FindOrCreateNode` through that range. The inner option is the node that it finds.
unfoldable pub search_range :
    List (ℕ × CacheNode) → SerializedPromptIdentity → List ℕ → Option (Option (ℕ × CacheNode))
search_range nodes identity [] = some none
search_range nodes identity (id ∷ rest) =
    let others = search_range nodes identity rest in
    elim (find id nodes) [
      | none ↦ none
      | some node ↦ if same_identity node.identity identity then some (some (id, node)) else others
    ]

abbrev pub restate : ReusableStateDescriptor → CacheNode → CacheNode
restate state node = record node { state = state; total_bytes = node_bytes node.identity state }

-- A node of that identity is there: its state is replaced unless it is the same. The search hands
-- over the key under which it found the node, and the code goes on with the node's own id.
unfoldable pub reuse_node : PrefixCache → ℕ → CacheNode → ReusableStateDescriptor → PrefixCache × ℕ
reuse_node c key node state =
    if same_descriptor node.state state
    then (touch c node.id, node.id)
    else (let (arena, held) = retain_in c.state_arena state in
        if held
        then (
          touch
              (record c {
                state_arena = release_in arena node.state;
                current_bytes =
                    add64 (sub64 c.current_bytes node.total_bytes) (node_bytes node.identity state);
                nodes = modify key (restate state) c.nodes;
              })
              node.id,
          node.id,
        )
        else (record c { state_arena = arena }, 0))

abbrev pub new_node : ℕ → SerializedPromptIdentity → ReusableStateDescriptor → ℕ → CacheNode
new_node id identity state tick = record {
  id = id;
  identity = identity;
  state = state;
  fingerprint = fingerprint_identity identity;
  is_global_root = false;
  committed_conversations = [];
  prompt_conversations = [];
  last_access_tick = tick;
  total_bytes = node_bytes identity state;
}

unfoldable pub create_node :
    PrefixCache → SerializedPromptIdentity → ReusableStateDescriptor → PrefixCache × ℕ
create_node c identity state =
    let (arena, held) = retain_in c.state_arena state in
    if held
    then (
      record c {
        state_arena = arena;
        next_node_id = add64 c.next_node_id 1;
        tick = add64 c.tick 1;
        current_bytes = add64 c.current_bytes (node_bytes identity state);
        nodes_by_fingerprint =
            (fingerprint_identity identity, c.next_node_id) ∷ c.nodes_by_fingerprint;
        nodes = emplace c.next_node_id (new_node c.next_node_id identity state c.tick) c.nodes;
      },
      c.next_node_id,
    )
    else (record c { state_arena = arena }, 0)

unfoldable pub find_or_create_node :
    PrefixCache → SerializedPromptIdentity → ReusableStateDescriptor → Option (PrefixCache × ℕ)
find_or_create_node c identity state =
    elim (search_range c.nodes identity
      (equal_range (fingerprint_identity identity) c.nodes_by_fingerprint)) [
        | none ↦ none
        | some none ↦ some (create_node c identity state)
        | some (some (key, node)) ↦ some (reuse_node c key node state)
      ]

-- The search of `EvictToBudget`: the entry with the oldest tick below the bound so far.
unfoldable pub oldest : List (ℕ × CacheNode) → ℕ → Option ℕ → Option ℕ
oldest [] oldest_tick victim = victim
oldest ((id, node) ∷ rest) oldest_tick victim =
    let older = ltb node.last_access_tick oldest_tick in
    oldest rest (if older then node.last_access_tick else oldest_tick)
      (if older then some id else victim)

-- The loop of `EvictToBudget`, on fuel.
unfoldable pub evict_loop : ℕ → PrefixCache → PrefixCache
unfolding is_empty
evict_loop zero c = c
evict_loop (suc fuel) c = elim (ltb c.max_bytes c.current_bytes && not (is_empty c.nodes)) [
  | true ↦ elim (oldest c.nodes (word - 1) none) [
    | none ↦ c
    | some id ↦ evict_loop fuel (remove_node c id)
  ]
  | false ↦ c
]

-- One round for each node is enough (Evict).
unfoldable pub evict_to_budget : PrefixCache → PrefixCache
evict_to_budget c = evict_loop (length c.nodes) c
