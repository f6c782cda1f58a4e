-- ===== src/PrefixCache/Leave.antt =====
-- A conversation leaves its old head, and a node that lost its last role is removed.
use nemotron_inference.Base.{
  ℕ, ◌≡◌, refl, sym, ◌∙◌, inl, inr, Bool-cases, Option-cases, true, false, ◌&&◌, not, List, [],
  none, some, arith, ◌==◌, if◌then◌else◌, nat_key, string_key, str_eq, str_eq_iff, find, modify,
  erase, Distinct, erase-Distinct, ==_iff, find-modify,
}
use nemotron_inference.PrefixCache.State.{
  PrefixCache, CacheNode, StringSet, ConversationCheckpointKind, committed_head, prompt_head,
  node_has_roles,
}
use nemotron_inference.PrefixCache.Nodes.{remove_found, remove_node, erase_heads}
use nemotron_inference.PrefixCache.Publish.{
  heads, without_conversation, remove_conversation_role, leave_head,
}
use nemotron_inference.PrefixCache.Sound.{IsNode, IsSound, rewrite-IsSound, remove_node-IsSound}
use nemotron_inference.PrefixCache.Index.{IsIndexed, rewrite-IsIndexed, remove_node-IsIndexed}
use nemotron_inference.PrefixCache.Evict.{
  is_empty→nil, find-remove_node, remove_node-max_bytes, remove_node-tick,
}
use nemotron_inference.PrefixCache.Heads.{is_head, member, Agree}
use nemotron_inference.PrefixCache.Agreement.{member-keep}
use nemotron_inference.PrefixCache.Members.{member-erase, member-leave}
use nemotron_inference.PrefixCache.Consistency.{committed, prompt, IsHeaded, IsConsistent}

-- The set that a kind of head stands in, and the other one.
abbrev pub set_of : ConversationCheckpointKind → CacheNode → StringSet
set_of committed_head = committed
set_of prompt_head = prompt

abbrev pub other_kind : ConversationCheckpointKind → ConversationCheckpointKind
other_kind committed_head = prompt_head
other_kind prompt_head = committed_head

set_without :
    (kind : ConversationCheckpointKind) (x : List ℕ) (n : CacheNode)
    → set_of kind (without_conversation kind x n) ≡ erase x (set_of kind n)
set_without committed_head x n = refl
set_without prompt_head x n = refl

other_without :
    (kind : ConversationCheckpointKind) (x : List ℕ) (n : CacheNode)
    → set_of (other_kind kind) (without_conversation kind x n) ≡ set_of (other_kind kind) n
other_without committed_head x n = refl
other_without prompt_head x n = refl

-- A conversation has left every node but `keep`; the heads are still those of before.
pub record HasLeft (kind : ConversationCheckpointKind) (x : List ℕ) (keep : ℕ) (c d : PrefixCache)
    : Type 0 where
  pub sound : IsSound d
  pub indexed : IsIndexed d
  pub committed_same : d.committed_heads ≡ c.committed_heads
  pub prompt_same : d.prompt_heads ≡ c.prompt_heads
  pub tick_same : d.tick ≡ c.tick
  pub max_same : d.max_bytes ≡ c.max_bytes
  pub kept : find keep d.nodes ≡ find keep c.nodes
  pub left :
      (y : List ℕ) (id : ℕ)
      → member (set_of kind) y (find id d.nodes) ≡ (
          if str_eq x y && not (id == keep)
          then false
          else member (set_of kind) y (find id c.nodes))
  pub others :
      (y : List ℕ) (id : ℕ)
      → member (set_of (other_kind kind)) y (find id d.nodes)
        ≡ member (set_of (other_kind kind)) y (find id c.nodes)

pub heads-Agree :
    (kind : ConversationCheckpointKind) (c : PrefixCache)
    → IsHeaded c
    → Agree (set_of kind) c.nodes (heads kind c)
heads-Agree committed_head c h = h.committed_agree
heads-Agree prompt_head c h = h.prompt_agree

set_Distinct :
    (kind : ConversationCheckpointKind) {next tick k : ℕ} {n : CacheNode}
    → IsNode next tick k n
    → Distinct (set_of kind n)
set_Distinct committed_head h = h.committed_set
set_Distinct prompt_head h = h.prompt_set

without-IsNode :
    (kind : ConversationCheckpointKind) (x : List ℕ) {next tick k : ℕ} {n : CacheNode}
    → IsNode next tick k n
    → IsNode next tick k (without_conversation kind x n)
without-IsNode committed_head x {n} h = record {
  same_id = h.same_id;
  nonzero_id = h.nonzero_id;
  fresh = h.fresh;
  stamped = h.stamped;
  hashed = h.hashed;
  sized = h.sized;
  committed_set = erase-Distinct x n.committed_conversations h.committed_set;
  prompt_set = h.prompt_set;
}
without-IsNode prompt_head x {n} h = record {
  same_id = h.same_id;
  nonzero_id = h.nonzero_id;
  fresh = h.fresh;
  stamped = h.stamped;
  hashed = h.hashed;
  sized = h.sized;
  committed_set = h.committed_set;
  prompt_set = erase-Distinct x n.prompt_conversations h.prompt_set;
}

without_bytes :
    (kind : ConversationCheckpointKind) (x : List ℕ) (n : CacheNode)
    → ((without_conversation kind x n).total_bytes ≡ n.total_bytes)
      × ((without_conversation kind x n).fingerprint ≡ n.fingerprint)
without_bytes committed_head x n = (refl, refl)
without_bytes prompt_head x n = (refl, refl)

-- Removal of a node without conversations leaves the heads and the other nodes' sets alone.
module _ (d : PrefixCache) (k : ℕ) (n : CacheNode) (found : find k d.nodes ≡ some n)
    (no_committed : n.committed_conversations ≡ []) (no_prompt : n.prompt_conversations ≡ []) where
  remove_roleless_heads :
      ((remove_node d k).committed_heads ≡ d.committed_heads)
      × ((remove_node d k).prompt_heads ≡ d.prompt_heads)
  unfolding remove_node remove_found
  remove_roleless_heads =
      rw (found, remove_node)
        (rw no_committed (unfold erase_heads in refl), rw no_prompt (unfold erase_heads in refl))

  remove_roleless_members :
      (kind : ConversationCheckpointKind) (y : List ℕ) (id : ℕ)
      → Distinct d.nodes
      → member (set_of kind) y (find id (remove_node d k).nodes)
        ≡ member (set_of kind) y (find id d.nodes)
  unfolding remove_node remove_found
  remove_roleless_members kind y id distinct =
      rw (found, remove_node)
        (member-erase (set_of kind) d.nodes k n y id distinct found (empty kind))
    where
      empty : (kind : ConversationCheckpointKind) → set_of kind n ≡ []
      empty committed_head = no_committed
      empty prompt_head = no_prompt

-- The conversation is taken out of the set of its old head.
module _ (kind : ConversationCheckpointKind) (x : List ℕ) (keep : ℕ) (c : PrefixCache) (k : ℕ)
    (n : CacheNode) (v : IsConsistent c) (found : find k c.nodes ≡ some n)
    (head : find x (heads kind c) ≡ some k) (apart : (k == keep) ≡ false) where
  abbrev moved : PrefixCache
  moved = record c { nodes = modify k (without_conversation kind x) c.nodes }

  abbrev moved_node : CacheNode
  moved_node = without_conversation kind x n

  found_moved : find k moved.nodes ≡ some moved_node
  found_moved =
      find-modify k k (without_conversation kind x) c.nodes ∙ rw found (ground (arith, ==_iff k k))

  moved-HasLeft : HasLeft kind x keep c moved
  moved-HasLeft = record {
    sound =
        rewrite-IsSound c k (without_conversation kind x) n c.tick v.sound found (omega arith)
          (without_bytes kind x n).0 (without-IsNode kind x);
    indexed =
        rewrite-IsIndexed c k (without_conversation kind x) c.tick (λ m. (without_bytes kind x m).1)
          v.indexed;
    committed_same = refl;
    prompt_same = refl;
    tick_same = refl;
    max_same = refl;
    kept = find-modify k keep (without_conversation kind x) c.nodes ∙ rw apart;
    left = λ y id.
        member-leave (set_of kind) c.nodes (heads kind c) k keep (without_conversation kind x) n x y
          id (heads-Agree kind c v.headed) found (set_without kind x n)
          (set_Distinct kind (v.sound.entries.entry k n found)) head apart;
    others = λ y id. sym (
        member-keep (set_of (other_kind kind)) c.nodes (heads kind c) k
          (without_conversation kind x) (other_without kind x) y id);
  }

  no_sets :
      node_has_roles moved_node ≡ false
      → (moved_node.committed_conversations ≡ []) × (moved_node.prompt_conversations ≡ [])
  unfolding node_has_roles
  no_sets roleless = (
    is_empty→nil moved_node.committed_conversations (ground arith),
    is_empty→nil moved_node.prompt_conversations (ground arith),
  )

  -- The old head had no other role, and is removed.
  removed-HasLeft : node_has_roles moved_node ≡ false → HasLeft kind x keep c (remove_node moved k)
  removed-HasLeft roleless =
      let (no_committed, no_prompt) = no_sets roleless in
      let same = remove_roleless_heads moved k moved_node found_moved no_committed no_prompt in
      let members = remove_roleless_members moved k moved_node found_moved no_committed no_prompt in
      record {
        sound = remove_node-IsSound moved k moved-HasLeft.sound;
        indexed = remove_node-IsIndexed moved k moved-HasLeft.sound moved-HasLeft.indexed;
        committed_same = same.0;
        prompt_same = same.1;
        tick_same = remove_node-tick moved k;
        max_same = remove_node-max_bytes moved k;
        kept =
            find-remove_node moved k keep moved-HasLeft.sound.distinct
            ∙ rw apart moved-HasLeft.kept;
        left = λ y id. members kind y id moved-HasLeft.sound.distinct ∙ moved-HasLeft.left y id;
        others = λ y id.
            members (other_kind kind) y id moved-HasLeft.sound.distinct ∙ moved-HasLeft.others y id;
      }

  remove_role-HasLeft : HasLeft kind x keep c (remove_conversation_role c k x kind)
  unfolding remove_conversation_role
  remove_role-HasLeft = elim (Bool-cases (node_has_roles moved_node)) [
    | inl roles ↦ rw (found, remove_conversation_role) (rw roles moved-HasLeft)
    | inr roleless ↦ rw (found, remove_conversation_role) (rw roleless (removed-HasLeft roleless))
  ]

-- The first half of `AssignConversationHead`: whatever head the conversation had, it has left every
-- node but the new one.
pub leave_head-HasLeft :
    (kind : ConversationCheckpointKind) (x : List ℕ) (keep : ℕ) (c : PrefixCache)
    → IsConsistent c
    → HasLeft kind x keep c (leave_head c keep x kind)
unfolding leave_head
leave_head-HasLeft kind x keep c v = elim (Option-cases (find x (heads kind c))) [
  | inl e ↦
      rw (e, leave_head)
        (unmoved λ y id same other.
          let x-y = (str_eq_iff x y).0 same in
          let none_there : find y (heads kind c) ≡ none = rw x-y at e in
          at_head y id same ∙ rw none_there)
  | inr (k, e) ↦ elim (Bool-cases (k == keep)) [
    | inl here ↦
        rw (e, leave_head)
          (rw here (
            unmoved λ y id same other.
              let x-y = (str_eq_iff x y).0 same in
              let k_there : find y (heads kind c) ≡ some k = rw x-y at e in
              let differs : (k == id) ≡ false = ground arith in
              at_head y id same ∙ rw k_there differs))
    | inr apart ↦ rw (e, leave_head) (rw apart (removed k e apart))
  ]
]
  where
    at_head :
        (y : List ℕ) (id : ℕ)
        → str_eq x y ≡ true
        → member (set_of kind) y (find id c.nodes) ≡ is_head id (find y (heads kind c))
    at_head y id same = sym ((heads-Agree kind c v.headed).agree y id)

    removed :
        (k : ℕ)
        → find x (heads kind c) ≡ some k
        → (k == keep) ≡ false
        → HasLeft kind x keep c (remove_conversation_role c k x kind)
    removed k e apart = elim (Option-cases (find k c.nodes)) [
      | inl absent ↦ absurd (ground (arith, (heads-Agree kind c v.headed).agree x k))
      | inr (n, found) ↦ remove_role-HasLeft kind x keep c k n v found e apart
    ]

    unmoved :
        ((y : List ℕ) (id : ℕ)
          → str_eq x y ≡ true
          → (id == keep) ≡ false
          → member (set_of kind) y (find id c.nodes) ≡ false)
        → HasLeft kind x keep c c
    unmoved none_else = record {
      sound = v.sound;
      indexed = v.indexed;
      committed_same = refl;
      prompt_same = refl;
      tick_same = refl;
      max_same = refl;
      kept = refl;
      left = λ y id. elim (Bool-cases (str_eq x y)) [
        | inr differ ↦ rw differ
        | inl same ↦ elim (Bool-cases (id == keep)) [
          | inl kept ↦ rw (same, kept)
          | inr other ↦ rw (same, other) (none_else y id same other)
        ]
      ];
      others = λ y id. refl;
    }
