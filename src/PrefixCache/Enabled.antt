-- ===== src/PrefixCache/Enabled.antt =====
-- No step of the two publish operations switches the cache off or on.
use mathlib.Core.Option.{some-injective}
use nemotron_inference.Base.{
  ℕ, ◌≡◌, refl, sym, ap, ◌∙◌, inl, inr, Bool-cases, Option-cases, List, none, some, arith, ◌==◌,
  nat_key, string_key, find, assign, length,
}
use nemotron_inference.ReusableState.{ReusableStateDescriptor}
use nemotron_inference.PrefixCache.Identity.{SerializedPromptIdentity, fingerprint_identity}
use nemotron_inference.PrefixCache.State.{
  PrefixCache, CacheNode, ConversationCheckpointKind, committed_head, prompt_head, node_has_roles,
}
use nemotron_inference.PrefixCache.Nodes.{
  remove_found, remove_node, touch, search_range, equal_range, reuse_node, create_node,
  find_or_create_node, evict_to_budget,
}
use nemotron_inference.PrefixCache.Publish.{
  heads, with_heads, without_conversation, remove_conversation_role, leave_head,
  assign_conversation_head, assign_global_root,
}
use nemotron_inference.PrefixCache.Growth.{create_node_cases, reuse_node_cases}
use nemotron_inference.PrefixCache.Consistency.{evict_loop_keeps}

pub touch-enabled : (c : PrefixCache) (k : ℕ) → (touch c k).enabled ≡ c.enabled
unfolding touch
touch-enabled c k = ground arith

remove_node-enabled : (c : PrefixCache) (k : ℕ) → (remove_node c k).enabled ≡ c.enabled
unfolding remove_node remove_found
remove_node-enabled c k = ground arith

pub evict_to_budget-enabled : (c : PrefixCache) → (evict_to_budget c).enabled ≡ c.enabled
unfolding evict_to_budget
evict_to_budget-enabled c =
    evict_loop_keeps (λ d. d.enabled ≡ c.enabled) (λ d k e. remove_node-enabled d k ∙ e)
      (length c.nodes) c refl

create_node-enabled :
    (c : PrefixCache) (identity : SerializedPromptIdentity) (state : ReusableStateDescriptor)
    → (create_node c identity state).0.enabled ≡ c.enabled
create_node-enabled c identity state =
    create_node_cases (λ r. r.0.enabled ≡ c.enabled) c identity state (λ _. refl) refl

reuse_node-enabled :
    (c : PrefixCache) (k : ℕ) (n : CacheNode) (state : ReusableStateDescriptor)
    → (reuse_node c k n state).0.enabled ≡ c.enabled
reuse_node-enabled c k n state =
    reuse_node_cases (λ r. r.0.enabled ≡ c.enabled) c k n state (λ _. touch-enabled c n.id)
      (λ _. refl) (λ _. touch-enabled _ n.id)

pub find_or_create_node-enabled :
    (c d : PrefixCache) (identity : SerializedPromptIdentity) (state : ReusableStateDescriptor)
    (id : ℕ)
    → find_or_create_node c identity state ≡ some (d, id)
    → d.enabled ≡ c.enabled
unfolding find_or_create_node
find_or_create_node-enabled c d identity state id e =
    elim (Option-cases (
      search_range c.nodes identity
        (equal_range (fingerprint_identity identity) c.nodes_by_fingerprint))) [
          | inl stop ↦
              absurd (let t : none ≡ some (d, id) = rw (stop, find_or_create_node) at e in cc)
          | inr (none, go) ↦
              let t : some (create_node c identity state) ≡ some (d, id) =
                rw (go, find_or_create_node) at e in
              let same : create_node c identity state ≡ (d, id) = ground (arith, t) in
              sym (ap (λ r. r.0.enabled) same) ∙ create_node-enabled c identity state
          | inr (some (k, n), go) ↦
              let t : some (reuse_node c k n state) ≡ some (d, id) =
                rw (go, find_or_create_node) at e in
              let same : reuse_node c k n state ≡ (d, id) = ground (arith, t) in
              sym (ap (λ r. r.0.enabled) same) ∙ reuse_node-enabled c k n state
        ]

remove_conversation_role-enabled :
    (c : PrefixCache) (k : ℕ) (x : List ℕ) (kind : ConversationCheckpointKind)
    → (remove_conversation_role c k x kind).enabled ≡ c.enabled
unfolding remove_conversation_role
remove_conversation_role-enabled c k x kind = elim (Option-cases (find k c.nodes)) [
  | inl e ↦ rw (e, remove_conversation_role) refl
  | inr (n, e) ↦ elim (Bool-cases (node_has_roles (without_conversation kind x n))) [
    | inl h ↦ rw (e, h, remove_conversation_role) refl
    | inr h ↦ rw (e, h, remove_conversation_role) (remove_node-enabled _ k)
  ]
]

leave_head-enabled :
    (c : PrefixCache) (k : ℕ) (x : List ℕ) (kind : ConversationCheckpointKind)
    → (leave_head c k x kind).enabled ≡ c.enabled
unfolding leave_head
leave_head-enabled c k x kind = elim (Option-cases (find x (heads kind c))) [
  | inl e ↦ rw (e, leave_head) refl
  | inr (h, e) ↦ elim (Bool-cases (h == k)) [
    | inl same ↦ rw (e, same, leave_head) refl
    | inr other ↦ rw (e, other, leave_head) (remove_conversation_role-enabled c h x kind)
  ]
]

with_heads-enabled :
    (kind : ConversationCheckpointKind) (c : PrefixCache) (h : List (List ℕ × ℕ))
    → (with_heads kind c h).enabled ≡ c.enabled
with_heads-enabled committed_head c h = refl
with_heads-enabled prompt_head c h = refl

pub assign_conversation_head-enabled :
    (c d : PrefixCache) (k : ℕ) (x : List ℕ) (kind : ConversationCheckpointKind)
    → assign_conversation_head c k x kind ≡ some d
    → d.enabled ≡ c.enabled
unfolding assign_conversation_head
assign_conversation_head-enabled c d k x kind e =
    let base = leave_head c k x kind in
    elim (Option-cases (find k (with_heads kind base (assign x k (heads kind base))).nodes)) [
      | inl stop ↦ absurd (let t = rw (stop, assign_conversation_head) at e in cc)
      | inr (n, go) ↦
          let t = rw (go, assign_conversation_head) at e in
          let same = some-injective _ _ t in
          sym (ap (λ r. r.enabled) same)
          ∙ touch-enabled _ k
          ∙ with_heads-enabled kind base _
          ∙ leave_head-enabled c k x kind
    ]

pub assign_global_root-enabled :
    (c d : PrefixCache) (k : ℕ) → assign_global_root c k ≡ some d → d.enabled ≡ c.enabled
unfolding assign_global_root
assign_global_root-enabled c d k e = elim (Option-cases (find k c.nodes)) [
  | inl stop ↦ absurd (let t = rw (stop, assign_global_root) at e in cc)
  | inr (n, go) ↦
      let t = rw (go, assign_global_root) at e in
      let same = some-injective _ _ t in sym (ap (λ r. r.enabled) same) ∙ touch-enabled _ k
]
