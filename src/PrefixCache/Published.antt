-- ===== src/PrefixCache/Published.antt =====
-- The two publish operations, `PublishConversationHead` and `PublishGlobalRoot`, as a whole.
use nemotron_inference.Base.{
  ℕ, ◌<◌, ◌≡◌, refl, sym, ap, ◌∙◌, true, false, List, some, arith, ◌==◌, nat_key, string_key,
  ==_iff,
}
use nemotron_inference.ReusableState.{ReusableStateDescriptor}
use nemotron_inference.PrefixCache.Identity.{SerializedPromptIdentity}
use nemotron_inference.PrefixCache.State.{PrefixCache, ConversationCheckpointKind}
use nemotron_inference.PrefixCache.Nodes.{find_or_create_node, stamp}
use nemotron_inference.PrefixCache.Publish.{
  finish_publish, publish_conversation_head, publish_global_root, assign_conversation_head,
  assign_global_root, as_root,
}
use nemotron_inference.PrefixCache.Enabled.{
  find_or_create_node-enabled, assign_conversation_head-enabled, assign_global_root-enabled,
}
use nemotron_inference.PrefixCache.Consistency.{IsConsistent}
use nemotron_inference.PrefixCache.Roles.{
  assign_conversation_head-IsUsed, assign_global_root-IsUsed,
}
use nemotron_inference.PrefixCache.Prepare.{refused, ready, find_or_create_node-Answer}
use nemotron_inference.PrefixCache.Publishing.{
  Publication, HasRoom, IsHead, IsRoot, head_survives, finish-Publication, unretained-Publication,
}

-- A step of the two operations on the answer of `FindOrCreateNode`.
module _ (c : PrefixCache) (identity : SerializedPromptIdentity) (state : ReusableStateDescriptor)
    (on : c.enabled ≡ true) where
  publish_head_none :
      (kind : ConversationCheckpointKind) (x : List ℕ) (d : PrefixCache) (id : ℕ)
      → find_or_create_node c identity state ≡ some (d, id)
      → id ≡ 0
      → publish_conversation_head c x kind identity state ≡ some (d, 0)
  unfolding publish_conversation_head
  publish_head_none kind x d id e zero_id = rw (e, zero_id, on) refl

  publish_head_some :
      (kind : ConversationCheckpointKind) (x : List ℕ) (d r : PrefixCache) (id : ℕ)
      → find_or_create_node c identity state ≡ some (d, id)
      → 0 < id
      → assign_conversation_head d id x kind ≡ some r
      → publish_conversation_head c x kind identity state ≡ some (finish_publish r id)
  unfolding publish_conversation_head
  publish_head_some kind x d r id e pos a =
      let other : (id == 0) ≡ false = ground (arith, ==_iff id 0) in rw (e, other, a, on) refl

  publish_root_none :
      (d : PrefixCache) (id : ℕ)
      → find_or_create_node c identity state ≡ some (d, id)
      → id ≡ 0
      → publish_global_root c identity state ≡ some (d, 0)
  unfolding publish_global_root
  publish_root_none d id e zero_id = rw (e, zero_id, on) refl

  publish_root_some :
      (d r : PrefixCache) (id : ℕ)
      → find_or_create_node c identity state ≡ some (d, id)
      → 0 < id
      → assign_global_root d id ≡ some r
      → publish_global_root c identity state ≡ some (finish_publish r id)
  unfolding publish_global_root
  publish_root_some d r id e pos a =
      let other : (id == 0) ≡ false = ground (arith, ==_iff id 0) in rw (e, other, a, on) refl

-- Publishing a conversation's head on a consistent, enabled cache that is within its budget, where
-- the sizes, the next id and the next ticks are words: it returns, the cache it leaves is
-- consistent and within the same budget, and one of three things holds. The node of the identity is
-- in the cache with the state and is the conversation's head of that kind; or the state could not
-- be retained, and nothing but the arena changed; or the node alone exceeds the budget.
pub publish_conversation_head-Publication :
    (c : PrefixCache) (x : List ℕ) (kind : ConversationCheckpointKind)
    (identity : SerializedPromptIdentity) (state : ReusableStateDescriptor)
    → IsConsistent c
    → HasRoom c identity state
    → Publication c identity state
        (IsHead kind x)
        (publish_conversation_head c x kind identity state)
publish_conversation_head-Publication c x kind identity state v room =
    let (d, id, e, vd, answer) =
      find_or_create_node-Answer c identity state v (omega (arith, room.bytes, room.within))
        room.ids (omega (arith, room.ticks)) in
    elim answer [
      | refused zero_id same refusal ↦
          rw (publish_head_none c identity state room.on kind x d id e zero_id)
            (unretained-Publication c identity state (IsHead kind x) d vd room same refusal)
      | ready n pos found same_identity same_state max tick ↦
          let (r, a, u, head) =
            assign_conversation_head-IsUsed kind x d id n vd (omega (arith, room.ticks, tick))
              found in
          rw (publish_head_some c identity state room.on kind x d r id e pos a) (
            finish-Publication c identity state (IsHead kind x) d r id n u
              (omega (arith, room.ticks, tick, u.next_tick)) same_identity same_state
              (u.budget ∙ max)
              (assign_conversation_head-enabled d r id x kind a
                ∙ find_or_create_node-enabled c d identity state id e
                ∙ room.on)
              pos
              λ s m evicted vs before after.
                head_survives kind x r s id m u.consistent vs head before after)
    ]

-- Publishing a global root, in the same terms: the node of the identity is a global root after it.
pub publish_global_root-Publication :
    (c : PrefixCache) (identity : SerializedPromptIdentity) (state : ReusableStateDescriptor)
    → IsConsistent c
    → HasRoom c identity state
    → Publication c identity state IsRoot (publish_global_root c identity state)
publish_global_root-Publication c identity state v room =
    let (d, id, e, vd, answer) =
      find_or_create_node-Answer c identity state v (omega (arith, room.bytes, room.within))
        room.ids (omega (arith, room.ticks)) in
    elim answer [
      | refused zero_id same refusal ↦
          rw (publish_root_none c identity state room.on d id e zero_id)
            (unretained-Publication c identity state IsRoot d vd room same refusal)
      | ready n pos found same_identity same_state max tick ↦
          let (r, a, u, root) =
            assign_global_root-IsUsed d id n vd (omega (arith, room.ticks, tick)) found in
          rw (publish_root_some c identity state room.on d r id e pos a) (
            finish-Publication c identity state IsRoot d r id n u
              (omega (arith, room.ticks, tick, u.next_tick)) same_identity same_state
              (u.budget ∙ max)
              (assign_global_root-enabled d r id a
                ∙ find_or_create_node-enabled c d identity state id e
                ∙ room.on)
              pos
              λ s m evicted vs before after.
                let same : some m ≡ some (stamp d.tick (as_root n)) = sym before ∙ root in
                let node : m ≡ stamp d.tick (as_root n) = ground arith in
                ap (λ y. y.is_global_root) node)
    ]
