-- ===== src/PrefixCache/Roles.antt =====
-- The assignment of roles: a conversation's head and a global root, on a consistent cache.
use nemotron_inference.Base.{
  ℕ, ◌+◌, ◌<◌, ◌≡◌, refl, sym, ap, ◌∙◌, false, List, some, arith, ◌==◌, nat_key, string_key,
  str_eq_iff, find, assign, modify, ==_iff, find-modify, find-assign, word, emplace-Distinct, subst,
}
use nemotron_inference.PrefixCache.State.{
  PrefixCache, CacheNode, StringSet, ConversationCheckpointKind, committed_head, prompt_head,
}
use nemotron_inference.PrefixCache.Nodes.{touch, stamp}
use nemotron_inference.PrefixCache.Publish.{
  heads, with_conversation, leave_head, assign_conversation_head, as_root, assign_global_root,
}
use nemotron_inference.PrefixCache.Sound.{IsNode, rewrite-IsSound}
use nemotron_inference.PrefixCache.Index.{rewrite-IsIndexed}
use nemotron_inference.PrefixCache.Heads.{member, Agree}
use nemotron_inference.PrefixCache.Agreement.{member-keep, rewrite-Agree}
use nemotron_inference.PrefixCache.Members.{assign-Agree}
use nemotron_inference.PrefixCache.Consistency.{committed, prompt, IsConsistent, touch-IsConsistent}
use nemotron_inference.PrefixCache.Prepare.{touch_found, find-touch_self}
use nemotron_inference.PrefixCache.Leave.{HasLeft, leave_head-HasLeft}

with-IsNode :
    (kind : ConversationCheckpointKind) (x : List ℕ) {next tick k : ℕ} {n : CacheNode}
    → IsNode next tick k n
    → IsNode next tick k (with_conversation kind x n)
with-IsNode committed_head x {n} h = record {
  same_id = h.same_id;
  nonzero_id = h.nonzero_id;
  fresh = h.fresh;
  stamped = h.stamped;
  hashed = h.hashed;
  sized = h.sized;
  committed_set = emplace-Distinct x tt n.committed_conversations h.committed_set;
  prompt_set = h.prompt_set;
}
with-IsNode prompt_head x {n} h = record {
  same_id = h.same_id;
  nonzero_id = h.nonzero_id;
  fresh = h.fresh;
  stamped = h.stamped;
  hashed = h.hashed;
  sized = h.sized;
  committed_set = h.committed_set;
  prompt_set = emplace-Distinct x tt n.prompt_conversations h.prompt_set;
}

-- The heads of the other kind go along with the nodes.
others-Agree :
    (sets : CacheNode → StringSet) (before nodes : List (ℕ × CacheNode)) (h h' : List (List ℕ × ℕ))
    (k : ℕ) (f : CacheNode → CacheNode)
    → Agree sets before h
    → h' ≡ h
    → ((y : List ℕ) (id : ℕ) → member sets y (find id nodes) ≡ member sets y (find id before))
    → ((n : CacheNode) → sets (f n) ≡ sets n)
    → Agree sets (modify k f nodes) h'
others-Agree sets before nodes h h' k f v same members keep = rw same (record {
  distinct = v.distinct;
  agree = λ y id. v.agree y id ∙ sym (members y id) ∙ member-keep sets nodes h k f keep y id;
})

abbrev assigned : ConversationCheckpointKind → PrefixCache → ℕ → List ℕ → PrefixCache
assigned committed_head d k x = record d {
  committed_heads = assign x k d.committed_heads;
  nodes = modify k (with_conversation committed_head x) d.nodes;
}
assigned prompt_head d k x = record d {
  prompt_heads = assign x k d.prompt_heads;
  nodes = modify k (with_conversation prompt_head x) d.nodes;
}

assigned-IsConsistent :
    (kind : ConversationCheckpointKind) (x : List ℕ) (k : ℕ) (c d : PrefixCache) (n : CacheNode)
    → IsConsistent c
    → HasLeft kind x k c d
    → find k d.nodes ≡ some n
    → IsConsistent (assigned kind d k x)
assigned-IsConsistent committed_head x k c d n v l found =
    let f = with_conversation committed_head x in
    let s =
      rewrite-IsSound d k f n d.tick l.sound found (omega arith) refl
        (with-IsNode committed_head x) in
    let i = rewrite-IsIndexed d k f d.tick (λ m. refl) l.indexed in
    record {
      sound = record {
        distinct = s.distinct;
        entries = s.entries;
        exact = s.exact;
        small = s.small;
        started = s.started;
      };
      indexed = record { agree = i.agree };
      headed = record {
        committed_agree =
            subst (λ h. Agree committed (modify k f d.nodes) (assign x k h)) (sym l.committed_same)
              (assign-Agree committed d.nodes c.committed_heads c.nodes k f n x
                v.headed.committed_agree l.left found refl);
        prompt_agree =
            others-Agree prompt c.nodes d.nodes c.prompt_heads d.prompt_heads k f
              v.headed.prompt_agree l.prompt_same l.others (λ m. refl);
      };
    }
assigned-IsConsistent prompt_head x k c d n v l found =
    let f = with_conversation prompt_head x in
    let s =
      rewrite-IsSound d k f n d.tick l.sound found (omega arith) refl (with-IsNode prompt_head x) in
    let i = rewrite-IsIndexed d k f d.tick (λ m. refl) l.indexed in
    record {
      sound = record {
        distinct = s.distinct;
        entries = s.entries;
        exact = s.exact;
        small = s.small;
        started = s.started;
      };
      indexed = record { agree = i.agree };
      headed = record {
        committed_agree =
            others-Agree committed c.nodes d.nodes c.committed_heads d.committed_heads k f
              v.headed.committed_agree l.committed_same l.others (λ m. refl);
        prompt_agree =
            subst (λ h. Agree prompt (modify k f d.nodes) (assign x k h)) (sym l.prompt_same)
              (assign-Agree prompt d.nodes c.prompt_heads c.nodes k f n x v.headed.prompt_agree
                l.left found refl);
      };
    }

-- `AssignConversationHead` in terms of its parts.
assign_conversation_head_lem :
    (kind : ConversationCheckpointKind) (x : List ℕ) (k : ℕ) (c : PrefixCache) (n : CacheNode)
    → find k (leave_head c k x kind).nodes ≡ some n
    → assign_conversation_head c k x kind
      ≡ some (touch (assigned kind (leave_head c k x kind) k x) k)
unfolding assign_conversation_head
assign_conversation_head_lem committed_head x k c n found = rw (found, assign_conversation_head)
assign_conversation_head_lem prompt_head x k c n found = rw (found, assign_conversation_head)

assigned_fields :
    (kind : ConversationCheckpointKind) (d : PrefixCache) (k : ℕ) (x : List ℕ)
    → ((assigned kind d k x).nodes ≡ modify k (with_conversation kind x) d.nodes)
      × ((assigned kind d k x).tick ≡ d.tick)
      × ((assigned kind d k x).max_bytes ≡ d.max_bytes)
      × (find x (heads kind (assigned kind d k x)) ≡ some k)
assigned_fields committed_head d k x =
    (refl, refl, refl, find-assign x x k d.committed_heads ∙ ground (arith, str_eq_iff x x))
assigned_fields prompt_head d k x =
    (refl, refl, refl, find-assign x x k d.prompt_heads ∙ ground (arith, str_eq_iff x x))

with_fields :
    (kind : ConversationCheckpointKind) (x : List ℕ) (n : CacheNode)
    → ((with_conversation kind x n).identity ≡ n.identity)
      × ((with_conversation kind x n).state ≡ n.state)
with_fields committed_head x n = (refl, refl)
with_fields prompt_head x n = (refl, refl)

touch-heads :
    (kind : ConversationCheckpointKind) (c : PrefixCache) (k : ℕ)
    → heads kind (touch c k) ≡ heads kind c
unfolding touch
touch-heads committed_head c k = ground arith
touch-heads prompt_head c k = ground arith

-- A cache in which the node was used last, with a role of the given kind.
pub record IsUsed (c d : PrefixCache) (k : ℕ) (n : CacheNode) : Type 0 where
  pub consistent : IsConsistent d
  pub node : CacheNode
  pub found : find k d.nodes ≡ some node
  pub identity_same : node.identity ≡ n.identity
  pub state_same : node.state ≡ n.state
  pub last : node.last_access_tick ≡ c.tick
  pub alone :
      (j : ℕ) (m : CacheNode)
      → (k == j) ≡ false
      → find j d.nodes ≡ some m
      → m.last_access_tick < c.tick
  pub next_tick : d.tick ≡ c.tick + 1
  pub budget : d.max_bytes ≡ c.max_bytes

-- Touching a node after its role was written.
touched-IsUsed :
    (c e : PrefixCache) (k : ℕ) (n m : CacheNode)
    → IsConsistent e
    → c.tick + 1 < word
    → e.tick ≡ c.tick
    → e.max_bytes ≡ c.max_bytes
    → find k e.nodes ≡ some m
    → m.identity ≡ n.identity
    → m.state ≡ n.state
    → IsUsed c (touch e k) k n
touched-IsUsed c e k n m v ticks tick max found identity state =
    let at_touch = touch_found e k m found in
    record {
      consistent = touch-IsConsistent e k v (omega arith);
      node = stamp e.tick m;
      found = find-touch_self e k m found;
      identity_same = identity;
      state_same = state;
      last = tick;
      alone = λ j o other there.
          let moved : find j (modify k (stamp e.tick) e.nodes) ≡ some o = rw at_touch at there in
          let before : find j e.nodes ≡ some o =
            sym (find-modify k j (stamp e.tick) e.nodes ∙ rw other) ∙ moved in
          let entry = v.sound.entries.entry j o before in omega (arith, entry.stamped, tick);
      next_tick = rw at_touch (omega arith);
      budget = rw at_touch max;
    }

-- `AssignConversationHead` on a consistent cache: it never meets a missing id, keeps the cache
-- consistent, makes the node the conversation's head of that kind, and uses the node last.
pub assign_conversation_head-IsUsed :
    (kind : ConversationCheckpointKind) (x : List ℕ) (c : PrefixCache) (k : ℕ) (n : CacheNode)
    → IsConsistent c
    → c.tick + 1 < word
    → find k c.nodes ≡ some n
    → (d : PrefixCache) × (assign_conversation_head c k x kind ≡ some d)
      × IsUsed c d k n
      × (find x (heads kind d) ≡ some k)
assign_conversation_head-IsUsed kind x c k n v ticks found =
    let l = leave_head-HasLeft kind x k c v in
    let there = l.kept ∙ found in
    let (nodes, tick, max, head) = assigned_fields kind left k x in
    let (identity, state) = with_fields kind x n in
    let written : find k (assigned kind left k x).nodes ≡ some (with_conversation kind x n) =
      rw nodes (
        find-modify k k (with_conversation kind x) left.nodes
        ∙ rw there (ground (arith, ==_iff k k))) in
    (
      touch (assigned kind left k x) k,
      assign_conversation_head_lem kind x k c n there,
      touched-IsUsed c (assigned kind left k x) k n (with_conversation kind x n)
          (assigned-IsConsistent kind x k c left n v l there) ticks (tick ∙ l.tick_same)
          (max ∙ l.max_same) written identity state,
      ap (find x) (touch-heads kind (assigned kind left k x) k) ∙ head,
    )
  where
    left : PrefixCache
    left = leave_head c k x kind

as_root-IsConsistent :
    (c : PrefixCache) (k : ℕ) (n : CacheNode)
    → IsConsistent c
    → find k c.nodes ≡ some n
    → IsConsistent (record c { nodes = modify k as_root c.nodes })
as_root-IsConsistent c k n v found = record {
  sound = rewrite-IsSound c k as_root n c.tick v.sound found (omega arith) refl λ h. record {
    same_id = h.same_id;
    nonzero_id = h.nonzero_id;
    fresh = h.fresh;
    stamped = h.stamped;
    hashed = h.hashed;
    sized = h.sized;
    committed_set = h.committed_set;
    prompt_set = h.prompt_set;
  };
  indexed = rewrite-IsIndexed c k as_root c.tick (λ m. refl) v.indexed;
  headed = record {
    committed_agree =
        rewrite-Agree committed c.nodes c.committed_heads k as_root (λ m. refl)
          v.headed.committed_agree;
    prompt_agree =
        rewrite-Agree prompt c.nodes c.prompt_heads k as_root (λ m. refl) v.headed.prompt_agree;
  };
}

-- `AssignGlobalRoot` on a consistent cache: it never meets a missing id, keeps the cache consistent,
-- makes the node a global root, and uses the node last.
pub assign_global_root-IsUsed :
    (c : PrefixCache) (k : ℕ) (n : CacheNode)
    → IsConsistent c
    → c.tick + 1 < word
    → find k c.nodes ≡ some n
    → (d : PrefixCache) × (assign_global_root c k ≡ some d)
      × IsUsed c d k n
      × (find k d.nodes ≡ some (stamp c.tick (as_root n)))
unfolding assign_global_root
assign_global_root-IsUsed c k n v ticks found =
    let rooted : PrefixCache = record c { nodes = modify k as_root c.nodes } in
    let written : find k rooted.nodes ≡ some (as_root n) =
      find-modify k k as_root c.nodes ∙ rw found (ground (arith, ==_iff k k)) in
    (
      touch rooted k,
      rw (found, assign_global_root),
      touched-IsUsed c rooted k n (as_root n) (as_root-IsConsistent c k n v found) ticks refl refl
          written refl refl,
      find-touch_self rooted k (as_root n) written,
    )
