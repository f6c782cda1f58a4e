-- ===== src/PrefixCache/Publishing.antt =====
-- `PublishConversationHead` and `PublishGlobalRoot` on a consistent cache: they never meet a missing
-- id, keep the cache consistent and within its budget, and publish unless the state cannot be
-- retained or the node alone exceeds the budget.
use nemotron_inference.Base.{
  ℕ, ◌+◌, ◌≤◌, ◌<◌, ◌≡◌, refl, sym, ap, ap₂, ◌∙◌, inl, inr, Bool-cases, Option-cases, true, false,
  List, Option, none, some, arith, ◌==◌, nat_key, string_key, find, ==_iff, word,
}
use nemotron_inference.ReusableState.{ReusableStateDescriptor}
use nemotron_inference.PrefixCache.Identity.{SerializedPromptIdentity, node_bytes}
use nemotron_inference.PrefixCache.State.{
  PrefixCache, CacheNode, ConversationCheckpointKind, retain_in, is_empty,
}
use nemotron_inference.PrefixCache.Nodes.{evict_to_budget}
use nemotron_inference.PrefixCache.Publish.{heads, finish_publish}
use nemotron_inference.PrefixCache.Evict.{
  Evicted, evict_to_budget-Evicted, not_empty, is_empty-weight,
}
use nemotron_inference.PrefixCache.Enabled.{evict_to_budget-enabled}
use nemotron_inference.PrefixCache.Heads.{is_head, member}
use nemotron_inference.PrefixCache.Consistency.{IsConsistent, evict_to_budget-IsConsistent}
use nemotron_inference.PrefixCache.Leave.{set_of, heads-Agree}
use nemotron_inference.PrefixCache.Roles.{IsUsed}

-- The node that was used last goes in an eviction only if it alone exceeds the budget.
module _ (b d : PrefixCache) (k : ℕ) (n : CacheNode) (u : IsUsed b d k n) (r : PrefixCache)
    (v : Evicted d r) where
  survivor_older : find k r.nodes ≡ none → (j : ℕ) (m : CacheNode) → find j r.nodes ≡ some m → ⊥
  survivor_older gone j m there = elim (Bool-cases (k == j)) [
    | inl self ↦
        let k-j : k ≡ j = ground arith in
        let same : find j r.nodes ≡ none = rw k-j at gone in absurd (ground arith)
    | inr other ↦
        let before = u.alone j m other (v.survivors j m there) in
        let after = v.oldest_first k j u.node m u.found gone there in omega (arith, u.last)
  ]

  all_gone : find k r.nodes ≡ none → is_empty r.nodes ≡ true
  all_gone gone = elim (Bool-cases (is_empty r.nodes)) [
    | inl e ↦ e
    | inr e ↦ let (j, m, there) = not_empty r.nodes e in absurd (survivor_older gone j m there)
  ]

  used_too_big : find k r.nodes ≡ none → r.max_bytes < u.node.total_bytes
  used_too_big gone = elim v.needed [
    | inl e ↦ absurd (let still : find k r.nodes ≡ some u.node = rw e u.found in ground arith)
    | inr l ↦ elim (Bool-cases (k == l.key)) [
      | inl self ↦
          let k-key : k ≡ l.key = ground arith in
          let same : some u.node ≡ some l.node = sym u.found ∙ rw k-key l.was_there in
          let nothing = no_bytes gone in let big = l.would_exceed in ground arith
      | inr other ↦ absurd (
          let older = u.alone l.key l.node other l.was_there in
          let newer = l.latest k u.node u.found gone in omega (arith, u.last))
    ]
  ]
    where
      no_bytes : find k r.nodes ≡ none → r.current_bytes ≡ 0
      no_bytes gone =
          let empty = is_empty-weight r.nodes (all_gone gone) in omega (arith, v.sound.exact)

-- What a publication comes to. `Role` says what the node was published as.
pub data Outcome (c : PrefixCache) (identity : SerializedPromptIdentity)
    (state : ReusableStateDescriptor) (Role : PrefixCache → ℕ → CacheNode → Type 0)
    (r : PrefixCache) (id : ℕ) : Type 0 where
  published :
      (n : CacheNode)
      → 0 < id
      → find id r.nodes ≡ some n
      → n.identity ≡ identity
      → n.state ≡ state
      → Role r id n
      → Outcome c identity state Role r id
  unretained :
      id ≡ 0
      → (retain_in c.state_arena state).1 ≡ false
      → r ≡ record c { state_arena = (retain_in c.state_arena state).0 }
      → Outcome c identity state Role r id
  too_big : id ≡ 0 → c.max_bytes < node_bytes identity state → Outcome c identity state Role r id

pub record Publication (c : PrefixCache) (identity : SerializedPromptIdentity)
    (state : ReusableStateDescriptor) (Role : PrefixCache → ℕ → CacheNode → Type 0)
    (run : Option (PrefixCache × ℕ)) : Type 0 where
  pub after : PrefixCache
  pub node_id : ℕ
  pub returns : run ≡ some (after, node_id)
  pub consistent : IsConsistent after
  pub within : after.current_bytes ≤ after.max_bytes
  pub budget : after.max_bytes ≡ c.max_bytes
  pub stays_on : after.enabled ≡ true
  pub outcome : Outcome c identity state Role after node_id

-- The assumptions on the cache and the node: nothing wraps.
pub record HasRoom (c : PrefixCache) (identity : SerializedPromptIdentity)
    (state : ReusableStateDescriptor) : Type 0 where
  pub on : c.enabled ≡ true
  pub within : c.current_bytes ≤ c.max_bytes
  pub bytes : c.max_bytes + node_bytes identity state < word
  pub ids : c.next_node_id + 1 < word
  pub ticks : c.tick + 2 < word

module _ (c : PrefixCache) (identity : SerializedPromptIdentity) (state : ReusableStateDescriptor)
    (Role : PrefixCache → ℕ → CacheNode → Type 0) where
  -- The common end of the two operations.
  pub finish-Publication :
      (b d : PrefixCache) (k : ℕ) (n : CacheNode)
      → IsUsed b d k n
      → d.tick < word
      → n.identity ≡ identity
      → n.state ≡ state
      → d.max_bytes ≡ c.max_bytes
      → d.enabled ≡ true
      → 0 < k
      → ((r : PrefixCache) (m : CacheNode)
          → Evicted d r
          → IsConsistent r
          → find k d.nodes ≡ some m
          → find k r.nodes ≡ some m
          → Role r k m)
      → Publication c identity state Role (some (finish_publish d k))
  unfolding finish_publish
  finish-Publication b d k n u ticks same_identity same_state max on pos role =
      elim (Option-cases (find k (evict_to_budget d).nodes)) [
        | inl gone ↦ record {
          after = evict_to_budget d;
          node_id = 0;
          returns = rw gone;
          consistent = valid;
          within = evicted.within;
          budget = evicted.budget ∙ max;
          stays_on = evict_to_budget-enabled d ∙ on;
          outcome = too_big refl (exceeds gone);
        }
        | inr (m, there) ↦
            let before = evicted.survivors k m there in
            let same : some u.node ≡ some m = sym u.found ∙ before in
            let node : u.node ≡ m = ground arith in
            record {
              after = evict_to_budget d;
              node_id = k;
              returns = rw there;
              consistent = valid;
              within = evicted.within;
              budget = evicted.budget ∙ max;
              stays_on = evict_to_budget-enabled d ∙ on;
              outcome =
                  published m pos there
                    (sym (ap (λ x. x.identity) node) ∙ u.identity_same ∙ same_identity)
                    (sym (ap (λ x. x.state) node) ∙ u.state_same ∙ same_state)
                    (role (evict_to_budget d) m evicted valid before there);
            }
      ]
    where
      evicted : Evicted d (evict_to_budget d)
      evicted = evict_to_budget-Evicted d u.consistent.sound ticks

      valid : IsConsistent (evict_to_budget d)
      valid = evict_to_budget-IsConsistent d u.consistent

      exceeds : find k (evict_to_budget d).nodes ≡ none → c.max_bytes < node_bytes identity state
      exceeds gone =
          let big = used_too_big b d k n u (evict_to_budget d) evicted gone in
          let entry = u.consistent.sound.entries.entry k u.node u.found in
          let asked : node_bytes u.node.identity u.node.state ≡ node_bytes identity state =
            ap₂ node_bytes (u.identity_same ∙ same_identity) (u.state_same ∙ same_state) in
          omega (arith, entry.sized, asked, evicted.budget, max)

  pub unretained-Publication :
      (d : PrefixCache)
      → IsConsistent d
      → HasRoom c identity state
      → d ≡ record c { state_arena = (retain_in c.state_arena state).0 }
      → (retain_in c.state_arena state).1 ≡ false
      → Publication c identity state Role (some (d, 0))
  unretained-Publication d v room same refusal = record {
    after = d;
    node_id = 0;
    returns = refl;
    consistent = v;
    within = rw same room.within;
    budget = rw same;
    stays_on = rw same room.on;
    outcome = unretained refl refusal same;
  }

-- The conversation's head of that kind is the node.
abbrev pub IsHead : ConversationCheckpointKind → List ℕ → PrefixCache → ℕ → CacheNode → Type 0
IsHead kind x r id n = find x (heads kind r) ≡ some id

-- The node is a global root.
abbrev pub IsRoot : PrefixCache → ℕ → CacheNode → Type 0
IsRoot r id n = n.is_global_root ≡ true

-- A head that survives an eviction.
pub head_survives :
    (kind : ConversationCheckpointKind) (x : List ℕ) (d r : PrefixCache) (k : ℕ) (m : CacheNode)
    → IsConsistent d
    → IsConsistent r
    → find x (heads kind d) ≡ some k
    → find k d.nodes ≡ some m
    → find k r.nodes ≡ some m
    → find x (heads kind r) ≡ some k
head_survives kind x d r k m vd vr head before after =
    let at_d = (heads-Agree kind d vd.headed).agree x k in
    let at_r = (heads-Agree kind r vr.headed).agree x k in
    let held : is_head k (find x (heads kind r)) ≡ true =
      at_r
      ∙ ap (member (set_of kind) x) (after ∙ sym before)
      ∙ sym at_d
      ∙ ap (is_head k) head
      ∙ ground (arith, ==_iff k k) in
    elim (Option-cases (find x (heads kind r))) [
      | inl e ↦ absurd (let off : false ≡ true = sym (ap (is_head k) e) ∙ held in cc)
      | inr (j, e) ↦
          let on : (j == k) ≡ true = sym (ap (is_head k) e) ∙ held in
          let j-k : j ≡ k = ground arith in e ∙ ap some j-k
    ]
