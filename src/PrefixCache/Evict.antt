-- ===== src/PrefixCache/Evict.antt =====
-- `EvictToBudget`: it ends within the budget, and it removes the nodes that were used longest ago.
use nemotron_inference.Base.{
  ℕ, zero, suc, ◌+◌, ◌-◌, ◌≤◌, ◌<◌, ◌≡◌, refl, sym, ◌∙◌, ◌⊎◌, inl, inr, Bool-cases, Option-cases,
  true, false, List, [], ◌∷◌, none, some, arith, ltb, ◌==◌, if◌then◌else◌, nat_key, find, Distinct,
  find-erase, length, length-erase, word, weight, weight-find-le,
}
use nemotron_inference.PrefixCache.State.{PrefixCache, CacheNode, is_empty}
use nemotron_inference.PrefixCache.Nodes.{remove_found, remove_node, evict_loop, evict_to_budget}
use nemotron_inference.PrefixCache.Sound.{IsSound, remove_node-IsSound}
use nemotron_inference.PrefixCache.Oldest.{keep, pick, NoneBefore, oldest-Pick}

-- Removal of a node that is there.
pub remove_node-max_bytes : (c : PrefixCache) (k : ℕ) → (remove_node c k).max_bytes ≡ c.max_bytes
unfolding remove_node remove_found
remove_node-max_bytes c k = ground arith

pub remove_node-tick : (c : PrefixCache) (k : ℕ) → (remove_node c k).tick ≡ c.tick
unfolding remove_node remove_found
remove_node-tick c k = ground arith

pub find-remove_node :
    (c : PrefixCache) (k j : ℕ)
    → Distinct c.nodes
    → find j (remove_node c k).nodes ≡ (if k == j then none else find j c.nodes)
unfolding remove_node remove_found
find-remove_node c k j d = elim (Option-cases (find k c.nodes)) [
  | inl e ↦ rw (e, remove_node) (missing e)
  | inr (n, e) ↦ rw (e, remove_node) (find-erase k j c.nodes d)
]
  where
    missing : find k c.nodes ≡ none → find j c.nodes ≡ (if k == j then none else find j c.nodes)
    missing e = elim (Bool-cases (k == j)) [
      | inl hit ↦ let k-j : k ≡ j = ground arith in rw hit (rw k-j at e)
      | inr miss ↦ rw miss
    ]

length-remove_node :
    (c : PrefixCache) (k : ℕ) (n : CacheNode)
    → find k c.nodes ≡ some n
    → length (remove_node c k).nodes + 1 ≡ length c.nodes
unfolding remove_node remove_found
length-remove_node c k n e = rw (e, remove_node) (length-erase k n c.nodes e)

pub bytes-remove_node :
    (c : PrefixCache) (k : ℕ) (n : CacheNode)
    → IsSound c
    → find k c.nodes ≡ some n
    → (remove_node c k).current_bytes + n.total_bytes ≡ c.current_bytes
unfolding remove_node remove_found
bytes-remove_node c k n s e =
    rw (e, remove_node)
      (omega
        (arith, s.exact, s.small, weight-find-le (λ (n : CacheNode). n.total_bytes) k n c.nodes e))

pub is_empty→nil {ℓ} : {A : Type ℓ} (xs : List A) → is_empty xs ≡ true → xs ≡ []
unfolding is_empty
is_empty→nil [] h = refl
is_empty→nil (x ∷ xs) h = cc

pub not_empty :
    (nodes : List (ℕ × CacheNode))
    → is_empty nodes ≡ false
    → (k : ℕ) × (n : CacheNode) × (find k nodes ≡ some n)
unfolding is_empty find
not_empty [] h = absurd (cc)
not_empty ((k, n) ∷ rest) h = (k, n, ground arith)

-- The rounds of the loop: it ends within the budget, or it removes a node that no other precedes
-- and goes on.
pub data Round (fuel : ℕ) (c : PrefixCache) (r : PrefixCache) : Type 0 where
  done : r ≡ c → c.current_bytes ≤ c.max_bytes → Round fuel c r
  evicts :
      (id : ℕ) (n : CacheNode)
      → r ≡ evict_loop fuel (remove_node c id)
      → c.max_bytes < c.current_bytes
      → find id c.nodes ≡ some n
      → NoneBefore n.last_access_tick c.nodes
      → Round fuel c r

pub is_empty-weight :
    (nodes : List (ℕ × CacheNode)) → is_empty nodes ≡ true → weight (λ n. n.total_bytes) nodes ≡ 0
unfolding is_empty weight
is_empty-weight [] e = refl
is_empty-weight (x ∷ rest) e = cc

empty_within :
    (c : PrefixCache) → IsSound c → is_empty c.nodes ≡ true → c.current_bytes ≤ c.max_bytes
empty_within c s e = omega (arith, s.exact, is_empty-weight c.nodes e)

pub evict_loop-Round :
    (fuel : ℕ) (c : PrefixCache)
    → IsSound c
    → c.tick < word
    → Round fuel c (evict_loop (suc fuel) c)
unfolding evict_loop
evict_loop-Round fuel c s ticks = elim (Bool-cases (is_empty c.nodes)) [
  | inl none_left ↦ done (ground arith) (empty_within c s none_left)
  | inr some_left ↦ elim (Bool-cases (ltb c.max_bytes c.current_bytes)) [
    | inr fits ↦ done (ground arith) (ground arith)
    | inl over ↦ elim (oldest-Pick c.nodes (word - 1) none s.distinct) [
      | keep r all ↦
          let (k, n, e) = not_empty c.nodes some_left in
          absurd (
            let node = s.entries.entry k n e in let late = all k n e in omega (arith, node.stamped))
      | pick id n r found lt all ↦ evicts id n (ground arith) (ground arith) found all
    ]
  ]
]

-- The victim that went last would not have fitted.
pub record LastVictim (c r : PrefixCache) : Type 0 where
  pub key : ℕ
  pub node : CacheNode
  pub was_there : find key c.nodes ≡ some node
  pub is_gone : find key r.nodes ≡ none
  pub latest :
      (j : ℕ) (m : CacheNode)
      → find j c.nodes ≡ some m
      → find j r.nodes ≡ none
      → m.last_access_tick ≤ node.last_access_tick
  pub would_exceed : r.max_bytes < r.current_bytes + node.total_bytes

-- What eviction does to a cache.
pub record Evicted (c r : PrefixCache) : Type 0 where
  pub within : r.current_bytes ≤ r.max_bytes
  pub budget : r.max_bytes ≡ c.max_bytes
  pub same_tick : r.tick ≡ c.tick
  pub sound : IsSound r
  pub survivors : (j : ℕ) (m : CacheNode) → find j r.nodes ≡ some m → find j c.nodes ≡ some m
  pub oldest_first :
      (k j : ℕ) (n m : CacheNode)
      → find k c.nodes ≡ some n
      → find k r.nodes ≡ none
      → find j r.nodes ≡ some m
      → n.last_access_tick ≤ m.last_access_tick
  pub needed : (r ≡ c) ⊎ LastVictim c r

Evicted-self : (c : PrefixCache) → IsSound c → c.current_bytes ≤ c.max_bytes → Evicted c c
Evicted-self c s fits = record {
  within = fits;
  budget = refl;
  same_tick = refl;
  sound = s;
  survivors = λ j m e. e;
  oldest_first = λ k j n m e gone stays. absurd (ground arith);
  needed = inl refl;
}

-- One victim, and then the rest.
Evicted-step :
    (c : PrefixCache) (id : ℕ) (n : CacheNode) (r : PrefixCache)
    → IsSound c
    → c.max_bytes < c.current_bytes
    → find id c.nodes ≡ some n
    → NoneBefore n.last_access_tick c.nodes
    → Evicted (remove_node c id) r
    → Evicted c r
Evicted-step c id n r s over found first h = record {
  within = h.within;
  budget = h.budget ∙ remove_node-max_bytes c id;
  same_tick = h.same_tick ∙ remove_node-tick c id;
  sound = h.sound;
  survivors = kept;
  oldest_first = order;
  needed = inr (last h.needed);
}
  where
    removed : (j : ℕ) → find j (remove_node c id).nodes ≡ (if id == j then none else find j c.nodes)
    removed j = find-remove_node c id j s.distinct

    -- Of the nodes of before only the victim is missing after its removal.
    only :
        (j : ℕ) (m : CacheNode)
        → find j c.nodes ≡ some m
        → (if id == j then none else find j c.nodes) ≡ none
        → m.last_access_tick ≤ n.last_access_tick
    only j m there gone = elim (Bool-cases (id == j)) [
      | inl self ↦
          let id-j : id ≡ j = ground arith in
          let same : some n ≡ some m = sym found ∙ rw id-j there in ground arith
      | inr other ↦ absurd (ground arith)
    ]

    last : (r ≡ remove_node c id) ⊎ LastVictim (remove_node c id) r → LastVictim c r
    last (inl e) = record {
      key = id;
      node = n;
      was_there = found;
      is_gone = rw e (removed id ∙ ground arith);
      latest = λ j m there gone.
          let gone' : find j (remove_node c id).nodes ≡ none = rw e at gone in
          only j m there (sym (removed j) ∙ gone');
      would_exceed =
          rw e (omega (arith, bytes-remove_node c id n s found, remove_node-max_bytes c id));
    }
    last (inr l) = record {
      key = l.key;
      node = l.node;
      was_there = let below = l.was_there in ground (arith, removed l.key);
      is_gone = l.is_gone;
      latest = λ j m there gone. elim (Bool-cases (id == j)) [
        | inr other ↦ l.latest j m (removed j ∙ rw other there) gone
        | inl self ↦
            let id-j : id ≡ j = ground arith in
            let same : some n ≡ some m = sym found ∙ rw id-j there in
            let below = l.was_there in
            let before = first l.key l.node (ground (arith, removed l.key)) in ground arith
      ];
      would_exceed = l.would_exceed;
    }

    kept : (j : ℕ) (m : CacheNode) → find j r.nodes ≡ some m → find j c.nodes ≡ some m
    kept j m e = let below = h.survivors j m e in ground (arith, removed j)

    order :
        (k j : ℕ) (x m : CacheNode)
        → find k c.nodes ≡ some x
        → find k r.nodes ≡ none
        → find j r.nodes ≡ some m
        → x.last_access_tick ≤ m.last_access_tick
    order k j x m e gone stays = elim (Bool-cases (id == k)) [
      | inl hit ↦
          let k-id : id ≡ k = ground arith in
          let same : some n ≡ some x = sym found ∙ rw k-id e in
          let least = first j m (kept j m stays) in ground arith
      | inr miss ↦ h.oldest_first k j x m (removed k ∙ rw miss e) gone stays
    ]

evict_loop-Evicted :
    (fuel : ℕ) (c : PrefixCache)
    → IsSound c
    → c.tick < word
    → length c.nodes ≤ fuel
    → Evicted c (evict_loop fuel c)
evict_loop-Evicted zero c s ticks enough =
    unfold evict_loop in Evicted-self c s (empty_within c s (none_left c.nodes enough))
  where
    none_left : (nodes : List (ℕ × CacheNode)) → length nodes ≤ 0 → is_empty nodes ≡ true
    none_left [] h = unfold is_empty in refl
    none_left (x ∷ xs) h = absurd (omega arith)
evict_loop-Evicted (suc fuel) c s ticks enough = elim (evict_loop-Round fuel c s ticks) [
  | done r fits ↦ rw r (Evicted-self c s fits)
  | evicts id n r over found first ↦ rw r (
      Evicted-step c id n _ s over found first (
        evict_loop-Evicted fuel (remove_node c id) (remove_node-IsSound c id s)
          (rw (remove_node-tick c id) ticks) (omega (arith, length-remove_node c id n found))))
]

-- `EvictToBudget` ends, with the running total within the budget. What is left are nodes of before,
-- unchanged, every node that went was last used no later than every node that stays, and either
-- nothing went or one of the nodes that went would not have fitted beside what is left.
pub evict_to_budget-Evicted :
    (c : PrefixCache) → IsSound c → c.tick < word → Evicted c (evict_to_budget c)
unfolding evict_to_budget
evict_to_budget-Evicted c s ticks = evict_loop-Evicted (length c.nodes) c s ticks (omega arith)
