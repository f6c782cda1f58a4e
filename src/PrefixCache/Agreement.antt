-- ===== src/PrefixCache/Agreement.antt =====
-- The agreement of heads and nodes through the steps on the node map and the assignment of a head.
use nemotron_inference.Base.{
  ℕ, ◌≡◌, refl, ◌∙◌, inl, inr, Bool-cases, Option-cases, Bool, true, false, ◌&&◌, List, [], none,
  some, arith, ◌==◌, if◌then◌else◌, nat_key, string_key, find, emplace, modify, erase, Distinct,
  find-emplace, find-modify, find-erase,
}
use nemotron_inference.PrefixCache.State.{CacheNode, StringSet}
use nemotron_inference.PrefixCache.Nodes.{erase_heads}
use nemotron_inference.PrefixCache.Heads.{
  holds, member, Agree, erase_heads-Distinct, is_head-erase_heads,
}

module _ (sets : CacheNode → StringSet) (nodes : List (ℕ × CacheNode))
    (heads : List (List ℕ × ℕ)) where
  pub member-keep :
      (k : ℕ) (f : CacheNode → CacheNode)
      → ((n : CacheNode) → sets (f n) ≡ sets n)
      → (y : List ℕ) (id : ℕ)
      → member sets y (find id nodes) ≡ member sets y (find id (modify k f nodes))
  member-keep k f keep y id = rw (find-modify k id f nodes) (elim (Option-cases (find id nodes)) [
    | inl e ↦ ground arith
    | inr (n, e) ↦ elim (Bool-cases (k == id)) [
      | inl hit ↦ rw (hit, e, keep n)
      | inr miss ↦ rw miss
    ]
  ])

  -- A write that keeps the set of the node.
  pub rewrite-Agree :
      (k : ℕ) (f : CacheNode → CacheNode)
      → ((n : CacheNode) → sets (f n) ≡ sets n)
      → Agree sets nodes heads
      → Agree sets (modify k f nodes) heads
  rewrite-Agree k f keep v = record {
    distinct = v.distinct;
    agree = λ y id. v.agree y id ∙ member-keep k f keep y id;
  }

  -- A new node without conversations.
  pub emplace-Agree :
      (k : ℕ) (n : CacheNode)
      → find k nodes ≡ none
      → sets n ≡ []
      → Agree sets nodes heads
      → Agree sets (emplace k n nodes) heads
  emplace-Agree k n absent empty v = record {
    distinct = v.distinct;
    agree = λ y id. v.agree y id ∙ rw (find-emplace k id n nodes absent) (kept y id);
  }
    where
      kept :
          (y : List ℕ) (id : ℕ)
          → member sets y (find id nodes)
            ≡ member sets y (if k == id then some n else find id nodes)
      kept y id = elim (Bool-cases (k == id)) [
        | inl hit ↦
            let k-id : k ≡ id = ground arith in
            rw (hit, rw k-id at absent, empty) (unfold find in refl)
        | inr miss ↦ rw miss
      ]

  -- A node goes, with its heads.
  pub erase-Agree :
      (k : ℕ) (n : CacheNode)
      → Distinct nodes
      → find k nodes ≡ some n
      → Agree sets nodes heads
      → Agree sets (erase k nodes) (erase_heads k (sets n) heads)
  erase-Agree k n d found v = record {
    distinct = erase_heads-Distinct k (sets n) heads v.distinct;
    agree = λ y id.
        is_head-erase_heads k id (sets n) y heads v.distinct
        ∙ rw (find-erase k id nodes d, v.agree y id) (kept y id);
  }
    where
      kept :
          (y : List ℕ) (id : ℕ)
          → (if k == id && holds y (sets n) then false else member sets y (find id nodes))
            ≡ member sets y (if k == id then none else find id nodes)
      kept y id = elim (Bool-cases (k == id)) [
        | inl hit ↦
            let k-id : k ≡ id = ground arith in
            rw (hit, rw k-id at found) (all_held (holds y (sets n)))
        | inr miss ↦ rw miss
      ]
        where
          all_held : (b : Bool) → (if true && b then false else b) ≡ false
          all_held true = refl
          all_held false = refl
