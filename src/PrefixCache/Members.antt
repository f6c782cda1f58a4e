-- ===== src/PrefixCache/Members.antt =====
-- Membership in the conversation sets when a conversation moves from one node to another.
use mathlib.Core.Option
use nemotron_inference.Base.{
  ℕ, ◌≡◌, refl, sym, ap, ◌∙◌, ◌⊎◌, inl, inr, Bool-cases, Option-cases, Bool, true, false, ◌&&◌, not,
  List, [], none, some, arith, ◌==◌, if◌then◌else◌, nat_key, string_key, str_eq, str_eq_iff, find,
  emplace, assign, modify, erase, emplace_there, Distinct, find-emplace, find-assign, find-modify,
  find-erase, assign-Distinct,
}
use nemotron_inference.PrefixCache.State.{CacheNode, StringSet}
use nemotron_inference.PrefixCache.Heads.{is_head, holds, member, Agree}

holds-erase :
    (x y : List ℕ) (set : StringSet)
    → Distinct set
    → holds y (erase x set) ≡ (if str_eq x y then false else holds y set)
holds-erase x y set d = ground (arith, find-erase x y set d)

holds-emplace :
    (x y : List ℕ) (set : StringSet)
    → holds y (emplace x tt set) ≡ (if str_eq x y then true else holds y set)
holds-emplace x y set = elim (Option-cases (find x set)) [
  | inl absent ↦ ground (arith, find-emplace x y tt set absent)
  | inr (u, there) ↦ rw (emplace_there x tt u set there) (same u there)
]
  where
    same :
        (u : Unit {0})
        → find x set ≡ some u
        → holds y set ≡ (if str_eq x y then true else holds y set)
    same u there = elim (Bool-cases (str_eq x y)) [
      | inl hit ↦
          let x-y = (str_eq_iff x y).0 hit in
          let moved : find y set ≡ some u = rw x-y at there in ground arith
      | inr miss ↦ rw miss
    ]

module _ (sets : CacheNode → StringSet) (nodes : List (ℕ × CacheNode)) where
  -- A write to the node `k`.
  member-modify :
      (k : ℕ) (f : CacheNode → CacheNode) (n : CacheNode) (y : List ℕ) (id : ℕ)
      → find k nodes ≡ some n
      → member sets y (find id (modify k f nodes))
        ≡ (if k == id then holds y (sets (f n)) else member sets y (find id nodes))
  member-modify k f n y id found = rw (find-modify k id f nodes) (cases (Bool-cases (k == id)))
    where
      cases :
          (k == id ≡ true) ⊎ (k == id ≡ false)
          → member sets y (if k == id then Option.map f (find id nodes) else find id nodes)
            ≡ (if k == id then holds y (sets (f n)) else member sets y (find id nodes))
      cases (inl hit) = let k-id : k ≡ id = ground arith in rw (hit, rw k-id at found)
      cases (inr miss) = rw miss

  -- Removal of a node with an empty set.
  pub member-erase :
      (k : ℕ) (n : CacheNode) (y : List ℕ) (id : ℕ)
      → Distinct nodes
      → find k nodes ≡ some n
      → sets n ≡ []
      → member sets y (find id (erase k nodes)) ≡ member sets y (find id nodes)
  member-erase k n y id d found empty = rw (find-erase k id nodes d) (cases (Bool-cases (k == id)))
    where
      cases :
          (k == id ≡ true) ⊎ (k == id ≡ false)
          → member sets y (if k == id then none else find id nodes) ≡ member sets y (find id nodes)
      cases (inl hit) =
          let k-id : k ≡ id = ground arith in
          rw (hit, rw k-id at found, empty) (unfold find in refl)
      cases (inr miss) = rw miss

  -- A conversation leaves its head `k`, and so every node but `keep`.
  pub member-leave :
      (heads : List (List ℕ × ℕ)) (k keep : ℕ) (f : CacheNode → CacheNode) (n : CacheNode)
      (x y : List ℕ) (id : ℕ)
      → Agree sets nodes heads
      → find k nodes ≡ some n
      → sets (f n) ≡ erase x (sets n)
      → Distinct (sets n)
      → find x heads ≡ some k
      → (k == keep) ≡ false
      → member sets y (find id (modify k f nodes))
        ≡ (if str_eq x y && not (id == keep) then false else member sets y (find id nodes))
  member-leave heads k keep f n x y id v found step d head other =
      member-modify k f n y id found ∙ rw step (rw (holds-erase x y (sets n) d) done)
    where
      -- The node that is left.
      here : (k == id) ≡ true → member sets y (find id nodes) ≡ holds y (sets n)
      here hit = let k-id : k ≡ id = ground arith in rw (rw k-id at found)

      -- Any other node does not hold the conversation.
      away : str_eq x y ≡ true → member sets y (find id nodes) ≡ (k == id)
      away same = let x-y = (str_eq_iff x y).0 same in sym (v.agree y id) ∙ rw (rw x-y at head)

      done :
          (if k == id
            then (if str_eq x y then false else holds y (sets n))
            else member sets y (find id nodes))
          ≡ (if str_eq x y && not (id == keep) then false else member sets y (find id nodes))
      done = elim (Bool-cases (k == id)) [
        | inl hit ↦
            let apart : (id == keep) ≡ false = ground arith in
            let there = here hit in rw (hit, apart, there) (ends (str_eq x y) (holds y (sets n)))
        | inr miss ↦ elim (Bool-cases (str_eq x y)) [
          | inl same ↦ let gone = away same in rw (miss, same, gone) (rw miss (both (id == keep)))
          | inr differ ↦ rw (miss, differ)
        ]
      ]
        where
          ends : (b h : Bool) → (if b then false else h) ≡ (if b && true then false else h)
          ends true h = refl
          ends false h = refl

          both : (b : Bool) → false ≡ (if not b then false else false)
          both true = refl
          both false = refl

  -- A conversation becomes a member of the node `k`, to which its head is set.
  pub assign-Agree :
      (heads : List (List ℕ × ℕ)) (before : List (ℕ × CacheNode)) (k : ℕ)
      (f : CacheNode → CacheNode) (n : CacheNode) (x : List ℕ)
      → Agree sets before heads
      → ((y : List ℕ) (id : ℕ)
          → member sets y (find id nodes)
            ≡ (if str_eq x y && not (id == k) then false else member sets y (find id before)))
      → find k nodes ≡ some n
      → sets (f n) ≡ emplace x tt (sets n)
      → Agree sets (modify k f nodes) (assign x k heads)
  assign-Agree heads before k f n x v left found step = record {
    distinct = assign-Distinct x k heads v.distinct;
    agree = λ y id.
        ap (is_head id) (find-assign x y k heads)
        ∙ sym (
            member-modify k f n y id found ∙ rw step (rw (holds-emplace x y (sets n)) (done y id)));
  }
    where
      -- The new head.
      here : (y : List ℕ) (id : ℕ) → (k == id) ≡ true → is_head id (find y heads) ≡ holds y (sets n)
      here y id hit =
          let k-id : k ≡ id = ground arith in
          v.agree y id ∙ sym (kept y id k-id) ∙ rw (rw k-id at found)
        where
          kept :
              (y : List ℕ) (id : ℕ)
              → k ≡ id
              → member sets y (find id nodes) ≡ member sets y (find id before)
          kept y id k-id =
              let same : (id == k) ≡ true = ground arith in
              left y id ∙ rw same (either (str_eq x y))
            where
              either :
                  (b : Bool)
                  → (if b && false then false else member sets y (find id before))
                    ≡ member sets y (find id before)
              either true = refl
              either false = refl

      done :
          (y : List ℕ) (id : ℕ)
          → (if k == id
              then (if str_eq x y then true else holds y (sets n))
              else member sets y (find id nodes))
            ≡ is_head id (if str_eq x y then some k else find y heads)
      done y id = elim (Bool-cases (k == id)) [
        | inl hit ↦ elim (Bool-cases (str_eq x y)) [
          | inl same ↦ ground arith
          | inr differ ↦ rw (hit, differ, here y id hit)
        ]
        | inr miss ↦
            let apart : (id == k) ≡ false = ground arith in
            rw (miss, left y id, apart)
              (elim (Bool-cases (str_eq x y)) [
                | inl same ↦ rw same (sym miss)
                | inr differ ↦ rw differ (sym (v.agree y id))
              ])
      ]
