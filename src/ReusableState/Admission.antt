-- ===== src/ReusableState/Admission.antt =====
-- Which requests `Allocate` admits, on every branch; and what a request does whose sum with the
-- running total leaves the 64-bit range.
use nemotron_inference.Base.{
  ℕ, ◌+◌, ◌≤◌, ◌<◌, ◌≡◌, refl, ap, ◌⊎◌, inl, inr, Bool-cases, ◌==◌, if◌then◌else◌, ◌||◌, ltb, Bool,
  true, false, List, none, some, arith, word, add64, weight, nat_key, find-emplace, weight-emplace,
}
use nemotron_inference.ReusableState.{
  ReusableStateKind, ReusableStateHandle, ReusableStateArena, StateAllocation, new_allocation,
  allocate, take_bytes, handle_valid, describe, no_handle,
}
use nemotron_inference.ReusableState.Validity.{IsValid, fresh_absent}

module _ (a : ReusableStateArena) (kind : ReusableStateKind) (bytes : ℕ) (label : List ℕ) where
  -- The request was granted: the handle names a fresh block with one reference, and every other
  -- block is as before.
  pub record Granted (b : ReusableStateArena) (h : ReusableStateHandle) : Type 0 where
    pub asked : 0 < bytes
    pub room : a.current_bytes + bytes ≤ a.max_bytes
    pub usable : handle_valid h ≡ true
    pub unused : describe a h.id ≡ none
    pub charged : b.current_bytes ≡ a.current_bytes + bytes
    pub budget : b.max_bytes ≡ a.max_bytes
    pub blocks :
        (j : ℕ)
        → describe b j
          ≡ (if h.id == j then some (new_allocation h.id kind bytes label) else describe a j)

  -- The request was refused, and nothing changed.
  pub record Refused (b : ReusableStateArena) (h : ReusableStateHandle) : Type 0 where
    pub cause : (bytes ≡ 0) ⊎ (a.max_bytes < a.current_bytes + bytes)
    pub unchanged : b ≡ a
    pub empty : h ≡ no_handle

  take_bytes-Granted :
      IsValid a
      → 0 < bytes
      → a.current_bytes + bytes ≤ a.max_bytes
      → a.max_bytes < word
      → Granted (take_bytes a kind bytes label).0 (take_bytes a kind bytes label).1
  unfolding take_bytes describe handle_valid
  take_bytes-Granted v pos room small = record {
    asked = pos;
    room = room;
    usable = ground (arith, v.started);
    unused = fresh_absent a v;
    charged = omega arith;
    budget = refl;
    blocks = λ j. find-emplace a.next_id j _ a.allocations (fresh_absent a v);
  }

  refuses : Bool
  refuses = bytes == 0 || ltb a.max_bytes (add64 a.current_bytes bytes)

  allocate_refused : refuses ≡ true → allocate a kind bytes label ≡ (a, no_handle)
  unfolding allocate refuses
  allocate_refused e = rw (e, allocate)

  allocate_granted : refuses ≡ false → allocate a kind bytes label ≡ take_bytes a kind bytes label
  unfolding allocate refuses
  allocate_granted e = rw (e, allocate)

  -- `Allocate` grants a request exactly when it is not empty and fits the budget, if the budget plus
  -- the request is a word: then the handle names a fresh block with one reference and the total is
  -- charged; otherwise nothing changes and the handle is the empty one.
  pub allocate_decides :
      IsValid a
      → a.max_bytes + bytes < word
      → Granted (allocate a kind bytes label).0 (allocate a kind bytes label).1
        ⊎ Refused (allocate a kind bytes label).0 (allocate a kind bytes label).1
  unfolding refuses
  allocate_decides v small = elim (Bool-cases refuses) [
    | inl e ↦
        rw (allocate_refused e)
          (inr (record { cause = ground arith; unchanged = refl; empty = refl }))
    | inr e ↦
        rw (allocate_granted e)
          (inl (take_bytes-Granted v (ground arith) (ground arith) (omega arith)))
  ]

  -- Where the sum leaves the 64-bit range the guard is passed: the arena grants a block that it has
  -- no room for, and its running total falls instead of rising.
  pub allocate_overcommits :
      IsValid a
      → a.max_bytes < word
      → bytes < word
      → word ≤ a.current_bytes + bytes
      → (handle_valid (allocate a kind bytes label).1 ≡ true)
        × ((allocate a kind bytes label).0.current_bytes < a.current_bytes)
        × (a.max_bytes < weight (λ s. s.bytes) (allocate a kind bytes label).0.allocations)
  unfolding refuses take_bytes handle_valid
  allocate_overcommits v small fits wraps = rw (allocate_granted (ground arith)) (
    ground (arith, v.started),
    omega arith,
    omega (
      arith,
      v.exact,
      weight-emplace (λ (s : StateAllocation). s.bytes) a.next_id
          (new_allocation a.next_id kind bytes label) a.allocations (fresh_absent a v),
    ),
  )

  -- A usable handle comes from a request that was granted.
  pub usable_granted :
      IsValid a
      → a.max_bytes + bytes < word
      → handle_valid (allocate a kind bytes label).1 ≡ true
      → (allocate a kind bytes label ≡ take_bytes a kind bytes label)
        × (0 < bytes)
        × (a.current_bytes + bytes ≤ a.max_bytes)
  unfolding refuses handle_valid
  usable_granted v small ok = elim (Bool-cases refuses) [
    | inl e ↦ absurd (let off = ap (λ r. handle_valid r.1) (allocate_refused e) in ground arith)
    | inr e ↦ (allocate_granted e, ground arith, ground arith)
  ]

  -- An unusable handle comes from a request that changed nothing.
  pub unusable_unchanged :
      IsValid a
      → handle_valid (allocate a kind bytes label).1 ≡ false
      → (allocate a kind bytes label).0 ≡ a
  unfolding refuses take_bytes handle_valid
  unusable_unchanged v ok = elim (Bool-cases refuses) [
    | inl e ↦ rw (allocate_refused e)
    | inr e ↦
        let on = ap (λ r. handle_valid r.1) (allocate_granted e) in
        absurd (ground (arith, v.started))
  ]
