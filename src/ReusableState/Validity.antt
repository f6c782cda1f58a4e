-- ===== src/ReusableState/Validity.antt =====
-- The well-formedness of the arena and its preservation by every operation.
use nemotron_inference.Base.{
  subst, ap, ◌∙◌, sub64, ◌==◌, ℕ, ◌+◌, ◌-◌, ◌≤◌, ◌<◌, ◌≡◌, refl, inl, inr, Bool-cases, true, List,
  none, some, arith, word, Option-cases, Distinct, Entries, weight, find, modify, erase, nat_key,
  emplace-Distinct, erase-Distinct, modify-Distinct, Entries-emplace, Entries-erase, Entries-modify,
  Entries-empty, weight-emplace, weight-erase, weight-modify,
}
use nemotron_inference.ReusableState.{
  ReusableStateKind, ReusableStateHandle, ReusableStateArena, StateAllocation, new_arena, allocate,
  take_bytes, add_reference, sub_reference, new_allocation, same_kind, retain, release, matching,
  drop_reference,
}

-- What holds of each entry of the map.
pub record IsEntry (next_id : ℕ) (k : ℕ) (s : StateAllocation) : Type 0 where
  pub same_id : s.id ≡ k
  pub nonzero_id : 0 < k
  pub fresh : k < next_id
  pub nonempty : 0 < s.bytes
  pub referenced : 0 < s.ref_count
  pub small_count : s.ref_count < word

pub record IsValid (a : ReusableStateArena) : Type 0 where
  pub distinct : Distinct a.allocations
  pub entries : Entries (IsEntry a.next_id) a.allocations
  pub exact : a.current_bytes ≡ weight (λ s. s.bytes) a.allocations
  pub within : a.current_bytes ≤ a.max_bytes
  pub started : 0 < a.next_id

pub new_arena-IsValid : (max_bytes : ℕ) → IsValid (new_arena max_bytes)
unfolding new_arena weight
new_arena-IsValid max_bytes = record {
  distinct = tt;
  entries = Entries-empty _;
  exact = refl;
  within = omega arith;
  started = omega arith;
}

IsEntry-later : {n m k : ℕ} {s : StateAllocation} → n ≤ m → IsEntry n k s → IsEntry m k s
IsEntry-later le h = record {
  same_id = h.same_id;
  nonzero_id = h.nonzero_id;
  fresh = omega arith;
  nonempty = h.nonempty;
  referenced = h.referenced;
  small_count = h.small_count;
}

pub fresh_absent : (a : ReusableStateArena) → IsValid a → find a.next_id a.allocations ≡ none
fresh_absent a v = elim (Option-cases (find a.next_id a.allocations)) [
  | inl e ↦ e
  | inr (s, e) ↦ absurd (let h = v.entries.entry a.next_id s e in omega (arith, h.fresh))
]

-- The accepting part of an allocation, when neither the total nor the next id wraps.
take_bytes-IsValid :
    (a : ReusableStateArena) (kind : ReusableStateKind) (bytes : ℕ) (label : List ℕ)
    → IsValid a
    → 0 < bytes
    → a.current_bytes + bytes ≤ a.max_bytes
    → a.max_bytes < word
    → a.next_id + 1 < word
    → IsValid (take_bytes a kind bytes label).0
unfolding take_bytes
take_bytes-IsValid a kind bytes label v pos room small ids = record {
  distinct = emplace-Distinct a.next_id _ a.allocations v.distinct;
  entries =
      Entries-emplace (IsEntry _) a.next_id _ a.allocations absent
        (record {
          same_id = refl;
          nonzero_id = v.started;
          fresh = omega arith;
          nonempty = pos;
          referenced = omega arith;
          small_count = omega arith;
        })
        (record { entry = λ k s f. IsEntry-later (omega arith) (v.entries.entry k s f) });
  exact = omega (
    arith,
    v.exact,
    weight-emplace (λ (s : StateAllocation). s.bytes) a.next_id
        (new_allocation a.next_id kind bytes label) a.allocations absent,
  );
  within = omega arith;
  started = omega arith;
}
  where
    absent : find a.next_id a.allocations ≡ none
    absent = fresh_absent a v

-- `Allocate` keeps the arena well formed: the running total is the sum of the blocks and within the
-- budget, every block has an id of its own below the next one, and no block is unreferenced. The
-- budget plus the request and the next id are words.
pub allocate-IsValid :
    (a : ReusableStateArena) (kind : ReusableStateKind) (bytes : ℕ) (label : List ℕ)
    → IsValid a
    → a.max_bytes + bytes < word
    → a.next_id + 1 < word
    → IsValid (allocate a kind bytes label).0
unfolding allocate
allocate-IsValid a kind bytes label v small ids =
    ground (arith, take_bytes-IsValid a kind bytes label v)

same_kind→eq : (k l : ReusableStateKind) → same_kind k l ≡ true → k ≡ l
unfolding same_kind
same_kind→eq k l h = ground arith

-- What `matching` returns is the entry under the handle's id.
pub matching-eq-some :
    (a : ReusableStateArena) (h : ReusableStateHandle) (s : StateAllocation)
    → matching a h ≡ some s
    → (find h.id a.allocations ≡ some s) × (s.kind ≡ h.kind) × (s.bytes ≡ h.bytes)
unfolding matching
matching-eq-some a h s m = ground (arith, same_kind→eq s.kind h.kind)

-- A write to the count of one block.
recount-IsValid :
    (a : ReusableStateArena) (k : ℕ) (f : StateAllocation → StateAllocation) (s : StateAllocation)
    → IsValid a
    → find k a.allocations ≡ some s
    → f s ≡ record s { ref_count = (f s).ref_count }
    → 0 < (f s).ref_count
    → (f s).ref_count < word
    → IsValid (record a { allocations = modify k f a.allocations })
recount-IsValid a k f s v found same pos small = record {
  distinct = modify-Distinct k f a.allocations v.distinct;
  entries = Entries-modify (IsEntry a.next_id) k f a.allocations changed v.entries;
  exact = omega (
    arith,
    v.exact,
    weight-modify (λ (s : StateAllocation). s.bytes) k f s a.allocations found,
    ap (λ (s : StateAllocation). s.bytes) same,
  );
  within = v.within;
  started = v.started;
}
  where
    counted : IsEntry a.next_id k s → IsEntry a.next_id k (f s)
    counted h = record {
      same_id = ap (λ (s : StateAllocation). s.id) same ∙ h.same_id;
      nonzero_id = h.nonzero_id;
      fresh = h.fresh;
      nonempty = omega (arith, ap (λ (s : StateAllocation). s.bytes) same, h.nonempty);
      referenced = pos;
      small_count = small;
    }

    changed :
        (x : StateAllocation)
        → find k a.allocations ≡ some x
        → IsEntry a.next_id k x
        → IsEntry a.next_id k (f x)
    changed x hx h =
        let s-x : s ≡ x = ground arith in
        subst (λ y. IsEntry a.next_id k y → IsEntry a.next_id k (f y)) s-x counted h

-- The last reference goes, and the block with it.
free-IsValid :
    (a : ReusableStateArena) (k : ℕ) (s : StateAllocation)
    → IsValid a
    → a.max_bytes < word
    → find k a.allocations ≡ some s
    → IsValid (record a {
      current_bytes = sub64 a.current_bytes s.bytes;
      allocations = erase k a.allocations;
    })
free-IsValid a k s v small found = record {
  distinct = erase-Distinct k a.allocations v.distinct;
  entries = Entries-erase (IsEntry a.next_id) k a.allocations v.distinct v.entries;
  exact =
      omega
        (arith, v.exact, weight-erase (λ (s : StateAllocation). s.bytes) k s a.allocations found);
  within =
      omega
        (arith, v.exact, weight-erase (λ (s : StateAllocation). s.bytes) k s a.allocations found);
  started = v.started;
}

drop_reference-IsValid :
    (a : ReusableStateArena) (h : ReusableStateHandle) (s : StateAllocation)
    → IsValid a
    → a.max_bytes < word
    → find h.id a.allocations ≡ some s
    → IsValid (drop_reference a h s)
unfolding drop_reference
drop_reference-IsValid a h s v small found = elim (Bool-cases (s.ref_count - 1 == 0)) [
  | inl last ↦ rw (last, drop_reference) (free-IsValid a h.id s v small found)
  | inr more ↦
      rw (more, drop_reference)
        (recount-IsValid a h.id sub_reference s v found refl (ground arith)
          (let e = v.entries.entry h.id s found in omega (arith, e.small_count)))
]

-- `Release` keeps a well-formed arena well formed, whatever the handle. The budget is a word.
pub release-IsValid :
    (a : ReusableStateArena) (h : ReusableStateHandle)
    → IsValid a
    → a.max_bytes < word
    → IsValid (release a h)
unfolding release
release-IsValid a h v small = elim (Option-cases (matching a h)) [
  | inl e ↦ rw (e, release) v
  | inr (s, e) ↦
      let found = (matching-eq-some a h s e).0 in
      let step = drop_reference-IsValid a h s v small found in
      rw (e, release) (ground (arith, step))
]

-- `Retain` keeps the arena well formed while the count of the block does not wrap.
pub retain-IsValid :
    (a : ReusableStateArena) (h : ReusableStateHandle)
    → IsValid a
    → ((s : StateAllocation) → find h.id a.allocations ≡ some s → s.ref_count + 1 < word)
    → IsValid (retain a h).0
unfolding retain
retain-IsValid a h v room = elim (Option-cases (matching a h)) [
  | inl e ↦ rw (e, retain) v
  | inr (s, e) ↦
      let found = (matching-eq-some a h s e).0 in
      let fits = room s found in
      rw (e, retain)
        (recount-IsValid a h.id add_reference s v found refl (omega arith) (omega arith))
]

pub release-max_bytes :
    (a : ReusableStateArena) (h : ReusableStateHandle) → (release a h).max_bytes ≡ a.max_bytes
unfolding release drop_reference
release-max_bytes a h = ground arith
