-- ===== src/ReusableState/Lifetime.antt =====
-- How long a block lives: what an allocation, a retain and a release undo of one another.
use nemotron_inference.Base.{
  ℕ, zero, suc, ◌+◌, ◌<◌, ◌≡◌, ap, ◌∙◌, inl, inr, true, some, arith, word, Option-cases, sub64,
  subst, find, modify, erase, nat_key, same_refl, modify_undo, find-modify,
}
use native.Mathlib.Nat.{add-zero, add-suc, zero-add}
use nemotron_inference.ReusableState.{
  ReusableStateKind, ReusableStateHandle, ReusableStateArena, StateAllocation, add_reference,
  sub_reference, retain, release, matching, drop_reference, handle_valid, same_kind,
}
use nemotron_inference.ReusableState.Validity.{IsValid, matching-eq-some}

same_kind_refl : (k : ReusableStateKind) → same_kind k k ≡ true
unfolding same_kind
same_kind_refl k = ground arith

-- A handle names its block with `n` references.
pub record Counted (a : ReusableStateArena) (h : ReusableStateHandle) (n : ℕ) : Type 0 where
  pub block : StateAllocation
  pub found : find h.id a.allocations ≡ some block
  pub named : matching a h ≡ some block
  pub count : block.ref_count ≡ n

pub matching_intro :
    (a : ReusableStateArena) (h : ReusableStateHandle) (s : StateAllocation)
    → handle_valid h ≡ true
    → find h.id a.allocations ≡ some s
    → s.kind ≡ h.kind
    → s.bytes ≡ h.bytes
    → matching a h ≡ some s
unfolding matching handle_valid
matching_intro a h s v f k b = ground (arith, same_kind_refl h.kind)

pub matching_valid :
    (a : ReusableStateArena) (h : ReusableStateHandle) (s : StateAllocation)
    → matching a h ≡ some s
    → handle_valid h ≡ true
unfolding matching handle_valid
matching_valid a h s m = ground arith

-- `Release` of a block with several references, and with one.
pub release_shared :
    (a : ReusableStateArena) (h : ReusableStateHandle) (s : StateAllocation)
    → matching a h ≡ some s
    → 1 < s.ref_count
    → release a h ≡ record a { allocations = modify h.id sub_reference a.allocations }
unfolding release drop_reference
release_shared a h s m more = rw (m, release) (ground arith)

pub release_last :
    (a : ReusableStateArena) (h : ReusableStateHandle) (s : StateAllocation)
    → matching a h ≡ some s
    → s.ref_count ≡ 1
    → release a h ≡ record a {
      current_bytes = sub64 a.current_bytes s.bytes;
      allocations = erase h.id a.allocations;
    }
unfolding release drop_reference
release_last a h s m last = rw (m, release) (ground arith)

unfoldable pub retained : ReusableStateArena → ReusableStateHandle → ReusableStateArena
retained a h = record a { allocations = modify h.id add_reference a.allocations }

pub matching-retained :
    (a : ReusableStateArena) (h : ReusableStateHandle) (s : StateAllocation)
    → matching a h ≡ some s
    → matching (retained a h) h ≡ some (add_reference s)
unfolding retained
matching-retained a h s m =
    let (found, kind, bytes) = matching-eq-some a h s m in
    matching_intro (retained a h) h (add_reference s) (matching_valid a h s m)
      (ground (arith, find-modify h.id h.id add_reference a.allocations, same_refl h.id)) kind bytes

pub release-retained :
    (a : ReusableStateArena) (h : ReusableStateHandle) (s : StateAllocation)
    → matching a h ≡ some s
    → 0 < s.ref_count
    → s.ref_count + 1 < word
    → release (retained a h) h ≡ a
release-retained a h s m pos room =
    let found = (matching-eq-some a h s m).0 in
    release_shared (retained a h) h (add_reference s) (matching-retained a h s m) (omega arith)
    ∙ unfold retained in
      ap (λ m. record a { allocations = m })
        (modify_undo h.id add_reference sub_reference s a.allocations found (back s pos room))
  where
    back :
        (s : StateAllocation)
        → 0 < s.ref_count
        → s.ref_count + 1 < word
        → sub_reference (add_reference s) ≡ s
    back s pos room = ground arith

-- `Retain` then `Release` of one handle leaves the arena exactly as it was, while the block's count
-- does not wrap.
pub release-retain :
    (a : ReusableStateArena) (h : ReusableStateHandle)
    → IsValid a
    → ((s : StateAllocation) → find h.id a.allocations ≡ some s → s.ref_count + 1 < word)
    → (retain a h).1 ≡ true
    → release (retain a h).0 h ≡ a
unfolding retain
release-retain a h v room held = elim (Option-cases (matching a h)) [
  | inl e ↦ absurd (ground arith)
  | inr (s, e) ↦
      let found = (matching-eq-some a h s e).0 in
      let entry = v.entries.entry h.id s found in
      rw (e, retain) (unfold retained in release-retained a h s e entry.referenced (room s found))
]

pub retain_times : ℕ → ReusableStateArena → ReusableStateHandle → ReusableStateArena
retain_times zero a h = a
retain_times (suc n) a h = (retain (retain_times n a h) h).0

pub release_times : ℕ → ReusableStateArena → ReusableStateHandle → ReusableStateArena
release_times zero a h = a
release_times (suc n) a h = release_times n (release a h) h

pub retain-retained :
    (a : ReusableStateArena) (h : ReusableStateHandle) (s : StateAllocation)
    → matching a h ≡ some s
    → (retain a h).0 ≡ retained a h
unfolding retain retained
retain-retained a h s m = rw (m, retain)

-- The count after `n` retains.
pub matching-retain_times :
    (n : ℕ) (a : ReusableStateArena) (h : ReusableStateHandle) (s : StateAllocation)
    → matching a h ≡ some s
    → s.ref_count + n < word
    → matching (retain_times n a h) h ≡ some (record s { ref_count = s.ref_count + n })
unfolding retain_times
matching-retain_times zero a h s m small = ground arith
matching-retain_times (suc n) a h s m small =
    let before = matching-retain_times n a h s m (omega arith) in
    rw (retain-retained (retain_times n a h) h _ before)
      (matching-retained (retain_times n a h) h _ before ∙ ground arith)

-- As many releases as retains leave the arena as it was.
pub release_times-retain_times :
    (k n : ℕ) (a : ReusableStateArena) (h : ReusableStateHandle) (s : StateAllocation)
    → matching a h ≡ some s
    → 0 < s.ref_count
    → s.ref_count + (n + k) < word
    → release_times k (retain_times (n + k) a h) h ≡ retain_times n a h
unfolding retain_times release_times
release_times-retain_times zero n a h s m pos small = rw add-zero
release_times-retain_times (suc k) n a h s m pos small =
    let before = matching-retain_times (n + k) a h s m (omega arith) in
    rw add-suc (
      rw (retain-retained (retain_times (n + k) a h) h _ before) (
        rw (release-retained (retain_times (n + k) a h) h _ before (omega arith) (omega arith))
          (release_times-retain_times k n a h s m pos (omega arith))))

pub release_times-retain_times_self :
    (n : ℕ) (a : ReusableStateArena) (h : ReusableStateHandle) (s : StateAllocation)
    → matching a h ≡ some s
    → 0 < s.ref_count
    → s.ref_count + n < word
    → release_times n (retain_times n a h) h ≡ a
unfolding retain_times
release_times-retain_times_self n a h s m pos small =
    subst (λ t. release_times n (retain_times t a h) h ≡ a) (zero-add n)
      (release_times-retain_times n 0 a h s m pos (omega arith))
