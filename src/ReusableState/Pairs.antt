-- ===== src/ReusableState/Pairs.antt =====
-- The operations on descriptors are all-or-nothing, and undo one another.
use nemotron_inference.Base.{
  ℕ, ◌+◌, ◌<◌, ◌≡◌, ap, ◌∙◌, sym, inl, inr, Bool-cases, ◌==◌, true, false, some, arith, word,
  Option-cases, find, nat_key, find-modify, modify_comm, subst,
}
use nemotron_inference.ReusableState.{
  ReusableStateHandle, ReusableStateArena, ReusableStateDescriptor, StateAllocation, add_reference,
  retain, release, matching, descriptor_valid, retain_descriptor, release_descriptor,
}
use nemotron_inference.ReusableState.Validity.{IsValid, matching-eq-some}
use nemotron_inference.ReusableState.Lifetime.{
  matching_intro, matching_valid, release-retain, release-retained, retained, retain-retained,
  matching-retained,
}

-- No count of the arena wraps when it is raised by `n`.
abbrev pub Room : ReusableStateArena → ℕ → Type 0
Room a n = (k : ℕ) (s : StateAllocation) → find k a.allocations ≡ some s → s.ref_count + n < word

retain_failed :
    (a : ReusableStateArena) (h : ReusableStateHandle) → (retain a h).1 ≡ false → (retain a h).0 ≡ a
unfolding retain
retain_failed a h failed = elim (Option-cases (matching a h)) [
  | inl e ↦ rw (e, retain)
  | inr (s, e) ↦ absurd (ground arith)
]

-- A descriptor is retained as a whole or not at all: on failure a well-formed arena is exactly as
-- before. No reference count is at the end of its range.
pub retain_descriptor_atomic :
    (a : ReusableStateArena) (d : ReusableStateDescriptor)
    → IsValid a
    → Room a 1
    → (retain_descriptor a d).1 ≡ false
    → (retain_descriptor a d).0 ≡ a
unfolding retain_descriptor
retain_descriptor_atomic a d v room failed = elim (Bool-cases (descriptor_valid d)) [
  | inr e ↦ rw (e, retain_descriptor)
  | inl e ↦ elim (Bool-cases (retain a d.kv_state).1) [
    | inr kv ↦ ground (arith, retain_failed a d.kv_state kv)
    | inl kv ↦ ground (
      arith,
      retain_failed (retain a d.kv_state).0 d.mamba_state,
      release-retain a d.kv_state v (room d.kv_state.id) kv,
    )
  ]
]

retain-matching :
    (a : ReusableStateArena) (h : ReusableStateHandle)
    → (retain a h).1 ≡ true
    → (s : StateAllocation) × (matching a h ≡ some s)
unfolding retain
retain-matching a h held = elim (Option-cases (matching a h)) [
  | inl e ↦ absurd (ground arith)
  | inr (s, e) ↦ (s, e)
]

-- Two handles of one id that both match are one handle.
same_block :
    (a : ReusableStateArena) (h g : ReusableStateHandle) (s t : StateAllocation)
    → matching a h ≡ some s
    → matching a g ≡ some t
    → h.id ≡ g.id
    → h ≡ g
same_block a h g s t m n e =
    let (fs, ks, bs) = matching-eq-some a h s m in
    let (ft, kt, bt) = matching-eq-some a g t n in
    let both : find g.id a.allocations ≡ some s = rw (← e) fs in
    let s-t : s ≡ t = ground arith in
    let k : h.kind ≡ g.kind = ground arith in
    let b : h.bytes ≡ g.bytes = ground arith in ground arith

-- Releasing the first of two retained blocks leaves the second retained.
release-retained_ne :
    (a : ReusableStateArena) (h g : ReusableStateHandle) (s : StateAllocation)
    → matching a h ≡ some s
    → 0 < s.ref_count
    → s.ref_count + 1 < word
    → (h.id == g.id) ≡ false
    → release (retained (retained a h) g) h ≡ retained a g
unfolding retained
release-retained_ne a h g s m pos room ne =
    let (found, kind, bytes) = matching-eq-some a h s m in
    ap (λ b. release (record a { allocations = b }) h)
      (modify_comm g.id h.id add_reference add_reference a.allocations (ground arith))
    ∙ unfold retained in
      release-retained (retained a g) h s
        (matching_intro (retained a g) h s (matching_valid a h s m)
          (ground (arith, find-modify g.id h.id add_reference a.allocations)) kind bytes)
        pos room

matching-retained_ne :
    (a : ReusableStateArena) (h g : ReusableStateHandle)
    → (h.id == g.id) ≡ false
    → matching (retained a h) g ≡ matching a g
unfolding matching retained
matching-retained_ne a h g ne = ground (arith, find-modify h.id g.id add_reference a.allocations)

retained_pair :
    (a : ReusableStateArena) (d : ReusableStateDescriptor) (s t : StateAllocation)
    → Room a 2
    → IsValid a
    → matching a d.kv_state ≡ some s
    → matching (retained a d.kv_state) d.mamba_state ≡ some t
    → release_descriptor (retained (retained a d.kv_state) d.mamba_state) d ≡ a
unfolding release_descriptor
retained_pair a d s t room v m n =
    let fits = counts d.kv_state s m in
    elim (Bool-cases (d.kv_state.id == d.mamba_state.id)) [
      | inl same ↦
          let twice = matching-retained a d.kv_state s m in
          let one =
            same_block (retained a d.kv_state) d.kv_state d.mamba_state _ t twice n
              (ground arith) in
          subst (λ g. release (release (retained (retained a d.kv_state) g) d.kv_state) g ≡ a) one
            (ap (λ b. release b d.kv_state)
                (release-retained (retained a d.kv_state) d.kv_state _ twice (omega arith)
                  (omega arith))
              ∙ release-retained a d.kv_state s m (counts d.kv_state s m).0 (omega arith))
      | inr ne ↦
          let n' = sym (matching-retained_ne a d.kv_state d.mamba_state ne) ∙ n in
          let other = counts d.mamba_state t n' in
          ap (λ b. release b d.mamba_state)
            (release-retained_ne a d.kv_state d.mamba_state s m (counts d.kv_state s m).0
              (omega arith) ne)
          ∙ release-retained a d.mamba_state t n' other.0 (omega arith)
    ]
  where
    counts :
        (h : ReusableStateHandle) (x : StateAllocation)
        → matching a h ≡ some x
        → (0 < x.ref_count) × (x.ref_count + 2 < word)
    counts h x e =
        let found = (matching-eq-some a h x e).0 in
        ((v.entries.entry h.id x found).referenced, room h.id x found)

-- `Release` of a descriptor right after its `Retain` leaves the arena exactly as it was, whether or
-- not its two handles name one block. The arena is well formed, and two more references on any block
-- are a word.
pub release_descriptor-retain_descriptor :
    (a : ReusableStateArena) (d : ReusableStateDescriptor)
    → IsValid a
    → Room a 2
    → (retain_descriptor a d).1 ≡ true
    → release_descriptor (retain_descriptor a d).0 d ≡ a
unfolding retain_descriptor
release_descriptor-retain_descriptor a d v room held =
    let kv : (retain a d.kv_state).1 ≡ true = ground arith in
    let mamba : (retain (retain a d.kv_state).0 d.mamba_state).1 ≡ true = ground arith in
    let (s, m) = retain-matching a d.kv_state kv in
    let (t, n) = retain-matching (retain a d.kv_state).0 d.mamba_state mamba in
    let first = retain-retained a d.kv_state s m in
    let second = retain-retained (retain a d.kv_state).0 d.mamba_state t n in
    let both : (retain_descriptor a d).0 ≡ retained (retained a d.kv_state) d.mamba_state =
      ground arith in
    rw both (retained_pair a d s t room v m (rw first at n))
