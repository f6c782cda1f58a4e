-- ===== src/ReusableState/Bundles.antt =====
-- `AllocateDescriptor` is all-or-nothing, and the operations on descriptors keep the arena well
-- formed.
use nemotron_inference.Base.{
  ℕ, ◌+◌, ◌<◌, ◌≡◌, inl, inr, Bool-cases, true, false, List, ◌++◌, arith, word,
}
use nemotron_inference.ReusableState.{
  ReusableStateHandle, ReusableStateArena, ReusableStateDescriptor, attention_kv, mamba_recurrent,
  allocate, release, handle_valid, descriptor_valid, release_descriptor, allocate_descriptor,
  kv_suffix, mamba_suffix,
}
use nemotron_inference.ReusableState.Validity.{
  IsValid, allocate-IsValid, release-IsValid, release-max_bytes,
}
use nemotron_inference.ReusableState.Admission.{usable_granted, unusable_unchanged}
use nemotron_inference.ReusableState.Blocks.{release-taken}

-- `Release` of a descriptor keeps a well-formed arena well formed, whatever its handles. The budget
-- is a word.
pub release_descriptor-IsValid :
    (a : ReusableStateArena) (d : ReusableStateDescriptor)
    → IsValid a
    → a.max_bytes < word
    → IsValid (release_descriptor a d)
unfolding release_descriptor
release_descriptor-IsValid a d v small =
    release-IsValid _ d.mamba_state (release-IsValid a d.kv_state v small)
      (rw release-max_bytes small)

-- `AllocateDescriptor` hands out both blocks or none: where it returns no usable descriptor the
-- arena is as before but for the next id. The budget plus both requests is a word.
pub allocate_descriptor_atomic :
    (a : ReusableStateArena) (kv_bytes mamba_bytes : ℕ) (label : List ℕ)
    → IsValid a
    → a.max_bytes + kv_bytes + mamba_bytes < word
    → a.next_id + 1 < word
    → descriptor_valid (allocate_descriptor a kv_bytes mamba_bytes label).1 ≡ false
    → let (b, d) = allocate_descriptor a kv_bytes mamba_bytes label in
      b ≡ record a { next_id = b.next_id }
unfolding allocate_descriptor descriptor_valid
allocate_descriptor_atomic a kv_bytes mamba_bytes label v small ids none_given =
    elim (Bool-cases (handle_valid (allocate a attention_kv kv_bytes (label ++ kv_suffix)).1)) [
      | inr kv ↦
          let same = unusable_unchanged a attention_kv kv_bytes (label ++ kv_suffix) v kv in
          ground (arith, same)
      | inl kv ↦ second kv
    ]
  where
    first : ReusableStateArena × ReusableStateHandle
    first = allocate a attention_kv kv_bytes (label ++ kv_suffix)

    -- The first block is there: the second was refused, and the first goes back.
    second :
        handle_valid first.1 ≡ true
        → let (b, d) = allocate_descriptor a kv_bytes mamba_bytes label in
          b ≡ record a { next_id = b.next_id }
    second kv =
        let (taken, pos, room) =
          usable_granted a attention_kv kv_bytes (label ++ kv_suffix) v (omega arith) kv in
        let valid =
          allocate-IsValid a attention_kv kv_bytes (label ++ kv_suffix) v (omega arith) ids in
        let undone =
          release-taken a attention_kv kv_bytes (label ++ kv_suffix) v pos (omega arith) in
        let gone : release first.0 first.1 ≡ record a { next_id = first.0.next_id } =
          rw taken undone in
        let refused =
          unusable_unchanged first.0 mamba_recurrent mamba_bytes (label ++ mamba_suffix) valid in
        elim (Bool-cases
          (handle_valid (allocate first.0 mamba_recurrent mamba_bytes (label ++ mamba_suffix)).1)) [
            | inl mamba ↦ absurd (ground arith)
            | inr mamba ↦ let same = refused mamba in ground (arith, same, gone)
          ]
