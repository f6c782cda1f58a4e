-- ===== src/ReusableState/Blocks.antt =====
-- A block from its allocation to its last release, and the all-or-nothing operations on pairs.
use nemotron_inference.Base.{
  ℕ, ◌+◌, ◌<◌, ◌≡◌, refl, ap, ◌∙◌, true, List, some, arith, word, nat_key, erase-emplace,
  find-emplace,
}
use nemotron_inference.ReusableState.{
  ReusableStateKind, ReusableStateArena, new_allocation, allocate, take_bytes, release, matching,
  handle_valid,
}
use nemotron_inference.ReusableState.Validity.{IsValid, fresh_absent}
use nemotron_inference.ReusableState.Admission.{usable_granted}
use nemotron_inference.ReusableState.Lifetime.{
  matching_intro, release_last, retain_times, release_times, matching-retain_times,
  release_times-retain_times, release_times-retain_times_self,
}

module _ (a : ReusableStateArena) (kind : ReusableStateKind) (bytes : ℕ) (label : List ℕ) where
  -- The block that a granted request got is the one that its handle names.
  taken_matching :
      IsValid a
      → 0 < bytes
      → matching (take_bytes a kind bytes label).0 (take_bytes a kind bytes label).1
        ≡ some (new_allocation a.next_id kind bytes label)
  unfolding take_bytes handle_valid
  taken_matching v pos =
      matching_intro _ _ (new_allocation a.next_id kind bytes label) (ground (arith, v.started))
        (ground (
          arith,
          find-emplace a.next_id a.next_id (new_allocation a.next_id kind bytes label) a.allocations
              (fresh_absent a v),
        ))
        refl refl

  -- Its last release gives back all but the id.
  pub release-taken :
      IsValid a
      → 0 < bytes
      → a.current_bytes + bytes < word
      → release (take_bytes a kind bytes label).0 (take_bytes a kind bytes label).1
        ≡ record a { next_id = (take_bytes a kind bytes label).0.next_id }
  unfolding take_bytes
  release-taken v pos small =
      release_last _ _ _ (taken_matching v pos) refl
      ∙ rw
          (erase-emplace a.next_id (new_allocation a.next_id kind bytes label) a.allocations
            (fresh_absent a v))
          (ground arith)

  -- The life of a granted block. After `m + k` further retains, `k` releases leave it in place with
  -- `m + 1` references, and one release more than there were retains gives everything back but the
  -- id. The counts, the budget plus the request, and the next id are words.
  pub block_lifetime :
      (m k : ℕ)
      → IsValid a
      → a.max_bytes + bytes < word
      → 1 + (m + k) < word
      → handle_valid (allocate a kind bytes label).1 ≡ true
      → let (b, h) = allocate a kind bytes label in
        (matching (release_times k (retain_times (m + k) b h) h) h
          ≡ some (record (new_allocation a.next_id kind bytes label) { ref_count = 1 + m }))
        × (release (release_times (m + k) (retain_times (m + k) b h) h) h
            ≡ record a { next_id = b.next_id })
  block_lifetime m k v small counts ok =
      let (taken, pos, room) = usable_granted a kind bytes label v small ok in
      let found = taken_matching v pos in
      rw taken (
        rw (release_times-retain_times k m _ _ _ found (omega arith) counts)
            (matching-retain_times m _ _ _ found (omega arith)),
        ap (λ b. release b (take_bytes a kind bytes label).1)
              (release_times-retain_times_self (m + k) _ _ _ found (omega arith) counts)
            ∙ release-taken v pos (omega arith),
      )
