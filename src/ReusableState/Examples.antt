-- ===== src/ReusableState/Examples.antt =====
-- Concrete arenas: the theorems at inputs that meet their hypotheses, and runs of the code.
use nemotron_inference.Base.{
  ℕ, ◌+◌, ◌-◌, ◌<◌, ◌≡◌, refl, ◌⊎◌, true, [], some, arith, word, weight, find, emplace, modify,
  erase, nat_key,
}
use nemotron_inference.ReusableState.{
  ReusableStateHandle, ReusableStateArena, ReusableStateDescriptor, StateAllocation, new_arena,
  new_allocation, attention_kv, mamba_recurrent, allocate, retain, release, matching, handle_valid,
  descriptor_valid, same_kind, retain_descriptor, release_descriptor, allocate_descriptor,
  take_bytes, drop_reference,
}
use nemotron_inference.ReusableState.Validity.{IsValid, new_arena-IsValid, allocate-IsValid}
use nemotron_inference.ReusableState.Admission.{
  Granted, Refused, allocate_decides, allocate_overcommits,
}
use nemotron_inference.ReusableState.Lifetime.{retain_times, release_times}
use nemotron_inference.ReusableState.Blocks.{block_lifetime}
use nemotron_inference.ReusableState.Pairs.{retain_descriptor_atomic}

-- Unfolds what the runs below compute with.
program : Unit {0}
unfolding new_arena allocate take_bytes retain release matching handle_valid descriptor_valid
    same_kind retain_descriptor release_descriptor allocate_descriptor drop_reference find emplace
    modify erase
program = tt

abbrev empty : ReusableStateArena
empty = record { max_bytes = 100; next_id = 1; current_bytes = 0; allocations = [] }

-- One block of 40 bytes with the id 1.
abbrev one : ReusableStateArena
one = record {
  max_bytes = 100;
  next_id = 2;
  current_bytes = 40;
  allocations = emplace 1 (new_allocation 1 attention_kv 40 []) [];
}

abbrev handle : ReusableStateHandle
handle = record { id = 1; kind = attention_kv; bytes = 40 }

abbrev stale : ReusableStateHandle
stale = record { id = 7; kind = mamba_recurrent; bytes = 8 }

abbrev pair : ReusableStateDescriptor
pair = record { kv_state = handle; mamba_state = handle }

abbrev half_stale : ReusableStateDescriptor
half_stale = record { kv_state = handle; mamba_state = stale }

one-IsValid : IsValid one
unfolding program
one-IsValid =
    allocate-IsValid empty attention_kv 40 [] (new_arena-IsValid 100) (omega arith) (omega arith)

one_room : (k : ℕ) (s : StateAllocation) → find k one.allocations ≡ some s → s.ref_count + 2 < word
unfolding program
one_room k s h = ground arith

one_count : (s : StateAllocation) → find 1 one.allocations ≡ some s → s.ref_count + 1 < word
one_count s h = let r = one_room 1 s h in omega arith

allocate-IsValid_example : IsValid (allocate one mamba_recurrent 60 []).0
allocate-IsValid_example =
    allocate-IsValid one mamba_recurrent 60 [] one-IsValid (omega arith) (omega arith)

allocate_decides_example :
    Granted one mamba_recurrent 61 []
      (allocate one mamba_recurrent 61 []).0
      (allocate one mamba_recurrent 61 []).1
    ⊎ Refused one mamba_recurrent 61 []
        (allocate one mamba_recurrent 61 []).0
        (allocate one mamba_recurrent 61 []).1
allocate_decides_example = allocate_decides one mamba_recurrent 61 [] one-IsValid (omega arith)

allocate_overcommits_example :
    (handle_valid (allocate one mamba_recurrent (word - 1) []).1 ≡ true)
    × ((allocate one mamba_recurrent (word - 1) []).0.current_bytes < 40)
    × (100 < weight (λ s. s.bytes) (allocate one mamba_recurrent (word - 1) []).0.allocations)
allocate_overcommits_example =
    allocate_overcommits one mamba_recurrent (word - 1) [] one-IsValid (omega arith) (omega arith)
      (omega arith)

block_lifetime_example :
    let (b, h) = allocate empty attention_kv 40 [] in
    (matching (release_times 3 (retain_times (2 + 3) b h) h) h
      ≡ some (record (new_allocation 1 attention_kv 40 []) { ref_count = 1 + 2 }))
    × (release (release_times (2 + 3) (retain_times (2 + 3) b h) h) h
        ≡ record empty { next_id = b.next_id })
unfolding program
block_lifetime_example =
    block_lifetime empty attention_kv 40 [] 2 3 (new_arena-IsValid 100) (omega arith) (omega arith)
      refl

retain_descriptor_atomic_example : (retain_descriptor one half_stale).0 ≡ one
unfolding program
retain_descriptor_atomic_example =
    retain_descriptor_atomic one half_stale one-IsValid
      (λ k s h. let r = one_room k s h in omega arith) refl
