-- ===== src/WeightArena/Laid.antt =====
-- The placements of BuildWeightArenaPlan: in order, aligned, apart, and within the arena.
use nemotron_inference.Base.{
  ℕ, ◌+◌, ◌%◌, ◌<◌, ◌≤◌, ◌≡◌, ◌≢◌, refl, subst, List, [], ◌∷◌, ◌++◌, arith, add64, word,
}
use nemotron_inference.TensorCatalog.{TensorAuxiliaryDescriptor, TensorRuntimeDescriptor}
use nemotron_inference.WeightArena.{
  align_up, WeightArenaBufferPlacement, WeightArenaTensorPlacement, place_auxiliary,
  place_auxiliaries,
}
use nemotron_inference.WeightArena.Align.{align_up-next}

-- Buffers one behind another between two offsets, each at a multiple of its alignment.
abbrev pub Laid : ℕ → List WeightArenaBufferPlacement → ℕ → Type 0
Laid low [] high = low ≤ high
Laid low (buffer ∷ rest) high =
    ((low ≤ buffer.arena_offset_bytes) × (buffer.arena_offset_bytes % buffer.alignment_bytes ≡ 0))
    × Laid (buffer.arena_offset_bytes + buffer.nbytes) rest high

pub Laid-append :
    (low middle high : ℕ) (xs ys : List WeightArenaBufferPlacement)
    → Laid low xs middle
    → Laid middle ys high
    → Laid low (xs ++ ys) high
Laid-append low middle high [] [] h k = omega arith
Laid-append low middle high [] (y ∷ ys) h k = ((omega arith, k.0.1), k.1)
Laid-append low middle high (x ∷ xs) ys h k =
    (h.0, Laid-append (x.arena_offset_bytes + x.nbytes) middle high xs ys h.1 k)

-- The buffers of a plan, in the order of their placement.
abbrev pub buffers_of : List WeightArenaTensorPlacement → List WeightArenaBufferPlacement
buffers_of [] = []
buffers_of (placement ∷ rest) =
    placement.packed_buffer ∷ (placement.auxiliary_buffers ++ buffers_of rest)

-- The bytes of the buffers, and room for them and for their alignment.
abbrev pub auxiliary_sum : List TensorAuxiliaryDescriptor → ℕ
auxiliary_sum [] = 0
auxiliary_sum (auxiliary ∷ rest) = auxiliary.manifest_entry.nbytes + auxiliary_sum rest

abbrev pub auxiliary_room : List TensorAuxiliaryDescriptor → ℕ
auxiliary_room [] = 0
auxiliary_room (auxiliary ∷ rest) = 16 + auxiliary.manifest_entry.nbytes + auxiliary_room rest

abbrev pub room : List TensorRuntimeDescriptor → ℕ
room [] = 0
room (tensor ∷ rest) =
    tensor.manifest_entry.alignment_bytes
    + tensor.manifest_entry.nbytes
    + auxiliary_room tensor.auxiliaries
    + room rest

abbrev pub Alignable : List TensorRuntimeDescriptor → Type 0
Alignable [] = Unit
Alignable (tensor ∷ rest) = (tensor.manifest_entry.alignment_bytes ≢ 0) × Alignable rest

-- A buffer for every auxiliary, with its size and its bytes.
abbrev pub AuxiliariesPlaced :
    List TensorAuxiliaryDescriptor → List WeightArenaBufferPlacement → Type 0
AuxiliariesPlaced [] [] = Unit
AuxiliariesPlaced [] (_ ∷ _) = ⊥
AuxiliariesPlaced (_ ∷ _) [] = ⊥
AuxiliariesPlaced (auxiliary ∷ rest) (buffer ∷ buffers) =
    (buffer ≡ place_auxiliary auxiliary buffer.arena_offset_bytes) × AuxiliariesPlaced rest buffers

-- What the loop over the auxiliaries does from a cursor on.
pub record AuxiliaryRun (auxiliaries : List TensorAuxiliaryDescriptor) (cursor total : ℕ)
    (result : List WeightArenaBufferPlacement × (ℕ × ℕ)) : Type 0 where
  pub laid : Laid cursor result.0 result.1.0
  pub within : result.1.0 ≤ cursor + auxiliary_room auxiliaries
  pub summed : result.1.1 ≡ total + auxiliary_sum auxiliaries
  pub grown : cursor + auxiliary_sum auxiliaries ≤ result.1.0
  pub placed : AuxiliariesPlaced auxiliaries result.0

pub place_auxiliaries-Run :
    (auxiliaries : List TensorAuxiliaryDescriptor) (cursor total : ℕ)
    → cursor + auxiliary_room auxiliaries < word
    → total ≤ cursor
    → AuxiliaryRun auxiliaries cursor total (place_auxiliaries auxiliaries cursor total)
unfolding place_auxiliaries
place_auxiliaries-Run [] cursor total fits below = record {
  laid = omega arith;
  within = omega arith;
  summed = omega arith;
  grown = omega arith;
  placed = tt;
}
place_auxiliaries-Run (auxiliary ∷ rest) cursor total fits below =
    let nbytes = auxiliary.manifest_entry.nbytes in
    let offset = align_up cursor 16 in
    let (multiple, low, high) = align_up-next cursor 16 (omega arith) (omega arith) in
    let end : add64 offset nbytes ≡ offset + nbytes = omega arith in
    let sum : add64 total nbytes ≡ total + nbytes = omega arith in
    let ih =
      place_auxiliaries-Run rest (add64 offset nbytes) (add64 total nbytes) (omega arith)
        (omega arith) in
    let run = place_auxiliaries rest (add64 offset nbytes) (add64 total nbytes) in
    let within = ih.within in
    let summed = ih.summed in
    let grown = ih.grown in
    record {
      laid = ((low, multiple), subst (λ k. Laid k run.0 run.1.0) end ih.laid);
      within = omega arith;
      summed = omega arith;
      grown = omega arith;
      placed = (refl, ih.placed);
    }
