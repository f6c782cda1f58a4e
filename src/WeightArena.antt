-- ===== src/WeightArena.antt =====
-- runtime/include/nemotron/weight_arena_plan.h and runtime/src/loader/weight_arena_plan.cpp: where
-- every buffer of a catalog goes in one arena.
use nemotron_inference.Base.{
  ℕ, ◌+◌, ◌-◌, ◌%◌, Bool, true, false, not, List, [], ◌∷◌, ◌++◌, Option, none, some, ◌==◌,
  if◌then◌else◌, add64, length, get_elem?, string_key, find, emplace, text,
}
use nemotron_inference.GemmExecution.{ByteRangeView, range_valid}
use nemotron_inference.Manifest.{Issues, add_error, has_manifest_errors}
use nemotron_inference.TensorCatalog.{
  TensorAuxiliaryRole, unspecified, TensorAuxiliaryDescriptor, TensorRuntimeDescriptor,
  TensorCatalog,
}
pub mod Align
pub mod Laid
pub mod Placed
pub mod Plan
mod Examples

abbrev pub default_auxiliary_alignment_bytes : ℕ
default_auxiliary_alignment_bytes = 16

unfoldable pub align_up : ℕ → ℕ → ℕ
align_up value alignment =
    if alignment == 0
    then value
    else (if value % alignment == 0 then value else add64 value (alignment - value % alignment))

pub record WeightArenaBufferPlacement : Type 0 where
  pub name : List ℕ
  pub role : TensorAuxiliaryRole
  pub arena_offset_bytes : ℕ
  pub nbytes : ℕ
  pub alignment_bytes : ℕ
  pub host_bytes : ByteRangeView

pub record WeightArenaTensorPlacement : Type 0 where
  pub tensor_name : List ℕ
  pub op_class : List ℕ
  pub layout_tag : List ℕ
  pub storage_dtype : List ℕ
  pub tensor_alignment_bytes : ℕ
  pub packed_buffer : WeightArenaBufferPlacement
  pub auxiliary_buffers : List WeightArenaBufferPlacement

pub record WeightArenaPlan : Type 0 where
  pub valid : Bool
  pub total_arena_bytes : ℕ
  pub packed_tensor_bytes : ℕ
  pub auxiliary_bytes : ℕ
  pub tensors : List WeightArenaTensorPlacement
  pub indices_by_name : List (List ℕ × ℕ)
  pub issues : Issues

unfoldable pub find_placement : WeightArenaPlan → List ℕ → Option WeightArenaTensorPlacement
find_placement plan tensor_name = elim (find tensor_name plan.indices_by_name) [
  | none ↦ none
  | some index ↦ get_elem? plan.tensors index
]

abbrev pub place_packed : TensorRuntimeDescriptor → ℕ → WeightArenaBufferPlacement
place_packed tensor offset = record {
  name = tensor.manifest_entry.name;
  role = unspecified;
  arena_offset_bytes = offset;
  nbytes = tensor.manifest_entry.nbytes;
  alignment_bytes = tensor.manifest_entry.alignment_bytes;
  host_bytes = tensor.packed_bytes;
}

abbrev pub place_auxiliary : TensorAuxiliaryDescriptor → ℕ → WeightArenaBufferPlacement
place_auxiliary auxiliary offset = record {
  name = auxiliary.manifest_entry.name;
  role = auxiliary.role;
  arena_offset_bytes = offset;
  nbytes = auxiliary.manifest_entry.nbytes;
  alignment_bytes = default_auxiliary_alignment_bytes;
  host_bytes = auxiliary.bytes;
}

abbrev pub placement :
    TensorRuntimeDescriptor → ℕ → List WeightArenaBufferPlacement → WeightArenaTensorPlacement
placement tensor offset buffers = record {
  tensor_name = tensor.manifest_entry.name;
  op_class = tensor.manifest_entry.op_class;
  layout_tag = tensor.manifest_entry.layout_tag;
  storage_dtype = tensor.manifest_entry.storage_dtype;
  tensor_alignment_bytes = tensor.manifest_entry.alignment_bytes;
  packed_buffer = place_packed tensor offset;
  auxiliary_buffers = buffers;
}

-- The loop over the auxiliaries: their placements, the cursor and the bytes of auxiliaries after it.
unfoldable pub place_auxiliaries :
    List TensorAuxiliaryDescriptor → ℕ → ℕ → List WeightArenaBufferPlacement × (ℕ × ℕ)
place_auxiliaries [] cursor auxiliary_bytes = ([], (cursor, auxiliary_bytes))
place_auxiliaries (auxiliary ∷ rest) cursor auxiliary_bytes =
    let offset = align_up cursor default_auxiliary_alignment_bytes in
    let (buffers, after) =
      place_auxiliaries rest (add64 offset auxiliary.manifest_entry.nbytes)
        (add64 auxiliary_bytes auxiliary.manifest_entry.nbytes) in
    (place_auxiliary auxiliary offset ∷ buffers, after)

-- The body of the loop over the tensors, on the cursor and the plan.
unfoldable pub place_tensor : TensorRuntimeDescriptor → ℕ → WeightArenaPlan → ℕ × WeightArenaPlan
place_tensor tensor cursor plan =
    let entry = tensor.manifest_entry in
    if not (range_valid tensor.packed_bytes)
    then (
      cursor,
      record plan {
        issues =
            add_error plan.issues entry.name (text "tensor catalog entry is missing packed bytes");
      },
    )
    else (let offset = align_up cursor entry.alignment_bytes in
        let (buffers, (after, auxiliary_bytes)) =
          place_auxiliaries tensor.auxiliaries (add64 offset entry.nbytes) plan.auxiliary_bytes in
        (
          after,
          record plan {
            packed_tensor_bytes = add64 plan.packed_tensor_bytes entry.nbytes;
            auxiliary_bytes = auxiliary_bytes;
            indices_by_name = emplace entry.name (length plan.tensors) plan.indices_by_name;
            tensors = plan.tensors ++ (placement tensor offset buffers ∷ []);
          },
        ))

unfoldable pub place_tensors :
    List TensorRuntimeDescriptor → ℕ → WeightArenaPlan → ℕ × WeightArenaPlan
place_tensors [] cursor plan = (cursor, plan)
place_tensors (tensor ∷ rest) cursor plan =
    let (after, placed) = place_tensor tensor cursor plan in place_tensors rest after placed

abbrev pub empty_plan : Issues → WeightArenaPlan
empty_plan issues = record {
  valid = false;
  total_arena_bytes = 0;
  packed_tensor_bytes = 0;
  auxiliary_bytes = 0;
  tensors = [];
  indices_by_name = [];
  issues = issues;
}

-- Behind the loop.
unfoldable pub finish_plan : ℕ × WeightArenaPlan → WeightArenaPlan
finish_plan (cursor, placed) = record placed {
  total_arena_bytes = cursor;
  valid = not (has_manifest_errors placed.issues);
}

unfoldable pub build_weight_arena_plan : TensorCatalog → WeightArenaPlan
build_weight_arena_plan catalog =
    let plan = empty_plan catalog.issues in
    if not catalog.valid then plan else finish_plan (place_tensors catalog.tensors 0 plan)
