-- ===== src/ModelSchedule.antt =====
-- runtime/include/nemotron/model_schedule.h and runtime/src/loader/model_schedule.cpp: the layers of a
-- model, read off the names of its tensors.
use Prim.Native.String.{String}
use nemotron_inference.Base.{
  ℕ, zero, suc, ◌+◌, ◌-◌, ◌*◌, Bool, true, false, not, ◌&&◌, ◌||◌, List, [], ◌∷◌, ◌++◌, Option,
  none, some, ltb, leb, ◌==◌, if◌then◌else◌, add64, mul64, length, get_elem?, string_key, nat_key,
  str_eq, find, emplace, assign, list_at, push_at, text, drop,
}
use nemotron_inference.Manifest.{
  TensorManifestEntry, RuntimeManifestMetadata, PackedModelManifest, Issues, add_error,
  has_manifest_errors, validate_manifest,
}
mod Names
pub mod Paths
pub mod Expected
pub mod Layers
pub mod Order
mod Examples
unfoldable pub use Names.{
  starts_with, is_digit, read_digits, finish_path, parse_index, parse_layer_path, occurs,
  contains_attention_pattern, contains_expert_pattern, contains_shared_expert_pattern,
  contains_router_pattern, contains_mamba_pattern, classify_global_role,
}
pub use Names.*

pub record GlobalTensorBinding : Type 0 where
  pub tensor_name : List ℕ
  pub op_class : List ℕ
  pub role : ModelGlobalRole

pub record LayerTensorBinding : Type 0 where
  pub tensor_name : List ℕ
  pub op_class : List ℕ
  pub local_name : List ℕ

pub record LayerScheduleEntry : Type 0 where
  pub layer_index : ℕ
  pub bindings : List LayerTensorBinding
  pub binding_indices_by_local_name : List (List ℕ × List ℕ)
  pub has_attention : Bool
  pub has_mamba : Bool
  pub has_routed_experts : Bool
  pub has_shared_experts : Bool
  pub has_router : Bool

-- An index outside the bindings, which no operation stores, would be undefined; here it is `none`.
unfoldable pub find_binding : LayerScheduleEntry → List ℕ → Option LayerTensorBinding
find_binding entry local_name = elim (list_at local_name entry.binding_indices_by_local_name) [
  | [] ↦ none
  | index ∷ _ ↦ get_elem? entry.bindings index
]

pub record ModelSchedule : Type 0 where
  pub valid : Bool
  pub runtime_metadata : RuntimeManifestMetadata
  pub ordered_layers : List LayerScheduleEntry
  pub ordered_layer_indices : List (ℕ × ℕ)
  pub global_bindings : List GlobalTensorBinding
  pub issues : Issues
  pub attention_layer_count : ℕ
  pub mamba_layer_count : ℕ
  pub routed_expert_layer_count : ℕ
  pub shared_expert_layer_count : ℕ

unfoldable pub find_layer : ModelSchedule → ℕ → Option LayerScheduleEntry
find_layer schedule layer_index = elim (find layer_index schedule.ordered_layer_indices) [
  | none ↦ none
  | some index ↦ get_elem? schedule.ordered_layers index
]

abbrev pub new_layer : ℕ → LayerScheduleEntry
new_layer layer_index = record {
  layer_index = layer_index;
  bindings = [];
  binding_indices_by_local_name = [];
  has_attention = false;
  has_mamba = false;
  has_routed_experts = false;
  has_shared_experts = false;
  has_router = false;
}

-- What the loop does to the entry of a layer.
unfoldable pub bind_tensor : TensorManifestEntry → List ℕ → LayerScheduleEntry → LayerScheduleEntry
bind_tensor tensor local_name entry = record entry {
  bindings =
      entry.bindings
      ++ (record { tensor_name = tensor.name; op_class = tensor.op_class; local_name = local_name }
          ∷ []);
  binding_indices_by_local_name =
      push_at local_name (length entry.bindings) entry.binding_indices_by_local_name;
  has_attention = entry.has_attention || contains_attention_pattern local_name;
  has_routed_experts = entry.has_routed_experts || contains_expert_pattern local_name;
  has_shared_experts = entry.has_shared_experts || contains_shared_expert_pattern local_name;
  has_router = entry.has_router || contains_router_pattern local_name;
  has_mamba = entry.has_mamba || contains_mamba_pattern local_name;
}

-- The variables of the loop over the tensors.
pub record ScheduleScan : Type 0 where
  pub layers : List LayerScheduleEntry
  pub layer_indices : List (ℕ × ℕ)
  pub global_bindings : List GlobalTensorBinding
  pub issues : Issues

-- `ordered_layers_[ordered_index]`, changed in place.
unfoldable pub update_layer :
    (LayerScheduleEntry → LayerScheduleEntry)
    → ℕ
    → List LayerScheduleEntry
    → List LayerScheduleEntry
update_layer change ordered_index [] = []
update_layer change zero (entry ∷ rest) = change entry ∷ rest
update_layer change (suc ordered_index) (entry ∷ rest) =
    entry ∷ update_layer change ordered_index rest

-- The layer's place, made at the end if the layer is new.
unfoldable pub place_layer : ℕ → ScheduleScan → ℕ × ScheduleScan
place_layer layer_index scan = elim (find layer_index scan.layer_indices) [
  | some ordered_index ↦ (ordered_index, scan)
  | none ↦ (
    length scan.layers,
    record scan {
      layers = scan.layers ++ (new_layer layer_index ∷ []);
      layer_indices = emplace layer_index (length scan.layers) scan.layer_indices;
    },
  )
]

-- Whether the layer has bound the name more than once.
unfoldable pub bound_twice : List ℕ → Option LayerScheduleEntry → Bool
bound_twice local_name none = false
bound_twice local_name (some entry) =
    ltb 1 (length (list_at local_name entry.binding_indices_by_local_name))

unfoldable pub bind_at : TensorManifestEntry → List ℕ → ℕ × ScheduleScan → ScheduleScan
bind_at tensor local_name (ordered_index, scan) =
    let layers = update_layer (bind_tensor tensor local_name) ordered_index scan.layers in
    record scan {
      layers = layers;
      issues =
          (if bound_twice local_name (get_elem? layers ordered_index)
            then add_error scan.issues tensor.name
                (text "duplicate layer-local tensor binding '" ++ (local_name ++ text "'"))
            else scan.issues);
    }

unfoldable pub schedule_tensor : ScheduleScan → TensorManifestEntry → ScheduleScan
schedule_tensor scan tensor = elim (parse_layer_path tensor.name) [
  | none ↦ record scan {
    global_bindings =
        scan.global_bindings
        ++ (record {
          tensor_name = tensor.name;
          op_class = tensor.op_class;
          role = classify_global_role tensor.name;
        }
            ∷ []);
  }
  | some path ↦ bind_at tensor path.local_name (place_layer path.layer_index scan)
]

unfoldable pub schedule_tensors : ScheduleScan → List TensorManifestEntry → ScheduleScan
schedule_tensors scan [] = scan
schedule_tensors scan (tensor ∷ rest) = schedule_tensors (schedule_tensor scan tensor) rest

-- std::sort by the layer index; no two entries have the same one.
unfoldable pub insert_layer : LayerScheduleEntry → List LayerScheduleEntry → List LayerScheduleEntry
insert_layer entry [] = entry ∷ []
insert_layer entry (next ∷ rest) =
    if ltb next.layer_index entry.layer_index
    then next ∷ insert_layer entry rest
    else entry ∷ (next ∷ rest)

unfoldable pub sort_layers : List LayerScheduleEntry → List LayerScheduleEntry
sort_layers [] = []
sort_layers (entry ∷ rest) = insert_layer entry (sort_layers rest)

-- The last loop: the places of the layers.
unfoldable pub index_layers : ℕ → List LayerScheduleEntry → List (ℕ × ℕ) → List (ℕ × ℕ)
index_layers ordered_index [] indices = indices
index_layers ordered_index (entry ∷ rest) indices =
    index_layers (suc ordered_index) rest (assign entry.layer_index ordered_index indices)

-- The last loop: one of the counts.
unfoldable pub count_layers : (LayerScheduleEntry → Bool) → List LayerScheduleEntry → ℕ
count_layers counted [] = 0
count_layers counted (entry ∷ rest) = (if counted entry then 1 else 0) + count_layers counted rest

abbrev pub empty_schedule : PackedModelManifest → Issues → ModelSchedule
empty_schedule manifest issues = record {
  valid = false;
  runtime_metadata = manifest.runtime;
  ordered_layers = [];
  ordered_layer_indices = [];
  global_bindings = [];
  issues = issues;
  attention_layer_count = 0;
  mamba_layer_count = 0;
  routed_expert_layer_count = 0;
  shared_expert_layer_count = 0;
}

abbrev pub empty_scan : Issues → ScheduleScan
empty_scan issues = record {
  layers = [];
  layer_indices = [];
  global_bindings = [];
  issues = issues;
}

-- From the sort on.
unfoldable pub finish_schedule : PackedModelManifest → ScheduleScan → ModelSchedule
finish_schedule manifest scan =
    let layers = sort_layers scan.layers in
    record {
      valid = not (has_manifest_errors scan.issues);
      runtime_metadata = manifest.runtime;
      ordered_layers = layers;
      ordered_layer_indices = index_layers 0 layers [];
      global_bindings = scan.global_bindings;
      issues = scan.issues;
      attention_layer_count = count_layers (λ entry. entry.has_attention) layers;
      mamba_layer_count = count_layers (λ entry. entry.has_mamba) layers;
      routed_expert_layer_count =
          count_layers (λ entry. entry.has_routed_experts || entry.has_router) layers;
      shared_expert_layer_count = count_layers (λ entry. entry.has_shared_experts) layers;
    }

unfoldable pub build_model_schedule : PackedModelManifest → ModelSchedule
build_model_schedule manifest =
    let issues = validate_manifest manifest in
    if has_manifest_errors issues
    then empty_schedule manifest issues
    else finish_schedule manifest (schedule_tensors (empty_scan issues) manifest.tensors)
