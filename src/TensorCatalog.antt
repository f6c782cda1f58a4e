-- ===== src/TensorCatalog.antt =====
-- runtime/include/nemotron/tensor_catalog.h and runtime/src/loader/tensor_catalog.cpp: the tensors of
-- a manifest with the bytes that the loader found for them.
use nemotron_inference.Base.{
  ℕ, ◌≡◌, Bool, true, false, not, ◌&&◌, ◌||◌, List, [], ◌∷◌, ◌++◌, Option, none, some,
  if◌then◌else◌, length, get_elem?, string_key, str_eq, find, emplace, push_at, text,
}
use nemotron_inference.GemmExecution.{ByteRangeView}
use nemotron_inference.Manifest.{
  TensorAuxiliaryManifest, TensorManifestEntry, RuntimeManifestMetadata, PackedModelManifest,
  Issues, add_error, has_manifest_errors, scaled, validate_manifest,
}
use nemotron_inference.ArtifactLoader.{
  FileSystem, ArtifactLoader, AuxiliaryArtifactView, TensorArtifactView, find_artifact,
}
pub mod Roles
pub mod Scan
pub mod Built
pub mod Opened
mod Examples

pub data TensorAuxiliaryRole : Type 0 where
  unspecified block_scales tensor_scale : TensorAuxiliaryRole

pub record TensorAuxiliaryDescriptor : Type 0 where
  pub role : TensorAuxiliaryRole
  pub manifest_entry : TensorAuxiliaryManifest
  pub bytes : ByteRangeView

pub record TensorRuntimeDescriptor : Type 0 where
  pub manifest_entry : TensorManifestEntry
  pub packed_bytes : ByteRangeView
  pub auxiliaries : List TensorAuxiliaryDescriptor

unfoldable pub classify_auxiliary_role : List ℕ → TensorAuxiliaryRole
classify_auxiliary_role name =
    if str_eq name (text "block_scales")
    then block_scales
    else (if str_eq name (text "tensor_scale") then tensor_scale else unspecified)

unfoldable pub same_role : TensorAuxiliaryRole → TensorAuxiliaryRole → Bool
same_role unspecified unspecified = true
same_role block_scales block_scales = true
same_role tensor_scale tensor_scale = true
same_role _ _ = false

unfoldable pub is_scaled_tensor : TensorManifestEntry → Bool
is_scaled_tensor tensor = scaled tensor

unfoldable pub find_auxiliary_named :
    List ℕ → List TensorAuxiliaryDescriptor → Option TensorAuxiliaryDescriptor
find_auxiliary_named name [] = none
find_auxiliary_named name (auxiliary ∷ rest) =
    if str_eq auxiliary.manifest_entry.name name
    then some auxiliary
    else find_auxiliary_named name rest

unfoldable pub find_auxiliary :
    TensorAuxiliaryRole → List TensorAuxiliaryDescriptor → Option TensorAuxiliaryDescriptor
find_auxiliary role [] = none
find_auxiliary role (auxiliary ∷ rest) =
    if same_role auxiliary.role role then some auxiliary else find_auxiliary role rest

abbrev is_some {ℓ} : {A : Type ℓ} → Option A → Bool
is_some none = false
is_some (some _) = true

unfoldable pub has_block_scales : TensorRuntimeDescriptor → Bool
has_block_scales tensor = is_some (find_auxiliary block_scales tensor.auxiliaries)

unfoldable pub has_tensor_scale : TensorRuntimeDescriptor → Bool
has_tensor_scale tensor = is_some (find_auxiliary tensor_scale tensor.auxiliaries)

pub record TensorCatalog : Type 0 where
  pub valid : Bool
  pub runtime_metadata : RuntimeManifestMetadata
  pub tensors : List TensorRuntimeDescriptor
  pub indices_by_name : List (List ℕ × ℕ)
  pub indices_by_op_class : List (List ℕ × List ℕ)
  pub issues : Issues

unfoldable pub find_tensor : TensorCatalog → List ℕ → Option TensorRuntimeDescriptor
find_tensor catalog tensor_name = elim (find tensor_name catalog.indices_by_name) [
  | none ↦ none
  | some index ↦ get_elem? catalog.tensors index
]

-- The variables of the loop over a tensor's auxiliaries.
pub record AuxiliaryScan : Type 0 where
  pub issues : Issues
  pub auxiliaries : List TensorAuxiliaryDescriptor
  pub saw_block_scales : Bool
  pub saw_tensor_scale : Bool

unfoldable pub note_role : List ℕ → TensorAuxiliaryRole → AuxiliaryScan → AuxiliaryScan
note_role tensor_name block_scales scan = record scan {
  issues =
      (if scan.saw_block_scales
        then add_error scan.issues tensor_name (text "duplicate block_scales auxiliary descriptor")
        else scan.issues);
  saw_block_scales = true;
}
note_role tensor_name tensor_scale scan = record scan {
  issues =
      (if scan.saw_tensor_scale
        then add_error scan.issues tensor_name (text "duplicate tensor_scale auxiliary descriptor")
        else scan.issues);
  saw_tensor_scale = true;
}
note_role tensor_name unspecified scan = scan

unfoldable pub scan_auxiliary :
    List ℕ → TensorAuxiliaryManifest → AuxiliaryArtifactView → AuxiliaryScan → AuxiliaryScan
scan_auxiliary tensor_name manifest_entry view scan =
    let role = classify_auxiliary_role manifest_entry.name in
    let noted = note_role tensor_name role scan in
    record noted {
      auxiliaries =
          noted.auxiliaries
          ++ (record { role = role; manifest_entry = manifest_entry; bytes = view.bytes } ∷ []);
    }

-- The loop reads the views at the index of the manifest's auxiliaries; without a view there the read
-- would be out of range, which is `none` here.
unfoldable pub scan_auxiliaries :
    List ℕ
    → List TensorAuxiliaryManifest
    → List AuxiliaryArtifactView
    → AuxiliaryScan
    → Option AuxiliaryScan
scan_auxiliaries tensor_name [] views scan = some scan
scan_auxiliaries tensor_name (manifest_entry ∷ rest) [] scan = none
scan_auxiliaries tensor_name (manifest_entry ∷ rest) (view ∷ views) scan =
    scan_auxiliaries tensor_name rest views (scan_auxiliary tensor_name manifest_entry view scan)

-- The demand that a scaled tensor has both scales.
unfoldable pub require_scales : TensorManifestEntry → AuxiliaryScan → Issues
require_scales tensor scan =
    if is_scaled_tensor tensor
    then (let blocks =
          if not scan.saw_block_scales
          then add_error scan.issues tensor.name
              (text "scaled tensor is missing required block_scales auxiliary descriptor")
          else scan.issues in
        if not scan.saw_tensor_scale
        then add_error blocks tensor.name
            (text "scaled tensor is missing required tensor_scale auxiliary descriptor")
        else blocks)
    else scan.issues

unfoldable pub add_descriptor :
    TensorCatalog → TensorManifestEntry → TensorArtifactView → AuxiliaryScan → TensorCatalog
add_descriptor catalog tensor view scan = record catalog {
  issues = require_scales tensor scan;
  indices_by_name = emplace tensor.name (length catalog.tensors) catalog.indices_by_name;
  indices_by_op_class =
      push_at tensor.op_class (length catalog.tensors) catalog.indices_by_op_class;
  tensors =
      catalog.tensors
      ++ (record {
        manifest_entry = tensor;
        packed_bytes = view.packed_bytes;
        auxiliaries = scan.auxiliaries;
      }
          ∷ []);
}

abbrev pub fresh_scan : Issues → AuxiliaryScan
fresh_scan issues = record {
  issues = issues;
  auxiliaries = [];
  saw_block_scales = false;
  saw_tensor_scale = false;
}

-- The body of the loop over the tensors, with what the loader's FindTensor returned.
unfoldable pub add_tensor :
    TensorCatalog → TensorManifestEntry → Option TensorArtifactView → Option TensorCatalog
add_tensor catalog tensor none = some (record catalog {
  issues =
      add_error catalog.issues tensor.name (text "artifact loader could not resolve tensor bytes");
})
add_tensor catalog tensor (some view) =
    elim (scan_auxiliaries tensor.name tensor.auxiliaries view.auxiliaries
      (fresh_scan catalog.issues)) [
        | none ↦ none
        | some scan ↦ some (add_descriptor catalog tensor view scan)
      ]

unfoldable pub add_tensors :
    FileSystem → ArtifactLoader → TensorCatalog → List TensorManifestEntry → Option TensorCatalog
add_tensors fs loader catalog [] = some catalog
add_tensors fs loader catalog (tensor ∷ rest) =
    elim (add_tensor catalog tensor (find_artifact fs loader tensor.name)) [
      | none ↦ none
      | some added ↦ add_tensors fs loader added rest
    ]

abbrev pub empty_catalog : PackedModelManifest → Issues → TensorCatalog
empty_catalog manifest issues = record {
  valid = false;
  runtime_metadata = manifest.runtime;
  tensors = [];
  indices_by_name = [];
  indices_by_op_class = [];
  issues = issues;
}

unfoldable pub build_tensor_catalog :
    FileSystem → PackedModelManifest → ArtifactLoader → Option TensorCatalog
build_tensor_catalog fs manifest loader =
    let start = empty_catalog manifest (validate_manifest manifest) in
    if has_manifest_errors start.issues
    then some start
    else elim (add_tensors fs loader start manifest.tensors) [
      | none ↦ none
      | some catalog ↦ some (record catalog { valid = not (has_manifest_errors catalog.issues) })
    ]
