-- ===== src/Manifest.antt =====
-- runtime/include/nemotron/manifest.h and the first half of runtime/src/loader/manifest.cpp: the data
-- of a packed model's manifest and ValidateManifest. A std::string is the list of its bytes.
use Prim.Native.String.{String}
use nemotron_inference.Base.{
  ℕ, Bool, true, false, not, ◌&&◌, ◌||◌, List, [], ◌∷◌, ◌++◌, ◌==◌, if◌then◌else◌, string_key,
  is_empty, text, member,
}
pub mod Errors
pub mod Complete
pub mod WellFormed
pub mod Sample
mod Examples

pub record TensorAuxiliaryManifest : Type 0 where
  pub name : List ℕ
  pub file : List ℕ
  pub offset_bytes : ℕ
  pub nbytes : ℕ

pub record TensorManifestEntry : Type 0 where
  pub name : List ℕ
  pub op_class : List ℕ
  pub logical_shape : List ℕ
  pub packed_shape : List ℕ
  pub storage_dtype : List ℕ
  pub compute_dtype : List ℕ
  pub layout_tag : List ℕ
  pub alignment_bytes : ℕ
  pub block_scale_mode : List ℕ
  pub block_scale_dtype : List ℕ
  pub tensor_scale_dtype : List ℕ
  pub packed_file : List ℕ
  pub offset_bytes : ℕ
  pub nbytes : ℕ
  pub auxiliaries : List TensorAuxiliaryManifest
  pub source_tensor_name : List ℕ
  pub checksum : List ℕ

pub record RuntimeManifestMetadata : Type 0 where
  pub model_id : List ℕ
  pub source_revision : List ℕ
  pub tokenizer_revision : List ℕ
  pub packer_version : List ℕ
  pub gpu_family : List ℕ
  pub compute_capability : List ℕ
  pub kv_bytes_per_token : ℕ
  pub mamba_state_bytes_fp16 : ℕ
  pub mamba_state_bytes_fp32 : ℕ

pub record PackedModelManifest : Type 0 where
  pub schema_version : ℕ
  pub runtime : RuntimeManifestMetadata
  pub tensors : List TensorManifestEntry

pub data ManifestIssueSeverity : Type 0 where
  warning error : ManifestIssueSeverity

pub record ManifestValidationIssue : Type 0 where
  pub severity : ManifestIssueSeverity
  pub tensor_name : List ℕ
  pub message : List ℕ

abbrev pub Issues : Type 0
Issues = List ManifestValidationIssue

unfoldable pub add_issue : Issues → ManifestIssueSeverity → List ℕ → List ℕ → Issues
add_issue issues severity tensor_name message =
    issues ++ (record { severity = severity; tensor_name = tensor_name; message = message } ∷ [])

unfoldable pub add_error : Issues → List ℕ → List ℕ → Issues
add_error issues tensor_name message = add_issue issues error tensor_name message

unfoldable pub has_manifest_errors : Issues → Bool
has_manifest_errors [] = false
has_manifest_errors (issue ∷ rest) = elim issue.severity [
  | error ↦ true
  | warning ↦ has_manifest_errors rest
]

-- `if (bad) { add_error(&issues, tensor_name, "..."); }`, one after another.
unfoldable pub report : List ℕ → List (Bool × String) → Issues → Issues
report tensor_name [] issues = issues
report tensor_name ((bad, message) ∷ rest) issues =
    report tensor_name rest (if bad then add_error issues tensor_name (text message) else issues)

unfoldable pub zero_dim : List ℕ → Bool
zero_dim [] = false
zero_dim (dim ∷ rest) = if dim == 0 then true else zero_dim rest

unfoldable pub empty_or_zero_dim : List ℕ → Bool
unfolding zero_dim
empty_or_zero_dim dims = if is_empty dims then true else zero_dim dims

abbrev pub runtime_checks : PackedModelManifest → List (Bool × String)
runtime_checks manifest =
    (manifest.schema_version == 0, "schema_version must be non-zero")
    ∷ (is_empty manifest.runtime.model_id, "runtime model_id must be non-empty")
    ∷ (is_empty manifest.runtime.source_revision, "runtime source_revision must be non-empty")
    ∷ (is_empty manifest.runtime.tokenizer_revision, "runtime tokenizer_revision must be non-empty")
    ∷ (manifest.runtime.kv_bytes_per_token == 0, "runtime kv_bytes_per_token must be non-zero")
    ∷ (
      manifest.runtime.mamba_state_bytes_fp16 == 0 || manifest.runtime.mamba_state_bytes_fp32 == 0,
      "runtime Mamba state byte sizes must be non-zero for FP16 and FP32",
    )
    ∷ []

abbrev pub tensor_checks : List (List ℕ) → TensorManifestEntry → List (Bool × String)
tensor_checks tensor_names tensor =
    (is_empty tensor.name, "tensor name must be non-empty")
    ∷ (member tensor.name tensor_names, "tensor name must be unique")
    ∷ (is_empty tensor.op_class, "tensor op_class must be non-empty")
    ∷ (
      empty_or_zero_dim tensor.logical_shape,
      "tensor logical_shape must be non-empty with non-zero dimensions",
    )
    ∷ (
      empty_or_zero_dim tensor.packed_shape,
      "tensor packed_shape must be non-empty with non-zero dimensions",
    )
    ∷ (is_empty tensor.storage_dtype, "tensor storage_dtype must be non-empty")
    ∷ (is_empty tensor.compute_dtype, "tensor compute_dtype must be non-empty")
    ∷ (is_empty tensor.layout_tag, "tensor layout_tag must be non-empty")
    ∷ (tensor.alignment_bytes == 0, "tensor alignment_bytes must be non-zero")
    ∷ (is_empty tensor.packed_file, "tensor packed_file must be non-empty")
    ∷ (tensor.nbytes == 0, "tensor nbytes must be non-zero")
    ∷ (is_empty tensor.checksum, "tensor checksum must be non-empty")
    ∷ []

unfoldable pub scaled : TensorManifestEntry → Bool
scaled tensor =
    not (is_empty tensor.block_scale_mode)
    || (not (is_empty tensor.block_scale_dtype) || not (is_empty tensor.tensor_scale_dtype))

unfoldable pub scaled_together : TensorManifestEntry → Bool
scaled_together tensor =
    not (is_empty tensor.block_scale_mode)
    && (not (is_empty tensor.block_scale_dtype) && not (is_empty tensor.tensor_scale_dtype))

abbrev pub scale_checks : TensorManifestEntry → List (Bool × String)
scale_checks tensor =
    (
      not (scaled_together tensor),
      "scaled tensors must provide block_scale_mode, block_scale_dtype, and tensor_scale_dtype together",
    )
    ∷ (
      is_empty tensor.auxiliaries,
      "scaled tensors must declare auxiliary buffers for scale metadata",
    )
    ∷ []

abbrev pub auxiliary_checks : List (List ℕ) → TensorAuxiliaryManifest → List (Bool × String)
auxiliary_checks auxiliary_names auxiliary =
    (is_empty auxiliary.name, "auxiliary buffer name must be non-empty")
    ∷ (member auxiliary.name auxiliary_names, "auxiliary buffer names must be unique per tensor")
    ∷ (is_empty auxiliary.file, "auxiliary buffer file must be non-empty")
    ∷ (auxiliary.nbytes == 0, "auxiliary buffer nbytes must be non-zero")
    ∷ []

unfoldable pub validate_auxiliaries :
    List ℕ → List (List ℕ) → List TensorAuxiliaryManifest → Issues → Issues
validate_auxiliaries tensor_name auxiliary_names [] issues = issues
validate_auxiliaries tensor_name auxiliary_names (auxiliary ∷ rest) issues =
    validate_auxiliaries tensor_name (auxiliary.name ∷ auxiliary_names) rest
      (report tensor_name (auxiliary_checks auxiliary_names auxiliary) issues)

unfoldable pub validate_scales : TensorManifestEntry → Issues → Issues
validate_scales tensor issues =
    if scaled tensor then report tensor.name (scale_checks tensor) issues else issues

-- The body of the loop over the tensors.
unfoldable pub validate_tensor : List (List ℕ) → TensorManifestEntry → Issues → Issues
validate_tensor tensor_names tensor issues =
    validate_auxiliaries tensor.name [] tensor.auxiliaries
      (validate_scales tensor (report tensor.name (tensor_checks tensor_names tensor) issues))

unfoldable pub validate_tensors : List (List ℕ) → List TensorManifestEntry → Issues → Issues
validate_tensors tensor_names [] issues = issues
validate_tensors tensor_names (tensor ∷ rest) issues =
    validate_tensors (tensor.name ∷ tensor_names) rest (validate_tensor tensor_names tensor issues)

unfoldable pub validate_manifest : PackedModelManifest → Issues
validate_manifest manifest =
    validate_tensors [] manifest.tensors (report (text "") (runtime_checks manifest) [])
