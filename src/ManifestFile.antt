-- ===== src/ManifestFile.antt =====
-- The second half of runtime/src/loader/manifest.cpp: a manifest read from JSON, and the check of the
-- files that it names. What the file system answers is an argument.
use Prim.Native.String.{String}
use Prim.Native.Nat.{min, bit_xor}
use nemotron_inference.Base.{
  ℕ, zero, suc, ◌+◌, ◌-◌, ◌/◌, ◌%◌, ◌^◌, Bool, true, false, not, ◌&&◌, ◌||◌, List, [], ◌∷◌, ◌++◌,
  map, Option, none, some, ltb, leb, ◌==◌, if◌then◌else◌, add64, mul64, length, take, drop, str_eq,
  text, to_string, is_empty,
}
use nemotron_inference.Manifest.{
  TensorAuxiliaryManifest, TensorManifestEntry, RuntimeManifestMetadata, PackedModelManifest,
  Issues, add_error, has_manifest_errors, validate_manifest,
}
use nemotron_inference.ArtifactLoader.{FileSystem, resolve_manifest_path}
use nemotron_inference.ModelSchedule.{starts_with}
use nemotron_inference.Json.{
  Integer, positive, negative, JsonValue, null, boolean, integer, string, array, object, JsonArray,
  empty_array, element, JsonObject, find_member, ParseError, trailing_content, unexpected_token,
  expected_key, expected_digit, unterminated_escape, invalid_escape, end_of_input,
  unsupported_unicode, unterminated_string, out_of_range, expected_byte, parsed, thrown, exhausted,
  parse_json,
}
use nemotron_inference.ManifestFile.Readers.{Reading, ◌>>=◌, pure, complain}
mod Fields
pub mod Readers
pub mod Files
pub mod Checksums
pub mod Ranges
pub mod Verified
pub mod Loaded
mod Examples
unfoldable pub use Fields.{
  as_object, as_array, as_string, as_integer, read_required_string, read_optional_string, or_empty,
  read_required_size_t, read_dims, read_required_dims,
}
pub use Fields.*

unfoldable pub read_auxiliary : List ℕ → JsonObject → Reading TensorAuxiliaryManifest
read_auxiliary tensor_name members = do
  name ← read_required_string members "name" tensor_name
  file ← read_required_string members "file" tensor_name
  offset_bytes ← read_required_size_t members "offset_bytes" tensor_name
  nbytes ← read_required_size_t members "nbytes" tensor_name
  pure (record { name = name; file = file; offset_bytes = offset_bytes; nbytes = nbytes })

unfoldable pub read_auxiliaries :
    List ℕ → List TensorAuxiliaryManifest → JsonArray → Reading (List TensorAuxiliaryManifest)
read_auxiliaries tensor_name auxiliaries empty_array = pure auxiliaries
read_auxiliaries tensor_name auxiliaries (element (object members) rest) = do
  auxiliary ← read_auxiliary tensor_name members
  read_auxiliaries tensor_name (auxiliaries ++ (auxiliary ∷ [])) rest
read_auxiliaries tensor_name auxiliaries (element _ rest) = do
  _ ← complain tensor_name (text "auxiliary entries must be objects") tt
  read_auxiliaries tensor_name auxiliaries rest

-- `source_tensor_name`, or else `source_tensor_mapping`.
unfoldable pub read_source : JsonObject → List ℕ
read_source members = elim (read_optional_string members "source_tensor_name") [
  | some s ↦ s
  | none ↦ or_empty (read_optional_string members "source_tensor_mapping")
]

unfoldable pub optional_auxiliaries : List ℕ → JsonObject → Reading (List TensorAuxiliaryManifest)
optional_auxiliaries tensor_name members =
    elim (as_array (find_member members (text "auxiliaries"))) [
      | none ↦ pure []
      | some elements ↦ read_auxiliaries tensor_name [] elements
    ]

unfoldable pub read_tensor : JsonObject → Reading TensorManifestEntry
read_tensor members = do
  name ← read_required_string members "name" []
  op_class ← read_required_string members "op_class" name
  logical_shape ← read_required_dims members "logical_shape" name
  packed_shape ← read_required_dims members "packed_shape" name
  storage_dtype ← read_required_string members "storage_dtype" name
  compute_dtype ← read_required_string members "compute_dtype" name
  layout_tag ← read_required_string members "layout_tag" name
  alignment_bytes ← read_required_size_t members "alignment_bytes" name
  packed_file ← read_required_string members "packed_file" name
  offset_bytes ← read_required_size_t members "offset_bytes" name
  nbytes ← read_required_size_t members "nbytes" name
  checksum ← read_required_string members "checksum" name
  auxiliaries ← optional_auxiliaries name members
  pure (record {
    name = name;
    op_class = op_class;
    logical_shape = logical_shape;
    packed_shape = packed_shape;
    storage_dtype = storage_dtype;
    compute_dtype = compute_dtype;
    layout_tag = layout_tag;
    alignment_bytes = alignment_bytes;
    block_scale_mode = or_empty (read_optional_string members "block_scale_mode");
    block_scale_dtype = or_empty (read_optional_string members "block_scale_dtype");
    tensor_scale_dtype = or_empty (read_optional_string members "tensor_scale_dtype");
    packed_file = packed_file;
    offset_bytes = offset_bytes;
    nbytes = nbytes;
    auxiliaries = auxiliaries;
    source_tensor_name = read_source members;
    checksum = checksum;
  })

unfoldable pub read_tensors :
    List TensorManifestEntry → JsonArray → Reading (List TensorManifestEntry)
read_tensors tensors empty_array = pure tensors
read_tensors tensors (element (object members) rest) = do
  tensor ← read_tensor members
  read_tensors (tensors ++ (tensor ∷ [])) rest
read_tensors tensors (element _ rest) = do
  _ ← complain [] (text "tensor entries must be objects") tt
  read_tensors tensors rest

unfoldable pub required_tensors : JsonObject → Reading (List TensorManifestEntry)
required_tensors members = elim (as_array (find_member members (text "tensors"))) [
  | none ↦ complain [] (text "missing or invalid array field 'tensors'") []
  | some elements ↦ read_tensors [] elements
]

-- The two fields of `target_platform`.
unfoldable pub read_platform : JsonObject → Reading (List ℕ × List ℕ)
read_platform members = elim (as_object (find_member members (text "target_platform"))) [
  | none ↦ complain [] (text "missing or invalid object field 'target_platform'") ([], [])
  | some platform ↦ (do
    gpu_family ← read_required_string platform "gpu_family" []
    compute_capability ← read_required_string platform "compute_capability" []
    pure (gpu_family, compute_capability))
]

-- The three fields of `runtime_profile`.
unfoldable pub read_profile : JsonObject → Reading (ℕ × (ℕ × ℕ))
read_profile members = elim (as_object (find_member members (text "runtime_profile"))) [
  | none ↦ complain [] (text "missing or invalid object field 'runtime_profile'") (0, (0, 0))
  | some profile ↦ (do
    kv_bytes_per_token ← read_required_size_t profile "kv_bytes_per_token" []
    fp16 ← read_required_size_t profile "mamba_state_bytes_fp16" []
    fp32 ← read_required_size_t profile "mamba_state_bytes_fp32" []
    pure (kv_bytes_per_token, (fp16, fp32)))
]

-- The manifest of a root object.
unfoldable pub read_manifest : JsonObject → Reading PackedModelManifest
read_manifest members = do
  schema_version ← read_required_size_t members "schema_version" []
  model_id ← read_required_string members "model_id" []
  source_revision ← read_required_string members "source_revision" []
  tokenizer_revision ← read_required_string members "tokenizer_revision" []
  packer_version ← read_required_string members "packer_version" []
  platform ← read_platform members
  profile ← read_profile members
  tensors ← required_tensors members
  pure (record {
    schema_version = schema_version % 2 ^ 32;
    runtime = record {
      model_id = model_id;
      source_revision = source_revision;
      tokenizer_revision = tokenizer_revision;
      packer_version = packer_version;
      gpu_family = platform.0;
      compute_capability = platform.1;
      kv_bytes_per_token = profile.0;
      mamba_state_bytes_fp16 = profile.1.0;
      mamba_state_bytes_fp32 = profile.1.1;
    };
    tensors = tensors;
  })

-- std::exception::what, for a text of this size.
unfoldable pub what : ℕ → ParseError → List ℕ
what size (trailing_content left) =
    text "unexpected trailing content at byte " ++ to_string (size - left)
what size (unexpected_token left) = text "unexpected token at byte " ++ to_string (size - left)
what size (expected_key left) =
    text "expected object key string at byte " ++ to_string (size - left)
what size (expected_digit left) = text "expected digit at byte " ++ to_string (size - left)
what size (unterminated_escape left) =
    text "unterminated escape sequence at byte " ++ to_string (size - left)
what size (invalid_escape left) = text "invalid escape sequence at byte " ++ to_string (size - left)
what size end_of_input = text "unexpected end of input"
what size unsupported_unicode =
    text "unicode escape sequences are not supported in the current manifest parser"
what size unterminated_string = text "unterminated string literal"
what size out_of_range = text "stoll"
what size (expected_byte expected left) =
    text "expected '" ++ (expected ∷ (text "' at byte " ++ to_string (size - left)))

pub record ManifestLoadResult : Type 0 where
  pub ok : Bool
  pub manifest : PackedModelManifest
  pub issues : Issues

abbrev pub empty_manifest : PackedModelManifest
empty_manifest = record {
  schema_version = 0;
  runtime = record {
    model_id = [];
    source_revision = [];
    tokenizer_revision = [];
    packer_version = [];
    gpu_family = [];
    compute_capability = [];
    kv_bytes_per_token = 0;
    mamba_state_bytes_fp16 = 0;
    mamba_state_bytes_fp32 = 0;
  };
  tensors = [];
}

abbrev pub refused_with : Issues → ManifestLoadResult
refused_with issues = record { ok = false; manifest = empty_manifest; issues = issues }

-- From the root object on.
unfoldable pub load_object : JsonObject → ManifestLoadResult
load_object members =
    let (manifest, read_issues) = read_manifest members [] in
    let issues = read_issues ++ validate_manifest manifest in
    if has_manifest_errors issues
    then refused_with issues
    else record { ok = true; manifest = manifest; issues = issues }

unfoldable pub load_root : JsonValue → ManifestLoadResult
load_root (object members) = load_object members
load_root _ = refused_with (add_error [] [] (text "manifest root must be a JSON object"))

-- The text of a file that could be opened. The parser never is out of fuel.
unfoldable pub load_text : List ℕ → ManifestLoadResult
load_text input = elim (parse_json input) [
  | parsed root rest ↦ load_root root
  | thrown e ↦
      refused_with (add_error [] [] (text "manifest JSON parse error: " ++ what (length input) e))
  | exhausted ↦ refused_with []
]

-- LoadManifestFromJsonFile, with the contents of the file if it could be opened.
unfoldable pub load_manifest_from_json_file : List ℕ → Option (List ℕ) → ManifestLoadResult
load_manifest_from_json_file manifest_path none =
    refused_with (add_error [] [] (text "unable to open manifest file: " ++ manifest_path))
load_manifest_from_json_file manifest_path (some contents) = load_text contents
