-- ===== src/Manifest/Sample.antt =====
-- A small manifest: a scaled tensor of a layer, with its two buffers, and a plain global one.
use nemotron_inference.Base.{◌≡◌, refl, false, [], ◌∷◌, str_eq, text, member}
use nemotron_inference.Manifest.{
  TensorAuxiliaryManifest, TensorManifestEntry, PackedModelManifest, has_manifest_errors, add_issue,
  add_error, report, zero_dim, empty_or_zero_dim, scaled, scaled_together, validate_auxiliaries,
  validate_scales, validate_tensor, validate_tensors, validate_manifest,
}
use nemotron_inference.Manifest.Complete.{IsWellFormed}
use nemotron_inference.Manifest.WellFormed.{validate_manifest-IsWellFormed}

abbrev pub block_buffer : TensorAuxiliaryManifest
block_buffer = record {
  name = text "block_scales";
  file = text "w.bin";
  offset_bytes = 8;
  nbytes = 2;
}

abbrev pub scale_buffer : TensorAuxiliaryManifest
scale_buffer = record {
  name = text "tensor_scale";
  file = text "w.bin";
  offset_bytes = 12;
  nbytes = 4;
}

abbrev pub scaled_tensor : TensorManifestEntry
scaled_tensor = record {
  name = text "layers.0.q_proj";
  op_class = text "linear";
  logical_shape = 4 ∷ 4 ∷ [];
  packed_shape = 4 ∷ 2 ∷ [];
  storage_dtype = text "nvfp4";
  compute_dtype = text "bf16";
  layout_tag = text "row";
  alignment_bytes = 32;
  block_scale_mode = text "1d";
  block_scale_dtype = text "fp8";
  tensor_scale_dtype = text "fp32";
  packed_file = text "w.bin";
  offset_bytes = 0;
  nbytes = 8;
  auxiliaries = block_buffer ∷ scale_buffer ∷ [];
  source_tensor_name = [];
  checksum = text "fnv1a64:af63ad4c86019caf";
}

abbrev pub plain_tensor : TensorManifestEntry
plain_tensor = record {
  name = text "norm_f.weight";
  op_class = text "norm";
  logical_shape = 4 ∷ [];
  packed_shape = 4 ∷ [];
  storage_dtype = text "bf16";
  compute_dtype = text "bf16";
  layout_tag = text "row";
  alignment_bytes = 16;
  block_scale_mode = [];
  block_scale_dtype = [];
  tensor_scale_dtype = [];
  packed_file = text "n.bin";
  offset_bytes = 0;
  nbytes = 3;
  auxiliaries = [];
  source_tensor_name = [];
  checksum = text "fnv1a64:af63ad4c86019caf";
}

abbrev pub sample : PackedModelManifest
sample = record {
  schema_version = 1;
  runtime = record {
    model_id = text "m";
    source_revision = text "s";
    tokenizer_revision = text "t";
    packer_version = text "p";
    gpu_family = text "g";
    compute_capability = text "c";
    kv_bytes_per_token = 1;
    mamba_state_bytes_fp16 = 2;
    mamba_state_bytes_fp32 = 4;
  };
  tensors = scaled_tensor ∷ plain_tensor ∷ [];
}

sample_run : has_manifest_errors (validate_manifest sample) ≡ false
unfolding text str_eq member has_manifest_errors add_issue add_error report zero_dim
    empty_or_zero_dim scaled scaled_together validate_auxiliaries validate_scales validate_tensor
    validate_tensors validate_manifest
sample_run = refl

pub sample-IsWellFormed : IsWellFormed sample
sample-IsWellFormed = (validate_manifest-IsWellFormed sample).0 sample_run
