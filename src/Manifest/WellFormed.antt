-- ===== src/Manifest/WellFormed.antt =====
-- What ValidateManifest accepts, said without its loops.
use nemotron_inference.Base.{
  ℕ, ◌≡◌, ◌≢◌, refl, ◌↔◌, ◌⊎◌, inl, inr, false, List, [], ◌∷◌, arith, ==_iff, Bool-cases,
  string_key, is_empty_iff, text, Among, member_iff,
}
use nemotron_inference.Manifest.{
  TensorAuxiliaryManifest, TensorManifestEntry, PackedModelManifest, Issues, has_manifest_errors,
  report, zero_dim, empty_or_zero_dim, runtime_checks, tensor_checks, scaled, scaled_together,
  scale_checks, validate_scales, auxiliary_checks, validate_auxiliaries, validate_tensor,
  validate_tensors, validate_manifest,
}
use nemotron_inference.Manifest.Errors.{Clean, report-Clean}
use nemotron_inference.Manifest.Complete.{
  NoZero, IsShape, Unique, auxiliary_names, tensor_names, AuxiliariesComplete, ScalesComplete,
  IsComplete, TensorsComplete, IsWellFormed,
}

zero_dim-NoZero : (dims : List ℕ) → (zero_dim dims ≡ false) ↔ NoZero dims
unfolding zero_dim
zero_dim-NoZero [] = ground arith
zero_dim-NoZero (dim ∷ rest) = ground (arith, zero_dim-NoZero rest)

empty_or_zero_dim-IsShape : (dims : List ℕ) → (empty_or_zero_dim dims ≡ false) ↔ IsShape dims
unfolding empty_or_zero_dim
empty_or_zero_dim-IsShape dims = ground (arith, zero_dim-NoZero dims, is_empty_iff dims)

validate_auxiliaries-Complete :
    (tensor_name : List ℕ) (taken : List (List ℕ)) (auxiliaries : List TensorAuxiliaryManifest)
    (issues : Issues)
    → (has_manifest_errors (validate_auxiliaries tensor_name taken auxiliaries issues) ≡ false) ↔ (
        (has_manifest_errors issues ≡ false)
        × (AuxiliariesComplete auxiliaries × Unique taken (auxiliary_names auxiliaries)))
unfolding validate_auxiliaries
validate_auxiliaries-Complete tensor_name taken [] issues = ground arith
validate_auxiliaries-Complete tensor_name taken (auxiliary ∷ rest) issues =
    let checks = auxiliary_checks taken auxiliary in
    ground (
      arith,
      report-Clean tensor_name (auxiliary_checks taken auxiliary) issues,
      validate_auxiliaries-Complete tensor_name (auxiliary.name ∷ taken) rest
          (report tensor_name (auxiliary_checks taken auxiliary) issues),
      is_empty_iff auxiliary.name,
      is_empty_iff auxiliary.file,
      member_iff auxiliary.name taken,
      ==_iff auxiliary.nbytes 0,
    )

tensor_checks-Clean :
    (taken : List (List ℕ)) (tensor : TensorManifestEntry)
    → Clean (tensor_checks taken tensor) ↔ (
        (tensor.name ≢ [])
        × (¬ Among tensor.name taken)
        × (tensor.op_class ≢ [])
        × IsShape tensor.logical_shape
        × IsShape tensor.packed_shape
        × (tensor.storage_dtype ≢ [])
        × (tensor.compute_dtype ≢ [])
        × (tensor.layout_tag ≢ [])
        × (tensor.alignment_bytes ≢ 0)
        × (tensor.packed_file ≢ [])
        × (tensor.nbytes ≢ 0)
        × (tensor.checksum ≢ []))
tensor_checks-Clean taken tensor = ground (
  arith,
  is_empty_iff tensor.name,
  member_iff tensor.name taken,
  is_empty_iff tensor.op_class,
  empty_or_zero_dim-IsShape tensor.logical_shape,
  empty_or_zero_dim-IsShape tensor.packed_shape,
  is_empty_iff tensor.storage_dtype,
  is_empty_iff tensor.compute_dtype,
  is_empty_iff tensor.layout_tag,
  is_empty_iff tensor.packed_file,
  is_empty_iff tensor.checksum,
)

scale_checks-ScalesComplete :
    (tensor : TensorManifestEntry)
    → ((scaled tensor ≡ false) ⊎ Clean (scale_checks tensor)) ↔ ScalesComplete tensor
unfolding scaled scaled_together
scale_checks-ScalesComplete tensor = ground (
  arith,
  is_empty_iff tensor.block_scale_mode,
  is_empty_iff tensor.block_scale_dtype,
  is_empty_iff tensor.tensor_scale_dtype,
  is_empty_iff tensor.auxiliaries,
)

validate_scales-ScalesComplete :
    (tensor : TensorManifestEntry) (issues : Issues)
    → (has_manifest_errors (validate_scales tensor issues) ≡ false)
      ↔ ((has_manifest_errors issues ≡ false) × ScalesComplete tensor)
unfolding validate_scales
validate_scales-ScalesComplete tensor issues = elim (Bool-cases (scaled tensor)) [
  | inl e ↦ ground (
    arith,
    report-Clean tensor.name (scale_checks tensor) issues,
    scale_checks-ScalesComplete tensor,
  )
  | inr e ↦ ground (arith, scale_checks-ScalesComplete tensor)
]

validate_tensor-IsComplete :
    (taken : List (List ℕ)) (tensor : TensorManifestEntry) (issues : Issues)
    → (has_manifest_errors (validate_tensor taken tensor issues) ≡ false)
      ↔ ((has_manifest_errors issues ≡ false) × ((¬ Among tensor.name taken) × IsComplete tensor))
unfolding validate_tensor
validate_tensor-IsComplete taken tensor issues =
    let named = report tensor.name (tensor_checks taken tensor) issues in
    let first = report-Clean tensor.name (tensor_checks taken tensor) issues in
    let checks = tensor_checks-Clean taken tensor in
    let second = validate_scales-ScalesComplete tensor named in
    let third =
      validate_auxiliaries-Complete tensor.name [] tensor.auxiliaries
        (validate_scales tensor named) in
    (
      λ clean.
          let (two, (bufs, uniq)) = third.0 clean in
          let (one, complete) = second.0 two in
          let (before, run) = first.0 one in
          let (c1, c2, c3, c4, c5, c6, c7, c8, c9, c10, c11, c12) = checks.0 run in
          (
            before,
            (
              c2,
              record {
                named = c1;
                classed = c3;
                shaped = c4;
                packed = c5;
                stored = c6;
                computed = c7;
                laid_out = c8;
                aligned = c9;
                filed = c10;
                sized = c11;
                summed = c12;
                scales = complete;
                buffers = bufs;
                buffers_unique = uniq;
              },
            ),
          ),
      λ h.
          let (before, (fresh, c)) = h in
          third.1 (
            second.1 (
              first.1 (
                before,
                checks.1 (
                  c.named, fresh, c.classed, c.shaped, c.packed, c.stored, c.computed, c.laid_out,
                  c.aligned, c.filed, c.sized, c.summed,
                ),
              ),
              c.scales,
            ),
            (c.buffers, c.buffers_unique),
          ),
    )

validate_tensors-Complete :
    (taken : List (List ℕ)) (tensors : List TensorManifestEntry) (issues : Issues)
    → (has_manifest_errors (validate_tensors taken tensors issues) ≡ false) ↔ (
        (has_manifest_errors issues ≡ false)
        × (TensorsComplete tensors × Unique taken (tensor_names tensors)))
unfolding validate_tensors
validate_tensors-Complete taken [] issues = ground arith
validate_tensors-Complete taken (tensor ∷ rest) issues =
    let step = validate_tensor-IsComplete taken tensor issues in
    let ih =
      validate_tensors-Complete (tensor.name ∷ taken) rest (validate_tensor taken tensor issues) in
    (
      λ clean.
          let (one, (done, uniq)) = ih.0 clean in
          let (before, (fresh, complete)) = step.0 one in
          (before, ((complete, done), (fresh, uniq))),
      λ h.
          let (before, ((complete, done), (fresh, uniq))) = h in
          ih.1 (step.1 (before, (fresh, complete)), (done, uniq)),
    )

runtime_checks-Clean :
    (manifest : PackedModelManifest)
    → Clean (runtime_checks manifest) ↔ (
        (manifest.schema_version ≢ 0)
        × (manifest.runtime.model_id ≢ [])
        × (manifest.runtime.source_revision ≢ [])
        × (manifest.runtime.tokenizer_revision ≢ [])
        × (manifest.runtime.kv_bytes_per_token ≢ 0)
        × (manifest.runtime.mamba_state_bytes_fp16 ≢ 0)
        × (manifest.runtime.mamba_state_bytes_fp32 ≢ 0))
runtime_checks-Clean manifest = ground (
  arith,
  is_empty_iff manifest.runtime.model_id,
  is_empty_iff manifest.runtime.source_revision,
  is_empty_iff manifest.runtime.tokenizer_revision,
)

none_found : has_manifest_errors [] ≡ false
unfolding has_manifest_errors
none_found = refl

-- ValidateManifest reports no error exactly for a well-formed manifest.
pub validate_manifest-IsWellFormed :
    (manifest : PackedModelManifest)
    → (has_manifest_errors (validate_manifest manifest) ≡ false) ↔ IsWellFormed manifest
unfolding validate_manifest
validate_manifest-IsWellFormed manifest =
    let start = report (text "") (runtime_checks manifest) [] in
    let first = report-Clean (text "") (runtime_checks manifest) [] in
    let checks = runtime_checks-Clean manifest in
    let loop = validate_tensors-Complete [] manifest.tensors start in
    (
      λ clean.
          let (one, (done, uniq)) = loop.0 clean in
          let (c1, c2, c3, c4, c5, c6, c7) = checks.0 (first.0 one).1 in
          record {
            versioned = c1;
            model = c2;
            revision = c3;
            tokenizer = c4;
            kv = c5;
            mamba_fp16 = c6;
            mamba_fp32 = c7;
            complete = done;
            unique = uniq;
          },
      λ w. loop.1 (
        first.1 (
          none_found,
          checks.1
              (w.versioned, w.model, w.revision, w.tokenizer, w.kv, w.mamba_fp16, w.mamba_fp32),
        ),
        (w.complete, w.unique),
      ),
    )
