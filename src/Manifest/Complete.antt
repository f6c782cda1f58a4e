-- ===== src/Manifest/Complete.antt =====
-- What a well-formed manifest is, without the loops that check it.
use nemotron_inference.Base.{ℕ, ◌≡◌, ◌≢◌, ◌⊎◌, List, [], ◌∷◌, string_key, Among}
use nemotron_inference.Manifest.{TensorAuxiliaryManifest, TensorManifestEntry, PackedModelManifest}

abbrev pub NoZero : List ℕ → Type 0
NoZero [] = Unit
NoZero (dim ∷ rest) = (dim ≢ 0) × NoZero rest

-- A shape that has dimensions, none of them zero.
abbrev pub IsShape : List ℕ → Type 0
IsShape dims = (dims ≢ []) × NoZero dims

-- No name stands twice, nor among the given ones.
abbrev pub Unique : List (List ℕ) → List (List ℕ) → Type 0
Unique taken [] = Unit
Unique taken (name ∷ rest) = (¬ Among name taken) × Unique (name ∷ taken) rest

abbrev pub auxiliary_names : List TensorAuxiliaryManifest → List (List ℕ)
auxiliary_names [] = []
auxiliary_names (auxiliary ∷ rest) = auxiliary.name ∷ auxiliary_names rest

abbrev pub tensor_names : List TensorManifestEntry → List (List ℕ)
tensor_names [] = []
tensor_names (tensor ∷ rest) = tensor.name ∷ tensor_names rest

abbrev pub AuxiliariesComplete : List TensorAuxiliaryManifest → Type 0
AuxiliariesComplete [] = Unit
AuxiliariesComplete (auxiliary ∷ rest) =
    ((auxiliary.name ≢ []) × ((auxiliary.file ≢ []) × (auxiliary.nbytes ≢ 0)))
    × AuxiliariesComplete rest

-- A tensor names no scale at all, or all three and has buffers.
abbrev pub ScalesComplete : TensorManifestEntry → Type 0
ScalesComplete tensor =
    ((tensor.block_scale_mode ≡ [])
      × ((tensor.block_scale_dtype ≡ []) × (tensor.tensor_scale_dtype ≡ [])))
    ⊎ ((tensor.block_scale_mode ≢ [])
        × ((tensor.block_scale_dtype ≢ [])
            × ((tensor.tensor_scale_dtype ≢ []) × (tensor.auxiliaries ≢ []))))

pub record IsComplete (tensor : TensorManifestEntry) : Type 0 where
  pub named : tensor.name ≢ []
  pub classed : tensor.op_class ≢ []
  pub shaped : IsShape tensor.logical_shape
  pub packed : IsShape tensor.packed_shape
  pub stored : tensor.storage_dtype ≢ []
  pub computed : tensor.compute_dtype ≢ []
  pub laid_out : tensor.layout_tag ≢ []
  pub aligned : tensor.alignment_bytes ≢ 0
  pub filed : tensor.packed_file ≢ []
  pub sized : tensor.nbytes ≢ 0
  pub summed : tensor.checksum ≢ []
  pub scales : ScalesComplete tensor
  pub buffers : AuxiliariesComplete tensor.auxiliaries
  pub buffers_unique : Unique [] (auxiliary_names tensor.auxiliaries)

abbrev pub TensorsComplete : List TensorManifestEntry → Type 0
TensorsComplete [] = Unit
TensorsComplete (tensor ∷ rest) = IsComplete tensor × TensorsComplete rest

pub record IsWellFormed (manifest : PackedModelManifest) : Type 0 where
  pub versioned : manifest.schema_version ≢ 0
  pub model : manifest.runtime.model_id ≢ []
  pub revision : manifest.runtime.source_revision ≢ []
  pub tokenizer : manifest.runtime.tokenizer_revision ≢ []
  pub kv : manifest.runtime.kv_bytes_per_token ≢ 0
  pub mamba_fp16 : manifest.runtime.mamba_state_bytes_fp16 ≢ 0
  pub mamba_fp32 : manifest.runtime.mamba_state_bytes_fp32 ≢ 0
  pub complete : TensorsComplete manifest.tensors
  pub unique : Unique [] (tensor_names manifest.tensors)
