-- ===== src/ManifestFile/Ranges.antt =====
-- Files that hold the ranges a manifest names, and what VerifyManifestFiles asks of the auxiliaries.
use nemotron_inference.Base.{
  ℕ, ◌≤◌, ◌≡◌, sym, ◌∙◌, ◌↔◌, inl, inr, true, false, List, [], ◌∷◌, ◌++◌, none, some, arith, ltb,
  add64, text, Bool-cases, Option-cases,
}
use nemotron_inference.Manifest.{
  TensorAuxiliaryManifest, TensorManifestEntry, Issues, add_error, has_manifest_errors,
}
use nemotron_inference.Manifest.Errors.{has_manifest_errors-add_error}
use nemotron_inference.ArtifactLoader.{resolve_manifest_path}
use nemotron_inference.ManifestFile.Files.{
  ManifestFiles, extract_expected_fnv64, compute_fnv64_for_range, missing, verify_auxiliary,
  verify_auxiliaries,
}

-- A file that is there, with a size that is not below the sum of offset and size as std::size_t takes it.
pub record HoldsRange (files : ManifestFiles) (path : List ℕ) (offset_bytes nbytes : ℕ)
    : Type 0 where
  pub there : files.exists path ≡ some true
  pub size : ℕ
  pub sized : files.paths.file_size path ≡ some size
  pub fits : add64 offset_bytes nbytes ≤ size

abbrev pub AuxiliariesVerified : ManifestFiles → List ℕ → List TensorAuxiliaryManifest → Type 0
AuxiliariesVerified files manifest_path [] = Unit
AuxiliariesVerified files manifest_path (auxiliary ∷ rest) =
    HoldsRange files (resolve_manifest_path files.paths manifest_path auxiliary.file)
      auxiliary.offset_bytes auxiliary.nbytes
    × AuxiliariesVerified files manifest_path rest

-- The checksum in the manifest is that of the bytes in the file.
pub record ChecksumMatches (files : ManifestFiles) (tensor : TensorManifestEntry) (path : List ℕ)
    : Type 0 where
  pub checksum : List ℕ
  pub extracted : extract_expected_fnv64 tensor.checksum ≡ some checksum
  pub computed :
      compute_fnv64_for_range files path tensor.offset_bytes tensor.nbytes ≡ some checksum

abbrev pub TensorVerified : ManifestFiles → List ℕ → TensorManifestEntry → Type 0
TensorVerified files manifest_path tensor =
    HoldsRange files (resolve_manifest_path files.paths manifest_path tensor.packed_file)
      tensor.offset_bytes tensor.nbytes
    × (ChecksumMatches files tensor
          (resolve_manifest_path files.paths manifest_path tensor.packed_file)
        × AuxiliariesVerified files manifest_path tensor.auxiliaries)

abbrev pub TensorsVerified : ManifestFiles → List ℕ → List TensorManifestEntry → Type 0
TensorsVerified files manifest_path [] = Unit
TensorsVerified files manifest_path (tensor ∷ rest) =
    TensorVerified files manifest_path tensor × TensorsVerified files manifest_path rest

missing-exists :
    (files : ManifestFiles) (path : List ℕ)
    → (missing files path ≡ false) ↔ (files.exists path ≡ some true)
unfolding missing
missing-exists files path = ground arith

-- An added error leaves no run without errors.
pub added_error :
    {P : Type 0} (issues : Issues) (tensor_name message : List ℕ)
    → ¬ P
    → (has_manifest_errors (add_error issues tensor_name message) ≡ false)
      ↔ ((has_manifest_errors issues ≡ false) × P)
added_error issues tensor_name message absent =
    let added = has_manifest_errors-add_error issues tensor_name message in
    (λ h. absurd (cc), λ h. absurd (absent h.1))

pub unchanged :
    {P : Type 0} (issues : Issues)
    → P
    → (has_manifest_errors issues ≡ false) ↔ ((has_manifest_errors issues ≡ false) × P)
unchanged issues p = (λ h. (h, p), λ h. h.0)

-- The test of the size.
pub fits_iff :
    (files : ManifestFiles) (path : List ℕ) (offset_bytes nbytes size : ℕ)
    → missing files path ≡ false
    → files.paths.file_size path ≡ some size
    → (ltb size (add64 offset_bytes nbytes) ≡ false) ↔ HoldsRange files path offset_bytes nbytes
fits_iff files path offset_bytes nbytes size there sized = (
  λ h. record {
    there = (missing-exists files path).0 there;
    size = size;
    sized = sized;
    fits = ground arith;
  },
  λ h.
      let same : some size ≡ some h.size = sym sized ∙ h.sized in let fits = h.fits in ground arith,
)

pub not_missing :
    (files : ManifestFiles) (path : List ℕ) (offset_bytes nbytes : ℕ)
    → missing files path ≡ true
    → ¬ HoldsRange files path offset_bytes nbytes
not_missing files path offset_bytes nbytes gone h =
    let there = (missing-exists files path).1 h.there in absurd (cc)

pub no_size :
    (files : ManifestFiles) (path : List ℕ) (offset_bytes nbytes : ℕ)
    → files.paths.file_size path ≡ none
    → ¬ HoldsRange files path offset_bytes nbytes
no_size files path offset_bytes nbytes gone h = let sized = h.sized in absurd (cc)

verify_auxiliary-HoldsRange :
    (files : ManifestFiles) (manifest_path tensor_name : List ℕ)
    (auxiliary : TensorAuxiliaryManifest) (issues : Issues)
    → (has_manifest_errors (verify_auxiliary files manifest_path tensor_name auxiliary issues)
        ≡ false)
      ↔ ((has_manifest_errors issues ≡ false)
          × HoldsRange files
              (resolve_manifest_path files.paths manifest_path auxiliary.file)
              auxiliary.offset_bytes
              auxiliary.nbytes)
unfolding verify_auxiliary
verify_auxiliary-HoldsRange files manifest_path tensor_name auxiliary issues =
    let path = resolve_manifest_path files.paths manifest_path auxiliary.file in
    let offset = auxiliary.offset_bytes in
    elim (Bool-cases (missing files path)) [
      | inl m ↦
          rw (m, verify_auxiliary)
            (added_error issues tensor_name (text "auxiliary file not found: " ++ path)
              (not_missing files path offset auxiliary.nbytes m))
      | inr m ↦ elim (Option-cases (files.paths.file_size path)) [
        | inl s ↦
            rw (m, s, verify_auxiliary)
              (added_error issues tensor_name (text "unable to read auxiliary file size: " ++ path)
                (no_size files path offset auxiliary.nbytes s))
        | inr (size, s) ↦
            let fits = fits_iff files path offset auxiliary.nbytes size m s in
            elim (Bool-cases (ltb size (add64 offset auxiliary.nbytes))) [
              | inl l ↦
                  rw (m, s, l, verify_auxiliary)
                    (added_error issues tensor_name
                      (text "auxiliary file is smaller than required byte range")
                      (λ h. let fine = fits.1 h in absurd (cc)))
              | inr l ↦ rw (m, s, l, verify_auxiliary) (unchanged issues (fits.0 l))
            ]
      ]
    ]

pub verify_auxiliaries-Verified :
    (files : ManifestFiles) (manifest_path tensor_name : List ℕ)
    (auxiliaries : List TensorAuxiliaryManifest) (issues : Issues)
    → (has_manifest_errors (verify_auxiliaries files manifest_path tensor_name auxiliaries issues)
        ≡ false)
      ↔ ((has_manifest_errors issues ≡ false) × AuxiliariesVerified files manifest_path auxiliaries)
unfolding verify_auxiliaries
verify_auxiliaries-Verified files manifest_path tensor_name [] issues = unchanged issues tt
verify_auxiliaries-Verified files manifest_path tensor_name (auxiliary ∷ rest) issues =
    let after = verify_auxiliary files manifest_path tensor_name auxiliary issues in
    let first = verify_auxiliary-HoldsRange files manifest_path tensor_name auxiliary issues in
    let ih = verify_auxiliaries-Verified files manifest_path tensor_name rest after in
    (
      λ clean.
          let (one, more) = ih.0 clean in
          let (before, holds) = first.0 one in (before, (holds, more)),
      λ h. let (before, (holds, more)) = h in ih.1 (first.1 (before, holds), more),
    )
