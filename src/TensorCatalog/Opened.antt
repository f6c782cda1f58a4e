-- ===== src/TensorCatalog/Opened.antt =====
-- BuildTensorCatalog with a loader that was opened for the same manifest.
use nemotron_inference.Base.{
  ℕ, zero, suc, ◌≡◌, refl, ap, sym, subst, ◌∙◌, inl, inr, ◌↔◌, true, false, not, List, [], ◌∷◌,
  ◌++◌, some, arith, length, length-append, get_elem?, append_assoc, string_key, find, Bool-cases,
}
use nemotron_inference.Manifest.{
  TensorManifestEntry, PackedModelManifest, has_manifest_errors, validate_manifest,
}
use nemotron_inference.Manifest.WellFormed.{validate_manifest-IsWellFormed}
use nemotron_inference.ArtifactLoader.{
  FileSystem, ArtifactLoadMode, ArtifactLoader, TensorArtifactView, find_artifact,
  open_verified_with_mode,
}
use nemotron_inference.ArtifactLoader.Opened.{TensorHeld}
use nemotron_inference.ArtifactLoader.Served.{open_verified_with_mode-Served}
use nemotron_inference.TensorCatalog.{
  TensorRuntimeDescriptor, TensorCatalog, empty_catalog, build_tensor_catalog, find_tensor,
}
use nemotron_inference.TensorCatalog.Built.{
  AllScalesNamed, DescriptorsOf, ServesAll, NamesFound, add_tensors-Run,
}

serves_each :
    (fs : FileSystem) (loader : ArtifactLoader) (tensors : List TensorManifestEntry)
    → ((index : ℕ) (tensor : TensorManifestEntry)
        → get_elem? tensors index ≡ some tensor
        → (view : TensorArtifactView) × (find_artifact fs loader tensor.name ≡ some view)
          × TensorHeld fs loader tensor view)
    → ServesAll fs loader tensors
serves_each fs loader [] each = tt
serves_each fs loader (tensor ∷ rest) each =
    (each 0 tensor refl, serves_each fs loader rest (λ index other e. each (suc index) other e))

-- FindTensor finds the descriptor of every tensor by its name.
abbrev pub TensorsFound :
    TensorCatalog → List TensorManifestEntry → List TensorRuntimeDescriptor → Type 0
TensorsFound catalog [] [] = Unit
TensorsFound catalog [] (_ ∷ _) = ⊥
TensorsFound catalog (_ ∷ _) [] = ⊥
TensorsFound catalog (tensor ∷ rest) (descriptor ∷ descriptors) =
    (find_tensor catalog tensor.name ≡ some descriptor) × TensorsFound catalog rest descriptors

get_elem?-middle :
    {A : Type 0} (xs ys : List A) (y : A) (n : ℕ)
    → length xs ≡ n
    → get_elem? (xs ++ (y ∷ ys)) n ≡ some y
get_elem?-middle [] ys y zero e = refl
get_elem?-middle [] ys y (suc n) e = absurd (omega arith)
get_elem?-middle (x ∷ xs) ys y zero e = absurd (omega arith)
get_elem?-middle (x ∷ xs) ys y (suc n) e = get_elem?-middle xs ys y n (omega arith)

NamesFound-TensorsFound :
    (fs : FileSystem) (loader : ArtifactLoader) (catalog : TensorCatalog) (start : ℕ)
    (tensors : List TensorManifestEntry) (before descriptors : List TensorRuntimeDescriptor)
    → NamesFound catalog.indices_by_name start tensors
    → DescriptorsOf fs loader tensors descriptors
    → catalog.tensors ≡ before ++ descriptors
    → length before ≡ start
    → TensorsFound catalog tensors descriptors
unfolding find_tensor
NamesFound-TensorsFound fs loader catalog start [] before [] named matches whole long = tt
NamesFound-TensorsFound fs loader catalog start [] before (_ ∷ _) named matches whole long = matches
NamesFound-TensorsFound fs loader catalog start (_ ∷ _) before [] named matches whole long = matches
NamesFound-TensorsFound fs loader catalog start (tensor ∷ rest) before (descriptor ∷ descriptors)
      named matches whole long =
    let there : get_elem? catalog.tensors start ≡ some descriptor =
      ap (λ t. get_elem? t start) whole
      ∙ get_elem?-middle before descriptors descriptor start long in
    (
      rw (named.0, find_tensor) there,
      NamesFound-TensorsFound fs loader catalog (suc start) rest (before ++ (descriptor ∷ []))
          descriptors named.1 matches.1
          (whole ∙ sym (append_assoc before (descriptor ∷ []) descriptors))
          (omega (arith, length-append before (descriptor ∷ []))),
    )

opened-clean :
    (fs : FileSystem) (manifest : PackedModelManifest) (manifest_path : List ℕ)
    (mode : ArtifactLoadMode) (loader : ArtifactLoader)
    → open_verified_with_mode fs manifest manifest_path mode ≡ some loader
    → has_manifest_errors (validate_manifest manifest) ≡ false
unfolding open_verified_with_mode
opened-clean fs manifest manifest_path mode loader opened =
    elim (Bool-cases (has_manifest_errors (validate_manifest manifest))) [
      | inl e ↦ absurd (ground arith)
      | inr e ↦ e
    ]

-- With a loader that OpenVerifiedWithMode opened for the manifest, BuildTensorCatalog never reads a view
-- that is not there and gives a catalog with a descriptor for every tensor, in order, of the bytes the
-- loader holds; FindTensor finds each by its name; and the catalog is valid exactly if every scaled tensor
-- has a buffer for its block scales and one for its tensor scale.
pub build_tensor_catalog-opened :
    (fs : FileSystem) (manifest : PackedModelManifest) (manifest_path : List ℕ)
    (mode : ArtifactLoadMode) (loader : ArtifactLoader)
    → open_verified_with_mode fs manifest manifest_path mode ≡ some loader
    → (catalog : TensorCatalog) × (build_tensor_catalog fs manifest loader ≡ some catalog)
      × DescriptorsOf fs loader manifest.tensors catalog.tensors
      × TensorsFound catalog manifest.tensors catalog.tensors
      × ((catalog.valid ≡ true) ↔ AllScalesNamed manifest.tensors)
unfolding build_tensor_catalog find
build_tensor_catalog-opened fs manifest manifest_path mode loader opened =
    let issues = validate_manifest manifest in
    let start = empty_catalog manifest issues in
    let clean = opened-clean fs manifest manifest_path mode loader opened in
    let formed = (validate_manifest-IsWellFormed manifest).0 clean in
    let serves = serves_each fs loader manifest.tensors (λ index tensor there.
      (open_verified_with_mode-Served fs manifest manifest_path mode loader index tensor opened
        there).1) in
    let (after, run, ran, named) =
      add_tensors-Run fs loader start [] 0 manifest.tensors formed.complete serves
        (λ name apart. refl) formed.unique (omega arith) in
    let whole = ran.appended in
    let matches = subst (DescriptorsOf fs loader manifest.tensors) (sym whole) ran.matches in
    let catalog : TensorCatalog = record after { valid = not (has_manifest_errors after.issues) } in
    (
      catalog,
      rw (clean, run, build_tensor_catalog),
      matches,
      NamesFound-TensorsFound fs loader catalog 0 manifest.tensors [] after.tensors named matches
          refl (omega arith),
      (
        λ valid. (ran.clean.0 (ground arith)).1,
        λ all. let fine = ran.clean.1 (clean, all) in ap not fine,
      ),
    )
