-- ===== src/TensorCatalog/Built.antt =====
-- The catalog of an opened loader.
use nemotron_inference.Base.{
  ℕ, suc, ◌≡◌, refl, ap, sym, ◌∙◌, inr, ◌↔◌, false, List, [], ◌∷◌, ◌++◌, none, some, arith, length,
  length-append, append_assoc, append_nil, string_key, str_eq, str_eq_iff, same_refl, find, emplace,
  find-emplace, find-emplace_kept, Among,
}
use nemotron_inference.Manifest.{TensorAuxiliaryManifest, TensorManifestEntry, has_manifest_errors}
use nemotron_inference.Manifest.Complete.{Unique, tensor_names, IsComplete, TensorsComplete}
use nemotron_inference.ArtifactLoader.{
  FileSystem, ArtifactLoader, AuxiliaryArtifactView, TensorArtifactView, find_artifact,
}
use nemotron_inference.ArtifactLoader.Opened.{AuxiliariesHeld, TensorHeld}
use nemotron_inference.TensorCatalog.{
  TensorRuntimeDescriptor, TensorCatalog, add_descriptor, add_tensor, add_tensors,
}
use nemotron_inference.TensorCatalog.Roles.{described, SameLength}
use nemotron_inference.TensorCatalog.Scan.{ScalesNamed, scan_auxiliaries-Resolved}

abbrev pub AllScalesNamed : List TensorManifestEntry → Type 0
AllScalesNamed [] = Unit
AllScalesNamed (tensor ∷ rest) = ScalesNamed tensor × AllScalesNamed rest

-- The descriptor of a tensor whose view the loader holds.
pub record DescriptorOf (fs : FileSystem) (loader : ArtifactLoader) (tensor : TensorManifestEntry)
    (descriptor : TensorRuntimeDescriptor) : Type 0 where
  pub view : TensorArtifactView
  pub held : TensorHeld fs loader tensor view
  pub entry : descriptor.manifest_entry ≡ tensor
  pub packed : descriptor.packed_bytes ≡ view.packed_bytes
  pub auxiliaries : descriptor.auxiliaries ≡ described tensor.auxiliaries view.auxiliaries

abbrev pub DescriptorsOf :
    FileSystem → ArtifactLoader → List TensorManifestEntry → List TensorRuntimeDescriptor → Type 0
DescriptorsOf fs loader [] [] = Unit
DescriptorsOf fs loader [] (_ ∷ _) = ⊥
DescriptorsOf fs loader (_ ∷ _) [] = ⊥
DescriptorsOf fs loader (tensor ∷ rest) (descriptor ∷ descriptors) =
    DescriptorOf fs loader tensor descriptor × DescriptorsOf fs loader rest descriptors

-- Every tensor is found by the loader.
abbrev pub ServesAll : FileSystem → ArtifactLoader → List TensorManifestEntry → Type 0
ServesAll fs loader [] = Unit
ServesAll fs loader (tensor ∷ rest) =
    ((view : TensorArtifactView) × (find_artifact fs loader tensor.name ≡ some view)
      × TensorHeld fs loader tensor view)
    × ServesAll fs loader rest

Held-SameLength :
    (fs : FileSystem) (loader : ArtifactLoader) (entries : List TensorAuxiliaryManifest)
    (views : List AuxiliaryArtifactView)
    → AuxiliariesHeld fs loader entries views
    → SameLength entries views
Held-SameLength fs loader [] [] h = tt
Held-SameLength fs loader [] (_ ∷ _) h = h
Held-SameLength fs loader (_ ∷ _) [] h = h
Held-SameLength fs loader (entry ∷ entries) (view ∷ views) h =
    Held-SameLength fs loader entries views h.1

-- What the loop does to a catalog.
pub record CatalogRun (fs : FileSystem) (loader : ArtifactLoader)
    (tensors : List TensorManifestEntry) (catalog after : TensorCatalog) : Type 0 where
  pub new : List TensorRuntimeDescriptor
  pub appended : after.tensors ≡ catalog.tensors ++ new
  pub matches : DescriptorsOf fs loader tensors new
  pub clean :
      (has_manifest_errors after.issues ≡ false)
      ↔ ((has_manifest_errors catalog.issues ≡ false) × AllScalesNamed tensors)
  pub kept :
      (name : List ℕ) (index : ℕ)
      → find name catalog.indices_by_name ≡ some index
      → find name after.indices_by_name ≡ some index

add_tensor-Run :
    (fs : FileSystem) (loader : ArtifactLoader) (catalog : TensorCatalog)
    (tensor : TensorManifestEntry) (view : TensorArtifactView)
    → IsComplete tensor
    → TensorHeld fs loader tensor view
    → (after : TensorCatalog) × (add_tensor catalog tensor (some view) ≡ some after)
      × CatalogRun fs loader (tensor ∷ []) catalog after
      × (after.indices_by_name
          ≡ emplace tensor.name (length catalog.tensors) catalog.indices_by_name)
unfolding add_tensor add_descriptor
add_tensor-Run fs loader catalog tensor view complete held =
    let (scan, run, resolved) =
      scan_auxiliaries-Resolved tensor view.auxiliaries catalog.issues complete.buffers_unique
        (Held-SameLength fs loader tensor.auxiliaries view.auxiliaries held.auxiliaries) in
    (
      add_descriptor catalog tensor view scan,
      rw (run, add_tensor),
      record {
        new =
            record {
              manifest_entry = tensor;
              packed_bytes = view.packed_bytes;
              auxiliaries = scan.auxiliaries;
            }
            ∷ [];
        appended = refl;
        matches = (
          record {
            view = view;
            held = held;
            entry = refl;
            packed = refl;
            auxiliaries = resolved.auxiliaries;
          },
          tt,
        );
        clean = (
          λ h. let (before, named) = resolved.clean.0 h in (before, (named, tt)),
          λ h. resolved.clean.1 (h.0, h.1.0),
        );
        kept = λ name index e.
            find-emplace_kept tensor.name name (length catalog.tensors) index
              catalog.indices_by_name e;
      },
      refl,
    )

-- The names of tensors from a position on lead to their positions.
abbrev pub NamesFound : List (List ℕ × ℕ) → ℕ → List TensorManifestEntry → Type 0
NamesFound indices start [] = Unit
NamesFound indices start (tensor ∷ rest) =
    (find tensor.name indices ≡ some start) × NamesFound indices (suc start) rest

abbrev pub Stored : TensorCatalog → List (List ℕ) → Type 0
Stored catalog taken =
    (name : List ℕ) → (¬ Among name taken) → find name catalog.indices_by_name ≡ none

DescriptorsOf-cons :
    (fs : FileSystem) (loader : ArtifactLoader) (tensor : TensorManifestEntry)
    (rest : List TensorManifestEntry) (xs ys : List TensorRuntimeDescriptor)
    → DescriptorsOf fs loader (tensor ∷ []) xs
    → DescriptorsOf fs loader rest ys
    → DescriptorsOf fs loader (tensor ∷ rest) (xs ++ ys)
DescriptorsOf-cons fs loader tensor rest [] ys h k = absurd h
DescriptorsOf-cons fs loader tensor rest (x ∷ []) ys h k = (h.0, k)
DescriptorsOf-cons fs loader tensor rest (x ∷ (y ∷ xs)) ys h k = absurd h.1

DescriptorsOf-one :
    (fs : FileSystem) (loader : ArtifactLoader) (tensor : TensorManifestEntry)
    (xs : List TensorRuntimeDescriptor)
    → DescriptorsOf fs loader (tensor ∷ []) xs
    → length xs ≡ 1
DescriptorsOf-one fs loader tensor [] h = absurd h
DescriptorsOf-one fs loader tensor (x ∷ []) h = omega arith
DescriptorsOf-one fs loader tensor (x ∷ (y ∷ xs)) h = absurd h.1

pub add_tensors-Run :
    (fs : FileSystem) (loader : ArtifactLoader) (catalog : TensorCatalog) (taken : List (List ℕ))
    (start : ℕ) (tensors : List TensorManifestEntry)
    → TensorsComplete tensors
    → ServesAll fs loader tensors
    → Stored catalog taken
    → Unique taken (tensor_names tensors)
    → length catalog.tensors ≡ start
    → (after : TensorCatalog) × (add_tensors fs loader catalog tensors ≡ some after)
      × CatalogRun fs loader tensors catalog after
      × NamesFound after.indices_by_name start tensors
unfolding add_tensors
add_tensors-Run fs loader catalog taken start [] complete serves stored unique long = (
  catalog,
  refl,
  record {
    new = [];
    appended = sym (append_nil catalog.tensors);
    matches = tt;
    clean = (λ h. (h, tt), λ h. h.0);
    kept = λ name index e. e;
  },
  tt,
)
add_tensors-Run fs loader catalog taken start (tensor ∷ rest) complete serves stored unique long =
    let (view, served, held) = serves.0 in
    let (middle, ran, first, indices) =
      add_tensor-Run fs loader catalog tensor view complete.0 held in
    let fresh = stored tensor.name unique.0 in
    let here : find tensor.name middle.indices_by_name ≡ some start =
      (ap (λ t. find tensor.name t) indices
        ∙ find-emplace tensor.name tensor.name (length catalog.tensors) catalog.indices_by_name
            fresh)
      ∙ ground (arith, same_refl tensor.name) in
    let next : Stored middle (tensor.name ∷ taken) = λ name apart.
      let absent = stored name (λ among. apart (inr among)) in
      let other : str_eq tensor.name name ≡ false = ground (arith, str_eq_iff tensor.name name) in
      ap (λ t. find name t) indices
      ∙ (find-emplace tensor.name name (length catalog.tensors) catalog.indices_by_name fresh
          ∙ ground arith) in
    let one = DescriptorsOf-one fs loader tensor first.new first.matches in
    let longer : length middle.tensors ≡ suc start =
      ap (λ (t : List TensorRuntimeDescriptor). length t) first.appended
      ∙ omega (arith, length-append catalog.tensors first.new) in
    let (after, run, ih, found) =
      add_tensors-Run fs loader middle (tensor.name ∷ taken) (suc start) rest complete.1 serves.1
        next unique.1 longer in
    (
      after,
      rw (served, ran, run, add_tensors),
      record {
        new = first.new ++ ih.new;
        appended =
            ih.appended
            ∙ (ap (λ t. t ++ ih.new) first.appended
                ∙ append_assoc catalog.tensors first.new ih.new);
        matches =
            DescriptorsOf-cons fs loader tensor rest first.new ih.new first.matches ih.matches;
        clean = (
          λ h.
              let (middle_clean, named) = ih.clean.0 h in
              let (before, own) = first.clean.0 middle_clean in (before, (own.0, named)),
          λ h. ih.clean.1 (first.clean.1 (h.0, (h.1.0, tt)), h.1.1),
        );
        kept = λ name index e. ih.kept name index (first.kept name index e);
      },
      (ih.kept tensor.name start here, found),
    )
