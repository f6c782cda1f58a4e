-- ===== src/ArtifactLoader/Served.antt =====
-- Opening a loader tensor by tensor, and finding each tensor again.
use nemotron_inference.Base.{
  ℕ, zero, suc, ◌+◌, ◌≡◌, refl, ap, sym, subst, ◌∙◌, inl, inr, false, List, [], ◌∷◌, none, some,
  arith, get_elem?, string_key, str_eq, str_eq_iff, find, emplace, find-emplace, find-emplace_kept,
  Bool-cases, Option-cases, Among, same_refl,
}
use mathlib.Core.Option.{some-injective}
use nemotron_inference.Manifest.{
  TensorManifestEntry, PackedModelManifest, has_manifest_errors, validate_manifest,
}
use nemotron_inference.Manifest.Complete.{Unique, tensor_names}
use nemotron_inference.Manifest.WellFormed.{validate_manifest-IsWellFormed}
use nemotron_inference.ArtifactLoader.{
  FileSystem, ArtifactLoadMode, TensorArtifactView, ArtifactLoader, new_loader, view_range,
  open_tensor, open_tensors, open_verified_with_mode, view_tensor, find_artifact,
}
use nemotron_inference.ArtifactLoader.Located.{Keyed}
use nemotron_inference.ArtifactLoader.Opened.{TensorHeld, view_tensor-Held}
use nemotron_inference.ArtifactLoader.Covers.{
  Covers, Extends-Covers, view_tensor-Covers, OpenedTensor, open_tensor-Opened, InView,
}

abbrev AllInView : FileSystem → ArtifactLoader → ℕ → List TensorManifestEntry → Type 0
AllInView fs impl tensor_index [] = Unit
AllInView fs impl tensor_index (tensor ∷ rest) =
    InView fs impl tensor_index tensor × AllInView fs impl (suc tensor_index) rest

-- The part of a loader that later tensors keep.
record Grows (fs : FileSystem) (impl after : ArtifactLoader) : Type 0 where
  manifest : after.manifest ≡ impl.manifest
  path : after.manifest_path ≡ impl.manifest_path
  mode : after.load_mode ≡ impl.load_mode
  keyed : Keyed fs impl → Keyed fs after
  indices :
      (name : List ℕ) (index : ℕ)
      → find name impl.tensor_indices ≡ some index
      → find name after.tensor_indices ≡ some index
  views :
      (tensor : TensorManifestEntry) (view : TensorArtifactView)
      → view_tensor fs impl tensor ≡ some view
      → view_tensor fs after tensor ≡ some view

-- The names stored so far are among the taken ones.
abbrev Stored : ArtifactLoader → List (List ℕ) → Type 0
Stored impl taken = (name : List ℕ) → (¬ Among name taken) → find name impl.tensor_indices ≡ none

record OpenedAll (fs : FileSystem) (impl after : ArtifactLoader) (tensor_index : ℕ)
    (tensors : List TensorManifestEntry) : Type 0 where
  grows : Grows fs impl after
  all : AllInView fs after tensor_index tensors

-- The indices of the tensors play no part in a view.
indexed-Covers :
    (fs : FileSystem) (impl : ArtifactLoader) (indices : List (List ℕ × ℕ))
    → Covers fs impl (record impl { tensor_indices = indices })
unfolding view_range
indexed-Covers fs impl indices = record {
  path = refl;
  views = λ file offset_bytes nbytes bytes v. v;
}

Grows-trans :
    (fs : FileSystem) (a b c : ArtifactLoader) → Grows fs a b → Grows fs b c → Grows fs a c
Grows-trans fs a b c h k = record {
  manifest = k.manifest ∙ h.manifest;
  path = k.path ∙ h.path;
  mode = k.mode ∙ h.mode;
  keyed = λ start. k.keyed (h.keyed start);
  indices = λ name index e. k.indices name index (h.indices name index e);
  views = λ tensor view e. k.views tensor view (h.views tensor view e);
}

open_tensor-Grows :
    (fs : FileSystem) (impl after : ArtifactLoader) (tensor_index : ℕ)
    (tensor : TensorManifestEntry)
    → OpenedTensor fs impl after tensor_index tensor
    → Grows fs impl after
open_tensor-Grows fs impl after tensor_index tensor opened =
    let indices = emplace tensor.name tensor_index impl.tensor_indices in
    record {
      manifest = opened.grown.manifest;
      path = opened.grown.path;
      mode = opened.grown.mode;
      keyed = opened.grown.keyed;
      indices = λ name index e.
          ap (λ t. find name t) opened.grown.indices
          ∙ find-emplace_kept tensor.name name tensor_index index impl.tensor_indices e;
      views = λ other view e.
          let indexed : ArtifactLoader = record impl { tensor_indices = indices } in
          view_tensor-Covers fs indexed after other view
            (Extends-Covers fs indexed after opened.grown)
            (view_tensor-Covers fs impl indexed other view (indexed-Covers fs impl indices) e);
    }

open_tensors-All :
    (fs : FileSystem) (impl after : ArtifactLoader) (taken : List (List ℕ)) (tensor_index : ℕ)
    (tensors : List TensorManifestEntry)
    → open_tensors fs impl tensor_index tensors ≡ some after
    → Stored impl taken
    → Unique taken (tensor_names tensors)
    → OpenedAll fs impl after tensor_index tensors
unfolding open_tensors
open_tensors-All fs impl after taken tensor_index [] ok stored unique =
    subst (λ t. OpenedAll fs impl t tensor_index []) (some-injective _ _ ok)
      (record {
        grows = record {
          manifest = refl;
          path = refl;
          mode = refl;
          keyed = λ k. k;
          indices = λ name index e. e;
          views = λ tensor view e. e;
        };
        all = tt;
      })
open_tensors-All fs impl after taken tensor_index (tensor ∷ rest) ok stored unique =
    elim (Option-cases (open_tensor fs impl tensor_index tensor)) [
      | inl e ↦ absurd (ground arith)
      | inr (middle, e) ↦
          let opened = open_tensor-Opened fs impl middle tensor_index tensor e in
          let fresh = stored tensor.name unique.0 in
          let names = ap (λ t. find tensor.name t) opened.grown.indices in
          let here : find tensor.name middle.tensor_indices ≡ some tensor_index =
            (names ∙ find-emplace tensor.name tensor.name tensor_index impl.tensor_indices fresh)
            ∙ ground (arith, same_refl tensor.name) in
          let next : Stored middle (tensor.name ∷ taken) = λ name apart.
            let absent = stored name (λ among. apart (inr among)) in
            let other : str_eq tensor.name name ≡ false =
              ground (arith, str_eq_iff tensor.name name) in
            ap (λ t. find name t) opened.grown.indices
            ∙ (find-emplace tensor.name name tensor_index impl.tensor_indices fresh
                ∙ ground arith) in
          let ih =
            open_tensors-All fs middle after (tensor.name ∷ taken) (suc tensor_index) rest
              (ground arith) next unique.1 in
          record {
            grows =
                Grows-trans fs impl middle after
                  (open_tensor-Grows fs impl middle tensor_index tensor opened) ih.grows;
            all = (
              record {
                indexed = ih.grows.indices tensor.name tensor_index here;
                view = opened.view;
                viewed = ih.grows.views tensor opened.view opened.viewed;
              },
              ih.all,
            );
          }
    ]

shown_at :
    (fs : FileSystem) (impl : ArtifactLoader) (start : ℕ) (tensors : List TensorManifestEntry)
    (index : ℕ) (tensor : TensorManifestEntry)
    → AllInView fs impl start tensors
    → get_elem? tensors index ≡ some tensor
    → InView fs impl (start + index) tensor
shown_at fs impl start [] index tensor all e = absurd (cc)
shown_at fs impl start (first ∷ rest) zero tensor all e =
    let here : start + 0 ≡ start = omega arith in
    subst (λ k. InView fs impl k tensor) (sym here)
      (subst (InView fs impl start) (some-injective _ _ e) all.0)
shown_at fs impl start (first ∷ rest) (suc index) tensor all e =
    let further : suc start + index ≡ start + suc index = omega arith in
    subst (λ k. InView fs impl k tensor) further
      (shown_at fs impl (suc start) rest index tensor all.1 e)

find_artifact-InView :
    (fs : FileSystem) (impl : ArtifactLoader) (index : ℕ) (tensor : TensorManifestEntry)
    → (shown : InView fs impl index tensor) → get_elem? impl.manifest.tensors index ≡ some tensor
    → find_artifact fs impl tensor.name ≡ some shown.view
unfolding find_artifact
find_artifact-InView fs impl index tensor shown there =
    rw (shown.indexed, there, find_artifact) shown.viewed

-- A loader that OpenVerifiedWithMode returned has the manifest's path and the mode, and finds every tensor
-- of the manifest by its name, with a view of exactly its range and of that of each of its auxiliaries in
-- order: inside a file that the loader opened, with its size, mapped or read whole as the mode says, from a
-- path that leads where the file's name in the manifest leads, taken beside the manifest if it is relative.
pub open_verified_with_mode-Served :
    (fs : FileSystem) (manifest : PackedModelManifest) (manifest_path : List ℕ)
    (mode : ArtifactLoadMode) (loader : ArtifactLoader) (index : ℕ) (tensor : TensorManifestEntry)
    → open_verified_with_mode fs manifest manifest_path mode ≡ some loader
    → get_elem? manifest.tensors index ≡ some tensor
    → ((loader.manifest_path ≡ manifest_path) × (loader.load_mode ≡ mode))
      × ((view : TensorArtifactView) × (find_artifact fs loader tensor.name ≡ some view)
          × TensorHeld fs loader tensor view)
unfolding open_verified_with_mode find new_loader
open_verified_with_mode-Served fs manifest manifest_path mode loader index tensor ok there =
    elim (Bool-cases (has_manifest_errors (validate_manifest manifest))) [
      | inl e ↦ absurd (ground arith)
      | inr e ↦
          let formed = (validate_manifest-IsWellFormed manifest).0 e in
          let opened =
            open_tensors-All fs (new_loader manifest manifest_path mode) loader [] 0
              manifest.tensors (ground arith) (λ name apart. refl) formed.unique in
          let same : loader.manifest ≡ manifest = opened.grows.manifest in
          let shown = shown_at fs loader 0 manifest.tensors index tensor opened.all there in
          let position : 0 + index ≡ index = omega arith in
          let own : get_elem? loader.manifest.tensors (0 + index) ≡ some tensor =
            subst (λ (m : PackedModelManifest). get_elem? m.tensors (0 + index) ≡ some tensor)
              (sym same)
              (subst (λ (k : ℕ). get_elem? manifest.tensors k ≡ some tensor) (sym position)
                there) in
          let keyed : Keyed fs loader = opened.grows.keyed (λ key place e. absurd (cc)) in
          (
            (opened.grows.path, opened.grows.mode),
            (
              shown.view,
              find_artifact-InView fs loader (0 + index) tensor shown own,
              view_tensor-Held fs loader tensor shown.view keyed shown.viewed,
            ),
          )
    ]
