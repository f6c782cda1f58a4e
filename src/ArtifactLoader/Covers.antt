-- ===== src/ArtifactLoader/Covers.antt =====
-- A loader that covers a tensor's ranges views them; opening a tensor covers them, and later tensors keep them.
use nemotron_inference.Base.{
  ℕ, ◌≡◌, refl, sym, subst, ◌∙◌, inl, inr, List, [], ◌∷◌, some, arith, string_key, find, emplace,
  Option-cases,
}
use mathlib.Core.Option.{some-injective}
use nemotron_inference.GemmExecution.{ByteRangeView}
use nemotron_inference.Manifest.{TensorAuxiliaryManifest, TensorManifestEntry}
use nemotron_inference.ArtifactLoader.{
  FileSystem, AuxiliaryArtifactView, TensorArtifactView, resolve_manifest_path, ArtifactLoader,
  view_range, map_range, map_auxiliaries, open_tensor, view_auxiliaries, view_tensor,
}
use nemotron_inference.ArtifactLoader.Views.{
  Extends, Extends-refl, Extends-trans, map_range-MappedRange,
}

-- A range of the grown loader, by its own path of the manifest.
still :
    (fs : FileSystem) (impl after : ArtifactLoader) (file : List ℕ) (offset_bytes nbytes : ℕ)
    (bytes : ByteRangeView)
    → after.manifest_path ≡ impl.manifest_path
    → view_range fs after (resolve_manifest_path fs impl.manifest_path file) offset_bytes nbytes
      ≡ some bytes
    → view_range fs after (resolve_manifest_path fs after.manifest_path file) offset_bytes nbytes
      ≡ some bytes
still fs impl after file offset_bytes nbytes bytes path v =
    subst
      (λ p. view_range fs after (resolve_manifest_path fs p file) offset_bytes nbytes ≡ some bytes)
      (sym path) v

pub record Covers (fs : FileSystem) (impl after : ArtifactLoader) : Type 0 where
  pub path : after.manifest_path ≡ impl.manifest_path
  pub views :
      (file : List ℕ) (offset_bytes nbytes : ℕ) (bytes : ByteRangeView)
      → view_range fs impl file offset_bytes nbytes ≡ some bytes
      → view_range fs after file offset_bytes nbytes ≡ some bytes

pub Extends-Covers :
    (fs : FileSystem) (impl after : ArtifactLoader) → Extends fs impl after → Covers fs impl after
Extends-Covers fs impl after h = record { path = h.path; views = h.views }

view_auxiliaries-Covers :
    (fs : FileSystem) (impl after : ArtifactLoader) (auxiliaries : List TensorAuxiliaryManifest)
    (views : List AuxiliaryArtifactView)
    → Covers fs impl after
    → view_auxiliaries fs impl auxiliaries ≡ some views
    → view_auxiliaries fs after auxiliaries ≡ some views
unfolding view_auxiliaries
view_auxiliaries-Covers fs impl after [] views grown v = v
view_auxiliaries-Covers fs impl after (auxiliary ∷ rest) views grown v =
    let file = resolve_manifest_path fs impl.manifest_path auxiliary.file in
    elim (Option-cases (view_range fs impl file auxiliary.offset_bytes auxiliary.nbytes)) [
      | inl e ↦ absurd (ground arith)
      | inr (bytes, e) ↦ elim (Option-cases (view_auxiliaries fs impl rest)) [
        | inl g ↦ absurd (ground arith)
        | inr (more, g) ↦
            let kept =
              still fs impl after auxiliary.file auxiliary.offset_bytes auxiliary.nbytes bytes
                grown.path (grown.views file auxiliary.offset_bytes auxiliary.nbytes bytes e) in
            let ih = view_auxiliaries-Covers fs impl after rest more grown g in
            rw (kept, ih, view_auxiliaries) (ground arith)
      ]
    ]

pub view_tensor-Covers :
    (fs : FileSystem) (impl after : ArtifactLoader) (tensor : TensorManifestEntry)
    (view : TensorArtifactView)
    → Covers fs impl after
    → view_tensor fs impl tensor ≡ some view
    → view_tensor fs after tensor ≡ some view
unfolding view_tensor
view_tensor-Covers fs impl after tensor view grown v =
    let file = resolve_manifest_path fs impl.manifest_path tensor.packed_file in
    elim (Option-cases (view_range fs impl file tensor.offset_bytes tensor.nbytes)) [
      | inl e ↦ absurd (ground arith)
      | inr (bytes, e) ↦ elim (Option-cases (view_auxiliaries fs impl tensor.auxiliaries)) [
        | inl g ↦ absurd (ground arith)
        | inr (views, g) ↦
            let kept =
              still fs impl after tensor.packed_file tensor.offset_bytes tensor.nbytes bytes
                grown.path (grown.views file tensor.offset_bytes tensor.nbytes bytes e) in
            let more = view_auxiliaries-Covers fs impl after tensor.auxiliaries views grown g in
            rw (kept, more, view_tensor) (ground arith)
      ]
    ]

-- A mapped tensor: the loader grew, and every range of the tensor is in view.
record MappedAuxiliaries (fs : FileSystem) (impl after : ArtifactLoader)
    (auxiliaries : List TensorAuxiliaryManifest) : Type 0 where
  pub grown : Extends fs impl after
  pub views : List AuxiliaryArtifactView
  pub viewed : view_auxiliaries fs after auxiliaries ≡ some views

map_auxiliaries-Mapped :
    (fs : FileSystem) (impl after : ArtifactLoader) (auxiliaries : List TensorAuxiliaryManifest)
    → map_auxiliaries fs impl auxiliaries ≡ some after
    → MappedAuxiliaries fs impl after auxiliaries
unfolding map_auxiliaries view_auxiliaries
map_auxiliaries-Mapped fs impl after [] ok =
    subst (λ t. MappedAuxiliaries fs impl t []) (some-injective _ _ ok)
      (record { grown = Extends-refl fs impl; views = []; viewed = refl })
map_auxiliaries-Mapped fs impl after (auxiliary ∷ rest) ok =
    let file = resolve_manifest_path fs impl.manifest_path auxiliary.file in
    elim (Option-cases (map_range fs impl file auxiliary.offset_bytes auxiliary.nbytes)) [
      | inl e ↦ absurd (ground arith)
      | inr (mapped, e) ↦
          let first =
            map_range-MappedRange fs impl mapped file auxiliary.offset_bytes auxiliary.nbytes e in
          let ih = map_auxiliaries-Mapped fs mapped after rest (ground arith) in
          let kept =
            still fs impl after auxiliary.file auxiliary.offset_bytes auxiliary.nbytes first.bytes
              (ih.grown.path ∙ first.grown.path)
              (ih.grown.views file auxiliary.offset_bytes auxiliary.nbytes first.bytes
                first.viewed) in
          record {
            grown = Extends-trans fs impl mapped after first.grown ih.grown;
            views = record { name = auxiliary.name; bytes = first.bytes } ∷ ih.views;
            viewed = rw (kept, ih.viewed, view_auxiliaries);
          }
    ]

-- What opening one tensor does.
pub record OpenedTensor (fs : FileSystem) (impl after : ArtifactLoader) (tensor_index : ℕ)
    (tensor : TensorManifestEntry) : Type 0 where
  pub grown :
      Extends fs
        (record impl { tensor_indices = emplace tensor.name tensor_index impl.tensor_indices })
        after
  pub view : TensorArtifactView
  pub viewed : view_tensor fs after tensor ≡ some view

pub open_tensor-Opened :
    (fs : FileSystem) (impl after : ArtifactLoader) (tensor_index : ℕ)
    (tensor : TensorManifestEntry)
    → open_tensor fs impl tensor_index tensor ≡ some after
    → OpenedTensor fs impl after tensor_index tensor
unfolding open_tensor view_tensor
open_tensor-Opened fs impl after tensor_index tensor ok =
    let indexed : ArtifactLoader = record impl {
      tensor_indices = emplace tensor.name tensor_index impl.tensor_indices;
    } in
    let file = resolve_manifest_path fs impl.manifest_path tensor.packed_file in
    elim (Option-cases (map_range fs indexed file tensor.offset_bytes tensor.nbytes)) [
      | inl e ↦ absurd (ground arith)
      | inr (mapped, e) ↦
          let first =
            map_range-MappedRange fs indexed mapped file tensor.offset_bytes tensor.nbytes e in
          let more = map_auxiliaries-Mapped fs mapped after tensor.auxiliaries (ground arith) in
          let kept =
            still fs indexed after tensor.packed_file tensor.offset_bytes tensor.nbytes first.bytes
              (more.grown.path ∙ first.grown.path)
              (more.grown.views file tensor.offset_bytes tensor.nbytes first.bytes first.viewed) in
          record {
            grown = Extends-trans fs indexed mapped after first.grown more.grown;
            view = record {
              manifest_entry = tensor;
              packed_bytes = first.bytes;
              auxiliaries = more.views;
            };
            viewed = rw (kept, more.viewed, view_tensor);
          }
    ]

-- A tensor under its index and in view.
pub record InView (fs : FileSystem) (impl : ArtifactLoader) (tensor_index : ℕ)
    (tensor : TensorManifestEntry) : Type 0 where
  pub indexed : find tensor.name impl.tensor_indices ≡ some tensor_index
  pub view : TensorArtifactView
  pub viewed : view_tensor fs impl tensor ≡ some view
