-- ===== src/ArtifactLoader/Opened.antt =====
-- An opened loader serves every tensor of its manifest.
use nemotron_inference.Base.{
  ℕ, ◌+◌, ◌≤◌, ◌≡◌, refl, ap, sym, subst, ◌∙◌, inl, inr, List, [], ◌∷◌, some, arith, add64,
  get_elem?, string_key, Bool-cases, Option-cases,
}
use mathlib.Core.Option.{some-injective}
use nemotron_inference.GemmExecution.{ByteRangeView}
use nemotron_inference.Manifest.{TensorAuxiliaryManifest, TensorManifestEntry}
use nemotron_inference.ArtifactLoader.{
  FileSystem, normalize_path_key, AuxiliaryArtifactView, TensorArtifactView, resolve_manifest_path,
  range_fits, MappedFile, ArtifactLoader, view_file, view_range, view_auxiliaries, view_tensor,
}
use nemotron_inference.ArtifactLoader.Located.{
  location, normalize_path_key-location, Names, resolve_manifest_path-Names, Loaded, Keyed,
}
use nemotron_inference.ArtifactLoader.Views.{view_range-InFile}

-- A view of these bytes of the file that the manifest names: the loader holds a file from a path that leads
-- to the same place, and the range is inside it.
pub record Held (fs : FileSystem) (impl : ArtifactLoader) (file : List ℕ) (offset_bytes nbytes : ℕ)
    (bytes : ByteRangeView) : Type 0 where
  pub path : List ℕ
  pub named : Names fs impl.manifest_path file path
  pub index : ℕ
  pub mapped_file : MappedFile
  pub there : get_elem? impl.mapped_files index ≡ some mapped_file
  pub same_place : location fs mapped_file.path ≡ location fs path
  pub loaded : Loaded fs impl.load_mode mapped_file
  pub within : offset_bytes + nbytes ≤ mapped_file.size
  pub bytes_size : bytes.size ≡ nbytes
  pub bytes_address : bytes.address ≡ add64 mapped_file.address offset_bytes

view_range-Held :
    (fs : FileSystem) (impl : ArtifactLoader) (file : List ℕ) (offset_bytes nbytes : ℕ)
    (bytes : ByteRangeView)
    → Keyed fs impl
    → view_range fs impl (resolve_manifest_path fs impl.manifest_path file) offset_bytes nbytes
      ≡ some bytes
    → Held fs impl file offset_bytes nbytes bytes
unfolding view_file range_fits
view_range-Held fs impl file offset_bytes nbytes bytes keyed v =
    let path = resolve_manifest_path fs impl.manifest_path file in
    let h = view_range-InFile fs impl path offset_bytes nbytes bytes v in
    let at_key = keyed (normalize_path_key fs path) h.index h.found in
    let mapped_file = at_key.mapped_file in
    let same_file : h.mapped_file ≡ mapped_file = some-injective _ _ (sym h.there ∙ at_key.there) in
    let viewed : view_file mapped_file offset_bytes nbytes ≡ some bytes =
      ap (λ f. view_file f offset_bytes nbytes) (sym same_file) ∙ h.viewed in
    elim (Bool-cases (range_fits mapped_file.size offset_bytes nbytes)) [
      | inr e ↦ absurd (ground arith)
      | inl e ↦
          let view : ByteRangeView = record {
            address = add64 mapped_file.address offset_bytes;
            size = nbytes;
          } in
          let same : some view ≡ some bytes = ground arith in
          let equal : view ≡ bytes = some-injective _ _ same in
          record {
            path = path;
            named = resolve_manifest_path-Names fs impl.manifest_path file;
            index = h.index;
            mapped_file = mapped_file;
            there = at_key.there;
            same_place = at_key.leads ∙ normalize_path_key-location fs path;
            loaded = at_key.loaded;
            within = ground arith;
            bytes_size = sym (ap (λ (b : ByteRangeView). b.size) equal);
            bytes_address = sym (ap (λ (b : ByteRangeView). b.address) equal);
          }
    ]

-- The views of a tensor's auxiliaries, one for each, in order.
abbrev pub AuxiliariesHeld :
    FileSystem → ArtifactLoader → List TensorAuxiliaryManifest → List AuxiliaryArtifactView → Type 0
AuxiliariesHeld fs impl [] [] = Unit
AuxiliariesHeld fs impl [] (_ ∷ _) = ⊥
AuxiliariesHeld fs impl (_ ∷ _) [] = ⊥
AuxiliariesHeld fs impl (auxiliary ∷ rest) (view ∷ views) =
    ((view.name ≡ auxiliary.name)
      × Held fs impl auxiliary.file auxiliary.offset_bytes auxiliary.nbytes view.bytes)
    × AuxiliariesHeld fs impl rest views

pub record TensorHeld (fs : FileSystem) (impl : ArtifactLoader) (tensor : TensorManifestEntry)
    (view : TensorArtifactView) : Type 0 where
  pub entry : view.manifest_entry ≡ tensor
  pub packed : Held fs impl tensor.packed_file tensor.offset_bytes tensor.nbytes view.packed_bytes
  pub auxiliaries : AuxiliariesHeld fs impl tensor.auxiliaries view.auxiliaries

view_auxiliaries-Held :
    (fs : FileSystem) (impl : ArtifactLoader) (auxiliaries : List TensorAuxiliaryManifest)
    (views : List AuxiliaryArtifactView)
    → Keyed fs impl
    → view_auxiliaries fs impl auxiliaries ≡ some views
    → AuxiliariesHeld fs impl auxiliaries views
unfolding view_auxiliaries
view_auxiliaries-Held fs impl [] views keyed v =
    subst (AuxiliariesHeld fs impl []) (some-injective _ _ v) tt
view_auxiliaries-Held fs impl (auxiliary ∷ rest) views keyed v =
    let file = resolve_manifest_path fs impl.manifest_path auxiliary.file in
    elim (Option-cases (view_range fs impl file auxiliary.offset_bytes auxiliary.nbytes)) [
      | inl e ↦ absurd (ground arith)
      | inr (bytes, e) ↦ elim (Option-cases (view_auxiliaries fs impl rest)) [
        | inl g ↦ absurd (ground arith)
        | inr (more, g) ↦
            let view : AuxiliaryArtifactView = record { name = auxiliary.name; bytes = bytes } in
            let same : some (view ∷ more) ≡ some views = ground arith in
            subst (AuxiliariesHeld fs impl (auxiliary ∷ rest)) (some-injective _ _ same) (
              (
                refl,
                view_range-Held fs impl auxiliary.file auxiliary.offset_bytes auxiliary.nbytes bytes
                    keyed e,
              ),
              view_auxiliaries-Held fs impl rest more keyed g,
            )
      ]
    ]

pub view_tensor-Held :
    (fs : FileSystem) (impl : ArtifactLoader) (tensor : TensorManifestEntry)
    (view : TensorArtifactView)
    → Keyed fs impl
    → view_tensor fs impl tensor ≡ some view
    → TensorHeld fs impl tensor view
unfolding view_tensor
view_tensor-Held fs impl tensor view keyed v =
    let file = resolve_manifest_path fs impl.manifest_path tensor.packed_file in
    elim (Option-cases (view_range fs impl file tensor.offset_bytes tensor.nbytes)) [
      | inl e ↦ absurd (ground arith)
      | inr (bytes, e) ↦ elim (Option-cases (view_auxiliaries fs impl tensor.auxiliaries)) [
        | inl g ↦ absurd (ground arith)
        | inr (views, g) ↦
            let whole : TensorArtifactView = record {
              manifest_entry = tensor;
              packed_bytes = bytes;
              auxiliaries = views;
            } in
            let same : some whole ≡ some view = ground arith in
            subst (TensorHeld fs impl tensor) (some-injective _ _ same) (record {
              entry = refl;
              packed =
                  view_range-Held fs impl tensor.packed_file tensor.offset_bytes tensor.nbytes bytes
                    keyed e;
              auxiliaries = view_auxiliaries-Held fs impl tensor.auxiliaries views keyed g;
            })
      ]
    ]
