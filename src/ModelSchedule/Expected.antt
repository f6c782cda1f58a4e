-- ===== src/ModelSchedule/Expected.antt =====
-- The layers of a manifest, said without the places that the scan keeps.
use nemotron_inference.Base.{
  ℕ, zero, suc, ◌≡◌, refl, ◌∙◌, List, [], ◌∷◌, ◌++◌, Option, none, some, arith, ◌==◌, if◌then◌else◌,
  length, nat_key, string_key, find,
}
use nemotron_inference.Manifest.{TensorManifestEntry}
use nemotron_inference.ModelSchedule.{
  LayerPath, parse_layer_path, LayerScheduleEntry, new_layer, bind_tensor, ScheduleScan,
  update_layer,
}

-- The first layer with an index, and its place.
abbrev pub layer_at : ℕ → List LayerScheduleEntry → Option LayerScheduleEntry
layer_at index [] = none
layer_at index (entry ∷ rest) =
    if entry.layer_index == index then some entry else layer_at index rest

abbrev pub shifted : Option ℕ → Option ℕ
shifted none = none
shifted (some n) = some (suc n)

abbrev pub place_of : ℕ → List LayerScheduleEntry → Option ℕ
place_of index [] = none
place_of index (entry ∷ rest) =
    if entry.layer_index == index then some 0 else shifted (place_of index rest)

-- What one tensor does to the layer with an index, if there is one yet.
abbrev pub layer_or_new : ℕ → Option LayerScheduleEntry → LayerScheduleEntry
layer_or_new index none = new_layer index
layer_or_new index (some entry) = entry

abbrev pub bind_path :
    ℕ
    → TensorManifestEntry
    → Option LayerPath
    → Option LayerScheduleEntry
    → Option LayerScheduleEntry
bind_path index tensor none layer = layer
bind_path index tensor (some path) layer =
    if path.layer_index == index
    then some (bind_tensor tensor path.local_name (layer_or_new index layer))
    else layer

-- The layer with an index after all tensors: each of its own tensors is bound, in order.
abbrev pub layer_after :
    ℕ → List TensorManifestEntry → Option LayerScheduleEntry → Option LayerScheduleEntry
layer_after index [] layer = layer
layer_after index (tensor ∷ rest) layer =
    layer_after index rest (bind_path index tensor (parse_layer_path tensor.name) layer)

-- No two layers have the same index.
abbrev pub DistinctLayers : List LayerScheduleEntry → Type 0
DistinctLayers [] = Unit
DistinctLayers (entry ∷ rest) = (place_of entry.layer_index rest ≡ none) × DistinctLayers rest

-- The map knows the place of every layer.
pub record IsIndexed (scan : ScheduleScan) : Type 0 where
  pub places : (index : ℕ) → find index scan.layer_indices ≡ place_of index scan.layers
  pub distinct : DistinctLayers scan.layers

pub layer_at-new :
    (layers : List LayerScheduleEntry) (index new : ℕ)
    → place_of new layers ≡ none
    → layer_at index (layers ++ (new_layer new ∷ []))
      ≡ (if new == index then some (new_layer new) else layer_at index layers)
layer_at-new [] index new absent = refl
layer_at-new (entry ∷ rest) index new absent = ground (arith, layer_at-new rest index new)

pub place_of-new :
    (layers : List LayerScheduleEntry) (index new : ℕ)
    → place_of new layers ≡ none
    → place_of index (layers ++ (new_layer new ∷ []))
      ≡ (if new == index then some (length layers) else place_of index layers)
place_of-new [] index new absent = refl
place_of-new (entry ∷ rest) index new absent = ground (arith, place_of-new rest index new)

pub DistinctLayers-new :
    (layers : List LayerScheduleEntry) (new : ℕ)
    → place_of new layers ≡ none
    → DistinctLayers layers
    → DistinctLayers (layers ++ (new_layer new ∷ []))
DistinctLayers-new [] new absent h = (refl, tt)
DistinctLayers-new (entry ∷ rest) new absent h = (
  ground (arith, place_of-new rest entry.layer_index new),
  DistinctLayers-new rest new (ground arith) h.1,
)

module _ (tensor : TensorManifestEntry) (local_name : List ℕ) where
  pub layer_at-update :
      (layers : List LayerScheduleEntry) (place index own : ℕ)
      → place_of own layers ≡ some place
      → layer_at index (update_layer (bind_tensor tensor local_name) place layers) ≡ (
          if own == index
          then some (bind_tensor tensor local_name (layer_or_new own (layer_at own layers)))
          else layer_at index layers)
  unfolding update_layer bind_tensor
  layer_at-update [] place index own there = ground arith
  layer_at-update (entry ∷ rest) zero index own there = ground arith
  layer_at-update (entry ∷ rest) (suc place) index own there =
      ground (arith, layer_at-update rest place index own)

  pub place_of-update :
      (layers : List LayerScheduleEntry) (place index : ℕ)
      → place_of index (update_layer (bind_tensor tensor local_name) place layers)
        ≡ place_of index layers
  unfolding update_layer bind_tensor
  place_of-update [] place index = refl
  place_of-update (entry ∷ rest) zero index = refl
  place_of-update (entry ∷ rest) (suc place) index =
      ground (arith, place_of-update rest place index)

  pub DistinctLayers-update :
      (layers : List LayerScheduleEntry) (place : ℕ)
      → DistinctLayers layers
      → DistinctLayers (update_layer (bind_tensor tensor local_name) place layers)
  unfolding update_layer bind_tensor
  DistinctLayers-update [] place h = tt
  DistinctLayers-update (entry ∷ rest) zero h = h
  DistinctLayers-update (entry ∷ rest) (suc place) h =
      (place_of-update rest place entry.layer_index ∙ h.0, DistinctLayers-update rest place h.1)
