-- ===== src/ModelSchedule/Layers.antt =====
-- The loop of BuildModelSchedule gathers each layer by itself.
use nemotron_inference.Base.{
  ℕ, zero, suc, ◌≡◌, refl, ap, sym, ◌∙◌, inl, inr, List, [], ◌∷◌, ◌++◌, Option, none, some, arith,
  ◌==◌, if◌then◌else◌, length, append_assoc, append_nil, nat_key, string_key, find, find-emplace,
  Option-cases,
}
use nemotron_inference.Manifest.{TensorManifestEntry}
use nemotron_inference.ModelSchedule.{
  LayerPath, parse_layer_path, classify_global_role, GlobalTensorBinding, LayerScheduleEntry,
  ScheduleScan, place_layer, bind_at, schedule_tensor, schedule_tensors,
}
use nemotron_inference.ModelSchedule.Expected.{
  layer_at-update, place_of-update, DistinctLayers-update, layer_at, place_of, layer_or_new,
  bind_path, layer_after, IsIndexed, layer_at-new, place_of-new, DistinctLayers-new,
}

pub layer_at_absent :
    (layers : List LayerScheduleEntry) (index : ℕ)
    → place_of index layers ≡ none
    → layer_at index layers ≡ none
layer_at_absent [] index absent = refl
layer_at_absent (entry ∷ rest) index absent = ground (arith, layer_at_absent rest index)

layer_at_stored :
    (layers : List LayerScheduleEntry) (index place : ℕ)
    → place_of index layers ≡ some place
    → some (layer_or_new index (layer_at index layers)) ≡ layer_at index layers
layer_at_stored [] index place there = ground arith
layer_at_stored (entry ∷ rest) index zero there = ground arith
layer_at_stored (entry ∷ rest) index (suc place) there =
    ground (arith, layer_at_stored rest index place)

-- What place_layer hands on: the place of the layer, with the layer there.
record Placed (own : ℕ) (scan : ScheduleScan) (result : ℕ × ScheduleScan) : Type 0 where
  indexed : IsIndexed result.1
  there : place_of own result.1.layers ≡ some result.0
  layers :
      (index : ℕ)
      → layer_at index result.1.layers ≡ (
          if own == index
          then some (layer_or_new own (layer_at own scan.layers))
          else layer_at index scan.layers)

place_layer-Placed :
    (own : ℕ) (scan : ScheduleScan) → IsIndexed scan → Placed own scan (place_layer own scan)
unfolding place_layer
place_layer-Placed own scan indexed = elim (Option-cases (find own scan.layer_indices)) [
  | inr (place, found) ↦
      let there : place_of own scan.layers ≡ some place = sym (indexed.places own) ∙ found in
      rw (found, place_layer)
        (record {
          indexed = indexed;
          there = there;
          layers = λ index. ground (arith, layer_at_stored scan.layers own place there);
        })
  | inl missing ↦
      let absent : place_of own scan.layers ≡ none = sym (indexed.places own) ∙ missing in
      let no_layer = layer_at_absent scan.layers own absent in
      rw (missing, place_layer)
        (record {
          indexed = record {
            places = λ index. ground (
              arith,
              find-emplace own index (length scan.layers) scan.layer_indices missing,
              place_of-new scan.layers index own absent,
              indexed.places index,
            );
            distinct = DistinctLayers-new scan.layers own absent indexed.distinct;
          };
          there = ground (arith, place_of-new scan.layers own own absent);
          layers = λ index. ground (arith, layer_at-new scan.layers index own absent);
        })
]

-- One tensor: the layers, each by itself.
record Stepped (tensor : TensorManifestEntry) (scan after : ScheduleScan) : Type 0 where
  indexed : IsIndexed after
  layers :
      (index : ℕ)
      → layer_at index after.layers
        ≡ bind_path index tensor (parse_layer_path tensor.name) (layer_at index scan.layers)

bind_at-Stepped :
    (tensor : TensorManifestEntry) (path : LayerPath) (scan : ScheduleScan)
    (result : ℕ × ScheduleScan)
    → Placed path.layer_index scan result
    → parse_layer_path tensor.name ≡ some path
    → Stepped tensor scan (bind_at tensor path.local_name result)
unfolding bind_at
bind_at-Stepped tensor path scan (place, placed_scan) placed named = record {
  indexed = record {
    places = λ index.
        placed.indexed.places index
        ∙ sym (place_of-update tensor path.local_name placed_scan.layers place index);
    distinct =
        DistinctLayers-update tensor path.local_name placed_scan.layers place
          placed.indexed.distinct;
  };
  layers = λ index.
      let own = path.layer_index in
      let updated =
        layer_at-update tensor path.local_name placed_scan.layers place index own placed.there in
      let same = placed.layers own in
      let here = placed.layers index in rw (named) (ground (arith, updated, same, here));
}

schedule_tensor-Stepped :
    (scan : ScheduleScan) (tensor : TensorManifestEntry)
    → IsIndexed scan
    → Stepped tensor scan (schedule_tensor scan tensor)
unfolding schedule_tensor
schedule_tensor-Stepped scan tensor indexed = elim (Option-cases (parse_layer_path tensor.name)) [
  | inl e ↦
      rw (e, schedule_tensor)
        (record {
          indexed = record { places = indexed.places; distinct = indexed.distinct };
          layers = λ index. rw e;
        })
  | inr (path, e) ↦
      rw (e, schedule_tensor)
        (bind_at-Stepped tensor path scan (place_layer path.layer_index scan)
          (place_layer-Placed path.layer_index scan indexed) e)
]

pub schedule_tensors-layer_after :
    (scan : ScheduleScan) (tensors : List TensorManifestEntry) (index : ℕ)
    → IsIndexed scan
    → layer_at index (schedule_tensors scan tensors).layers
      ≡ layer_after index tensors (layer_at index scan.layers)
unfolding schedule_tensors
schedule_tensors-layer_after scan [] index indexed = refl
schedule_tensors-layer_after scan (tensor ∷ rest) index indexed =
    let stepped = schedule_tensor-Stepped scan tensor indexed in
    schedule_tensors-layer_after (schedule_tensor scan tensor) rest index stepped.indexed
    ∙ ap (layer_after index rest) (stepped.layers index)

pub schedule_tensors-IsIndexed :
    (scan : ScheduleScan) (tensors : List TensorManifestEntry)
    → IsIndexed scan
    → IsIndexed (schedule_tensors scan tensors)
unfolding schedule_tensors
schedule_tensors-IsIndexed scan [] indexed = indexed
schedule_tensors-IsIndexed scan (tensor ∷ rest) indexed =
    let stepped = schedule_tensor-Stepped scan tensor indexed in
    schedule_tensors-IsIndexed (schedule_tensor scan tensor) rest stepped.indexed

-- The tensors of no layer, in order.
abbrev pub global_path : TensorManifestEntry → Option LayerPath → List GlobalTensorBinding
global_path tensor none =
    record {
      tensor_name = tensor.name;
      op_class = tensor.op_class;
      role = classify_global_role tensor.name;
    }
    ∷ []
global_path tensor (some path) = []

abbrev pub globals_of : List TensorManifestEntry → List GlobalTensorBinding
globals_of [] = []
globals_of (tensor ∷ rest) = global_path tensor (parse_layer_path tensor.name) ++ globals_of rest

place_layer-globals :
    (own : ℕ) (scan : ScheduleScan)
    → (place_layer own scan).1.global_bindings ≡ scan.global_bindings
unfolding place_layer
place_layer-globals own scan = elim (Option-cases (find own scan.layer_indices)) [
  | inl e ↦ rw (e, place_layer)
  | inr (place, e) ↦ rw (e, place_layer)
]

bind_at-globals :
    (tensor : TensorManifestEntry) (local_name : List ℕ) (own : ℕ) (scan : ScheduleScan)
    → (bind_at tensor local_name (place_layer own scan)).global_bindings ≡ scan.global_bindings
unfolding bind_at
bind_at-globals tensor local_name own scan = place_layer-globals own scan

schedule_tensor-globals :
    (scan : ScheduleScan) (tensor : TensorManifestEntry)
    → (schedule_tensor scan tensor).global_bindings
      ≡ scan.global_bindings ++ global_path tensor (parse_layer_path tensor.name)
unfolding schedule_tensor
schedule_tensor-globals scan tensor = elim (Option-cases (parse_layer_path tensor.name)) [
  | inl e ↦ rw (e, schedule_tensor)
  | inr (path, e) ↦
      rw (e, schedule_tensor, append_nil scan.global_bindings)
        (bind_at-globals tensor path.local_name path.layer_index scan)
]

pub schedule_tensors-globals_of :
    (scan : ScheduleScan) (tensors : List TensorManifestEntry)
    → (schedule_tensors scan tensors).global_bindings ≡ scan.global_bindings ++ globals_of tensors
unfolding schedule_tensors
schedule_tensors-globals_of scan [] = sym (append_nil scan.global_bindings)
schedule_tensors-globals_of scan (tensor ∷ rest) =
    schedule_tensors-globals_of (schedule_tensor scan tensor) rest
    ∙ (ap (λ t. t ++ globals_of rest) (schedule_tensor-globals scan tensor)
        ∙ append_assoc scan.global_bindings (global_path tensor (parse_layer_path tensor.name))
            (globals_of rest))
