-- ===== src/ModelSchedule/Order.antt =====
-- The layers of a schedule: sorted, each found under its index.
use nemotron_inference.Base.{
  ℕ, zero, suc, ◌+◌, ◌<◌, ◌≤◌, ◌≡◌, refl, ap, sym, ◌∙◌, inl, inr, List, [], ◌∷◌, Option, none, some,
  arith, ltb, ◌==◌, get_elem?, nat_key, find, assign, find-assign, Bool-cases, Option-cases,
}
use nemotron_inference.Manifest.{PackedModelManifest, Issues, validate_manifest}
use nemotron_inference.Manifest.Complete.{IsWellFormed}
use nemotron_inference.Manifest.WellFormed.{validate_manifest-IsWellFormed}
use nemotron_inference.ModelSchedule.{
  LayerScheduleEntry, ModelSchedule, find_layer, insert_layer, sort_layers, index_layers,
  schedule_tensors, empty_scan, finish_schedule, build_model_schedule,
}
use nemotron_inference.ModelSchedule.Expected.{
  layer_at, place_of, layer_after, DistinctLayers, IsIndexed,
}
use nemotron_inference.ModelSchedule.Layers.{
  schedule_tensors-layer_after, schedule_tensors-IsIndexed, globals_of, schedule_tensors-globals_of,
  layer_at_absent,
}

-- The first of the layers lies above an index.
abbrev pub StartsAbove : ℕ → List LayerScheduleEntry → Type 0
StartsAbove low [] = Unit
StartsAbove low (entry ∷ rest) = low < entry.layer_index

abbrev pub Ascending : List LayerScheduleEntry → Type 0
Ascending [] = Unit
Ascending (entry ∷ rest) = StartsAbove entry.layer_index rest × Ascending rest

insert_layer-StartsAbove :
    (low : ℕ) (entry : LayerScheduleEntry) (layers : List LayerScheduleEntry)
    → low < entry.layer_index
    → StartsAbove low layers
    → StartsAbove low (insert_layer entry layers)
unfolding insert_layer
insert_layer-StartsAbove low entry [] above h = above
insert_layer-StartsAbove low entry (next ∷ rest) above h = ground arith

insert_layer-Ascending :
    (entry : LayerScheduleEntry) (layers : List LayerScheduleEntry)
    → layer_at entry.layer_index layers ≡ none
    → Ascending layers
    → Ascending (insert_layer entry layers)
unfolding insert_layer
insert_layer-Ascending entry [] absent h = (tt, tt)
insert_layer-Ascending entry (next ∷ rest) absent h =
    elim (Bool-cases (ltb next.layer_index entry.layer_index)) [
      | inl e ↦
          rw (e, insert_layer)
            (
              insert_layer-StartsAbove next.layer_index entry rest (ground arith) h.0,
              insert_layer-Ascending entry rest (ground arith) h.1,
            )
      | inr e ↦ rw (e, insert_layer) (ground arith, h)
    ]

layer_at-insert_layer :
    (index : ℕ) (entry : LayerScheduleEntry) (layers : List LayerScheduleEntry)
    → layer_at entry.layer_index layers ≡ none
    → layer_at index (insert_layer entry layers) ≡ layer_at index (entry ∷ layers)
unfolding insert_layer
layer_at-insert_layer index entry [] absent = refl
layer_at-insert_layer index entry (next ∷ rest) absent =
    ground (arith, layer_at-insert_layer index entry rest)

layer_at-sort_layers :
    (index : ℕ) (layers : List LayerScheduleEntry)
    → DistinctLayers layers
    → layer_at index (sort_layers layers) ≡ layer_at index layers
unfolding sort_layers
layer_at-sort_layers index [] h = refl
layer_at-sort_layers index (entry ∷ rest) h =
    let absent =
      layer_at-sort_layers entry.layer_index rest h.1
      ∙ layer_at_absent rest entry.layer_index h.0 in
    ground (
      arith,
      layer_at-insert_layer index entry (sort_layers rest) absent,
      layer_at-sort_layers index rest h.1,
    )

sort_layers-Ascending :
    (layers : List LayerScheduleEntry) → DistinctLayers layers → Ascending (sort_layers layers)
unfolding sort_layers
sort_layers-Ascending [] h = tt
sort_layers-Ascending (entry ∷ rest) h =
    insert_layer-Ascending entry (sort_layers rest)
      (layer_at-sort_layers entry.layer_index rest h.1 ∙ layer_at_absent rest entry.layer_index h.0)
      (sort_layers-Ascending rest h.1)

above-none :
    (low index : ℕ) (layers : List LayerScheduleEntry)
    → index ≤ low
    → StartsAbove low layers
    → Ascending layers
    → place_of index layers ≡ none
above-none low index [] le h a = refl
above-none low index (entry ∷ rest) le h a = ground (arith, above-none entry.layer_index index rest)

-- The last loop stores the place of every layer.
abbrev place_from : ℕ → Option ℕ → Option ℕ → Option ℕ
place_from start none before = before
place_from start (some n) before = some (start + n)

find-index_layers :
    (index start : ℕ) (layers : List LayerScheduleEntry) (indices : List (ℕ × ℕ))
    → Ascending layers
    → find index (index_layers start layers indices)
      ≡ place_from start (place_of index layers) (find index indices)
unfolding index_layers
find-index_layers index start [] indices h = refl
find-index_layers index start (entry ∷ rest) indices h =
    let ih =
      find-index_layers index (suc start) rest (assign entry.layer_index start indices) h.1 in
    let assigned = find-assign entry.layer_index index start indices in
    elim (Option-cases (place_of index rest)) [
      | inl e ↦ ground arith
      | inr (place, e) ↦ elim (Bool-cases (entry.layer_index == index)) [
        | inr other ↦ ground arith
        | inl same ↦
            let absent = above-none entry.layer_index index rest (ground arith) h.0 h.1 in
            ground arith
      ]
    ]

get_elem?-place_of :
    (index : ℕ) (layers : List LayerScheduleEntry) (place : ℕ)
    → place_of index layers ≡ some place
    → get_elem? layers place ≡ layer_at index layers
get_elem?-place_of index [] place e = ground arith
get_elem?-place_of index (entry ∷ rest) zero e = ground arith
get_elem?-place_of index (entry ∷ rest) (suc place) e =
    ground (arith, get_elem?-place_of index rest place)

-- What the schedule of a manifest is, described for each layer by itself.
pub record ScheduleOf (manifest : PackedModelManifest) (schedule : ModelSchedule) : Type 0 where
  pub ascending : Ascending schedule.ordered_layers
  pub layers : (index : ℕ) → find_layer schedule index ≡ layer_after index manifest.tensors none
  pub globals : schedule.global_bindings ≡ globals_of manifest.tensors

find_layer-indexed :
    (index : ℕ) (schedule : ModelSchedule)
    → Ascending schedule.ordered_layers
    → schedule.ordered_layer_indices ≡ index_layers 0 schedule.ordered_layers []
    → find_layer schedule index ≡ layer_at index schedule.ordered_layers
unfolding find_layer find
find_layer-indexed index schedule ascending indices =
    let layers = schedule.ordered_layers in
    let stored = ap (λ t. find index t) indices ∙ find-index_layers index 0 layers [] ascending in
    elim (Option-cases (place_of index layers)) [
      | inl e ↦ rw (stored, e, find_layer) (sym (layer_at_absent layers index e))
      | inr (place, e) ↦
          let start : 0 + place ≡ place = omega arith in
          rw (stored, e, start, find_layer) (get_elem?-place_of index layers place e)
    ]

empty_scan-IsIndexed : (issues : Issues) → IsIndexed (empty_scan issues)
unfolding find
empty_scan-IsIndexed issues = record { places = λ index. refl; distinct = tt }

-- BuildModelSchedule on a well-formed manifest gives the layers in ascending order of their index; the
-- layer found under an index is what binding the tensors that name it, in order, makes of a new layer, and
-- none where no tensor does; and the other tensors are the global bindings, in order.
pub build_model_schedule-ScheduleOf :
    (manifest : PackedModelManifest)
    → IsWellFormed manifest
    → ScheduleOf manifest (build_model_schedule manifest)
unfolding build_model_schedule finish_schedule
build_model_schedule-ScheduleOf manifest formed =
    let issues = validate_manifest manifest in
    let clean = (validate_manifest-IsWellFormed manifest).1 formed in
    let scan = schedule_tensors (empty_scan issues) manifest.tensors in
    let start = empty_scan-IsIndexed issues in
    let indexed = schedule_tensors-IsIndexed (empty_scan issues) manifest.tensors start in
    let ascending = sort_layers-Ascending scan.layers indexed.distinct in
    rw (clean, build_model_schedule)
      (record {
        ascending = ascending;
        layers = λ index.
            find_layer-indexed index (finish_schedule manifest scan) ascending refl
            ∙ (layer_at-sort_layers index scan.layers indexed.distinct
                ∙ schedule_tensors-layer_after (empty_scan issues) manifest.tensors index start);
        globals = schedule_tensors-globals_of (empty_scan issues) manifest.tensors;
      })
