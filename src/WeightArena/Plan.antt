-- ===== src/WeightArena/Plan.antt =====
-- BuildWeightArenaPlan as a whole.
use nemotron_inference.Base.{
  ◌<◌, ◌≡◌, ◌⊎◌, ap, sym, subst, inl, inr, true, false, not, arith, word, Bool-cases,
}
use nemotron_inference.Manifest.{has_manifest_errors}
use nemotron_inference.TensorCatalog.{TensorCatalog}
use nemotron_inference.WeightArena.{
  WeightArenaPlan, place_tensors, empty_plan, finish_plan, build_weight_arena_plan,
}
use nemotron_inference.WeightArena.Laid.{Laid, buffers_of, room, Alignable}
use nemotron_inference.WeightArena.Placed.{
  TensorsPlaced, packed_sum, auxiliaries_sum, Mapped, place_tensors-Run,
}

-- What a plan for a catalog is: the buffers lie one behind another in the arena, and either the plan is
-- valid, places every tensor in order and gives the sums, or it is not, and the catalog has an error or a
-- tensor without bytes.
abbrev pub PlanFor : TensorCatalog → WeightArenaPlan → Type 0
PlanFor catalog plan =
    Laid 0 (buffers_of plan.tensors) plan.total_arena_bytes
    × (((plan.valid ≡ true)
          × (TensorsPlaced catalog.tensors plan.tensors
              × ((plan.packed_tensor_bytes ≡ packed_sum catalog.tensors)
                  × (plan.auxiliary_bytes ≡ auxiliaries_sum catalog.tensors))))
        ⊎ ((plan.valid ≡ false)
            × ((has_manifest_errors catalog.issues ≡ true) ⊎ ¬ Mapped catalog.tensors)))

finish_plan-PlanFor :
    (catalog : TensorCatalog)
    → Alignable catalog.tensors
    → room catalog.tensors < word
    → PlanFor catalog (finish_plan (place_tensors catalog.tensors 0 (empty_plan catalog.issues)))
unfolding finish_plan
finish_plan-PlanFor catalog aligned fits =
    let run =
      place_tensors-Run catalog.tensors 0 (empty_plan catalog.issues) (omega arith) aligned
        (omega arith) in
    let result = place_tensors catalog.tensors 0 (empty_plan catalog.issues) in
    let same = sym run.appended in
    (
      subst (λ t. Laid 0 (buffers_of t) result.0) same run.laid,
      elim (Bool-cases (has_manifest_errors result.1.issues)) [
        | inr clean ↦
            let packed = run.packed clean in
            let auxiliary = run.auxiliary clean in
            inl (
              ap not clean,
              (
                subst (λ t. TensorsPlaced catalog.tensors t) same (run.placed clean),
                (omega arith, omega arith),
              ),
            )
        | inl bad ↦ inr (
          ap not bad,
          elim (Bool-cases (has_manifest_errors catalog.issues)) [
            | inl before ↦ inl before
            | inr before ↦ inr (λ mapped. let clean = run.clean before mapped in absurd (cc))
          ],
        )
      ],
    )

-- For a valid catalog whose alignments are not zero and whose buffers with their alignments come to less
-- than a word, the buffers of the plan lie one behind another within the arena, each at a multiple of its
-- alignment; and either the plan is valid, has a placement for every tensor of the catalog, in order, with
-- all its buffers, and gives the sums of their sizes, or it is not, and the catalog has an error or a tensor
-- without bytes.
pub build_weight_arena_plan-PlanFor :
    (catalog : TensorCatalog)
    → catalog.valid ≡ true
    → Alignable catalog.tensors
    → room catalog.tensors < word
    → PlanFor catalog (build_weight_arena_plan catalog)
unfolding build_weight_arena_plan
build_weight_arena_plan-PlanFor catalog valid aligned fits =
    let whole : build_weight_arena_plan catalog
        ≡ finish_plan (place_tensors catalog.tensors 0 (empty_plan catalog.issues)) =
      ground arith in
    subst (PlanFor catalog) (sym whole) (finish_plan-PlanFor catalog aligned fits)
