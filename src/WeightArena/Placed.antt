-- ===== src/WeightArena/Placed.antt =====
-- The loop over the tensors: the placements it makes, and the sums of their sizes.
use nemotron_inference.Base.{
  ℕ, ◌+◌, ◌<◌, ◌≤◌, ◌≡◌, ◌≢◌, refl, ap, sym, subst, ◌∙◌, inl, inr, true, false, List, [], ◌∷◌, ◌++◌,
  arith, add64, word, append_assoc, append_nil, text, Bool-cases,
}
use nemotron_inference.GemmExecution.{range_valid}
use nemotron_inference.Manifest.{has_manifest_errors}
use nemotron_inference.Manifest.Errors.{has_manifest_errors-add_error}
use nemotron_inference.TensorCatalog.{TensorRuntimeDescriptor}
use nemotron_inference.WeightArena.{
  align_up, WeightArenaTensorPlacement, WeightArenaPlan, placement, place_packed, place_auxiliaries,
  place_tensor, place_tensors,
}
use nemotron_inference.WeightArena.Align.{align_up-next}
use nemotron_inference.WeightArena.Laid.{
  Laid, Laid-append, buffers_of, auxiliary_sum, room, Alignable, AuxiliariesPlaced,
  place_auxiliaries-Run,
}

-- A placement for every tensor, in order, with the sizes and the bytes of the catalog.
abbrev pub TensorsPlaced : List TensorRuntimeDescriptor → List WeightArenaTensorPlacement → Type 0
TensorsPlaced [] [] = Unit
TensorsPlaced [] (_ ∷ _) = ⊥
TensorsPlaced (_ ∷ _) [] = ⊥
TensorsPlaced (tensor ∷ rest) (placement ∷ placements) =
    ((placement.tensor_name ≡ tensor.manifest_entry.name)
      × ((placement.packed_buffer ≡ place_packed tensor placement.packed_buffer.arena_offset_bytes)
          × AuxiliariesPlaced tensor.auxiliaries placement.auxiliary_buffers))
    × TensorsPlaced rest placements

abbrev pub packed_sum : List TensorRuntimeDescriptor → ℕ
packed_sum [] = 0
packed_sum (tensor ∷ rest) = tensor.manifest_entry.nbytes + packed_sum rest

abbrev pub auxiliaries_sum : List TensorRuntimeDescriptor → ℕ
auxiliaries_sum [] = 0
auxiliaries_sum (tensor ∷ rest) = auxiliary_sum tensor.auxiliaries + auxiliaries_sum rest

-- Every tensor has its bytes.
abbrev pub Mapped : List TensorRuntimeDescriptor → Type 0
Mapped [] = Unit
Mapped (tensor ∷ rest) = (range_valid tensor.packed_bytes ≡ true) × Mapped rest

-- What the loop over the tensors does to a plan, from a cursor on.
pub record TensorRun (tensors : List TensorRuntimeDescriptor) (cursor : ℕ) (plan : WeightArenaPlan)
    (result : ℕ × WeightArenaPlan) : Type 0 where
  pub new : List WeightArenaTensorPlacement
  pub appended : result.1.tensors ≡ plan.tensors ++ new
  pub laid : Laid cursor (buffers_of new) result.0
  pub within : result.0 ≤ cursor + room tensors
  pub fewer : result.1.packed_tensor_bytes + result.1.auxiliary_bytes ≤ result.0
  pub before : has_manifest_errors result.1.issues ≡ false → has_manifest_errors plan.issues ≡ false
  pub clean :
      has_manifest_errors plan.issues ≡ false
      → Mapped tensors
      → has_manifest_errors result.1.issues ≡ false
  pub placed : has_manifest_errors result.1.issues ≡ false → TensorsPlaced tensors new
  pub packed :
      has_manifest_errors result.1.issues ≡ false
      → result.1.packed_tensor_bytes ≡ plan.packed_tensor_bytes + packed_sum tensors
  pub auxiliary :
      has_manifest_errors result.1.issues ≡ false
      → result.1.auxiliary_bytes ≡ plan.auxiliary_bytes + auxiliaries_sum tensors

abbrev one_tensor : TensorRuntimeDescriptor → List TensorRuntimeDescriptor
one_tensor tensor = tensor ∷ []

place_tensor-Run :
    (tensor : TensorRuntimeDescriptor) (cursor : ℕ) (plan : WeightArenaPlan)
    → cursor + room (one_tensor tensor) < word
    → tensor.manifest_entry.alignment_bytes ≢ 0
    → plan.packed_tensor_bytes + plan.auxiliary_bytes ≤ cursor
    → TensorRun (one_tensor tensor) cursor plan (place_tensor tensor cursor plan)
unfolding place_tensor
place_tensor-Run tensor cursor plan fits aligned below =
    elim (Bool-cases (range_valid tensor.packed_bytes)) [
      | inr e ↦
          let message = text "tensor catalog entry is missing packed bytes" in
          let added =
            has_manifest_errors-add_error plan.issues tensor.manifest_entry.name message in
          rw (e, place_tensor)
            (record {
              new = [];
              appended = sym (append_nil plan.tensors);
              laid = omega arith;
              within = omega arith;
              fewer = below;
              before = λ h. absurd (cc);
              clean = λ h m. let mapped = m.0 in absurd (cc);
              placed = λ h. absurd (cc);
              packed = λ h. absurd (cc);
              auxiliary = λ h. absurd (cc);
            })
      | inl e ↦
          let alignment = tensor.manifest_entry.alignment_bytes in
          let nbytes = tensor.manifest_entry.nbytes in
          let offset = align_up cursor alignment in
          let (multiple, low, high) = align_up-next cursor alignment (omega arith) (omega arith) in
          let end : add64 offset nbytes ≡ offset + nbytes = omega arith in
          let run =
            place_auxiliaries-Run tensor.auxiliaries (add64 offset nbytes) plan.auxiliary_bytes
              (omega arith) (omega arith) in
          let result =
            place_auxiliaries tensor.auxiliaries (add64 offset nbytes) plan.auxiliary_bytes in
          let within = run.within in
          let summed = run.summed in
          let grown = run.grown in
          let sum : add64 plan.packed_tensor_bytes nbytes ≡ plan.packed_tensor_bytes + nbytes =
            omega arith in
          rw (e, place_tensor)
            (record {
              new = placement tensor offset result.0 ∷ [];
              appended = refl;
              laid = (
                (low, multiple),
                Laid-append (offset + nbytes) result.1.0 result.1.0 result.0 []
                    (subst (λ k. Laid k result.0 result.1.0) end run.laid) (omega arith),
              );
              within = omega arith;
              fewer = omega arith;
              before = λ h. h;
              clean = λ h m. h;
              placed = λ h. ((refl, (refl, run.placed)), tt);
              packed = λ h. omega arith;
              auxiliary = λ h. omega arith;
            })
    ]

buffers_of-append :
    (xs ys : List WeightArenaTensorPlacement)
    → buffers_of (xs ++ ys) ≡ buffers_of xs ++ buffers_of ys
buffers_of-append [] ys = refl
buffers_of-append (x ∷ xs) ys =
    ap (λ t. x.packed_buffer ∷ t)
      (ap (λ t. x.auxiliary_buffers ++ t) (buffers_of-append xs ys)
        ∙ sym (append_assoc x.auxiliary_buffers (buffers_of xs) (buffers_of ys)))

TensorsPlaced-cons :
    (tensor : TensorRuntimeDescriptor) (rest : List TensorRuntimeDescriptor)
    (xs ys : List WeightArenaTensorPlacement)
    → TensorsPlaced (one_tensor tensor) xs
    → TensorsPlaced rest ys
    → TensorsPlaced (tensor ∷ rest) (xs ++ ys)
TensorsPlaced-cons tensor rest [] ys h k = absurd h
TensorsPlaced-cons tensor rest (x ∷ []) ys h k = (h.0, k)
TensorsPlaced-cons tensor rest (x ∷ (y ∷ xs)) ys h k = absurd h.1

pub place_tensors-Run :
    (tensors : List TensorRuntimeDescriptor) (cursor : ℕ) (plan : WeightArenaPlan)
    → cursor + room tensors < word
    → Alignable tensors
    → plan.packed_tensor_bytes + plan.auxiliary_bytes ≤ cursor
    → TensorRun tensors cursor plan (place_tensors tensors cursor plan)
unfolding place_tensors
place_tensors-Run [] cursor plan fits aligned below = record {
  new = [];
  appended = sym (append_nil plan.tensors);
  laid = omega arith;
  within = omega arith;
  fewer = below;
  before = λ h. h;
  clean = λ h m. h;
  placed = λ h. tt;
  packed = λ h. omega arith;
  auxiliary = λ h. omega arith;
}
place_tensors-Run (tensor ∷ rest) cursor plan fits aligned below =
    let first = place_tensor-Run tensor cursor plan (omega arith) aligned.0 below in
    let middle = (place_tensor tensor cursor plan).0 in
    let placed_plan = (place_tensor tensor cursor plan).1 in
    let within = first.within in
    let ih = place_tensors-Run rest middle placed_plan (omega arith) aligned.1 first.fewer in
    let further = ih.within in
    record {
      new = first.new ++ ih.new;
      appended =
          ih.appended
          ∙ (ap (λ t. t ++ ih.new) first.appended ∙ append_assoc plan.tensors first.new ih.new);
      laid =
          subst (λ t. Laid cursor t (place_tensors rest middle placed_plan).0)
            (sym (buffers_of-append first.new ih.new))
            (Laid-append cursor middle (place_tensors rest middle placed_plan).0
              (buffers_of first.new) (buffers_of ih.new) first.laid ih.laid);
      within = omega arith;
      fewer = ih.fewer;
      before = λ h. first.before (ih.before h);
      clean = λ h m. ih.clean (first.clean h (m.0, tt)) m.1;
      placed = λ h.
          TensorsPlaced-cons tensor rest first.new ih.new (first.placed (ih.before h))
            (ih.placed h);
      packed = λ h. let p = ih.packed h in let q = first.packed (ih.before h) in omega arith;
      auxiliary =
          λ h. let p = ih.auxiliary h in let q = first.auxiliary (ih.before h) in omega arith;
    }
