-- ===== src/TensorCatalog/Scan.antt =====
-- The loop over a tensor's auxiliaries: their descriptors and their roles.
use nemotron_inference.Base.{
  ℕ, ◌≡◌, refl, ap, sym, ◌∙◌, inl, inr, ◌⊎◌, ◌↔◌, Bool, true, false, List, [], some, arith,
  string_key, text, member, member_iff, Among,
}
use nemotron_inference.Manifest.{
  TensorManifestEntry, Issues, add_error, has_manifest_errors, scaled,
}
use nemotron_inference.Manifest.Errors.{has_manifest_errors-add_error}
use nemotron_inference.Manifest.Complete.{Unique, auxiliary_names}
use nemotron_inference.ArtifactLoader.{AuxiliaryArtifactView}
use nemotron_inference.TensorCatalog.{
  is_scaled_tensor, AuxiliaryScan, fresh_scan, scan_auxiliaries, require_scales,
}
use nemotron_inference.TensorCatalog.Roles.{
  described, SameLength, block_name, scale_name, after_names, scan_auxiliaries-Scanned,
  Among-after_names,
}

-- A tensor that has a scale has a buffer of each of the two names.
abbrev pub ScalesNamed : TensorManifestEntry → Type 0
ScalesNamed tensor =
    (scaled tensor ≡ false)
    ⊎ (Among block_name (auxiliary_names tensor.auxiliaries)
        × Among scale_name (auxiliary_names tensor.auxiliaries))

require_scales_iff :
    (tensor : TensorManifestEntry) (scan : AuxiliaryScan)
    → (has_manifest_errors (require_scales tensor scan) ≡ false) ↔ (
        (has_manifest_errors scan.issues ≡ false)
        × ((scaled tensor ≡ false)
            ⊎ ((scan.saw_block_scales ≡ true) × (scan.saw_tensor_scale ≡ true))))
unfolding require_scales is_scaled_tensor
require_scales_iff tensor scan =
    let first = text "scaled tensor is missing required block_scales auxiliary descriptor" in
    let second = text "scaled tensor is missing required tensor_scale auxiliary descriptor" in
    let one = has_manifest_errors-add_error scan.issues tensor.name first in
    let two = has_manifest_errors-add_error scan.issues tensor.name second in
    let both =
      has_manifest_errors-add_error (add_error scan.issues tensor.name first) tensor.name second in
    ground arith

seen_iff :
    (key : List ℕ) (names : List (List ℕ)) (flag : Bool)
    → flag ≡ member key (after_names [] names)
    → (flag ≡ true) ↔ Among key names
seen_iff key names flag e =
    let tested = member_iff key (after_names [] names) in
    let among = Among-after_names key [] names in
    (
      λ h. elim (among.0 (tested.0 (sym e ∙ h))) [ inl gone ↦ absurd gone | inr there ↦ there ],
      λ there. e ∙ tested.1 (among.1 (inr there)),
    )

-- The whole loop and the demand behind it, for a tensor whose buffers have names of their own.
pub record Resolved (tensor : TensorManifestEntry) (views : List AuxiliaryArtifactView)
    (issues : Issues) (after : AuxiliaryScan) : Type 0 where
  pub clean :
      (has_manifest_errors (require_scales tensor after) ≡ false)
      ↔ ((has_manifest_errors issues ≡ false) × ScalesNamed tensor)
  pub auxiliaries : after.auxiliaries ≡ described tensor.auxiliaries views

pub scan_auxiliaries-Resolved :
    (tensor : TensorManifestEntry) (views : List AuxiliaryArtifactView) (issues : Issues)
    → Unique [] (auxiliary_names tensor.auxiliaries)
    → SameLength tensor.auxiliaries views
    → (after : AuxiliaryScan) × (scan_auxiliaries tensor.name tensor.auxiliaries views
          (fresh_scan issues)
        ≡ some after)
      × Resolved tensor views issues after
unfolding member
scan_auxiliaries-Resolved tensor views issues unique same =
    let (after, run, scanned) =
      scan_auxiliaries-Scanned tensor.name [] tensor.auxiliaries views (fresh_scan issues)
        (record { block = refl; scale = refl }) unique same in
    let names = auxiliary_names tensor.auxiliaries in
    let block = seen_iff block_name names after.saw_block_scales scanned.saw.block in
    let scale = seen_iff scale_name names after.saw_tensor_scale scanned.saw.scale in
    let errors : has_manifest_errors after.issues ≡ has_manifest_errors issues =
      ap has_manifest_errors scanned.issues in
    let demand = require_scales_iff tensor after in
    (
      after,
      run,
      record {
        clean = (
          λ h.
              let (before, seen) = demand.0 h in
              (
                sym errors ∙ before,
                elim seen [ inl plain ↦ inl plain | inr (b, t) ↦ inr (block.0 b, scale.0 t) ],
              ),
          λ h. demand.1 (
            errors ∙ h.0,
            elim h.1 [ inl plain ↦ inl plain | inr (b, t) ↦ inr (block.1 b, scale.1 t) ],
          ),
        );
        auxiliaries = scanned.auxiliaries;
      },
    )
