-- ===== src/Manifest/Examples.antt =====
-- The theorem on ValidateManifest at the sample.
use nemotron_inference.Base.{◌≡◌, ◌↔◌, false}
use nemotron_inference.Manifest.{has_manifest_errors, validate_manifest}
use nemotron_inference.Manifest.Complete.{IsWellFormed}
use nemotron_inference.Manifest.WellFormed.{validate_manifest-IsWellFormed}
use nemotron_inference.Manifest.Sample.{sample}

validate_manifest-IsWellFormed_example :
    (has_manifest_errors (validate_manifest sample) ≡ false) ↔ IsWellFormed sample
validate_manifest-IsWellFormed_example = validate_manifest-IsWellFormed sample
