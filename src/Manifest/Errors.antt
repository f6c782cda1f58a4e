-- ===== src/Manifest/Errors.antt =====
-- What a run of checks leaves behind.
use Prim.Native.String.{String}
use nemotron_inference.Base.{
  ℕ, ◌≡◌, refl, ◌↔◌, Bool, true, false, ◌||◌, List, [], ◌∷◌, ◌++◌, arith, text,
}
use nemotron_inference.Manifest.{Issues, error, add_issue, add_error, has_manifest_errors, report}

pub has_manifest_errors-append :
    (issues more : Issues)
    → has_manifest_errors (issues ++ more)
      ≡ (has_manifest_errors issues || has_manifest_errors more)
unfolding has_manifest_errors
has_manifest_errors-append [] more = refl
has_manifest_errors-append (issue ∷ rest) more =
    ground (arith, has_manifest_errors-append rest more)

pub has_manifest_errors-add_error :
    (issues : Issues) (tensor_name message : List ℕ)
    → has_manifest_errors (add_error issues tensor_name message) ≡ true
unfolding add_error add_issue has_manifest_errors
has_manifest_errors-add_error issues tensor_name message = ground (
  arith,
  has_manifest_errors-append issues
      (record { severity = error; tensor_name = tensor_name; message = message } ∷ []),
)

-- No check of the list found anything.
abbrev pub Clean : List (Bool × String) → Type 0
Clean [] = Unit
Clean ((bad, message) ∷ rest) = (bad ≡ false) × Clean rest

-- Checks add no error exactly when none found anything.
pub report-Clean :
    (tensor_name : List ℕ) (checks : List (Bool × String)) (issues : Issues)
    → (has_manifest_errors (report tensor_name checks issues) ≡ false)
      ↔ ((has_manifest_errors issues ≡ false) × Clean checks)
unfolding report
report-Clean tensor_name [] issues = ground arith
report-Clean tensor_name ((true, message) ∷ rest) issues =
    let added = has_manifest_errors-add_error issues tensor_name (text message) in
    ground
      (arith, report-Clean tensor_name rest (add_error issues tensor_name (text message)), added)
report-Clean tensor_name ((false, message) ∷ rest) issues =
    ground (arith, report-Clean tensor_name rest issues)
