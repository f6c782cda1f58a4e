-- ===== src/ManifestFile/Loaded.antt =====
-- What LoadManifestFromJsonFile and LoadVerifiedManifestFromJsonFile stand for when they succeed.
use nemotron_inference.Base.{
  ℕ, ◌≡◌, refl, subst, sym, ◌↔◌, ◌⊎◌, inl, inr, true, false, not, List, [], ◌++◌, Option, none,
  some, arith, Bool-cases,
}
use nemotron_inference.Manifest.{has_manifest_errors, validate_manifest}
use nemotron_inference.Manifest.Errors.{has_manifest_errors-append}
use nemotron_inference.Manifest.Complete.{IsWellFormed}
use nemotron_inference.Manifest.WellFormed.{validate_manifest-IsWellFormed}
use nemotron_inference.Json.{
  JsonValue, null, boolean, integer, string, array, object, JsonObject, Parsed, parsed, thrown,
  exhausted, parse_json,
}
use nemotron_inference.ManifestFile.{
  ManifestLoadResult, read_manifest, load_object, load_root, load_text,
  load_manifest_from_json_file,
}
use nemotron_inference.ManifestFile.Files.{
  ManifestFiles, verify_manifest_files, verify_loaded, load_verified_manifest_from_json_file,
}
use nemotron_inference.ManifestFile.Ranges.{TensorsVerified}
use nemotron_inference.ManifestFile.Verified.{verify_manifest_files-Verified}

-- A loaded manifest is well formed and no issue is an error.
abbrev pub Sound : ManifestLoadResult → Type 0
Sound result =
    result.ok ≡ true → (IsWellFormed result.manifest × (has_manifest_errors result.issues ≡ false))

load_object-Sound : (members : JsonObject) → Sound (load_object members)
unfolding load_object
load_object-Sound members ok =
    let manifest = (read_manifest members []).0 in
    let before = (read_manifest members []).1 in
    let split = has_manifest_errors-append before (validate_manifest manifest) in
    let formed = validate_manifest-IsWellFormed manifest in
    elim (Bool-cases (has_manifest_errors (before ++ validate_manifest manifest))) [
      | inl e ↦ absurd (ground arith)
      | inr e ↦ rw (e, load_object) (formed.0 (ground arith), e)
    ]

load_root-Sound : (root : JsonValue) → Sound (load_root root)
unfolding load_root
load_root-Sound null ok = absurd (cc)
load_root-Sound (boolean b) ok = absurd (cc)
load_root-Sound (integer n) ok = absurd (cc)
load_root-Sound (string s) ok = absurd (cc)
load_root-Sound (array elements) ok = absurd (cc)
load_root-Sound (object members) ok = load_object-Sound members ok

load_text-Sound : (input : List ℕ) → Sound (load_text input)
unfolding load_text
load_text-Sound input = outcome (parse_json input) refl
  where
    outcome : (p : Parsed JsonValue) → parse_json input ≡ p → Sound (load_text input)
    outcome (parsed root rest) e = rw (e, load_text) (load_root-Sound root)
    outcome (thrown error) e = rw (e, load_text) (λ ok. absurd (cc))
    outcome exhausted e = rw (e, load_text) (λ ok. absurd (cc))

pub load_manifest_from_json_file-Sound :
    (manifest_path : List ℕ) (contents : Option (List ℕ))
    → Sound (load_manifest_from_json_file manifest_path contents)
unfolding load_manifest_from_json_file
load_manifest_from_json_file-Sound manifest_path none ok = absurd (cc)
load_manifest_from_json_file-Sound manifest_path (some contents) ok = load_text-Sound contents ok

verify_loaded-Verified :
    (files : ManifestFiles) (manifest_path : List ℕ) (loaded : ManifestLoadResult)
    → Sound loaded
    → (((verify_loaded files manifest_path loaded).ok ≡ true)
        ↔ ((loaded.ok ≡ true) × TensorsVerified files manifest_path loaded.manifest.tensors))
      × ((verify_loaded files manifest_path loaded).manifest ≡ loaded.manifest)
unfolding verify_loaded
verify_loaded-Verified files manifest_path loaded sound =
    let verified = verify_manifest_files-Verified files loaded.manifest manifest_path in
    let added = verify_manifest_files files loaded.manifest manifest_path in
    let split = has_manifest_errors-append loaded.issues added in
    elim (Bool-cases loaded.ok) [
      | inl ok ↦
          let clean = (sound ok).1 in
          let kept : (verify_loaded files manifest_path loaded).ok
              ≡ not (has_manifest_errors added) =
            ground arith in
          let same : (verify_loaded files manifest_path loaded).manifest ≡ loaded.manifest =
            ground arith in
          (
            (λ e. (ok, verified.0 (ground arith)), λ h. let fine = verified.1 h.1 in ground arith),
            same,
          )
      | inr refused ↦
          let kept : (verify_loaded files manifest_path loaded).ok ≡ false = ground arith in
          let same : (verify_loaded files manifest_path loaded).manifest ≡ loaded.manifest =
            ground arith in
          ((λ e. absurd (cc), λ h. let ok = h.0 in absurd (cc)), same)
    ]

-- LoadVerifiedManifestFromJsonFile either is ok, and returns the manifest that was loaded, which is well
-- formed and whose files are verified, or is not, and the manifest did not load or the files are not as it
-- says.
pub load_verified_manifest_from_json_file_decides :
    (files : ManifestFiles) (manifest_path : List ℕ)
    → let loaded = load_manifest_from_json_file manifest_path (files.contents manifest_path) in
      let result = load_verified_manifest_from_json_file files manifest_path in
      ((result.ok ≡ true)
        × ((result.manifest ≡ loaded.manifest)
            × (IsWellFormed result.manifest
                × TensorsVerified files manifest_path result.manifest.tensors)))
      ⊎ ((result.ok ≡ false)
          × ((loaded.ok ≡ false) ⊎ ¬ TensorsVerified files manifest_path loaded.manifest.tensors))
unfolding load_verified_manifest_from_json_file
load_verified_manifest_from_json_file_decides files manifest_path =
    let loaded = load_manifest_from_json_file manifest_path (files.contents manifest_path) in
    let result = load_verified_manifest_from_json_file files manifest_path in
    let sound = load_manifest_from_json_file-Sound manifest_path (files.contents manifest_path) in
    let (iff, same) = verify_loaded-Verified files manifest_path loaded sound in
    let back = sym same in
    elim (Bool-cases result.ok) [
      | inl ok ↦
          let (was, verified) = iff.0 ok in
          inl (
            ok,
            (
              same,
              (
                subst IsWellFormed back (sound was).0,
                subst (λ m. TensorsVerified files manifest_path m.tensors) back verified,
              ),
            ),
          )
      | inr refused ↦ inr (
        refused,
        elim (Bool-cases loaded.ok) [
          | inr was ↦ inl was
          | inl was ↦ inr (λ verified. let ok = iff.1 (was, verified) in absurd (cc))
        ],
      )
    ]
