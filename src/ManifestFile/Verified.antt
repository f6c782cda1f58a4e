-- ===== src/ManifestFile/Verified.antt =====
-- What VerifyManifestFiles accepts, said without its loops.
use nemotron_inference.Base.{
  ℕ, ◌≡◌, refl, ap, sym, ◌∙◌, ◌↔◌, inl, inr, Bool, true, false, List, [], ◌∷◌, ◌++◌, some, ltb,
  if◌then◌else◌, add64, str_eq, str_eq_iff, text, Bool-cases, Option-cases,
}
use nemotron_inference.Manifest.{
  TensorManifestEntry, PackedModelManifest, Issues, add_error, has_manifest_errors,
}
use nemotron_inference.ArtifactLoader.{resolve_manifest_path}
use nemotron_inference.ManifestFile.Files.{
  ManifestFiles, extract_expected_fnv64, compute_fnv64_for_range, verify_checksum, missing,
  verify_tensor, verify_tensors, verify_manifest_files,
}
use nemotron_inference.ManifestFile.Ranges.{
  HoldsRange, ChecksumMatches, TensorVerified, TensorsVerified, added_error, unchanged, fits_iff,
  not_missing, no_size, verify_auxiliaries-Verified,
}

verify_checksum-Matches :
    (files : ManifestFiles) (tensor : TensorManifestEntry) (path : List ℕ) (issues : Issues)
    → (has_manifest_errors (verify_checksum files tensor path issues) ≡ false)
      ↔ ((has_manifest_errors issues ≡ false) × ChecksumMatches files tensor path)
unfolding verify_checksum
verify_checksum-Matches files tensor path issues =
    elim (Option-cases (extract_expected_fnv64 tensor.checksum)) [
      | inl x ↦
          rw (x, verify_checksum)
            (added_error issues tensor.name
              (text "unsupported checksum format; expected fnv1a64:<hex>")
              (λ h. let found = h.extracted in absurd (cc)))
      | inr (expected, x) ↦
          elim (Option-cases
            (compute_fnv64_for_range files path tensor.offset_bytes tensor.nbytes)) [
              | inl c ↦
                  rw (x, c, verify_checksum)
                    (added_error issues tensor.name
                      (text "unable to compute checksum over packed tensor bytes")
                      (λ h. let found = h.computed in absurd (cc)))
              | inr (actual, c) ↦
                  let equal = str_eq_iff actual expected in
                  elim (Bool-cases (str_eq actual expected)) [
                    | inl s ↦
                        rw (x, c, s, verify_checksum)
                          (unchanged issues (record {
                            checksum = expected;
                            extracted = x;
                            computed = c ∙ ap some (equal.0 s);
                          }))
                    | inr s ↦
                        rw (x, c, s, verify_checksum)
                          (added_error issues tensor.name
                            (text "checksum mismatch for packed tensor bytes")
                            (λ h.
                              let one : some expected ≡ some h.checksum = sym x ∙ h.extracted in
                              let two : some actual ≡ some h.checksum = sym c ∙ h.computed in
                              let same : actual ≡ expected = cc in
                              let match = equal.1 same in absurd (cc)))
                  ]
            ]
    ]

size_report :
    (tensor : TensorManifestEntry) (short : Bool) (issues : Issues) (P : Type 0)
    → (short ≡ false) ↔ P
    → (has_manifest_errors (
          if short
          then add_error issues tensor.name (text "packed file is smaller than required byte range")
          else issues)
        ≡ false)
      ↔ ((has_manifest_errors issues ≡ false) × P)
size_report tensor true issues P p =
    added_error issues tensor.name (text "packed file is smaller than required byte range")
      (λ h. let fine = p.1 h in absurd (cc))
size_report tensor false issues P p = unchanged issues (p.0 refl)

verify_tensor-Verified :
    (files : ManifestFiles) (manifest_path : List ℕ) (tensor : TensorManifestEntry)
    (issues : Issues)
    → (has_manifest_errors (verify_tensor files manifest_path tensor issues) ≡ false)
      ↔ ((has_manifest_errors issues ≡ false) × TensorVerified files manifest_path tensor)
unfolding verify_tensor
verify_tensor-Verified files manifest_path tensor issues =
    let path = resolve_manifest_path files.paths manifest_path tensor.packed_file in
    let offset = tensor.offset_bytes in
    elim (Bool-cases (missing files path)) [
      | inl m ↦
          rw (m, verify_tensor)
            (added_error issues tensor.name (text "packed file not found: " ++ path)
              (λ h. not_missing files path offset tensor.nbytes m h.0))
      | inr m ↦ elim (Option-cases (files.paths.file_size path)) [
        | inl s ↦
            rw (m, s, verify_tensor)
              (added_error issues tensor.name (text "unable to read packed file size: " ++ path)
                (λ h. no_size files path offset tensor.nbytes s h.0))
        | inr (size, s) ↦
            let short = ltb size (add64 offset tensor.nbytes) in
            let first =
              size_report tensor short issues (HoldsRange files path offset tensor.nbytes)
                (fits_iff files path offset tensor.nbytes size m s) in
            let sized =
              if short
              then add_error issues tensor.name
                  (text "packed file is smaller than required byte range")
              else issues in
            let second = verify_checksum-Matches files tensor path sized in
            let third =
              verify_auxiliaries-Verified files manifest_path tensor.name tensor.auxiliaries
                (verify_checksum files tensor path sized) in
            rw (m, s, verify_tensor)
              (
                λ clean.
                    let (two, buffers) = third.0 clean in
                    let (one, sum) = second.0 two in
                    let (before, holds) = first.0 one in (before, (holds, (sum, buffers))),
                λ h.
                    let (before, (holds, (sum, buffers))) = h in
                    third.1 (second.1 (first.1 (before, holds), sum), buffers),
              )
      ]
    ]

verify_tensors-Verified :
    (files : ManifestFiles) (manifest_path : List ℕ) (tensors : List TensorManifestEntry)
    (issues : Issues)
    → (has_manifest_errors (verify_tensors files manifest_path tensors issues) ≡ false)
      ↔ ((has_manifest_errors issues ≡ false) × TensorsVerified files manifest_path tensors)
unfolding verify_tensors
verify_tensors-Verified files manifest_path [] issues = unchanged issues tt
verify_tensors-Verified files manifest_path (tensor ∷ rest) issues =
    let after = verify_tensor files manifest_path tensor issues in
    let first = verify_tensor-Verified files manifest_path tensor issues in
    let ih = verify_tensors-Verified files manifest_path rest after in
    (
      λ clean.
          let (one, more) = ih.0 clean in
          let (before, holds) = first.0 one in (before, (holds, more)),
      λ h. let (before, (holds, more)) = h in ih.1 (first.1 (before, holds), more),
    )

-- VerifyManifestFiles reports no error exactly when every file named is there and holds its range, and
-- every tensor's checksum is that of its bytes.
pub verify_manifest_files-Verified :
    (files : ManifestFiles) (manifest : PackedModelManifest) (manifest_path : List ℕ)
    → (has_manifest_errors (verify_manifest_files files manifest manifest_path) ≡ false)
      ↔ TensorsVerified files manifest_path manifest.tensors
unfolding verify_manifest_files has_manifest_errors
verify_manifest_files-Verified files manifest manifest_path =
    let all = verify_tensors-Verified files manifest_path manifest.tensors [] in
    (λ clean. (all.0 clean).1, λ h. all.1 (refl, h))
