-- ===== src/ManifestFile/Files.antt =====
-- The checks of the packed files in runtime/src/loader/manifest.cpp: checksums, sizes and
-- LoadVerifiedManifestFromJsonFile.
use Prim.Native.Nat.{min, bit_xor}
use nemotron_inference.Base.{
  ℕ, zero, suc, ◌+◌, ◌-◌, ◌/◌, ◌%◌, Bool, true, false, not, ◌&&◌, ◌||◌, List, [], ◌∷◌, ◌++◌, map,
  Option, none, some, ltb, leb, ◌==◌, if◌then◌else◌, add64, mul64, length, take, drop, str_eq, text,
  is_empty,
}
use nemotron_inference.Manifest.{
  TensorAuxiliaryManifest, TensorManifestEntry, PackedModelManifest, Issues, add_error,
  has_manifest_errors,
}
use nemotron_inference.ArtifactLoader.{FileSystem, resolve_manifest_path}
use nemotron_inference.ModelSchedule.{starts_with, is_digit}
use nemotron_inference.ManifestFile.{ManifestLoadResult, load_manifest_from_json_file}

-- What the file system answers besides: `none` is an error code. `stream_at` is a file opened and
-- moved to an offset: the bytes from there on.
pub record ManifestFiles : Type 0 where
  pub paths : FileSystem
  pub contents : List ℕ → Option (List ℕ)
  pub exists : List ℕ → Option Bool
  pub stream_at : List ℕ → ℕ → Option (List ℕ)

unfoldable pub fnv1a_append : ℕ → ℕ → ℕ
fnv1a_append hash value = mul64 (bit_xor hash value) 1099511628211

unfoldable pub to_lower : ℕ → ℕ
to_lower ch = if leb b'A' ch && leb ch b'Z' then ch + 32 else ch

unfoldable pub lowercase_copy : List ℕ → List ℕ
lowercase_copy value = map to_lower value

-- std::isxdigit
unfoldable pub is_hex_digit : ℕ → Bool
is_hex_digit ch = is_digit ch || ((leb b'a' ch && leb ch b'f') || (leb b'A' ch && leb ch b'F'))

unfoldable pub all_hex : List ℕ → Bool
all_hex [] = true
all_hex (ch ∷ rest) = if is_hex_digit ch then all_hex rest else false

unfoldable pub extract_expected_fnv64 : List ℕ → Option (List ℕ)
extract_expected_fnv64 checksum =
    let lowered = lowercase_copy checksum in
    if starts_with lowered (text "fnv1a64:")
    then some (drop (length (text "fnv1a64:")) lowered)
    else (if length lowered == 16 && all_hex lowered then some lowered else none)

-- The inner loop over the bytes of one read.
unfoldable pub hash_bytes : ℕ → List ℕ → ℕ
hash_bytes hash [] = hash
hash_bytes hash (byte ∷ rest) = hash_bytes (fnv1a_append hash byte) rest

abbrev pub buffer_size : ℕ
buffer_size = 4096

-- The loop of ComputeFNV64ForRange, on fuel; a read returns all that is wanted unless the file ends.
unfoldable pub hash_range : ℕ → ℕ → ℕ → List ℕ → Option ℕ
hash_range zero remaining hash stream = none
hash_range (suc fuel) remaining hash stream = elim (remaining == 0) [
  | true ↦ some hash
  | false ↦
      let chunk = take (min buffer_size remaining) stream in
      elim (is_empty chunk) [
        | true ↦ none
        | false ↦
            hash_range fuel (remaining - length chunk) (hash_bytes hash chunk)
              (drop (length chunk) stream)
      ]
]

abbrev pub fnv_offset_basis : ℕ
fnv_offset_basis = 1469598103934665603

unfoldable pub hex_digit : ℕ → ℕ
hex_digit n = if ltb n 10 then b'0' + n else b'a' + (n - 10)

-- The last digits of a number in base 16, as many as asked for.
unfoldable pub to_hex : ℕ → ℕ → List ℕ
to_hex zero n = []
to_hex (suc width) n = to_hex width (n / 16) ++ (hex_digit (n % 16) ∷ [])

unfoldable pub compute_fnv64_for_range : ManifestFiles → List ℕ → ℕ → ℕ → Option (List ℕ)
compute_fnv64_for_range files file_path offset_bytes nbytes =
    elim (files.stream_at file_path offset_bytes) [
      | none ↦ none
      | some stream ↦ elim (hash_range (suc nbytes) nbytes fnv_offset_basis stream) [
        | none ↦ none
        | some hash ↦ some (to_hex 16 hash)
      ]
    ]

-- The check of the checksum.
unfoldable pub verify_checksum : ManifestFiles → TensorManifestEntry → List ℕ → Issues → Issues
verify_checksum files tensor packed_path issues = elim (extract_expected_fnv64 tensor.checksum) [
  | none ↦ add_error issues tensor.name (text "unsupported checksum format; expected fnv1a64:<hex>")
  | some expected ↦
      elim (compute_fnv64_for_range files packed_path tensor.offset_bytes tensor.nbytes) [
        | none ↦
            add_error issues tensor.name
              (text "unable to compute checksum over packed tensor bytes")
        | some actual ↦
            if str_eq actual expected
            then issues
            else add_error issues tensor.name (text "checksum mismatch for packed tensor bytes")
      ]
]

-- `!exists` with the error code.
unfoldable pub missing : ManifestFiles → List ℕ → Bool
missing files path = elim (files.exists path) [ none ↦ true | some there ↦ not there ]

-- The body of the loop over the auxiliaries.
unfoldable pub verify_auxiliary :
    ManifestFiles → List ℕ → List ℕ → TensorAuxiliaryManifest → Issues → Issues
verify_auxiliary files manifest_path tensor_name auxiliary issues =
    let path = resolve_manifest_path files.paths manifest_path auxiliary.file in
    if missing files path
    then add_error issues tensor_name (text "auxiliary file not found: " ++ path)
    else elim (files.paths.file_size path) [
      | none ↦ add_error issues tensor_name (text "unable to read auxiliary file size: " ++ path)
      | some size ↦
          if ltb size (add64 auxiliary.offset_bytes auxiliary.nbytes)
          then add_error issues tensor_name
              (text "auxiliary file is smaller than required byte range")
          else issues
    ]

unfoldable pub verify_auxiliaries :
    ManifestFiles → List ℕ → List ℕ → List TensorAuxiliaryManifest → Issues → Issues
verify_auxiliaries files manifest_path tensor_name [] issues = issues
verify_auxiliaries files manifest_path tensor_name (auxiliary ∷ rest) issues =
    verify_auxiliaries files manifest_path tensor_name rest
      (verify_auxiliary files manifest_path tensor_name auxiliary issues)

-- The body of the loop over the tensors: without the file or its size the rest is left out.
unfoldable pub verify_tensor : ManifestFiles → List ℕ → TensorManifestEntry → Issues → Issues
verify_tensor files manifest_path tensor issues =
    let path = resolve_manifest_path files.paths manifest_path tensor.packed_file in
    if missing files path
    then add_error issues tensor.name (text "packed file not found: " ++ path)
    else elim (files.paths.file_size path) [
      | none ↦ add_error issues tensor.name (text "unable to read packed file size: " ++ path)
      | some size ↦ verify_auxiliaries files manifest_path tensor.name tensor.auxiliaries (
          verify_checksum files tensor path (
            if ltb size (add64 tensor.offset_bytes tensor.nbytes)
            then add_error issues tensor.name
                (text "packed file is smaller than required byte range")
            else issues))
    ]

unfoldable pub verify_tensors : ManifestFiles → List ℕ → List TensorManifestEntry → Issues → Issues
verify_tensors files manifest_path [] issues = issues
verify_tensors files manifest_path (tensor ∷ rest) issues =
    verify_tensors files manifest_path rest (verify_tensor files manifest_path tensor issues)

unfoldable pub verify_manifest_files : ManifestFiles → PackedModelManifest → List ℕ → Issues
verify_manifest_files files manifest manifest_path =
    verify_tensors files manifest_path manifest.tensors []

-- From the loaded manifest on.
unfoldable pub verify_loaded : ManifestFiles → List ℕ → ManifestLoadResult → ManifestLoadResult
verify_loaded files manifest_path result =
    let issues = result.issues ++ verify_manifest_files files result.manifest manifest_path in
    if result.ok
    then record result { ok = not (has_manifest_errors issues); issues = issues }
    else result

unfoldable pub load_verified_manifest_from_json_file : ManifestFiles → List ℕ → ManifestLoadResult
load_verified_manifest_from_json_file files manifest_path =
    verify_loaded files manifest_path
      (load_manifest_from_json_file manifest_path (files.contents manifest_path))
