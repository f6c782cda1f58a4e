-- ===== src/ManifestFile/Examples.antt =====
-- A manifest file on the small disk: the theorems there, and a run.
use nemotron_inference.Base.{
  ℕ, ◌≡◌, ◌⊎◌, refl, true, false, if◌then◌else◌, List, ◌++◌, none, some, leb, length, take, text,
  str_eq, member,
}
use nemotron_inference.Manifest.{
  has_manifest_errors, add_issue, add_error, report, zero_dim, empty_or_zero_dim, scaled,
  scaled_together, validate_auxiliaries, validate_scales, validate_tensor, validate_tensors,
  validate_manifest,
}
use nemotron_inference.Manifest.Complete.{IsWellFormed}
use nemotron_inference.ArtifactLoader.{resolve_manifest_path}
use nemotron_inference.ArtifactLoader.Disk.{disk}
use nemotron_inference.ModelSchedule.{is_digit, starts_with}
use nemotron_inference.Json.{
  find_member, emplace_member, push_element, is_space, skip_whitespace, after_byte, try_consume,
  expect, escaped_byte, parse_characters, parse_string, take_digits, to_int64, parse_digits,
  parse_integer, parse_literal, parse_scalar, parse_key, close_object, close_array, parse_value,
  at_end, parse_json,
}
use nemotron_inference.ManifestFile.{
  as_object, as_array, as_string, as_integer, read_required_string, read_optional_string, or_empty,
  read_required_size_t, read_dims, read_required_dims, read_auxiliary, read_auxiliaries,
  read_source, optional_auxiliaries, read_tensor, read_tensors, required_tensors, read_platform,
  read_profile, read_manifest, load_object, load_root, load_text, load_manifest_from_json_file,
}
use nemotron_inference.ManifestFile.Files.{
  ManifestFiles, fnv1a_append, to_lower, lowercase_copy, extract_expected_fnv64, hash_bytes,
  hash_range, fnv_offset_basis, hex_digit, to_hex, compute_fnv64_for_range, verify_checksum,
  missing, verify_auxiliary, verify_auxiliaries, verify_tensor, verify_tensors,
  verify_manifest_files, verify_loaded, load_verified_manifest_from_json_file,
}
use nemotron_inference.ManifestFile.Checksums.{compute_fnv64_for_range-whole_hash}
use nemotron_inference.ManifestFile.Ranges.{TensorsVerified}
use nemotron_inference.ManifestFile.Loaded.{load_verified_manifest_from_json_file_decides}

-- A manifest of one tensor, over the three bytes "abc".
abbrev json : List ℕ
json =
    text
      "{\"schema_version\": 1, \"model_id\": \"m\", \"source_revision\": \"s\", \"tokenizer_revision\": \"t\","
    ++ (text
          " \"packer_version\": \"p\", \"target_platform\": {\"gpu_family\": \"g\", \"compute_capability\": \"c\"},"
        ++ (text
              " \"runtime_profile\": {\"kv_bytes_per_token\": 1, \"mamba_state_bytes_fp16\": 2, \"mamba_state_bytes_fp32\": 4},"
            ++ (text
                  " \"tensors\": [{\"name\": \"n\", \"op_class\": \"o\", \"logical_shape\": [3], \"packed_shape\": [3],"
                ++ (text
                      " \"storage_dtype\": \"u8\", \"compute_dtype\": \"u8\", \"layout_tag\": \"row\", \"alignment_bytes\": 16,"
                    ++ text
                        " \"packed_file\": \"n.bin\", \"offset_bytes\": 0, \"nbytes\": 3, \"checksum\": \"FNV1A64:E16801510DB89EFD\"}]}"))))

abbrev files : ManifestFiles
files = record {
  paths = disk;
  contents = λ path. some json;
  exists = λ path. some true;
  stream_at = λ path offset. some (text "abcd");
}

abbrev path : List ℕ
path = text "manifest.json"

load_run : (load_verified_manifest_from_json_file files path).ok ≡ true
unfolding text str_eq member has_manifest_errors add_issue add_error report zero_dim
    empty_or_zero_dim scaled scaled_together validate_auxiliaries validate_scales validate_tensor
    validate_tensors validate_manifest resolve_manifest_path is_digit starts_with find_member
    emplace_member push_element is_space skip_whitespace after_byte try_consume expect escaped_byte
    parse_characters parse_string take_digits to_int64 parse_digits parse_integer parse_literal
    parse_scalar parse_key close_object close_array parse_value at_end parse_json as_object as_array
    as_string as_integer read_required_string read_optional_string or_empty read_required_size_t
    read_dims read_required_dims read_auxiliary read_auxiliaries read_source optional_auxiliaries
    read_tensor read_tensors required_tensors read_platform read_profile read_manifest load_object
    load_root load_text load_manifest_from_json_file fnv1a_append to_lower lowercase_copy
    extract_expected_fnv64 hash_bytes hash_range hex_digit to_hex compute_fnv64_for_range
    verify_checksum missing verify_auxiliary verify_auxiliaries verify_tensor verify_tensors
    verify_manifest_files verify_loaded load_verified_manifest_from_json_file
load_run = refl

load_verified_manifest_from_json_file_decides_example :
    let loaded = load_manifest_from_json_file path (files.contents path) in
    let result = load_verified_manifest_from_json_file files path in
    ((result.ok ≡ true)
      × ((result.manifest ≡ loaded.manifest)
          × (IsWellFormed result.manifest × TensorsVerified files path result.manifest.tensors)))
    ⊎ ((result.ok ≡ false)
        × ((loaded.ok ≡ false) ⊎ ¬ TensorsVerified files path loaded.manifest.tensors))
load_verified_manifest_from_json_file_decides_example =
    load_verified_manifest_from_json_file_decides files path

compute_fnv64_for_range-whole_hash_example : compute_fnv64_for_range files path 0 3 ≡ (
    if leb 3 (length (text "abcd"))
    then some (to_hex 16 (hash_bytes fnv_offset_basis (take 3 (text "abcd"))))
    else none)
compute_fnv64_for_range-whole_hash_example =
    compute_fnv64_for_range-whole_hash files path (text "abcd") 0 3 refl
