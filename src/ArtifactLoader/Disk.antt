-- ===== src/ArtifactLoader/Disk.antt =====
-- A small disk with two files of sixteen bytes, and the loader it gives for the sample manifest.
use nemotron_inference.Base.{
  ℕ, ◌≡◌, refl, false, List, [], ◌∷◌, some, text, str_eq, find, emplace, member,
}
use nemotron_inference.Manifest.{
  has_manifest_errors, add_issue, add_error, report, zero_dim, empty_or_zero_dim, scaled,
  scaled_together, validate_auxiliaries, validate_scales, validate_tensor, validate_tensors,
  validate_manifest,
}
use nemotron_inference.Manifest.Sample.{sample}
use nemotron_inference.ArtifactLoader.{
  FileSystem, read_all, resolve_manifest_path, normalize_path_key, range_fits, read_loop,
  read_all_bytes, ArtifactLoader, new_loader, view_file, view_range, load_bytes, keep_file,
  map_opened, map_file, map_range, map_auxiliaries, open_tensor, open_tensors,
  open_verified_with_mode,
}

abbrev pub disk : FileSystem
disk = record {
  is_absolute = λ path. false;
  beside = λ manifest_path path. path;
  absolute = λ path. some path;
  lexically_normal = λ path. path;
  file_size = λ path. some 16;
  open_file = λ path. some 3;
  map_memory = λ fd size. some 4096;
  allocate = λ fd size. 8192;
  read_chunk = λ fd position wanted. wanted;
}

abbrev pub sample_path : List ℕ
sample_path = text "manifest.json"

abbrev pub sample_loader : ArtifactLoader
sample_loader = record {
  manifest_path = sample_path;
  manifest = sample;
  load_mode = read_all;
  mapped_files =
      record { load_mode = read_all; path = text "w.bin"; fd = 3; size = 16; address = 8192 }
      ∷ record { load_mode = read_all; path = text "n.bin"; fd = 3; size = 16; address = 8192 }
      ∷ [];
  mapped_file_indices = (text "n.bin", 1) ∷ (text "w.bin", 0) ∷ [];
  tensor_indices = (text "norm_f.weight", 1) ∷ (text "layers.0.q_proj", 0) ∷ [];
  total_mapped_bytes = 32;
}

pub sample_opened : open_verified_with_mode disk sample sample_path read_all ≡ some sample_loader
unfolding text str_eq member find emplace has_manifest_errors add_issue add_error report zero_dim
    empty_or_zero_dim scaled scaled_together validate_auxiliaries validate_scales validate_tensor
    validate_tensors validate_manifest resolve_manifest_path normalize_path_key range_fits read_loop
    read_all_bytes new_loader view_file view_range load_bytes keep_file map_opened map_file
    map_range map_auxiliaries open_tensor open_tensors open_verified_with_mode
sample_opened = refl
