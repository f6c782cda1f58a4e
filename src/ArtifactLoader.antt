-- ===== src/ArtifactLoader.antt =====
-- runtime/include/nemotron/artifact_loader.h and runtime/src/loader/artifact_loader.cpp: the files of
-- the weights, mapped or read, and the views of the tensors in them. A path is the list of its bytes.
use nemotron_inference.Base.{
  ℕ, zero, suc, ◌+◌, ◌-◌, ◌≡◌, Bool, true, false, not, ◌&&◌, ◌||◌, List, [], ◌∷◌, ◌++◌, Option,
  none, some, ltb, leb, ◌==◌, if◌then◌else◌, add64, sub64, word, length, get_elem?, string_key,
  find, emplace,
}
use nemotron_inference.GemmExecution.{ByteRangeView, range_valid}
use nemotron_inference.Manifest.{
  TensorAuxiliaryManifest, TensorManifestEntry, PackedModelManifest, has_manifest_errors,
  validate_manifest,
}
mod Platform
pub mod Reads
pub mod Located
pub mod Views
pub mod Opened
pub mod Covers
pub mod Served
pub mod Disk
mod Examples
unfoldable pub use Platform.{
  resolve_manifest_path, normalize_path_key, range_fits, read_loop, read_all_bytes,
}
pub use Platform.*

-- ArtifactLoader::Impl
pub record ArtifactLoader : Type 0 where
  pub manifest_path : List ℕ
  pub manifest : PackedModelManifest
  pub load_mode : ArtifactLoadMode
  pub mapped_files : List MappedFile
  pub mapped_file_indices : List (List ℕ × ℕ)
  pub tensor_indices : List (List ℕ × ℕ)
  pub total_mapped_bytes : ℕ

unfoldable pub new_loader : PackedModelManifest → List ℕ → ArtifactLoadMode → ArtifactLoader
new_loader manifest manifest_path mode = record {
  manifest_path = manifest_path;
  manifest = manifest;
  load_mode = mode;
  mapped_files = [];
  mapped_file_indices = [];
  tensor_indices = [];
  total_mapped_bytes = 0;
}

-- The part of ViewRange after the file was found.
unfoldable pub view_file : MappedFile → ℕ → ℕ → Option ByteRangeView
view_file mapped_file offset_bytes nbytes =
    if not (range_fits mapped_file.size offset_bytes nbytes)
    then none
    else some (record { address = add64 mapped_file.address offset_bytes; size = nbytes })

-- An index outside `mapped_files`, which no operation stores, would be undefined; here it is `none`.
unfoldable pub view_range : FileSystem → ArtifactLoader → List ℕ → ℕ → ℕ → Option ByteRangeView
view_range fs impl file_path offset_bytes nbytes =
    elim (find (normalize_path_key fs file_path) impl.mapped_file_indices) [
      | none ↦ none
      | some index ↦ elim (get_elem? impl.mapped_files index) [
        | none ↦ none
        | some mapped_file ↦ view_file mapped_file offset_bytes nbytes
      ]
    ]

-- The bytes of an opened file, mapped or read.
unfoldable pub load_bytes : FileSystem → ArtifactLoadMode → ℕ → ℕ → Option ℕ
load_bytes fs mmap fd size = fs.map_memory fd size
load_bytes fs read_all fd size = elim (read_all_bytes fs fd size) [
  | none ↦ none
  | some done ↦ if done then some (fs.allocate fd size) else none
]

unfoldable pub keep_file : ArtifactLoader → List ℕ → MappedFile → ArtifactLoader
keep_file impl key mapped_file = record impl {
  mapped_files = impl.mapped_files ++ (mapped_file ∷ []);
  mapped_file_indices = emplace key (length impl.mapped_files) impl.mapped_file_indices;
  total_mapped_bytes = add64 impl.total_mapped_bytes mapped_file.size;
}

-- From the opening of the file on.
unfoldable pub map_opened : FileSystem → ArtifactLoader → List ℕ → ℕ → Option ArtifactLoader
map_opened fs impl file_path size = elim (fs.open_file file_path) [
  | none ↦ none
  | some fd ↦ elim (load_bytes fs impl.load_mode fd size) [
    | none ↦ none
    | some address ↦ some (
        keep_file impl (normalize_path_key fs file_path) (record {
          load_mode = impl.load_mode;
          path = file_path;
          fd = fd;
          size = size;
          address = address;
        }))
  ]
]

-- MapFile; a failure is `none`, since the loader is then given up.
unfoldable pub map_file : FileSystem → ArtifactLoader → List ℕ → Option ArtifactLoader
map_file fs impl file_path =
    elim (find (normalize_path_key fs file_path) impl.mapped_file_indices) [
      | some _ ↦ some impl
      | none ↦ elim (fs.file_size file_path) [
        | none ↦ none
        | some size ↦ if size == 0 || leb word size then none else map_opened fs impl file_path size
      ]
    ]

-- `!MapFile(path) || !ViewRange(path, offset, nbytes).has_value()`
unfoldable pub map_range : FileSystem → ArtifactLoader → List ℕ → ℕ → ℕ → Option ArtifactLoader
map_range fs impl file_path offset_bytes nbytes = elim (map_file fs impl file_path) [
  | none ↦ none
  | some mapped ↦ elim (view_range fs mapped file_path offset_bytes nbytes) [
    | none ↦ none
    | some _ ↦ some mapped
  ]
]

unfoldable pub map_auxiliaries :
    FileSystem → ArtifactLoader → List TensorAuxiliaryManifest → Option ArtifactLoader
map_auxiliaries fs impl [] = some impl
map_auxiliaries fs impl (auxiliary ∷ rest) =
    elim (map_range fs impl (resolve_manifest_path fs impl.manifest_path auxiliary.file)
      auxiliary.offset_bytes auxiliary.nbytes) [
        | none ↦ none
        | some mapped ↦ map_auxiliaries fs mapped rest
      ]

-- The body of the loop of OpenVerifiedWithMode.
unfoldable pub open_tensor :
    FileSystem → ArtifactLoader → ℕ → TensorManifestEntry → Option ArtifactLoader
open_tensor fs impl tensor_index tensor =
    let indexed = record impl {
      tensor_indices = emplace tensor.name tensor_index impl.tensor_indices;
    } in
    elim (map_range fs indexed (resolve_manifest_path fs indexed.manifest_path tensor.packed_file)
      tensor.offset_bytes tensor.nbytes) [
        | none ↦ none
        | some mapped ↦ map_auxiliaries fs mapped tensor.auxiliaries
      ]

unfoldable pub open_tensors :
    FileSystem → ArtifactLoader → ℕ → List TensorManifestEntry → Option ArtifactLoader
open_tensors fs impl tensor_index [] = some impl
open_tensors fs impl tensor_index (tensor ∷ rest) = elim (open_tensor fs impl tensor_index tensor) [
  | none ↦ none
  | some opened ↦ open_tensors fs opened (suc tensor_index) rest
]

unfoldable pub open_verified_with_mode :
    FileSystem → PackedModelManifest → List ℕ → ArtifactLoadMode → Option ArtifactLoader
open_verified_with_mode fs manifest manifest_path mode =
    if has_manifest_errors (validate_manifest manifest)
    then none
    else open_tensors fs (new_loader manifest manifest_path mode) 0 manifest.tensors

unfoldable pub open_verified : FileSystem → PackedModelManifest → List ℕ → Option ArtifactLoader
open_verified fs manifest manifest_path = open_verified_with_mode fs manifest manifest_path mmap

unfoldable pub view_auxiliaries :
    FileSystem → ArtifactLoader → List TensorAuxiliaryManifest → Option (List AuxiliaryArtifactView)
view_auxiliaries fs impl [] = some []
view_auxiliaries fs impl (auxiliary ∷ rest) =
    elim (view_range fs impl (resolve_manifest_path fs impl.manifest_path auxiliary.file)
      auxiliary.offset_bytes auxiliary.nbytes) [
        | none ↦ none
        | some bytes ↦ elim (view_auxiliaries fs impl rest) [
          | none ↦ none
          | some views ↦ some (record { name = auxiliary.name; bytes = bytes } ∷ views)
        ]
      ]

-- FindTensor from the entry on.
unfoldable pub view_tensor :
    FileSystem → ArtifactLoader → TensorManifestEntry → Option TensorArtifactView
view_tensor fs impl tensor =
    elim (view_range fs impl (resolve_manifest_path fs impl.manifest_path tensor.packed_file)
      tensor.offset_bytes tensor.nbytes) [
        | none ↦ none
        | some packed_bytes ↦ elim (view_auxiliaries fs impl tensor.auxiliaries) [
          | none ↦ none
          | some auxiliaries ↦ some (record {
            manifest_entry = tensor;
            packed_bytes = packed_bytes;
            auxiliaries = auxiliaries;
          })
        ]
      ]

unfoldable pub find_artifact : FileSystem → ArtifactLoader → List ℕ → Option TensorArtifactView
find_artifact fs impl tensor_name = elim (find tensor_name impl.tensor_indices) [
  | none ↦ none
  | some index ↦ elim (get_elem? impl.manifest.tensors index) [
    | none ↦ none
    | some tensor ↦ view_tensor fs impl tensor
  ]
]

-- loaded_file_count, and mapped_file_count, which calls it.
unfoldable pub loaded_file_count : ArtifactLoader → ℕ
loaded_file_count impl = length impl.mapped_files

unfoldable pub mapped_file_count : ArtifactLoader → ℕ
mapped_file_count impl = loaded_file_count impl

unfoldable pub total_loaded_bytes : ArtifactLoader → ℕ
total_loaded_bytes impl = impl.total_mapped_bytes
