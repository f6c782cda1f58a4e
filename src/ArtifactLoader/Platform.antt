-- ===== src/ArtifactLoader/Platform.antt =====
-- The views of runtime/src/loader/artifact_loader.cpp, what the operating system does, and the reading of a file.
use nemotron_inference.Base.{
  ℕ, zero, suc, ◌+◌, ◌-◌, Bool, true, false, ◌&&◌, List, Option, none, some, leb, ◌==◌,
  if◌then◌else◌, string_key,
}
use nemotron_inference.GemmExecution.{ByteRangeView}
use nemotron_inference.Manifest.{TensorManifestEntry}

pub data ArtifactLoadMode : Type 0 where
  mmap read_all : ArtifactLoadMode

pub record AuxiliaryArtifactView : Type 0 where
  pub name : List ℕ
  pub bytes : ByteRangeView

pub record TensorArtifactView : Type 0 where
  pub manifest_entry : TensorManifestEntry
  pub packed_bytes : ByteRangeView
  pub auxiliaries : List AuxiliaryArtifactView

-- What the operating system and std::filesystem answer while a loader is opened. An error is `none`.
pub record FileSystem : Type 0 where
  pub is_absolute : List ℕ → Bool
  -- `manifest_path.parent_path() / file_path`
  pub beside : List ℕ → List ℕ → List ℕ
  pub absolute : List ℕ → Option (List ℕ)
  pub lexically_normal : List ℕ → List ℕ
  pub file_size : List ℕ → Option ℕ
  pub open_file : List ℕ → Option ℕ
  -- The address of a mapping of a descriptor.
  pub map_memory : ℕ → ℕ → Option ℕ
  -- The address of the bytes of a vector of this size, and how many bytes one read returns at a
  -- position of a descriptor, 0 at the end and on an error.
  pub allocate : ℕ → ℕ → ℕ
  pub read_chunk : ℕ → ℕ → ℕ → ℕ

unfoldable pub resolve_manifest_path : FileSystem → List ℕ → List ℕ → List ℕ
resolve_manifest_path fs manifest_path file =
    if fs.is_absolute file then file else fs.beside manifest_path file

unfoldable pub normalize_path_key : FileSystem → List ℕ → List ℕ
normalize_path_key fs path = elim (fs.absolute path) [
  | none ↦ fs.lexically_normal path
  | some absolute ↦ fs.lexically_normal absolute
]

unfoldable pub range_fits : ℕ → ℕ → ℕ → Bool
range_fits file_size offset_bytes nbytes =
    leb offset_bytes file_size && leb nbytes (file_size - offset_bytes)

-- The loop of ReadAllBytes, on fuel: whether `total_read` reaches the size.
unfoldable pub read_loop : FileSystem → ℕ → ℕ → ℕ → ℕ → Option Bool
read_loop fs fd file_size zero total_read = none
read_loop fs fd file_size (suc fuel) total_read =
    let chunk = fs.read_chunk fd total_read (file_size - total_read) in
    let rest = read_loop fs fd file_size fuel (total_read + chunk) in
    if leb file_size total_read then some true else (if chunk == 0 then some false else rest)

unfoldable pub read_all_bytes : FileSystem → ℕ → ℕ → Option Bool
read_all_bytes fs fd file_size =
    if file_size == 0 then some false else read_loop fs fd file_size (suc file_size) 0

pub record MappedFile : Type 0 where
  pub load_mode : ArtifactLoadMode
  pub path : List ℕ
  pub fd : ℕ
  pub size : ℕ
  pub address : ℕ
