-- ===== src/ArtifactLoader/Examples.antt =====
-- A small disk: a loader opened for the sample manifest, and the theorems there.
use nemotron_inference.Base.{◌≡◌, ◌⊎◌, refl, true, false, some}
use nemotron_inference.Manifest.Sample.{sample, scaled_tensor}
use nemotron_inference.ArtifactLoader.{read_all, TensorArtifactView, read_all_bytes, find_artifact}
use nemotron_inference.ArtifactLoader.Reads.{read_all_bytes-ends}
use nemotron_inference.ArtifactLoader.Opened.{TensorHeld}
use nemotron_inference.ArtifactLoader.Served.{open_verified_with_mode-Served}
use nemotron_inference.ArtifactLoader.Disk.{disk, sample_path, sample_loader, sample_opened}

read_all_bytes-ends_example :
    (read_all_bytes disk 3 16 ≡ some true) ⊎ (read_all_bytes disk 3 16 ≡ some false)
read_all_bytes-ends_example = read_all_bytes-ends disk 3 16

open_verified_with_mode-Served_example :
    ((sample_loader.manifest_path ≡ sample_path) × (sample_loader.load_mode ≡ read_all))
    × ((view : TensorArtifactView) × (find_artifact disk sample_loader scaled_tensor.name
          ≡ some view)
        × TensorHeld disk sample_loader scaled_tensor view)
open_verified_with_mode-Served_example =
    open_verified_with_mode-Served disk sample sample_path read_all sample_loader 0 scaled_tensor
      sample_opened refl
