-- ===== src/TensorCatalog/Examples.antt =====
-- The catalog of the sample manifest with the loader of the small disk.
use nemotron_inference.Base.{◌≡◌, ◌↔◌, true, some}
use nemotron_inference.Manifest.Sample.{sample}
use nemotron_inference.ArtifactLoader.{read_all}
use nemotron_inference.ArtifactLoader.Disk.{disk, sample_path, sample_loader, sample_opened}
use nemotron_inference.TensorCatalog.{TensorCatalog, build_tensor_catalog}
use nemotron_inference.TensorCatalog.Built.{AllScalesNamed, DescriptorsOf}
use nemotron_inference.TensorCatalog.Opened.{TensorsFound, build_tensor_catalog-opened}

build_tensor_catalog-opened_example :
    (catalog : TensorCatalog) × (build_tensor_catalog disk sample sample_loader ≡ some catalog)
    × DescriptorsOf disk sample_loader sample.tensors catalog.tensors
    × TensorsFound catalog sample.tensors catalog.tensors
    × ((catalog.valid ≡ true) ↔ AllScalesNamed sample.tensors)
build_tensor_catalog-opened_example =
    build_tensor_catalog-opened disk sample sample_path read_all sample_loader sample_opened
