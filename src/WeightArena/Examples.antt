-- ===== src/WeightArena/Examples.antt =====
-- The plan for a small catalog.
use nemotron_inference.Base.{ℕ, refl, true, [], ◌∷◌, arith}
use nemotron_inference.GemmExecution.{ByteRangeView}
use nemotron_inference.Manifest.Sample.{
  sample, block_buffer, scale_buffer, scaled_tensor, plain_tensor,
}
use nemotron_inference.TensorCatalog.{block_scales, tensor_scale, TensorCatalog}
use nemotron_inference.WeightArena.{build_weight_arena_plan}
use nemotron_inference.WeightArena.Plan.{PlanFor, build_weight_arena_plan-PlanFor}

abbrev bytes : ℕ → ℕ → ByteRangeView
bytes address size = record { address = address; size = size }

abbrev catalog : TensorCatalog
catalog = record {
  valid = true;
  runtime_metadata = sample.runtime;
  tensors =
      record {
        manifest_entry = scaled_tensor;
        packed_bytes = bytes 4096 8;
        auxiliaries =
            record { role = block_scales; manifest_entry = block_buffer; bytes = bytes 4104 2 }
            ∷ record { role = tensor_scale; manifest_entry = scale_buffer; bytes = bytes 4108 4 }
            ∷ [];
      }
      ∷ record { manifest_entry = plain_tensor; packed_bytes = bytes 8192 3; auxiliaries = [] }
      ∷ [];
  indices_by_name = [];
  indices_by_op_class = [];
  issues = [];
}

build_weight_arena_plan-PlanFor_example : PlanFor catalog (build_weight_arena_plan catalog)
build_weight_arena_plan-PlanFor_example =
    build_weight_arena_plan-PlanFor catalog refl (omega arith) (omega arith)
