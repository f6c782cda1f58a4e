-- ===== src/GemmExecution/Examples.antt =====
-- A concrete launch plan.
use mathlib.Core.Option
use nemotron_inference.Base.{
  ℕ, ◌≡◌, refl, false, [], ◌∷◌, ◌++◌, some, ◌==◌, if◌then◌else◌, text, to_string, decimal,
}
use nemotron_inference.GemmExecution.{
  GemmLaunchPlan, GemmHeuristicCache, range_valid, store, lookup_algorithm, dense_row_major,
  prepare_gemm_execution,
}
use nemotron_inference.GemmExecution.Planner.{
  GemmDescriptor, is_scaled, packed_bytes, block_scales_bytes, tensor_scale_bytes,
  heuristic_key_prefix, family_name, build_gemm_launch_plan,
}
use nemotron_inference.GemmExecution.Planned.{store-build_gemm_launch_plan}
use nemotron_inference.GemmExecution.Repeat.{from_cache, prepare_gemm_execution-again}

abbrev plan : GemmLaunchPlan
plan = record {
  kernel_family = dense_row_major;
  m = 1;
  n = 2;
  k = 3;
  uses_block_scales = false;
  packed_bytes = record { address = 4096; size = 12 };
  block_scales_bytes = record { address = 0; size = 0 };
  tensor_scale_bytes = record { address = 0; size = 0 };
  heuristic_key = 100 ∷ 101 ∷ [];
}

abbrev no_entries : GemmHeuristicCache
no_entries = []

prepare_gemm_execution-again_example :
    prepare_gemm_execution plan (prepare_gemm_execution plan (some no_entries)).0 ≡ (
      (prepare_gemm_execution plan (some no_entries)).0,
      Option.map from_cache (prepare_gemm_execution plan (some no_entries)).1,
    )
prepare_gemm_execution-again_example = prepare_gemm_execution-again plan no_entries

abbrev weight : GemmDescriptor
weight = record {
  tensor_name = text "w";
  op_class = text "attention";
  kernel_family = dense_row_major;
  output_rows = 2;
  input_cols = 3;
  storage_dtype = text "bf16";
  compute_dtype = text "bf16";
  layout_tag = text "row_major";
  alignment_bytes = 16;
  packed_data = 4096;
  packed_nbytes = 12;
  block_scales_data = 0;
  block_scales_nbytes = 0;
  tensor_scale_data = 0;
  tensor_scale_nbytes = 0;
}

abbrev plan_for : ℕ → GemmLaunchPlan
plan_for rows = record {
  kernel_family = dense_row_major;
  m = rows;
  n = 2;
  k = 3;
  uses_block_scales = is_scaled weight;
  packed_bytes = packed_bytes weight;
  block_scales_bytes = block_scales_bytes weight;
  tensor_scale_bytes = tensor_scale_bytes weight;
  heuristic_key = heuristic_key_prefix weight ++ (text "|m=" ++ to_string rows);
}

one_row : build_gemm_launch_plan weight 1 ≡ some (plan_for 1)
unfolding build_gemm_launch_plan range_valid packed_bytes
one_row = refl

eight_rows : build_gemm_launch_plan weight 8 ≡ some (plan_for 8)
unfolding build_gemm_launch_plan range_valid packed_bytes
eight_rows = refl

key_run : (plan_for 8).heuristic_key ≡ text "dense_row_major|row_major|bf16|bf16|2x3|m=8"
unfolding heuristic_key_prefix family_name text to_string decimal
key_run = refl

store-build_gemm_launch_plan_example :
    lookup_algorithm (store no_entries (plan_for 1) 7).0 (plan_for 8)
    ≡ (if 1 == 8 then some 7 else lookup_algorithm no_entries (plan_for 8))
store-build_gemm_launch_plan_example =
    store-build_gemm_launch_plan no_entries weight 1 8 7 (plan_for 1) (plan_for 8) one_row
      eight_rows
