-- ===== src/GemmExecution/Planner.antt =====
-- BuildGemmLaunchPlan of runtime/src/loader/gemm_planner.cpp, with the GemmDescriptor of
-- runtime/src/loader/gemm_catalog.cpp and its header.
use nemotron_inference.Base.{
  ℕ, Bool, ◌||◌, not, List, ◌++◌, Option, none, some, ◌==◌, if◌then◌else◌, text, to_string,
}
use nemotron_inference.GemmExecution.{
  ByteRangeView, range_valid, GemmKernelFamily, dense_row_major, cublas_lt_nvfp4_block_scaled,
  GemmLaunchPlan,
}

-- The data pointers and their sizes.
pub record GemmDescriptor : Type 0 where
  pub tensor_name : List ℕ
  pub op_class : List ℕ
  pub kernel_family : GemmKernelFamily
  pub output_rows : ℕ
  pub input_cols : ℕ
  pub storage_dtype : List ℕ
  pub compute_dtype : List ℕ
  pub layout_tag : List ℕ
  pub alignment_bytes : ℕ
  pub packed_data : ℕ
  pub packed_nbytes : ℕ
  pub block_scales_data : ℕ
  pub block_scales_nbytes : ℕ
  pub tensor_scale_data : ℕ
  pub tensor_scale_nbytes : ℕ

-- ToString of the family.
unfoldable pub family_name : GemmKernelFamily → List ℕ
family_name dense_row_major = text "dense_row_major"
family_name cublas_lt_nvfp4_block_scaled = text "cublaslt_nvfp4_block_scaled"

unfoldable pub is_scaled : GemmDescriptor → Bool
is_scaled descriptor =
    not (descriptor.block_scales_data == 0) || not (descriptor.tensor_scale_data == 0)

unfoldable pub packed_bytes : GemmDescriptor → ByteRangeView
packed_bytes descriptor = record {
  address = descriptor.packed_data;
  size = descriptor.packed_nbytes;
}

unfoldable pub block_scales_bytes : GemmDescriptor → ByteRangeView
block_scales_bytes descriptor = record {
  address = descriptor.block_scales_data;
  size = descriptor.block_scales_nbytes;
}

unfoldable pub tensor_scale_bytes : GemmDescriptor → ByteRangeView
tensor_scale_bytes descriptor = record {
  address = descriptor.tensor_scale_data;
  size = descriptor.tensor_scale_nbytes;
}

unfoldable pub heuristic_key_prefix : GemmDescriptor → List ℕ
heuristic_key_prefix descriptor =
    family_name descriptor.kernel_family
    ++ (text "|"
        ++ (descriptor.layout_tag
            ++ (text "|"
                ++ (descriptor.storage_dtype
                    ++ (text "|"
                        ++ (descriptor.compute_dtype
                            ++ (text "|"
                                ++ (to_string descriptor.output_rows
                                    ++ (text "x" ++ to_string descriptor.input_cols)))))))))

unfoldable pub build_gemm_launch_plan : GemmDescriptor → ℕ → Option GemmLaunchPlan
build_gemm_launch_plan descriptor activation_rows =
    if activation_rows == 0 || not (range_valid (packed_bytes descriptor))
    then none
    else some (record {
      kernel_family = descriptor.kernel_family;
      m = activation_rows;
      n = descriptor.output_rows;
      k = descriptor.input_cols;
      uses_block_scales = is_scaled descriptor;
      packed_bytes = packed_bytes descriptor;
      block_scales_bytes = block_scales_bytes descriptor;
      tensor_scale_bytes = tensor_scale_bytes descriptor;
      heuristic_key = heuristic_key_prefix descriptor ++ (text "|m=" ++ to_string activation_rows);
    })
