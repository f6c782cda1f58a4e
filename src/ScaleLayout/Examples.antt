-- ===== src/ScaleLayout/Examples.antt =====
-- A concrete matrix of 130 rows and 96 columns.
use nemotron_inference.Base.{ℕ, ◌*◌, ◌%◌, ◌<◌, ◌≡◌, ◌⊎◌, none, some, arith}
use nemotron_inference.ScaleLayout.{Nvfp4ExecutionScaleLayout, build_nvfp4_execution_scale_layout}
use nemotron_inference.ScaleLayout.Padding.{Pads, build_nvfp4_execution_scale_layout_decides}

abbrev rows : ℕ
rows = 130

abbrev cols : ℕ
cols = 96

build_nvfp4_execution_scale_layout_decides_example :
    ((l : Nvfp4ExecutionScaleLayout) × (build_nvfp4_execution_scale_layout rows cols ≡ some l)
      × (l.logical_rows ≡ rows)
      × (l.logical_blocks_per_row * 16 ≡ cols)
      × Pads 128 rows l.padded_rows
      × Pads 4 l.logical_blocks_per_row l.padded_blocks_per_row
      × (0 < rows)
      × (0 < cols))
    ⊎ ((build_nvfp4_execution_scale_layout rows cols ≡ none)
        × ((rows ≡ 0) ⊎ ((cols ≡ 0) ⊎ (0 < cols % 16))))
build_nvfp4_execution_scale_layout_decides_example =
    build_nvfp4_execution_scale_layout_decides rows cols (omega arith) (omega arith)
