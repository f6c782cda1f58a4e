-- ===== src/ScaleLayout.antt =====
-- runtime/include/nemotron/nvfp4_scale_layout.h and runtime/src/backend/nvfp4_scale_layout.cpp: the
-- layout of the NVFP4 block scales for execution. Shifts are products and quotients with powers of 2.
use Prim.Native.Nat.{bit_and, bit_or}
use nemotron_inference.Base.{
  ℕ, zero, suc, ◌+◌, ◌*◌, ◌/◌, ◌%◌, ◌^◌, ◌≡◌, Bool, true, false, ◌&&◌, ◌||◌, not, List, [], ◌∷◌,
  Option, none, some, ltb, leb, ◌==◌, if◌then◌else◌, add64, sub64, mul64, get_or, set, replicate,
}
pub mod Padding
mod Examples

unfoldable pub round_up : ℕ → ℕ → ℕ
round_up value alignment =
    if alignment == 0 then value else mul64 (sub64 (add64 value alignment) 1 / alignment) alignment

unfoldable pub execution_scale_offset : ℕ → ℕ → ℕ → ℕ
execution_scale_offset row block_col padded_blocks_per_row =
    let num_k_tiles = padded_blocks_per_row / 4 in
    let m_tile = row / 128 in
    let outer_m = bit_and row 31 in
    let inner_m = bit_and (row / 2 ^ 5) 3 in
    let k_tile = block_col / 4 in
    let inner_k = bit_and block_col 3 in
    bit_or
      (bit_or (bit_or (mul64 (add64 (mul64 m_tile num_k_tiles) k_tile) (2 ^ 9)) (outer_m * 2 ^ 4))
        (inner_m * 2 ^ 2))
      inner_k

pub record Nvfp4ExecutionScaleLayout : Type 0 where
  pub logical_rows : ℕ
  pub logical_blocks_per_row : ℕ
  pub padded_rows : ℕ
  pub padded_blocks_per_row : ℕ

unfoldable pub layout_valid : Nvfp4ExecutionScaleLayout → Bool
layout_valid l =
    not (l.logical_rows == 0)
    && (not (l.logical_blocks_per_row == 0)
        && (leb l.logical_rows l.padded_rows
            && (leb l.logical_blocks_per_row l.padded_blocks_per_row
                && (l.padded_rows % 128 == 0 && l.padded_blocks_per_row % 4 == 0))))

unfoldable pub layout_nbytes : Nvfp4ExecutionScaleLayout → ℕ
layout_nbytes l = if layout_valid l then mul64 l.padded_rows l.padded_blocks_per_row else 0

abbrev pub layout_of : ℕ → ℕ → Nvfp4ExecutionScaleLayout
layout_of rows cols = record {
  logical_rows = rows;
  logical_blocks_per_row = cols / 16;
  padded_rows = round_up rows 128;
  padded_blocks_per_row = round_up (cols / 16) 4;
}

unfoldable pub build_nvfp4_execution_scale_layout : ℕ → ℕ → Option Nvfp4ExecutionScaleLayout
build_nvfp4_execution_scale_layout rows cols =
    if rows == 0 || (cols == 0 || not (cols % 16 == 0))
    then none
    else (if layout_valid (layout_of rows cols) then some (layout_of rows cols) else none)

unfoldable pub execution_nvfp4_scale_bytes : ℕ → ℕ → ℕ
execution_nvfp4_scale_bytes rows cols = elim (build_nvfp4_execution_scale_layout rows cols) [
  | none ↦ 0
  | some layout ↦ layout_nbytes layout
]

-- The inner loop: `left` blocks of the row are to come.
unfoldable pub swizzle_row : Nvfp4ExecutionScaleLayout → List ℕ → ℕ → ℕ → ℕ → List ℕ → List ℕ
unfolding execution_scale_offset
swizzle_row layout scales row block_col zero swizzled = swizzled
swizzle_row layout scales row block_col (suc left) swizzled =
    swizzle_row layout scales row (suc block_col) left (
      set swizzled (execution_scale_offset row block_col layout.padded_blocks_per_row)
        (get_or scales (add64 (mul64 row layout.logical_blocks_per_row) block_col) 0))

unfoldable pub swizzle_rows : Nvfp4ExecutionScaleLayout → List ℕ → ℕ → ℕ → List ℕ → List ℕ
swizzle_rows layout scales row zero swizzled = swizzled
swizzle_rows layout scales row (suc left) swizzled =
    swizzle_rows layout scales (suc row) left
      (swizzle_row layout scales row 0 layout.logical_blocks_per_row swizzled)

-- `none` stands for a null pointer. The scales are at least as many as the layout reads; reads and
-- writes out of range are undefined in the code, and 0 and nothing here.
unfoldable pub swizzle_row_major_nvfp4_scales_for_execution : Option (List ℕ) → ℕ → ℕ → List ℕ
swizzle_row_major_nvfp4_scales_for_execution row_major_scales rows cols =
    elim (build_nvfp4_execution_scale_layout rows cols) [
      | none ↦ []
      | some layout ↦ elim row_major_scales [
        | none ↦ []
        | some scales ↦
            swizzle_rows layout scales 0 layout.logical_rows (replicate (layout_nbytes layout) 0)
      ]
    ]
