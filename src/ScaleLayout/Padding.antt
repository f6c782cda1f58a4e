-- ===== src/ScaleLayout/Padding.antt =====
-- The padded sizes of a layout.
use nemotron_inference.Base.{
  ℕ, ◌+◌, ◌*◌, ◌/◌, ◌%◌, ◌≤◌, ◌<◌, ◌≡◌, refl, ◌⊎◌, inl, inr, Bool-cases, true, ◌||◌, not, none,
  some, arith, ◌==◌, word,
}
use nemotron_inference.ScaleLayout.{
  Nvfp4ExecutionScaleLayout, round_up, layout_valid, layout_of, build_nvfp4_execution_scale_layout,
}

-- The padded size is the least multiple of the tile that holds the size.
pub record Pads (tile size padded : ℕ) : Type 0 where
  pub holds : size ≤ padded
  pub least : padded < size + tile
  pub whole : padded % tile ≡ 0

round_up_rows : (value : ℕ) → value + 128 < word → Pads 128 value (round_up value 128)
unfolding round_up
round_up_rows value small = record { holds = omega arith; least = omega arith; whole = omega arith }

round_up_blocks : (value : ℕ) → value + 4 < word → Pads 4 value (round_up value 4)
unfolding round_up
round_up_blocks value small = record {
  holds = omega arith;
  least = omega arith;
  whole = omega arith;
}

-- `BuildNvfp4ExecutionScaleLayout`, for sizes that leave room for a tile in a word: it builds a layout
-- exactly when there are rows and columns and the columns fill their blocks of 16. The layout has
-- the rows and blocks, each padded to the least whole number of tiles.
pub build_nvfp4_execution_scale_layout_decides :
    (rows cols : ℕ)
    → rows + 128 < word
    → cols + 4 < word
    → ((l : Nvfp4ExecutionScaleLayout) × (build_nvfp4_execution_scale_layout rows cols ≡ some l)
        × (l.logical_rows ≡ rows)
        × (l.logical_blocks_per_row * 16 ≡ cols)
        × Pads 128 rows l.padded_rows
        × Pads 4 l.logical_blocks_per_row l.padded_blocks_per_row
        × (0 < rows)
        × (0 < cols))
      ⊎ ((build_nvfp4_execution_scale_layout rows cols ≡ none)
          × ((rows ≡ 0) ⊎ ((cols ≡ 0) ⊎ (0 < cols % 16))))
unfolding build_nvfp4_execution_scale_layout layout_valid
build_nvfp4_execution_scale_layout_decides rows cols row_room col_room =
    elim (Bool-cases (rows == 0 || (cols == 0 || not (cols % 16 == 0)))) [
      | inl bad ↦ inr (rw bad refl, ground arith)
      | inr good ↦
          let r = round_up_rows rows row_room in
          let b = round_up_blocks (cols / 16) (omega arith) in
          let some_rows : 0 < rows = ground arith in
          let some_cols : 0 < cols = ground arith in
          let filled : cols % 16 ≡ 0 = ground arith in
          let blocks : cols / 16 * 16 ≡ cols = omega arith in
          let some_blocks : 0 < cols / 16 = omega arith in
          let holds_rows = r.holds in
          let holds_blocks = b.holds in
          let whole_rows = r.whole in
          let whole_blocks = b.whole in
          let valid : layout_valid (layout_of rows cols) ≡ true = ground arith in
          inl (
            layout_of rows cols,
            ground (arith, good, valid),
            refl,
            blocks,
            r,
            b,
            some_rows,
            some_cols,
          )
    ]
