-- ===== src/AttentionPlan.antt =====
-- runtime/include/nemotron/paged_attention_plan.h and runtime/src/attention/paged_attention_plan.cpp:
-- the page tables of a batch. A std::int32_t is its 32-bit pattern.
use Prim.Native.Nat.{max}
use nemotron_inference.Base.{
  ℕ, zero, suc, ◌+◌, ◌-◌, ◌%◌, ◌^◌, ◌≡◌, Bool, true, false, ◌&&◌, ◌||◌, not, List, [], ◌∷◌, Option,
  none, some, ltb, leb, ◌==◌, if◌then◌else◌, add64, mul64, length, set, replicate,
}
use nemotron_inference.KvPages.{
  AttentionKvCacheConfig, PagedKvCacheArena, build_attention_kv_page_geometry,
  required_pages_for_tokens, inspect_page,
}
pub mod Checks
pub mod Table
pub mod Plans
mod Examples

unfoldable pub fits_int32 : ℕ → Bool
fits_int32 value = leb value (2 ^ 31 - 1)

-- static_cast<std::int32_t>
unfoldable pub to_int32 : ℕ → ℕ
to_int32 value = value % 2 ^ 32

-- -1
abbrev pub minus_one : ℕ
minus_one = 2 ^ 32 - 1

pub record AttentionSequencePages : Type 0 where
  pub token_count : ℕ
  pub page_ids : List ℕ

pub record PagedAttentionBatchPlan : Type 0 where
  pub cache_config : AttentionKvCacheConfig
  pub layer_index : ℕ
  pub batch_size : ℕ
  pub max_sequence_tokens : ℕ
  pub max_pages_per_sequence : ℕ
  pub page_table : List ℕ
  pub sequence_lengths : List ℕ
  pub pages_per_sequence : List ℕ

unfoldable pub plan_valid : PagedAttentionBatchPlan → Bool
plan_valid plan =
    not (plan.batch_size == 0)
    && (not (plan.cache_config.layer_count == 0)
        && (not (plan.cache_config.tokens_per_page == 0)
            && (length plan.sequence_lengths == plan.batch_size
                && (length plan.pages_per_sequence == plan.batch_size
                    && length plan.page_table
                      == mul64 plan.batch_size plan.max_pages_per_sequence))))

unfoldable pub page_table_entries : PagedAttentionBatchPlan → ℕ
page_table_entries plan = length plan.page_table

-- The look at the arena for one page, where there is one.
unfoldable pub page_owned : Option PagedKvCacheArena → ℕ → ℕ → Bool
page_owned none layer_index page_id = true
page_owned (some arena) layer_index page_id = elim (inspect_page arena page_id) [
  | none ↦ false
  | some handle ↦ handle.layer_index == layer_index
]

-- The inner loop of the checks.
unfoldable pub check_pages : Option PagedKvCacheArena → ℕ → List ℕ → Bool
unfolding fits_int32
check_pages arena layer_index [] = true
check_pages arena layer_index (page_id ∷ rest) =
    if not (fits_int32 page_id)
    then false
    else (if page_owned arena layer_index page_id
        then check_pages arena layer_index rest
        else false)

unfoldable pub check_sequence :
    AttentionKvCacheConfig → Option PagedKvCacheArena → ℕ → AttentionSequencePages → Bool
unfolding fits_int32
check_sequence config arena layer_index sequence =
    let required_pages = required_pages_for_tokens config sequence.token_count in
    if not (fits_int32 sequence.token_count)
    then false
    else (if not (length sequence.page_ids == required_pages)
        then false
        else (if not (fits_int32 required_pages)
            then false
            else check_pages arena layer_index sequence.page_ids))

-- The first loop: the two maxima, unless a check fails.
unfoldable pub check_sequences :
    AttentionKvCacheConfig
    → Option PagedKvCacheArena
    → ℕ
    → List AttentionSequencePages
    → ℕ
    → ℕ
    → Option (ℕ × ℕ)
check_sequences config arena layer_index [] tokens pages = some (tokens, pages)
check_sequences config arena layer_index (sequence ∷ rest) tokens pages =
    if check_sequence config arena layer_index sequence
    then check_sequences config arena layer_index rest (max tokens sequence.token_count)
        (max pages (required_pages_for_tokens config sequence.token_count))
    else none

-- The innermost loop of the second half: one row of the table, from a slot on.
unfoldable pub write_row : ℕ → ℕ → ℕ → List ℕ → List ℕ → List ℕ
write_row batch_index max_pages page_slot [] table = table
write_row batch_index max_pages page_slot (page_id ∷ rest) table =
    write_row batch_index max_pages (suc page_slot) rest
      (set table (add64 (mul64 batch_index max_pages) page_slot) (to_int32 page_id))

unfoldable pub write_rows : ℕ → ℕ → List AttentionSequencePages → List ℕ → List ℕ
unfolding write_row
write_rows max_pages batch_index [] table = table
write_rows max_pages batch_index (sequence ∷ rest) table =
    write_rows max_pages (suc batch_index) rest
      (write_row batch_index max_pages 0 sequence.page_ids table)

unfoldable pub lengths_of : List AttentionSequencePages → List ℕ
lengths_of [] = []
lengths_of (sequence ∷ rest) = to_int32 sequence.token_count ∷ lengths_of rest

unfoldable pub pages_of : AttentionKvCacheConfig → List AttentionSequencePages → List ℕ
pages_of config [] = []
pages_of config (sequence ∷ rest) =
    to_int32 (required_pages_for_tokens config sequence.token_count) ∷ pages_of config rest

-- The plan that the second half fills in.
unfoldable pub filled_plan :
    AttentionKvCacheConfig → ℕ → List AttentionSequencePages → ℕ → ℕ → PagedAttentionBatchPlan
filled_plan config layer_index sequences tokens pages = record {
  cache_config = config;
  layer_index = layer_index;
  batch_size = length sequences;
  max_sequence_tokens = tokens;
  max_pages_per_sequence = pages;
  page_table = write_rows pages 0 sequences (replicate (mul64 (length sequences) pages) minus_one);
  sequence_lengths = lengths_of sequences;
  pages_per_sequence = pages_of config sequences;
}

unfoldable pub build_paged_attention_batch_plan :
    AttentionKvCacheConfig
    → ℕ
    → List AttentionSequencePages
    → Option PagedKvCacheArena
    → Option PagedAttentionBatchPlan
build_paged_attention_batch_plan config layer_index sequences arena =
    elim (build_attention_kv_page_geometry config) [
      | none ↦ none
      | some _ ↦
          if leb config.layer_count layer_index || length sequences == 0
          then none
          else elim (check_sequences config arena layer_index sequences 0 0) [
            | none ↦ none
            | some (tokens, pages) ↦
                let plan = filled_plan config layer_index sequences tokens pages in
                if plan_valid plan then some plan else none
          ]
    ]
