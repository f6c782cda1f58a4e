-- ===== src/AttentionPlan/Examples.antt =====
-- A concrete batch: the theorems at inputs that meet their hypotheses, and a run.
use nemotron_inference.Base.{ℕ, ◌≤◌, ◌<◌, ◌≡◌, refl, ◌⊎◌, List, [], ◌∷◌, none, some, arith, length}
use nemotron_inference.KvPages.{
  AttentionKvCacheConfig, bf16, build_attention_kv_page_geometry, kv_cache_data_type_bytes,
  required_pages_for_tokens,
}
use nemotron_inference.AttentionPlan.{
  AttentionSequencePages, PagedAttentionBatchPlan, minus_one, fits_int32, to_int32, page_owned,
  check_pages, check_sequence, check_sequences, write_row, write_rows, lengths_of, pages_of,
  filled_plan, plan_valid, build_paged_attention_batch_plan,
}
use nemotron_inference.AttentionPlan.Checks.{Admitted}
use nemotron_inference.AttentionPlan.Table.{NoWider}
use nemotron_inference.AttentionPlan.Plans.{Planned, build_paged_attention_batch_plan_decides}

-- Unfolds what the runs below compute with.
program : Unit {0}
unfolding kv_cache_data_type_bytes build_attention_kv_page_geometry required_pages_for_tokens
    fits_int32 to_int32 page_owned check_pages check_sequence check_sequences write_row write_rows
    lengths_of pages_of filled_plan plan_valid build_paged_attention_batch_plan
program = tt

abbrev config : AttentionKvCacheConfig
config = record {
  layer_count = 2;
  kv_head_count = 1;
  head_dim = 4;
  tokens_per_page = 8;
  dtype = bf16;
}

abbrev batch : List AttentionSequencePages
batch =
    record { token_count = 9; page_ids = 2 ∷ 0 ∷ [] }
    ∷ record { token_count = 3; page_ids = 1 ∷ [] }
    ∷ []

abbrev no_sequences : ℕ
no_sequences = length batch

abbrev batch_plan : PagedAttentionBatchPlan
batch_plan = record {
  cache_config = config;
  layer_index = 1;
  batch_size = 2;
  max_sequence_tokens = 9;
  max_pages_per_sequence = 2;
  page_table = 2 ∷ 0 ∷ 1 ∷ minus_one ∷ [];
  sequence_lengths = 9 ∷ 3 ∷ [];
  pages_per_sequence = 2 ∷ 1 ∷ [];
}

batch_run : build_paged_attention_batch_plan config 1 batch none ≡ some batch_plan
unfolding program
batch_run = refl

build_paged_attention_batch_plan_decides_example :
    ((plan : PagedAttentionBatchPlan) × (build_paged_attention_batch_plan config 1 batch none
        ≡ some plan)
      × Planned config none 1 batch plan
      × (1 < 2)
      × (0 < 2))
    ⊎ ((build_paged_attention_batch_plan config 1 batch none ≡ none)
        × ((build_attention_kv_page_geometry config ≡ none)
            ⊎ ((2 ≤ 1) ⊎ ((no_sequences ≡ 0) ⊎ ¬ Admitted config none 1 batch))))
build_paged_attention_batch_plan_decides_example =
    build_paged_attention_batch_plan_decides config none 1 batch (omega arith)

batch-NoWider : NoWider 2 batch
batch-NoWider = (omega arith, (omega arith, tt))
