-- ===== src/AttentionPlan/Plans.antt =====
-- `BuildPagedAttentionBatchPlan` on every branch.
use native.Mathlib.Nat.{mod-eq_of_lt, mul-le-mul_left}
use nemotron_inference.Base.{
  ℕ, zero, suc, ◌*◌, ◌^◌, ◌≤◌, ◌<◌, ◌≡◌, refl, sym, ap, ap₂, ◌∙◌, ◌⊎◌, inl, inr, Bool-cases,
  Option-cases, true, ◌||◌, List, [], ◌∷◌, map, Option, none, some, arith, leb, ◌==◌, length,
  length-map, mul64, word, get_elem?,
}
use nemotron_inference.KvPages.{
  AttentionKvCacheConfig, AttentionKvPageGeometry, PagedKvCacheArena,
  build_attention_kv_page_geometry,
}
use nemotron_inference.AttentionPlan.{
  AttentionSequencePages, PagedAttentionBatchPlan, to_int32, plan_valid, lengths_of, pages_of,
  filled_plan, build_paged_attention_batch_plan,
}
use nemotron_inference.AttentionPlan.Table.{rows, write_rows-rows, length-rows}
use nemotron_inference.AttentionPlan.Checks.{
  Admitted, Greatest, page_count, tokens_of, passed, failed, check_sequences-Checked,
  Greatest→NoWider,
}

geometry_positive :
    (config : AttentionKvCacheConfig) (g : AttentionKvPageGeometry)
    → build_attention_kv_page_geometry config ≡ some g
    → (0 < config.layer_count) × (0 < config.tokens_per_page)
unfolding build_attention_kv_page_geometry
geometry_positive config g e =
    elim (Bool-cases (
      config.layer_count == 0
      || (config.kv_head_count == 0 || (config.head_dim == 0 || config.tokens_per_page == 0)))) [
        | inl bad ↦
            absurd (let t : none ≡ some g = rw (bad, build_attention_kv_page_geometry) at e in cc)
        | inr good ↦ (ground arith, ground arith)
      ]

module _ (config : AttentionKvCacheConfig) (arena : Option PagedKvCacheArena) (layer : ℕ) where
  -- What a plan holds.
  pub record Planned (sequences : List AttentionSequencePages) (plan : PagedAttentionBatchPlan)
      : Type 0 where
    pub admitted : Admitted config arena layer sequences
    pub same_config : plan.cache_config ≡ config
    pub same_layer : plan.layer_index ≡ layer
    pub batch : plan.batch_size ≡ length sequences
    pub tokens :
        Greatest config arena layer
          (tokens_of config arena layer)
          sequences
          0
          plan.max_sequence_tokens
    pub pages :
        Greatest config arena layer
          (page_count config arena layer)
          sequences
          0
          plan.max_pages_per_sequence
    pub table : plan.page_table ≡ rows plan.max_pages_per_sequence sequences
    pub lengths : plan.sequence_lengths ≡ map (tokens_of config arena layer) sequences
    pub counts : plan.pages_per_sequence ≡ map (page_count config arena layer) sequences

  lengths_of-map :
      (sequences : List AttentionSequencePages)
      → Admitted config arena layer sequences
      → lengths_of sequences ≡ map (tokens_of config arena layer) sequences
  unfolding lengths_of to_int32
  lengths_of-map [] a = refl
  lengths_of-map (s ∷ rest) (a, others) =
      let fit = a.tokens_fit in
      ap₂ (λ x l. x ∷ l) (mod-eq_of_lt (omega arith)) (lengths_of-map rest others)

  pages_of-map :
      (sequences : List AttentionSequencePages)
      → Admitted config arena layer sequences
      → pages_of config sequences ≡ map (page_count config arena layer) sequences
  unfolding pages_of to_int32
  pages_of-map [] a = refl
  pages_of-map (s ∷ rest) (a, others) =
      let fit = a.pages_fit in
      let needed = a.needed in
      ap₂ (λ x l. x ∷ l) (mod-eq_of_lt (omega arith) ∙ sym needed) (pages_of-map rest others)

  Admitted-at :
      (sequences : List AttentionSequencePages) (i : ℕ) (s : AttentionSequencePages)
      → Admitted config arena layer sequences
      → get_elem? sequences i ≡ some s
      → length s.page_ids < 2 ^ 31
  Admitted-at [] i s a e = absurd cc
  Admitted-at (t ∷ rest) zero s (a, others) e =
      let fit = a.pages_fit in
      let same : t ≡ s = ground arith in
      let size : length t.page_ids ≡ length s.page_ids = ap (λ x. length x.page_ids) same in
      omega arith
  Admitted-at (t ∷ rest) (suc i) s (a, others) e = Admitted-at rest i s others e

  row_small :
      (sequences : List AttentionSequencePages) (p : ℕ)
      → Admitted config arena layer sequences
      → Greatest config arena layer (page_count config arena layer) sequences 0 p
      → p < 2 ^ 31
  row_small sequences p a g = elim g.reached [
    | inl e ↦ omega arith
    | inr (i, s, e, same) ↦ let less = Admitted-at sequences i s a e in omega arith
  ]

  filled_plan-Planned :
      (sequences : List AttentionSequencePages) (t p : ℕ)
      → Admitted config arena layer sequences
      → Greatest config arena layer (tokens_of config arena layer) sequences 0 t
      → Greatest config arena layer (page_count config arena layer) sequences 0 p
      → length sequences < 2 ^ 33
      → Planned sequences (filled_plan config layer sequences t p)
  unfolding filled_plan
  filled_plan-Planned sequences t p a g h small =
      let wide = Greatest→NoWider config arena layer sequences 0 p h in
      let less = row_small sequences p a h in
      let row_le : p ≤ 2 ^ 31 = omega arith in
      let size = mul-le-mul_left (length sequences) row_le in
      let fits : length sequences * p < word = omega arith in
      record {
        admitted = a;
        same_config = refl;
        same_layer = refl;
        batch = refl;
        tokens = g;
        pages = h;
        table = write_rows-rows p sequences wide fits;
        lengths = lengths_of-map sequences a;
        counts = pages_of-map sequences a;
      }

  Planned-valid :
      (sequences : List AttentionSequencePages) (plan : PagedAttentionBatchPlan)
      → Planned sequences plan
      → 0 < length sequences
      → length sequences < 2 ^ 33
      → 0 < config.layer_count
      → 0 < config.tokens_per_page
      → plan_valid plan ≡ true
  unfolding plan_valid
  Planned-valid sequences plan p some_sequences small layers page =
      let wide =
        Greatest→NoWider config arena layer sequences 0 plan.max_pages_per_sequence p.pages in
      let less = row_small sequences plan.max_pages_per_sequence p.admitted p.pages in
      let row_le : plan.max_pages_per_sequence ≤ 2 ^ 31 = omega arith in
      let size = mul-le-mul_left (length sequences) row_le in
      let fits : length sequences * plan.max_pages_per_sequence < word = omega arith in
      let product : mul64 plan.batch_size plan.max_pages_per_sequence
          ≡ length sequences * plan.max_pages_per_sequence =
        ap (λ n. mul64 n plan.max_pages_per_sequence) p.batch ∙ mod-eq_of_lt fits in
      let table : length plan.page_table ≡ mul64 plan.batch_size plan.max_pages_per_sequence =
        ap length p.table ∙ length-rows plan.max_pages_per_sequence sequences wide ∙ sym product in
      let lengths : length plan.sequence_lengths ≡ plan.batch_size =
        ap length p.lengths ∙ length-map sequences (tokens_of config arena layer) ∙ sym p.batch in
      let counts : length plan.pages_per_sequence ≡ plan.batch_size =
        ap length p.counts ∙ length-map sequences (page_count config arena layer) ∙ sym p.batch in
      let layers_same : plan.cache_config.layer_count ≡ config.layer_count =
        ap (λ c. c.layer_count) p.same_config in
      let page_same : plan.cache_config.tokens_per_page ≡ config.tokens_per_page =
        ap (λ c. c.tokens_per_page) p.same_config in
      ground (arith, p.batch)

  -- For a batch of less than 2 ^ 33 sequences: there is a plan exactly when the geometry can be
  -- built, the layer exists, the batch is not empty, and every sequence fits an int32, has exactly
  -- the pages that its tokens need and has each of them held by the layer, where there is an arena.
  -- The table of the plan has a row for each sequence, its pages and then -1, as long as the longest
  -- needs; the lengths, the page counts and both maxima are those of the sequences.
  pub build_paged_attention_batch_plan_decides :
      (sequences : List AttentionSequencePages)
      → length sequences < 2 ^ 33
      → ((plan : PagedAttentionBatchPlan) × (build_paged_attention_batch_plan config layer sequences
              arena
            ≡ some plan)
          × Planned sequences plan
          × (layer < config.layer_count)
          × (0 < length sequences))
        ⊎ ((build_paged_attention_batch_plan config layer sequences arena ≡ none)
            × ((build_attention_kv_page_geometry config ≡ none)
                ⊎ ((config.layer_count ≤ layer)
                    ⊎ ((length sequences ≡ 0) ⊎ ¬ Admitted config arena layer sequences))))
  unfolding build_paged_attention_batch_plan
  build_paged_attention_batch_plan_decides sequences small =
      elim (Option-cases (build_attention_kv_page_geometry config)) [
        | inl e ↦ inr (rw (e, build_paged_attention_batch_plan) refl, inl e)
        | inr (g, e) ↦ elim (Bool-cases (leb config.layer_count layer || length sequences == 0)) [
          | inl bad ↦ inr (
            rw (e, build_paged_attention_batch_plan, bad) refl,
            inr (elim (Bool-cases (leb config.layer_count layer)) [
              | inl above ↦ inl (ground arith)
              | inr below ↦ inr (inl (ground arith))
            ]),
          )
          | inr good ↦
              let (layers, page) = geometry_positive config g e in
              let some_sequences : 0 < length sequences = ground arith in
              elim (check_sequences-Checked config arena layer sequences 0 0) [
                | failed q bad ↦
                    inr
                      (rw (e, build_paged_attention_batch_plan, good, q) refl, inr (inr (inr bad)))
                | passed t p q a greatest_t greatest_p ↦
                    let planned = filled_plan-Planned sequences t p a greatest_t greatest_p small in
                    let valid =
                      Planned-valid sequences (filled_plan config layer sequences t p) planned
                        some_sequences small layers page in
                    inl (
                      filled_plan config layer sequences t p,
                      rw (e, build_paged_attention_batch_plan, good, q, valid) refl,
                      planned,
                      ground arith,
                      some_sequences,
                    )
              ]
        ]
      ]
