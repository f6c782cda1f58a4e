-- ===== src/RequestContext/Examples.antt =====
-- A concrete request of two layers over four pages: the theorems at inputs that meet their
-- hypotheses, and runs.
use mathlib.Core.Option.{some-injective}
use nemotron_inference.Base.{
  ℕ, ◌≤◌, ◌<◌, ◌≡◌, refl, sym, ap, ◌∙◌, ◌⊎◌, inl, inr, true, false, [], ◌∷◌, none, some, arith,
  get_elem?,
}
use nemotron_inference.KvPages.{
  AttentionKvCacheConfig, PagedKvCacheArena, bf16, kv_cache_data_type_bytes,
  build_attention_kv_page_geometry, required_pages_for_tokens, new_pages, push_down, create,
  take_pages, allocate_pages, contains,
}
use nemotron_inference.KvPages.Pages.{is_held}
use nemotron_inference.KvPages.Validity.{create_decides}
use nemotron_inference.RequestContext.{
  RequestExecutionContext, ensure_layers, ensure_attention_tokens, all_ids, set_sequence_length,
  reset_for_new_request,
}
use nemotron_inference.RequestContext.Ownership.{Owns}
use nemotron_inference.RequestContext.Growth.{Grown, ensure_attention_tokens-Grown}
use nemotron_inference.RequestContext.Positions.{moved, grown, set_sequence_length_decides}
use nemotron_inference.RequestContext.Reset.{
  Renewed, held_is, reset_for_new_request-Renewed, reset_for_new_request-leaks,
}

-- Unfolds what the runs below compute with.
program : Unit {0}
unfolding kv_cache_data_type_bytes build_attention_kv_page_geometry required_pages_for_tokens
    new_pages push_down create take_pages allocate_pages contains ensure_layers
    ensure_attention_tokens all_ids
program = tt

abbrev kv_config : AttentionKvCacheConfig
kv_config = record {
  layer_count = 2;
  kv_head_count = 1;
  head_dim = 4;
  tokens_per_page = 8;
  dtype = bf16;
}

abbrev fresh_arena : PagedKvCacheArena
fresh_arena = record {
  config = kv_config;
  geometry = record {
    scalars_per_token = 8;
    bytes_per_scalar = 2;
    bytes_per_token = 16;
    bytes_per_page = 128;
  };
  page_states =
      record { allocated = false; layer_index = 0; byte_offset = 0 }
      ∷ record { allocated = false; layer_index = 0; byte_offset = 128 }
      ∷ record { allocated = false; layer_index = 0; byte_offset = 256 }
      ∷ [];
  free_page_ids = 0 ∷ 1 ∷ 2 ∷ [];
}

create_run : create kv_config 3 ≡ some fresh_arena
unfolding program
create_run = refl

fresh-Owns : Owns fresh_arena []
unfolding program
fresh-Owns = elim (create_decides kv_config 3) [
  | inl (a, e, f, _, _) ↦
      let same : a ≡ fresh_arena = some-injective _ _ (sym e ∙ create_run) in
      rw (← same) (record {
        valid = f.valid;
        distinct = tt;
        agree = λ j. sym (held_is a j (f.nothing_held j));
      })
  | inr (e, _) ↦ absurd (let t : none ≡ some fresh_arena = sym e ∙ create_run in cc)
]

abbrev request : RequestExecutionContext
request = record {
  config = record {
    hidden_size = 4;
    max_tokens = 16;
    scratch_tokens = 0;
    attention_kv_cache = kv_config;
    attention_total_pages = 3;
    mamba_conv_state_bytes_fp32 = 0;
    mamba_state_bytes_fp32 = 0;
  };
  kv_arena = some fresh_arena;
  kv_pages_by_layer = [] ∷ [] ∷ [];
  sequence_length = 0;
  decode_position = 0;
}

request-Owns : Owns fresh_arena (all_ids request.kv_pages_by_layer)
unfolding program
request-Owns = fresh-Owns

ensure_attention_tokens-Grown_example : Grown request 5
ensure_attention_tokens-Grown_example =
    ensure_attention_tokens-Grown request fresh_arena 5 refl request-Owns (omega arith)
      (omega arith)

-- Each layer has one page.
abbrev held_arena : PagedKvCacheArena
held_arena = record fresh_arena {
  page_states =
      record { allocated = true; layer_index = 0; byte_offset = 0 }
      ∷ record { allocated = true; layer_index = 1; byte_offset = 128 }
      ∷ record { allocated = false; layer_index = 0; byte_offset = 256 }
      ∷ [];
  free_page_ids = 2 ∷ [];
}

abbrev served : RequestExecutionContext
served = record request {
  kv_arena = some held_arena;
  kv_pages_by_layer =
      (record { page_id = 0; layer_index = 0; byte_offset = 0; tokens_per_page = 8 } ∷ [])
      ∷ (record { page_id = 1; layer_index = 1; byte_offset = 128; tokens_per_page = 8 } ∷ [])
      ∷ [];
}

ensure_run : ensure_attention_tokens request 5 ≡ some (served, true)
unfolding program
ensure_run = refl

served-Owns : Owns held_arena (all_ids served.kv_pages_by_layer)
served-Owns =
    let g = ensure_attention_tokens-Grown_example in
    let same = ap (λ r. r.0) (some-injective _ _ (sym g.returns ∙ ensure_run)) in
    let at_arena : g.arena ≡ held_arena = some-injective _ _ (ap (λ x. x.kv_arena) same) in
    let at_layers : g.layers ≡ served.kv_pages_by_layer = ap (λ x. x.kv_pages_by_layer) same in
    rw (← at_arena, ← at_layers) g.owns

set_sequence_length_decides_example :
    ((g : Grown (moved served 12 12) 12) × (set_sequence_length served 12
        ≡ some (grown (moved served 12 12) 12 g, g.ok))
      × (12 ≤ 16))
    ⊎ ((set_sequence_length served 12 ≡ some (served, false)) × (16 < 12))
set_sequence_length_decides_example =
    set_sequence_length_decides served held_arena refl served-Owns (omega arith) 12

abbrev three : ℕ
three = 3

reset_for_new_request-Renewed_example : Renewed (reset_for_new_request served true)
reset_for_new_request-Renewed_example =
    reset_for_new_request-Renewed served held_arena refl served-Owns

reset_for_new_request-leaks_example :
    ((reset_for_new_request served false).1 ≡ false)
    × ((reset_for_new_request served false).0.kv_arena ≡ some held_arena)
    × (all_ids (reset_for_new_request served false).0.kv_pages_by_layer ≡ [])
    × ((j : ℕ)
        → contains j (all_ids served.kv_pages_by_layer) ≡ true
        → is_held (get_elem? held_arena.page_states j) ≡ true)
reset_for_new_request-leaks_example = reset_for_new_request-leaks served held_arena refl served-Owns
