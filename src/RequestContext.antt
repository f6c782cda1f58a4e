-- ===== src/RequestContext.antt =====
-- runtime/include/nemotron/request_context.h and runtime/src/backend/request_context.cpp: the
-- positions and the key-value pages of a request. The tensors are device memory: whether they could
-- be zeroed is an argument. `none` in an outer option stands for an index out of range.
use nemotron_inference.Base.{
  ℕ, zero, suc, ◌+◌, ◌≡◌, Bool, true, false, ◌&&◌, not, List, [], ◌∷◌, ◌++◌, map, Option, none,
  some, ltb, leb, ◌==◌, if◌then◌else◌, add64, sub64, length, get_elem?,
}
use nemotron_inference.KvPages.{
  AttentionKvCacheConfig, KvPageHandle, PagedKvCacheArena, required_pages_for_tokens,
  allocate_pages, release_pages,
}
pub mod Ownership
pub mod Given
pub mod Growth
pub mod Positions
pub mod Reset
mod Examples

pub record RequestExecutionConfig : Type 0 where
  pub hidden_size : ℕ
  pub max_tokens : ℕ
  pub scratch_tokens : ℕ
  pub attention_kv_cache : AttentionKvCacheConfig
  pub attention_total_pages : ℕ
  pub mamba_conv_state_bytes_fp32 : ℕ
  pub mamba_state_bytes_fp32 : ℕ

pub record RequestExecutionContext : Type 0 where
  pub config : RequestExecutionConfig
  pub kv_arena : Option PagedKvCacheArena
  pub kv_pages_by_layer : List (List KvPageHandle)
  pub sequence_length : ℕ
  pub decode_position : ℕ

-- The loop of `EnsureAttentionTokens`, from a layer on: the arena, the pages of the layers, and
-- whether it went through.
unfoldable pub ensure_layers :
    ℕ
    → ℕ
    → PagedKvCacheArena
    → List (List KvPageHandle)
    → Option (PagedKvCacheArena × List (List KvPageHandle) × Bool)
ensure_layers layer_index required_pages arena [] = some (arena, [], true)
ensure_layers layer_index required_pages arena (pages ∷ rest) =
    elim (leb required_pages (length pages)) [
      | true ↦ elim (ensure_layers (suc layer_index) required_pages arena rest) [
        | none ↦ none
        | some (arena', rest', ok) ↦ some (arena', pages ∷ rest', ok)
      ]
      | false ↦ elim (allocate_pages arena layer_index (sub64 required_pages (length pages))) [
        | none ↦ none
        | some (arena', none) ↦ some (arena', pages ∷ rest, false)
        | some (arena', some allocated) ↦
            elim (ensure_layers (suc layer_index) required_pages arena' rest) [
              | none ↦ none
              | some (arena'', rest', ok) ↦ some (arena'', (pages ++ allocated) ∷ rest', ok)
            ]
      ]
    ]

unfoldable pub ensure_attention_tokens :
    RequestExecutionContext → ℕ → Option (RequestExecutionContext × Bool)
ensure_attention_tokens c token_count = elim c.kv_arena [
  | none ↦ some (c, token_count == 0)
  | some arena ↦
      if ltb c.config.max_tokens token_count
      then some (c, false)
      else elim (ensure_layers 0 (required_pages_for_tokens c.config.attention_kv_cache token_count)
          arena c.kv_pages_by_layer) [
            | none ↦ none
            | some (arena', pages, ok) ↦
                some (record c { kv_arena = some arena'; kv_pages_by_layer = pages }, ok)
          ]
]

unfoldable pub allocated_kv_pages : List (List KvPageHandle) → ℕ
allocated_kv_pages [] = 0
allocated_kv_pages (pages ∷ rest) = length pages + allocated_kv_pages rest

unfoldable pub allocated_kv_pages_in : RequestExecutionContext → ℕ → ℕ
allocated_kv_pages_in c layer_index = elim (get_elem? c.kv_pages_by_layer layer_index) [
  | none ↦ 0
  | some pages ↦ length pages
]

unfoldable pub set_sequence_length :
    RequestExecutionContext → ℕ → Option (RequestExecutionContext × Bool)
set_sequence_length c sequence_length =
    if ltb c.config.max_tokens sequence_length
    then some (c, false)
    else ensure_attention_tokens
        (record c { sequence_length = sequence_length; decode_position = sequence_length })
        sequence_length

unfoldable pub advance_decode_position :
    RequestExecutionContext → ℕ → Option (RequestExecutionContext × Bool)
advance_decode_position c token_count =
    if token_count == 0
    then some (c, true)
    else (if ltb c.config.max_tokens c.decode_position
        then some (c, false)
        else (if ltb (sub64 c.config.max_tokens c.decode_position) token_count
            then some (c, false)
            else (let position = add64 c.decode_position token_count in
                let length' =
                  if ltb c.sequence_length position then position else c.sequence_length in
                ensure_attention_tokens
                  (record c { sequence_length = length'; decode_position = position }) length')))

-- The two loops that gather the ids of a request's pages.
unfoldable pub all_ids : List (List KvPageHandle) → List ℕ
all_ids [] = []
all_ids (pages ∷ rest) = map (λ h. h.page_id) pages ++ all_ids rest

abbrev pub cleared_layers : List (List KvPageHandle) → List (List KvPageHandle)
cleared_layers = map (λ _. [])

-- The release of the pages, behind the `&&` of the results so far.
unfoldable pub release_all : PagedKvCacheArena → List ℕ → Bool → PagedKvCacheArena × Bool
release_all arena [] ok = (arena, ok)
release_all arena (first ∷ rest) false = (arena, false)
release_all arena (first ∷ rest) true = release_pages arena (first ∷ rest)

-- `zeroed` is whether each FillZero succeeded.
unfoldable pub reset_for_new_request :
    RequestExecutionContext → Bool → RequestExecutionContext × Bool
reset_for_new_request c zeroed = elim c.kv_arena [
  | none ↦ (
    record c {
      kv_pages_by_layer = cleared_layers c.kv_pages_by_layer;
      sequence_length = 0;
      decode_position = 0;
    },
    zeroed,
  )
  | some arena ↦
      let (arena', ok) = release_all arena (all_ids c.kv_pages_by_layer) zeroed in
      (
        record c {
          kv_arena = some arena';
          kv_pages_by_layer = cleared_layers c.kv_pages_by_layer;
          sequence_length = 0;
          decode_position = 0;
        },
        ok,
      )
]
