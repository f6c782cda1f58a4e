-- ===== src/KvPages.antt =====
-- runtime/include/nemotron/paged_kv_cache.h and runtime/src/attention/paged_kv_cache.cpp: the arena
-- of key-value cache pages. `free_page_ids_` is a vector that is used at its end only, so the model
-- lists it from its end: `back()` is the head, and the descending sort is an ascending one.
use nemotron_inference.Base.{
  ℕ, zero, suc, ◌+◌, ◌-◌, ◌*◌, ◌/◌, ◌%◌, ◌≡◌, Bool, true, false, ◌&&◌, ◌||◌, not, List, [], ◌∷◌,
  Option, none, some, ltb, leb, ◌==◌, if◌then◌else◌, add64, sub64, mul64, word, length, get_elem?,
  set,
}
pub mod Order
pub mod Pages
pub mod Validity
pub mod Taking
pub mod Allocation
pub mod Release
pub mod Return
pub mod Sizes
mod Examples

pub data KvCacheDataType : Type 0 where
  fp16 bf16 : KvCacheDataType

unfoldable pub kv_cache_data_type_bytes : KvCacheDataType → ℕ
kv_cache_data_type_bytes fp16 = 2
kv_cache_data_type_bytes bf16 = 2

pub record AttentionKvCacheConfig : Type 0 where
  pub layer_count : ℕ
  pub kv_head_count : ℕ
  pub head_dim : ℕ
  pub tokens_per_page : ℕ
  pub dtype : KvCacheDataType

pub record AttentionKvPageGeometry : Type 0 where
  pub scalars_per_token : ℕ
  pub bytes_per_scalar : ℕ
  pub bytes_per_token : ℕ
  pub bytes_per_page : ℕ

abbrev pub geometry_of : AttentionKvCacheConfig → AttentionKvPageGeometry
geometry_of config =
    let scalar = kv_cache_data_type_bytes config.dtype in
    let scalars = mul64 (mul64 2 config.kv_head_count) config.head_dim in
    let token = mul64 scalars scalar in
    record {
      scalars_per_token = scalars;
      bytes_per_scalar = scalar;
      bytes_per_token = token;
      bytes_per_page = mul64 token config.tokens_per_page;
    }

unfoldable pub build_attention_kv_page_geometry :
    AttentionKvCacheConfig → Option AttentionKvPageGeometry
build_attention_kv_page_geometry config =
    if config.layer_count == 0
      || (config.kv_head_count == 0 || (config.head_dim == 0 || config.tokens_per_page == 0))
    then none
    else (if kv_cache_data_type_bytes config.dtype == 0
        then none
        else (if (geometry_of config).bytes_per_token == 0
              || (geometry_of config).bytes_per_page == 0
            then none
            else some (geometry_of config)))

unfoldable pub model_kv_bytes_per_token : AttentionKvCacheConfig → ℕ
model_kv_bytes_per_token config = elim (build_attention_kv_page_geometry config) [
  | none ↦ 0
  | some geometry ↦ mul64 geometry.bytes_per_token config.layer_count
]

unfoldable pub required_pages_for_tokens : AttentionKvCacheConfig → ℕ → ℕ
required_pages_for_tokens config token_count =
    if config.tokens_per_page == 0 || token_count == 0
    then 0
    else sub64 (add64 token_count config.tokens_per_page) 1 / config.tokens_per_page

pub record KvPageHandle : Type 0 where
  pub page_id : ℕ
  pub layer_index : ℕ
  pub byte_offset : ℕ
  pub tokens_per_page : ℕ

pub record PageState : Type 0 where
  pub allocated : Bool
  pub layer_index : ℕ
  pub byte_offset : ℕ

pub record PagedKvCacheArena : Type 0 where
  pub config : AttentionKvCacheConfig
  pub geometry : AttentionKvPageGeometry
  pub page_states : List PageState
  pub free_page_ids : List ℕ

-- The first loop of `Create`, from page `page_id` on.
unfoldable pub new_pages : ℕ → ℕ → ℕ → List PageState
new_pages bytes_per_page page_id zero = []
new_pages bytes_per_page page_id (suc rest) =
    record { allocated = false; layer_index = 0; byte_offset = mul64 page_id bytes_per_page }
    ∷ new_pages bytes_per_page (suc page_id) rest

-- The second loop of `Create`, which counts down.
unfoldable pub push_down : ℕ → List ℕ → List ℕ
push_down zero free = free
push_down (suc page_id) free = push_down page_id (page_id ∷ free)

unfoldable pub create : AttentionKvCacheConfig → ℕ → Option PagedKvCacheArena
create config total_pages = elim (build_attention_kv_page_geometry config) [
  | none ↦ none
  | some geometry ↦
      if total_pages == 0
      then none
      else some (record {
        config = config;
        geometry = geometry;
        page_states = new_pages geometry.bytes_per_page 0 total_pages;
        free_page_ids = push_down total_pages [];
      })
]

unfoldable pub total_pages : PagedKvCacheArena → ℕ
total_pages a = length a.page_states

unfoldable pub free_pages : PagedKvCacheArena → ℕ
free_pages a = length a.free_page_ids

unfoldable pub allocated_pages : PagedKvCacheArena → ℕ
unfolding total_pages free_pages
allocated_pages a = sub64 (total_pages a) (free_pages a)

unfoldable pub total_bytes : PagedKvCacheArena → ℕ
unfolding total_pages
total_bytes a = mul64 (total_pages a) a.geometry.bytes_per_page

abbrev pub mark : ℕ → PageState → PageState
mark layer_index page = record page { allocated = true; layer_index = layer_index }

abbrev pub page_handle : AttentionKvCacheConfig → ℕ → PageState → KvPageHandle
page_handle config page_id page = record {
  page_id = page_id;
  layer_index = page.layer_index;
  byte_offset = page.byte_offset;
  tokens_per_page = config.tokens_per_page;
}

-- The loop of `AllocatePages`: the pages, the free ids and the handles after it. `none` stands for
-- `back()` of an empty vector and for an index out of range, which are undefined.
unfoldable pub take_pages :
    ℕ
    → AttentionKvCacheConfig
    → ℕ
    → List PageState
    → List ℕ
    → Option (List PageState × List ℕ × List KvPageHandle)
take_pages zero config layer_index pages free = some (pages, free, [])
take_pages (suc count) config layer_index pages [] = none
take_pages (suc count) config layer_index pages (page_id ∷ free) = elim (get_elem? pages page_id) [
  | none ↦ none
  | some page ↦
      elim (take_pages count config layer_index (set pages page_id (mark layer_index page)) free) [
        | none ↦ none
        | some (pages', free', handles) ↦
            some (pages', free', page_handle config page_id (mark layer_index page) ∷ handles)
      ]
]

-- The inner option is the result of `AllocatePages`.
unfoldable pub allocate_pages :
    PagedKvCacheArena → ℕ → ℕ → Option (PagedKvCacheArena × Option (List KvPageHandle))
allocate_pages a layer_index page_count =
    if page_count == 0
      || (leb a.config.layer_count layer_index || ltb (length a.free_page_ids) page_count)
    then some (a, none)
    else elim (take_pages page_count a.config layer_index a.page_states a.free_page_ids) [
      | none ↦ none
      | some (pages, free, handles) ↦
          some (record a { page_states = pages; free_page_ids = free }, some handles)
    ]

unfoldable pub contains : ℕ → List ℕ → Bool
contains i [] = false
contains i (x ∷ xs) = if x == i then true else contains i xs

-- The first loop of `ReleasePages`, with the ids that it has seen.
unfoldable pub releasable : List PageState → List ℕ → List ℕ → Bool
releasable pages seen [] = true
releasable pages seen (page_id ∷ rest) = elim (get_elem? pages page_id) [
  | none ↦ false
  | some page ↦
      if not page.allocated || contains page_id seen
      then false
      else releasable pages (page_id ∷ seen) rest
]

abbrev pub unmark : PageState → PageState
unmark page = record page { allocated = false; layer_index = 0 }

unfoldable pub clear_page : List PageState → ℕ → List PageState
clear_page pages page_id = elim (get_elem? pages page_id) [
  | none ↦ pages
  | some page ↦ set pages page_id (unmark page)
]

-- The second loop of `ReleasePages`, on the pages and on the free ids.
unfoldable pub clear_all : List PageState → List ℕ → List PageState
clear_all pages [] = pages
clear_all pages (page_id ∷ rest) = clear_all (clear_page pages page_id) rest

unfoldable pub push_all : List ℕ → List ℕ → List ℕ
push_all [] free = free
push_all (page_id ∷ rest) free = push_all rest (page_id ∷ free)

unfoldable pub insert_id : ℕ → List ℕ → List ℕ
insert_id i [] = i ∷ []
insert_id i (x ∷ xs) = let rest = insert_id i xs in if ltb x i then x ∷ rest else i ∷ x ∷ xs

-- std::sort, by insertion.
unfoldable pub sort_ids : List ℕ → List ℕ
sort_ids [] = []
sort_ids (x ∷ xs) = insert_id x (sort_ids xs)

unfoldable pub release_pages : PagedKvCacheArena → List ℕ → PagedKvCacheArena × Bool
release_pages a [] = (a, false)
release_pages a (first ∷ rest) =
    if releasable a.page_states [] (first ∷ rest)
    then (
      record a {
        page_states = clear_all a.page_states (first ∷ rest);
        free_page_ids = sort_ids (push_all (first ∷ rest) a.free_page_ids);
      },
      true,
    )
    else (a, false)

unfoldable pub inspect_page : PagedKvCacheArena → ℕ → Option KvPageHandle
inspect_page a page_id = elim (get_elem? a.page_states page_id) [
  | none ↦ none
  | some page ↦ if page.allocated then some (page_handle a.config page_id page) else none
]
