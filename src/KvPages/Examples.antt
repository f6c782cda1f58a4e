-- ===== src/KvPages/Examples.antt =====
-- A concrete arena of four pages: the theorems at inputs that meet their hypotheses, and runs.
use mathlib.Core.Option.{some-injective}
use nemotron_inference.Base.{
  ℕ, ◌+◌, ◌*◌, ◌≤◌, ◌<◌, ◌≡◌, refl, sym, ap, ◌∙◌, ◌⊎◌, inl, inr, true, false, List, [], ◌∷◌, none,
  some, arith,
}
use nemotron_inference.KvPages.{
  AttentionKvCacheConfig, KvPageHandle, PagedKvCacheArena, bf16, kv_cache_data_type_bytes,
  build_attention_kv_page_geometry, required_pages_for_tokens, new_pages, push_down, create,
  take_pages, allocate_pages, contains, releasable, clear_page, clear_all, push_all, insert_id,
  sort_ids, release_pages, inspect_page, total_bytes, total_pages,
}
use nemotron_inference.KvPages.Order.{NoRepeat}
use nemotron_inference.KvPages.Validity.{IsValid, Fresh, create_decides}
use nemotron_inference.KvPages.Allocation.{Allotted, allocate_pages_decides}
use nemotron_inference.KvPages.Release.{Held, Released, release_pages_decides}
use nemotron_inference.KvPages.Return.{allocate_then_release}
use nemotron_inference.KvPages.Sizes.{required_pages_for_tokens-least, inspect_page-disjoint}

-- Unfolds what the runs below compute with.
program : Unit {0}
unfolding kv_cache_data_type_bytes build_attention_kv_page_geometry required_pages_for_tokens
    new_pages push_down create take_pages allocate_pages contains releasable clear_page clear_all
    push_all insert_id sort_ids release_pages inspect_page total_bytes total_pages
program = tt

abbrev small_config : AttentionKvCacheConfig
small_config = record {
  layer_count = 2;
  kv_head_count = 1;
  head_dim = 4;
  tokens_per_page = 8;
  dtype = bf16;
}

abbrev four_pages : ℕ
four_pages = 4

abbrev two_pages : ℕ
two_pages = 2

abbrev twice : List ℕ
twice = 1 ∷ 1 ∷ []

create_decides_example :
    ((a : PagedKvCacheArena) × (create small_config 4 ≡ some a)
      × Fresh a 4
      × (0 < 4)
      × (build_attention_kv_page_geometry small_config ≡ some a.geometry))
    ⊎ ((create small_config 4 ≡ none)
        × ((build_attention_kv_page_geometry small_config ≡ none) ⊎ (four_pages ≡ 0)))
create_decides_example = create_decides small_config 4

-- Four pages of 128 bytes, all free.
abbrev four : PagedKvCacheArena
four = record {
  config = small_config;
  geometry = record {
    scalars_per_token = 8;
    bytes_per_scalar = 2;
    bytes_per_token = 16;
    bytes_per_page = 128;
  };
  page_states =
      record { allocated = false; layer_index = 0; byte_offset = 0 }
      ∷ record { allocated = false; layer_index = 0; byte_offset = 128 }
      ∷ record { allocated = false; layer_index = 0; byte_offset = 256 }
      ∷ record { allocated = false; layer_index = 0; byte_offset = 384 }
      ∷ [];
  free_page_ids = 0 ∷ 1 ∷ 2 ∷ 3 ∷ [];
}

create_run : create small_config 4 ≡ some four
unfolding program
create_run = refl

four-IsValid : IsValid four
four-IsValid = elim (create_decides small_config 4) [
  | inl (a, e, f, _, _) ↦ rw (← some-injective _ _ (sym e ∙ create_run)) f.valid
  | inr (e, _) ↦ absurd (let t : none ≡ some four = sym e ∙ create_run in cc)
]

-- Two of the pages, held by layer 1.
abbrev two_held : PagedKvCacheArena
two_held = record four {
  page_states =
      record { allocated = true; layer_index = 1; byte_offset = 0 }
      ∷ record { allocated = true; layer_index = 1; byte_offset = 128 }
      ∷ record { allocated = false; layer_index = 0; byte_offset = 256 }
      ∷ record { allocated = false; layer_index = 0; byte_offset = 384 }
      ∷ [];
  free_page_ids = 2 ∷ 3 ∷ [];
}

abbrev first_page : KvPageHandle
first_page = record { page_id = 0; layer_index = 1; byte_offset = 0; tokens_per_page = 8 }

abbrev second_page : KvPageHandle
second_page = record { page_id = 1; layer_index = 1; byte_offset = 128; tokens_per_page = 8 }

allocate_run : allocate_pages four 1 2 ≡ some (two_held, some (first_page ∷ second_page ∷ []))
unfolding program
allocate_run = refl

allocate_pages_decides_example :
    ((b : PagedKvCacheArena) × (handles : List KvPageHandle) × (allocate_pages four 1 2
        ≡ some (b, some handles))
      × Allotted four 1 2 b handles
      × (0 < 2)
      × (1 < 2)
      × (2 ≤ 4))
    ⊎ ((allocate_pages four 1 2 ≡ some (four, none)) × ((two_pages ≡ 0) ⊎ ((2 ≤ 1) ⊎ (4 < 2))))
allocate_pages_decides_example = allocate_pages_decides four 1 2 four-IsValid

two_held-IsValid : IsValid two_held
two_held-IsValid = elim (allocate_pages_decides four 1 2 four-IsValid) [
  | inl (b, handles, e, t, _, _, _) ↦
      let same : b ≡ two_held = ap (λ r. r.0) (some-injective _ _ (sym e ∙ allocate_run)) in
      rw (← same) t.valid
  | inr (e, _) ↦ absurd (
      let t : none ≡ some (first_page ∷ second_page ∷ []) =
        ap (λ r. r.1) (some-injective _ _ (sym e ∙ allocate_run)) in
      cc)
]

release_pages_decides_example :
    ((release_pages two_held (1 ∷ 1 ∷ [])).1 ≡ true
      × Released two_held (1 ∷ 1 ∷ []) (release_pages two_held (1 ∷ 1 ∷ [])).0
      × NoRepeat (1 ∷ 1 ∷ [])
      × Held two_held.page_states (1 ∷ 1 ∷ [])
      × (0 < 2))
    ⊎ (release_pages two_held (1 ∷ 1 ∷ []) ≡ (two_held, false)
        × ((twice ≡ []) ⊎ ¬ (NoRepeat (1 ∷ 1 ∷ []) × Held two_held.page_states (1 ∷ 1 ∷ []))))
release_pages_decides_example = release_pages_decides two_held (1 ∷ 1 ∷ []) two_held-IsValid

allocate_then_release_example : release_pages two_held (0 ∷ 1 ∷ []) ≡ (four, true)
allocate_then_release_example =
    allocate_then_release four two_held 1 2 (first_page ∷ second_page ∷ []) four-IsValid
      allocate_run

required_pages_for_tokens-least_example :
    (17 ≤ required_pages_for_tokens small_config 17 * 8)
    × (required_pages_for_tokens small_config 17 * 8 < 17 + 8)
required_pages_for_tokens-least_example =
    required_pages_for_tokens-least small_config 17 (omega arith) (omega arith)

inspect_page-disjoint_example :
    (first_page.byte_offset + 128 ≤ second_page.byte_offset)
    × (second_page.byte_offset + 128 ≤ total_bytes two_held)
unfolding program
inspect_page-disjoint_example =
    inspect_page-disjoint two_held 0 1 first_page second_page two_held-IsValid (omega arith) refl
      refl (omega arith)
