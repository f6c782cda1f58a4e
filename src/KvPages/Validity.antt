-- ===== src/KvPages/Validity.antt =====
-- The well-formedness of the page arena, and its start.
use nemotron_inference.Base.{
  ℕ, zero, suc, ◌+◌, ◌<◌, ◌≡◌, refl, ap, ◌∙◌, inl, inr, Bool-cases, Option-cases, true, false, ◌⊎◌,
  List, [], ◌∷◌, none, some, arith, ltb, ◌==◌, if◌then◌else◌, length, get_elem?, mul64,
}
use nemotron_inference.KvPages.{
  AttentionKvCacheConfig, AttentionKvPageGeometry, PageState, PagedKvCacheArena, contains, create,
  new_pages, push_down, inspect_page, build_attention_kv_page_geometry, total_pages, free_pages,
}
use nemotron_inference.KvPages.Order.{Above, Above-weaken, Ascending}
use nemotron_inference.KvPages.Pages.{is_free, get-new_pages, there-new_pages, new_pages-there}

-- The free ids ascend, they are the ids of the pages that are not allocated, a free page has no
-- layer, and every page starts at its id times the size of a page.
pub record IsValid (a : PagedKvCacheArena) : Type 0 where
  pub ascending : Ascending a.free_page_ids
  pub agree : (i : ℕ) → contains i a.free_page_ids ≡ is_free (get_elem? a.page_states i)
  pub cleared :
      (i : ℕ) (page : PageState)
      → get_elem? a.page_states i ≡ some page
      → page.allocated ≡ false
      → page.layer_index ≡ 0
  pub offsets :
      (i : ℕ) (page : PageState)
      → get_elem? a.page_states i ≡ some page
      → page.byte_offset ≡ mul64 i a.geometry.bytes_per_page

push_down-Ascending :
    (n : ℕ) (s : List ℕ)
    → Ascending s
    → ((p : ℕ) → suc p ≡ n → Above p s)
    → Ascending (push_down n s)
unfolding push_down
push_down-Ascending zero s a h = a
push_down-Ascending (suc n) s a h =
    push_down-Ascending n (n ∷ s) (h n refl, a)
      (λ p e. (omega arith, Above-weaken p n s (omega arith) (h n refl)))

contains-push_down :
    (i n : ℕ) (s : List ℕ) → contains i (push_down n s) ≡ (if ltb i n then true else contains i s)
unfolding push_down contains
contains-push_down i zero s = ground arith
contains-push_down i (suc n) s = contains-push_down i n (n ∷ s) ∙ ground arith

length-push_down : (n : ℕ) (s : List ℕ) → length (push_down n s) ≡ n + length s
unfolding push_down
length-push_down zero s = omega arith
length-push_down (suc n) s = let h = length-push_down n (n ∷ s) in omega arith

length-new_pages : (bytes first count : ℕ) → length (new_pages bytes first count) ≡ count
unfolding new_pages
length-new_pages bytes first zero = refl
length-new_pages bytes first (suc count) = ap suc (length-new_pages bytes (suc first) count)

new_agree :
    (bytes n i : ℕ) → contains i (push_down n []) ≡ is_free (get_elem? (new_pages bytes 0 n) i)
unfolding contains
new_agree bytes n i =
    contains-push_down i n [] ∙ elim (Bool-cases (is_free (get_elem? (new_pages bytes 0 n) i))) [
      | inl e ↦ let less = there-new_pages bytes 0 n i e in ground arith
      | inr e ↦ elim (Bool-cases (ltb i n)) [
        | inl l ↦ absurd (let t = new_pages-there bytes 0 n i (ground arith) in ground arith)
        | inr l ↦ ground arith
      ]
    ]

-- The arena that `Create` makes.
abbrev fresh : AttentionKvCacheConfig → AttentionKvPageGeometry → ℕ → PagedKvCacheArena
fresh config geometry n = record {
  config = config;
  geometry = geometry;
  page_states = new_pages geometry.bytes_per_page 0 n;
  free_page_ids = push_down n [];
}

fresh-IsValid :
    (config : AttentionKvCacheConfig) (geometry : AttentionKvPageGeometry) (n : ℕ)
    → IsValid (fresh config geometry n)
fresh-IsValid config geometry n = record {
  ascending = push_down-Ascending n [] tt (λ p e. tt);
  agree = new_agree geometry.bytes_per_page n;
  cleared =
      λ i page e free. ap (λ q. q.layer_index) (get-new_pages geometry.bytes_per_page 0 n i page e);
  offsets = λ i page e.
      ap (λ q. q.byte_offset) (get-new_pages geometry.bytes_per_page 0 n i page e)
      ∙ ap (λ k. mul64 k geometry.bytes_per_page) (omega arith);
}

-- An arena that is well formed, with that many pages, all free.
pub record Fresh (a : PagedKvCacheArena) (n : ℕ) : Type 0 where
  pub valid : IsValid a
  pub pages : total_pages a ≡ n
  pub all_free : free_pages a ≡ n
  pub nothing_held : (i : ℕ) → inspect_page a i ≡ none

fresh-Fresh :
    (config : AttentionKvCacheConfig) (geometry : AttentionKvPageGeometry) (n : ℕ)
    → Fresh (fresh config geometry n) n
unfolding total_pages free_pages inspect_page
fresh-Fresh config geometry n = record {
  valid = fresh-IsValid config geometry n;
  pages = length-new_pages geometry.bytes_per_page 0 n;
  all_free = let l = length-push_down n [] in omega arith;
  nothing_held = λ i. elim (Option-cases (get_elem? (new_pages geometry.bytes_per_page 0 n) i)) [
    | inl e ↦ rw (e, inspect_page) refl
    | inr (page, e) ↦
        let known = get-new_pages geometry.bytes_per_page 0 n i page e in
        let off : page.allocated ≡ false = ap (λ q. q.allocated) known in
        rw (e, inspect_page, off) refl
  ];
}

-- `Create` makes an arena exactly when the geometry can be built and there is a page; then the arena
-- is well formed, has that many pages, and all of them are free.
pub create_decides :
    (config : AttentionKvCacheConfig) (n : ℕ)
    → ((a : PagedKvCacheArena) × (create config n ≡ some a)
        × Fresh a n
        × (0 < n)
        × (build_attention_kv_page_geometry config ≡ some a.geometry))
      ⊎ ((create config n ≡ none) × ((build_attention_kv_page_geometry config ≡ none) ⊎ (n ≡ 0)))
unfolding create
create_decides config n = elim (Option-cases (build_attention_kv_page_geometry config)) [
  | inl e ↦ inr (rw (e, create) refl, inl e)
  | inr (geometry, e) ↦ elim (Bool-cases (n == 0)) [
    | inl z ↦ inr (rw (e, create, z) refl, inr (ground arith))
    | inr p ↦ inl (
      fresh config geometry n,
      rw (e, create, p) refl,
      fresh-Fresh config geometry n,
      ground arith,
      e,
    )
  ]
]
