-- ===== src/RequestContext/Reset.antt =====
-- `ResetForNewRequest`, on both results of the zeroing.
use nemotron_inference.Base.{
  ℕ, ◌≡◌, refl, sym, ap, ◌∙◌, inl, inr, Bool-cases, Option-cases, Bool, true, false, List, [], ◌∷◌,
  none, some, get_elem?,
}
use nemotron_inference.KvPages.{
  KvPageHandle, PagedKvCacheArena, contains, inspect_page, release_pages,
}
use nemotron_inference.KvPages.Pages.{is_held}
use nemotron_inference.KvPages.Release.{Released, release_pages_decides}
use nemotron_inference.RequestContext.{
  RequestExecutionContext, all_ids, cleared_layers, release_all, reset_for_new_request,
}
use nemotron_inference.RequestContext.Ownership.{Owns}

all_ids-cleared_layers : (l : List (List KvPageHandle)) → all_ids (cleared_layers l) ≡ []
unfolding all_ids
all_ids-cleared_layers [] = refl
all_ids-cleared_layers (pages ∷ rest) = all_ids-cleared_layers rest

not_held :
    (a : PagedKvCacheArena) (j : ℕ)
    → is_held (get_elem? a.page_states j) ≡ false
    → inspect_page a j ≡ none
unfolding inspect_page
not_held a j h = elim (Option-cases (get_elem? a.page_states j)) [
  | inl e ↦ rw (e, inspect_page) refl
  | inr (page, e) ↦
      let off : page.allocated ≡ false = sym (ap is_held e) ∙ h in rw (e, inspect_page, off) refl
]

pub held_is :
    (a : PagedKvCacheArena) (j : ℕ)
    → inspect_page a j ≡ none
    → is_held (get_elem? a.page_states j) ≡ false
unfolding inspect_page
held_is a j h = elim (Option-cases (get_elem? a.page_states j)) [
  | inl e ↦ ap is_held e
  | inr (page, e) ↦ elim (Bool-cases page.allocated) [
    | inl on ↦ absurd (let t = rw (e, inspect_page, on) at h in cc)
    | inr off ↦ ap is_held e ∙ off
  ]
]

-- The release of all pages of a request that owns its arena.
release_all_lem :
    (arena : PagedKvCacheArena) (ids : List ℕ)
    → Owns arena ids
    → ((release_all arena ids true).1 ≡ true)
      × Owns (release_all arena ids true).0 []
      × ((j : ℕ) → inspect_page (release_all arena ids true).0 j ≡ none)
unfolding release_all contains
release_all_lem arena [] o = (refl, o, λ j. not_held arena j (sym (o.agree j)))
release_all_lem arena (first ∷ rest) o = elim (release_pages_decides arena (first ∷ rest) o.valid) [
  | inl (accepted, r, _, _, _) ↦
      let nothing = λ (j : ℕ). nothing_left r j in
      (
        accepted,
        record {
          valid = r.valid;
          distinct = tt;
          agree = λ j. sym (held_is (release_pages arena (first ∷ rest)).0 j (nothing j));
        },
        nothing,
      )
  | inr (_, inl e) ↦ absurd cc
  | inr (_, inr bad) ↦ absurd (bad (o.distinct, λ i c. sym (o.agree i) ∙ c))
]
  where
    nothing_left :
        Released arena (first ∷ rest) (release_pages arena (first ∷ rest)).0
        → (j : ℕ) → inspect_page (release_pages arena (first ∷ rest)).0 j ≡ none
    nothing_left r j = elim (Bool-cases (contains j (first ∷ rest))) [
      | inl c ↦ r.held j ∙ rw c refl
      | inr c ↦ r.held j ∙ rw c (not_held arena j (sym (o.agree j) ∙ c))
    ]

-- The state after a reset that succeeded: nothing is held, and the request owns its arena.
pub record Renewed (r : RequestExecutionContext × Bool) : Type 0 where
  pub ok : r.1 ≡ true
  pub arena : PagedKvCacheArena
  pub there : r.0.kv_arena ≡ some arena
  pub no_pages : all_ids r.0.kv_pages_by_layer ≡ []
  pub owns : Owns arena []
  pub nothing_held : (j : ℕ) → inspect_page arena j ≡ none
  pub no_tokens : (r.0.sequence_length ≡ 0) × (r.0.decode_position ≡ 0)

-- `ResetForNewRequest` on a request that owns its arena, where the tensors could be zeroed: it
-- succeeds, every page of the arena is free again, and the positions are 0.
pub reset_for_new_request-Renewed :
    (c : RequestExecutionContext) (arena : PagedKvCacheArena)
    → c.kv_arena ≡ some arena
    → Owns arena (all_ids c.kv_pages_by_layer)
    → Renewed (reset_for_new_request c true)
unfolding reset_for_new_request
reset_for_new_request-Renewed c arena there o =
    let (ok, owns, nothing) = release_all_lem arena (all_ids c.kv_pages_by_layer) o in
    rw (there, reset_for_new_request)
      (record {
        ok = ok;
        arena = (release_all arena (all_ids c.kv_pages_by_layer) true).0;
        there = refl;
        no_pages = all_ids-cleared_layers c.kv_pages_by_layer;
        owns = owns;
        nothing_held = nothing;
        no_tokens = (refl, refl);
      })

-- Where a tensor could not be zeroed, the reset of a request that owns its arena fails and drops its
-- pages without releasing them: each page that the request had stays allocated in the arena, and no
-- layer of the request names it any more.
pub reset_for_new_request-leaks :
    (c : RequestExecutionContext) (arena : PagedKvCacheArena)
    → c.kv_arena ≡ some arena
    → Owns arena (all_ids c.kv_pages_by_layer)
    → ((reset_for_new_request c false).1 ≡ false)
      × ((reset_for_new_request c false).0.kv_arena ≡ some arena)
      × (all_ids (reset_for_new_request c false).0.kv_pages_by_layer ≡ [])
      × ((j : ℕ)
          → contains j (all_ids c.kv_pages_by_layer) ≡ true
          → is_held (get_elem? arena.page_states j) ≡ true)
unfolding reset_for_new_request
reset_for_new_request-leaks c arena there o =
    let (failed, same) = nothing_released (all_ids c.kv_pages_by_layer) in
    (
      rw (there, reset_for_new_request) failed,
      rw (there, reset_for_new_request) (ap some same),
      rw (there, reset_for_new_request) (all_ids-cleared_layers c.kv_pages_by_layer),
      λ j h. sym (o.agree j) ∙ h,
    )
  where
    nothing_released :
        (ids : List ℕ)
        → ((release_all arena ids false).1 ≡ false) × ((release_all arena ids false).0 ≡ arena)
    nothing_released [] = unfold release_all in (refl, refl)
    nothing_released (first ∷ rest) = unfold release_all in (refl, refl)
