-- ===== src/KvPages/Return.antt =====
-- `ReleasePages` of what `AllocatePages` handed out.
use nemotron_inference.Base.{
  ℕ, ◌≤◌, ◌<◌, ◌≡◌, refl, sym, ap, ◌∙◌, inl, inr, Bool-cases, true, false, List, [], ◌∷◌, ◌++◌, map,
  none, some, arith, length, get_elem?, take, drop, take-append-drop, length-take, subst,
}
use mathlib.Core.Option
use nemotron_inference.KvPages.{
  KvPageHandle, PageState, PagedKvCacheArena, contains, allocate_pages, release_pages, unmark, mark,
  clear_all, push_all, sort_ids,
}
use nemotron_inference.KvPages.Order.{
  Ascending, NoRepeat, Ascending-NoRepeat, Ascending-append, contains-append, sort_pushed,
}
use nemotron_inference.KvPages.Pages.{is_free, is_held, get-clear_all, same_elements}
use nemotron_inference.KvPages.Validity.{IsValid}
use nemotron_inference.KvPages.Taking.{handle_of, free_there}
use nemotron_inference.KvPages.Allocation.{Allotted, allocate_pages_decides}
use nemotron_inference.KvPages.Release.{Held, release_pages_accepts}

-- The ids of handles.
abbrev pub ids_of : List KvPageHandle → List ℕ
ids_of = map (λ h. h.page_id)

pub ids_of-handles :
    (a : PagedKvCacheArena) (layer : ℕ) (ids : List ℕ) → ids_of (map (handle_of a layer) ids) ≡ ids
ids_of-handles a layer [] = refl
ids_of-handles a layer (i ∷ ids) = ap (λ t. i ∷ t) (ids_of-handles a layer ids)

same_arena :
    (a b : PagedKvCacheArena)
    → a.config ≡ b.config
    → a.geometry ≡ b.geometry
    → a.page_states ≡ b.page_states
    → a.free_page_ids ≡ b.free_page_ids
    → a ≡ b
same_arena a b p q r s = cc

-- Releasing what a request was granted gives back the arena that there was.
pub release_pages-allocate_pages :
    (a b : PagedKvCacheArena) (layer count : ℕ) (handles : List KvPageHandle)
    → IsValid a
    → Allotted a layer count b handles
    → 0 < count
    → count ≤ length a.free_page_ids
    → release_pages b (ids_of handles) ≡ (a, true)
release_pages-allocate_pages a b layer count handles v t some_pages room =
    rw (t.handed, ids_of-handles a layer ids)
      (release_pages_accepts b ids distinct held
          (let l = length-take count a.free_page_ids in omega arith)
        ∙ ap (λ r. (r, true))
            (same_arena _ a t.same_config t.same_geometry
              (same_elements (clear_all b.page_states ids) a.page_states restored) free_again))
  where
    ids : List ℕ
    ids = take count a.free_page_ids

    halves : Ascending (ids ++ drop count a.free_page_ids)
    halves = subst Ascending (sym (take-append-drop count a.free_page_ids)) v.ascending

    distinct : NoRepeat ids
    distinct = Ascending-NoRepeat ids (Ascending-append ids (drop count a.free_page_ids) halves).0

    was_free : (i : ℕ) → contains i ids ≡ true → is_free (get_elem? a.page_states i) ≡ true
    was_free i c =
        let both = contains-append i ids (drop count a.free_page_ids) in
        sym (v.agree i)
        ∙ ap (contains i) (sym (take-append-drop count a.free_page_ids))
        ∙ both
        ∙ rw c refl

    held : Held b.page_states ids
    held i c =
        let (page, there, off) = free_there (get_elem? a.page_states i) (was_free i c) in
        let now : get_elem? b.page_states i ≡ some (mark layer page) =
          t.pages i ∙ rw (c, there) refl in
        ap is_held now

    same_page :
        (page : PageState)
        → page.allocated ≡ false
        → page.layer_index ≡ 0
        → unmark (mark layer page) ≡ page
    same_page page off none_at = cc

    restored : (j : ℕ) → get_elem? (clear_all b.page_states ids) j ≡ get_elem? a.page_states j
    restored j = elim (Bool-cases (contains j ids)) [
      | inl c ↦
          let (page, there, off) = free_there (get_elem? a.page_states j) (was_free j c) in
          let now : get_elem? b.page_states j ≡ some (mark layer page) =
            t.pages j ∙ rw (c, there) refl in
          let back : get_elem? (clear_all b.page_states ids) j ≡ some (unmark (mark layer page)) =
            get-clear_all b.page_states ids j ∙ rw (c, now) refl in
          back ∙ ap some (same_page page off (v.cleared j page there off)) ∙ sym there
      | inr c ↦
          let now : get_elem? b.page_states j ≡ get_elem? a.page_states j = t.pages j ∙ rw c refl in
          let back : get_elem? (clear_all b.page_states ids) j ≡ get_elem? b.page_states j =
            get-clear_all b.page_states ids j ∙ rw c refl in
          back ∙ now
    ]

    free_again : sort_ids (push_all ids b.free_page_ids) ≡ a.free_page_ids
    free_again =
        ap (λ s. sort_ids (push_all ids s)) t.left
        ∙ sort_pushed ids (drop count a.free_page_ids) halves
        ∙ take-append-drop count a.free_page_ids

-- In a well-formed arena, releasing the pages of the handles that `AllocatePages` returned is granted
-- and leaves the arena exactly as it was before the allocation.
pub allocate_then_release :
    (a b : PagedKvCacheArena) (layer count : ℕ) (handles : List KvPageHandle)
    → IsValid a
    → allocate_pages a layer count ≡ some (b, some handles)
    → release_pages b (ids_of handles) ≡ (a, true)
allocate_then_release a b layer count handles v e = elim (allocate_pages_decides a layer count v) [
  | inl (b', handles', e', t, some_pages, _, room) ↦
      let same = Option.some-injective _ _ (sym e' ∙ e) in
      let same_b : b' ≡ b = ap (λ r. r.0) same in
      let same_handles : handles' ≡ handles = Option.some-injective _ _ (ap (λ r. r.1) same) in
      rw (← same_b, ← same_handles)
        (release_pages-allocate_pages a b' layer count handles' v t some_pages room)
  | inr (e', _) ↦ absurd (
      let same = Option.some-injective _ _ (sym e' ∙ e) in
      let off : none ≡ some handles = ap (λ r. r.1) same in cc)
]
