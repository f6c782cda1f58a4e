-- ===== src/KvPages/Release.antt =====
-- `ReleasePages` on every branch, and after `AllocatePages`.
use nemotron_inference.Base.{
  ℕ, ◌<◌, ◌≡◌, refl, sym, ap, ◌∙◌, ◌⊎◌, ◌↔◌, inl, inr, Bool-cases, Option-cases, true, false, not,
  List, [], ◌∷◌, Option, none, some, arith, ◌==◌, if◌then◌else◌, length, get_elem?, ==_iff,
}
use mathlib.Core.Option
use nemotron_inference.KvPages.{
  PageState, PagedKvCacheArena, contains, releasable, release_pages, inspect_page, unmark,
  clear_all, push_all, sort_ids,
}
use nemotron_inference.KvPages.Order.{
  NoRepeat, contains-sort_ids, contains-push_all, sort_ids-Ascending, Ascending-NoRepeat,
}
use nemotron_inference.KvPages.Pages.{is_free, is_held, get-clear_all}
use nemotron_inference.KvPages.Validity.{IsValid}

-- Every id names an allocated page.
abbrev pub Held : List PageState → List ℕ → Type 0
Held pages ids = (i : ℕ) → contains i ids ≡ true → is_held (get_elem? pages i) ≡ true

abbrev Apart : List ℕ → List ℕ → Type 0
Apart seen ids = (i : ℕ) → contains i seen ≡ true → contains i ids ≡ false

held_there :
    (o : Option PageState)
    → is_held o ≡ true
    → (page : PageState) × (o ≡ some page) × (page.allocated ≡ true)
held_there none h = absurd cc
held_there (some page) h = (page, refl, h)

releasable_sound :
    (pages : List PageState) (seen ids : List ℕ)
    → releasable pages seen ids ≡ true
    → NoRepeat ids × Held pages ids × Apart seen ids
unfolding releasable contains
releasable_sound pages seen [] h = (tt, λ i e. absurd cc, λ i e. refl)
releasable_sound pages seen (i ∷ ids) h = elim (Option-cases (get_elem? pages i)) [
  | inl e ↦ absurd (let t : false ≡ true = rw (e, releasable) at h in cc)
  | inr (page, e) ↦
      let on : page.allocated ≡ true = ground arith in
      let new : contains i seen ≡ false = ground arith in
      let rest : releasable pages (i ∷ seen) ids ≡ true = ground arith in
      let (distinct, held, apart) = releasable_sound pages (i ∷ seen) ids rest in
      (
        (apart i (ground (arith, ==_iff i i)), distinct),
        λ j c. elim (Bool-cases (i == j)) [
          | inl same ↦
              let i-j : i ≡ j = ground arith in
              let there : get_elem? pages j ≡ some page = rw i-j at e in ap is_held there ∙ on
          | inr other ↦ held j (ground arith)
        ],
        λ j c. elim (Bool-cases (i == j)) [
          | inl same ↦
              let i-j : i ≡ j = ground arith in
              absurd (let t : contains j seen ≡ false = rw i-j at new in ground arith)
          | inr other ↦ let t = apart j (ground arith) in ground arith
        ],
      )
]

releasable_complete :
    (pages : List PageState) (seen ids : List ℕ)
    → NoRepeat ids
    → Held pages ids
    → Apart seen ids
    → releasable pages seen ids ≡ true
unfolding releasable contains
releasable_complete pages seen [] distinct held apart = refl
releasable_complete pages seen (i ∷ ids) (new, distinct) held apart =
    let (page, e, on) = held_there (get_elem? pages i) (held i (ground (arith, ==_iff i i))) in
    let unseen : contains i seen ≡ false = elim (Bool-cases (contains i seen)) [
      | inl c ↦ absurd (let t = apart i c in ground (arith, ==_iff i i))
      | inr c ↦ c
    ] in
    let rest : releasable pages (i ∷ seen) ids ≡ true =
      releasable_complete pages (i ∷ seen) ids distinct (λ j c. held j (ground arith))
        (λ j c. elim (Bool-cases (i == j)) [
          | inl same ↦
              let i-j : i ≡ j = ground arith in let t : contains j ids ≡ false = rw i-j at new in t
          | inr other ↦ let t = apart j (ground arith) in ground arith
        ]) in
    rw (e, releasable, on, unseen) rest

-- The guard of `ReleasePages`: no id twice, and every id allocated.
pub releasable_iff :
    (pages : List PageState) (ids : List ℕ)
    → (releasable pages [] ids ≡ true) ↔ (NoRepeat ids × Held pages ids)
unfolding contains
releasable_iff pages ids = (
  λ h. let (d, held, _) = releasable_sound pages [] ids h in (d, held),
  λ p. releasable_complete pages [] ids p.0 p.1 (λ i e. absurd cc),
)

NoRepeat-push_all :
    (ids s : List ℕ) → NoRepeat ids → NoRepeat s → Apart ids s → NoRepeat (push_all ids s)
unfolding push_all contains
NoRepeat-push_all [] s d e apart = e
NoRepeat-push_all (i ∷ ids) s (new, d) e apart =
    NoRepeat-push_all ids (i ∷ s) d (apart i (ground (arith, ==_iff i i)), e)
      (λ j c. elim (Bool-cases (i == j)) [
        | inl same ↦
            let i-j : i ≡ j = ground arith in
            absurd (let t : contains j ids ≡ false = rw i-j at new in ground arith)
        | inr other ↦ let t = apart j (ground arith) in ground arith
      ])

-- The result of a release that was granted: the ids are free again, and nothing else changed.
pub record Released (a : PagedKvCacheArena) (ids : List ℕ) (b : PagedKvCacheArena) : Type 0 where
  pub same_config : b.config ≡ a.config
  pub same_geometry : b.geometry ≡ a.geometry
  pub freed :
      (j : ℕ)
      → contains j b.free_page_ids ≡ (if contains j ids then true else contains j a.free_page_ids)
  pub held : (j : ℕ) → inspect_page b j ≡ (if contains j ids then none else inspect_page a j)
  pub valid : IsValid b

unmarked :
    (o : Option PageState) (page : PageState)
    → Option.map unmark o ≡ some page
    → (q : PageState) × (o ≡ some q) × (page ≡ unmark q)
unmarked none page h = absurd cc
unmarked (some q) page h = (q, refl, sym (Option.some-injective _ _ h))

module _ (a : PagedKvCacheArena) (ids : List ℕ) (v : IsValid a) (distinct : NoRepeat ids)
    (held : Held a.page_states ids) where
  abbrev after : PagedKvCacheArena
  after = record a {
    page_states = clear_all a.page_states ids;
    free_page_ids = sort_ids (push_all ids a.free_page_ids);
  }

  held_not_free : (i : ℕ) → contains i ids ≡ true → contains i a.free_page_ids ≡ false
  held_not_free i c =
      let (page, there, on) = held_there (get_elem? a.page_states i) (held i c) in
      v.agree i ∙ ap is_free there ∙ ap not on

  after_freed :
      (j : ℕ)
      → contains j after.free_page_ids
        ≡ (if contains j ids then true else contains j a.free_page_ids)
  after_freed j =
      contains-sort_ids j (push_all ids a.free_page_ids) ∙ contains-push_all j ids a.free_page_ids

  after-IsValid : IsValid after
  after-IsValid = record {
    ascending = sort_ids-Ascending (push_all ids a.free_page_ids) (
        NoRepeat-push_all ids a.free_page_ids distinct
          (Ascending-NoRepeat a.free_page_ids v.ascending) held_not_free);
    agree = λ i. elim (Bool-cases (contains i ids)) [
      | inl e ↦
          let (page, there, on) = held_there (get_elem? a.page_states i) (held i e) in
          let now : get_elem? (clear_all a.page_states ids) i ≡ some (unmark page) =
            get-clear_all a.page_states ids i ∙ rw (e, there) refl in
          let at_i = after_freed i in rw e at at_i ∙ sym (ap is_free now)
      | inr e ↦
          let now : get_elem? (clear_all a.page_states ids) i ≡ get_elem? a.page_states i =
            get-clear_all a.page_states ids i ∙ rw e refl in
          let at_i = after_freed i in rw e at at_i ∙ v.agree i ∙ sym (ap is_free now)
    ];
    cleared = λ i page h free. elim (Bool-cases (contains i ids)) [
      | inl e ↦
          let (q, there, same) =
            unmarked (get_elem? a.page_states i) page
              (sym (get-clear_all a.page_states ids i ∙ rw e refl) ∙ h) in
          ap (λ p. p.layer_index) same
      | inr e ↦ v.cleared i page (sym (get-clear_all a.page_states ids i ∙ rw e refl) ∙ h) free
    ];
    offsets = λ i page h. elim (Bool-cases (contains i ids)) [
      | inl e ↦
          let (q, there, same) =
            unmarked (get_elem? a.page_states i) page
              (sym (get-clear_all a.page_states ids i ∙ rw e refl) ∙ h) in
          ap (λ p. p.byte_offset) same ∙ v.offsets i q there
      | inr e ↦ v.offsets i page (sym (get-clear_all a.page_states ids i ∙ rw e refl) ∙ h)
    ];
  }

  after_held : (j : ℕ) → inspect_page after j ≡ (if contains j ids then none else inspect_page a j)
  unfolding inspect_page
  after_held j = elim (Bool-cases (contains j ids)) [
    | inl e ↦
        let (page, there, on) = held_there (get_elem? a.page_states j) (held j e) in
        let now : get_elem? (clear_all a.page_states ids) j ≡ some (unmark page) =
          get-clear_all a.page_states ids j ∙ rw (e, there) refl in
        rw (now, inspect_page, e) refl
    | inr e ↦
        let now : get_elem? (clear_all a.page_states ids) j ≡ get_elem? a.page_states j =
          get-clear_all a.page_states ids j ∙ rw e refl in
        rw (now, inspect_page, e) refl
  ]

  after-Released : Released a ids after
  after-Released = record {
    same_config = refl;
    same_geometry = refl;
    freed = after_freed;
    held = after_held;
    valid = after-IsValid;
  }

-- `ReleasePages` on a well-formed arena: it accepts exactly a list that is not empty, has no id twice
-- and names allocated pages only. Then those pages are free, every other page is as before, and the
-- arena is well formed. Otherwise nothing changes.
pub release_pages_decides :
    (a : PagedKvCacheArena) (ids : List ℕ)
    → IsValid a
    → ((release_pages a ids).1 ≡ true
        × Released a ids (release_pages a ids).0
        × NoRepeat ids
        × Held a.page_states ids
        × (0 < length ids))
      ⊎ (release_pages a ids ≡ (a, false)
          × ((ids ≡ []) ⊎ ¬ (NoRepeat ids × Held a.page_states ids)))
unfolding release_pages
release_pages_decides a [] v = inr (refl, inl refl)
release_pages_decides a (first ∷ rest) v =
    elim (Bool-cases (releasable a.page_states [] (first ∷ rest))) [
      | inl e ↦
          let (distinct, held) = (releasable_iff a.page_states (first ∷ rest)).0 e in
          inl (
            rw (e, release_pages) refl,
            rw (e, release_pages) (after-Released a (first ∷ rest) v distinct held),
            distinct,
            held,
            omega arith,
          )
      | inr e ↦ inr (
        rw (e, release_pages) refl,
        inr (λ p.
            let t = (releasable_iff a.page_states (first ∷ rest)).1 p in
            let u : false ≡ true = sym e ∙ t in cc),
      )
    ]

-- A list that is not empty and passes the guard.
pub release_pages_accepts :
    (a : PagedKvCacheArena) (ids : List ℕ)
    → NoRepeat ids
    → Held a.page_states ids
    → 0 < length ids
    → release_pages a ids ≡ (
      record a {
        page_states = clear_all a.page_states ids;
        free_page_ids = sort_ids (push_all ids a.free_page_ids);
      },
      true,
    )
unfolding release_pages
release_pages_accepts a [] distinct held some_ids = absurd (omega arith)
release_pages_accepts a (first ∷ rest) distinct held some_ids =
    rw ((releasable_iff a.page_states (first ∷ rest)).1 (distinct, held), release_pages) refl
