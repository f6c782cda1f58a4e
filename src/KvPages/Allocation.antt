-- ===== src/KvPages/Allocation.antt =====
-- `AllocatePages` on every branch.
use nemotron_inference.Base.{
  ℕ, ◌≤◌, ◌<◌, ◌≡◌, refl, sym, ap, ◌∙◌, ◌⊎◌, inl, inr, Bool-cases, true, false, ◌||◌, List, ◌++◌,
  map, Option, none, some, arith, ltb, leb, ◌==◌, if◌then◌else◌, length, get_elem?, take, drop,
  take-append-drop, length-take, length-map, subst,
}
use mathlib.Core.Option
use nemotron_inference.KvPages.{
  KvPageHandle, PageState, PagedKvCacheArena, contains, allocate_pages, inspect_page, mark,
}
use nemotron_inference.KvPages.Order.{Ascending, Ascending-append, apart, contains-append}
use nemotron_inference.KvPages.Pages.{is_free}
use nemotron_inference.KvPages.Validity.{IsValid}
use nemotron_inference.KvPages.Taking.{Ready, handle_of, take_pages_lem, free_there}

-- The result of a granted request: the least free ids, as pages of the layer, and nothing else
-- changed.
pub record Allotted (a : PagedKvCacheArena) (layer count : ℕ) (b : PagedKvCacheArena)
    (handles : List KvPageHandle) : Type 0 where
  pub handed : handles ≡ map (handle_of a layer) (take count a.free_page_ids)
  pub counted : length handles ≡ count
  pub left : b.free_page_ids ≡ drop count a.free_page_ids
  pub same_config : b.config ≡ a.config
  pub same_geometry : b.geometry ≡ a.geometry
  pub pages :
      (j : ℕ)
      → get_elem? b.page_states j ≡ (
          if contains j (take count a.free_page_ids)
          then Option.map (mark layer) (get_elem? a.page_states j)
          else get_elem? a.page_states j)
  pub held :
      (j : ℕ)
      → inspect_page b j ≡ (
          if contains j (take count a.free_page_ids)
          then some (handle_of a layer j)
          else inspect_page a j)
  pub valid : IsValid b

marked :
    (layer : ℕ) (o : Option PageState) (page : PageState)
    → Option.map (mark layer) o ≡ some page
    → (q : PageState) × (o ≡ some q) × (page ≡ mark layer q)
marked layer none page h = absurd cc
marked layer (some q) page h = (q, refl, sym (Option.some-injective _ _ h))

not_free_marked : (layer : ℕ) (o : Option PageState) → is_free (Option.map (mark layer) o) ≡ false
not_free_marked layer none = refl
not_free_marked layer (some q) = refl

module _ (a : PagedKvCacheArena) (layer count : ℕ) (v : IsValid a) (pages' : List PageState)
    (written : (j : ℕ)
      → get_elem? pages' j ≡ (
          if contains j (take count a.free_page_ids)
          then Option.map (mark layer) (get_elem? a.page_states j)
          else get_elem? a.page_states j)) where
  abbrev after : PagedKvCacheArena
  after = record a { page_states = pages'; free_page_ids = drop count a.free_page_ids }

  halves : Ascending (take count a.free_page_ids ++ drop count a.free_page_ids)
  halves = subst Ascending (sym (take-append-drop count a.free_page_ids)) v.ascending

  in_halves :
      (i : ℕ)
      → contains i a.free_page_ids ≡ (
          if contains i (take count a.free_page_ids)
          then true
          else contains i (drop count a.free_page_ids))
  in_halves i =
      ap (contains i) (sym (take-append-drop count a.free_page_ids))
      ∙ contains-append i (take count a.free_page_ids) (drop count a.free_page_ids)

  after-IsValid : IsValid after
  after-IsValid = record {
    ascending =
        (Ascending-append (take count a.free_page_ids) (drop count a.free_page_ids) halves).1;
    agree = λ i. elim (Bool-cases (contains i (take count a.free_page_ids))) [
      | inl e ↦
          let gone = apart i (take count a.free_page_ids) (drop count a.free_page_ids) halves e in
          gone
          ∙ sym (
              ap is_free (written i ∙ rw e refl)
              ∙ not_free_marked layer (get_elem? a.page_states i))
      | inr e ↦ sym (in_halves i ∙ rw e refl) ∙ v.agree i ∙ sym (ap is_free (written i ∙ rw e refl))
    ];
    cleared = λ i page h free. elim (Bool-cases (contains i (take count a.free_page_ids))) [
      | inl e ↦
          let (q, there, same) =
            marked layer (get_elem? a.page_states i) page (sym (written i ∙ rw e refl) ∙ h) in
          absurd (let on : true ≡ false = sym (ap (λ p. p.allocated) same) ∙ free in cc)
      | inr e ↦ v.cleared i page (sym (written i ∙ rw e refl) ∙ h) free
    ];
    offsets = λ i page h. elim (Bool-cases (contains i (take count a.free_page_ids))) [
      | inl e ↦
          let (q, there, same) =
            marked layer (get_elem? a.page_states i) page (sym (written i ∙ rw e refl) ∙ h) in
          ap (λ p. p.byte_offset) same ∙ v.offsets i q there
      | inr e ↦ v.offsets i page (sym (written i ∙ rw e refl) ∙ h)
    ];
  }

  after_held :
      (j : ℕ)
      → inspect_page after j ≡ (
          if contains j (take count a.free_page_ids)
          then some (handle_of a layer j)
          else inspect_page a j)
  unfolding inspect_page
  after_held j = elim (Bool-cases (contains j (take count a.free_page_ids))) [
    | inl e ↦
        let free : contains j a.free_page_ids ≡ true = in_halves j ∙ rw e refl in
        let (page, there, off) = free_there (get_elem? a.page_states j) (sym (v.agree j) ∙ free) in
        let now : get_elem? pages' j ≡ some (mark layer page) = written j ∙ rw (e, there) refl in
        let offset = v.offsets j page there in rw (now, inspect_page, e) (rw offset refl)
    | inr e ↦
        let now : get_elem? pages' j ≡ get_elem? a.page_states j = written j ∙ rw e refl in
        rw (now, inspect_page, e) refl
  ]

-- `AllocatePages` on a well-formed arena never reads out of range. It grants a request exactly when
-- it is not empty, its layer exists, and enough pages are free: then it hands out the least free
-- pages, each at its offset, they are held by the layer, and every other page is as before.
-- Otherwise nothing changes.
pub allocate_pages_decides :
    (a : PagedKvCacheArena) (layer count : ℕ)
    → IsValid a
    → ((b : PagedKvCacheArena) × (handles : List KvPageHandle) × (allocate_pages a layer count
          ≡ some (b, some handles))
        × Allotted a layer count b handles
        × (0 < count)
        × (layer < a.config.layer_count)
        × (count ≤ length a.free_page_ids))
      ⊎ ((allocate_pages a layer count ≡ some (a, none))
          × ((count ≡ 0) ⊎ ((a.config.layer_count ≤ layer) ⊎ (length a.free_page_ids < count))))
unfolding allocate_pages
allocate_pages_decides a layer count v =
    elim (Bool-cases
      (count == 0 || (leb a.config.layer_count layer || ltb (length a.free_page_ids) count))) [
        | inl e ↦ inr (rw e refl, ground arith)
        | inr e ↦
            let room : count ≤ length a.free_page_ids = ground arith in
            let (pages', taken, written) =
              take_pages_lem a.config layer a.geometry.bytes_per_page count a.page_states
                a.free_page_ids ready room in
            inl (
              after a layer count v pages' written,
              map (handle_of a layer) (take count a.free_page_ids),
              rw (e, allocate_pages, taken) refl,
              record {
                handed = refl;
                counted =
                    length-map (take count a.free_page_ids) (handle_of a layer)
                    ∙ (let l = length-take count a.free_page_ids in omega arith);
                left = refl;
                same_config = refl;
                same_geometry = refl;
                pages = written;
                held = after_held a layer count v pages' written;
                valid = after-IsValid a layer count v pages' written;
              },
              ground arith,
              ground arith,
              room,
            )
      ]
  where
    ready : Ready a.geometry.bytes_per_page a.page_states a.free_page_ids
    ready = record {
      ascending = v.ascending;
      agree = λ i h. sym (v.agree i) ∙ h;
      offsets = v.offsets;
    }
