-- ===== src/RequestContext/Given.antt =====
-- What the layers of a request are given: how many pages, which, and that the arena holds them.
use nemotron_inference.Base.{
  ℕ, suc, ◌≤◌, ◌≡◌, refl, sym, ap, ◌∙◌, inl, inr, Bool-cases, true, List, [], ◌∷◌, ◌++◌, map, some,
  arith, ltb, length, take, drop, take-append-drop, get_elem?, subst, if◌then◌else◌, ==_iff,
}
use nemotron_inference.KvPages.{KvPageHandle, PagedKvCacheArena, contains, inspect_page}
use nemotron_inference.KvPages.Order.{contains-append}
use nemotron_inference.KvPages.Pages.{is_free}
use nemotron_inference.KvPages.Validity.{IsValid}
use nemotron_inference.KvPages.Taking.{handle_of, free_there}
use nemotron_inference.KvPages.Allocation.{Allotted}

-- How many pages a layer has when it was given what it lacked.
abbrev pub filled : ℕ → List KvPageHandle → ℕ
filled required pages = if ltb (length pages) required then required else length pages

-- Every layer has exactly the required pages, or those it had if they were more.
abbrev pub Filled : ℕ → List (List KvPageHandle) → List (List KvPageHandle) → Type 0
Filled required [] [] = Unit
Filled required [] (_ ∷ _) = ⊥
Filled required (_ ∷ _) [] = ⊥
Filled required (pages ∷ rest) (pages' ∷ rest') =
    (length pages' ≡ filled required pages) × Filled required rest rest'

-- No layer has more than that.
abbrev pub NoMore : ℕ → List (List KvPageHandle) → List (List KvPageHandle) → Type 0
NoMore required [] [] = Unit
NoMore required [] (_ ∷ _) = ⊥
NoMore required (_ ∷ _) [] = ⊥
NoMore required (pages ∷ rest) (pages' ∷ rest') =
    (length pages' ≤ filled required pages) × NoMore required rest rest'

-- The arena holds these pages for the layer, under their handles.
abbrev pub HeldFor : PagedKvCacheArena → ℕ → List KvPageHandle → Type 0
HeldFor arena layer [] = Unit
HeldFor arena layer (page ∷ rest) =
    ((inspect_page arena page.page_id ≡ some page) × (page.layer_index ≡ layer))
    × HeldFor arena layer rest

-- Every layer, from this one on, keeps its pages, in front, and has new ones that are held for it.
abbrev pub Extends :
    PagedKvCacheArena → ℕ → List (List KvPageHandle) → List (List KvPageHandle) → Type 0
Extends arena layer [] [] = Unit
Extends arena layer [] (_ ∷ _) = ⊥
Extends arena layer (_ ∷ _) [] = ⊥
Extends arena layer (pages ∷ rest) (pages' ∷ rest') =
    ((more : List KvPageHandle) × (pages' ≡ pages ++ more) × HeldFor arena layer more)
    × Extends arena (suc layer) rest rest'

-- A page that is held stays as it is.
abbrev pub Keeps : PagedKvCacheArena → PagedKvCacheArena → Type 0
Keeps a b =
    (j : ℕ) (page : KvPageHandle) → inspect_page a j ≡ some page → inspect_page b j ≡ some page

pub HeldFor-Keeps :
    (a b : PagedKvCacheArena) (layer : ℕ) (pages : List KvPageHandle)
    → Keeps a b
    → HeldFor a layer pages
    → HeldFor b layer pages
HeldFor-Keeps a b layer [] keeps h = tt
HeldFor-Keeps a b layer (page ∷ rest) keeps h =
    ((keeps page.page_id page h.0.0, h.0.1), HeldFor-Keeps a b layer rest keeps h.1)

pub append_empty : (xs : List KvPageHandle) → xs ++ [] ≡ xs
append_empty [] = refl
append_empty (x ∷ xs) = ap (λ t. x ∷ t) (append_empty xs)

pub Extends-self :
    (arena : PagedKvCacheArena) (layer : ℕ) (l : List (List KvPageHandle)) → Extends arena layer l l
Extends-self arena layer [] = tt
Extends-self arena layer (pages ∷ rest) =
    (([], sym (append_empty pages), tt), Extends-self arena (suc layer) rest)

pub NoMore-self : (required : ℕ) (l : List (List KvPageHandle)) → NoMore required l l
NoMore-self required [] = tt
NoMore-self required (pages ∷ rest) = (ground arith, NoMore-self required rest)

-- What a grant hands out is held for the layer, and what was held stays.
pub Allotted-Keeps :
    (a b : PagedKvCacheArena) (layer count : ℕ) (handles : List KvPageHandle)
    → IsValid a
    → Allotted a layer count b handles
    → Keeps a b
unfolding inspect_page
Allotted-Keeps a b layer count handles v t j page h =
    let ids = take count a.free_page_ids in
    let both = contains-append j ids (drop count a.free_page_ids) in
    let whole = ap (contains j) (take-append-drop count a.free_page_ids) in
    let agree = v.agree j in
    elim (Bool-cases (contains j ids)) [
      | inr c ↦ t.held j ∙ rw c h
      | inl c ↦ absurd (
          let free : is_free (get_elem? a.page_states j) ≡ true =
            sym agree ∙ (sym whole ∙ (both ∙ rw c refl)) in
          let (state, there, off) = free_there (get_elem? a.page_states j) free in
          ground (arith, there, off, h))
    ]

HeldFor-handle_of :
    (a b : PagedKvCacheArena) (layer : ℕ) (ids : List ℕ)
    → ((j : ℕ) → contains j ids ≡ true → inspect_page b j ≡ some (handle_of a layer j))
    → HeldFor b layer (map (handle_of a layer) ids)
unfolding contains
HeldFor-handle_of a b layer [] h = tt
HeldFor-handle_of a b layer (i ∷ ids) h = (
  (h i (ground (arith, ==_iff i i)), refl),
  HeldFor-handle_of a b layer ids (λ j c. h j (ground arith)),
)

pub Allotted-HeldFor :
    (a b : PagedKvCacheArena) (layer count : ℕ) (handles : List KvPageHandle)
    → Allotted a layer count b handles
    → HeldFor b layer handles
Allotted-HeldFor a b layer count handles t =
    subst (HeldFor b layer) (sym t.handed)
      (HeldFor-handle_of a b layer (take count a.free_page_ids) (λ j c. t.held j ∙ rw c refl))
