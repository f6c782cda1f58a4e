-- ===== src/KvPages/Pages.antt =====
-- The table of pages as a function of the page: what a write changes, and what the loops write.
use nemotron_inference.Base.{
  ℕ, zero, suc, ◌+◌, ◌<◌, ◌≡◌, refl, ap, ap₂, ◌∙◌, inl, inr, Bool-cases, Option-cases, Bool, true,
  false, not, List, [], ◌∷◌, Option, none, some, arith, ◌==◌, if◌then◌else◌, get_elem?, set, mul64,
}
use mathlib.Core.Option
use nemotron_inference.KvPages.{PageState, contains, clear_page, clear_all, unmark, new_pages}

pub get_elem?-set {ℓ} :
    {A : Type ℓ} (xs : List A) (i j : ℕ) (x v : A)
    → get_elem? xs i ≡ some x
    → get_elem? (set xs i v) j ≡ (if i == j then some v else get_elem? xs j)
get_elem?-set [] i j x v h = absurd cc
get_elem?-set (y ∷ xs) zero zero x v h = refl
get_elem?-set (y ∷ xs) zero (suc j) x v h = ground arith
get_elem?-set (y ∷ xs) (suc i) zero x v h = ground arith
get_elem?-set (y ∷ xs) (suc i) (suc j) x v h = get_elem?-set xs i j x v h ∙ ground arith

-- Two lists with the same elements at every index are equal.
pub same_elements {ℓ} :
    {A : Type ℓ} (xs ys : List A) → ((j : ℕ) → get_elem? xs j ≡ get_elem? ys j) → xs ≡ ys
same_elements [] [] h = refl
same_elements [] (y ∷ ys) h = absurd (let e = h 0 in cc)
same_elements (x ∷ xs) [] h = absurd (let e = h 0 in cc)
same_elements (x ∷ xs) (y ∷ ys) h =
    let first = h 0 in
    let head : x ≡ y = ground arith in
    ap₂ (λ a b. a ∷ b) head (same_elements xs ys (λ j. h (suc j)))

-- A page that is there and free, or there and allocated.
abbrev pub is_free : Option PageState → Bool
is_free none = false
is_free (some page) = not page.allocated

abbrev pub is_held : Option PageState → Bool
is_held none = false
is_held (some page) = page.allocated

pub get-clear_page :
    (pages : List PageState) (i j : ℕ)
    → get_elem? (clear_page pages i) j
      ≡ (if i == j then Option.map unmark (get_elem? pages j) else get_elem? pages j)
unfolding clear_page
get-clear_page pages i j = elim (Option-cases (get_elem? pages i)) [
  | inl e ↦ elim (Bool-cases (i == j)) [
    | inl same ↦
        let i-j : i ≡ j = ground arith in
        let gone : get_elem? pages j ≡ none = rw i-j at e in rw (e, clear_page, same, gone) refl
    | inr other ↦ rw (e, clear_page, other) refl
  ]
  | inr (page, e) ↦ elim (Bool-cases (i == j)) [
    | inl same ↦
        let i-j : i ≡ j = ground arith in
        let there : get_elem? pages j ≡ some page = rw i-j at e in
        rw (e, clear_page) (get_elem?-set pages i j page (unmark page) e ∙ rw (same, there) refl)
    | inr other ↦ rw (e, clear_page) (get_elem?-set pages i j page (unmark page) e ∙ rw other refl)
  ]
]

unmark_twice :
    (o : Option PageState) → Option.map unmark (Option.map unmark o) ≡ Option.map unmark o
unmark_twice none = refl
unmark_twice (some page) = refl

-- The second loop of `ReleasePages` frees the pages of its list and no other.
pub get-clear_all :
    (pages : List PageState) (ids : List ℕ) (j : ℕ)
    → get_elem? (clear_all pages ids) j
      ≡ (if contains j ids then Option.map unmark (get_elem? pages j) else get_elem? pages j)
unfolding clear_all contains
get-clear_all pages [] j = refl
get-clear_all pages (i ∷ ids) j =
    get-clear_all (clear_page pages i) ids j
    ∙ ground (arith, get-clear_page pages i j, unmark_twice (get_elem? pages j))

pub get-new_pages :
    (bytes first count j : ℕ) (page : PageState)
    → get_elem? (new_pages bytes first count) j ≡ some page
    → page ≡ record { allocated = false; layer_index = 0; byte_offset = mul64 (first + j) bytes }
unfolding new_pages
get-new_pages bytes first zero j page h = absurd cc
get-new_pages bytes first (suc count) zero page h = ground arith
get-new_pages bytes first (suc count) (suc j) page h =
    get-new_pages bytes (suc first) count j page h
    ∙ ap (λ i. record { allocated = false; layer_index = 0; byte_offset = mul64 i bytes })
        (omega arith)

pub there-new_pages :
    (bytes first count j : ℕ)
    → is_free (get_elem? (new_pages bytes first count) j) ≡ true
    → j < count
unfolding new_pages
there-new_pages bytes first zero j h = absurd cc
there-new_pages bytes first (suc count) zero h = omega arith
there-new_pages bytes first (suc count) (suc j) h =
    let less = there-new_pages bytes (suc first) count j h in omega arith

pub new_pages-there :
    (bytes first count j : ℕ)
    → j < count
    → is_free (get_elem? (new_pages bytes first count) j) ≡ true
unfolding new_pages
new_pages-there bytes first zero j h = absurd (omega arith)
new_pages-there bytes first (suc count) zero h = refl
new_pages-there bytes first (suc count) (suc j) h =
    new_pages-there bytes (suc first) count j (omega arith)
