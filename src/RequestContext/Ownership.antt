-- ===== src/RequestContext/Ownership.antt =====
-- A request owns its arena: the ids of its pages, each once, are those of the allocated pages.
use nemotron_inference.Base.{
  ℕ, ◌≡◌, refl, sym, ap, ◌∙◌, inl, inr, Bool-cases, true, false, List, [], ◌∷◌, ◌++◌, some, arith,
  get_elem?, take, drop, take-append-drop, subst, ==_iff,
}
use nemotron_inference.KvPages.{KvPageHandle, PagedKvCacheArena, contains, mark}
use nemotron_inference.KvPages.Order.{
  Ascending, NoRepeat, Ascending-NoRepeat, Ascending-append, contains-append,
}
use nemotron_inference.KvPages.Pages.{is_free, is_held}
use nemotron_inference.KvPages.Validity.{IsValid}
use nemotron_inference.KvPages.Taking.{free_there}
use nemotron_inference.KvPages.Allocation.{Allotted}

pub record Owns (arena : PagedKvCacheArena) (ids : List ℕ) : Type 0 where
  pub valid : IsValid arena
  pub distinct : NoRepeat ids
  pub agree : (j : ℕ) → contains j ids ≡ is_held (get_elem? arena.page_states j)

-- New ids in the middle of a list without repetition.
NoRepeat-insert :
    (l new r : List ℕ)
    → NoRepeat (l ++ r)
    → NoRepeat new
    → ((i : ℕ) → contains i new ≡ true → contains i (l ++ r) ≡ false)
    → NoRepeat (l ++ (new ++ r))
unfolding contains
NoRepeat-insert [] [] r d e apart = d
NoRepeat-insert [] (i ∷ new) r d (fresh, e) apart = (
  contains-append i new r ∙ ground (arith, apart i (ground (arith, ==_iff i i))),
  NoRepeat-insert [] new r d e (λ j c. apart j (ground arith)),
)
NoRepeat-insert (x ∷ l) new r (single, d) e apart =
    let all = contains-append x l (new ++ r) in
    let inner = contains-append x new r in
    let old = contains-append x l r in
    let not_new : contains x new ≡ false = elim (Bool-cases (contains x new)) [
      | inl c ↦ absurd (let t = apart x c in ground (arith, ==_iff x x))
      | inr c ↦ c
    ] in
    (ground arith, NoRepeat-insert l new r d e (λ j c. let t = apart j c in ground arith))

-- The pages of a grant join the ids that are owned.
pub Owns-Allotted :
    (a b : PagedKvCacheArena) (layer count : ℕ) (handles : List KvPageHandle) (l r : List ℕ)
    → Owns a (l ++ r)
    → Allotted a layer count b handles
    → Owns b (l ++ (take count a.free_page_ids ++ r))
Owns-Allotted a b layer count handles l r o t = record {
  valid = t.valid;
  distinct = NoRepeat-insert l ids r o.distinct distinct apart;
  agree = agree;
}
  where
    ids : List ℕ
    ids = take count a.free_page_ids

    halves : Ascending (ids ++ drop count a.free_page_ids)
    halves = subst Ascending (sym (take-append-drop count a.free_page_ids)) o.valid.ascending

    distinct : NoRepeat ids
    distinct = Ascending-NoRepeat ids (Ascending-append ids (drop count a.free_page_ids) halves).0

    was_free : (i : ℕ) → contains i ids ≡ true → is_free (get_elem? a.page_states i) ≡ true
    was_free i c =
        let both = contains-append i ids (drop count a.free_page_ids) in
        sym (o.valid.agree i)
        ∙ ap (contains i) (sym (take-append-drop count a.free_page_ids))
        ∙ both
        ∙ rw c refl

    apart : (i : ℕ) → contains i ids ≡ true → contains i (l ++ r) ≡ false
    apart i c =
        let (page, there, off) = free_there (get_elem? a.page_states i) (was_free i c) in
        o.agree i ∙ ap is_held there ∙ off

    agree : (j : ℕ) → contains j (l ++ (ids ++ r)) ≡ is_held (get_elem? b.page_states j)
    agree j =
        let all = contains-append j l (ids ++ r) in
        let inner = contains-append j ids r in
        let old = contains-append j l r in
        elim (Bool-cases (contains j ids)) [
          | inl c ↦
              let (page, there, off) = free_there (get_elem? a.page_states j) (was_free j c) in
              let now : get_elem? b.page_states j ≡ some (mark layer page) =
                t.pages j ∙ rw (c, there) refl in
              let held : is_held (get_elem? b.page_states j) ≡ true = ap is_held now in ground arith
          | inr c ↦
              let now : get_elem? b.page_states j ≡ get_elem? a.page_states j =
                t.pages j ∙ rw c refl in
              let held : is_held (get_elem? b.page_states j) ≡ is_held (get_elem? a.page_states j) =
                ap is_held now in
              let before = o.agree j in ground arith
        ]
