-- ===== src/KvPages/Taking.antt =====
-- The loop of `AllocatePages`.
use nemotron_inference.Base.{
  ℕ, zero, suc, ◌≤◌, ◌≡◌, refl, sym, ap, ◌∙◌, inl, inr, Bool-cases, true, false, List, [], ◌∷◌, map,
  Option, none, some, arith, ◌==◌, if◌then◌else◌, length, get_elem?, set, mul64, take, drop,
  take-append-drop, subst,
}
use mathlib.Core.Option
use nemotron_inference.KvPages.{
  AttentionKvCacheConfig, KvPageHandle, PageState, PagedKvCacheArena, contains, take_pages, mark,
}
use nemotron_inference.KvPages.Order.{Above, Above-append, Ascending, contains-Above}
use nemotron_inference.KvPages.Pages.{is_free, get_elem?-set}

-- The handle of a page in a layer.
abbrev pub handle_of : PagedKvCacheArena → ℕ → ℕ → KvPageHandle
handle_of a layer i = record {
  page_id = i;
  layer_index = layer;
  byte_offset = mul64 i a.geometry.bytes_per_page;
  tokens_per_page = a.config.tokens_per_page;
}

-- What the loop finds at its start: the ids name free pages, in order, at their offsets.
pub record Ready (bytes : ℕ) (pages : List PageState) (free : List ℕ) : Type 0 where
  pub ascending : Ascending free
  pub agree : (i : ℕ) → contains i free ≡ true → is_free (get_elem? pages i) ≡ true
  pub offsets :
      (i : ℕ) (page : PageState) → get_elem? pages i ≡ some page → page.byte_offset ≡ mul64 i bytes

pub free_there :
    (o : Option PageState)
    → is_free o ≡ true
    → (page : PageState) × (o ≡ some page) × (page.allocated ≡ false)
free_there none h = absurd cc
free_there (some page) h = (page, refl, ground arith)

Ready-step :
    (bytes layer i : ℕ) (pages : List PageState) (free : List ℕ) (page : PageState)
    → Ready bytes pages (i ∷ free)
    → get_elem? pages i ≡ some page
    → Ready bytes (set pages i (mark layer page)) free
unfolding contains
Ready-step bytes layer i pages free page r e = record {
  ascending = r.ascending.1;
  agree = λ j h.
      let other : (i == j) ≡ false = ground (arith, contains-Above i j free r.ascending.0) in
      let there : contains j (i ∷ free) ≡ true = ground arith in
      ap is_free (get_elem?-set pages i j page (mark layer page) e ∙ rw other) ∙ r.agree j there;
  offsets = λ j q h. elim (Bool-cases (i == j)) [
    | inl same ↦
        let i-j : i ≡ j = ground arith in
        let at_i = r.offsets i page e in
        let written : some (mark layer page) ≡ some q =
          sym (get_elem?-set pages i j page (mark layer page) e ∙ rw same) ∙ h in
        sym (ap (λ p. p.byte_offset) (Option.some-injective _ _ written))
        ∙ at_i
        ∙ ap (λ k. mul64 k bytes) i-j
    | inr other ↦
        r.offsets j q (sym (get_elem?-set pages i j page (mark layer page) e ∙ rw other) ∙ h)
  ];
}

-- The loop, which takes ids from the front of the free ones.
pub take_pages_lem :
    (config : AttentionKvCacheConfig) (layer bytes count : ℕ) (pages : List PageState)
    (free : List ℕ)
    → Ready bytes pages free
    → count ≤ length free
    → (pages' : List PageState) × (take_pages count config layer pages free
        ≡ some (
          pages',
          drop count free,
          map
              (λ i. record {
                page_id = i;
                layer_index = layer;
                byte_offset = mul64 i bytes;
                tokens_per_page = config.tokens_per_page;
              })
              (take count free),
        ))
      × ((j : ℕ)
          → get_elem? pages' j ≡ (
              if contains j (take count free)
              then Option.map (mark layer) (get_elem? pages j)
              else get_elem? pages j))
unfolding take_pages contains
take_pages_lem config layer bytes zero pages free r h = (pages, refl, λ j. refl)
take_pages_lem config layer bytes (suc count) pages [] r h = absurd (omega arith)
take_pages_lem config layer bytes (suc count) pages (i ∷ free) r h =
    let (page, e, off) = free_there (get_elem? pages i) (r.agree i (ground arith)) in
    let (pages', taken, written) =
      take_pages_lem config layer bytes count (set pages i (mark layer page)) free
        (Ready-step bytes layer i pages free page r e) (omega arith) in
    let offset = r.offsets i page e in
    (
      pages',
      rw (e, take_pages, taken) (rw offset refl),
      λ j.
          let alone : contains i (take count free) ≡ false =
            contains-Above i i (take count free) (above_take i count free r.ascending.0)
              (omega arith) in
          let at_j = get_elem?-set pages i j page (mark layer page) e in
          elim (Bool-cases (i == j)) [
            | inl same ↦
                let i-j : i ≡ j = ground arith in
                let there : get_elem? pages j ≡ some page = rw i-j at e in
                let gone : contains j (take count free) ≡ false = rw i-j at alone in
                written j ∙ rw (gone, same, there) (at_j ∙ rw same refl)
            | inr other ↦ written j ∙ rw (at_j, other) refl
          ],
    )
  where
    above_take : (x n : ℕ) (l : List ℕ) → Above x l → Above x (take n l)
    above_take x n l a =
        (Above-append x (take n l) (drop n l) (subst (Above x) (sym (take-append-drop n l)) a)).0
