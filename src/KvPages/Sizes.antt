-- ===== src/KvPages/Sizes.antt =====
-- The sizes: how many pages the tokens need, and where the pages lie.
use native.Mathlib.Nat.{mod-lt, mod-eq_of_lt, div-add-mod', mul-le-mul_right}
use nemotron_inference.Base.{
  ℕ, zero, suc, ◌+◌, ◌-◌, ◌*◌, ◌/◌, ◌≤◌, ◌<◌, ◌≡◌, sym, ap, ◌∙◌, inl, inr, Bool-cases, Option-cases,
  false, List, [], ◌∷◌, none, some, arith, ◌==◌, length, get_elem?, add64, sub64, mul64, word,
}
use mathlib.Core.Option
use nemotron_inference.KvPages.{
  AttentionKvCacheConfig, KvPageHandle, PageState, PagedKvCacheArena, required_pages_for_tokens,
  inspect_page, total_bytes, total_pages,
}
use nemotron_inference.KvPages.Validity.{IsValid}

ceiling :
    (tokens page : ℕ)
    → 0 < tokens
    → 0 < page
    → tokens + page < word
    → (tokens ≤ sub64 (add64 tokens page) 1 / page * page)
      × (sub64 (add64 tokens page) 1 / page * page < tokens + page)
ceiling tokens page some_tokens some_page fits =
    let total : add64 tokens page ≡ tokens + page = mod-eq_of_lt fits in
    let less : sub64 (add64 tokens page) 1 ≡ tokens + page - 1 = rw total (omega arith) in
    let split = div-add-mod' (tokens + page - 1) page in
    let rest = mod-lt (tokens + page - 1) some_page in rw less (omega arith, omega arith)

-- `RequiredPagesForTokens` is the least number of pages that hold the tokens: they fit, and one page
-- less would not do. The page is not empty, and the tokens plus a page are a word.
pub required_pages_for_tokens-least :
    (config : AttentionKvCacheConfig) (tokens : ℕ)
    → 0 < config.tokens_per_page
    → tokens + config.tokens_per_page < word
    → (tokens ≤ required_pages_for_tokens config tokens * config.tokens_per_page)
      × (required_pages_for_tokens config tokens * config.tokens_per_page
          < tokens + config.tokens_per_page)
unfolding required_pages_for_tokens
required_pages_for_tokens-least config tokens some_page fits = elim (Bool-cases (tokens == 0)) [
  | inl none_asked ↦
      let page : (config.tokens_per_page == 0) ≡ false = ground arith in
      rw (page, none_asked) (ground arith, ground arith)
  | inr asked ↦
      let page : (config.tokens_per_page == 0) ≡ false = ground arith in
      rw (page, asked) (ceiling tokens config.tokens_per_page (ground arith) some_page fits)
]

offset_of :
    (a : PagedKvCacheArena) (i : ℕ) (h : KvPageHandle)
    → IsValid a
    → inspect_page a i ≡ some h
    → (h.byte_offset ≡ mul64 i a.geometry.bytes_per_page) × (i < length a.page_states)
unfolding inspect_page
offset_of a i h v e = elim (Option-cases (get_elem? a.page_states i)) [
  | inl gone ↦ absurd (let t : none ≡ some h = rw (gone, inspect_page) at e in cc)
  | inr (page, there) ↦ elim (Bool-cases page.allocated) [
    | inl on ↦
        let t = rw (there, inspect_page, on) at e in
        let same = Option.some-injective _ _ t in
        (
          sym (ap (λ q. q.byte_offset) same) ∙ v.offsets i page there,
          in_range a.page_states i page there,
        )
    | inr off ↦ absurd (let t : none ≡ some h = rw (there, inspect_page, off) at e in cc)
  ]
]
  where
    in_range :
        (pages : List PageState) (j : ℕ) (page : PageState)
        → get_elem? pages j ≡ some page
        → j < length pages
    in_range [] j page e = absurd cc
    in_range (x ∷ pages) zero page e = omega arith
    in_range (x ∷ pages) (suc j) page e = let less = in_range pages j page e in omega arith

-- In a well-formed arena whose total size is a word, two allocated pages do not overlap: the one of
-- the lesser id ends before the other begins, and the other ends within the arena.
pub inspect_page-disjoint :
    (a : PagedKvCacheArena) (i j : ℕ) (lower upper : KvPageHandle)
    → IsValid a
    → total_pages a * a.geometry.bytes_per_page < word
    → inspect_page a i ≡ some lower
    → inspect_page a j ≡ some upper
    → i < j
    → (lower.byte_offset + a.geometry.bytes_per_page ≤ upper.byte_offset)
      × (upper.byte_offset + a.geometry.bytes_per_page ≤ total_bytes a)
unfolding total_pages total_bytes
inspect_page-disjoint a i j lower upper v small at_i at_j less =
    let (low, _) = offset_of a i lower v at_i in
    let (high, inside) = offset_of a j upper v at_j in
    let bytes = a.geometry.bytes_per_page in
    let first = mul-le-mul_right bytes (suc_le less) in
    let second = mul-le-mul_right bytes (suc_le inside) in
    let low_is : mul64 i bytes ≡ i * bytes = mod-eq_of_lt (omega arith) in
    let high_is : mul64 j bytes ≡ j * bytes = mod-eq_of_lt (omega arith) in
    let all_is : mul64 (length a.page_states) bytes ≡ length a.page_states * bytes =
      mod-eq_of_lt small in
    (omega arith, omega arith)
  where
    suc_le : {m n : ℕ} → m < n → suc m ≤ n
    suc_le h = omega arith
