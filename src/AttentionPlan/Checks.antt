-- ===== src/AttentionPlan/Checks.antt =====
-- What the checks of the first loop decide, and the maxima that it finds.
use Prim.Native.Nat.{max}
use nemotron_inference.Base.{
  ℕ, zero, suc, ◌^◌, ◌≤◌, ◌<◌, ◌≡◌, refl, sym, ap, ◌∙◌, ◌⊎◌, inl, inr, Bool-cases, Option-cases,
  true, false, List, [], ◌∷◌, Option, none, some, arith, leb, ◌==◌, length, get_elem?, ==_iff,
}
use mathlib.Core.Option
use nemotron_inference.KvPages.{
  AttentionKvCacheConfig, KvPageHandle, PagedKvCacheArena, required_pages_for_tokens, inspect_page,
  contains,
}
use nemotron_inference.AttentionPlan.{
  AttentionSequencePages, fits_int32, page_owned, check_pages, check_sequence, check_sequences,
}
use nemotron_inference.AttentionPlan.Table.{NoWider}

-- The page is held by the layer, where there is an arena.
abbrev pub Owned : Option PagedKvCacheArena → ℕ → ℕ → Type 0
Owned none layer page_id = Unit
Owned (some arena) layer page_id =
    (h : KvPageHandle) × (inspect_page arena page_id ≡ some h) × (h.layer_index ≡ layer)

module _ (config : AttentionKvCacheConfig) (arena : Option PagedKvCacheArena) (layer : ℕ) where
  abbrev pub PagesOwned : List ℕ → Type 0
  PagesOwned ids = (i : ℕ) → contains i ids ≡ true → (i < 2 ^ 31) × Owned arena layer i

  -- A sequence whose numbers fit an int32, with exactly the pages that its tokens need, each held by
  -- the layer.
  pub record Admits (s : AttentionSequencePages) : Type 0 where
    pub tokens_fit : s.token_count < 2 ^ 31
    pub needed : length s.page_ids ≡ required_pages_for_tokens config s.token_count
    pub pages_fit : length s.page_ids < 2 ^ 31
    pub owned : PagesOwned s.page_ids

  abbrev pub Admitted : List AttentionSequencePages → Type 0
  Admitted [] = Unit
  Admitted (s ∷ rest) = Admits s × Admitted rest

  page_owned→Owned :
      (a : Option PagedKvCacheArena) (i : ℕ) → page_owned a layer i ≡ true → Owned a layer i
  unfolding page_owned
  page_owned→Owned none i h = tt
  page_owned→Owned (some a) i h = elim (Option-cases (inspect_page a i)) [
    | inl e ↦ absurd (let t : false ≡ true = rw (e, page_owned) at h in cc)
    | inr (handle, e) ↦
        let t : (handle.layer_index == layer) ≡ true = rw (e, page_owned) at h in
        (handle, e, ground arith)
  ]

  Owned→passes :
      (a : Option PagedKvCacheArena) (i : ℕ) → Owned a layer i → page_owned a layer i ≡ true
  unfolding page_owned
  Owned→passes none i h = refl
  Owned→passes (some a) i (handle, e, same) = rw (e, page_owned) (ground arith)

  check_pages→PagesOwned : (ids : List ℕ) → check_pages arena layer ids ≡ true → PagesOwned ids
  unfolding check_pages fits_int32 contains
  check_pages→PagesOwned [] h i c = absurd cc
  check_pages→PagesOwned (j ∷ ids) h i c =
      let small : j < 2 ^ 31 = ground arith in
      let mine : page_owned arena layer j ≡ true = ground arith in
      let rest : check_pages arena layer ids ≡ true = ground arith in
      elim (Bool-cases (j == i)) [
        | inl same ↦
            let j-i : j ≡ i = ground arith in
            let mine_i : page_owned arena layer i ≡ true =
              ap (page_owned arena layer) (sym j-i) ∙ mine in
            (omega arith, page_owned→Owned arena i mine_i)
        | inr other ↦ check_pages→PagesOwned ids rest i (ground arith)
      ]

  PagesOwned→check_pages : (ids : List ℕ) → PagesOwned ids → check_pages arena layer ids ≡ true
  unfolding check_pages fits_int32 contains
  PagesOwned→check_pages [] h = refl
  PagesOwned→check_pages (j ∷ ids) h =
      let (small, mine) = h j (ground (arith, ==_iff j j)) in
      let owned = Owned→passes arena j mine in
      let rest = PagesOwned→check_pages ids (λ i c. h i (ground arith)) in ground arith

  check_sequence→Admits :
      (s : AttentionSequencePages) → check_sequence config arena layer s ≡ true → Admits s
  unfolding check_sequence fits_int32
  check_sequence→Admits s h = record {
    tokens_fit = ground arith;
    needed = ground arith;
    pages_fit = ground arith;
    owned = check_pages→PagesOwned s.page_ids (ground arith);
  }

  Admits→check_sequence :
      (s : AttentionSequencePages) → Admits s → check_sequence config arena layer s ≡ true
  unfolding check_sequence fits_int32
  Admits→check_sequence s a =
      let pages = PagesOwned→check_pages s.page_ids a.owned in
      let tokens = a.tokens_fit in let needed = a.needed in let fit = a.pages_fit in ground arith

  -- The greatest of the lengths, and of a start.
  pub record Greatest (size : AttentionSequencePages → ℕ) (sequences : List AttentionSequencePages)
      (start found : ℕ) : Type 0 where
    pub start_le : start ≤ found
    pub all_le :
        (i : ℕ) (s : AttentionSequencePages) → get_elem? sequences i ≡ some s → size s ≤ found
    pub reached :
        (found ≡ start)
        ⊎ ((i : ℕ) × (s : AttentionSequencePages) × (get_elem? sequences i ≡ some s)
            × (size s ≡ found))

  Greatest-cons :
      (size : AttentionSequencePages → ℕ) (s : AttentionSequencePages)
      (rest : List AttentionSequencePages) (start found : ℕ)
      → Greatest size rest (max start (size s)) found
      → Greatest size (s ∷ rest) start found
  Greatest-cons size s rest start found g = record {
    start_le = let up = g.start_le in omega arith;
    all_le = all_le;
    reached = elim g.reached [
      | inl e ↦ elim (Bool-cases (leb (size s) start)) [
        | inl small ↦ inl (ground arith)
        | inr large ↦ inr (0, s, refl, ground arith)
      ]
      | inr (i, t, e, same) ↦ inr (suc i, t, e, same)
    ];
  }
    where
      all_le :
          (i : ℕ) (t : AttentionSequencePages) → get_elem? (s ∷ rest) i ≡ some t → size t ≤ found
      all_le zero t e =
          let same : s ≡ t = Option.some-injective _ _ e in
          let size_same : size s ≡ size t = ap size same in let up = g.start_le in omega arith
      all_le (suc i) t e = g.all_le i t e

  abbrev pub page_count : AttentionSequencePages → ℕ
  page_count s = length s.page_ids

  abbrev pub tokens_of : AttentionSequencePages → ℕ
  tokens_of s = s.token_count

  -- The answer of the first loop.
  pub data Checked (sequences : List AttentionSequencePages) (tokens pages : ℕ) : Type 0 where
    passed :
        (t p : ℕ)
        → check_sequences config arena layer sequences tokens pages ≡ some (t, p)
        → Admitted sequences
        → Greatest tokens_of sequences tokens t
        → Greatest page_count sequences pages p
        → Checked sequences tokens pages
    failed :
        check_sequences config arena layer sequences tokens pages ≡ none
        → ¬ Admitted sequences
        → Checked sequences tokens pages

  nothing_greater : (size : AttentionSequencePages → ℕ) (n : ℕ) → Greatest size [] n n
  nothing_greater size n = record {
    start_le = omega arith;
    all_le = λ i s e. absurd cc;
    reached = inl refl;
  }

  pub check_sequences-Checked :
      (sequences : List AttentionSequencePages) (tokens pages : ℕ) → Checked sequences tokens pages
  unfolding check_sequences
  check_sequences-Checked [] tokens pages =
      passed tokens pages refl tt (nothing_greater tokens_of tokens)
        (nothing_greater page_count pages)
  check_sequences-Checked (s ∷ rest) tokens pages =
      elim (Bool-cases (check_sequence config arena layer s)) [
        | inr e ↦
            failed (rw (e, check_sequences) refl)
              (λ p. let t = Admits→check_sequence s p.0 in let u : false ≡ true = sym e ∙ t in cc)
        | inl e ↦
            let a = check_sequence→Admits s e in
            let needed : required_pages_for_tokens config s.token_count ≡ page_count s =
              sym a.needed in
            elim (check_sequences-Checked rest (max tokens s.token_count)
              (max pages (required_pages_for_tokens config s.token_count))) [
                | passed t p q ok g h ↦
                    passed t p (rw (e, check_sequences) q) (a, ok)
                      (Greatest-cons tokens_of s rest tokens t g)
                      (Greatest-cons page_count s rest pages p (rw needed at h))
                | failed q bad ↦ failed (rw (e, check_sequences) q) (λ p. bad p.1)
              ]
      ]

  pub Greatest→NoWider :
      (sequences : List AttentionSequencePages) (start p : ℕ)
      → Greatest page_count sequences start p
      → NoWider p sequences
  Greatest→NoWider sequences start p g = wide sequences g.all_le
    where
      wide :
          (l : List AttentionSequencePages)
          → ((i : ℕ) (s : AttentionSequencePages) → get_elem? l i ≡ some s → page_count s ≤ p)
          → NoWider p l
      wide [] h = tt
      wide (s ∷ l) h = (h 0 s refl, wide l (λ i t e. h (suc i) t e))
