-- ===== src/AttentionPlan/Table.antt =====
-- The page table that the loops write, row by row.
use nemotron_inference.Base.{
  ℕ, zero, suc, ◌+◌, ◌-◌, ◌*◌, ◌≤◌, ◌<◌, ◌≡◌, refl, sym, ap, ◌∙◌, List, [], ◌∷◌, ◌++◌, map, arith,
  add64, mul64, word, length, length-append, append_assoc, length-map, length-replicate, set,
  replicate,
}
use native.Mathlib.Nat.{mod-eq_of_lt}
use nemotron_inference.AttentionPlan.{
  AttentionSequencePages, to_int32, minus_one, write_row, write_rows,
}

-- One row: the pages, and -1 behind them.
abbrev pub row : ℕ → List ℕ → List ℕ
row max_pages page_ids = map to_int32 page_ids ++ replicate (max_pages - length page_ids) minus_one

-- The table as it should be: the rows in order.
unfoldable pub rows : ℕ → List AttentionSequencePages → List ℕ
rows max_pages [] = []
rows max_pages (sequence ∷ rest) = row max_pages sequence.page_ids ++ rows max_pages rest

-- Every sequence has at most so many pages.
abbrev pub NoWider : ℕ → List AttentionSequencePages → Type 0
NoWider max_pages [] = Unit
NoWider max_pages (sequence ∷ rest) =
    (length sequence.page_ids ≤ max_pages) × NoWider max_pages rest

set-append {ℓ} :
    {A : Type ℓ} (xs : List A) (y v : A) (ys : List A)
    → set (xs ++ y ∷ ys) (length xs) v ≡ xs ++ v ∷ ys
set-append [] y v ys = refl
set-append (x ∷ xs) y v ys = ap (λ t. x ∷ t) (set-append xs y v ys)

replicate_at {ℓ} : {A : Type ℓ} {m n : ℕ} (a : A) → m ≡ n → replicate m a ≡ replicate n a
replicate_at a e = ap (λ k. replicate k a) e

replicate-add {ℓ} :
    {A : Type ℓ} (m n : ℕ) (a : A) → replicate (m + n) a ≡ replicate m a ++ replicate n a
replicate-add zero n a = replicate_at {m = zero + n} {n = n} a (omega arith)
replicate-add (suc m) n a =
    replicate_at {m = suc m + n} {n = suc (m + n)} a (omega arith)
    ∙ ap (λ t. a ∷ t) (replicate-add m n a)

write_row_lem :
    (batch max_pages slot : ℕ) (ids before behind : List ℕ)
    → length before ≡ batch * max_pages + slot
    → batch * max_pages + slot + length ids < word
    → write_row batch max_pages slot ids (before ++ (replicate (length ids) minus_one ++ behind))
      ≡ before ++ (map to_int32 ids ++ behind)
unfolding write_row
write_row_lem batch max_pages slot [] before behind at_slot fits = refl
write_row_lem batch max_pages slot (i ∷ ids) before behind at_slot fits =
    let base : mul64 batch max_pages ≡ batch * max_pages = mod-eq_of_lt (omega arith) in
    let index : add64 (mul64 batch max_pages) slot ≡ length before =
      ap (λ k. add64 k slot) base ∙ mod-eq_of_lt (omega arith) ∙ sym at_slot in
    let longer = length-append before (to_int32 i ∷ []) in
    ap
      (λ k.
        write_row batch max_pages (suc slot) ids (
          set (before ++ (minus_one ∷ (replicate (length ids) minus_one ++ behind))) k
            (to_int32 i)))
      index
    ∙ ap (write_row batch max_pages (suc slot) ids) (
        set-append before minus_one (to_int32 i) (replicate (length ids) minus_one ++ behind)
        ∙ sym (append_assoc before (to_int32 i ∷ []) (replicate (length ids) minus_one ++ behind)))
    ∙ write_row_lem batch max_pages (suc slot) ids (before ++ (to_int32 i ∷ [])) behind
        (omega arith) (omega arith)
    ∙ append_assoc before (to_int32 i ∷ []) (map to_int32 ids ++ behind)

write_rows_lem :
    (max_pages batch : ℕ) (sequences : List AttentionSequencePages) (before : List ℕ)
    → length before ≡ batch * max_pages
    → NoWider max_pages sequences
    → batch * max_pages + length sequences * max_pages < word
    → write_rows max_pages batch sequences
        (before ++ replicate (length sequences * max_pages) minus_one)
      ≡ before ++ rows max_pages sequences
unfolding write_rows rows
write_rows_lem max_pages batch [] before at_batch wide fits =
    ap (λ t. before ++ t) (replicate_at {m = 0 * max_pages} {n = 0} minus_one (omega arith))
write_rows_lem max_pages batch (sequence ∷ rest) before at_batch (wide, others) fits =
    let ids = sequence.page_ids in
    let gap = max_pages - length ids in
    let behind : List ℕ =
      replicate gap minus_one ++ replicate (length rest * max_pages) minus_one in
    let cells : replicate (suc (length rest) * max_pages) minus_one
        ≡ replicate (length ids) minus_one ++ behind =
      replicate_at {m = suc (length rest) * max_pages}
        {n = length ids + (gap + length rest * max_pages)} minus_one (omega arith)
      ∙ replicate-add (length ids) (gap + length rest * max_pages) minus_one
      ∙ ap (λ t. replicate (length ids) minus_one ++ t)
          (replicate-add gap (length rest * max_pages) minus_one) in
    let written = write_row_lem batch max_pages 0 ids before behind (omega arith) (omega arith) in
    let joined =
      ap (λ t. before ++ t)
        (sym (
          append_assoc (map to_int32 ids) (replicate gap minus_one)
            (replicate (length rest * max_pages) minus_one)))
      ∙ sym (
          append_assoc before (row max_pages ids)
            (replicate (length rest * max_pages) minus_one)) in
    let l0 = length-append before (row max_pages ids) in
    let l1 = length-append (map to_int32 ids) (replicate gap minus_one) in
    let l2 = length-map ids to_int32 in
    let l3 = length-replicate gap minus_one in
    ap (λ t. write_rows max_pages (suc batch) rest (write_row batch max_pages 0 ids (before ++ t)))
      cells
    ∙ ap (write_rows max_pages (suc batch) rest) (written ∙ joined)
    ∙ write_rows_lem max_pages (suc batch) rest (before ++ row max_pages ids) (omega arith) others
        (omega arith)
    ∙ append_assoc before (row max_pages ids) (rows max_pages rest)

-- The loops write exactly the rows, where the size of the table is a word and no sequence has more
-- pages than a row.
pub write_rows-rows :
    (max_pages : ℕ) (sequences : List AttentionSequencePages)
    → NoWider max_pages sequences
    → length sequences * max_pages < word
    → write_rows max_pages 0 sequences (replicate (mul64 (length sequences) max_pages) minus_one)
      ≡ rows max_pages sequences
write_rows-rows max_pages sequences wide fits =
    ap (λ k. write_rows max_pages 0 sequences (replicate k minus_one)) (mod-eq_of_lt fits)
    ∙ write_rows_lem max_pages 0 sequences [] (omega arith) wide (omega arith)

pub length-rows :
    (max_pages : ℕ) (sequences : List AttentionSequencePages)
    → NoWider max_pages sequences
    → length (rows max_pages sequences) ≡ length sequences * max_pages
unfolding rows
length-rows max_pages [] wide = omega arith
length-rows max_pages (sequence ∷ rest) (wide, others) =
    let ids = sequence.page_ids in
    let gap = max_pages - length ids in
    let l0 = length-append (row max_pages ids) (rows max_pages rest) in
    let l1 = length-append (map to_int32 ids) (replicate gap minus_one) in
    let l2 = length-map ids to_int32 in
    let l3 = length-replicate gap minus_one in
    let l4 = length-rows max_pages rest others in omega arith
