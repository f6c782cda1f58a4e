-- ===== src/KvPages/Order.antt =====
-- The free ids in order: membership, ascending lists, and the sort of `ReleasePages`.
use nemotron_inference.Base.{
  ℕ, ◌≤◌, ◌<◌, ◌≡◌, refl, ap, ◌∙◌, inl, inr, Bool-cases, true, false, List, [], ◌∷◌, ◌++◌, arith,
  ltb, ◌==◌, if◌then◌else◌,
}
use nemotron_inference.KvPages.{contains, insert_id, sort_ids, push_all}

-- Every id of the list is above the given one.
abbrev pub Above : ℕ → List ℕ → Type 0
Above x [] = Unit
Above x (y ∷ l) = (x < y) × Above x l

abbrev pub Ascending : List ℕ → Type 0
Ascending [] = Unit
Ascending (x ∷ l) = Above x l × Ascending l

-- No id occurs twice.
abbrev pub NoRepeat : List ℕ → Type 0
NoRepeat [] = Unit
NoRepeat (x ∷ l) = (contains x l ≡ false) × NoRepeat l

pub Above-weaken : (x y : ℕ) (l : List ℕ) → x ≤ y → Above y l → Above x l
Above-weaken x y [] h a = tt
Above-weaken x y (z ∷ l) h (a, r) = (omega arith, Above-weaken x y l h r)

pub contains-Above : (x y : ℕ) (l : List ℕ) → Above x l → y ≤ x → contains y l ≡ false
unfolding contains
contains-Above x y [] a h = refl
contains-Above x y (z ∷ l) (a, r) h = ground (arith, contains-Above x y l r h)

pub contains-append :
    (i : ℕ) (l r : List ℕ) → contains i (l ++ r) ≡ (if contains i l then true else contains i r)
unfolding contains
contains-append i [] r = refl
contains-append i (x ∷ l) r = ground (arith, contains-append i l r)

pub Ascending-NoRepeat : (l : List ℕ) → Ascending l → NoRepeat l
Ascending-NoRepeat [] a = tt
Ascending-NoRepeat (x ∷ l) (a, r) = (contains-Above x x l a (omega arith), Ascending-NoRepeat l r)

pub Above-append : (x : ℕ) (l r : List ℕ) → Above x (l ++ r) → Above x l × Above x r
Above-append x [] r a = (tt, a)
Above-append x (y ∷ l) r (a, b) = let (p, q) = Above-append x l r b in ((a, p), q)

pub Ascending-append : (l r : List ℕ) → Ascending (l ++ r) → Ascending l × Ascending r
Ascending-append [] r a = (tt, a)
Ascending-append (x ∷ l) r (a, b) =
    let (p, q) = Ascending-append l r b in let (above, _) = Above-append x l r a in ((above, p), q)

-- No id of the first part is in the second.
pub apart : (i : ℕ) (l r : List ℕ) → Ascending (l ++ r) → contains i l ≡ true → contains i r ≡ false
unfolding contains
apart i [] r a h = absurd (ground arith)
apart i (x ∷ l) r (a, b) h =
    let (_, above) = Above-append x l r a in
    ground (arith, apart i l r b, contains-Above x i r above)

pub contains-insert_id :
    (y x : ℕ) (l : List ℕ) → contains y (insert_id x l) ≡ (if x == y then true else contains y l)
unfolding contains insert_id
contains-insert_id y x [] = refl
contains-insert_id y x (z ∷ l) = ground (arith, contains-insert_id y x l)

pub contains-sort_ids : (y : ℕ) (l : List ℕ) → contains y (sort_ids l) ≡ contains y l
unfolding contains sort_ids
contains-sort_ids y [] = refl
contains-sort_ids y (x ∷ l) =
    ground (arith, contains-insert_id y x (sort_ids l), contains-sort_ids y l)

pub contains-push_all :
    (y : ℕ) (l s : List ℕ)
    → contains y (push_all l s) ≡ (if contains y l then true else contains y s)
unfolding contains push_all
contains-push_all y [] s = refl
contains-push_all y (x ∷ l) s = ground (arith, contains-push_all y l (x ∷ s))

Above-insert_id : (x y : ℕ) (l : List ℕ) → x < y → Above x l → Above x (insert_id y l)
unfolding insert_id
Above-insert_id x y [] h a = (h, tt)
Above-insert_id x y (z ∷ l) h (a, r) = elim (Bool-cases (ltb z y)) [
  | inl e ↦ rw e (a, Above-insert_id x y l h r)
  | inr e ↦ rw e (h, (a, r))
]

pub insert_id-Ascending :
    (x : ℕ) (l : List ℕ) → Ascending l → contains x l ≡ false → Ascending (insert_id x l)
unfolding insert_id contains
insert_id-Ascending x [] a h = (tt, tt)
insert_id-Ascending x (z ∷ l) (a, r) h = elim (Bool-cases (ltb z x)) [
  | inl e ↦ rw e (Above-insert_id z x l (ground arith) a, insert_id-Ascending x l r (ground arith))
  | inr e ↦
      rw e (let less : x < z = ground arith in ((less, Above-weaken x z l (omega arith) a), (a, r)))
]

pub sort_ids-Ascending : (l : List ℕ) → NoRepeat l → Ascending (sort_ids l)
unfolding sort_ids
sort_ids-Ascending [] h = tt
sort_ids-Ascending (x ∷ l) (h, r) =
    insert_id-Ascending x (sort_ids l) (sort_ids-Ascending l r) (contains-sort_ids x l ∙ h)

insert_below : (x : ℕ) (l : List ℕ) → Above x l → insert_id x l ≡ x ∷ l
unfolding insert_id
insert_below x [] a = refl
insert_below x (z ∷ l) (a, r) = ground arith

pub sort_sorted : (l : List ℕ) → Ascending l → sort_ids l ≡ l
unfolding sort_ids
sort_sorted [] a = refl
sort_sorted (x ∷ l) (a, r) = ap (insert_id x) (sort_sorted l r) ∙ insert_below x l a

insert_all : List ℕ → List ℕ → List ℕ
insert_all [] s = s
insert_all (x ∷ l) s = insert_all l (insert_id x s)

sort-push_all : (l s : List ℕ) → sort_ids (push_all l s) ≡ insert_all l (sort_ids s)
unfolding push_all sort_ids insert_all
sort-push_all [] s = refl
sort-push_all (x ∷ l) s = sort-push_all l (x ∷ s)

insert_all_below : (x : ℕ) (l s : List ℕ) → Above x l → insert_all l (x ∷ s) ≡ x ∷ insert_all l s
unfolding insert_all insert_id
insert_all_below x [] s a = refl
insert_all_below x (y ∷ l) s (a, r) =
    let step : insert_id y (x ∷ s) ≡ x ∷ insert_id y s = ground arith in
    ap (insert_all l) step ∙ insert_all_below x l (insert_id y s) r

insert_all_append : (l s : List ℕ) → Ascending (l ++ s) → insert_all l s ≡ l ++ s
unfolding insert_all
insert_all_append [] s a = refl
insert_all_append (x ∷ l) s (a, r) =
    let (p, q) = Above-append x l s a in
    ap (insert_all l) (insert_below x s q)
    ∙ insert_all_below x l s p
    ∙ ap (λ t. x ∷ t) (insert_all_append l s r)

-- Pushing ids that stand before the rest in order, and then sorting, puts them back before it.
pub sort_pushed : (l s : List ℕ) → Ascending (l ++ s) → sort_ids (push_all l s) ≡ l ++ s
sort_pushed l s a =
    sort-push_all l s
    ∙ ap (insert_all l) (sort_sorted s (Ascending-append l s a).1)
    ∙ insert_all_append l s a
