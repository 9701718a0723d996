-- ===== src/TopK/Merge.antt =====
-- The best entries of two parts, merged, are the best of all.
use leann_cpp.Prelude.{
  ℕ, zero, suc, ◌≡◌, refl, ◌∙◌, sym, ap, Bool, true, List, [], ◌∷◌, ◌++◌, arith, take, all,
  Bool-cases, inl, inr,
}
use mathlib.Core.List.{perm_append_comm}
use leann_cpp.TopK.{Entry, before}
use leann_cpp.TopK.Order.{
  insert, sort, topk, insert_here, insert_later, insert_nil, sort-perm, sort-IsSorted,
  sort_of_IsSorted, take-IsSorted, all_after, insert-all_after, all_after-insert,
}

-- What stands behind the best `k` has no say in who they are after an insertion.
take-insert :
    (k : ℕ) (x : Entry) (l : List Entry) → take k (insert x l) ≡ take k (insert x (take k l))
take-insert zero x l = refl
take-insert (suc k) x [] = refl
take-insert (suc k) x (y ∷ l) = elim (Bool-cases (before x y)) [
  | inl xy ↦
      rw (insert_here x y l xy, insert_here x y (take k l) xy)
        (ap (λ r. x ∷ r) (take-cons-take k y l))
  | inr n ↦
      rw (insert_later x y l n, insert_later x y (take k l) n) (ap (λ r. y ∷ r) (take-insert k x l))
]
  where
    take-cons-take : (n : ℕ) (a : Entry) (r : List Entry) → take n (a ∷ r) ≡ take n (a ∷ take n r)
    take-cons-take zero a r = refl
    take-cons-take (suc zero) a r = refl
    take-cons-take (suc (suc n)) a [] = refl
    take-cons-take (suc (suc n)) a (b ∷ r) = ap (λ t. a ∷ t) (take-cons-take (suc n) b r)

-- Entries put into a sorted list one by one.
insert_all : List Entry → List Entry → List Entry
insert_all [] s = s
insert_all (x ∷ l) s = insert x (insert_all l s)

sort-append : (l r : List Entry) → sort (l ++ r) ≡ insert_all l (sort r)
unfolding sort insert_all
sort-append [] r = refl
sort-append (x ∷ l) r = ap (insert x) (sort-append l r)

take-insert_all :
    (k : ℕ) (l s : List Entry) → take k (insert_all l s) ≡ take k (insert_all l (take k s))
unfolding insert_all
take-insert_all k [] s = sym (take-take k s)
  where
    take-take : (n : ℕ) (r : List Entry) → take n (take n r) ≡ take n r
    take-take zero r = refl
    take-take (suc n) [] = refl
    take-take (suc n) (a ∷ r) = ap (λ t. a ∷ t) (take-take n r)
take-insert_all k (x ∷ l) s =
    take-insert k x (insert_all l s)
    ∙ ap (λ t. take k (insert x t)) (take-insert_all k l s)
    ∙ sym (take-insert k x (insert_all l (take k s)))

topk-append_right : (k : ℕ) (l r : List Entry) → topk k (l ++ topk k r) ≡ topk k (l ++ r)
unfolding topk
topk-append_right k l r =
    ap (take k) (sort-append l (take k (sort r)))
    ∙ ap (λ t. take k (insert_all l t))
        (sort_of_IsSorted (take k (sort r)) (take-IsSorted k (sort r) (sort-IsSorted r)))
    ∙ sym (take-insert_all k l (sort r))
    ∙ sym (ap (take k) (sort-append l r))

topk_comm : (k : ℕ) (l r : List Entry) → topk k (l ++ r) ≡ topk k (r ++ l)
unfolding topk
topk_comm k l r = ap (take k) (sort-perm (l ++ r) (r ++ l) (perm_append_comm l r))

-- The best of the best of two parts are the best of both.
pub topk-append : (k : ℕ) (l r : List Entry) → topk k (topk k l ++ topk k r) ≡ topk k (l ++ r)
topk-append k l r =
    topk-append_right k (topk k l) r
    ∙ topk_comm k (topk k l) r
    ∙ topk-append_right k r l
    ∙ topk_comm k r l

-- If all of one part stands before the other, sorting keeps the parts apart.
abbrev pub parts_ordered : List Entry → List Entry → Bool
parts_ordered l r = all (λ x. all_after x r) l

insert-append :
    (x : Entry) (s r : List Entry) → all_after x r ≡ true → insert x (s ++ r) ≡ insert x s ++ r
insert-append x [] r h = insert-all_after x r h ∙ (rw insert_nil)
insert-append x (y ∷ s) r h = elim (Bool-cases (before x y)) [
  | inl xy ↦ rw (insert_here x y (s ++ r) xy, insert_here x y s xy)
  | inr n ↦
      rw (insert_later x y (s ++ r) n, insert_later x y s n)
        (ap (λ t. y ∷ t) (insert-append x s r h))
]

pub all_after-sort :
    (x : Entry) (l : List Entry) → all_after x l ≡ true → all_after x (sort l) ≡ true
unfolding sort
all_after-sort x [] h = refl
all_after-sort x (y ∷ l) h =
    all_after-insert x y (sort l) (ground arith) (all_after-sort x l (ground arith))

pub sort-append_of_ordered :
    (l r : List Entry) → parts_ordered l r ≡ true → sort (l ++ r) ≡ sort l ++ sort r
unfolding sort
sort-append_of_ordered [] r h = refl
sort-append_of_ordered (x ∷ l) r h =
    ap (insert x) (sort-append_of_ordered l r (ground arith))
    ∙ insert-append x (sort l) (sort r) (all_after-sort x r (ground arith))
