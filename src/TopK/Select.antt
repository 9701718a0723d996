-- ===== src/TopK/Select.antt =====
-- `_select_topk` returns the best entries of a row: the threshold and the ties by ID lose nothing.
use leann_cpp.Prelude.{
  ℕ, zero, suc, ◌+◌, ◌-◌, ◌≤◌, ◌≡◌, refl, ◌∙◌, sym, ap, Bool, true, false, ◌&&◌, List, [], ◌∷◌,
  ◌++◌, append_assoc, arith, length, take, all, ltb, ◌==◌, length-append, all-append, length-take,
  take-append_le, take-of_length, ◌⊎◌, Bool-cases, inl, inr, &&-true,
}
use mathlib.Core.List.{Perm, foldr}
use mathlib.Core.Bool.{Bool-set}
use mathlib.Core.List.Perm
use leann_cpp.TopK.{Entry, before, IsSorted, IsSortedById, NumPy, keep, candidates}
use leann_cpp.TopK.Order.{
  insert, sort, sort-perm, sort-IsSorted, sort_of_IsSorted, take-IsSorted, all_after,
  all_after-take, insert_comm,
}
use leann_cpp.TopK.Merge.{parts_ordered, sort-append_of_ordered, all_after-sort}

length-insert : (x : Entry) (l : List Entry) → length (insert x l) ≡ suc (length l)
unfolding insert
length-insert x [] = refl
length-insert x (y ∷ l) = ground (arith, length-insert x l)

pub length-sort : (l : List Entry) → length (sort l) ≡ length l
unfolding sort
length-sort [] = refl
length-sort (x ∷ l) = length-insert x (sort l) ∙ ap suc (length-sort l)

-- An entry in the middle is sorted in like one in front.
sort-middle : (x : Entry) (l r : List Entry) → sort (l ++ x ∷ r) ≡ insert x (sort (l ++ r))
unfolding sort
sort-middle x [] r = refl
sort-middle x (y ∷ l) r = ap (insert y) (sort-middle x l r) ∙ insert_comm y x (sort (l ++ r))

keep_in :
    (q : Entry → Bool) (x : Entry) (l : List Entry) → q x ≡ true → keep q (x ∷ l) ≡ x ∷ keep q l
keep_in q x l h = rw h

keep_out : (q : Entry → Bool) (x : Entry) (l : List Entry) → q x ≡ false → keep q (x ∷ l) ≡ keep q l
keep_out q x l h = rw h

abbrev pub is_above : ℕ → Entry → Bool
is_above t e = ltb t e.score

abbrev pub is_level : ℕ → Entry → Bool
is_level t e = e.score == t

abbrev pub is_below : ℕ → Entry → Bool
is_below t e = ltb e.score t

module _ (t : ℕ) where
  abbrev three : List Entry → List Entry
  three row = keep (is_above t) row ++ (keep (is_level t) row ++ keep (is_below t) row)

  sort-three : (row : List Entry) → sort row ≡ sort (three row)
  unfolding sort
  sort-three [] = refl
  sort-three (x ∷ row) =
      ap (insert x) (sort-three row)
      ∙ sym (into (Bool-cases (ltb t x.score)) (Bool-cases (x.score == t)))
    where
      into :
          (ltb t x.score ≡ true) ⊎ (ltb t x.score ≡ false)
          → ((x.score == t) ≡ true) ⊎ ((x.score == t) ≡ false)
          → sort (three (x ∷ row)) ≡ insert x (sort (three row))
      into (inl h) k = rw (
        keep_in (is_above t) x row h,
        keep_out (is_level t) x row (ground arith),
        keep_out (is_below t) x row (ground arith),
      )
      into (inr h) (inl k) =
          rw
            (
              keep_out (is_above t) x row h,
              keep_in (is_level t) x row k,
              keep_out (is_below t) x row (ground arith),
            )
            (sort-middle x (keep (is_above t) row) (keep (is_level t) row ++ keep (is_below t) row))
      into (inr h) (inr k) =
          rw
            (
              keep_out (is_above t) x row h,
              keep_out (is_level t) x row k,
              keep_in (is_below t) x row (ground arith),
            )
            (ap sort (
                sym (
                  append_assoc (keep (is_above t) row) (keep (is_level t) row)
                    (x ∷ keep (is_below t) row)))
              ∙ sort-middle x (keep (is_above t) row ++ keep (is_level t) row)
                  (keep (is_below t) row)
              ∙ ap (λ l. insert x (sort l))
                  (append_assoc (keep (is_above t) row) (keep (is_level t) row)
                    (keep (is_below t) row)))

-- Every kept entry stands behind `x`, if all that satisfy the test do.
all_after-keep :
    (x : Entry) (q : Entry → Bool) (l : List Entry)
    → ((y : Entry) → q y ≡ true → before x y ≡ true)
    → all_after x (keep q l) ≡ true
all_after-keep x q [] h = refl
all_after-keep x q (y ∷ l) h = ground (arith, h y, all_after-keep x q l h)

parts_ordered-keep :
    (p : Entry → Bool) (l r : List Entry)
    → ((x : Entry) → p x ≡ true → all_after x r ≡ true)
    → parts_ordered (keep p l) r ≡ true
parts_ordered-keep p [] r h = refl
parts_ordered-keep p (x ∷ l) r h = ground (arith, h x, parts_ordered-keep p l r h)

take-append-more {ℓ} :
    {A : Type ℓ} (k : ℕ) (xs ys : List A)
    → length xs ≤ k
    → take k (xs ++ ys) ≡ xs ++ take (k - length xs) ys
take-append-more k [] ys h = let e : k - 0 ≡ k = omega arith in rw e
take-append-more zero (x ∷ xs) ys h = absurd (omega arith)
take-append-more (suc k) (x ∷ xs) ys h =
    ap (λ r. x ∷ r)
      (take-append-more k xs ys (omega arith)
        ∙ let e : k - length xs ≡ suc k - suc (length xs) = omega arith in rw e)

all-keep : (q : Entry → Bool) (l : List Entry) → all q (keep q l) ≡ true
all-keep q [] = refl
all-keep q (x ∷ l) = ground (arith, all-keep q l)

all-foldr : (q : Entry → Bool) (l : List Entry) → all q l ≡ foldr (λ x b. q x && b) true l
all-foldr q [] = refl
all-foldr q (x ∷ l) = ap (λ b. q x && b) (all-foldr q l)

all-perm : (q : Entry → Bool) (l r : List Entry) → Perm l r → all q l ≡ all q r
all-perm q l r p =
    all-foldr q l
    ∙ Perm.foldr-eq Bool-set (λ x b. q x && b) (λ a b x. ground arith) p true
    ∙ sym (all-foldr q r)

-- Entries of one score that are in order by ID are in order.
IsSorted-of_level :
    (t : ℕ) (l : List Entry) → IsSortedById l → all (is_level t) l ≡ true → IsSorted l
IsSorted-of_level t [] s h = tt
IsSorted-of_level t (x ∷ []) s h = tt
IsSorted-of_level t (x ∷ y ∷ l) (le, s) h =
    (ground arith, IsSorted-of_level t (y ∷ l) s (ground arith))

above_before_level :
    (t : ℕ) (x y : Entry) → is_above t x ≡ true → is_level t y ≡ true → before x y ≡ true
above_before_level t x y h k = ground arith

above_before_below :
    (t : ℕ) (x y : Entry) → is_above t x ≡ true → is_below t y ≡ true → before x y ≡ true
above_before_below t x y h k = ground arith

level_before_below :
    (t : ℕ) (x y : Entry) → is_level t x ≡ true → is_below t y ≡ true → before x y ≡ true
level_before_below t x y h k = ground arith

module _ (N : NumPy) where
  open N use {lexsort, argsort, lexsort-IsSorted, lexsort-perm, argsort-IsSortedById, argsort-perm}

  pub lexsort-sort : (l : List Entry) → lexsort l ≡ sort l
  lexsort-sort l =
      sym (sort_of_IsSorted (lexsort l) (lexsort-IsSorted l))
      ∙ sort-perm (lexsort l) l (lexsort-perm l)

  module _ (t : ℕ) (row : List Entry) where
    abbrev pub strict : List Entry
    strict = keep (is_above t) row

    abbrev pub ties : List Entry
    ties = keep (is_level t) row

    abbrev lower : List Entry
    lower = keep (is_below t) row

    argsort-ties : argsort ties ≡ sort ties
    argsort-ties =
        sym (
          sort_of_IsSorted (argsort ties) (
            IsSorted-of_level t (argsort ties) (argsort-IsSortedById ties) (
              all-perm (is_level t) (argsort ties) ties (argsort-perm ties)
              ∙ all-keep (is_level t) row)))
        ∙ sort-perm (argsort ties) ties (argsort-perm ties)

    sort-row : sort row ≡ sort strict ++ (sort ties ++ sort lower)
    sort-row =
        sort-three t row
        ∙ sort-append_of_ordered strict (ties ++ lower) (
            parts_ordered-keep (is_above t) row (ties ++ lower) λ x hx.
              all-append (before x) ties lower
              ∙ (&&-true _ _).1 (
                all_after-keep x (is_level t) row (λ y. above_before_level t x y hx),
                all_after-keep x (is_below t) row (λ y. above_before_below t x y hx),
              ))
        ∙ ap (λ r. sort strict ++ r)
            (sort-append_of_ordered ties lower (
              parts_ordered-keep (is_level t) row lower
                λ x hx. all_after-keep x (is_below t) row (λ y. level_before_below t x y hx)))

    module _ (k : ℕ) (enough : length strict ≤ k) (full : k ≤ length strict + length ties) where
      abbrev needed : ℕ
      needed = k - length strict

      take-sort-row : take k (sort row) ≡ sort strict ++ take needed (sort ties)
      take-sort-row =
          ap (take k) sort-row
          ∙ take-append-more k (sort strict) (sort ties ++ sort lower)
              (omega (arith, length-sort strict))
          ∙ ap (λ r. sort strict ++ r)
              (ap (λ (n : ℕ). take (k - n) (sort ties ++ sort lower)) (length-sort strict)
                ∙ take-append_le needed (sort ties) (sort lower) (omega (arith, length-sort ties)))

      lexsort-candidates : lexsort (candidates N k row t) ≡ sort strict ++ take needed (sort ties)
      unfolding candidates
      lexsort-candidates =
          lexsort-sort _
          ∙ ap (λ r. sort (strict ++ take needed r)) argsort-ties
          ∙ sort-append_of_ordered strict (take needed (sort ties)) (
              parts_ordered-keep (is_above t) row (take needed (sort ties)) λ x hx.
                all_after-take x needed (sort ties) (
                  all_after-sort x ties
                    (all_after-keep x (is_level t) row (λ y. above_before_level t x y hx))))
          ∙ ap (λ r. sort strict ++ r)
              (sort_of_IsSorted (take needed (sort ties))
                (take-IsSorted needed (sort ties) (sort-IsSorted ties)))

      pub take-candidates : take k (lexsort (candidates N k row t)) ≡ take k (sort row)
      take-candidates =
          ap (take k) lexsort-candidates
          ∙ take-of_length k (sort strict ++ take needed (sort ties)) (
              omega (
                arith,
                length-append (sort strict) (take needed (sort ties)),
                length-sort strict,
                length-take needed (sort ties),
              ))
          ∙ sym take-sort-row
