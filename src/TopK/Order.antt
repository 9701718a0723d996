-- ===== src/TopK/Order.antt =====
-- Insertion sort by the order of the results, the specification of the top-k, and its laws.
use leann_cpp.Prelude.{
  ℕ, zero, suc, ◌≡◌, refl, ◌∙◌, sym, ap, Bool, true, false, List, [], ◌∷◌, arith, take, all,
  if◌then◌else◌, Bool-cases, inl, inr, &&-true,
}
use mathlib.Core.List.{Perm, foldr}
use mathlib.Core.List.Perm
use leann_cpp.TopK.{Entry, before, IsSorted}

unfoldable pub insert : Entry → List Entry → List Entry
insert x [] = x ∷ []
insert x (y ∷ l) = let rest = insert x l in if before x y then x ∷ y ∷ l else y ∷ rest

-- The entries from the best to the worst.
unfoldable pub sort : List Entry → List Entry
unfolding insert
sort [] = []
sort (x ∷ l) = insert x (sort l)

-- The specification: the `k` best entries.
unfoldable pub topk : ℕ → List Entry → List Entry
unfolding sort
topk k l = take k (sort l)

before_total : (x y : Entry) → before x y ≡ false → before y x ≡ true
before_total x y h = ground arith

before_antisymm : (x y : Entry) → before x y ≡ true → before y x ≡ true → x ≡ y
before_antisymm x y h k = ground arith

pub before_trans : (x y z : Entry) → before x y ≡ true → before y z ≡ true → before x z ≡ true
before_trans x y z h k = ground arith

pub insert_here : (x y : Entry) (l : List Entry) → before x y ≡ true → insert x (y ∷ l) ≡ x ∷ y ∷ l
unfolding insert
insert_here x y l h = rw h

pub insert_later :
    (x y : Entry) (l : List Entry) → before x y ≡ false → insert x (y ∷ l) ≡ y ∷ insert x l
unfolding insert
insert_later x y l h = rw h

pub insert_nil : (x : Entry) → insert x [] ≡ x ∷ []
unfolding insert
insert_nil x = refl

insert_comm_nil : (x y : Entry) → insert x (insert y []) ≡ insert y (insert x [])
unfolding insert
insert_comm_nil x y = ground arith

-- The two possible orders of the heads, and the head of the list behind them.
pub insert_comm : (x y : Entry) (l : List Entry) → insert x (insert y l) ≡ insert y (insert x l)
insert_comm x y [] = insert_comm_nil x y
insert_comm x y (z ∷ l) = elim (Bool-cases (before x z)) [
  | inl xz ↦ elim (Bool-cases (before y z)) [
    | inl yz ↦ rw (insert_here x z l xz, insert_here y z l yz) (heads xz yz)
    | inr zy ↦
        rw (insert_here x z l xz, insert_later y z l zy)
          (insert_here x z _ xz
            ∙ sym
                (insert_later y x (z ∷ l) (ground arith) ∙ ap (λ r. x ∷ r) (insert_later y z l zy)))
  ]
  | inr zx ↦ elim (Bool-cases (before y z)) [
    | inl yz ↦
        rw (insert_later x z l zx, insert_here y z l yz)
          ((insert_later x y (z ∷ l) (ground arith) ∙ ap (λ r. y ∷ r) (insert_later x z l zx))
            ∙ sym (insert_here y z _ yz))
    | inr zy ↦
        rw (insert_later x z l zx, insert_later y z l zy)
          (insert_later x z _ zx
            ∙ ap (λ r. z ∷ r) (insert_comm x y l)
            ∙ sym (insert_later y z _ zy))
  ]
]
  where
    heads : before x z ≡ true → before y z ≡ true → insert x (y ∷ z ∷ l) ≡ insert y (x ∷ z ∷ l)
    heads xz yz = elim (Bool-cases (before x y)) [
      | inl xy ↦ elim (Bool-cases (before y x)) [
        | inl yx ↦ let e : x ≡ y = before_antisymm x y xy yx in rw e
        | inr n ↦
            insert_here x y _ xy
            ∙ sym (insert_later y x _ n ∙ ap (λ r. x ∷ r) (insert_here y z l yz))
      ]
      | inr n ↦
          (insert_later x y _ n ∙ ap (λ r. y ∷ r) (insert_here x z l xz))
          ∙ sym (insert_here y x _ (before_total x y n))
    ]

Entries-set : IsSet (List Entry)
Entries-set = hlevel

sort-foldr : (l : List Entry) → sort l ≡ foldr insert [] l
unfolding sort
sort-foldr [] = refl
sort-foldr (x ∷ l) = ap (insert x) (sort-foldr l)

-- The order in which entries come makes no difference.
pub sort-perm : (l r : List Entry) → Perm l r → sort l ≡ sort r
sort-perm l r p =
    sort-foldr l ∙ Perm.foldr-eq Entries-set insert insert_comm p [] ∙ sym (sort-foldr r)

-- The head stands before everything behind it.
abbrev pub all_after : Entry → List Entry → Bool
all_after x = all (before x)

pub all_after-insert :
    (x y : Entry) (l : List Entry)
    → before x y ≡ true
    → all_after x l ≡ true
    → all_after x (insert y l) ≡ true
unfolding insert
all_after-insert x y [] h k = ground arith
all_after-insert x y (z ∷ l) h k = ground (arith, all_after-insert x y l)

pub insert-all_after : (x : Entry) (l : List Entry) → all_after x l ≡ true → insert x l ≡ x ∷ l
insert-all_after x [] h = insert_nil x
insert-all_after x (y ∷ l) h = insert_here x y l (ground arith)

pub all_after_trans :
    (x y : Entry) (l : List Entry) → before x y ≡ true → all_after y l ≡ true → all_after x l ≡ true
all_after_trans x y [] h k = refl
all_after_trans x y (z ∷ l) h k =
    let k' = (&&-true (before y z) (all_after y l)).0 k in
    (&&-true _ _).1 (before_trans x y z h k'.0, all_after_trans x y l h k'.1)

pub IsSorted-head : (x : Entry) (l : List Entry) → IsSorted (x ∷ l) → all_after x l ≡ true
IsSorted-head x [] h = refl
IsSorted-head x (y ∷ l) (h, s) = (&&-true _ _).1 (h, all_after_trans x y l h (IsSorted-head y l s))

pub IsSorted-tail : (x : Entry) (l : List Entry) → IsSorted (x ∷ l) → IsSorted l
IsSorted-tail x [] h = tt
IsSorted-tail x (y ∷ l) h = h.1

-- Sorting a sorted list changes nothing.
pub sort_of_IsSorted : (l : List Entry) → IsSorted l → sort l ≡ l
unfolding sort
sort_of_IsSorted [] h = refl
sort_of_IsSorted (x ∷ l) h =
    ap (insert x) (sort_of_IsSorted l (IsSorted-tail x l h))
    ∙ insert-all_after x l (IsSorted-head x l h)

IsSorted-cons : (x : Entry) (l : List Entry) → all_after x l ≡ true → IsSorted l → IsSorted (x ∷ l)
IsSorted-cons x [] h s = tt
IsSorted-cons x (y ∷ l) h s = (ground arith, s)

insert-IsSorted : (x : Entry) (l : List Entry) → IsSorted l → IsSorted (insert x l)
insert-IsSorted x [] s = rw insert_nil tt
insert-IsSorted x (y ∷ l) s = elim (Bool-cases (before x y)) [
  | inl xy ↦ rw (insert_here x y l xy) (xy, s)
  | inr n ↦
      let yx = before_total x y n in
      rw (insert_later x y l n) (
        IsSorted-cons y (insert x l) (all_after-insert y x l yx (IsSorted-head y l s))
          (insert-IsSorted x l (IsSorted-tail y l s)))
]

pub sort-IsSorted : (l : List Entry) → IsSorted (sort l)
unfolding sort
sort-IsSorted [] = tt
sort-IsSorted (x ∷ l) = insert-IsSorted x (sort l) (sort-IsSorted l)

pub all_after-take :
    (x : Entry) (n : ℕ) (l : List Entry) → all_after x l ≡ true → all_after x (take n l) ≡ true
all_after-take x zero l h = refl
all_after-take x (suc n) [] h = refl
all_after-take x (suc n) (y ∷ l) h = ground (arith, all_after-take x n l)

pub take-IsSorted : (n : ℕ) (l : List Entry) → IsSorted l → IsSorted (take n l)
take-IsSorted zero l s = tt
take-IsSorted (suc n) [] s = tt
take-IsSorted (suc n) (x ∷ l) s =
    IsSorted-cons x (take n l) (all_after-take x n l (IsSorted-head x l s))
      (take-IsSorted n l (IsSorted-tail x l s))
