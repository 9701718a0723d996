-- ===== src/Examples/Instances.antt =====
-- Concrete values of the parameters, which show that what is assumed of them can hold.
use leann_cpp.Prelude.{
  ◌^◌, le→leb, Result, err, overflow_error, ℕ, Option, none, some, ltb, ◌<◌, ◌+◌, ◌-◌, zero, suc,
  ◌≤◌, ◌%◌, ◌||◌, All-drop, ◌≡◌, refl, Bool, true, false, not, List, [], ◌∷◌, arith, length, take,
  drop, All, leb, ◌==◌, if◌then◌else◌, ok, Bool-cases, inl, inr, leb→le,
}
use mathlib.Core.List.{Perm}
use mathlib.Core.List.Perm
use leann_cpp.Bytes.{Bytes, IsByte}
use leann_cpp.Platform.{Digest, Float32}
use leann_cpp.TopK.{Entry, NumPy, numbers, before, IsSortedById}
use leann_cpp.GroundTruth.Words.{Digits}
use leann_cpp.TopK.Order.{insert, sort, sort-IsSorted, insert_here, insert_later, insert_nil}

abbrev pub zeros : ℕ → Bytes
zeros zero = []
zeros (suc n) = 0 ∷ zeros n

-- A digest that tells files apart by their first byte.
abbrev pub first_byte : Bytes → Bytes
first_byte [] = zeros 32
first_byte (b ∷ bs) = (b % 256) ∷ zeros 31

pub first_byte-length : (b : Bytes) → length (first_byte b) ≡ 32
first_byte-length [] = refl
first_byte-length (b ∷ bs) = refl

pub first_byte-IsByte : (b : Bytes) → All IsByte (first_byte b)
first_byte-IsByte [] = omega arith
first_byte-IsByte (b ∷ bs) = omega arith

abbrev pub toy_digest : Digest
toy_digest = record {
  sha256 = first_byte;
  length-sha256 = λ b. first_byte-length b;
  sha256-IsByte = λ b. first_byte-IsByte b;
}

-- The scalars 0.0 and 1.0.
abbrev pub toy_bytes : Bool → Bytes
toy_bytes true = 0 ∷ 0 ∷ 128 ∷ 63 ∷ []
toy_bytes false = 0 ∷ 0 ∷ 0 ∷ 0 ∷ []

abbrev pub toy_scalar : Bytes → Bool
toy_scalar (a ∷ b ∷ c ∷ bs) = not (c == 0)
toy_scalar _ = false

abbrev pub toy_norm : List Bool → Bool
toy_norm [] = false
toy_norm (x ∷ xs) = x || toy_norm xs

pub toy_bytes-length : (x : Bool) → length (toy_bytes x) ≡ 4
toy_bytes-length true = refl
toy_bytes-length false = refl

pub toy_scalar-bytes : (x : Bool) → toy_scalar (toy_bytes x) ≡ x
toy_scalar-bytes true = refl
toy_scalar-bytes false = refl

abbrev pub toy_floats : Float32
toy_floats = record {
  Scalar = Bool;
  to_bytes = toy_bytes;
  of_bytes = toy_scalar;
  is_finite = λ x. true;
  norm = toy_norm;
  is_tiny = λ x. not x;
  is_off_unit = λ x. not x;
  divide = λ x y. x;
  length-to_bytes = toy_bytes-length;
  of_bytes-to_bytes = toy_scalar-bytes;
}

abbrev pub ascii_digit : ℕ → Option ℕ
ascii_digit c = if ltb c 48 then none else (if ltb c 58 then some (c - 48) else none)

pub ascii : (d : ℕ) → d < 10 → ascii_digit (48 + d) ≡ some d
ascii d h = ground arith

abbrev pub digits : Digits
digits = record { digit = ascii_digit; digit_ascii = ascii }

-- Insertion sort by a key, for the sorts of NumPy.
module _ {A : Type 0} (key : A → ℕ) where
  abbrev pub insert_by : A → List A → List A
  insert_by x [] = x ∷ []
  insert_by x (y ∷ l) =
      let rest = insert_by x l in if leb (key x) (key y) then x ∷ y ∷ l else y ∷ rest

  abbrev pub sort_by : List A → List A
  sort_by [] = []
  sort_by (x ∷ l) = insert_by x (sort_by l)

  insert_by-perm : (x : A) (l : List A) → Perm (insert_by x l) (x ∷ l)
  insert_by-perm x [] = Perm.rfl
  insert_by-perm x (y ∷ l) = elim (Bool-cases (leb (key x) (key y))) [
    | inl h ↦ rw h Perm.rfl
    | inr h ↦ rw h (Perm.trans (Perm.cons y (insert_by-perm x l)) (Perm.swap x y l))
  ]

  pub sort_by-perm : (l : List A) → Perm (sort_by l) l
  sort_by-perm [] = Perm.rfl
  sort_by-perm (x ∷ l) = Perm.trans (insert_by-perm x (sort_by l)) (Perm.cons x (sort_by-perm l))

  abbrev pub Ascends : List A → Type 0
  Ascends [] = Unit
  Ascends (x ∷ l) = All (λ y. key x ≤ key y) l × Ascends l

  All-insert_by :
      (n : ℕ) (x : A) (l : List A)
      → n ≤ key x
      → All (λ y. n ≤ key y) l
      → All (λ y. n ≤ key y) (insert_by x l)
  All-insert_by n x [] h k = (h, tt)
  All-insert_by n x (y ∷ l) h (p, k) = ground (arith, All-insert_by n x l h k)

  All-raise : (n m : ℕ) (l : List A) → n ≤ m → All (λ y. m ≤ key y) l → All (λ y. n ≤ key y) l
  All-raise n m [] h k = tt
  All-raise n m (y ∷ l) h (p, k) = (omega arith, All-raise n m l h k)

  insert_by-Ascends : (x : A) (l : List A) → Ascends l → Ascends (insert_by x l)
  insert_by-Ascends x [] s = (tt, tt)
  insert_by-Ascends x (y ∷ l) (p, s) = elim (Bool-cases (leb (key x) (key y))) [
    | inl h ↦ let le = leb→le _ _ h in rw h ((le, All-raise (key x) (key y) l le p), (p, s))
    | inr h ↦ rw h (All-insert_by (key y) x l (ground arith) p, insert_by-Ascends x l s)
  ]

  pub sort_by-Ascends : (l : List A) → Ascends (sort_by l)
  sort_by-Ascends [] = tt
  sort_by-Ascends (x ∷ l) = insert_by-Ascends x (sort_by l) (sort_by-Ascends l)

abbrev pub id_of : Entry → ℕ
id_of e = e.id

pub IsSortedById-of_Ascends : (l : List Entry) → Ascends id_of l → IsSortedById l
IsSortedById-of_Ascends [] h = tt
IsSortedById-of_Ascends (x ∷ []) h = tt
IsSortedById-of_Ascends (x ∷ y ∷ l) (h, s) = (h.0, IsSortedById-of_Ascends (y ∷ l) s)

pub low_high :
    (k : ℕ) (l : List ℕ) → Ascends (λ x. x) l → All (λ a. All (λ b. a ≤ b) (drop k l)) (take k l)
low_high zero l h = tt
low_high (suc k) [] h = tt
low_high (suc k) (x ∷ l) (h, s) = (All-drop (λ b. x ≤ b) k l h, low_high k l s)

insert-perm : (x : Entry) (l : List Entry) → Perm (insert x l) (x ∷ l)
insert-perm x [] = rw insert_nil Perm.rfl
insert-perm x (y ∷ l) = elim (Bool-cases (before x y)) [
  | inl h ↦ rw (insert_here x y l h) Perm.rfl
  | inr h ↦ rw (insert_later x y l h) (Perm.trans (Perm.cons y (insert-perm x l)) (Perm.swap x y l))
]

pub sort-is_perm : (l : List Entry) → Perm (sort l) l
unfolding sort
sort-is_perm [] = Perm.rfl
sort-is_perm (x ∷ l) = Perm.trans (insert-perm x (sort l)) (Perm.cons x (sort-is_perm l))

-- A number that does not fit is refused.
abbrev pub toy_arange : ℕ → ℕ → Result (List ℕ)
toy_arange start stop =
    if leb stop (2 ^ 32)
    then ok (numbers start (stop - start))
    else err (overflow_error "Python integer out of bounds for uint32")

pub toy_arange-numbers :
    (start stop : ℕ) → stop ≤ 2 ^ 32 → toy_arange start stop ≡ ok (numbers start (stop - start))
toy_arange-numbers start stop h = rw (le→leb _ _ h) refl

abbrev pub toy_numpy : NumPy
toy_numpy = record {
  arange = toy_arange;
  arange_lem = toy_arange-numbers;
  partition = λ xs kth. ok (sort_by (λ x. x) xs);
  lexsort = sort;
  argsort = sort_by id_of;
  partition_lem = λ xs kth h. (
    sort_by (λ x. x) xs,
    refl,
    sort_by-perm (λ x. x) xs,
    low_high kth (sort_by (λ x. x) xs) (sort_by-Ascends (λ x. x) xs),
  );
  lexsort-IsSorted = sort-IsSorted;
  lexsort-perm = sort-is_perm;
  argsort-IsSortedById = λ l. IsSortedById-of_Ascends (sort_by id_of l) (sort_by-Ascends id_of l);
  argsort-perm = sort_by-perm id_of;
}
