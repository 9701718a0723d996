-- ===== src/Prelude/Lists.antt =====
-- Lists measured, cut and compared by native numbers, under the library's names.
use Prim.Native.Nat.{ℕ, zero, suc, ◌+◌, ◌-◌, ◌≤◌, min}
use mathlib.Core.Path.{subst, ◌≡◌, refl, ap}
use mathlib.Core.Logic.{inl, inr, ◌↔◌}
use mathlib.Core.Bool.{Bool, true, false, ◌&&◌}
use mathlib.Core.Option.{Option, none, some}
use mathlib.Core.List.{List, [], ◌∷◌, ◌++◌, map}
use native.Mathlib.Omega.{arith}
use package.leann_cpp.Prelude.Tests.{Bool-cases, ◌==◌}

module _ {ℓ} {A : Type ℓ} where
  abbrev pub length : List A → ℕ
  length [] = 0
  length (x ∷ xs) = suc (length xs)

  abbrev pub take : ℕ → List A → List A
  take zero xs = []
  take (suc n) [] = []
  take (suc n) (x ∷ xs) = x ∷ take n xs

  abbrev pub drop : ℕ → List A → List A
  drop zero xs = xs
  drop (suc n) [] = []
  drop (suc n) (x ∷ xs) = drop n xs

  abbrev pub get_elem? : List A → ℕ → Option A
  get_elem? [] i = none
  get_elem? (x ∷ xs) zero = some x
  get_elem? (x ∷ xs) (suc i) = get_elem? xs i

  abbrev pub all : (A → Bool) → List A → Bool
  all p [] = true
  all p (x ∷ xs) = p x && all p xs

  abbrev pub All {κ} : (A → Type κ) → List A → Type κ
  All P [] = Unit
  All P (x ∷ xs) = P x × All P xs

module _ {ℓ} {A : Type ℓ} where
  pub length-append : (xs ys : List A) → length (xs ++ ys) ≡ length xs + length ys
  length-append [] ys = omega arith
  length-append (x ∷ xs) ys = omega (arith, length-append xs ys)

  pub length-take : (n : ℕ) (xs : List A) → length (take n xs) ≡ min n (length xs)
  length-take zero xs = omega arith
  length-take (suc n) [] = omega arith
  length-take (suc n) (x ∷ xs) = omega (arith, length-take n xs)

  pub length-drop : (n : ℕ) (xs : List A) → length (drop n xs) ≡ length xs - n
  length-drop zero xs = omega arith
  length-drop (suc n) [] = omega arith
  length-drop (suc n) (x ∷ xs) = omega (arith, length-drop n xs)

  pub take-append-drop : (n : ℕ) (xs : List A) → take n xs ++ drop n xs ≡ xs
  take-append-drop zero xs = refl
  take-append-drop (suc n) [] = refl
  take-append-drop (suc n) (x ∷ xs) = ap (λ r. x ∷ r) (take-append-drop n xs)

  -- A cut at the end of the first part; the length is a variable with an equation.
  pub take-append : (n : ℕ) (xs ys : List A) → length xs ≡ n → take n (xs ++ ys) ≡ xs
  take-append zero [] ys h = refl
  take-append zero (x ∷ xs) ys h = absurd (omega arith)
  take-append (suc n) [] ys h = absurd (omega arith)
  take-append (suc n) (x ∷ xs) ys h = ap (λ r. x ∷ r) (take-append n xs ys (omega arith))

  pub drop-append : (n : ℕ) (xs ys : List A) → length xs ≡ n → drop n (xs ++ ys) ≡ ys
  drop-append zero [] ys h = refl
  drop-append zero (x ∷ xs) ys h = absurd (omega arith)
  drop-append (suc n) [] ys h = absurd (omega arith)
  drop-append (suc n) (x ∷ xs) ys h = drop-append n xs ys (omega arith)

  pub take-append_le : (n : ℕ) (xs ys : List A) → n ≤ length xs → take n (xs ++ ys) ≡ take n xs
  take-append_le zero xs ys h = refl
  take-append_le (suc n) [] ys h = absurd (omega arith)
  take-append_le (suc n) (x ∷ xs) ys h = ap (λ r. x ∷ r) (take-append_le n xs ys (omega arith))

  pub drop-append_le :
      (n : ℕ) (xs ys : List A) → n ≤ length xs → drop n (xs ++ ys) ≡ drop n xs ++ ys
  drop-append_le zero xs ys h = refl
  drop-append_le (suc n) [] ys h = absurd (omega arith)
  drop-append_le (suc n) (x ∷ xs) ys h = drop-append_le n xs ys (omega arith)

  pub drop-append_add :
      (n k m : ℕ) (xs ys : List A) → length xs ≡ n → n + k ≡ m → drop m (xs ++ ys) ≡ drop k ys
  drop-append_add n k m [] ys h e = let q : m ≡ k = omega arith in rw q
  drop-append_add n k zero (x ∷ xs) ys h e = absurd (omega arith)
  drop-append_add zero k (suc m) (x ∷ xs) ys h e = absurd (omega arith)
  drop-append_add (suc n) k (suc m) (x ∷ xs) ys h e =
      drop-append_add n k m xs ys (omega arith) (omega arith)

  pub take-of_length : (n : ℕ) (xs : List A) → length xs ≤ n → take n xs ≡ xs
  take-of_length zero [] h = refl
  take-of_length zero (x ∷ xs) h = absurd (omega arith)
  take-of_length (suc n) [] h = refl
  take-of_length (suc n) (x ∷ xs) h = ap (λ r. x ∷ r) (take-of_length n xs (omega arith))

  pub All-append {v} :
      (Q : A → Type v) (front back : List A) → All Q front → All Q back → All Q (front ++ back)
  All-append Q [] back none_left end = end
  All-append Q (a ∷ front) back (qa, start) end = (qa, All-append Q front back start end)

  pub All-take {κ} : (P : A → Type κ) (n : ℕ) (xs : List A) → All P xs → All P (take n xs)
  All-take P zero xs h = tt
  All-take P (suc n) [] h = tt
  All-take P (suc n) (x ∷ xs) h = (h.0, All-take P n xs h.1)

  pub All-drop {κ} : (P : A → Type κ) (n : ℕ) (xs : List A) → All P xs → All P (drop n xs)
  All-drop P zero xs h = h
  All-drop P (suc n) [] h = tt
  All-drop P (suc n) (x ∷ xs) h = All-drop P n xs h.1

  pub all-append : (p : A → Bool) (xs ys : List A) → all p (xs ++ ys) ≡ (all p xs && all p ys)
  all-append p [] ys = refl
  all-append p (x ∷ xs) ys = ground (arith, all-append p xs ys)

  pub length-map {κ} : {B : Type κ} (xs : List A) (f : A → B) → length (map f xs) ≡ length xs
  length-map [] f = refl
  length-map (x ∷ xs) f = ap suc (length-map xs f)

-- Python's `==` on byte strings.
abbrev pub eq_list : List ℕ → List ℕ → Bool
eq_list [] [] = true
eq_list [] (y ∷ ys) = false
eq_list (x ∷ xs) [] = false
eq_list (x ∷ xs) (y ∷ ys) = x == y && eq_list xs ys

pub eq_list_self : (xs : List ℕ) → eq_list xs xs ≡ true
eq_list_self [] = refl
eq_list_self (x ∷ xs) = ground (arith, eq_list_self xs)

pub eq_of_eq_list : (xs ys : List ℕ) → eq_list xs ys ≡ true → xs ≡ ys
eq_of_eq_list [] [] h = refl
eq_of_eq_list [] (y ∷ ys) h = cc
eq_of_eq_list (x ∷ xs) [] h = cc
eq_of_eq_list (x ∷ xs) (y ∷ ys) h = ground (arith, eq_of_eq_list xs ys)

pub eq_list_iff : (xs ys : List ℕ) → (eq_list xs ys ≡ true) ↔ (xs ≡ ys)
eq_list_iff xs ys = (eq_of_eq_list xs ys, λ e. rw (← e) (eq_list_self xs))

-- The last of some values, such as what a path holds after these writes.
abbrev pub last_or {ℓ} : {A : Type ℓ} → Option A → List A → Option A
last_or d [] = d
last_or d (x ∷ xs) = last_or (some x) xs

pub last_or-append {ℓ} :
    {A : Type ℓ} (d : Option A) (xs ys : List A) → last_or d (xs ++ ys) ≡ last_or (last_or d xs) ys
last_or-append d [] ys = refl
last_or-append d (x ∷ xs) ys = last_or-append (some x) xs ys

pub eq_list-false : (a b : List ℕ) → eq_list a b ≡ false → eq_list b a ≡ false
eq_list-false a b h = elim (Bool-cases (eq_list b a)) [
  | inl e ↦
      let same = eq_of_eq_list b a e in
      let k : eq_list a a ≡ false = subst (λ (x : List ℕ). eq_list a x ≡ false) same h in
      absurd (contradiction a k)
  | inr e ↦ e
]
  where
    contradiction : (a : List ℕ) → eq_list a a ≡ false → ⊥
    contradiction a k = let t = eq_list_self a in cc
