-- ===== src/Sample/Laws.antt =====
-- The chosen rows are distinct, in range, as many as asked for, and have both ends among them.
use leann_cpp.Prelude.{
  ℕ, zero, suc, ◌+◌, ◌-◌, ◌*◌, ◌/◌, ◌≤◌, ◌<◌, ◌≡◌, refl, ap, ◌∙◌, min, arith, List, [], ◌∷◌, length,
  All, leb, ◌==◌, ok, Option, none, some, false, Bool-cases, inl, inr,
}
use native.Mathlib.Nat.{le-div_iff_mul-le, div-mul-le_self, mul-div_cancel_left, zero-div}
use leann_cpp.Sample.{values, spaced, evenly_spaced_indices}

abbrev pub IsIncreasing : List ℕ → Type 0
IsIncreasing [] = Unit
IsIncreasing (x ∷ []) = Unit
IsIncreasing (x ∷ y ∷ l) = (x < y) × IsIncreasing (y ∷ l)

abbrev pub last_of : List ℕ → Option ℕ
last_of [] = none
last_of (x ∷ []) = some x
last_of (x ∷ y ∷ l) = last_of (y ∷ l)

abbrev pub first_of : List ℕ → Option ℕ
first_of [] = none
first_of (x ∷ l) = some x

module _ (f : ℕ → ℕ) where
  length-values : (first count : ℕ) → length (values f first count) ≡ count
  length-values first zero = refl
  length-values first (suc count) = omega (arith, length-values (suc first) count)

  values-IsIncreasing :
      ((i : ℕ) → f i < f (suc i)) → (first count : ℕ) → IsIncreasing (values f first count)
  values-IsIncreasing h first zero = tt
  values-IsIncreasing h first (suc zero) = tt
  values-IsIncreasing h first (suc (suc count)) =
      (h first, values-IsIncreasing h (suc first) (suc count))

  values-All :
      (n first count : ℕ)
      → ((i : ℕ) → i < first + count → f i < n)
      → All (λ x. x < n) (values f first count)
  values-All n first zero h = tt
  values-All n first (suc count) h =
      (h first (omega arith), values-All n (suc first) count (λ i k. h i (omega arith)))

  last_of-values :
      (first count : ℕ) → last_of (values f first (suc count)) ≡ some (f (first + count))
  last_of-values first zero = rw (first_zero first) refl
    where
      first_zero : (n : ℕ) → n + 0 ≡ n
      first_zero n = omega arith
  last_of-values first (suc count) =
      rw (last_of-values (suc first) count) (rw (moved first count) refl)
    where
      moved : (n m : ℕ) → suc n + m ≡ n + suc m
      moved n m = omega arith

-- A step of at least the divisor moves the quotient.
div_lt : (a b d : ℕ) → 0 < d → a + d ≤ b → a / d < b / d
div_lt a b d p h =
    let q = div-mul-le_self a d in
    let e : suc (a / d) * d ≡ a / d * d + d = omega arith in
    let r = (le-div_iff_mul-le {k = d} {x = suc (a / d)} {y = b} p).1 (omega (arith, e)) in
    omega (arith, r)

spaced-lt :
    (count requested : ℕ)
    → 1 < requested
    → requested < count
    → (i : ℕ) → spaced count requested i < spaced count requested (suc i)
spaced-lt count requested p q i =
    let e : suc i * (count - 1) ≡ i * (count - 1) + (count - 1) = omega arith in
    div_lt (i * (count - 1)) (suc i * (count - 1)) (requested - 1) (omega arith) (omega (arith, e))

-- The properties of a list of rows.
abbrev pub IsSample : ℕ → ℕ → List ℕ → Type 0
IsSample count requested xs =
    (length xs ≡ min count requested)
    × IsIncreasing xs
    × All (λ x. x < count) xs
    × (first_of xs ≡ some 0)
    × (last_of xs ≡ some (count - 1))

-- What an increasing list of values from 0 to `count - 1` has.
IsSample-values :
    (f : ℕ → ℕ) (count requested n : ℕ)
    → 0 < count
    → ((i : ℕ) → f i < f (suc i))
    → f 0 ≡ 0
    → f n ≡ count - 1
    → suc n ≡ min count requested
    → IsSample count requested (values f 0 (suc n))
IsSample-values f count requested n p h z e l = (
  omega (arith, length-values f 0 (suc n), l),
  values-IsIncreasing f h 0 (suc n),
  values-All f count 0 (suc n) (λ i k. omega (arith, up_to i (n - i) (omega (arith, k)), e)),
  ap some z,
  last_of-values f 0 n ∙ ap (λ (m : ℕ). some (f m)) (omega arith) ∙ ap some e,
)
  where
    up_to : (i k : ℕ) → i + k ≡ n → f i ≤ f n
    up_to i zero q = rw (same i q) (omega arith)
      where
        same : (i : ℕ) → i + 0 ≡ n → i ≡ n
        same i q = omega (arith, q)
    up_to i (suc k) q = omega (arith, h i, up_to (suc i) k (omega (arith, q)))

-- For a positive count and at least two rows asked for, the rows are as many as asked for (or all of
-- them, if there are fewer), increasing and so distinct, in range, and begin with the first row and
-- end with the last.
pub evenly_spaced_indices_lem :
    (count requested : ℕ)
    → 0 < count
    → 1 < requested
    → (xs : List ℕ) × (evenly_spaced_indices count requested ≡ ok xs) × IsSample count requested xs
unfolding evenly_spaced_indices
evenly_spaced_indices_lem zero requested p q = absurd (omega arith)
evenly_spaced_indices_lem (suc c) zero p q = absurd (omega arith)
evenly_spaced_indices_lem (suc c) (suc r) p q =
    let positive : (suc c == 0) ≡ false = ground arith in
    let some_asked : (suc r == 0) ≡ false = ground arith in
    let not_one : (suc r == 1) ≡ false = ground arith in
    elim (Bool-cases (leb (suc c) (suc r))) [
      | inl h ↦ (
        values (λ i. i) 0 (suc c),
        rw (positive, some_asked, h) refl,
        IsSample-values (λ i. i) (suc c) (suc r) c p (λ i. omega arith) refl (omega arith)
            (ground arith),
      )
      | inr h ↦
          let few : suc r < suc c = ground arith in
          (
            values (spaced (suc c) (suc r)) 0 (suc r),
            rw (positive, some_asked, h, not_one) refl,
            IsSample-values (spaced (suc c) (suc r)) (suc c) (suc r) r p
                (spaced-lt (suc c) (suc r) q few) (start c r) (end c r (omega (arith, q)))
                (omega (arith, few)),
          )
    ]
  where
    start : (c r : ℕ) → spaced (suc c) (suc r) 0 ≡ 0
    start c r = let e : 0 * (suc c - 1) ≡ 0 = omega arith in rw e (zero-div (suc r - 1))

    end : (c r : ℕ) → 0 < r → spaced (suc c) (suc r) r ≡ suc c - 1
    end c r p = let e : suc r - 1 ≡ r = omega arith in rw e (mul-div_cancel_left (suc c - 1) p)
