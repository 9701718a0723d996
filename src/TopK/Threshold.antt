-- ===== src/TopK/Threshold.antt =====
-- How many scores lie above, and at, the threshold that `_select_topk` takes from a partition.
use leann_cpp.Prelude.{
  ℕ, suc, ◌+◌, ◌≤◌, ◌<◌, min, ◌≡◌, ◌≢◌, refl, ◌∙◌, sym, ap, Bool, false, List, [], ◌∷◌, ◌++◌, map,
  arith, length, All, ltb, leb, ◌==◌, if◌then◌else◌, Bool-cases, inl, inr, leb→le,
}
use mathlib.Core.List.{Perm, foldr}
use mathlib.Core.List.Perm
use native.Mathlib.Nat.{ℕ_set}
use leann_cpp.TopK.{Entry, keep, minimum}

abbrev count_one : (ℕ → Bool) → ℕ → ℕ → ℕ
count_one q x n = (if q x then 1 else 0) + n

abbrev pub count_if : (ℕ → Bool) → List ℕ → ℕ
count_if q [] = 0
count_if q (x ∷ l) = count_one q x (count_if q l)

count_if-foldr : (q : ℕ → Bool) (l : List ℕ) → count_if q l ≡ foldr (count_one q) 0 l
count_if-foldr q [] = refl
count_if-foldr q (x ∷ l) = ap (count_one q x) (count_if-foldr q l)

pub count_if-perm : (q : ℕ → Bool) (l r : List ℕ) → Perm l r → count_if q l ≡ count_if q r
count_if-perm q l r p =
    count_if-foldr q l
    ∙ Perm.foldr-eq ℕ_set (count_one q) (λ a b x. omega arith) p 0
    ∙ sym (count_if-foldr q r)

count_if-append : (q : ℕ → Bool) (l r : List ℕ) → count_if q (l ++ r) ≡ count_if q l + count_if q r
count_if-append q [] r = omega arith
count_if-append q (x ∷ l) r = omega (arith, count_if-append q l r)

pub length-keep :
    (q : ℕ → Bool) (row : List Entry)
    → length (keep (λ e. q e.score) row) ≡ count_if q (map (λ e. e.score) row)
length-keep q [] = refl
length-keep q (e ∷ row) = ground (arith, length-keep q row)

count_above_at :
    (t : ℕ) (l : List ℕ) → count_if (ltb t) l + count_if (λ x. x == t) l ≡ count_if (leb t) l
count_above_at t [] = omega arith
count_above_at t (x ∷ l) = ground (arith, count_above_at t l)

le-minimum : (a : ℕ) (l : List ℕ) → l ≢ [] → All (λ b. a ≤ b) l → a ≤ minimum l
le-minimum a [] h k = absurd (h refl)
le-minimum a (x ∷ []) h k = k.0
le-minimum a (x ∷ y ∷ l) h (p, k) = omega (arith, le-minimum a (y ∷ l) (λ e. cc) k)

count_if-le : (q : ℕ → Bool) (l : List ℕ) → count_if q l ≤ length l
count_if-le q [] = omega arith
count_if-le q (x ∷ l) = ground (arith, count_if-le q l)

head_zero : (x n : ℕ) → ltb x x ≡ false → count_one (ltb x) x n ≡ n
head_zero x n h = rw h (omega arith)

count_one-le : (q : ℕ → Bool) (x n : ℕ) → count_one q x n ≤ suc n
count_one-le q x n = ground arith

above_head :
    (x m : ℕ) (r : List ℕ)
    → count_if (ltb m) r < length r
    → count_if (ltb (min x m)) (x ∷ r) < suc (length r)
above_head x m r h = elim (Bool-cases (leb x m)) [
  | inl le ↦
      let e : min x m ≡ x = omega (arith, leb→le x m le) in
      let c : count_if (ltb (min x m)) (x ∷ r) ≡ count_if (ltb x) (x ∷ r) =
        ap (λ (t : ℕ). count_if (ltb t) (x ∷ r)) e in
      let none_here : ltb x x ≡ false = ground arith in
      omega (arith, c, count_if-le (ltb x) r, head_zero x (count_if (ltb x) r) none_here)
  | inr n ↦
      let lt : m < x = ground arith in
      let e : min x m ≡ m = omega arith in
      let c : count_if (ltb (min x m)) (x ∷ r) ≡ count_if (ltb m) (x ∷ r) =
        ap (λ (t : ℕ). count_if (ltb t) (x ∷ r)) e in
      omega (arith, c, count_one-le (ltb m) x (count_if (ltb m) r))
]

-- A least value is attained, so not all values lie above it, and none lies below.
count_above_minimum : (l : List ℕ) → l ≢ [] → count_if (ltb (minimum l)) l < length l
count_above_minimum [] h = absurd (h refl)
count_above_minimum (x ∷ []) h = ground arith
count_above_minimum (x ∷ y ∷ l) h =
    above_head x (minimum (y ∷ l)) (y ∷ l) (count_above_minimum (y ∷ l) (λ e. cc))

count_from : (t : ℕ) (l : List ℕ) → All (λ b. t ≤ b) l → count_if (leb t) l ≡ length l
count_from t [] h = refl
count_from t (x ∷ l) (p, h) = ground (arith, count_from t l h)

minimum_le : (l : List ℕ) (t : ℕ) → t ≤ minimum l → All (λ b. t ≤ b) l
minimum_le [] t h = tt
minimum_le (x ∷ []) t h = (h, tt)
minimum_le (x ∷ y ∷ l) t h = (omega arith, minimum_le (y ∷ l) t (omega arith))

count_above_low : (t : ℕ) (low : List ℕ) → All (λ a. a ≤ t) low → count_if (ltb t) low ≡ 0
count_above_low t [] h = refl
count_above_low t (x ∷ low) (p, h) = ground (arith, count_above_low t low h)

low_le :
    (low high : List ℕ)
    → high ≢ []
    → All (λ a. All (λ b. a ≤ b) high) low
    → All (λ a. a ≤ minimum high) low
low_le [] high h k = tt
low_le (x ∷ low) high h (p, k) = (le-minimum x high h p, low_le low high h k)

-- Fewer than `length high` scores lie above the threshold, and at least as many at or above it.
pub threshold_counts :
    (low high scores : List ℕ)
    → high ≢ []
    → Perm (low ++ high) scores
    → All (λ a. All (λ b. a ≤ b) high) low
    → (count_if (ltb (minimum high)) scores < length high)
      × (length high
          ≤ count_if (ltb (minimum high)) scores + count_if (λ x. x == minimum high) scores)
threshold_counts low high scores ne p h =
    let t = minimum high in
    (
      omega (
        arith,
        count_if-perm (ltb t) (low ++ high) scores p,
        count_if-append (ltb t) low high,
        count_above_low t low (low_le low high ne h),
        count_above_minimum high ne,
      ),
      omega (
        arith,
        count_above_at t scores,
        count_if-perm (leb t) (low ++ high) scores p,
        count_if-append (leb t) low high,
        count_from t high (minimum_le high t (omega arith)),
      ),
    )
