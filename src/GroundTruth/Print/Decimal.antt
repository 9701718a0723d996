-- ===== src/GroundTruth/Print/Decimal.antt =====
-- `int(str(n))` is `n`.
use leann_cpp.Prelude.{
  ℕ, zero, suc, ◌+◌, ◌-◌, ◌*◌, ◌/◌, ◌%◌, ◌<◌, ◌≡◌, refl, ◌∙◌, ap, sym, Bool, true, false, ◌&&◌,
  some, [], ◌∷◌, ◌++◌, arith, length, all, all-append, ltb, leb, ◌==◌, Bool-cases, inl, inr,
}
use leann_cpp.Bytes.{Text}
use leann_cpp.GroundTruth.Words.{Digits, pos, read_digits, to_int}
use leann_cpp.GroundTruth.Print.{decimal, to_decimal}

abbrev pub is_digit : ℕ → Bool
is_digit c = leb 48 c && leb c 57

decimal_digits : (fuel n : ℕ) → all is_digit (decimal fuel n) ≡ true
decimal_digits zero n = refl
decimal_digits (suc fuel) n = elim (Bool-cases (ltb n 10)) [
  | inl h ↦ rw h (ground arith)
  | inr h ↦ rw h (
      all-append is_digit (decimal fuel (n / 10)) ((48 + n % 10) ∷ [])
      ∙ ground (arith, decimal_digits fuel (n / 10)))
]

pub to_decimal_digits : (n : ℕ) → all is_digit (to_decimal n) ≡ true
unfolding to_decimal
to_decimal_digits n = decimal_digits (suc n) n

decimal_nonempty : (fuel n : ℕ) → 0 < length (decimal (suc fuel) n)
decimal_nonempty fuel n = elim (Bool-cases (ltb n 10)) [
  | inl h ↦ rw h (omega arith)
  | inr h ↦ rw h (nonempty (decimal fuel (n / 10)) _)
]
  where
    nonempty : (s : Text) (c : ℕ) → 0 < length (s ++ c ∷ [])
    nonempty [] c = omega arith
    nonempty (d ∷ s) c = omega arith

pub to_decimal_nonempty : (n : ℕ) → 0 < length (to_decimal n)
unfolding to_decimal
to_decimal_nonempty n = decimal_nonempty n n

value_of : ℕ → Text → ℕ
value_of value [] = value
value_of value (c ∷ s) = value_of (value * 10 + (c - 48)) s

value_of-append :
    (value d : ℕ) (s : Text) → value_of value (s ++ (48 + d) ∷ []) ≡ value_of value s * 10 + d
unfolding value_of
value_of-append value d [] = omega arith
value_of-append value d (c ∷ s) = value_of-append (value * 10 + (c - 48)) d s

zero_value : (n : ℕ) → value_of 0 [] * 10 + n ≡ n
unfolding value_of
zero_value n = omega arith

value_of-decimal : (fuel n : ℕ) → n < fuel → value_of 0 (decimal fuel n) ≡ n
value_of-decimal zero n h = absurd (omega arith)
value_of-decimal (suc fuel) n h = elim (Bool-cases (ltb n 10)) [
  | inl p ↦ rw p (one n)
  | inr p ↦ rw p (
      value_of-append 0 (n % 10) (decimal fuel (n / 10))
      ∙ omega (arith, value_of-decimal fuel (n / 10) (ground arith)))
]
  where
    one : (n : ℕ) → value_of 0 ((48 + n) ∷ []) ≡ n
    one n = value_of-append 0 n [] ∙ zero_value n

module _ (U : Digits) where
  open U use {digit, digit_ascii}

  digit_lem : (c : ℕ) → is_digit c ≡ true → digit c ≡ some (c - 48)
  digit_lem c h =
      let e : 48 + (c - 48) ≡ c = ground arith in
      ap digit (sym e) ∙ digit_ascii (c - 48) (ground arith)

  read_digits-digits :
      (s : Text) (value : ℕ)
      → all is_digit s ≡ true
      → read_digits U value true s ≡ some (value_of value s)
  unfolding value_of
  read_digits-digits [] value h = refl
  read_digits-digits (c ∷ s) value h =
      let plain : (c == b'_') ≡ false = ground arith in
      let first : is_digit c ≡ true = ground arith in
      let rest : all is_digit s ≡ true = ground arith in
      rw (plain, read_digits) (rw (digit_lem c first) (read_digits-digits s _ rest))

  to_int-digits :
      (s : Text) → all is_digit s ≡ true → 0 < length s → to_int U s ≡ some (pos (value_of 0 s))
  unfolding value_of
  to_int-digits [] h k = absurd (omega arith)
  to_int-digits (c ∷ s) h k =
      let plain : (c == b'_') ≡ false = ground arith in
      let minus : (c == b'-') ≡ false = ground arith in
      let plus : (c == b'+') ≡ false = ground arith in
      let first : is_digit c ≡ true = ground arith in
      let rest : all is_digit s ≡ true = ground arith in
      rw (minus, to_int)
        (rw (plus, to_int)
          (rw (plain, read_digits)
            (rw (digit_lem c first) (rw (read_digits-digits s _ rest) refl))))

  pub to_int-to_decimal : (n : ℕ) → to_int U (to_decimal n) ≡ some (pos n)
  unfolding to_decimal
  to_int-to_decimal n =
      to_int-digits (decimal (suc n) n) (decimal_digits (suc n) n) (decimal_nonempty n n)
      ∙ ap (λ (m : ℕ). some (pos m)) (value_of-decimal (suc n) n (omega arith))
