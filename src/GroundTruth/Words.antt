-- ===== src/GroundTruth/Words.antt =====
-- What `read_ground_truth` uses of Python: `str.split` without an argument, and `int` of a text
-- without white space (the limit on the number of digits is left out).
use leann_cpp.Prelude.{
  ℕ, zero, suc, ◌+◌, ◌*◌, ◌<◌, ◌≡◌, Bool, true, false, ◌||◌, ◌&&◌, Option, none, some, List, [],
  ◌∷◌, leb, ◌==◌, if◌then◌else◌,
}
use leann_cpp.Bytes.{Text}

abbrev between : ℕ → ℕ → ℕ → Bool
between low high c = leb low c && leb c high

-- `str.isspace` of a character
abbrev pub is_space : ℕ → Bool
is_space c =
    between 9 13 c
    || (between 28 32 c
        || (c == 133
            || (c == 160
                || (c == 5760
                    || (between 8192 8202 c
                        || (between 8232 8233 c || (c == 8239 || (c == 8287 || c == 12288))))))))

abbrev pub starts_word : Text → Bool
starts_word [] = false
starts_word (c ∷ s) = if is_space c then false else true

abbrev pub cons_word : Bool → ℕ → List Text → List Text
cons_word true c (w ∷ ws) = (c ∷ w) ∷ ws
cons_word true c [] = (c ∷ []) ∷ []
cons_word false c ws = (c ∷ []) ∷ ws

unfoldable pub split : Text → List Text
split [] = []
split (c ∷ s) = let rest = split s in if is_space c then rest else cons_word (starts_word s) c rest

pub data ℤ : Type 0 where
  pos negsuc : ℕ → ℤ

abbrev pub negate : ℕ → ℤ
negate zero = pos zero
negate (suc n) = negsuc n

-- The decimal digits of Unicode; those of ASCII are among them.
pub record Digits : Type 0 where
  pub digit : ℕ → Option ℕ
  pub digit_ascii : (d : ℕ) → d < 10 → digit (48 + d) ≡ some d

module _ (U : Digits) where
  open U use {digit}

  -- Digits with single underscores between them; `after_digit` says whether one stands before.
  abbrev pub read_digits : ℕ → Bool → Text → Option ℕ
  read_digits value after_digit [] = if after_digit then some value else none
  read_digits value after_digit (c ∷ s) = elim (c == b'_') [
    | true ↦ elim after_digit [ true ↦ read_digits value false s | false ↦ none ]
    | false ↦ elim (digit c) [ none ↦ none | some d ↦ read_digits (value * 10 + d) true s ]
  ]

  abbrev signed : (ℕ → ℤ) → Option ℕ → Option ℤ
  signed sign none = none
  signed sign (some n) = some (sign n)

  abbrev pub to_int : Text → Option ℤ
  to_int [] = none
  to_int (c ∷ s) = elim (c == b'-') [
    | true ↦ signed negate (read_digits 0 false s)
    | false ↦ elim (c == b'+') [
      | true ↦ signed pos (read_digits 0 false s)
      | false ↦ signed pos (read_digits 0 false (c ∷ s))
    ]
  ]
