-- ===== src/Sample.antt =====
-- `evenly_spaced_indices` of scripts/validate_embedding_parity.py, which chooses the rows that are
-- compared. A requested number below 0 has no counterpart.
pub mod Laws
use leann_cpp.Prelude.{
  ℕ, zero, suc, ◌-◌, ◌*◌, ◌/◌, List, [], ◌∷◌, leb, ◌==◌, if◌then◌else◌, Result, ok, value_error,
  ◌>>=◌, ◌>>◌, raise_if,
}

-- `[f(position) for position in range(first, first + count)]`
abbrev pub values : (ℕ → ℕ) → ℕ → ℕ → List ℕ
values f first zero = []
values f first (suc count) = f first ∷ values f (suc first) count

abbrev pub spaced : ℕ → ℕ → ℕ → ℕ
spaced count requested position = position * (count - 1) / (requested - 1)

unfoldable pub evenly_spaced_indices : ℕ → ℕ → Result (List ℕ)
evenly_spaced_indices count requested = do
  raise_if (count == 0) (value_error "count must be positive")
  ok (
      if requested == 0
      then []
      else if leb count requested
      then values (λ i. i) 0 count
      else if requested == 1
      then 0 ∷ []
      else values (spaced count requested) 0 requested)
