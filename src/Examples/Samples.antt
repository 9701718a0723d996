-- ===== src/Examples/Samples.antt =====
-- Three of eight rows.
use leann_cpp.Prelude.{ℕ, ◌≡◌, refl, arith, List, [], ◌∷◌, ok}
use leann_cpp.Sample.{evenly_spaced_indices}
use leann_cpp.Sample.Laws.{IsSample, evenly_spaced_indices_lem}

evenly_spaced_indices_example :
    (xs : List ℕ) × (evenly_spaced_indices 8 3 ≡ ok xs) × IsSample 8 3 xs
evenly_spaced_indices_example = evenly_spaced_indices_lem 8 3 (omega arith) (omega arith)

three_of_eight : evenly_spaced_indices 8 3 ≡ ok (0 ∷ 3 ∷ 7 ∷ [])
unfolding evenly_spaced_indices
three_of_eight = refl
