-- ===== src/GroundTruth/Print.antt =====
-- The lines of a ground-truth file that `generate_ground_truth` of
-- scripts/run_large_scale_benchmark.py writes: `str` of a number, `" ".join`, header and rows.
pub mod Decimal
pub mod Split
pub mod RoundTrip
use leann_cpp.Prelude.{ℕ, zero, suc, ◌+◌, ◌/◌, ◌%◌, List, [], ◌∷◌, ◌++◌, map, ltb, if◌then◌else◌}
use leann_cpp.Bytes.{Bytes, Text}
use leann_cpp.GroundTruth.{magic, Dimensions}

-- `str(n)`; fuel bounds the number of digits.
abbrev pub decimal : ℕ → ℕ → Text
decimal zero n = []
decimal (suc fuel) n =
    let longer = decimal fuel (n / 10) ++ (48 + n % 10) ∷ [] in
    if ltb n 10 then (48 + n) ∷ [] else longer

unfoldable pub to_decimal : ℕ → Text
to_decimal n = decimal (suc n) n

-- `" ".join(words)`
abbrev pub join : List Text → Text
join [] = []
join (w ∷ []) = w
join (w ∷ v ∷ ws) = w ++ b' ' ∷ join (v ∷ ws)

unfoldable pub header_line : Dimensions → Text
header_line d =
    join (magic ∷ to_decimal d.query_count ∷ to_decimal d.top_k ∷ to_decimal d.corpus_count ∷ [])

unfoldable pub row_line : List ℕ → Text
row_line ids = join (map to_decimal ids)

-- Lines, each with its end.
abbrev pub end_lines : List Text → Bytes
end_lines [] = []
end_lines (l ∷ ls) = l ++ 10 ∷ end_lines ls

unfoldable pub header_bytes : Dimensions → Bytes
header_bytes d = end_lines (header_line d ∷ [])

-- The payload of some rows.
unfoldable pub rows_bytes : List (List ℕ) → Bytes
rows_bytes rows = end_lines (map row_line rows)

unfoldable pub truth_bytes : Dimensions → List (List ℕ) → Bytes
truth_bytes d rows = header_bytes d ++ rows_bytes rows
