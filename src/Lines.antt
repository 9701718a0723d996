-- ===== src/Lines.antt =====
-- `iter_nonempty_lines` and `count_nonempty_lines` of scripts/benchmark_cache.py, and the line
-- reader of the native program (`read_lines` of app/main.cpp) that the script is meant to match.
pub mod Native
use leann_cpp.Prelude.{
  ℕ, Bool, true, false, ◌&&◌, not, List, [], ◌∷◌, map, ◌==◌, if◌then◌else◌, Result, ok, err,
  decode_error, length, Option, none, some,
}
use leann_cpp.Bytes.{Bytes, Text}
use leann_cpp.Bytes.Utf8.{decode}

abbrev pub lf : ℕ
lf = 10

abbrev pub cr : ℕ
cr = 13

-- `line[:-1] if line.endswith(c)`
abbrev pub drop_end : ℕ → Text → Text
drop_end c [] = []
drop_end c (x ∷ []) = if x == c then [] else x ∷ []
drop_end c (x ∷ y ∷ l) = x ∷ drop_end c (y ∷ l)

abbrev pub starts_with_lf : Text → Bool
starts_with_lf [] = false
starts_with_lf (c ∷ s) = c == lf

-- Puts a character in front of the first line.
abbrev pub cons_head : ℕ → List Text → List Text
cons_head c [] = (c ∷ []) ∷ []
cons_head c (l ∷ ls) = (c ∷ l) ∷ ls

-- Iteration over a text file that was opened with `newline=""`: a line ends behind "\n", "\r\n",
-- or a "\r" that no "\n" follows, and keeps its end.
unfoldable pub raw_lines : Text → List Text
raw_lines [] = []
raw_lines (c ∷ s) =
    let rest = raw_lines s in
    if c == lf
    then (c ∷ []) ∷ rest
    else if c == cr && not (starts_with_lf s)
    then (c ∷ []) ∷ rest
    else cons_head c rest

abbrev pub nonempty : List Text → List Text
nonempty [] = []
nonempty ([] ∷ ls) = nonempty ls
nonempty ((c ∷ l) ∷ ls) = (c ∷ l) ∷ nonempty ls

abbrev pub strip_end : Text → Text
strip_end line = drop_end cr (drop_end lf line)

unfoldable pub iter_nonempty_lines : Text → List Text
unfolding raw_lines
iter_nonempty_lines s = nonempty (map strip_end (raw_lines s))

-- The lines of a file, from its bytes.
unfoldable pub file_lines : Bytes → Result (List Text)
file_lines file = elim (decode file) [
  | none ↦ err (decode_error "invalid UTF-8")
  | some s ↦ ok (iter_nonempty_lines s)
]

unfoldable pub count_nonempty_lines : Bytes → Result ℕ
count_nonempty_lines file = elim (file_lines file) [ ok ls ↦ ok (length ls) | err e ↦ err e ]
