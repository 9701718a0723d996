-- ===== src/Prepare.antt =====
-- `verify_prefix` of scripts/prepare_beir_nq_scale.py, which checks that a smaller tier of a dataset
-- is the beginning of a larger one.
pub mod Laws
pub mod Select
pub mod Tiers
pub mod Texts
pub mod Queries
pub mod QueryFiles
pub mod Outputs
pub mod Publish
use leann_cpp.Prelude.{
  ℕ, Bool, true, false, not, List, [], ◌∷◌, length, eq_list, ◌==◌, if◌then◌else◌, Result, ok,
  runtime_error, ◌>>=◌, ◌>>◌, raise_if,
}
use leann_cpp.Bytes.{Bytes}
use leann_cpp.Lines.{cons_head}

-- The lines of a file that is opened as bytes: they end behind "\n" alone.
unfoldable pub byte_lines : Bytes → List Bytes
byte_lines [] = []
byte_lines (c ∷ s) =
    let rest = byte_lines s in if c == 10 then (c ∷ []) ∷ rest else cons_head c rest

-- `large.readline()`: nothing at the end of the file.
abbrev pub read_line : List Bytes → Bytes
read_line [] = []
read_line (l ∷ ls) = l

abbrev pub after_line : List Bytes → List Bytes
after_line [] = []
after_line (l ∷ ls) = ls

abbrev pub check_lines : List Bytes → List Bytes → Result (Unit {0})
check_lines [] larger = ok tt
check_lines (line ∷ smaller) larger = do
  raise_if (not (eq_list line (read_line larger))) (runtime_error "is not a byte-identical prefix")
  check_lines smaller (after_line larger)

unfoldable pub verify_prefix : Bytes → Bytes → Result (Unit {0})
verify_prefix smaller larger = do
  check_lines (byte_lines smaller) (byte_lines larger)
  raise_if (length (byte_lines smaller) == 0) (runtime_error "nested tier file is empty")
