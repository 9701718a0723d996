-- ===== src/Prepare/Tiers/Ids.antt =====
-- `read_id_set` of scripts/prepare_beir_nq_scale.py. A file that is not UTF-8 raises at once, and not
-- behind the lines before the fault.
pub mod RoundTrip
use leann_cpp.Prelude.{
  ℕ, zero, suc, Bool, true, false, not, Option, none, some, List, [], ◌∷◌, ◌++◌, eq_list, ◌==◌,
  if◌then◌else◌, Result, ok, err, runtime_error, decode_error, ◌>>=◌, ◌>>◌, raise_if,
}
use leann_cpp.Bytes.{Bytes, Text}
use leann_cpp.Bytes.Utf8.{decode}
use leann_cpp.Lines.{cons_head}
use leann_cpp.GroundTruth.Print.{to_decimal}
use leann_cpp.Prepare.{byte_lines}
use leann_cpp.Prepare.Select.{is_in}

-- A text file is read with "\r\n" and "\r" as "\n"; the flag says that a "\r" stands before.
abbrev pub universal : Bool → Text → Text
universal after_cr [] = []
universal after_cr (c ∷ s) =
    let cr = universal true s in
    let rest = universal false s in
    if c == 13
    then 10 ∷ cr
    else if c == 10
    then (if after_cr then rest else 10 ∷ rest)
    else c ∷ rest

-- `line.rstrip("\n")` of a line of the file, which has no other line end.
abbrev pub without_end : Text → Text
without_end [] = []
without_end (c ∷ s) = let rest = without_end s in if c == 10 then rest else c ∷ rest

-- `line.split("\t")`
abbrev pub split_tab : Text → List Text
split_tab [] = [] ∷ []
split_tab (c ∷ s) = let rest = split_tab s in if c == 9 then [] ∷ rest else cons_head c rest

-- The ID of a line.
unfoldable pub read_id : ℕ → List Text → Result Text
read_id position (first ∷ second ∷ []) = do
  raise_if (not (eq_list first (to_decimal position))) (runtime_error "invalid ID mapping")
  ok second
read_id position _ = err (runtime_error "invalid ID mapping")

-- The set is the list of what was added to it.
unfoldable pub read_ids : ℕ → List Text → List Text → Result (List Text)
read_ids position [] result = ok result
read_ids position (line ∷ lines) result = do
  id ← read_id position (split_tab (without_end line))
  raise_if (is_in id result) (runtime_error "duplicate original ID")
  read_ids (suc position) lines (result ++ id ∷ [])

unfoldable pub read_id_set : Bytes → Result (List Text)
read_id_set file = elim (decode file) [
  | none ↦ err (decode_error "invalid UTF-8")
  | some text ↦ read_ids 0 (byte_lines (universal false text)) []
]
