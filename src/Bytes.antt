-- ===== src/Bytes.antt =====
-- The byte encodings that the scripts take from Python: `struct` fields, hexadecimal text, UTF-8.
-- A byte string is a list of numbers; a text is the list of its code points.
pub mod Struct
pub mod Hex
pub mod Utf8
use leann_cpp.Prelude.{ℕ, List, ◌<◌}

abbrev pub Bytes : Type 0
Bytes = List ℕ

abbrev pub Text : Type 0
Text = List ℕ

abbrev pub IsByte : ℕ → Type 0
IsByte b = b < 256
