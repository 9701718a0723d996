-- ===== src/Lines/Native.antt =====
-- When the script's line reader and the native one agree.
use leann_cpp.Prelude.{
  ℕ, ◌≡◌, ◌↔◌, refl, ◌∙◌, ap, Bool, true, false, ◌&&◌, ◌||◌, not, List, [], ◌∷◌, map, arith, ◌==◌,
  if◌then◌else◌, Bool-cases, inl, inr, ==_iff,
}
use leann_cpp.Bytes.{Text}
use leann_cpp.Lines.{
  lf, cr, drop_end, starts_with_lf, cons_head, raw_lines, nonempty, strip_end, iter_nonempty_lines,
}

-- `std::getline`: the pieces between line feeds; an empty last piece is no line.
unfoldable pub split_lf : Text → List Text
split_lf [] = []
split_lf (c ∷ s) = let rest = split_lf s in if c == lf then [] ∷ rest else cons_head c rest

-- `read_lines` of the native program: one carriage return goes from a line's end, and empty lines
-- are passed over.
unfoldable pub native_lines : Text → List Text
unfolding split_lf
native_lines s = nonempty (map (drop_end cr) (split_lf s))

-- Each carriage return stands before a line feed or at the end of the text.
abbrev pub no_lone_cr : Text → Bool
no_lone_cr [] = true
no_lone_cr (c ∷ []) = true
no_lone_cr (c ∷ d ∷ s) = (not (c == cr) || d == lf) && no_lone_cr (d ∷ s)

drop_end-cons_ne : (d c : ℕ) (l : Text) → (c == d) ≡ false → drop_end d (c ∷ l) ≡ c ∷ drop_end d l
drop_end-cons_ne d c [] h = ground arith
drop_end-cons_ne d c (x ∷ l) h = refl

map-cons_head :
    (c : ℕ) (ls : List Text)
    → (c == lf) ≡ false
    → map (drop_end lf) (cons_head c ls) ≡ cons_head c (map (drop_end lf) ls)
map-cons_head c [] h = rw (drop_end-cons_ne lf c [] h)
map-cons_head c (l ∷ ls) h = rw (drop_end-cons_ne lf c l h)

raw_lines-cons :
    (c : ℕ) (s : Text)
    → (c == lf) ≡ false
    → (c == cr && not (starts_with_lf s)) ≡ false
    → raw_lines (c ∷ s) ≡ cons_head c (raw_lines s)
unfolding raw_lines
raw_lines-cons c s h k = rw (h, k)

split_lf-cons : (c : ℕ) (s : Text) → (c == lf) ≡ false → split_lf (c ∷ s) ≡ cons_head c (split_lf s)
unfolding split_lf
split_lf-cons c s h = rw h

raw_lines-lf : (s : Text) → raw_lines (lf ∷ s) ≡ (lf ∷ []) ∷ raw_lines s
unfolding raw_lines
raw_lines-lf s = refl

split_lf-lf : (s : Text) → split_lf (lf ∷ s) ≡ [] ∷ split_lf s
unfolding split_lf
split_lf-lf s = refl

raw_lines-cr : (s : Text) → starts_with_lf s ≡ false → raw_lines (cr ∷ s) ≡ (cr ∷ []) ∷ raw_lines s
unfolding raw_lines
raw_lines-cr s h = rw h

raw_lines-cr-lf : (s : Text) → raw_lines (cr ∷ lf ∷ s) ≡ (cr ∷ lf ∷ []) ∷ raw_lines s
unfolding raw_lines
raw_lines-cr-lf s = refl

raw_lines-split_lf_one : (c : ℕ) → map (drop_end lf) (raw_lines (c ∷ [])) ≡ split_lf (c ∷ [])
unfolding raw_lines split_lf
raw_lines-split_lf_one c = ground arith

raw_lines-nil : map (drop_end lf) (raw_lines []) ≡ split_lf []
unfolding raw_lines split_lf
raw_lines-nil = refl

-- Without a lone carriage return the raw lines are the native pieces with their line feeds.
raw_lines-split_lf : (s : Text) → no_lone_cr s ≡ true → map (drop_end lf) (raw_lines s) ≡ split_lf s
raw_lines-split_lf [] h = raw_lines-nil
raw_lines-split_lf (c ∷ []) h = raw_lines-split_lf_one c
raw_lines-split_lf (c ∷ d ∷ s) h = elim (Bool-cases (c == lf)) [
  | inl e ↦
      let q : c ≡ lf = (==_iff c lf).0 e in
      rw (q, raw_lines-lf, split_lf-lf)
        (ap (λ r. [] ∷ r) (raw_lines-split_lf (d ∷ s) (ground arith)))
  | inr e ↦
      rw (raw_lines-cons c (d ∷ s) e (ground arith), split_lf-cons c (d ∷ s) e)
        (map-cons_head c (raw_lines (d ∷ s)) e
          ∙ ap (cons_head c) (raw_lines-split_lf (d ∷ s) (ground arith)))
]

map-strip_end : (ls : List Text) → map strip_end ls ≡ map (drop_end cr) (map (drop_end lf) ls)
map-strip_end [] = refl
map-strip_end (l ∷ ls) = ap (λ r. strip_end l ∷ r) (map-strip_end ls)

lines_agree : (s : Text) → no_lone_cr s ≡ true → iter_nonempty_lines s ≡ native_lines s
unfolding iter_nonempty_lines native_lines
lines_agree s h =
    ap nonempty (map-strip_end (raw_lines s) ∙ ap (map (drop_end cr)) (raw_lines-split_lf s h))

-- Whether a carriage return is left in a line, or in some line.
abbrev has_cr : Text → Bool
has_cr [] = false
has_cr (c ∷ s) = c == cr || has_cr s

abbrev some_has_cr : List Text → Bool
some_has_cr [] = false
some_has_cr (l ∷ ls) = has_cr l || some_has_cr ls

some_has_cr-nonempty : (ls : List Text) → some_has_cr (nonempty ls) ≡ some_has_cr ls
some_has_cr-nonempty [] = refl
some_has_cr-nonempty ([] ∷ ls) = some_has_cr-nonempty ls
some_has_cr-nonempty ((c ∷ l) ∷ ls) = rw (some_has_cr-nonempty ls)

strip_end-cons :
    (c : ℕ) (l : Text) → (c == lf) ≡ false → (c == cr) ≡ false → strip_end (c ∷ l) ≡ c ∷ strip_end l
strip_end-cons c l h k =
    ap (drop_end cr) (drop_end-cons_ne lf c l h) ∙ drop_end-cons_ne cr c (drop_end lf l) k

map-strip_end-cons_head :
    (c : ℕ) (ls : List Text)
    → (c == lf) ≡ false
    → (c == cr) ≡ false
    → map strip_end (cons_head c ls) ≡ cons_head c (map strip_end ls)
map-strip_end-cons_head c [] h k = rw (strip_end-cons c [] h k)
map-strip_end-cons_head c (l ∷ ls) h k = rw (strip_end-cons c l h k)

some_has_cr-cons_head :
    (c : ℕ) (ls : List Text) → (c == cr) ≡ false → some_has_cr (cons_head c ls) ≡ some_has_cr ls
some_has_cr-cons_head c [] k = ground arith
some_has_cr-cons_head c (l ∷ ls) k = ground arith

-- The script leaves no carriage return in a line.
stripped_lines : (s : Text) → some_has_cr (map strip_end (raw_lines s)) ≡ false
unfolding raw_lines
stripped_lines [] = refl
stripped_lines (c ∷ s) = elim (Bool-cases (c == lf)) [
  | inl e ↦ let q : c ≡ lf = (==_iff c lf).0 e in rw q (stripped_lines s)
  | inr e ↦ elim (Bool-cases (c == cr)) [
    | inr k ↦ rw (raw_lines-cons c s e (rw k)) (
        ap some_has_cr (map-strip_end-cons_head c (raw_lines s) e k)
        ∙ some_has_cr-cons_head c (map strip_end (raw_lines s)) k
        ∙ stripped_lines s)
    | inl k ↦ let q : c ≡ cr = (==_iff c cr).0 k in rw q (after_cr s (stripped_lines s))
  ]
]
  where
    after_cr :
        (r : Text)
        → some_has_cr (map strip_end (raw_lines r)) ≡ false
        → some_has_cr (map strip_end (raw_lines (cr ∷ r))) ≡ false
    after_cr [] h = refl
    after_cr (d ∷ r) h = elim (Bool-cases (d == lf)) [
      | inl e' ↦ let q : d ≡ lf = (==_iff d lf).0 e' in rw q (rw q at h)
      | inr e' ↦ rw (raw_lines-cr (d ∷ r) e') h
    ]

has_cr-drop_end :
    (c : ℕ) (l : Text) → has_cr (drop_end cr l) ≡ true → has_cr (drop_end cr (c ∷ l)) ≡ true
has_cr-drop_end c [] h = cc
has_cr-drop_end c (x ∷ l) h = rw h (ground arith)

some_has_cr-cons :
    (c : ℕ) (ls : List Text)
    → some_has_cr (map (drop_end cr) ls) ≡ true
    → some_has_cr (map (drop_end cr) (cons_head c ls)) ≡ true
some_has_cr-cons c [] h = cc
some_has_cr-cons c (l ∷ ls) h = ground (arith, has_cr-drop_end c l)

cons_head-ne :
    (d : ℕ) (ls : List Text)
    → some_has_cr (map (drop_end cr) (cons_head cr (cons_head d ls))) ≡ true
cons_head-ne d [] = refl
cons_head-ne d (l ∷ ls) = refl

-- A lone carriage return stays in a native line.
native_keeps_cr :
    (s : Text) → no_lone_cr s ≡ false → some_has_cr (map (drop_end cr) (split_lf s)) ≡ true
native_keeps_cr [] h = cc
native_keeps_cr (c ∷ []) h = cc
native_keeps_cr (c ∷ d ∷ s) h = elim (Bool-cases (c == lf)) [
  | inl e ↦
      let q : c ≡ lf = (==_iff c lf).0 e in
      rw (q, split_lf-lf) (native_keeps_cr (d ∷ s) (ground arith))
  | inr e ↦ elim (Bool-cases (no_lone_cr (d ∷ s))) [
    | inr k ↦ rw (split_lf-cons c (d ∷ s) e) (some_has_cr-cons c _ (native_keeps_cr (d ∷ s) k))
    | inl k ↦
        let q : c ≡ cr = ground arith in
        let n : (d == lf) ≡ false = ground arith in
        rw (q, split_lf-cons cr (d ∷ s) refl, split_lf-cons d s n) (cons_head-ne d (split_lf s))
  ]
]

-- The script reads the lines that the native program reads exactly from the texts in which each
-- carriage return stands before a line feed or at the end.
pub iter_nonempty_lines-native_iff :
    (s : Text) → (iter_nonempty_lines s ≡ native_lines s) ↔ (no_lone_cr s ≡ true)
unfolding iter_nonempty_lines native_lines
iter_nonempty_lines-native_iff s = (there, lines_agree s)
  where
    there : iter_nonempty_lines s ≡ native_lines s → no_lone_cr s ≡ true
    there e = elim (Bool-cases (no_lone_cr s)) [
      | inl h ↦ h
      | inr h ↦ cc (
        some_has_cr-nonempty (map strip_end (raw_lines s)),
        some_has_cr-nonempty (map (drop_end cr) (split_lf s)),
        stripped_lines s,
        native_keeps_cr s h,
      )
    ]
