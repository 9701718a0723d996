-- ===== src/GroundTruth/Print/Split.antt =====
-- `" ".join(words).split()` is `words`, and a file of lines has these lines.
use leann_cpp.Prelude.{
  ℕ, ◌<◌, ◌≡◌, refl, ◌∙◌, ap, Bool, true, false, ◌&&◌, List, [], ◌∷◌, ◌++◌, map, arith, length, all,
  All, all-append, leb, ◌==◌, ok,
}
use leann_cpp.Bytes.{Text}
use leann_cpp.Bytes.Utf8.{is_ascii, decode-ascii}
use leann_cpp.Lines.{
  lf, cr, drop_end, raw_lines, cons_head, strip_end, nonempty, iter_nonempty_lines, file_lines,
}
use leann_cpp.GroundTruth.Words.{is_space, starts_word, cons_word, split}
use leann_cpp.GroundTruth.Print.{join, end_lines}

-- A word of visible ASCII characters.
abbrev pub is_visible : ℕ → Bool
is_visible c = leb 33 c && leb c 126

abbrev pub IsWord : Text → Type 0
IsWord w = (0 < length w) × (all is_visible w ≡ true)

visible_no_space : (c : ℕ) → is_visible c ≡ true → is_space c ≡ false
visible_no_space c h = ground arith

split_step :
    (c : ℕ) (s : Text) → is_space c ≡ false → split (c ∷ s) ≡ cons_word (starts_word s) c (split s)
unfolding split
split_step c s h = rw h refl

split-nil : split [] ≡ []
unfolding split
split-nil = refl

split-space : (s : Text) → split (b' ' ∷ s) ≡ split s
unfolding split
split-space s = refl

split-last : (c : ℕ) → is_visible c ≡ true → split (c ∷ []) ≡ (c ∷ []) ∷ []
unfolding split
split-last c h = let n = visible_no_space c h in rw n refl

split-end :
    (c : ℕ) (rest : Text) → is_visible c ≡ true → split (c ∷ b' ' ∷ rest) ≡ (c ∷ []) ∷ split rest
unfolding split
split-end c rest h = let n = visible_no_space c h in rw n refl

split-inside :
    (c d : ℕ) (s w : Text) (ws : List Text)
    → is_visible c ≡ true
    → is_visible d ≡ true
    → split (d ∷ s) ≡ w ∷ ws
    → split (c ∷ d ∷ s) ≡ (c ∷ w) ∷ ws
split-inside c d s w ws h k e = let m = visible_no_space d k in step ∙ rw m (rw e refl)
  where
    step : split (c ∷ d ∷ s) ≡ cons_word (starts_word (d ∷ s)) c (split (d ∷ s))
    step = split_step c (d ∷ s) (visible_no_space c h)

split-word : (w : Text) → IsWord w → split w ≡ w ∷ []
split-word [] (p, h) = absurd (omega arith)
split-word (c ∷ []) (p, h) = split-last c (ground arith)
split-word (c ∷ d ∷ s) (p, h) =
    split-inside c d s (d ∷ s) [] (ground arith) (ground arith)
      (split-word (d ∷ s) (omega arith, ground arith))

-- A word in front of a space.
split-append : (w rest : Text) → IsWord w → split (w ++ b' ' ∷ rest) ≡ w ∷ split rest
split-append [] rest (p, h) = absurd (omega arith)
split-append (c ∷ []) rest (p, h) = split-end c rest (ground arith)
split-append (c ∷ d ∷ s) rest (p, h) =
    split-inside c d (s ++ b' ' ∷ rest) (d ∷ s) (split rest) (ground arith) (ground arith)
      (split-append (d ∷ s) rest (omega arith, ground arith))

pub split-join : (ws : List Text) → All IsWord ws → split (join ws) ≡ ws
split-join [] h = split-nil
split-join (w ∷ []) (p, h) = split-word w p
split-join (w ∷ v ∷ ws) (p, h) =
    split-append w (join (v ∷ ws)) p ∙ ap (λ (l : List Text). w ∷ l) (split-join (v ∷ ws) h)

-- The characters of a line are visible ASCII characters and spaces.
abbrev pub is_plain : ℕ → Bool
is_plain c = leb 32 c && leb c 126

raw_lines-line :
    (l rest : Text)
    → all is_plain l ≡ true
    → raw_lines (l ++ lf ∷ rest) ≡ (l ++ lf ∷ []) ∷ raw_lines rest
unfolding raw_lines
raw_lines-line [] rest h = refl
raw_lines-line (c ∷ l) rest h =
    let n : (c == lf) ≡ false = ground arith in
    let m : (c == cr) ≡ false = ground arith in
    rw (n, m) (ap (cons_head c) (raw_lines-line l rest (ground arith)))

drop_end-last : (l : Text) (c : ℕ) → drop_end c (l ++ c ∷ []) ≡ l
drop_end-last [] c = ground arith
drop_end-last (x ∷ []) c = ground arith
drop_end-last (x ∷ y ∷ l) c = ap (λ (t : Text). x ∷ t) (drop_end-last (y ∷ l) c)

drop_end-plain : (l : Text) → all is_plain l ≡ true → drop_end cr l ≡ l
drop_end-plain [] h = refl
drop_end-plain (x ∷ []) h = ground arith
drop_end-plain (x ∷ y ∷ l) h = ap (λ (t : Text). x ∷ t) (drop_end-plain (y ∷ l) (ground arith))

abbrev pub IsLine : Text → Type 0
IsLine l = (0 < length l) × (all is_plain l ≡ true)

nonempty-∷ : (l : Text) (ls : List Text) → 0 < length l → nonempty (l ∷ ls) ≡ l ∷ nonempty ls
nonempty-∷ [] ls h = absurd (omega arith)
nonempty-∷ (c ∷ l) ls h = refl

iter_nonempty_lines-line :
    (l rest : Text) → IsLine l → iter_nonempty_lines (l ++ lf ∷ rest) ≡ l ∷ iter_nonempty_lines rest
unfolding iter_nonempty_lines
iter_nonempty_lines-line l rest (p, h) =
    ap (λ (ls : List Text). nonempty (map strip_end ls)) (raw_lines-line l rest h)
    ∙ ap (λ (t : Text). nonempty (t ∷ map strip_end (raw_lines rest)))
        (ap (drop_end cr) (drop_end-last l lf) ∙ drop_end-plain l h)
    ∙ nonempty-∷ l _ p

iter_nonempty_lines-nil : iter_nonempty_lines [] ≡ []
unfolding iter_nonempty_lines
iter_nonempty_lines-nil = refl

plain_ascii : (l : Text) → all is_plain l ≡ true → all is_ascii l ≡ true
plain_ascii [] h = refl
plain_ascii (c ∷ l) h = ground (arith, plain_ascii l)

iter_nonempty_lines-end_lines :
    (ls : List Text) → All IsLine ls → iter_nonempty_lines (end_lines ls) ≡ ls
iter_nonempty_lines-end_lines [] h = iter_nonempty_lines-nil
iter_nonempty_lines-end_lines (l ∷ ls) (p, h) =
    iter_nonempty_lines-line l (end_lines ls) p
    ∙ ap (λ (t : List Text). l ∷ t) (iter_nonempty_lines-end_lines ls h)

end_lines-ascii : (ls : List Text) → All IsLine ls → all is_ascii (end_lines ls) ≡ true
end_lines-ascii [] h = refl
end_lines-ascii (l ∷ ls) ((p, h), k) =
    all-append is_ascii l (lf ∷ end_lines ls)
    ∙ ground (arith, plain_ascii l h, end_lines-ascii ls k)

pub file_lines-end_lines : (ls : List Text) → All IsLine ls → file_lines (end_lines ls) ≡ ok ls
unfolding file_lines
file_lines-end_lines ls h =
    rw (decode-ascii (end_lines ls) (end_lines-ascii ls h), file_lines)
      (ap (λ (l : List Text). ok l) (iter_nonempty_lines-end_lines ls h))
