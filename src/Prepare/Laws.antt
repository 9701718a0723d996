-- ===== src/Prepare/Laws.antt =====
-- `verify_prefix` decides whether a file of whole lines is the beginning of another.
use leann_cpp.Prelude.{
  ℕ, ◌≡◌, refl, sym, ap, ◌∙◌, ◌↔◌, Bool, true, false, not, List, [], ◌∷◌, ◌++◌, append_assoc, arith,
  length, eq_list, eq_list_self, eq_of_eq_list, ◌==◌, Bool-cases, inl, inr, ok, runtime_error,
  >>=-eq-ok, raise_if-eq-ok,
}
use leann_cpp.Bytes.{Bytes}
use leann_cpp.Lines.{cons_head}
use leann_cpp.Prepare.{byte_lines, read_line, after_line, check_lines, verify_prefix}

abbrev concat : List Bytes → Bytes
concat [] = []
concat (l ∷ ls) = l ++ concat ls

abbrev pub ends_line : Bytes → Bool
ends_line [] = false
ends_line (c ∷ []) = c == 10
ends_line (c ∷ d ∷ s) = ends_line (d ∷ s)

concat-cons_head : (c : ℕ) (ls : List Bytes) → concat (cons_head c ls) ≡ c ∷ concat ls
concat-cons_head c [] = refl
concat-cons_head c (l ∷ ls) = refl

concat-byte_lines : (s : Bytes) → concat (byte_lines s) ≡ s
unfolding byte_lines
concat-byte_lines [] = refl
concat-byte_lines (c ∷ s) = elim (Bool-cases (c == 10)) [
  | inl h ↦ rw h (ap (λ (t : Bytes). c ∷ t) (concat-byte_lines s))
  | inr h ↦
      rw h (concat-cons_head c (byte_lines s) ∙ ap (λ (t : Bytes). c ∷ t) (concat-byte_lines s))
]

-- A longer text has a first line.
byte_lines-∷ : (c : ℕ) (s : Bytes) → (l : Bytes) × (ls : List Bytes) × (byte_lines (c ∷ s) ≡ l ∷ ls)
unfolding byte_lines
byte_lines-∷ c s = elim (Bool-cases (c == 10)) [
  | inl h ↦ (c ∷ [], byte_lines s, rw h refl)
  | inr h ↦ let (l, ls, e) = headed (byte_lines s) in (l, ls, rw h e)
]
  where
    headed : (ms : List Bytes) → (l : Bytes) × (ls : List Bytes) × (cons_head c ms ≡ l ∷ ls)
    headed [] = (c ∷ [], [], refl)
    headed (m ∷ ms) = (c ∷ m, ms, refl)

byte_lines-append :
    (s t : Bytes) → ends_line s ≡ true → byte_lines (s ++ t) ≡ byte_lines s ++ byte_lines t
unfolding byte_lines
byte_lines-append [] t h = absurd (ground arith)
byte_lines-append (c ∷ []) t h = rw h refl
byte_lines-append (c ∷ d ∷ s) t h =
    let rest = byte_lines-append (d ∷ s) t h in
    elim (Bool-cases (c == 10)) [
      | inl k ↦ rw k (ap (λ (ls : List Bytes). (c ∷ []) ∷ ls) rest)
      | inr k ↦
          let (l, ls, e) = byte_lines-∷ d s in
          rw k (ap (cons_head c) rest ∙ joined (byte_lines (d ∷ s)) l ls e)
    ]
  where
    joined :
        (ms : List Bytes) (l : Bytes) (ls : List Bytes)
        → ms ≡ l ∷ ls
        → cons_head c (ms ++ byte_lines t) ≡ cons_head c ms ++ byte_lines t
    joined ms l ls e = rw e refl

check_lines-append : (ls ms : List Bytes) → check_lines ls (ls ++ ms) ≡ ok tt
check_lines-append [] ms = refl
check_lines-append (l ∷ ls) ms = rw (eq_list_self l) (check_lines-append ls ms)

concat-read_line : (ls : List Bytes) → concat ls ≡ read_line ls ++ concat (after_line ls)
concat-read_line [] = refl
concat-read_line (l ∷ ls) = refl

check_lines-eq-ok :
    (ls ms : List Bytes)
    → check_lines ls ms ≡ ok tt
    → (rest : Bytes) × (concat ms ≡ concat ls ++ rest)
check_lines-eq-ok [] ms h = (concat ms, refl)
check_lines-eq-ok (l ∷ ls) ms h =
    let (same, h1) =
      raise_if-eq-ok (not (eq_list l (read_line ms)))
        (runtime_error "is not a byte-identical prefix") _ h in
    let (rest, e) = check_lines-eq-ok ls (after_line ms) h1 in
    let equal = eq_of_eq_list l (read_line ms) (ground arith) in
    (
      rest,
      concat-read_line ms
          ∙ ap (λ (t : Bytes). t ++ concat (after_line ms)) (sym equal)
          ∙ ap (λ (t : Bytes). l ++ t) e
          ∙ sym (append_assoc l (concat ls) rest),
    )

has_lines : (s : Bytes) → ends_line s ≡ true → (length (byte_lines s) == 0) ≡ false
has_lines [] h = ground arith
has_lines (c ∷ s) h = let (l, ls, e) = byte_lines-∷ c s in rw e (ground arith)

verify_prefix-eq-ok :
    (smaller larger : Bytes)
    → verify_prefix smaller larger ≡ ok tt
    → (rest : Bytes) × (larger ≡ smaller ++ rest)
unfolding verify_prefix
verify_prefix-eq-ok smaller larger e =
    let (u, e1, e2) = >>=-eq-ok (check_lines (byte_lines smaller) (byte_lines larger)) _ e in
    let (rest, p) = check_lines-eq-ok (byte_lines smaller) (byte_lines larger) e1 in
    (
      rest,
      sym (concat-byte_lines larger)
          ∙ p
          ∙ ap (λ (t : Bytes). t ++ rest) (concat-byte_lines smaller),
    )

verify_prefix-append :
    (smaller rest : Bytes)
    → ends_line smaller ≡ true
    → verify_prefix smaller (smaller ++ rest) ≡ ok tt
unfolding verify_prefix
verify_prefix-append smaller rest h =
    rw
      (
        byte_lines-append smaller rest h,
        check_lines-append (byte_lines smaller) (byte_lines rest),
        has_lines smaller h,
      )
      refl

-- A file whose last line is ended passes exactly against the files that begin with its bytes.
pub verify_prefix_iff :
    (smaller larger : Bytes)
    → ends_line smaller ≡ true
    → (verify_prefix smaller larger ≡ ok tt) ↔ ((rest : Bytes) × (larger ≡ smaller ++ rest))
verify_prefix_iff smaller larger h =
    (verify_prefix-eq-ok smaller larger, λ (rest, e). rw e (verify_prefix-append smaller rest h))
