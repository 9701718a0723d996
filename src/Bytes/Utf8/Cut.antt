-- ===== src/Bytes/Utf8/Cut.antt =====
-- Encoded text that is cut off at a number of bytes, and decoded again without the rest of a
-- character at its end.
use leann_cpp.Prelude.{
  ℕ, zero, suc, ◌+◌, ◌-◌, ◌*◌, ◌/◌, ◌%◌, ◌<◌, ◌≤◌, ◌≡◌, refl, ap, ◌∙◌, true, List, [], ◌∷◌, ◌++◌,
  arith, All, length, length-append, take, take-append_le, ltb, leb, if◌then◌else◌, inl, inr,
  Bool-cases, ltb→lt, leb→le,
}
use leann_cpp.Bytes.Utf8.{IsScalar, encode_char, encode, lead_two, lead_three, lead_four}
use leann_cpp.Bytes.Utf8.Ignore.{
  ignore_from, decode_ignore, ignore_nil, ignore_tail, ignore_last, ignore_lead, ignore_ascii,
  Begins, two-Begins, three-Begins, four-Begins,
}

ignore_two :
    (c : ℕ) (s : List ℕ)
    → 0x80 ≤ c
    → c < 0x800
    → IsScalar c
    → ignore_from 0 0 0 ((0xc0 + c / 64) ∷ (0x80 + c % 64) ∷ s) ≡ c ∷ ignore_from 0 0 0 s
ignore_two c s lo hi h =
    let e : c / 64 * 64 + c % 64 ≡ c = omega arith in
    ignore_lead _ 0 _ _ _ (lead_two (c / 64) (omega arith) (omega arith))
    ∙ ignore_last (c / 64) 0x80 (c % 64) s (omega arith) (omega arith) (rw e h)
    ∙ (rw e refl)

ignore_three :
    (c : ℕ) (s : List ℕ)
    → 0x800 ≤ c
    → c < 0x10000
    → IsScalar c
    → ignore_from 0 0 0 ((0xe0 + c / 4096) ∷ (0x80 + c / 64 % 64) ∷ (0x80 + c % 64) ∷ s)
      ≡ c ∷ ignore_from 0 0 0 s
ignore_three c s lo hi h =
    let e : (c / 4096 * 64 + c / 64 % 64) * 64 + c % 64 ≡ c = omega arith in
    ignore_lead _ 1 _ _ _ (lead_three (c / 4096) (omega arith))
    ∙ ignore_tail 0 (c / 4096) 0x800 (c / 64 % 64) _ (omega arith)
    ∙ ignore_last _ 0x800 (c % 64) s (omega arith) (omega arith) (rw e h)
    ∙ (rw e refl)

ignore_four :
    (c : ℕ) (s : List ℕ)
    → 0x10000 ≤ c
    → c < 0x110000
    → IsScalar c
    → ignore_from 0 0 0
        ((0xf0 + c / 262144) ∷ (0x80 + c / 4096 % 64) ∷ (0x80 + c / 64 % 64) ∷ (0x80 + c % 64) ∷ s)
      ≡ c ∷ ignore_from 0 0 0 s
ignore_four c s lo hi h =
    let e : ((c / 262144 * 64 + c / 4096 % 64) * 64 + c / 64 % 64) * 64 + c % 64 ≡ c =
      omega arith in
    ignore_lead _ 2 _ _ _ (lead_four (c / 262144) (omega arith))
    ∙ ignore_tail 1 (c / 262144) 0x10000 (c / 4096 % 64) _ (omega arith)
    ∙ ignore_tail 0 _ 0x10000 (c / 64 % 64) _ (omega arith)
    ∙ ignore_last _ 0x10000 (c % 64) s (omega arith) (omega arith) (rw e h)
    ∙ (rw e refl)

ignore-encode_char :
    (c : ℕ) (s : List ℕ)
    → IsScalar c
    → ignore_from 0 0 0 (encode_char c ++ s) ≡ c ∷ ignore_from 0 0 0 s
unfolding encode_char
ignore-encode_char c s h = elim (Bool-cases (ltb c 0x80)) [
  | inl one ↦ rw one (ignore_ascii c s (ltb→lt c _ one))
  | inr e ↦ elim (Bool-cases (ltb c 0x800)) [
    | inl two ↦ rw (e, two) (ignore_two c s (ground arith) (ltb→lt c _ two) h)
    | inr e' ↦ elim (Bool-cases (ltb c 0x10000)) [
      | inl three ↦ rw (e, e', three) (ignore_three c s (ground arith) (ltb→lt c _ three) h)
      | inr four ↦ rw (e, e', four) (ignore_four c s (ground arith) (ground arith) h)
    ]
  ]
]

one-Begins : (c : ℕ) → Begins (c ∷ [])
one-Begins c zero h = ignore_nil 0 0 0
one-Begins c (suc n) h = absurd (omega arith)

encode_char-Begins : (c : ℕ) → IsScalar c → Begins (encode_char c)
unfolding encode_char
encode_char-Begins c h = elim (Bool-cases (ltb c 0x80)) [
  | inl one ↦ rw one (one-Begins c)
  | inr e ↦ elim (Bool-cases (ltb c 0x800)) [
    | inl two ↦ rw (e, two) (two-Begins c (ground arith) (ltb→lt c _ two))
    | inr e' ↦ elim (Bool-cases (ltb c 0x10000)) [
      | inl three ↦ rw (e, e', three) (three-Begins c (ltb→lt c _ three))
      | inr four ↦ rw (e, e', four) (four-Begins c (ground arith))
    ]
  ]
]

-- How many characters at the beginning of a text have at most `n` bytes together.
abbrev pub fit : ℕ → List ℕ → ℕ
fit n [] = 0
fit n (c ∷ s) =
    let rest = fit (n - length (encode_char c)) s in
    if leb (length (encode_char c)) n then suc rest else 0

take-append_ge :
    (n : ℕ) (xs ys : List ℕ) → length xs ≤ n → take n (xs ++ ys) ≡ xs ++ take (n - length xs) ys
take-append_ge n [] ys h = let e : n - 0 ≡ n = omega arith in rw e refl
take-append_ge zero (x ∷ xs) ys h = absurd (omega arith)
take-append_ge (suc n) (x ∷ xs) ys h =
    let e : suc n - suc (length xs) ≡ n - length xs = omega arith in
    rw e (ap (λ (l : List ℕ). x ∷ l) (take-append_ge n xs ys (omega arith)))

-- What is left is the longest beginning of the text that fits.
pub decode_ignore-take :
    (n : ℕ) (s : List ℕ) → All IsScalar s → decode_ignore (take n (encode s)) ≡ take (fit n s) s
unfolding decode_ignore encode
decode_ignore-take zero [] h = ignore_nil 0 0 0
decode_ignore-take (suc n) [] h = ignore_nil 0 0 0
decode_ignore-take n (c ∷ s) (hc, hs) = elim (Bool-cases (leb (length (encode_char c)) n)) [
  | inl e ↦
      rw (e, take-append_ge n (encode_char c) (encode s) (leb→le _ _ e))
        (ignore-encode_char c _ hc
          ∙ ap (λ (l : List ℕ). c ∷ l) (decode_ignore-take (n - length (encode_char c)) s hs))
  | inr e ↦
      let short : n < length (encode_char c) = ground arith in
      rw (e, take-append_le n (encode_char c) (encode s) (omega arith))
        (encode_char-Begins c hc n short)
]

pub length-encode-fit : (n : ℕ) (s : List ℕ) → length (encode (take (fit n s) s)) ≤ n
unfolding encode
length-encode-fit n [] = omega arith
length-encode-fit n (c ∷ s) = elim (Bool-cases (leb (length (encode_char c)) n)) [
  | inl e ↦
      let k = length-encode-fit (n - length (encode_char c)) s in
      let l = leb→le _ _ e in
      rw (e, length-append (encode_char c) (encode (take (fit (n - length (encode_char c)) s) s)))
        (omega arith)
  | inr e ↦ rw e (omega arith)
]

pub fit-greatest :
    (n k : ℕ) (s : List ℕ) → k ≤ length s → length (encode (take k s)) ≤ n → k ≤ fit n s
unfolding encode
fit-greatest n zero s h l = omega arith
fit-greatest n (suc k) [] h l = absurd (omega arith)
fit-greatest n (suc k) (c ∷ s) h l =
    let e = length-append (encode_char c) (encode (take k s)) in
    let fits : leb (length (encode_char c)) n ≡ true = ground (arith, e, l) in
    let m = fit-greatest (n - length (encode_char c)) k s (omega arith) (omega (arith, e, l)) in
    rw fits (omega arith)
