-- ===== src/Bytes/Utf8.antt =====
-- UTF-8 as `str.encode("utf-8")` writes it and `bytes.decode("utf-8")` reads it (strict mode).
pub mod Ignore
pub mod Cut
use leann_cpp.Prelude.{
  append_assoc, ap, sym, Result, ok, err, decode_error, all, ℕ, zero, suc, ◌+◌, ◌-◌, ◌*◌, ◌/◌, ◌%◌,
  ◌<◌, ◌≤◌, ◌≡◌, refl, Bool, true, false, ◌&&◌, ◌||◌, Option, none, some, List, [], ◌∷◌, ◌++◌,
  arith, All, ltb, leb, ◌==◌, if◌then◌else◌, inl, inr, Bool-cases, ltb→lt, le→leb, ◌∙◌,
}

-- A code point that UTF-8 can carry: no surrogate, and at most U+10FFFF.
abbrev pub is_scalar : ℕ → Bool
is_scalar c = ltb c 0xd800 || (leb 0xe000 c && ltb c 0x110000)

abbrev pub IsScalar : ℕ → Type 0
IsScalar c = is_scalar c ≡ true

unfoldable pub encode_char : ℕ → List ℕ
encode_char c =
    if ltb c 0x80
    then c ∷ []
    else if ltb c 0x800
    then (0xc0 + c / 64) ∷ (0x80 + c % 64) ∷ []
    else if ltb c 0x10000
    then (0xe0 + c / 4096) ∷ (0x80 + c / 64 % 64) ∷ (0x80 + c % 64) ∷ []
    else (0xf0 + c / 262144) ∷ (0x80 + c / 4096 % 64) ∷ (0x80 + c / 64 % 64) ∷ (0x80 + c % 64) ∷ []

unfoldable pub encode : List ℕ → List ℕ
unfolding encode_char
encode [] = []
encode (c ∷ s) = encode_char c ++ encode s

-- `str.encode("utf-8")`, which refuses a surrogate.
unfoldable pub encode_text : List ℕ → Result (List ℕ)
encode_text s =
    if all is_scalar s then ok (encode s) else err (decode_error "surrogates not allowed")

-- What a lead byte announces: continuation bytes to come, the bits so far, the least code point
-- that may be written at this length (a lower one is an overlong form).
pub record Lead : Type 0 where
  pub more : ℕ
  pub bits : ℕ
  pub least : ℕ

unfoldable pub lead : ℕ → Option Lead
lead b =
    if ltb b 0x80
    then some (record { more = 0; bits = b; least = 0 })
    else if leb 0xc2 b && ltb b 0xe0
    then some (record { more = 1; bits = b - 0xc0; least = 0x80 })
    else if leb 0xe0 b && ltb b 0xf0
    then some (record { more = 2; bits = b - 0xe0; least = 0x800 })
    else if leb 0xf0 b && ltb b 0xf5
    then some (record { more = 3; bits = b - 0xf0; least = 0x10000 })
    else none

abbrev pub is_tail : ℕ → Bool
is_tail b = leb 0x80 b && ltb b 0xc0

abbrev push_char : Bool → ℕ → Option (List ℕ) → Option (List ℕ)
push_char true c (some s) = some (c ∷ s)
push_char _ c _ = none

-- `more` continuation bytes are still due for the code point whose bits so far are `bits`.
decode_from : ℕ → ℕ → ℕ → List ℕ → Option (List ℕ)
decode_from zero bits least [] = some []
decode_from (suc more) bits least [] = none
decode_from zero bits least (b ∷ s) = elim (lead b) [
  | none ↦ none
  | some l ↦
      let plain = push_char true l.bits (decode_from zero 0 0 s) in
      let longer = decode_from l.more l.bits l.least s in if l.more == 0 then plain else longer
]
decode_from (suc more) bits least (b ∷ s) =
    let c = bits * 64 + (b - 0x80) in
    let closed = push_char (leb least c && is_scalar c) c (decode_from zero 0 0 s) in
    let longer = decode_from more c least s in
    if is_tail b then (if more == 0 then closed else longer) else none

unfoldable pub decode : List ℕ → Option (List ℕ)
unfolding decode_from lead
decode = decode_from 0 0 0

cafe :
    decode (encode (0x63 ∷ 0xe9 ∷ 0x20ac ∷ 0x1f600 ∷ []))
    ≡ some (0x63 ∷ 0xe9 ∷ 0x20ac ∷ 0x1f600 ∷ [])
unfolding decode encode
cafe = refl

overlong : decode (0xc1 ∷ 0x81 ∷ []) ≡ none
unfolding decode
overlong = refl

surrogate : decode (0xed ∷ 0xa0 ∷ 0x80 ∷ []) ≡ none
unfolding decode
surrogate = refl

pub is_tail_lem : (n : ℕ) → n < 64 → is_tail (0x80 + n) ≡ true
is_tail_lem n h = ground arith

pub not_zero : (n : ℕ) → (suc n == 0) ≡ false
not_zero n = ground arith

-- A continuation byte inside a code point, and the last one.
decode_tail :
    (more bits least n : ℕ) (s : List ℕ)
    → n < 64
    → decode_from (suc (suc more)) bits least ((0x80 + n) ∷ s)
      ≡ decode_from (suc more) (bits * 64 + n) least s
unfolding decode_from
decode_tail more bits least n s h =
    let e : 0x80 + n - 0x80 ≡ n = omega arith in rw (is_tail_lem n h, not_zero more, e)

decode_last :
    (bits least n : ℕ) (s : List ℕ)
    → n < 64
    → least ≤ bits * 64 + n
    → IsScalar (bits * 64 + n)
    → decode_from 1 bits least ((0x80 + n) ∷ s)
      ≡ push_char true (bits * 64 + n) (decode_from 0 0 0 s)
unfolding decode_from
decode_last bits least n s h low scalar =
    let e : 0x80 + n - 0x80 ≡ n = omega arith in rw (is_tail_lem n h, e, le→leb least _ low, scalar)

decode_lead :
    (b more bits least : ℕ) (s : List ℕ)
    → lead b ≡ some (record { more = suc more; bits = bits; least = least })
    → decode_from 0 0 0 (b ∷ s) ≡ decode_from (suc more) bits least s
unfolding decode_from
decode_lead b more bits least s h = rw (h, decode_from) (rw (not_zero more))

decode_ascii :
    (c : ℕ) (s : List ℕ)
    → c < 0x80
    → decode_from 0 0 0 (c ∷ s) ≡ push_char true c (decode_from 0 0 0 s)
unfolding decode_from lead
decode_ascii c s h = ground arith

pub lead_two :
    (k : ℕ) → 2 ≤ k → k < 32 → lead (0xc0 + k) ≡ some (record { more = 1; bits = k; least = 0x80 })
unfolding lead
lead_two k h h' = ground arith

pub lead_three :
    (k : ℕ) → k < 16 → lead (0xe0 + k) ≡ some (record { more = 2; bits = k; least = 0x800 })
unfolding lead
lead_three k h = ground arith

pub lead_four :
    (k : ℕ) → k < 5 → lead (0xf0 + k) ≡ some (record { more = 3; bits = k; least = 0x10000 })
unfolding lead
lead_four k h = ground arith

decode_two :
    (c : ℕ) (s : List ℕ)
    → 0x80 ≤ c
    → c < 0x800
    → IsScalar c
    → decode_from 0 0 0 ((0xc0 + c / 64) ∷ (0x80 + c % 64) ∷ s)
      ≡ push_char true c (decode_from 0 0 0 s)
decode_two c s lo hi h =
    let e : c / 64 * 64 + c % 64 ≡ c = omega arith in
    decode_lead _ 0 _ _ _ (lead_two (c / 64) (omega arith) (omega arith))
    ∙ decode_last (c / 64) 0x80 (c % 64) s (omega arith) (omega arith) (rw e h)
    ∙ (rw e)

decode_three :
    (c : ℕ) (s : List ℕ)
    → 0x800 ≤ c
    → c < 0x10000
    → IsScalar c
    → decode_from 0 0 0 ((0xe0 + c / 4096) ∷ (0x80 + c / 64 % 64) ∷ (0x80 + c % 64) ∷ s)
      ≡ push_char true c (decode_from 0 0 0 s)
decode_three c s lo hi h =
    let e : (c / 4096 * 64 + c / 64 % 64) * 64 + c % 64 ≡ c = omega arith in
    decode_lead _ 1 _ _ _ (lead_three (c / 4096) (omega arith))
    ∙ decode_tail 0 (c / 4096) 0x800 (c / 64 % 64) _ (omega arith)
    ∙ decode_last _ 0x800 (c % 64) s (omega arith) (omega arith) (rw e h)
    ∙ (rw e)

decode_four :
    (c : ℕ) (s : List ℕ)
    → 0x10000 ≤ c
    → c < 0x110000
    → IsScalar c
    → decode_from 0 0 0
        ((0xf0 + c / 262144) ∷ (0x80 + c / 4096 % 64) ∷ (0x80 + c / 64 % 64) ∷ (0x80 + c % 64) ∷ s)
      ≡ push_char true c (decode_from 0 0 0 s)
decode_four c s lo hi h =
    let e : ((c / 262144 * 64 + c / 4096 % 64) * 64 + c / 64 % 64) * 64 + c % 64 ≡ c =
      omega arith in
    decode_lead _ 2 _ _ _ (lead_four (c / 262144) (omega arith))
    ∙ decode_tail 1 (c / 262144) 0x10000 (c / 4096 % 64) _ (omega arith)
    ∙ decode_tail 0 _ 0x10000 (c / 64 % 64) _ (omega arith)
    ∙ decode_last _ 0x10000 (c % 64) s (omega arith) (omega arith) (rw e h)
    ∙ (rw e)

decode-encode_char :
    (c : ℕ) (s : List ℕ)
    → IsScalar c
    → decode_from 0 0 0 (encode_char c ++ s) ≡ push_char true c (decode_from 0 0 0 s)
unfolding encode_char
decode-encode_char c s h = elim (Bool-cases (ltb c 0x80)) [
  | inl one ↦ rw one (decode_ascii c s (ltb→lt c _ one))
  | inr e ↦ elim (Bool-cases (ltb c 0x800)) [
    | inl two ↦ rw (e, two) (decode_two c s (ground arith) (ltb→lt c _ two) h)
    | inr e' ↦ elim (Bool-cases (ltb c 0x10000)) [
      | inl three ↦ rw (e, e', three) (decode_three c s (ground arith) (ltb→lt c _ three) h)
      | inr four ↦ rw (e, e', four) (decode_four c s (ground arith) (ground arith) h)
    ]
  ]
]

All-of_all : (s : List ℕ) → all is_scalar s ≡ true → All IsScalar s
All-of_all [] h = tt
All-of_all (c ∷ s) h = (ground arith, All-of_all s (ground arith))

-- Text without surrogates survives a round through its bytes.
pub decode-encode : (s : List ℕ) → All IsScalar s → decode (encode s) ≡ some s
unfolding decode encode
decode-encode [] h = refl
decode-encode (c ∷ s) (hc, hs) = decode-encode_char c (encode s) hc ∙ (rw (decode-encode s hs))

pub decode-encode_text : (s raw : List ℕ) → encode_text s ≡ ok raw → decode raw ≡ some s
unfolding encode_text
decode-encode_text s raw h = elim (Bool-cases (all is_scalar s)) [
  | inl t ↦ let e : encode s ≡ raw = ground arith in rw (← e) (decode-encode s (All-of_all s t))
  | inr f ↦ absurd (ground arith)
]

-- ASCII text is its own encoding.
abbrev pub is_ascii : ℕ → Bool
is_ascii c = ltb c 0x80

encode-ascii : (s : List ℕ) → all is_ascii s ≡ true → encode s ≡ s
unfolding encode
encode-ascii [] h = refl
encode-ascii (c ∷ s) h =
    let a : ltb c 0x80 ≡ true = ground arith in
    let b : all is_ascii s ≡ true = ground arith in rw (a, encode-ascii s b)

All-IsScalar : (s : List ℕ) → all is_ascii s ≡ true → All IsScalar s
All-IsScalar [] h = tt
All-IsScalar (c ∷ s) h =
    let a : ltb c 0x80 ≡ true = ground arith in
    let b : all is_ascii s ≡ true = ground arith in (ground arith, All-IsScalar s b)

pub decode-ascii : (s : List ℕ) → all is_ascii s ≡ true → decode s ≡ some s
decode-ascii s h = let d = decode-encode s (All-IsScalar s h) in rw (encode-ascii s h) at d

pub encode_text-eq-ok : (s b : List ℕ) → encode_text s ≡ ok b → b ≡ encode s
unfolding encode_text
encode_text-eq-ok s b h = elim (Bool-cases (all is_scalar s)) [
  | inl e ↦ let k = rw e at h in cc
  | inr e ↦ let k = rw e at h in cc
]

pub encode_text-IsScalar : (s b : List ℕ) → encode_text s ≡ ok b → All IsScalar s
unfolding encode_text
encode_text-IsScalar s b h = elim (Bool-cases (all is_scalar s)) [
  | inl e ↦ All-of_all s e
  | inr e ↦ absurd (ground arith)
]

pub encode-append : (s t : List ℕ) → encode (s ++ t) ≡ encode s ++ encode t
unfolding encode
encode-append [] t = refl
encode-append (c ∷ s) t =
    ap (λ (b : List ℕ). encode_char c ++ b) (encode-append s t)
    ∙ sym (append_assoc (encode_char c) (encode s) (encode t))
