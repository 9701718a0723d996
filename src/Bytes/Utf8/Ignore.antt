-- ===== src/Bytes/Utf8/Ignore.antt =====
-- `bytes.decode("utf-8", errors="ignore")`, and what it makes of encoded text that is cut off.
use leann_cpp.Prelude.{
  ℕ, zero, suc, ◌+◌, ◌-◌, ◌*◌, ◌/◌, ◌%◌, ◌<◌, ◌≤◌, ◌≡◌, refl, ◌∙◌, Bool, true, false, ◌&&◌, Option,
  none, some, List, [], ◌∷◌, arith, length, take, ltb, leb, ◌==◌, if◌then◌else◌, le→leb,
}
use leann_cpp.Bytes.Utf8.{
  is_scalar, IsScalar, Lead, lead, is_tail, is_tail_lem, not_zero, lead_two, lead_three, lead_four,
}

abbrev pub push_if : Bool → ℕ → List ℕ → List ℕ
push_if true c s = c ∷ s
push_if false c s = s

-- A byte where a character begins, by what is made of the rest: after a whole character, and
-- within the one that the byte begins.
abbrev pub begin_char : Option Lead → List ℕ → (ℕ → ℕ → ℕ → List ℕ) → List ℕ
begin_char none plain within = plain
begin_char (some l) plain within =
    if l.more == 0 then l.bits ∷ plain else within l.more l.bits l.least

-- A character that is cut off or ill-formed is left out; a byte that does not belong to it begins
-- the next.
unfoldable pub ignore_from : ℕ → ℕ → ℕ → List ℕ → List ℕ
ignore_from more bits least [] = []
ignore_from zero bits least (b ∷ s) =
    begin_char (lead b) (ignore_from 0 0 0 s) (λ m n l. ignore_from m n l s)
ignore_from (suc more) bits least (b ∷ s) =
    let c = bits * 64 + (b - 0x80) in
    let closed = push_if (leb least c && is_scalar c) c (ignore_from 0 0 0 s) in
    let longer = ignore_from more c least s in
    let anew = begin_char (lead b) (ignore_from 0 0 0 s) (λ m n l. ignore_from m n l s) in
    if is_tail b then (if more == 0 then closed else longer) else anew

unfoldable pub decode_ignore : List ℕ → List ℕ
decode_ignore = ignore_from 0 0 0

pub ignore_nil : (more bits least : ℕ) → ignore_from more bits least [] ≡ []
unfolding ignore_from
ignore_nil zero bits least = refl
ignore_nil (suc more) bits least = refl

pub ignore_tail :
    (more bits least n : ℕ) (s : List ℕ)
    → n < 64
    → ignore_from (suc (suc more)) bits least ((0x80 + n) ∷ s)
      ≡ ignore_from (suc more) (bits * 64 + n) least s
unfolding ignore_from
ignore_tail more bits least n s h =
    let e : 0x80 + n - 0x80 ≡ n = omega arith in rw (is_tail_lem n h, not_zero more, e) refl

pub ignore_last :
    (bits least n : ℕ) (s : List ℕ)
    → n < 64
    → least ≤ bits * 64 + n
    → IsScalar (bits * 64 + n)
    → ignore_from 1 bits least ((0x80 + n) ∷ s) ≡ (bits * 64 + n) ∷ ignore_from 0 0 0 s
unfolding ignore_from
ignore_last bits least n s h low scalar =
    let e : 0x80 + n - 0x80 ≡ n = omega arith in
    rw (is_tail_lem n h, e, le→leb least _ low, scalar) refl

pub ignore_lead :
    (b more bits least : ℕ) (s : List ℕ)
    → lead b ≡ some (record { more = suc more; bits = bits; least = least })
    → ignore_from 0 0 0 (b ∷ s) ≡ ignore_from (suc more) bits least s
unfolding ignore_from
ignore_lead b more bits least s h = rw (h, not_zero more) refl

pub ignore_ascii :
    (c : ℕ) (s : List ℕ) → c < 0x80 → ignore_from 0 0 0 (c ∷ s) ≡ c ∷ ignore_from 0 0 0 s
unfolding ignore_from lead
ignore_ascii c s h = let e : ltb c 0x80 ≡ true = ground arith in rw e refl

-- A character of more than one byte, with only some of its bytes before the end.
abbrev pub Begins : List ℕ → Type 0
Begins bytes = (n : ℕ) → n < length bytes → ignore_from 0 0 0 (take n bytes) ≡ []

pub two-Begins : (c : ℕ) → 0x80 ≤ c → c < 0x800 → Begins ((0xc0 + c / 64) ∷ (0x80 + c % 64) ∷ [])
two-Begins c lo hi zero h = ignore_nil 0 0 0
two-Begins c lo hi (suc zero) h =
    ignore_lead _ 0 _ _ _ (lead_two (c / 64) (omega arith) (omega arith)) ∙ ignore_nil 1 _ _
two-Begins c lo hi (suc (suc n)) h = absurd (omega arith)

pub three-Begins :
    (c : ℕ) → c < 0x10000 → Begins ((0xe0 + c / 4096) ∷ (0x80 + c / 64 % 64) ∷ (0x80 + c % 64) ∷ [])
three-Begins c hi zero h = ignore_nil 0 0 0
three-Begins c hi (suc zero) h =
    ignore_lead _ 1 _ _ _ (lead_three (c / 4096) (omega arith)) ∙ ignore_nil 2 _ _
three-Begins c hi (suc (suc zero)) h =
    ignore_lead _ 1 _ _ _ (lead_three (c / 4096) (omega arith))
    ∙ ignore_tail 0 (c / 4096) 0x800 (c / 64 % 64) _ (omega arith)
    ∙ ignore_nil 1 _ _
three-Begins c hi (suc (suc (suc n))) h = absurd (omega arith)

pub four-Begins :
    (c : ℕ)
    → c < 0x110000
    → Begins
        ((0xf0 + c / 262144) ∷ (0x80 + c / 4096 % 64) ∷ (0x80 + c / 64 % 64) ∷ (0x80 + c % 64) ∷ [])
four-Begins c hi zero h = ignore_nil 0 0 0
four-Begins c hi (suc zero) h =
    ignore_lead _ 2 _ _ _ (lead_four (c / 262144) (omega arith)) ∙ ignore_nil 3 _ _
four-Begins c hi (suc (suc zero)) h =
    ignore_lead _ 2 _ _ _ (lead_four (c / 262144) (omega arith))
    ∙ ignore_tail 1 (c / 262144) 0x10000 (c / 4096 % 64) _ (omega arith)
    ∙ ignore_nil 2 _ _
four-Begins c hi (suc (suc (suc zero))) h =
    ignore_lead _ 2 _ _ _ (lead_four (c / 262144) (omega arith))
    ∙ ignore_tail 1 (c / 262144) 0x10000 (c / 4096 % 64) _ (omega arith)
    ∙ ignore_tail 0 _ 0x10000 (c / 64 % 64) _ (omega arith)
    ∙ ignore_nil 1 _ _
four-Begins c hi (suc (suc (suc (suc n)))) h = absurd (omega arith)
