-- ===== src/Bytes/Struct.antt =====
-- Little-endian unsigned fields, as `struct.Struct("<…")` packs and unpacks them
-- (scripts/benchmark_cache.py, `V1_FIXED` and `V2_FIXED`).
use leann_cpp.Prelude.{
  ℕ, zero, suc, ◌+◌, ◌*◌, ◌/◌, ◌%◌, ◌^◌, ◌<◌, ◌≡◌, refl, ap, List, [], ◌∷◌, arith, length, All,
  Result, ok, err, overflow_error, ltb, if◌then◌else◌,
}
use native.Mathlib.Nat.{pow-suc}

-- The `width` bytes of `v`, the least significant first.
unfoldable pub le_bytes : ℕ → ℕ → List ℕ
le_bytes zero v = []
le_bytes (suc width) v = (v % 256) ∷ le_bytes width (v / 256)

unfoldable pub from_le_bytes : List ℕ → ℕ
from_le_bytes [] = 0
from_le_bytes (b ∷ bs) = b + 256 * from_le_bytes bs

-- `struct.error` for a value that the field does not hold.
unfoldable pub pack_field : ℕ → ℕ → Result (List ℕ)
pack_field width v =
    if ltb v (256 ^ width)
    then ok (le_bytes width v)
    else err (overflow_error "struct.error: argument out of range")

pub length-le_bytes : (width v : ℕ) → length (le_bytes width v) ≡ width
unfolding le_bytes
length-le_bytes zero v = refl
length-le_bytes (suc width) v = ap suc (length-le_bytes width (v / 256))

pub le_bytes-IsByte : (width v : ℕ) → All (λ b. b < 256) (le_bytes width v)
unfolding le_bytes
le_bytes-IsByte zero v = tt
le_bytes-IsByte (suc width) v = (omega arith, le_bytes-IsByte width (v / 256))

pub from_le_bytes-le_bytes : (width v : ℕ) → v < 256 ^ width → from_le_bytes (le_bytes width v) ≡ v
unfolding from_le_bytes le_bytes
from_le_bytes-le_bytes zero v h = omega arith
from_le_bytes-le_bytes (suc width) v h =
    omega (arith, from_le_bytes-le_bytes width (v / 256) (shorter width v h))
  where
    shorter : (w n : ℕ) → n < 256 ^ suc w → n / 256 < 256 ^ w
    shorter w n lt = let e : 256 ^ suc w ≡ 256 ^ w * 256 = pow-suc 256 w in omega (arith, e)

pub le_bytes-from_le_bytes :
    (bs : List ℕ) → All (λ b. b < 256) bs → le_bytes (length bs) (from_le_bytes bs) ≡ bs
unfolding from_le_bytes le_bytes
le_bytes-from_le_bytes [] h = refl
le_bytes-from_le_bytes (b ∷ bs) (hb, hbs) =
    let low : (b + 256 * from_le_bytes bs) % 256 ≡ b = omega arith in
    let high : (b + 256 * from_le_bytes bs) / 256 ≡ from_le_bytes bs = omega arith in
    rw (low, high, le_bytes-from_le_bytes bs hbs)

pub from_le_bytes-lt : (bs : List ℕ) → All (λ b. b < 256) bs → from_le_bytes bs < 256 ^ length bs
unfolding from_le_bytes
from_le_bytes-lt [] h = omega arith
from_le_bytes-lt (b ∷ bs) (hb, hbs) =
    omega (arith, from_le_bytes-lt bs hbs, pow-suc 256 (length bs))
