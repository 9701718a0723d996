-- ===== src/Bytes/Hex.antt =====
-- `bytes.hex`, `hexdigest` and `bytes.fromhex` over the code points of ASCII text.
use leann_cpp.Prelude.{
  ℕ, ◌+◌, ◌-◌, ◌*◌, ◌/◌, ◌%◌, ◌<◌, ◌≡◌, refl, Bool, false, ◌&&◌, ◌||◌, Option, none, some, List, [],
  ◌∷◌, arith, All, ltb, leb, ◌==◌, if◌then◌else◌,
}

hex_digit : ℕ → ℕ
hex_digit n = if ltb n 10 then b'0' + n else b'a' + (n - 10)

unfoldable pub hex : List ℕ → List ℕ
unfolding hex_digit
hex [] = []
hex (b ∷ bs) = hex_digit (b / 16) ∷ hex_digit (b % 16) ∷ hex bs

hex_value : ℕ → Option ℕ
hex_value c =
    if leb b'0' c && leb c b'9'
    then some (c - b'0')
    else if leb b'a' c && leb c b'f'
    then some (c - b'a' + 10)
    else if leb b'A' c && leb c b'F'
    then some (c - b'A' + 10)
    else none

-- `bytes.fromhex` skips ASCII white space between two bytes.
abbrev is_ascii_space : ℕ → Bool
is_ascii_space c = (leb 9 c && leb c 13) || c == 32

abbrev push_byte : Option ℕ → Option ℕ → Option (List ℕ) → Option (List ℕ)
push_byte (some high) (some low) (some rest) = some ((high * 16 + low) ∷ rest)
push_byte _ _ _ = none

unfoldable pub from_hex : List ℕ → Option (List ℕ)
unfolding hex_value
from_hex [] = some []
from_hex (a ∷ []) = if is_ascii_space a then some [] else none
from_hex (a ∷ b ∷ s) =
    let skipped = from_hex (b ∷ s) in
    let rest = from_hex s in
    if is_ascii_space a then skipped else push_byte (hex_value a) (hex_value b) rest

hex_value-hex_digit : (n : ℕ) → n < 16 → hex_value (hex_digit n) ≡ some n
unfolding hex_value hex_digit
hex_value-hex_digit n h = ground arith

hex_digit-not_space : (n : ℕ) → n < 16 → is_ascii_space (hex_digit n) ≡ false
unfolding hex_digit
hex_digit-not_space n h = ground arith

pub from_hex-hex : (bs : List ℕ) → All (λ b. b < 256) bs → from_hex (hex bs) ≡ some bs
unfolding from_hex hex
from_hex-hex [] h = refl
from_hex-hex (b ∷ bs) (hb, hbs) = ground (
  arith,
  hex_value-hex_digit (b / 16),
  hex_value-hex_digit (b % 16),
  hex_digit-not_space (b / 16),
  from_hex-hex bs hbs,
)
