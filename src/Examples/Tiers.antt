-- ===== src/Examples/Tiers.antt =====
-- A tier of one document and a tier of two.
use leann_cpp.Prelude.{◌≡◌, ◌↔◌, refl, [], ◌∷◌, ◌++◌, ok}
use leann_cpp.Bytes.{Bytes}
use leann_cpp.Prepare.{byte_lines, verify_prefix}
use leann_cpp.Prepare.Laws.{verify_prefix_iff}

abbrev small : Bytes
small = b'a' ∷ 10 ∷ []

abbrev large : Bytes
large = b'a' ∷ 10 ∷ b'b' ∷ 10 ∷ []

verify_prefix_example :
    (verify_prefix small large ≡ ok tt) ↔ ((rest : Bytes) × (large ≡ small ++ rest))
verify_prefix_example = verify_prefix_iff small large refl

small_passes : verify_prefix small large ≡ ok tt
unfolding verify_prefix byte_lines
small_passes = refl
