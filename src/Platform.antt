-- ===== src/Platform.antt =====
-- What the scripts call and do not implement: the SHA-256 of `hashlib`, and NumPy's float32.
-- Each is a record of operations with the documented facts that the proofs use.
use leann_cpp.Prelude.{ℕ, ◌≡◌, Bool, List, length, All, Option}
use leann_cpp.Bytes.{Bytes, IsByte}

pub record Digest : Type 0 where
  pub sha256 : Bytes → Bytes
  pub length-sha256 : (b : Bytes) → length (sha256 b) ≡ 32
  pub sha256-IsByte : (b : Bytes) → All IsByte (sha256 b)

-- The scalars of a `<f4` array, with the tests that the scripts make on them.
pub record Float32 : Type 1 where
  pub Scalar : Type 0
  -- The four bytes of a scalar in `tobytes`, and the scalar that `memmap` reads there.
  pub to_bytes : Scalar → Bytes
  pub of_bytes : Bytes → Scalar
  pub is_finite : Scalar → Bool
  -- `np.linalg.norm` of a row
  pub norm : List Scalar → Scalar
  -- `norm <= np.finfo(np.float32).tiny`
  pub is_tiny : Scalar → Bool
  -- `abs(norm - 1.0) > unit_tolerance`, at the default tolerance
  pub is_off_unit : Scalar → Bool
  pub divide : Scalar → Scalar → Scalar
  pub length-to_bytes : (x : Scalar) → length (to_bytes x) ≡ 4
  pub of_bytes-to_bytes : (x : Scalar) → of_bytes (to_bytes x) ≡ x

-- A file system without directories: what stands under each name.
abbrev pub Disk : Type 0
Disk = List ℕ → Option Bytes
