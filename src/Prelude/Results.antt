-- ===== src/Prelude/Results.antt =====
-- Code that raises returns a `Result`. An error keeps the exception's class and the fixed words of
-- its message; what the message interpolates (paths, numbers) is left out.
use Prim.Native.String.{String}
use mathlib.Core.Path.{◌≡◌, refl}
use mathlib.Core.Bool.{Bool, true, false}

pub data Error : Type 0 where
  value_error runtime_error decode_error os_error overflow_error key_error : String → Error

pub data Result {u} (T : Type u) : Type u where
  err : Error → Result T
  ok : T → Result T

-- A `do` block stops at the first exception.
infixl 5 ◌>>=◌ ◌>>◌
abbrev pub ◌>>=◌ {u v} : {S : Type u} {T : Type v} → Result S → (S → Result T) → Result T
err raised >>= next = err raised
ok value >>= next = next value

abbrev pub ◌>>◌ {v} : {T : Type v} → Result (Unit {0}) → Result T → Result T
check >> rest = check >>= λ done. rest

-- `if failed: raise …`
abbrev pub raise_if : Bool → Error → Result (Unit {0})
raise_if true e = err e
raise_if false e = ok tt

-- A block that returned ran each of its parts.
pub >>=-eq-ok {u v} :
    {S : Type u} {T : Type v} (first : Result S) (next : S → Result T) {out : T}
    → (first >>= next) ≡ ok out
    → (value : S) × (first ≡ ok value) × (next value ≡ ok out)
>>=-eq-ok (err raised) next returned = cc
>>=-eq-ok (ok value) next returned = (value, refl, returned)

-- A guard that let the rest run did not fail.
pub raise_if-eq-ok {v} :
    {T : Type v} (failed : Bool) (e : Error) (rest : Result T) {out : T}
    → (raise_if failed e >> rest) ≡ ok out
    → (failed ≡ false) × (rest ≡ ok out)
raise_if-eq-ok false e rest returned = (refl, returned)
raise_if-eq-ok true e rest returned = cc

pub ok-injective {ℓ} : {A : Type ℓ} (a b : A) → ◌≡◌ {A = Result A} (ok a) (ok b) → a ≡ b
ok-injective a b h = cc
