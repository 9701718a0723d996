-- ===== src/Writes.antt =====
-- Calls that write files one after the other and may be stopped after any write.
use leann_cpp.Prelude.{
  ℕ, zero, suc, ◌≡◌, subst, some, List, [], ◌∷◌, ◌++◌, take, All, last_or, Error, Result, ok, err,
}
use leann_cpp.Bytes.{Bytes}

-- The files after each write of a call, and how the call ends.
pub record Run (S A : Type 0) : Type 0 where
  pub states : List S
  pub result : Result A

module _ {S A : Type 0} where
  abbrev pub stopped : Error → Run S A
  stopped e = record { states = []; result = err e }

  unfoldable pub after_states : List S → Run S A → Run S A
  after_states states run = record run { states = states ++ run.states }

  -- An error ends the call.
  unfoldable pub and_then {ℓ} : {B : Type ℓ} → Result B → (B → Run S A) → Run S A
  and_then (err e) next = stopped e
  and_then (ok b) next = next b

-- What a file that is written from `before` on holds after each byte of `payload`.
abbrev pub growing : Bytes → Bytes → List Bytes
growing before [] = []
growing before (b ∷ payload) = (before ++ b ∷ []) ∷ growing (before ++ b ∷ []) payload

module _ {S A C : Type 0} (run : C → S → Run S A) where
  -- A call that is stopped after `n` of its writes, or runs to its end.
  pub data Step (f g : S) : Type 0 where
    call : (c : C) (n : ℕ) → some g ≡ last_or (some f) (take n (run c f).states) → Step f g

  pub data Reach (f : S) : S → Type 0 where
    here : Reach f f
    next : {g h : S} → Reach f g → Step g h → Reach f h

  last-All :
      (P : S → Type 0) (f g : S) (n : ℕ) (l : List S)
      → P f
      → All P l
      → some g ≡ last_or (some f) (take n l)
      → P g
  last-All P f g zero l h a e = let same : f ≡ g = cc e in subst P same h
  last-All P f g (suc n) [] h a e = let same : f ≡ g = cc e in subst P same h
  last-All P f g (suc n) (x ∷ l) h (b, a) e = last-All P x g n l b a e

  -- What holds at the beginning and after each write of a call that began with it always holds.
  pub Reach-All :
      (P : S → Type 0)
      → ((c : C) (f : S) → P f → All P (run c f).states)
      → {f g : S} → P f
      → Reach f g
      → P g
  Reach-All P keep h here = h
  Reach-All P keep h (next {g} r (call c n e)) =
      let p = Reach-All P keep h r in last-All P g _ n (run c g).states p (keep c g p) e
