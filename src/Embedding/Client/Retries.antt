-- ===== src/Embedding/Client/Retries.antt =====
-- What `EmbeddingClient.embed` returns, after how many attempts.
use leann_cpp.Prelude.{
  ℕ, zero, suc, ◌+◌, ◌≤◌, ◌<◌, ◌≡◌, ◌⊎◌, inl, inr, refl, subst, true, false, Option, none, some,
  List, length, arith, ◌==◌, Bool-cases, ok, value_error, raise_if-eq-ok,
}
use leann_cpp.Bytes.{Text}
use leann_cpp.Platform.{Float32}
use leann_cpp.Cache.Matrix.{Matrix}
use leann_cpp.Embedding.Client.{
  Item, Attempt, response, http_error, network_error, read_response, is_retryable, attempts, embed,
}
use leann_cpp.Embedding.Client.Laws.{IsEmbedding, read_response-IsEmbedding}

module _ (F : Float32) where
  open F use {Scalar}

  -- A failure after which the client tries again.
  abbrev pub IsRetried : Attempt F → Type 0
  IsRetried (response payload) = ⊥
  IsRetried (http_error code) = is_retryable F code ≡ true
  IsRetried network_error = Unit

  -- The attempt that is answered, not before `first` nor after `last`.
  abbrev IsAnswered : (ℕ → Attempt F) → ℕ → ℕ → ℕ → Option ℕ → Matrix Scalar → Type 0
  IsAnswered answer first last count expected m =
      (n : ℕ) × (first ≤ n)
      × (n ≤ last)
      × ((i : ℕ) → first ≤ i → i < n → IsRetried (answer i))
      × (items : List (Item F)) × (answer n ≡ response (some items))
      × IsEmbedding F count expected items m

  IsAnswered-here :
      (answer : ℕ → Attempt F) (attempt last count : ℕ) (expected : Option ℕ) (m : Matrix Scalar)
      (payload : Option (List (Item F)))
      → attempt ≤ last
      → answer attempt ≡ response payload
      → read_response F count expected payload ≡ ok m
      → IsAnswered answer attempt last count expected m
  unfolding read_response
  IsAnswered-here answer k last count expected m none le e h = cc
  IsAnswered-here answer k last count expected m (some items) le e h = (
    k,
    omega arith,
    le,
    λ i a b. absurd (omega arith),
    items,
    e,
    read_response-IsEmbedding F count expected items m h,
  )

  IsAnswered-later :
      (answer : ℕ → Attempt F) (attempt last count : ℕ) (expected : Option ℕ) (m : Matrix Scalar)
      → IsRetried (answer attempt)
      → IsAnswered answer (suc attempt) last count expected m
      → IsAnswered answer attempt last count expected m
  IsAnswered-later answer k last count expected m failed (n, lo, hi, before, items, e, good) =
      (n, omega arith, hi, λ i a b. at_or_after i a b (Bool-cases (i == k)), items, e, good)
    where
      at_or_after :
          (i : ℕ) → k ≤ i → i < n → ((i == k) ≡ true) ⊎ ((i == k) ≡ false) → IsRetried (answer i)
      at_or_after i a b (inl same) =
          let e : k ≡ i = ground arith in subst (λ (j : ℕ). IsRetried (answer j)) e failed
      at_or_after i a b (inr differs) = before i (ground arith) b

  attempts-IsAnswered :
      (answer : ℕ → Attempt F) (count : ℕ) (expected : Option ℕ) (attempt left : ℕ)
      (m : Matrix Scalar)
      → attempts F answer count expected attempt left ≡ ok m
      → IsAnswered answer attempt (attempt + left) count expected m
  unfolding attempts
  attempts-IsAnswered answer count expected k zero m h = by_answer (answer k) refl
    where
      by_answer : (a : Attempt F) → answer k ≡ a → IsAnswered answer k (k + zero) count expected m
      by_answer (response payload) e =
          IsAnswered-here answer k (k + zero) count expected m payload (omega arith) e
            (rw (e, attempts) at h)
      by_answer (http_error code) e = absurd (cc (rw (e, attempts) at h))
      by_answer network_error e = absurd (cc (rw (e, attempts) at h))
  attempts-IsAnswered answer count expected k (suc left) m h =
      by_answer (λ h'. attempts-IsAnswered answer count expected (suc k) left m h') (answer k) refl
    where
      Later : Type 0
      Later =
          attempts F answer count expected (suc k) left ≡ ok m
          → IsAnswered answer (suc k) (suc k + left) count expected m

      again :
          Later
          → IsRetried (answer k)
          → attempts F answer count expected (suc k) left ≡ ok m
          → IsAnswered answer k (k + suc left) count expected m
      again later failed h' =
          let e : suc k + left ≡ k + suc left = omega arith in
          IsAnswered-later answer k (k + suc left) count expected m failed
            (subst (λ (last : ℕ). IsAnswered answer (suc k) last count expected m) e (later h'))

      by_code :
          Later
          → (code : ℕ) → answer k ≡ http_error code
          → (is_retryable F code ≡ true) ⊎ (is_retryable F code ≡ false)
          → IsAnswered answer k (k + suc left) count expected m
      by_code later code e (inl r) = again later (rw e r) (rw (e, r, attempts) at h)
      by_code later code e (inr r) = absurd (cc (rw (e, r, attempts) at h))

      by_answer :
          Later
          → (a : Attempt F) → answer k ≡ a
          → IsAnswered answer k (k + suc left) count expected m
      by_answer later (response payload) e =
          IsAnswered-here answer k (k + suc left) count expected m payload (omega arith) e
            (rw (e, attempts) at h)
      by_answer later (http_error code) e = by_code later code e (Bool-cases (is_retryable F code))
      by_answer later network_error e = again later (rw e tt) (rw (e, attempts) at h)

  -- If `embed` returns, one of the attempts, not later than the retries allow, was a response with a
  -- list of items, and what is returned is an embedding of it: a validated matrix of as many rows as
  -- texts, of the expected dimension if there is one, each row the scaled vector of the item with its
  -- index. The attempts before it failed in a way that is tried again.
  pub embed-IsEmbedding :
      (answer : ℕ → Attempt F) (retries : ℕ) (texts : List Text) (expected : Option ℕ)
      (m : Matrix Scalar)
      → embed F answer retries texts expected ≡ ok m
      → (n : ℕ) × (n ≤ retries)
        × ((i : ℕ) → i < n → IsRetried (answer i))
        × (items : List (Item F)) × (answer n ≡ response (some items))
        × IsEmbedding F (length texts) expected items m
  unfolding embed
  embed-IsEmbedding answer retries texts expected m h =
      let (t, h1) =
        raise_if-eq-ok (length texts == 0) (value_error "cannot request an empty embedding batch") _
          h in
      let (n, lo, hi, before, items, e, good) =
        attempts-IsAnswered answer (length texts) expected 0 retries m h1 in
      (n, omega arith, λ i b. before i (omega arith) b, items, e, good)
