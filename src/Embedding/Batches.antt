-- ===== src/Embedding/Batches.antt =====
-- `_iter_batches` and `_iter_embedded_batches` of scripts/run_large_scale_benchmark.py.
use leann_cpp.Prelude.{
  ℕ, zero, suc, ◌-◌, ◌≤◌, ◌<◌, ◌≡◌, refl, ap, sym, ◌∙◌, true, false, List, [], ◌∷◌, ◌++◌,
  append_assoc, append-nil, length, length-append, drop, ltb, leb, ◌==◌, if◌then◌else◌, arith,
  Bool-cases, inl, inr,
}
use leann_cpp.Bytes.{Text}

abbrev pub last_batch : List Text → List (List Text)
last_batch [] = []
last_batch (t ∷ batch) = (t ∷ batch) ∷ []

-- The loop over the lines from the one with this index on.
unfoldable pub batches_from : ℕ → ℕ → ℕ → List Text → List Text → List (List Text)
batches_from index start batch_size batch [] = last_batch batch
batches_from index start batch_size batch (line ∷ lines) = elim (ltb index start) [
  | true ↦ batches_from (suc index) start batch_size batch lines
  | false ↦ elim (length (batch ++ line ∷ []) == batch_size) [
    | true ↦ (batch ++ line ∷ []) ∷ batches_from (suc index) start batch_size [] lines
    | false ↦ batches_from (suc index) start batch_size (batch ++ line ∷ []) lines
  ]
]

unfoldable pub iter_batches : List Text → ℕ → ℕ → List (List Text)
iter_batches lines start batch_size = batches_from 0 start batch_size [] lines

abbrev pub concat : List (List Text) → List Text
concat [] = []
concat (b ∷ bs) = b ++ concat bs

module _ {A : Type 0} where
  -- `pending.popleft()` once this has been appended, and what stays.
  abbrev pub oldest : List A → A → A
  oldest [] x = x
  oldest (y ∷ ys) x = y

  abbrev pub later : List A → A → List A
  later [] x = []
  later (y ∷ ys) x = ys ++ x ∷ []

module _ {A : Type 0} (embed : List Text → A) where
  -- With requests ahead: a batch is submitted, and when as many are pending as may run at once, the
  -- oldest is waited for. What comes of a batch does not depend on when it is waited for.
  unfoldable pub ahead : ℕ → List (List Text × A) → List (List Text) → List (List Text × A)
  ahead concurrency pending [] = pending
  ahead concurrency pending (texts ∷ batches) =
      let submitted : List Text × A = (texts, embed texts) in
      elim (leb concurrency (suc (length pending))) [
        | true ↦ oldest pending submitted ∷ ahead concurrency (later pending submitted) batches
        | false ↦ ahead concurrency (pending ++ submitted ∷ []) batches
      ]

  abbrev pub one_by_one : List (List Text) → List (List Text × A)
  one_by_one [] = []
  one_by_one (texts ∷ batches) = (texts, embed texts) ∷ one_by_one batches

  -- What is yielded, in order.
  unfoldable pub iter_embedded_batches : ℕ → List (List Text) → List (List Text × A)
  iter_embedded_batches concurrency batches =
      if leb concurrency 1 then one_by_one batches else ahead concurrency [] batches

  ahead_lem :
      (concurrency : ℕ) (pending : List (List Text × A)) (batches : List (List Text))
      → ahead concurrency pending batches ≡ pending ++ one_by_one batches
  unfolding ahead
  ahead_lem c pending [] = sym (append-nil pending)
  ahead_lem c [] (texts ∷ batches) = elim (Bool-cases (leb c 1)) [
    | inl e ↦
        rw (e, ahead)
          (ap (λ (l : List (List Text × A)). (texts, embed texts) ∷ l) (ahead_lem c [] batches))
    | inr e ↦ rw (e, ahead) (ahead_lem c ((texts, embed texts) ∷ []) batches)
  ]
  ahead_lem c (p ∷ pending) (texts ∷ batches) =
      let x : List Text × A = (texts, embed texts) in
      let again = append_assoc pending (x ∷ []) (one_by_one batches) in
      elim (Bool-cases (leb c (suc (suc (length pending))))) [
        | inl e ↦
            rw (e, ahead)
              (ap (λ (l : List (List Text × A)). p ∷ l)
                (ahead_lem c (pending ++ x ∷ []) batches ∙ again))
        | inr e ↦
            rw (e, ahead)
              (ahead_lem c (p ∷ pending ++ x ∷ []) batches
                ∙ ap (λ (l : List (List Text × A)). p ∷ l) again)
      ]

  -- However many requests run ahead, the same batches are yielded in the same order, each with what
  -- was computed for it.
  pub iter_embedded_batches_lem :
      (concurrency : ℕ) (batches : List (List Text))
      → iter_embedded_batches concurrency batches ≡ one_by_one batches
  unfolding iter_embedded_batches
  iter_embedded_batches_lem c batches = elim (Bool-cases (leb c 1)) [
    | inl e ↦ rw e refl
    | inr e ↦ rw e (ahead_lem c [] batches)
  ]

concat-batches_from :
    (index start batch_size : ℕ) (batch lines : List Text)
    → concat (batches_from index start batch_size batch lines) ≡ batch ++ drop (start - index) lines
unfolding batches_from
concat-batches_from index start n batch [] = last_lem batch (start - index)
  where
    last_lem : (batch : List Text) (k : ℕ) → concat (last_batch batch) ≡ batch ++ drop k []
    last_lem [] zero = refl
    last_lem [] (suc k) = refl
    last_lem (t ∷ b) zero = refl
    last_lem (t ∷ b) (suc k) = refl
concat-batches_from index start n batch (line ∷ lines) = elim (Bool-cases (ltb index start)) [
  | inl e ↦
      let k : start - index ≡ suc (start - suc index) = ground arith in
      rw (e, k, batches_from) (concat-batches_from (suc index) start n batch lines)
  | inr e ↦
      let k : start - index ≡ 0 = ground arith in
      let k' : start - suc index ≡ 0 = ground arith in
      elim (Bool-cases (length (batch ++ line ∷ []) == n)) [
        | inl f ↦
            rw (e, f, k, batches_from)
              (ap (λ (l : List Text). (batch ++ line ∷ []) ++ l)
                  (concat-batches_from (suc index) start n [] lines ∙ rw k' refl)
                ∙ append_assoc batch (line ∷ []) lines)
        | inr f ↦
            rw (e, f, k, batches_from)
              (concat-batches_from (suc index) start n (batch ++ line ∷ []) lines
                ∙ rw k' (append_assoc batch (line ∷ []) lines))
      ]
]

-- Batches of `n` lines, and a last one of at most as many.
abbrev pub AreBatches : ℕ → List (List Text) → Type 0
AreBatches n [] = Unit
AreBatches n (b ∷ []) = (0 < length b) × (length b ≤ n)
AreBatches n (b ∷ c ∷ bs) = (length b ≡ n) × AreBatches n (c ∷ bs)

AreBatches-∷ :
    (n : ℕ) (b : List Text) (bs : List (List Text))
    → 0 < n
    → length b ≡ n
    → AreBatches n bs
    → AreBatches n (b ∷ bs)
AreBatches-∷ n b [] h e k = (omega arith, omega arith)
AreBatches-∷ n b (c ∷ bs) h e k = (e, k)

batches_from-AreBatches :
    (index start n : ℕ) (batch lines : List Text)
    → length batch < n
    → AreBatches n (batches_from index start n batch lines)
unfolding batches_from
batches_from-AreBatches index start n [] [] h = tt
batches_from-AreBatches index start n (t ∷ batch) [] h = (omega arith, omega arith)
batches_from-AreBatches index start n batch (line ∷ lines) h =
    let l = length-append batch (line ∷ []) in
    elim (Bool-cases (ltb index start)) [
      | inl e ↦ rw (e, batches_from) (batches_from-AreBatches (suc index) start n batch lines h)
      | inr e ↦ elim (Bool-cases (length (batch ++ line ∷ []) == n)) [
        | inl f ↦
            rw (e, f, batches_from)
              (AreBatches-∷ n (batch ++ line ∷ []) (batches_from (suc index) start n [] lines)
                (omega arith) (ground arith)
                (batches_from-AreBatches (suc index) start n [] lines (omega arith)))
        | inr f ↦
            rw (e, f, batches_from)
              (batches_from-AreBatches (suc index) start n (batch ++ line ∷ []) lines
                (ground (arith, l, h)))
      ]
    ]

-- With a positive batch size, the batches are the lines from the given one on, in their order, in
-- batches of that size but for the last, which is not empty and not larger.
pub iter_batches_lem :
    (lines : List Text) (start batch_size : ℕ)
    → 0 < batch_size
    → (concat (iter_batches lines start batch_size) ≡ drop start lines)
      × AreBatches batch_size (iter_batches lines start batch_size)
unfolding iter_batches
iter_batches_lem lines start n h =
    let e : start - 0 ≡ start = omega arith in
    (
      concat-batches_from 0 start n [] lines ∙ ap (λ (k : ℕ). drop k lines) e,
      batches_from-AreBatches 0 start n [] lines h,
    )
