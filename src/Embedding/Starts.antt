-- ===== src/Embedding/Starts.antt =====
-- How a call begins, and what it writes from there on.
use leann_cpp.Prelude.{
  ℕ, ◌+◌, ◌≤◌, ◌<◌, ◌≡◌, ◌≢◌, ◌⊎◌, inl, inr, refl, ap, sym, subst, ◌∙◌, false, Option, none, some,
  List, [], ◌∷◌, append-nil, map, length, length-append, length-drop, All, All-append, arith,
  Result, ok-injective, ok,
}
use leann_cpp.Bytes.{Bytes, Text}
use leann_cpp.Writes.{growing}
use leann_cpp.Cache.Matrix.{Matrix}
use leann_cpp.Cache.Write.{matrix_bytes}
use leann_cpp.Generate.{is_blank}
use leann_cpp.Embedding.{Status, running, Checkpoint, Files, Setting}
use leann_cpp.Embedding.Plan.{Call, Plan, running_checkpoint, unpublished}
use leann_cpp.Embedding.Generate.{
  write_batches, write_rest, start_partial, begin_known, begin_unknown, begin, request,
}
use leann_cpp.Embedding.Batches.{
  one_by_one, concat, iter_batches, iter_embedded_batches_lem, iter_batches_lem, AreBatches,
}
use leann_cpp.Embedding.Rows.{
  IsFit, length-lines, read_inputs-eq-ok, AreRows, HasDimension, request-AreRows,
}
use leann_cpp.Embedding.Phases.{
  header_size, plan_at, file_of, checkpoint_of, bare, IsGood, Outcome, and_then-Outcome,
  after_states-Outcome, torn-IsGood, committed-IsGood,
}
use leann_cpp.Embedding.Calls.{Answers, Batch, IsEmbedded, count_texts, write_batches-Outcome}

filled : (b : List Text) → 0 < length b → b ≢ []
filled [] h = absurd (omega arith)
filled (t ∷ b) h = λ e. cc

-- No batch is empty or too large.
abbrev AreFilled : ℕ → List (List Text) → Type 0
AreFilled n bs = All (λ texts. (texts ≢ []) × (length texts ≤ n)) bs

AreBatches-AreFilled : (n : ℕ) (bs : List (List Text)) → 0 < n → AreBatches n bs → AreFilled n bs
AreBatches-AreFilled n [] h a = tt
AreBatches-AreFilled n (b ∷ []) h (some_text, short) = ((filled b some_text, short), tt)
AreBatches-AreFilled n (b ∷ c ∷ bs) h (e, a) =
    ((filled b (omega (arith, e, h)), omega (arith, e)), AreBatches-AreFilled n (c ∷ bs) h a)

module _ (S : Setting) (p : Plan S) (w : ℕ) (fit : IsFit S p w) (c : Call S)
    (same_dimension : HasDimension S p w c) where
  open S use {Value, digest, floats}
  open p use {arguments, source}

  count_texts-one_by_one :
      (f : List Text → Result (Matrix floats.Scalar)) (bs : List (List Text))
      → count_texts S p w fit c same_dimension (one_by_one f bs) ≡ length (concat bs)
  count_texts-one_by_one f [] = refl
  count_texts-one_by_one f (texts ∷ bs) =
      omega (arith, count_texts-one_by_one f bs, length-append texts (concat bs))

  one_by_one-IsEmbedded :
      (bs : List (List Text))
      → AreFilled arguments.batch_size bs
      → All (IsEmbedded S p w fit c same_dimension) (one_by_one (request S c (some w)) bs)
  one_by_one-IsEmbedded [] h = tt
  one_by_one-IsEmbedded (texts ∷ bs) (first, h) = (
    (
      λ m e. request-AreRows S p w c (some w) texts m same_dimension e,
      λ answers. answers (some w) (inr refl) texts first,
    ),
    one_by_one-IsEmbedded bs h,
  )

  -- The lines from `completed` on, in batches.
  lines_from : (completed : ℕ) → List (List Text)
  lines_from completed = iter_batches p.lines completed arguments.batch_size

  lines_from-AreFilled : (completed : ℕ) → AreFilled arguments.batch_size (lines_from completed)
  unfolding lines_from
  lines_from-AreFilled completed =
      AreBatches-AreFilled arguments.batch_size _ fit.batch
        (iter_batches_lem p.lines completed arguments.batch_size fit.batch).1

  length-lines_from :
      (completed : ℕ)
      → completed ≤ source.nonempty_lines
      → completed + length (concat (lines_from completed)) ≡ source.nonempty_lines
  unfolding lines_from
  length-lines_from completed h = omega (
    arith,
    h,
    ap length (iter_batches_lem p.lines completed arguments.batch_size fit.batch).0,
    length-drop completed p.lines,
    length-lines S p w fit.planned,
  )

  all_lines : length (concat (lines_from 0)) ≡ source.nonempty_lines
  all_lines = omega (arith, length-lines_from 0 (omega arith))

  pub write_rest-Outcome :
      (b0 : Option Bytes) (c0 : Option Checkpoint) (now started : Text)
      (rows : List (List floats.Scalar)) (status : Status) (sha : Option Text)
      (o : Option (Files Value))
      → AreRows S p w rows
      → length rows ≤ source.nonempty_lines
      → is_blank started ≡ false
      → Outcome S p w fit (Answers S p w fit c) o (
          write_rest S
            (bare S p w fit b0 c0)
            c
            (plan_at S p w fit now started)
            w
            (header_size S p w fit)
            (length rows)
            (file_of S p w fit rows)
            (checkpoint_of S p w fit rows started status sha))
  unfolding lines_from
  write_rest-Outcome b0 c0 now started rows status sha o good within k =
      let bs = lines_from (length rows) in
      rw (iter_embedded_batches_lem (request S c (some w)) arguments.concurrency bs) (
        write_batches-Outcome S p w fit c same_dimension b0 c0 now started
          (one_by_one (request S c (some w)) bs) rows status sha o good
          (omega (
            arith,
            count_texts-one_by_one (request S c (some w)) bs,
            length-lines_from (length rows) within,
          ))
          (one_by_one-IsEmbedded bs (lines_from-AreFilled (length rows))) k)

  -- A new partial file, up to its first checkpoint, and the batches behind it.
  start_partial-Outcome :
      (now : Text) (batches : List (Batch S p w fit c same_dimension)) (o : Option (Files Value))
      → count_texts S p w fit c same_dimension batches ≡ source.nonempty_lines
      → All (IsEmbedded S p w fit c same_dimension) batches
      → is_blank now ≡ false
      → let first =
          running_checkpoint S (plan_at S p w fit now now) w (header_size S p w fit) 0 fit.header in
        Outcome S p w fit (Answers S p w fit c) o (
          start_partial S (bare S p w fit none none) fit.header first (
            write_batches S
              (bare S p w fit none none)
              (plan_at S p w fit now now)
              w
              (header_size S p w fit)
              0
              fit.header
              first
              batches))
  unfolding matrix_bytes
  start_partial-Outcome now batches o counted embedded k =
      subst
        (λ (b : Bytes).
          let first =
            running_checkpoint S (plan_at S p w fit now now) w (header_size S p w fit) 0 b in
          Outcome S p w fit (Answers S p w fit c) o (
            start_partial S (bare S p w fit none none) b first (
              write_batches S (bare S p w fit none none) (plan_at S p w fit now now) w
                (header_size S p w fit) 0 b first batches)))
        (append-nil fit.header)
        (after_states-Outcome S p w fit (Answers S p w fit c) o _ _
          (All-append (IsGood S p w fit)
            (map (λ b. unpublished S (bare S p w fit none none) b none)
              ([] ∷ growing [] (file_of S p w fit [])))
            (bare S p w fit (some (file_of S p w fit []))
                (some (checkpoint_of S p w fit [] now running none))
              ∷ [])
            (torn-IsGood S p w fit none none ([] ∷ growing [] (file_of S p w fit [])))
            (committed-IsGood S p w fit [] now running none ((tt, refl), omega arith, k), tt))
          (write_batches-Outcome S p w fit c same_dimension none none now now batches [] running
            none _ (tt, refl) (omega (arith, counted)) embedded k))

  begin_known-Outcome :
      (now : Text) (o : Option (Files Value))
      → is_blank now ≡ false
      → Outcome S p w fit
          (Answers S p w fit c)
          o
          (begin_known S (bare S p w fit none none) c (plan_at S p w fit now now) w)
  unfolding begin_known lines_from
  begin_known-Outcome now o k =
      let bs = lines_from 0 in
      and_then-Outcome S p w fit (Answers S p w fit c) o _ _ (λ a. (fit.header, fit.headed))
        (λ header e.
          let same : fit.header ≡ header = ok-injective _ _ (sym fit.headed ∙ e) in
          rw (← same, iter_embedded_batches_lem (request S c (some w)) arguments.concurrency bs)
            (start_partial-Outcome now (one_by_one (request S c (some w)) bs) o
              (count_texts-one_by_one (request S c (some w)) bs ∙ all_lines)
              (one_by_one-IsEmbedded bs (lines_from-AreFilled 0)) k))

  begin_unknown-Outcome :
      (now : Text) (bs : List (List Text)) (o : Option (Files Value))
      → length (concat bs) ≡ source.nonempty_lines
      → AreFilled arguments.batch_size bs
      → is_blank now ≡ false
      → Outcome S p w fit
          (Answers S p w fit c)
          o
          (begin_unknown S (bare S p w fit none none) c (plan_at S p w fit now now) bs)
  unfolding begin_unknown
  begin_unknown-Outcome now [] o counted full k =
      let filled = (read_inputs-eq-ok S p w fit.planned).1 in
      absurd (ground (arith, counted, filled))
  begin_unknown-Outcome now (texts ∷ bs) o counted (first, full) k =
      and_then-Outcome S p w fit (Answers S p w fit c) o _ _
        (λ answers. answers none (inl refl) texts first)
        (λ m e.
          let wide : m.width ≡ w = same_dimension none texts m e in
          let shape = request-AreRows S p w c none texts m same_dimension e in
          let m' : Matrix floats.Scalar = record { width = w; rows = m.rows } in
          rw wide (
            and_then-Outcome S p w fit (Answers S p w fit c) o _ _ (λ a. (fit.header, fit.headed))
              (λ header e'.
                let same : fit.header ≡ header = ok-injective _ _ (sym fit.headed ∙ e') in
                rw (← same, iter_embedded_batches_lem (request S c (some w)) 1 bs)
                  (start_partial-Outcome now ((texts, ok m') ∷ one_by_one (request S c (some w)) bs)
                    o
                    (omega (
                      arith,
                      counted,
                      count_texts-one_by_one (request S c (some w)) bs,
                      length-append texts (concat bs),
                    ))
                    (
                      (
                        λ k same_m.
                            subst
                              (λ (n : Matrix floats.Scalar).
                                (length n.rows ≡ length texts) × AreRows S p w n.rows)
                              (ok-injective m' k same_m) shape,
                        λ a. (m', refl),
                      ),
                      one_by_one-IsEmbedded bs full,
                    )
                    k))))

  pub begin-Outcome :
      (now : Text) (o : Option (Files Value))
      → is_blank now ≡ false
      → Outcome S p w fit (Answers S p w fit c) o (
          begin S
            (bare S p w fit none none)
            c
            (plan_at S p w fit now now)
            arguments.prefix_cache
            arguments.dimension)
  unfolding lines_from
  begin-Outcome now o k = by_dimension fit.dimension
    where
      Begun : Option Text → Option ℕ → Type 0
      Begun prefix d =
          Outcome S p w fit (Answers S p w fit c) o
            (begin S (bare S p w fit none none) c (plan_at S p w fit now now) prefix d)

      by_dimension :
          (arguments.dimension ≡ none) ⊎ (arguments.dimension ≡ some w)
          → Begun arguments.prefix_cache arguments.dimension
      by_dimension (inl e) =
          subst (λ (x : Option Text). Begun x arguments.dimension) (sym fit.no_prefix)
            (subst (λ (d : Option ℕ). Begun none d) (sym e)
              (begin_unknown-Outcome now (lines_from 0) o all_lines (lines_from-AreFilled 0) k))
      by_dimension (inr e) =
          subst (λ (x : Option Text). Begun x arguments.dimension) (sym fit.no_prefix)
            (subst (λ (d : Option ℕ). Begun none d) (sym e) (begin_known-Outcome now o k))
