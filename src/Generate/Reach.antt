-- ===== src/Generate/Reach.antt =====
-- Calls with the same inputs, one after the other, any of which may be stopped after any write.
use leann_cpp.Prelude.{
  ℕ, zero, suc, ◌≤◌, ◌≡◌, refl, ◌∙◌, ap, sym, subst, Bool, true, false, none, some, List, [], ◌∷◌,
  ◌++◌, append_assoc, append-nil, map, arith, length, take, All, last_or, ok, runtime_error,
}
use leann_cpp.Bytes.{Bytes, Text}
use leann_cpp.Platform.{Digest}
use leann_cpp.TopK.{NumPy}
use leann_cpp.GroundTruth.Words.{Digits}
use leann_cpp.GroundTruth.Print.{truth_bytes, header_bytes}
use leann_cpp.Writes.{Run, growing, stopped, after_states}
use leann_cpp.Generate.{
  Job, Files, Declared, running_checkpoint, generate_rest, is_blank, unpublished, declare, begin,
  generate,
}
use leann_cpp.Generate.Written.{IsJob, written, answers, truth_metadata}
use leann_cpp.Generate.Phases.{
  Phase, fresh, torn, partial, output_only, finished, files_of, IsGood, Completes, truth_file,
}
use leann_cpp.Generate.Calls.{Outcome, generate-Outcome}

abbrev pub no_files : Files
no_files = record { output = none; sidecar = none; partial = none; checkpoint = none }

-- A partial file without a checkpoint.
abbrev pub is_torn : Files → Bool
is_torn f = elim f.partial [
  | none ↦ false
  | some p ↦ elim f.checkpoint [ none ↦ true | some c ↦ false ]
]

module _ (D : Digest) (U : Digits) (N : NumPy) (job : Job) where
  open job use {dimensions}

  -- A call that is stopped after `n` of its writes, or runs to its end.
  pub data Step (f g : Files) : Type 0 where
    call :
        (now : Text) (n : ℕ)
        → is_blank now ≡ false
        → some g ≡ last_or (some f) (take n (generate D U N job now f).states)
        → Step f g

  pub data Reach (f : Files) : Files → Type 0 where
    here : Reach f f
    next : {g h : Files} → Reach f g → Step g h → Reach f h

  module _ (fit : IsJob job) where
    Good : Files → Type 0
    Good = IsGood D U N job fit

    outcome_states :
        (p : Phase) (run : Run Files Declared)
        → Outcome D U N job fit p run
        → All (IsGood D U N job fit) run.states
    outcome_states fresh run o = o.0
    outcome_states (torn p) run o = rw o tt
    outcome_states (partial completed junk started status sha) run o = o.0
    outcome_states (output_only started) run o = o.0
    outcome_states (finished recovered started now checkpoint) run o = rw o tt

    last-IsGood :
        (f g : Files) (n : ℕ) (l : List Files)
        → IsGood D U N job fit f
        → All (IsGood D U N job fit) l
        → some g ≡ last_or (some f) (take n l)
        → IsGood D U N job fit g
    last-IsGood f g zero l h a e = let same : f ≡ g = cc e in subst (IsGood D U N job fit) same h
    last-IsGood f g (suc n) [] h a e =
        let same : f ≡ g = cc e in subst (IsGood D U N job fit) same h
    last-IsGood f g (suc n) (x ∷ l) h (b, a) e = last-IsGood x g n l b a e

    Step-IsGood : (f g : Files) → IsGood D U N job fit f → Step f g → IsGood D U N job fit g
    Step-IsGood f g (p, e, v) (call now n k last) =
        let o = generate-Outcome D U N job fit now p k v in
        let states = outcome_states p (generate D U N job now (files_of D U N job fit p)) o in
        last-IsGood f g n (generate D U N job now f).states (p, e, v) (rw e states) last

    Reach-IsGood : {f : Files} → Reach no_files f → IsGood D U N job fit f
    Reach-IsGood here = (fresh, refl, tt)
    Reach-IsGood (next r s) = Step-IsGood _ _ (Reach-IsGood r) s

    phase_output :
        (p : Phase) (b : Bytes)
        → (files_of D U N job fit p).output ≡ some b
        → b ≡ truth_file D U N job fit
    phase_output fresh b e = cc
    phase_output (torn p) b e = cc
    phase_output (partial completed junk started status sha) b e = cc
    phase_output (output_only started) b e = cc
    phase_output (finished recovered started now checkpoint) b e = cc

    -- Whatever was stopped when, an output that stands is the whole ground truth: the header, and
    -- for each query the IDs of its best rows of the corpus.
    pub Reach-output :
        {f : Files} (b : Bytes)
        → Reach no_files f
        → f.output ≡ some b
        → b ≡ truth_bytes dimensions (answers job 0 dimensions.query_count)
    unfolding written
    Reach-output b r e =
        let (p, same, v) = Reach-IsGood r in
        phase_output p b (sym (ap (λ (g : Files). g.output) same) ∙ e)

    Finishes : Files → Run Files Declared → Type 0
    Finishes f run =
        (d : Declared) × (g : Files) × (run.result ≡ ok d)
        × (last_or (some f) run.states ≡ some g)
        × (g.output ≡ some (truth_bytes dimensions (answers job 0 dimensions.query_count)))
        × (g.sidecar ≡ some d)
        × (g.partial ≡ none)
        × (d.ground_truth ≡ truth_metadata job fit D U N)

    Completes-Finishes :
        (f : Files) (run : Run Files Declared) → Completes D U N job fit run → Finishes f run
    unfolding Finishes written
    Completes-Finishes f run (good, recovered, started, now, e, l) = (
      declare D U N job recovered started now (truth_metadata job fit D U N),
      files_of D U N job fit (finished recovered started now none),
      e,
      l (some f),
      refl,
      refl,
      refl,
      refl,
    )

    phase-Finishes :
        (p : Phase) (run : Run Files Declared)
        → Outcome D U N job fit p run
        → is_torn (files_of D U N job fit p) ≡ false
        → Finishes (files_of D U N job fit p) run
    unfolding Finishes written
    phase-Finishes fresh run o t = Completes-Finishes _ run o
    phase-Finishes (torn p) run o t = cc
    phase-Finishes (partial completed junk started status sha) run o t = Completes-Finishes _ run o
    phase-Finishes (output_only started) run o t = Completes-Finishes _ run o
    phase-Finishes (finished recovered started now checkpoint) run o t = rw o (
      declare D U N job recovered started now (truth_metadata job fit D U N),
      files_of D U N job fit (finished recovered started now checkpoint),
      refl,
      refl,
      refl,
      refl,
      refl,
      refl,
    )

    -- From whatever stopped calls left, as long as a partial file has its checkpoint, a call that
    -- runs to its end returns; then the whole ground truth and its sidecar stand there, and no
    -- partial file.
    pub generate-finishes :
        {f : Files} (now : Text)
        → Reach no_files f
        → is_torn f ≡ false
        → is_blank now ≡ false
        → let run = generate D U N job now f in
          (d : Declared) × (g : Files) × (run.result ≡ ok d)
          × (last_or (some f) run.states ≡ some g)
          × (g.output ≡ some (truth_bytes dimensions (answers job 0 dimensions.query_count)))
          × (g.sidecar ≡ some d)
          × (g.partial ≡ none)
          × (d.ground_truth ≡ truth_metadata job fit D U N)
    unfolding Finishes
    generate-finishes {f} now r t k =
        let (p, same, v) = Reach-IsGood r in
        let o = generate-Outcome D U N job fit now p k v in
        subst (λ (g : Files). Finishes g (generate D U N job now g)) (sym same)
          (phase-Finishes p _ o (ap is_torn (sym same) ∙ t))

  -- The files that hold a partial file only.
  abbrev pub with_partial : Bytes → Files
  with_partial b = unpublished D U N job no_files b none

  -- What stands after `n` more bytes.
  last_or-growing :
      (n : ℕ) (before payload : Bytes) (rest : List Files)
      → n ≤ length payload
      → last_or
          (some (with_partial before))
          (take n (map with_partial (growing before payload) ++ rest))
        ≡ some (with_partial (before ++ take n payload))
  last_or-growing zero before payload rest h =
      ap (λ (b : Bytes). some (with_partial b)) (sym (append-nil before))
  last_or-growing (suc n) before [] rest h = absurd (omega arith)
  last_or-growing (suc n) before (x ∷ payload) rest h =
      last_or-growing n (before ++ x ∷ []) payload rest (omega arith)
      ∙ ap (λ (b : Bytes). some (with_partial b)) (append_assoc before (x ∷ []) (take n payload))

  -- A first call that is stopped after it created the partial file and wrote `n` bytes of the header,
  -- and before its first checkpoint, leaves nothing but that file with these bytes, and then every
  -- later call raises and writes nothing.
  pub generate-torn :
      (first : Text) (n : ℕ)
      → n ≤ length (header_bytes dimensions)
      → let left = with_partial (take n (header_bytes dimensions)) in
        (last_or (some no_files) (take (suc n) (generate D U N job first no_files).states)
          ≡ some left)
        × ((now : Text)
            → generate D U N job now left
              ≡ stopped (runtime_error "ground-truth checkpoint and partial must coexist"))
  unfolding generate begin after_states
  generate-torn first n h =
      let header = header_bytes dimensions in
      let checkpoint = running_checkpoint D U N job first 0 header in
      let growth = map with_partial (growing [] header) in
      let committed = unpublished D U N job no_files header (some checkpoint) ∷ [] in
      let later = (generate_rest D U N job no_files first first 0 header checkpoint).states in
      (
        ap (λ (l : List Files). last_or (some (with_partial [])) (take n l))
              (append_assoc growth committed later)
            ∙ last_or-growing n [] header (committed ++ later) h,
        λ now. refl,
      )
