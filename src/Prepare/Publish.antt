-- ===== src/Prepare/Publish.antt =====
-- `publish_directory` of scripts/prepare_beir_nq_scale.py. A directory is known by what it holds. A
-- rename takes effect or raises and changes nothing; the removal of the backup takes effect or raises
-- and leaves something behind.
use leann_cpp.Prelude.{
  ◌≡◌, ◌⊎◌, inl, inr, refl, Bool, true, false, ◌&&◌, not, if◌then◌else◌, Option, none, some, List,
  [], ◌∷◌, All, last_or, Error, Result, ok, err, runtime_error, os_error,
}
use leann_cpp.Bytes.{Bytes}

pub data Entry : Type 0 where
  absent symlink other : Entry
  directory : Bytes → Entry

pub record Places : Type 0 where
  pub staged : Entry
  pub output : Entry
  pub backup : Entry

-- What comes of each operation of a call: whether the renames of the output to the backup, of the staged
-- directory to the output, and of the backup back to the output take effect, and what is left of the
-- backup if its removal raises.
pub record Outcomes : Type 0 where
  pub moved : Bool
  pub published : Bool
  pub restored : Bool
  pub remains : Option Entry

-- The places after each change, and how the call ends.
pub record Published : Type 0 where
  pub states : List Places
  pub result : Result (Unit {0})

abbrev pub refused : Error → Published
refused e = record { states = []; result = err e }

-- `path.exists()`
abbrev pub exists : Entry → Bool
exists absent = false
exists _ = true

-- `output.exists()` is false: nothing is moved away.
abbrev pub publish_new : Bool → Places → Published
publish_new false p = refused (os_error "rename")
publish_new true p = record {
  states = record p { output = p.staged; staged = absent } ∷ [];
  result = ok tt;
}

-- The handler of a failed rename to the output. The exception is raised again, or that of the rename
-- which was to restore the output.
abbrev pub restore : Bool → Places → Published
restore takes_effect p = record {
  states =
      if exists p.backup && (not (exists p.output) && takes_effect)
      then record p { output = p.backup; backup = absent } ∷ []
      else [];
  result = err (os_error "rename");
}

-- `shutil.rmtree(backup)`
abbrev pub remove_backup : Option Entry → Places → Published
remove_backup none p = record { states = record p { backup = absent } ∷ []; result = ok tt }
remove_backup (some left) p = record {
  states = record p { backup = left } ∷ [];
  result = err (os_error "rmtree");
}

abbrev pub after_change : Places → Published → Published
after_change p run = record run { states = p ∷ run.states }

-- The previous directory is moved to the backup first.
abbrev pub publish_over : Outcomes → Places → Published
publish_over w p =
    let moved = record p { output = absent; backup = p.output } in
    let done = record moved { output = p.staged; staged = absent } in
    let removal = after_change done (remove_backup w.remains done) in
    let handler = restore w.restored moved in
    if w.moved
    then after_change moved (if w.published then removal else handler)
    else refused (os_error "rename")

unfoldable pub publish_directory : Outcomes → Places → Published
publish_directory w p = elim p.output [
  | symlink ↦ refused (runtime_error "refusing to replace symlink output")
  | other ↦ refused (runtime_error "refusing to replace non-directory output")
  | absent ↦ publish_new w.published p
  | directory old ↦ publish_over w p
]

-- What was in the output before is in it or in the backup, or the new directory is in the output.
abbrev pub IsKept : Places → Places → Type 0
IsKept before now =
    (now.output ≡ before.output) ⊎ ((now.backup ≡ before.output) ⊎ (now.output ≡ before.staged))

abbrev pub IsUnchanged : Places → Places → Type 0
IsUnchanged before now =
    (now.output ≡ before.output) × (now.backup ≡ absent) × (now.staged ≡ before.staged)

-- Nothing was published and the previous output stands in the backup, since the rename that was to
-- restore it has raised too.
abbrev pub IsUnrestored : Outcomes → Places → Places → Type 0
IsUnrestored w before now =
    (w.published ≡ false)
    × (w.restored ≡ false)
    × (now.output ≡ absent)
    × (now.backup ≡ before.output)
    × (now.staged ≡ before.staged)

-- The new directory is published, and the removal of the backup has raised and left this.
abbrev pub IsUncleared : Outcomes → Places → Places → Type 0
IsUncleared w before now =
    (w.published ≡ true)
    × (w.remains ≡ some now.backup)
    × (now.output ≡ before.staged)
    × (now.staged ≡ absent)

abbrev pub Ends : Outcomes → Places → Result (Unit {0}) → Option Places → Type 0
Ends w before (ok u) last =
    (now : Places) × (last ≡ some now)
    × (now.output ≡ before.staged)
    × (now.staged ≡ absent)
    × (now.backup ≡ absent)
Ends w before (err e) last =
    (now : Places) × (last ≡ some now)
    × (IsUnchanged before now ⊎ (IsUnrestored w before now ⊎ IsUncleared w before now))

abbrev IsPublished : Outcomes → Places → Published → Type 0
IsPublished w p run = All (IsKept p) run.states × Ends w p run.result (last_or (some p) run.states)

by_outcomes :
    (moved published restored : Bool) (remains : Option Entry) (o s b : Entry)
    → b ≡ absent
    → let w : Outcomes = record {
      moved = moved;
      published = published;
      restored = restored;
      remains = remains;
    } in
      let p : Places = record { staged = s; output = o; backup = b } in
      IsPublished w p (publish_directory w p)
unfolding publish_directory
by_outcomes m u r l symlink s b h =
    (tt, (record { staged = s; output = symlink; backup = b }, refl, inl (refl, h, refl)))
by_outcomes m u r l other s b h =
    (tt, (record { staged = s; output = other; backup = b }, refl, inl (refl, h, refl)))
by_outcomes m false r l absent s b h =
    (tt, (record { staged = s; output = absent; backup = b }, refl, inl (refl, h, refl)))
by_outcomes m true r l absent s b h = (
  (inr (inr refl), tt),
  (record { staged = absent; output = s; backup = b }, refl, refl, refl, h),
)
by_outcomes false u r l (directory old) s b h =
    (tt, (record { staged = s; output = directory old; backup = b }, refl, inl (refl, h, refl)))
by_outcomes true false true l (directory old) s b h = (
  (inr (inl refl), (inl refl, tt)),
  (record { staged = s; output = directory old; backup = absent }, refl, inl (refl, refl, refl)),
)
by_outcomes true false false l (directory old) s b h = (
  (inr (inl refl), tt),
  (
    record { staged = s; output = absent; backup = directory old },
    refl,
    inr (inl (refl, refl, refl, refl, refl)),
  ),
)
by_outcomes true true r none (directory old) s b h = (
  (inr (inl refl), (inr (inr refl), (inr (inr refl), tt))),
  (record { staged = absent; output = s; backup = absent }, refl, refl, refl, refl),
)
by_outcomes true true r (some left) (directory old) s b h = (
  (inr (inl refl), (inr (inr refl), (inr (inr refl), tt))),
  (record { staged = absent; output = s; backup = left }, refl, inr (inr (refl, refl, refl, refl))),
)

-- With no backup before: after each change, what was in the output is still in it or in the backup,
-- or the new directory is in the output. A call that returns leaves the new directory there and no
-- backup. One that raises leaves all as it was, with no backup; or, if the rename to the output and
-- the one that was to restore it both raised, no output and the previous one whole in the backup; or,
-- if the removal of the backup raised, the new directory in the output and what the removal left.
pub publish_directory_lem :
    (w : Outcomes) (p : Places)
    → p.backup ≡ absent
    → let run = publish_directory w p in
      All (IsKept p) run.states × Ends w p run.result (last_or (some p) run.states)
publish_directory_lem w p h =
    by_outcomes w.moved w.published w.restored w.remains p.output p.staged p.backup h
