-- ===== src/Bootstrap/Run.antt =====
-- A run of the bootstrap. Git answers as a record says.
pub mod Whole
use go_clean_architecture.Prelude.{
  ℕ, ◌+◌, Bool, true, false, not, ◌&&◌, Option, none, some, List, [], ◌∷◌, if◌then◌else◌, Bytes,
  bytes_ltb, length, Result, ok, err, ◌>>=◌, ◌>>◌, fail_if, of_option, map_err,
}
use go_clean_architecture.Std.Text.{Text}
use go_clean_architecture.Dict.{insert}
use go_clean_architecture.Memory.{sort_slice}
use go_clean_architecture.Bootstrap.Plan.{Patterns, Options, parse_options, make_replacements}
use go_clean_architecture.Bootstrap.Files.{
  regular, File, Tree, PathLib, Readers, RunError, bad_options, not_a_checkout, dirty_worktree,
  no_listing, not_written, FileChange, collect_changes, read_metadata,
}

-- The steps of `atomicReplace`.
pub data Step : Type 0 where
  create_temp change_mode write_temp sync_temp close_temp rename sync_directory : Step

-- The file that a rename puts in place. Its mode is set before its text is written; `after_write` is what the system leaves of
-- the mode of a file that the process writes to.
abbrev pub written : (ℕ → ℕ) → FileChange → File
written after_write c = record {
  kind = regular;
  readable = true;
  mode = after_write c.mode;
  content = c.after;
}

-- `atomicReplace`, by the step that fails: the file is replaced once the rename has succeeded.
unfoldable pub atomic_replace : (ℕ → ℕ) → Option Step → FileChange → Tree → Bool × Tree
atomic_replace after_write none c tree = (true, insert c.path (written after_write c) tree)
atomic_replace after_write (some sync_directory) c tree =
    (false, insert c.path (written after_write c) tree)
atomic_replace after_write (some create_temp) c tree = (false, tree)
atomic_replace after_write (some change_mode) c tree = (false, tree)
atomic_replace after_write (some write_temp) c tree = (false, tree)
atomic_replace after_write (some sync_temp) c tree = (false, tree)
atomic_replace after_write (some close_temp) c tree = (false, tree)
atomic_replace after_write (some rename) c tree = (false, tree)

-- The loop that writes the changes; `failing` is the step that fails at a file.
unfoldable pub write_changes :
    (ℕ → ℕ) → (Bytes → Option Step) → List FileChange → Tree → Result RunError ℕ × Tree
unfolding atomic_replace
write_changes after_write failing [] tree = (ok 0, tree)
write_changes after_write failing (c ∷ cs) tree =
    let (done, next) = atomic_replace after_write (failing c.path) c tree in
    elim done [
      | false ↦ (err (not_written c.relative), next)
      | true ↦
          let (count, last) = write_changes after_write failing cs next in
          ((do n ← count; ok (n + 1)), last)
    ]

-- What a run meets: the flags, Git's answers, the steps that fail, and what a write does to a mode.
pub record World : Type 0 where
  pub flags : Options
  pub positional : List Text
  pub is_checkout : Bool
  pub is_clean : Bool
  pub tracked : Option (List Bytes)
  pub failing : Bytes → Option Step
  pub after_write : ℕ → ℕ

-- The part of `run` before anything is written.
unfoldable pub prepare :
    Patterns → PathLib → Readers → World → Tree → Result RunError (Options × List FileChange × ℕ)
unfolding parse_options read_metadata make_replacements collect_changes
prepare patterns paths readers w tree = do
  o ← map_err bad_options (parse_options patterns w.flags w.positional)
  fail_if (not w.is_checkout) not_a_checkout
  fail_if (not o.force && not w.is_clean) dirty_worktree
  files ← of_option w.tracked no_listing
  let names = sort_slice bytes_ltb files
  meta ← read_metadata paths readers tree names
  replacements ← map_err bad_options (make_replacements patterns meta o)
  (changes, omitted) ← collect_changes paths tree replacements names
  ok (o, changes, omitted)

-- `run`: the number of files that would be, or are, updated.
unfoldable pub run : Patterns → PathLib → Readers → World → Tree → Result RunError ℕ × Tree
unfolding prepare write_changes
run patterns paths readers w tree = elim (prepare patterns paths readers w tree) [
  | err e ↦ (err e, tree)
  | ok (o, changes, omitted) ↦
      if o.dry_run
      then (ok (length changes), tree)
      else write_changes w.after_write w.failing changes tree
]
