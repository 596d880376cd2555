-- ===== src/Bootstrap/Files.antt =====
-- The files of a checkout, by their absolute paths: which are read, and what would change. The regular expressions and
-- path/filepath are records of functions; that a file changes while the command reads it is left out, and
-- the mode of a file is its permission and its three special bits.
use go_clean_architecture.Prelude.{
  ℕ, ◌+◌, Bool, true, false, not, ◌&&◌, ◌||◌, Option, none, some, List, [], ◌∷◌, ltb, ◌==◌,
  if◌then◌else◌, Bytes, codes, bytes_eq, bytes_ltb, length, any, Result, ok, err, ◌>>=◌, ◌>>◌,
  fail_if, of_option,
}
use go_clean_architecture.Dict.{Entry, lookup}
use go_clean_architecture.Memory.{sort_slice}
use go_clean_architecture.Bootstrap.{Replacement, has_prefix, replace_once}
use go_clean_architecture.Bootstrap.Plan.{Metadata, PlanError, metadata_of}

pub data Kind : Type 0 where
  regular symlink other_kind : Kind

pub record File : Type 0 where
  pub kind : Kind
  pub readable : Bool
  pub mode : ℕ
  pub content : Bytes

abbrev pub Tree : Type 0
Tree = List (Entry File)

-- `filepath.Clean` behind `FromSlash`, `IsAbs`, `Join` with the root, `Rel` to the root, and `utf8.Valid`.
pub record PathLib : Type 0 where
  pub clean : Bytes → Bytes
  pub is_abs : Bytes → Bool
  pub join : Bytes → Bytes
  pub relative : Bytes → Option Bytes
  pub utf8_valid : Bytes → Bool

-- The expressions that read a checkout: the module directive, the holder of the copyright line without the spaces around
-- it, and all addresses.
pub record Readers : Type 0 where
  pub module_of : Bytes → Option Bytes
  pub holder_of : Bytes → Option Bytes
  pub emails_in : Bytes → List Bytes

pub data RunError : Type 0 where
  bad_options : PlanError → RunError
  not_a_checkout dirty_worktree no_listing : RunError
  unsafe_path missing_file unreadable_file no_module endless not_written : Bytes → RunError

abbrev pub max_text_file : ℕ
max_text_file = 33_554_432

-- `fileChange`
pub record FileChange : Type 0 where
  pub relative : Bytes
  pub path : Bytes
  pub after : Bytes
  pub mode : ℕ

-- What becomes of one tracked file: it is skipped, has no change, or has one.
pub data Verdict : Type 0 where
  skipped unchanged : Verdict
  changed : FileChange → Verdict

abbrev pub is_regular : Kind → Bool
is_regular regular = true
is_regular symlink = false
is_regular other_kind = false

-- A file of a size and kind that may be rewritten.
abbrev pub is_small_regular : File → Bool
is_small_regular f = is_regular f.kind && not (ltb max_text_file (length f.content))

abbrev pub add_verdict : Verdict → List FileChange × ℕ → List FileChange × ℕ
add_verdict skipped (changes, n) = (changes, n + 1)
add_verdict unchanged (changes, n) = (changes, n)
add_verdict (changed c) (changes, n) = (c ∷ changes, n)

abbrev pub is_known_doc : Bytes → Bool
is_known_doc name =
    bytes_eq name (codes "SECURITY.md") || bytes_eq name (codes "CODE_OF_CONDUCT.md")

-- The addresses that have not been seen.
unfoldable pub add_emails : List Bytes → List Bytes → List Bytes
add_emails [] seen = seen
add_emails (e ∷ es) seen = add_emails es (if any (bytes_eq e) seen then seen else e ∷ seen)

module _ (paths : PathLib) where
  -- `safePath`
  unfoldable pub safe_path : Bytes → Result RunError Bytes
  unfolding bytes_eq has_prefix
  safe_path name = do
    let clean = paths.clean name
    fail_if (bytes_eq clean (codes ".") || paths.is_abs clean) (unsafe_path name)
    let joined = paths.join clean
    relative ← of_option (paths.relative joined) (unsafe_path name)
    fail_if (bytes_eq relative (codes "..") || has_prefix relative (codes "../")) (unsafe_path name)
    ok joined

  -- `isText`
  unfoldable pub is_text : Bytes → Bool
  is_text content = not (any (λ c. c == 0) content) && paths.utf8_valid content

  -- `readTrackedTextFile`: `none` is a file that is passed over.
  unfoldable pub read_tracked_text_file : Tree → Bytes → Result RunError (Option Bytes)
  unfolding safe_path is_text
  read_tracked_text_file tree name = do
    path ← safe_path name
    f ← of_option (lookup path tree) (missing_file name)
    (if not (is_small_regular f)
        then ok none
        else if not f.readable
        then err (unreadable_file name)
        else ok (if is_text f.content then some f.content else none))

  -- A file in the loop of `collectChanges`.
  unfoldable pub judge : Tree → List Replacement → Bytes → Result RunError Verdict
  unfolding safe_path is_text replace_once bytes_eq
  judge tree replacements name = do
    path ← safe_path name
    f ← of_option (lookup path tree) (missing_file name)
    (if not (is_small_regular f)
        then ok skipped
        else if not f.readable
        then err (unreadable_file name)
        else if not (is_text f.content)
        then ok skipped
        else do
          after ← of_option (replace_once f.content replacements) (endless name)
          ok (
              if bytes_eq f.content after
              then unchanged
              else changed (record { relative = name; path = path; after = after; mode = f.mode })))

  -- `collectChanges`: the changes, and the number of files skipped.
  unfoldable pub collect_changes :
      Tree → List Replacement → List Bytes → Result RunError (List FileChange × ℕ)
  unfolding judge
  collect_changes tree replacements [] = ok ([], 0)
  collect_changes tree replacements (name ∷ names) = do
    verdict ← judge tree replacements name
    rest ← collect_changes tree replacements names
    ok (add_verdict verdict rest)

  -- `discoverCopyrightHolder`
  unfoldable pub discover_copyright_holder : Readers → Tree → List Bytes → Result RunError Bytes
  unfolding read_tracked_text_file
  discover_copyright_holder readers tree [] = ok []
  discover_copyright_holder readers tree (name ∷ names) =
      let rest = discover_copyright_holder readers tree names in
      if not (bytes_eq (paths.clean name) (codes "LICENSE")) then rest else do
        content ← read_tracked_text_file tree name
        ok (elim content [
          | none ↦ []
          | some bytes ↦ elim (readers.holder_of bytes) [ none ↦ [] | some holder ↦ holder ]
        ])

  -- The loop of `discoverEmails`.
  unfoldable pub discover_emails_from :
      Readers → Tree → List Bytes → List Bytes → Result RunError (List Bytes)
  unfolding read_tracked_text_file add_emails
  discover_emails_from readers tree [] seen = ok seen
  discover_emails_from readers tree (name ∷ names) seen =
      let skip = discover_emails_from readers tree names seen in
      if not (is_known_doc (paths.clean name)) then skip else do
        content ← read_tracked_text_file tree name
        elim content [
          | none ↦ discover_emails_from readers tree names seen
          | some bytes ↦
              discover_emails_from readers tree names (add_emails (readers.emails_in bytes) seen)
        ]

  -- `discoverEmails`
  unfoldable pub discover_emails : Readers → Tree → List Bytes → Result RunError (List Bytes)
  unfolding discover_emails_from sort_slice
  discover_emails readers tree names = do
    seen ← discover_emails_from readers tree names []
    ok (sort_slice bytes_ltb seen)

  -- `readMetadata`
  unfoldable pub read_metadata : Readers → Tree → List Bytes → Result RunError Metadata
  unfolding discover_emails discover_copyright_holder metadata_of
  read_metadata readers tree names = do
    let path = paths.join (codes "go.mod")
    f ← of_option (lookup path tree) (missing_file path)
    fail_if (not f.readable) (unreadable_file path)
    old ← of_option (readers.module_of f.content) (no_module path)
    emails ← discover_emails readers tree names
    author ← discover_copyright_holder readers tree names
    ok (metadata_of old author emails)
