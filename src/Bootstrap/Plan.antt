-- ===== src/Bootstrap/Plan.antt =====
-- The options of a bootstrap, what is found in the checkout, and the replacements that follow.
pub mod Again
use go_clean_architecture.Prelude.{
  Bool, true, false, not, ◌&&◌, ◌||◌, Option, none, some, List, [], ◌∷◌, ◌++◌, ltb, ◌==◌,
  if◌then◌else◌, Bytes, codes, bytes_eq, length, any, Result, ok, err, ◌>>=◌, ◌>>◌, fail_if,
}
use go_clean_architecture.Std.Text.{Text, ascii, to_bytes, trim_space, valid_string, is_control}
use go_clean_architecture.Metrics.{split, has_empty_segment}
use go_clean_architecture.Bootstrap.{
  Replacement, normalize_replacements, project_slug, github_owner, title_from_slug,
}

-- The regular expressions of the source, and `mail.ParseAddress`, which gives the address itself.
pub record Patterns : Type 0 where
  pub module_path : Bytes → Bool
  pub slug : Bytes → Bool
  pub owner : Bytes → Bool
  pub email : Bytes → Bool
  pub parse_address : Bytes → Option Bytes

-- `options`
pub record Options : Type 0 where
  pub root : Text
  pub path : Text
  pub slug : Text
  pub owner : Text
  pub author : Text
  pub email : Text
  pub dry_run : Bool
  pub force : Bool

-- `metadata`
pub record Metadata : Type 0 where
  pub old_module : Bytes
  pub old_slug : Bytes
  pub old_owner : Bytes
  pub old_title : Bytes
  pub old_author : Bytes
  pub old_emails : List Bytes

pub data PlanError : Type 0 where
  unexpected_argument module_required slug_required : PlanError
  invalid_module invalid_slug invalid_owner invalid_author invalid_email : PlanError
  owner_required email_required email_unused email_ambiguous : PlanError

abbrev pub is_missing : Text → Bool
is_missing t = length t == 0

-- The address is accepted if it is read as itself and has the pattern.
unfoldable pub valid_email : Patterns → Bytes → Bool
unfolding bytes_eq
valid_email patterns email = elim (patterns.parse_address email) [
  | none ↦ false
  | some address ↦ bytes_eq address email && patterns.email email
]

-- `validateOptions`
unfoldable pub validate_options : Patterns → Options → Result PlanError (Unit {0})
unfolding split has_empty_segment valid_email
validate_options patterns o = do
  fail_if (is_missing o.path) module_required
  fail_if (is_missing o.slug) slug_required
  fail_if (not (patterns.module_path (to_bytes o.path)) || has_empty_segment (to_bytes o.path))
      invalid_module
  fail_if (any (λ s. bytes_eq s (codes ".") || bytes_eq s (codes "..")) (split (to_bytes o.path)))
      invalid_module
  fail_if (not (patterns.slug (to_bytes o.slug))) invalid_slug
  fail_if (not (is_missing o.owner) && not (patterns.owner (to_bytes o.owner))) invalid_owner
  fail_if (not (is_missing o.author) && (not (valid_string o.author) || any is_control o.author))
      invalid_author
  fail_if (not (is_missing o.email) && not (valid_email patterns (to_bytes o.email))) invalid_email

-- The positional arguments stand in for a module and a slug that are not given.
unfoldable pub take_positional : Options → List Text → Result PlanError Options
take_positional o [] = ok o
take_positional o (a ∷ []) =
    if is_missing o.path
    then ok (record o { path = a })
    else if is_missing o.slug
    then ok (record o { slug = a })
    else err unexpected_argument
take_positional o (a ∷ b ∷ []) =
    if is_missing o.path && is_missing o.slug
    then ok (record o { path = a; slug = b })
    else err unexpected_argument
take_positional o (a ∷ b ∷ c ∷ rest) = err unexpected_argument

abbrev pub default_root : Text
default_root = ascii (codes ".")

-- `parseOptions`, behind the parsing of the flags.
unfoldable pub parse_options : Patterns → Options → List Text → Result PlanError Options
unfolding take_positional validate_options
parse_options patterns flags positional = do
  o ← take_positional flags positional
  let root = trim_space o.root
  let trimmed : Options = record {
    root = if is_missing root then default_root else root;
    path = trim_space o.path;
    slug = trim_space o.slug;
    owner = trim_space o.owner;
    author = trim_space o.author;
    email = trim_space o.email;
    dry_run = o.dry_run;
    force = o.force;
  }
  validate_options patterns trimmed
  ok trimmed

abbrev pub is_blank : Bytes → Bool
is_blank s = length s == 0

-- The owner to write, and the name to write in plain text.
unfoldable pub new_owner : Options → Bytes
new_owner o = if is_missing o.owner then github_owner (to_bytes o.path) else to_bytes o.owner

unfoldable pub plain_owner : Options → Bytes
plain_owner o = if is_missing o.author then new_owner o else to_bytes o.author

abbrev pub from_to : Bytes → Bytes → Replacement
from_to old new = record { old = old; new = new }

abbrev pub identity_items : Metadata → Options → List Replacement
identity_items meta o =
    from_to meta.old_module (to_bytes o.path)
    ∷ from_to meta.old_slug (to_bytes o.slug)
    ∷ from_to meta.old_title (title_from_slug (to_bytes o.slug))
    ∷ []

-- The owner's replacements: in URLs, in handles, and alone if it changes.
unfoldable pub owner_items : Metadata → Options → List Replacement
owner_items meta o =
    if is_blank meta.old_owner || is_blank (new_owner o)
    then []
    else from_to (codes "github.com/" ++ meta.old_owner) (codes "github.com/" ++ new_owner o)
      ∷ from_to (codes "@" ++ meta.old_owner) (codes "@" ++ new_owner o)
      ∷ (if bytes_eq meta.old_owner (new_owner o)
          then []
          else from_to meta.old_owner (plain_owner o) ∷ [])

unfoldable pub author_items : Metadata → Options → List Replacement
author_items meta o =
    if is_blank meta.old_author || is_blank (plain_owner o)
    then []
    else from_to meta.old_author (plain_owner o) ∷ []

-- The address's replacement: one that is found must be replaced, and only one can be.
unfoldable pub email_items : List Bytes → Text → Result PlanError (List Replacement)
email_items [] email = if is_missing email then ok [] else err email_unused
email_items (found ∷ []) email =
    if is_missing email then err email_required else ok (from_to found (to_bytes email) ∷ [])
email_items (found ∷ other ∷ rest) email =
    if is_missing email then err email_required else err email_ambiguous

-- `makeReplacements`
unfoldable pub make_replacements :
    Patterns → Metadata → Options → Result PlanError (List Replacement)
make_replacements patterns meta o = do
  fail_if (not (is_blank (new_owner o)) && not (patterns.owner (new_owner o))) invalid_owner
  fail_if (not (is_blank meta.old_owner) && is_blank (new_owner o)) owner_required
  emails ← email_items meta.old_emails o.email
  ok (
      normalize_replacements
        (identity_items meta o ++ (owner_items meta o ++ (author_items meta o ++ emails))))

-- The metadata of a checkout, by its module, its license's holder and the addresses in its policies.
unfoldable pub metadata_of : Bytes → Bytes → List Bytes → Metadata
metadata_of path author emails = record {
  old_module = path;
  old_slug = project_slug path;
  old_owner = github_owner path;
  old_title = title_from_slug (project_slug path);
  old_author = author;
  old_emails = emails;
}
