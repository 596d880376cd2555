-- ===== src/Tests/Bootstrapped.antt =====
-- A checkout of two files, renamed.
use go_clean_architecture.Prelude.{
  ◌%◌, ◌≡◌, ◌⊎◌, refl, true, false, Option, none, some, List, [], ◌∷◌, ◌++◌, Bytes, codes, bytes_eq,
  drop, ok, if◌then◌else◌,
}
use go_clean_architecture.Std.Text.{ascii, to_bytes, encode_rune}
use go_clean_architecture.Metrics.{split}
use go_clean_architecture.Dict.{entry}
use go_clean_architecture.Bootstrap.{
  Replacement, replace_once, normalize_replacements, last_two, project_slug, fold_eq, github_owner,
}
use go_clean_architecture.Bootstrap.Rewrite.{Rewrites, replace_once-Rewrites}
use go_clean_architecture.Bootstrap.Plan.{Patterns, Options, from_to, new_owner, make_replacements}
use go_clean_architecture.Bootstrap.Plan.Again.{metadata_after, make_replacements-again}
use go_clean_architecture.Bootstrap.Files.{File, Tree, regular, PathLib, Readers}
use go_clean_architecture.Bootstrap.Run.{World, Step, rename, run}
use go_clean_architecture.Bootstrap.Run.Whole.{IsPlanned, IsWhole, run-IsWhole}

program : Unit {0}
unfolding to_bytes encode_rune split last_two project_slug fold_eq github_owner new_owner
program = tt

abbrev pub items : List Replacement
items = from_to (codes "app") (codes "shop") ∷ from_to (codes "app-db") (codes "store") ∷ []

abbrev pub patterns : Patterns
patterns = record {
  module_path = λ s. true;
  slug = λ s. true;
  owner = λ s. true;
  email = λ s. true;
  parse_address = λ s. some s;
}

abbrev pub options : Options
options = record {
  root = [];
  path = ascii (codes "github.com/ann/shop");
  slug = ascii (codes "shop");
  owner = [];
  author = [];
  email = [];
  dry_run = false;
  force = false;
}

abbrev pub paths : PathLib
paths = record {
  clean = λ p. p;
  is_abs = λ p. false;
  join = λ p. codes "/repo/" ++ p;
  relative = λ p. some (drop 6 p);
  utf8_valid = λ p. true;
}

abbrev pub readers : Readers
readers = record {
  module_of = λ s. some (codes "github.com/bob/app");
  holder_of = λ s. none;
  emails_in = λ s. [];
}

abbrev pub file_of : Bytes → File
file_of content = record { kind = regular; readable = true; mode = 420; content = content }

abbrev pub tree : Tree
tree =
    entry (codes "/repo/go.mod") (file_of (codes "module github.com/bob/app"))
    ∷ entry (codes "/repo/README.md") (file_of (codes "# app"))
    ∷ []

-- The file that sorts first is written, the other is not.
abbrev pub failing : Bytes → Option Step
failing path = if bytes_eq path (codes "/repo/go.mod") then some rename else none

abbrev pub world : World
world = record {
  flags = options;
  positional = [];
  is_checkout = true;
  is_clean = true;
  tracked = some (codes "go.mod" ∷ codes "README.md" ∷ []);
  failing = failing;
  after_write = λ mode. mode % 2048;
}

replace_once-Rewrites_example :
    (out : Bytes) × (replace_once (codes "the app-db of app") (normalize_replacements items)
      ≡ some out)
    × Rewrites (normalize_replacements items) (codes "the app-db of app") out
replace_once-Rewrites_example = replace_once-Rewrites items (codes "the app-db of app")

make_replacements-again_example :
    (make_replacements patterns (metadata_after options) options ≡ ok [])
    × (replace_once (codes "the shop") [] ≡ some (codes "the shop"))
unfolding program
make_replacements-again_example =
    make_replacements-again patterns options (codes "the shop") refl refl refl

run-IsWhole_example :
    ((run patterns paths readers world tree).1 ≡ tree)
    ⊎ ((o : Options) × (rs : List Replacement) × (o.dry_run ≡ false)
        × IsPlanned patterns paths readers world tree o rs
        × IsWhole world.after_write rs tree ((run patterns paths readers world tree).1))
run-IsWhole_example = run-IsWhole patterns paths readers world tree
