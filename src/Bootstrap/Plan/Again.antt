-- ===== src/Bootstrap/Plan/Again.antt =====
-- A second bootstrap with the same options.
use go_clean_architecture.Prelude.{
  ◌≡◌, refl, true, false, not, ◌&&◌, ◌||◌, inl, inr, some, List, [], ◌∷◌, ◌++◌, arith,
  if◌then◌else◌, Bytes, bytes_eq, bytes_eq_refl, ok, Bool-cases,
}
use go_clean_architecture.Std.Text.{to_bytes}
use go_clean_architecture.Memory.{sort_slice}
use go_clean_architecture.Bootstrap.{
  Replacement, distinct_from, normalize_replacements, project_slug, github_owner, replace_once,
}
use go_clean_architecture.Bootstrap.Plan.{
  Patterns, Options, Metadata, is_missing, is_blank, from_to, identity_items, owner_items,
  author_items, email_items, new_owner, plain_owner, make_replacements, metadata_of,
}

-- Every replacement keeps its text.
abbrev pub AllSame : List Replacement → Type 0
AllSame [] = Unit {0}
AllSame (r ∷ rs) = (r.old ≡ r.new) × AllSame rs

AllSame-append : (xs ys : List Replacement) → AllSame xs → AllSame ys → AllSame (xs ++ ys)
AllSame-append [] ys h k = k
AllSame-append (x ∷ xs) ys h k = (h.0, AllSame-append xs ys h.1 k)

distinct_from-AllSame :
    (seen : List Bytes) (rs : List Replacement) → AllSame rs → distinct_from seen rs ≡ []
unfolding distinct_from
distinct_from-AllSame seen [] h = refl
distinct_from-AllSame seen (r ∷ rs) h =
    let same : bytes_eq r.old r.new ≡ true = rw h.0 (bytes_eq_refl r.new) in
    ground (arith, same, distinct_from-AllSame seen rs h.1)

normalize_replacements-AllSame :
    (items : List Replacement) → AllSame items → normalize_replacements items ≡ []
unfolding normalize_replacements sort_slice
normalize_replacements-AllSame items h = rw (distinct_from-AllSame [] items h) refl

-- The addresses of a checkout that has been bootstrapped.
abbrev pub emails_of : Options → List Bytes
emails_of o = if is_missing o.email then [] else to_bytes o.email ∷ []

-- The metadata of a checkout that has been bootstrapped with the options.
abbrev pub metadata_after : Options → Metadata
metadata_after o = metadata_of (to_bytes o.path) (plain_owner o) (emails_of o)

owner_items-AllSame :
    (o : Options)
    → github_owner (to_bytes o.path) ≡ new_owner o
    → AllSame (owner_items (metadata_after o) o)
unfolding owner_items metadata_of
owner_items-AllSame o h = elim (Bool-cases (is_blank (new_owner o))) [
  | inl blank ↦ rw (owner_items, h, blank) tt
  | inr there ↦ rw (owner_items, h, there, bytes_eq_refl (new_owner o)) (refl, (refl, tt))
]

author_items-AllSame : (o : Options) → AllSame (author_items (metadata_after o) o)
unfolding author_items metadata_of
author_items-AllSame o = elim (Bool-cases (is_blank (plain_owner o))) [
  | inl blank ↦ rw (author_items, blank) tt
  | inr there ↦ rw (author_items, there) (refl, tt)
]

email_items-AllSame :
    (o : Options)
    → (rs : List Replacement) × (email_items (emails_of o) o.email ≡ ok rs) × AllSame rs
unfolding email_items
email_items-AllSame o = elim (Bool-cases (is_missing o.email)) [
  | inl missing ↦ ([], rw (missing, email_items, missing) refl, tt)
  | inr there ↦ (
    from_to (to_bytes o.email) (to_bytes o.email) ∷ [],
    rw (there, email_items, there) refl,
    (refl, tt),
  )
]

identity_items-AllSame :
    (o : Options)
    → project_slug (to_bytes o.path) ≡ to_bytes o.slug
    → AllSame (identity_items (metadata_after o) o)
unfolding metadata_of
identity_items-AllSame o h = (refl, (h, (rw h refl, tt)))

make_replacements-none :
    (patterns : Patterns) (meta : Metadata) (o : Options) (emails : List Replacement)
    → (not (is_blank (new_owner o)) && not (patterns.owner (new_owner o))) ≡ false
    → (not (is_blank meta.old_owner) && is_blank (new_owner o)) ≡ false
    → email_items meta.old_emails o.email ≡ ok emails
    → normalize_replacements
        (identity_items meta o ++ (owner_items meta o ++ (author_items meta o ++ emails)))
      ≡ []
    → make_replacements patterns meta o ≡ ok []
unfolding make_replacements
make_replacements-none patterns meta o emails known kept found empty =
    rw (known, kept, found, empty) refl

-- Where the slug of the new module path is the new slug, and the GitHub owner in that path is the owner that is written and
-- accepted by the pattern or empty, the options have nothing to replace in a checkout whose metadata are the
-- module path, the name and the address that they write, and a file stays as it is.
pub make_replacements-again :
    (patterns : Patterns) (o : Options) (input : Bytes)
    → project_slug (to_bytes o.path) ≡ to_bytes o.slug
    → github_owner (to_bytes o.path) ≡ new_owner o
    → (is_blank (new_owner o) || patterns.owner (new_owner o)) ≡ true
    → (make_replacements patterns (metadata_after o) o ≡ ok [])
      × (replace_once input [] ≡ some input)
unfolding replace_once metadata_of
make_replacements-again patterns o input slug owner valid =
    let (emails, found, same) = email_items-AllSame o in
    let items =
      identity_items (metadata_after o) o
      ++ (owner_items (metadata_after o) o ++ (author_items (metadata_after o) o ++ emails)) in
    let all_same : AllSame items =
      AllSame-append (identity_items (metadata_after o) o) _ (identity_items-AllSame o slug) (
        AllSame-append (owner_items (metadata_after o) o) _ (owner_items-AllSame o owner) (
          AllSame-append (author_items (metadata_after o) o) emails (author_items-AllSame o)
            same)) in
    let empty = normalize_replacements-AllSame items all_same in
    let known : (not (is_blank (new_owner o)) && not (patterns.owner (new_owner o))) ≡ false =
      ground arith in
    let kept : (not (is_blank (new_owner o)) && is_blank (new_owner o)) ≡ false = ground arith in
    (
      make_replacements-none patterns (metadata_after o) o emails known (rw owner kept) found empty,
      refl,
    )
