-- ===== src/Bootstrap/Run/Whole.antt =====
-- Every file of a checkout is wholly old or wholly new, however a run ends.
use go_clean_architecture.Prelude.{
  ℕ, ◌≡◌, ◌⊎◌, refl, sym, ap, ◌∙◌, true, false, not, ◌&&◌, inl, inr, Option, none, some, List, [],
  ◌∷◌, arith, Bytes, bytes_eq, bytes_eq→eq, bytes_ltb, Result, ok, err, fail_if, of_option, map_err,
  Bool-cases, Option-cases, Result-cases, step_ok,
}
use mathlib.Core.Path.{subst}
use go_clean_architecture.Dict.{lookup, insert}
use go_clean_architecture.Memory.{sort_slice}
use go_clean_architecture.Dict.Laws.{lookup-insert}
use go_clean_architecture.Bootstrap.{Replacement, replace_once}
use go_clean_architecture.Bootstrap.Plan.{
  Patterns, Options, Metadata, parse_options, make_replacements,
}
use go_clean_architecture.Bootstrap.Files.{
  Kind, regular, symlink, other_kind, is_regular, File, Tree, PathLib, Readers, bad_options,
  not_a_checkout, dirty_worktree, no_listing, FileChange, Verdict, skipped, unchanged, changed,
  add_verdict, safe_path, judge, collect_changes, read_metadata,
}
use go_clean_architecture.Bootstrap.Run.{
  Step, create_temp, change_mode, write_temp, sync_temp, close_temp, rename, sync_directory,
  atomic_replace, write_changes, World, prepare, run, written,
}

module _ (after_write : ℕ → ℕ) where
  -- A file is as it was, or its text has been replaced, and of its mode there is what a write leaves.
  abbrev pub IsWholeAt : List Replacement → Tree → Tree → Bytes → Type 0
  IsWholeAt rs old new p =
      (lookup p new ≡ lookup p old)
      ⊎ ((f : File) × (out : Bytes) × (f.kind ≡ regular)
          × (lookup p old ≡ some f)
          × (replace_once f.content rs ≡ some out)
          × (lookup p new ≡ some (record f { content = out; mode = after_write f.mode })))

  abbrev pub IsWhole : List Replacement → Tree → Tree → Type 0
  IsWhole rs old new = (p : Bytes) → IsWholeAt rs old new p

  -- A change is the rewriting of a file.
  abbrev pub IsFrom : List Replacement → Tree → FileChange → Type 0
  IsFrom rs tree c =
      (f : File) × (lookup c.path tree ≡ some f)
      × (replace_once f.content rs ≡ some c.after)
      × (written after_write c ≡ record f { content = c.after; mode = after_write f.mode })

  abbrev pub AllFrom : List Replacement → Tree → List FileChange → Type 0
  AllFrom rs tree [] = Unit {0}
  AllFrom rs tree (c ∷ cs) = IsFrom rs tree c × AllFrom rs tree cs

  is_regular-eq : (k : Kind) → is_regular k ≡ true → k ≡ regular
  is_regular-eq regular h = refl
  is_regular-eq symlink h = absurd (ground arith)
  is_regular-eq other_kind h = absurd (ground arith)

  judge-IsFrom :
      (paths : PathLib) (rs : List Replacement) (tree : Tree) (name : Bytes) (c : FileChange)
      → judge paths tree rs name ≡ ok (changed c)
      → IsFrom rs tree c
  unfolding judge
  judge-IsFrom paths rs tree name c h = elim (Result-cases (safe_path paths name)) [
    | inr (e, bad) ↦ absurd (ground (arith, h, bad))
    | inl (path, safe) ↦ elim (Option-cases (lookup path tree)) [
      | inl e ↦ absurd (ground (arith, h, safe, e))
      | inr (f, found) ↦ elim (Option-cases (replace_once f.content rs)) [
        | inl e ↦ absurd (ground (arith, h, safe, found, e))
        | inr (after, ran) ↦
            let e : record { relative = name; path = path; after = after; mode = f.mode } ≡ c =
              ground (arith, h, safe, found, ran) in
            let kind = is_regular-eq f.kind (ground (arith, h, safe, found, ran)) in
            let readable : f.readable ≡ true = ground (arith, h, safe, found, ran) in
            subst (IsFrom rs tree) e (f, found, ran, rw (kind, readable) refl)
      ]
    ]
  ]

  add_verdict-AllFrom :
      (rs : List Replacement) (tree : Tree) (v : Verdict) (cs : List FileChange) (n : ℕ)
      → ((c : FileChange) → v ≡ changed c → IsFrom rs tree c)
      → AllFrom rs tree cs
      → AllFrom rs tree ((add_verdict v (cs, n)).0)
  add_verdict-AllFrom rs tree skipped cs n h k = k
  add_verdict-AllFrom rs tree unchanged cs n h k = k
  add_verdict-AllFrom rs tree (changed c) cs n h k = (h c refl, k)

  collect_changes-AllFrom :
      (paths : PathLib) (rs : List Replacement) (tree : Tree) (names : List Bytes)
      (cs : List FileChange) (n : ℕ)
      → collect_changes paths tree rs names ≡ ok (cs, n)
      → AllFrom rs tree cs
  unfolding collect_changes
  collect_changes-AllFrom paths rs tree [] cs n h =
      let e : [] ≡ cs = ground arith in subst (AllFrom rs tree) e tt
  collect_changes-AllFrom paths rs tree (name ∷ names) cs n h =
      elim (Result-cases (judge paths tree rs name)) [
        | inr (e, bad) ↦ absurd (ground (arith, rw (collect_changes, bad) at h))
        | inl (v, judged) ↦ elim (Result-cases (collect_changes paths tree rs names)) [
          | inr (e, bad) ↦ absurd (ground (arith, rw (collect_changes, judged, bad) at h))
          | inl ((ds, k), rest) ↦
              let same = rw (collect_changes, judged, rest) at h in
              let e : (add_verdict v (ds, k)).0 ≡ cs = ground (arith, same) in
              subst (AllFrom rs tree) e (
                add_verdict-AllFrom rs tree v ds k
                  (λ c is. judge-IsFrom paths rs tree name c (judged ∙ rw is refl))
                  (collect_changes-AllFrom paths rs tree names ds k rest))
        ]
      ]

  -- A write of a change keeps every file whole.
  insert-IsWhole :
      (rs : List Replacement) (old now : Tree) (c : FileChange)
      → IsFrom rs old c
      → IsWhole rs old now
      → IsWhole rs old (insert c.path (written after_write c) now)
  insert-IsWhole rs old now c (f, was, ran, named) h p =
      let law = lookup-insert c.path p (written after_write c) now in
      elim (Bool-cases (bytes_eq c.path p)) [
        | inr apart ↦
            let kept : lookup p (insert c.path (written after_write c) now) ≡ lookup p now =
              law ∙ rw apart refl in
            elim (h p) [
              | inl e ↦ inl (kept ∙ e)
              | inr (e, out, plain, was', ran', new) ↦ inr (e, out, plain, was', ran', kept ∙ new)
            ]
        | inl here ↦
            let at = bytes_eq→eq c.path p here in
            inr (
              f,
              c.after,
              ap (λ g. g.kind) (sym named),
              rw (← at) was,
              ran,
              law ∙ (rw here refl ∙ ap some named),
            )
      ]

  atomic_replace-IsWhole :
      (rs : List Replacement) (old now : Tree) (failing : Option Step) (c : FileChange)
      → IsFrom rs old c
      → IsWhole rs old now
      → IsWhole rs old ((atomic_replace after_write failing c now).1)
  unfolding atomic_replace
  atomic_replace-IsWhole rs old now none c from h = insert-IsWhole rs old now c from h
  atomic_replace-IsWhole rs old now (some sync_directory) c from h =
      insert-IsWhole rs old now c from h
  atomic_replace-IsWhole rs old now (some create_temp) c from h = h
  atomic_replace-IsWhole rs old now (some change_mode) c from h = h
  atomic_replace-IsWhole rs old now (some write_temp) c from h = h
  atomic_replace-IsWhole rs old now (some sync_temp) c from h = h
  atomic_replace-IsWhole rs old now (some close_temp) c from h = h
  atomic_replace-IsWhole rs old now (some rename) c from h = h

  write_changes-IsWhole :
      (rs : List Replacement) (old now : Tree) (failing : Bytes → Option Step)
      (cs : List FileChange)
      → AllFrom rs old cs
      → IsWhole rs old now
      → IsWhole rs old ((write_changes after_write failing cs now).1)
  unfolding write_changes
  write_changes-IsWhole rs old now failing [] from h = h
  write_changes-IsWhole rs old now failing (c ∷ cs) from h =
      let next = atomic_replace-IsWhole rs old now (failing c.path) c from.0 h in
      elim (Bool-cases ((atomic_replace after_write (failing c.path) c now).0)) [
        | inr broken ↦ rw (write_changes, broken) next
        | inl done ↦
            rw (write_changes, done)
              (write_changes-IsWhole rs old ((atomic_replace after_write (failing c.path) c now).1)
                failing cs from.1 next)
      ]

-- The replacements of a run that is no dry run: of its options, and of the metadata that are read in the checkout.
abbrev pub IsPlanned :
    Patterns → PathLib → Readers → World → Tree → Options → List Replacement → Type 0
IsPlanned patterns paths readers w tree o rs =
    (files : List Bytes) × (meta : Metadata) × (parse_options patterns w.flags w.positional ≡ ok o)
    × (w.tracked ≡ some files)
    × (read_metadata paths readers tree (sort_slice bytes_ltb files) ≡ ok meta)
    × (make_replacements patterns meta o ≡ ok rs)

of_option-ok : {E A : Type 0} (x : Option A) (e : E) {v : A} → of_option x e ≡ ok v → x ≡ some v
of_option-ok none e h = absurd (ground arith)
of_option-ok (some a) e h = ground arith

map_err-ok : {E F A : Type 0} (f : E → F) (r : Result E A) {v : A} → map_err f r ≡ ok v → r ≡ ok v
map_err-ok f (ok a) h = ground arith
map_err-ok f (err e) h = absurd (ground arith)

-- What a run that goes on to its files has found.
prepare-IsPlanned :
    (patterns : Patterns) (paths : PathLib) (readers : Readers) (w : World) (tree : Tree)
    (o : Options) (cs : List FileChange) (n : ℕ)
    → prepare patterns paths readers w tree ≡ ok (o, cs, n)
    → (rs : List Replacement) × IsPlanned patterns paths readers w tree o rs
      × AllFrom w.after_write rs tree cs
unfolding prepare
prepare-IsPlanned patterns paths readers w tree o cs n h =
    let (o', parsed, h1) =
      step_ok (map_err bad_options (parse_options patterns w.flags w.positional)) _ h in
    let (_, _, h2) = step_ok (fail_if (not w.is_checkout) not_a_checkout) _ h1 in
    let (_, _, h3) = step_ok (fail_if (not o'.force && not w.is_clean) dirty_worktree) _ h2 in
    let (files, listed, h4) = step_ok (of_option w.tracked no_listing) _ h3 in
    let names = sort_slice bytes_ltb files in
    let (meta, found, h5) = step_ok (read_metadata paths readers tree names) _ h4 in
    let (rs, planned, h6) =
      step_ok (map_err bad_options (make_replacements patterns meta o')) _ h5 in
    let ((ds, k), collected, h7) = step_ok (collect_changes paths tree rs names) _ h6 in
    let same : o' ≡ o = ground (arith, h7) in
    let changes : ds ≡ cs = ground (arith, h7) in
    (
      rs,
      (
        files,
        meta,
        map_err-ok bad_options _ parsed ∙ rw same refl,
        of_option-ok w.tracked no_listing listed,
        found,
        subst (λ x. make_replacements patterns meta x ≡ ok rs) same
            (map_err-ok bad_options _ planned),
      ),
      subst (AllFrom w.after_write rs tree) changes
          (collect_changes-AllFrom w.after_write paths rs tree _ ds k collected),
    )

-- However a run ends, and whichever step of a write fails, either no file has changed, or the run was no dry run and every
-- path holds what it held, or the regular file there with its whole text rewritten, by the replacements that follow from
-- the options and from the metadata read in the checkout, and with the mode that a write leaves of its mode.
pub run-IsWhole :
    (patterns : Patterns) (paths : PathLib) (readers : Readers) (w : World) (tree : Tree)
    → ((run patterns paths readers w tree).1 ≡ tree)
      ⊎ ((o : Options) × (rs : List Replacement) × (o.dry_run ≡ false)
          × IsPlanned patterns paths readers w tree o rs
          × IsWhole w.after_write rs tree ((run patterns paths readers w tree).1))
unfolding run
run-IsWhole patterns paths readers w tree =
    elim (Result-cases (prepare patterns paths readers w tree)) [
      | inr (e, bad) ↦ inl (rw (run, bad) refl)
      | inl ((o, cs, n), ready) ↦
          let (rs, planned, from) = prepare-IsPlanned patterns paths readers w tree o cs n ready in
          elim (Bool-cases o.dry_run) [
            | inl dry ↦ inl (rw (run, ready, dry) refl)
            | inr real ↦ inr (
              o,
              rs,
              real,
              planned,
              rw (run, ready, real)
                  (write_changes-IsWhole w.after_write rs tree tree w.failing cs from
                    (λ p. inl refl)),
            )
          ]
    ]
