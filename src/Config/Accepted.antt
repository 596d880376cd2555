-- ===== src/Config/Accepted.antt =====
-- What a configuration that `Validate` accepts has passed.
use go_clean_architecture.Prelude.{
  ℕ, ◌*◌, ◌≡◌, refl, Bool, true, false, ◌&&◌, ◌||◌, inl, inr, some, List, [], ◌∷◌, ◌++◌, arith, leb,
  Bytes, length, all, any, Result, ok, err, ◌>>◌, fail_if, Option-cases,
}
use go_clean_architecture.Std.Text.{
  Text, Rune, point, bad, to_bytes, encode_rune, trim_space, trim_space-unspaced, is_space,
}
use go_clean_architecture.Std.Hex
use go_clean_architecture.Config.{
  Libs, Config, auth_digest, is_empty, validate_texts, validate_auth_digest, validate_cursor_key,
  validate_required, validate_sampler, validate_limits,
}
use go_clean_architecture.Config.Endpoint.{validate_exporter, validate}

-- The parts of `Validate` that a configuration has passed.
pub record IsAccepted {F : Type 0} (libs : Libs F) (c : Config F) : Type 0 where
  pub texts : validate_texts c ≡ ok tt
  pub digest : validate_auth_digest c ≡ ok tt
  pub key : validate_cursor_key libs c ≡ ok tt
  pub required : validate_required c ≡ ok tt
  pub sampler : validate_sampler libs c ≡ ok tt
  pub exporter : validate_exporter libs c ≡ ok tt
  pub has_digest : (c.auth_enabled && is_empty c.auth_digest) ≡ false
  pub limits : c.limit_enabled ≡ true → validate_limits libs c ≡ ok tt

-- Both steps of a check that passes have passed.
pub both_ok :
    {E A : Type 0} (a : Result E (Unit {0})) (b : Result E A) {v : A}
    → (a >> b) ≡ ok v
    → (a ≡ ok tt) × (b ≡ ok v)
both_ok (ok _) b h = (refl, h)
both_ok (err e) b h = absurd (ground arith)

-- A test that does not fail.
pub passed : {E : Type 0} (test : Bool) (e : E) → fail_if test e ≡ ok tt → test ≡ false
passed true e h = absurd (ground arith)
passed false e h = refl

pub validate-IsAccepted :
    {F : Type 0} (libs : Libs F) (c : Config F) → validate libs c ≡ ok tt → IsAccepted libs c
unfolding validate
validate-IsAccepted libs c h =
    let (texts, h1) = both_ok (validate_texts c) _ h in
    let (digest, h2) = both_ok (validate_auth_digest c) _ h1 in
    let (key, h3) = both_ok (validate_cursor_key libs c) _ h2 in
    let (required, h4) = both_ok (validate_required c) _ h3 in
    let (sampler, h5) = both_ok (validate_sampler libs c) _ h4 in
    let (exporter, h6) = both_ok (validate_exporter libs c) _ h5 in
    let (digests, h7) =
      both_ok (fail_if (c.auth_enabled && is_empty c.auth_digest) auth_digest) _ h6 in
    record {
      texts = texts;
      digest = digest;
      key = key;
      required = required;
      sampler = sampler;
      exporter = exporter;
      has_digest = passed _ _ digests;
      limits = λ on. ground (arith, h7, on);
    }

-- The digits of hexadecimal text, of either case.
abbrev pub is_hex : ℕ → Bool
is_hex c = (leb b'0' c && leb c b'9') || ((leb b'a' c && leb c b'f') || (leb b'A' c && leb c b'F'))

digit_value-is_hex : (c v : ℕ) → Hex.digit_value c ≡ some v → is_hex c ≡ true
unfolding Hex.digit_value
digit_value-is_hex c v h = ground arith

-- Text that decodes consists of digits, two for a byte.
pub decode-is_hex :
    (bs ds : Bytes) → Hex.decode bs ≡ some ds → (all is_hex bs ≡ true) × (length bs ≡ 2 * length ds)
unfolding Hex.decode
decode-is_hex [] ds h = ground arith
decode-is_hex (c ∷ []) ds h = absurd (ground arith)
decode-is_hex (c ∷ d ∷ rest) ds h = elim (Option-cases (Hex.digit_value c)) [
  | inl e ↦ absurd (ground arith)
  | inr (a, e) ↦ elim (Option-cases (Hex.digit_value d)) [
    | inl f ↦ absurd (ground arith)
    | inr (b, f) ↦ elim (Option-cases (Hex.decode rest)) [
      | inl g ↦ absurd (ground arith)
      | inr (es, g) ↦
          ground
            (arith, digit_value-is_hex c a e, digit_value-is_hex d b f, decode-is_hex rest es g)
    ]
  ]
]

all-append :
    {A : Type 0} (p : A → Bool) (xs ys : List A)
    → all p (xs ++ ys) ≡ true
    → (all p xs ≡ true) × (all p ys ≡ true)
all-append p [] ys h = (refl, h)
all-append p (x ∷ xs) ys h = ground (arith, all-append p xs ys)

is_hex-is_space : (r : Rune) → all is_hex (encode_rune r) ≡ true → is_space r ≡ false
unfolding encode_rune is_space
is_hex-is_space (bad b) h = refl
is_hex-is_space (point c) h = ground arith

hex-any_space : (t : Text) → all is_hex (to_bytes t) ≡ true → any is_space t ≡ false
unfolding to_bytes
hex-any_space [] h = refl
hex-any_space (r ∷ rs) h =
    let (first, rest) = all-append is_hex (encode_rune r) (to_bytes rs) h in
    rw (is_hex-is_space r first) (hex-any_space rs rest)

-- Text that decodes is not trimmed.
pub decode-trim_space :
    (t : Text) (ds : Bytes) → Hex.decode (to_bytes t) ≡ some ds → trim_space t ≡ t
decode-trim_space t ds h =
    trim_space-unspaced t (hex-any_space t ((decode-is_hex (to_bytes t) ds h).0))
