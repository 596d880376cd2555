-- ===== src/Std/Text.antt =====
-- Go strings that are read as text: the sequence that `range` yields over one. `point c` is the
-- code point of a valid encoding, `bad b` a byte that is part of none.
use go_clean_architecture.Prelude.{
  ℕ, ◌+◌, ◌/◌, ◌%◌, ◌≡◌, ◌≤◌, refl, not, length-append, Bool, true, false, ◌&&◌, ◌||◌, List, [],
  ◌∷◌, ◌++◌, ltb, leb, ◌==◌, if◌then◌else◌, Bytes, length, all, any, arith,
}

pub data Rune : Type 0 where
  point : ℕ → Rune
  bad : ℕ → Rune

abbrev pub Text : Type 0
Text = List Rune

-- The bytes of a rune.
unfoldable pub encode_rune : Rune → Bytes
encode_rune (bad b) = b ∷ []
encode_rune (point c) =
    if ltb c 0x80
    then c ∷ []
    else if ltb c 0x800
    then (0xc0 + c / 64) ∷ (0x80 + c % 64) ∷ []
    else if ltb c 0x10000
    then (0xe0 + c / 4096) ∷ (0x80 + c / 64 % 64) ∷ (0x80 + c % 64) ∷ []
    else (0xf0 + c / 262144) ∷ (0x80 + c / 4096 % 64) ∷ (0x80 + c / 64 % 64) ∷ (0x80 + c % 64) ∷ []

-- The bytes of the string.
unfoldable pub to_bytes : Text → Bytes
unfolding encode_rune
to_bytes [] = []
to_bytes (r ∷ rs) = encode_rune r ++ to_bytes rs

-- An ASCII string.
abbrev pub ascii : Bytes → Text
ascii [] = []
ascii (b ∷ bs) = point b ∷ ascii bs

abbrev pub is_point : Rune → Bool
is_point (point c) = true
is_point (bad b) = false

-- `utf8.ValidString`
unfoldable pub valid_string : Text → Bool
valid_string = all is_point

-- `utf8.RuneCountInString`
abbrev pub rune_count : Text → ℕ
rune_count = length

-- `unicode.IsSpace`; an invalid byte counts as U+FFFD.
unfoldable pub is_space : Rune → Bool
is_space (bad b) = false
is_space (point c) =
    (leb 9 c && leb c 13)
    || ((c == 0x20)
        || ((c == 0x85)
            || ((c == 0xa0)
                || ((c == 0x1680)
                    || ((leb 0x2000 c && leb c 0x200a)
                        || ((c == 0x2028)
                            || ((c == 0x2029)
                                || ((c == 0x202f) || ((c == 0x205f) || (c == 0x3000))))))))))

-- `unicode.IsControl`
unfoldable pub is_control : Rune → Bool
is_control (bad b) = false
is_control (point c) = leb c 0x1f || (leb 0x7f c && leb c 0x9f)

-- `strings.TrimSpace`
pub trim_left : Text → Text
trim_left [] = []
trim_left (r ∷ rs) = if is_space r then trim_left rs else r ∷ rs

pub push_trimmed : Rune → Text → Text
push_trimmed r [] = if is_space r then [] else r ∷ []
push_trimmed r (s ∷ ss) = r ∷ s ∷ ss

pub trim_right : Text → Text
unfolding push_trimmed
trim_right [] = []
trim_right (r ∷ rs) = push_trimmed r (trim_right rs)

unfoldable pub trim_space : Text → Text
unfolding trim_left trim_right is_space
trim_space t = trim_right (trim_left t)

rune_eq : Rune → Rune → Bool
rune_eq (point a) (point b) = a == b
rune_eq (bad a) (bad b) = a == b
rune_eq _ _ = false

-- `==` of two strings.
unfoldable pub text_eq : Text → Text → Bool
unfolding rune_eq
text_eq [] [] = true
text_eq (r ∷ rs) (s ∷ ss) = rune_eq r s && text_eq rs ss
text_eq _ _ = false

pub text_eq→eq : (s t : Text) → text_eq s t ≡ true → s ≡ t
unfolding text_eq
text_eq→eq [] [] h = refl
text_eq→eq [] (y ∷ ys) h = cc
text_eq→eq (x ∷ xs) [] h = cc
text_eq→eq (point a ∷ xs) (point b ∷ ys) h = ground (arith, text_eq→eq xs ys)
text_eq→eq (bad a ∷ xs) (bad b ∷ ys) h = ground (arith, text_eq→eq xs ys)
text_eq→eq (point a ∷ xs) (bad b ∷ ys) h = cc
text_eq→eq (bad a ∷ xs) (point b ∷ ys) h = cc

pub text_eq_refl : (s : Text) → text_eq s s ≡ true
unfolding text_eq
text_eq_refl [] = refl
text_eq_refl (point a ∷ xs) = ground (arith, text_eq_refl xs)
text_eq_refl (bad a ∷ xs) = ground (arith, text_eq_refl xs)

-- Neither end of the text is a space.
trim_left_ends : (t : Text) (r : Rune) (rs : Text) → trim_left t ≡ r ∷ rs → is_space r ≡ false
unfolding trim_left
trim_left_ends [] r rs h = cc
trim_left_ends (x ∷ xs) r rs h = ground (arith, trim_left_ends xs r rs)

trim_right-trim_right : (t : Text) → trim_right (trim_right t) ≡ trim_right t
unfolding trim_right
trim_right-trim_right [] = refl
trim_right-trim_right (r ∷ rs) = ground (arith, trim_right-trim_right rs)

trim_left_fixed :
    (r : Rune) (rs : Text)
    → is_space r ≡ false
    → trim_left (trim_right (r ∷ rs)) ≡ trim_right (r ∷ rs)
unfolding trim_left trim_right
trim_left_fixed r rs h = ground arith

trim_space-trim_left :
    (t u : Text) → trim_left t ≡ u → trim_right (trim_left (trim_right u)) ≡ trim_right u
unfolding trim_left trim_right
trim_space-trim_left t [] e = refl
trim_space-trim_left t (r ∷ rs) e =
    rw (trim_left_fixed r rs (trim_left_ends t r rs e)) (trim_right-trim_right (r ∷ rs))

-- Trimming twice is trimming once.
pub trim_space-trim_space : (t : Text) → trim_space (trim_space t) ≡ trim_space t
unfolding trim_space
trim_space-trim_space t = trim_space-trim_left t (trim_left t) refl

trim_left-unspaced : (t : Text) → any is_space t ≡ false → trim_left t ≡ t
unfolding trim_left
trim_left-unspaced [] h = refl
trim_left-unspaced (r ∷ rs) h = ground arith

push_trimmed-unspaced : (r : Rune) (rs : Text) → is_space r ≡ false → push_trimmed r rs ≡ r ∷ rs
unfolding push_trimmed
push_trimmed-unspaced r [] h = rw h refl
push_trimmed-unspaced r (s ∷ ss) h = refl

trim_right-unspaced : (t : Text) → any is_space t ≡ false → trim_right t ≡ t
unfolding trim_right
trim_right-unspaced [] h = refl
trim_right-unspaced (r ∷ rs) h =
    rw (trim_right-unspaced rs (ground arith)) (push_trimmed-unspaced r rs (ground arith))

-- Text without a space is not trimmed.
pub trim_space-unspaced : (t : Text) → any is_space t ≡ false → trim_space t ≡ t
unfolding trim_space
trim_space-unspaced t plain = rw (trim_left-unspaced t plain) (trim_right-unspaced t plain)

all-trim_left : (p : Rune → Bool) (t : Text) → all p t ≡ true → all p (trim_left t) ≡ true
unfolding trim_left
all-trim_left p [] h = h
all-trim_left p (r ∷ rs) h = ground (arith, all-trim_left p rs)

all-push_trimmed :
    (p : Rune → Bool) (r : Rune) (t : Text)
    → p r ≡ true
    → all p t ≡ true
    → all p (push_trimmed r t) ≡ true
unfolding push_trimmed
all-push_trimmed p r [] h k = ground arith
all-push_trimmed p r (s ∷ ss) h k = ground arith

all-trim_right : (p : Rune → Bool) (t : Text) → all p t ≡ true → all p (trim_right t) ≡ true
unfolding trim_right
all-trim_right p [] h = h
all-trim_right p (r ∷ rs) h =
    all-push_trimmed p r (trim_right rs) (ground arith) (all-trim_right p rs (ground arith))

-- What holds of all runes of a text holds of those that trimming leaves.
pub all-trim_space : (p : Rune → Bool) (t : Text) → all p t ≡ true → all p (trim_space t) ≡ true
unfolding trim_space
all-trim_space p t h = all-trim_right p (trim_left t) (all-trim_left p t h)

any-all : (p : Rune → Bool) (t : Text) → any p t ≡ false → all (λ r. not (p r)) t ≡ true
any-all p [] h = refl
any-all p (r ∷ rs) h = ground (arith, any-all p rs)

all-any : (p : Rune → Bool) (t : Text) → all (λ r. not (p r)) t ≡ true → any p t ≡ false
all-any p [] h = refl
all-any p (r ∷ rs) h = ground (arith, all-any p rs)

pub any-trim_space : (p : Rune → Bool) (t : Text) → any p t ≡ false → any p (trim_space t) ≡ false
any-trim_space p t h = all-any p (trim_space t) (all-trim_space (λ r. not (p r)) t (any-all p t h))

length-trim_left : (t : Text) → length (to_bytes (trim_left t)) ≤ length (to_bytes t)
unfolding trim_left to_bytes
length-trim_left [] = omega arith
length-trim_left (r ∷ rs) =
    ground (arith, length-trim_left rs, length-append (encode_rune r) (to_bytes rs))

length-push_trimmed :
    (r : Rune) (t : Text)
    → length (to_bytes (push_trimmed r t)) ≤ length (encode_rune r) + length (to_bytes t)
unfolding push_trimmed to_bytes
length-push_trimmed r [] = ground (arith, length-append (encode_rune r) [])
length-push_trimmed r (s ∷ ss) =
    omega (arith, length-append (encode_rune r) (encode_rune s ++ to_bytes ss))

length-trim_right : (t : Text) → length (to_bytes (trim_right t)) ≤ length (to_bytes t)
unfolding trim_right to_bytes
length-trim_right [] = omega arith
length-trim_right (r ∷ rs) = omega (
  arith,
  length-push_trimmed r (trim_right rs),
  length-trim_right rs,
  length-append (encode_rune r) (to_bytes rs),
)

pub length-trim_space : (t : Text) → length (to_bytes (trim_space t)) ≤ length (to_bytes t)
unfolding trim_space
length-trim_space t = omega (arith, length-trim_right (trim_left t), length-trim_left t)
