-- ===== src/Item/Cursor/Fields.antt =====
-- The fields of the cursor payload: what `putTime` writes `readTime` reads.
use go_clean_architecture.Prelude.{
  ℕ, zero, suc, ◌≡◌, refl, true, some, [], ◌∷◌, ◌++◌, arith, Bytes, bytes_eq, bytes_eq_refl,
  replicate, ok,
}
use go_clean_architecture.Std.Time.{
  Time, IsNormal, to_utc, add, marshal_binary, equal, unix, unix_seconds,
  unmarshal_binary-marshal_binary, length-marshal_binary,
}
use go_clean_architecture.Std.Base64.{IsByteList}
use go_clean_architecture.Item.Cursor.{put_time, read_time, read_optional_time}

pub append-IsByteList : (xs ys : Bytes) → IsByteList xs → IsByteList ys → IsByteList (xs ++ ys)
append-IsByteList [] ys h k = k
append-IsByteList (x ∷ xs) ys h k = (h.0, append-IsByteList xs ys h.1 k)

pub replicate-IsByteList : (n : ℕ) → IsByteList (replicate n 0)
replicate-IsByteList zero = tt
replicate-IsByteList (suc n) = (omega arith, replicate-IsByteList n)

pub marshal_binary-IsByteList : (t : Time) → IsByteList (marshal_binary t)
unfolding marshal_binary
marshal_binary-IsByteList t = omega arith

pub put_time_lem : (t : Time) → put_time t ≡ ok (marshal_binary (to_utc t))
unfolding put_time
put_time_lem t = rw (length-marshal_binary (to_utc t)) refl

pub read_time-marshal_binary :
    (t : Time) → IsNormal t → read_time (marshal_binary (to_utc t)) ≡ some (to_utc t)
unfolding read_time
read_time-marshal_binary t h =
    rw
      (
        unmarshal_binary-marshal_binary (to_utc t)
            (record { sec_word = h.sec_word; nsec_second = h.nsec_second }),
        read_time,
      )
      (rw (bytes_eq_refl (marshal_binary (to_utc t))))

-- The first byte, the version, tells a time from the field of a token without expiry.
pub read_optional_time-marshal_binary :
    (t : Time) → IsNormal t → read_optional_time (marshal_binary (to_utc t)) ≡ some (to_utc t)
unfolding read_optional_time marshal_binary bytes_eq
read_optional_time-marshal_binary t h = read_time-marshal_binary t h

pub add-IsNormal : (t : Time) (d : ℕ) → IsNormal (add t d)
unfolding add
add-IsNormal t d = record { sec_word = ground arith; nsec_second = omega arith }

-- An instant that Go can hold comes back from Unix seconds and nanoseconds.
pub unix-unix_seconds :
    (t : Time) → IsNormal t → equal (unix (unix_seconds (to_utc t)) t.nsec) (to_utc t) ≡ true
unfolding unix equal
unix-unix_seconds t h = ground arith
