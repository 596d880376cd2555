-- ===== src/RateLimit/Eviction.antt =====
-- The bucket that is evicted: the one that was seen first.
use go_clean_architecture.Prelude.{
  ◌+◌, ◌≤◌, ◌≡◌, ◌≢◌, refl, true, false, ◌⊎◌, inl, inr, none, some, List, [], ◌∷◌, arith, Bytes,
  bytes_eq, bytes_eq→eq, bytes_eq_refl, bytes_ltb, bytes_ltb_irrefl, bytes_ltb_trans,
  bytes_trichotomy, length, Bool-cases,
}
use go_clean_architecture.Std.Time.{before, equal}
use go_clean_architecture.Dict.{Entry, entry, lookup, erase}
use go_clean_architecture.Dict.Laws.{IsMap, length-erase-some}
use go_clean_architecture.RateLimit.{Bucket, Limiter, goes_before, oldest_from, evict_oldest_locked}

bytes_ltb_neg_trans :
    (i j k : Bytes) → bytes_ltb i j ≡ false → bytes_ltb j k ≡ false → bytes_ltb i k ≡ false
bytes_ltb_neg_trans i j k h g =
    ground (arith, bytes_trichotomy j k, bytes_eq→eq j k, bytes_ltb_trans i k j)

module _ {F : Type 0} where
  goes_before_irrefl : (k : Bytes) (o : Bucket F) → goes_before k o k o ≡ false
  unfolding goes_before before equal
  goes_before_irrefl k o = ground (arith, bytes_ltb_irrefl k)

  goes_before_neg_trans :
      (i j k : Bytes) (a b c : Bucket F)
      → goes_before i a j b ≡ false
      → goes_before j b k c ≡ false
      → goes_before i a k c ≡ false
  unfolding goes_before before equal
  goes_before_neg_trans i j k a b c h g = ground (arith, bytes_ltb_neg_trans i j k)

  goes_before_asym :
      (i j : Bytes) (a b : Bucket F) → goes_before i a j b ≡ true → goes_before j b i a ≡ false
  unfolding goes_before before equal
  goes_before_asym i j a b h = ground (arith, bytes_ltb_trans i j i, bytes_ltb_irrefl i)

  -- A bucket was last seen before another one, or at the same time with a key that is not behind.
  abbrev pub IsSeenFirst : Bytes → Bucket F → Bytes → Bucket F → Type 0
  IsSeenFirst k b j x =
      (before b.last_seen x.last_seen ≡ true)
      ⊎ ((equal b.last_seen x.last_seen ≡ true) × (bytes_ltb j k ≡ false))

  goes_before-IsSeenFirst :
      (j k : Bytes) (x b : Bucket F) → goes_before j x k b ≡ false → IsSeenFirst k b j x
  unfolding goes_before before equal
  goes_before-IsSeenFirst j k x b h = elim (Bool-cases (before b.last_seen x.last_seen)) [
    | inl e ↦ inl e
    | inr e ↦ inr (ground arith, ground arith)
  ]

  -- The bucket of the map that was last seen first.
  pub record IsOldest (k : Bytes) (b : Bucket F) (m : List (Entry (Bucket F))) : Type 0 where
    pub found : lookup k m ≡ some b
    pub first : (j : Bytes) (x : Bucket F) → lookup j m ≡ some x → IsSeenFirst k b j x

  -- What the loop keeps: the best so far is from the list or the first one, and nothing seen goes before it.
  record IsBest (k : Bytes) (o : Bucket F) (m : List (Entry (Bucket F))) (r : Bytes) (b : Bucket F)
      : Type 0 where
    from : ((r ≡ k) × (b ≡ o)) ⊎ (lookup r m ≡ some b)
    start : goes_before k o r b ≡ false
    rest : (j : Bytes) (x : Bucket F) → lookup j m ≡ some x → goes_before j x r b ≡ false

  lookup-cons :
      (j r : Bytes) (a b : Bucket F) (m : List (Entry (Bucket F)))
      → lookup j m ≡ none
      → lookup r m ≡ some b
      → lookup r (entry j a ∷ m) ≡ some b
  unfolding lookup
  lookup-cons j r a b m absent found = ground (arith, bytes_eq→eq j r)

  -- The head of the list does not go before `r` either.
  rest_cons :
      (j r : Bytes) (a b : Bucket F) (m : List (Entry (Bucket F)))
      → goes_before j a r b ≡ false
      → ((l : Bytes) (x : Bucket F) → lookup l m ≡ some x → goes_before l x r b ≡ false)
      → (l : Bytes) (x : Bucket F) → lookup l (entry j a ∷ m) ≡ some x
      → goes_before l x r b ≡ false
  unfolding lookup
  rest_cons j r a b m head rest l x e = elim (Bool-cases (bytes_eq j l)) [
    | inl same ↦ ground (arith, bytes_eq→eq j l same)
    | inr other ↦ rest l x (ground arith)
  ]

  better_head :
      (k j r : Bytes) (o a b : Bucket F) (m : List (Entry (Bucket F)))
      → lookup j m ≡ none
      → goes_before j a k o ≡ true
      → IsBest j a m r b
      → IsBest k o (entry j a ∷ m) r b
  unfolding lookup
  better_head k j r o a b m absent better i = record {
    from = inr (elim i.from [
      | inl (e, f) ↦ ground (arith, bytes_eq_refl j)
      | inr found ↦ lookup-cons j r a b m absent found
    ]);
    start = goes_before_neg_trans k j r o a b (goes_before_asym j k a o better) i.start;
    rest = rest_cons j r a b m i.start i.rest;
  }

  worse_head :
      (k j r : Bytes) (o a b : Bucket F) (m : List (Entry (Bucket F)))
      → lookup j m ≡ none
      → goes_before j a k o ≡ false
      → IsBest k o m r b
      → IsBest k o (entry j a ∷ m) r b
  worse_head k j r o a b m absent worse i = record {
    from = elim i.from [
      | inl same ↦ inl same
      | inr found ↦ inr (lookup-cons j r a b m absent found)
    ];
    start = i.start;
    rest = rest_cons j r a b m (goes_before_neg_trans j k r a o b worse i.start) i.rest;
  }

  oldest_from-IsBest :
      (k : Bytes) (o : Bucket F) (m : List (Entry (Bucket F)))
      → IsMap m
      → (b : Bucket F) × IsBest k o m (oldest_from k o m) b
  unfolding oldest_from lookup
  oldest_from-IsBest k o [] h =
      (o, record { from = inl (refl, refl); start = goes_before_irrefl k o; rest = λ j x e. cc })
  oldest_from-IsBest k o (entry j a ∷ m) h = elim (Bool-cases (goes_before j a k o)) [
    | inl better ↦
        let (b, i) = oldest_from-IsBest j a m h.1 in
        rw better (b, better_head k j (oldest_from j a m) o a b m h.0 better i)
    | inr worse ↦
        let (b, i) = oldest_from-IsBest k o m h.1 in
        rw worse (b, worse_head k j (oldest_from k o m) o a b m h.0 worse i)
  ]

  -- The loop over a map that is not empty finds its oldest bucket.
  pub oldest_from-IsOldest :
      (k : Bytes) (o : Bucket F) (m : List (Entry (Bucket F)))
      → IsMap (entry k o ∷ m)
      → (b : Bucket F) × IsOldest (oldest_from k o m) b (entry k o ∷ m)
  unfolding lookup
  oldest_from-IsOldest k o m h =
      let (b, i) = oldest_from-IsBest k o m h.1 in
      let r : Bytes = oldest_from k o m in
      (
        b,
        record {
          found = elim i.from [
            | inl (e, f) ↦ ground (arith, bytes_eq_refl k)
            | inr found ↦ lookup-cons k r o b m h.0 found
          ];
          first =
              λ j x at. goes_before-IsSeenFirst j r x b (rest_cons k r o b m i.start i.rest j x at);
        },
      )

  -- A limiter with buckets, one for a key, evicts the one that was last seen before all others, or at the same time as others and with the
  -- least key among them: it loses this bucket and keeps every other.
  pub evict_oldest_locked-IsOldest :
      (l : Limiter F)
      → IsMap l.buckets
      → l.buckets ≢ []
      → (k : Bytes) × (b : Bucket F) × IsOldest k b l.buckets
        × (evict_oldest_locked l ≡ record l { buckets = erase k l.buckets })
        × (length (evict_oldest_locked l).buckets + 1 ≤ length l.buckets)
  unfolding evict_oldest_locked
  evict_oldest_locked-IsOldest l h e = evicted l.buckets refl
    where
      evicted :
          (bs : List (Entry (Bucket F)))
          → l.buckets ≡ bs
          → (k : Bytes) × (b : Bucket F) × IsOldest k b l.buckets
            × (evict_oldest_locked l ≡ record l { buckets = erase k l.buckets })
            × (length (evict_oldest_locked l).buckets + 1 ≤ length l.buckets)
      evicted [] f = absurd (e f)
      evicted (entry k o ∷ m) f =
          let (b, i) = oldest_from-IsOldest k o m (rw f at h) in
          rw f (
            oldest_from k o m,
            b,
            i,
            refl,
            length-erase-some (oldest_from k o m) (entry k o ∷ m) b i.found,
          )
