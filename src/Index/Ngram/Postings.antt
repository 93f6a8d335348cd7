-- ===== src/Index/Ngram/Postings.antt =====
-- What the postings of crates/nixdex-core/src/ngram_index.rs read back.
use mathlib.Core.List.{append_assoc, append-nil}
use mathlib.Core.Path.{subst}
use nixdex.Prelude.{
  ℕ, ◌+◌, ◌^◌, ◌≤◌, ◌<◌, ◌≡◌, refl, sym, arith, true, Option, none, some, List, [], ◌∷◌, ◌++◌, ltb,
  leb, lt→ltb, le→leb, length, length-append, ok, Bool-cases, inl, inr,
}
use nixdex.Prelude.Bytes.{Bytes, bytes_eq, bytes_eq_refl}
use nixdex.Prelude.Words.{u32_le, length-u32_le, get_range, get_range-append}
use nixdex.Prelude.SortedMap.{SortedMap, lookup, IsAscending, AreAbove}
use nixdex.Index.{Roaring, read_u32_le}
use nixdex.Index.Postings.{read_u32_le-u32_le, header}
use nixdex.Index.Cookies.{posting}
use nixdex.Index.Ngram.{
  max_serialized_bytes, postings_magic, side_version, write_bitmaps, read_bitmap_at,
  read_postings_version,
}

pub read_postings_version-header :
    (rest : Bytes)
    → read_postings_version (header postings_magic side_version ++ rest) ≡ ok side_version
unfolding read_postings_version
read_postings_version-header rest =
    let word = u32_le side_version in
    let flat = append_assoc postings_magic word rest in
    let long : leb 8 (length (postings_magic ++ (word ++ rest))) ≡ true =
      le→leb _ _ (omega (arith, length-u32_le side_version, length-append word rest)) in
    let found : get_range 0 4 (postings_magic ++ (word ++ rest)) ≡ some postings_magic =
      get_range-append [] postings_magic (word ++ rest) 4 refl in
    rw
      (
        long,
        found,
        bytes_eq_refl postings_magic,
        read_u32_le-u32_le postings_magic rest side_version 4 refl (omega arith) (omega arith),
      )
      refl

module _ (r : Roaring) where
  -- The encoding of a set.
  abbrev pub serial : r.Bitmap → Bytes
  serial s = (r.serialized s).0

  serialize-serial : (s : r.Bitmap) → r.serialize s ≡ some (serial s)
  serialize-serial s = let (bytes, written, read, opened, same) = r.serialized s in written

  -- What one set takes in the postings.
  abbrev pub blob : r.Bitmap → Bytes
  blob s = u32_le (length (serial s)) ++ serial s

  unfoldable pub blobs : SortedMap (r.Bitmap) → Bytes
  blobs [] = []
  blobs ((key, s) ∷ m) = blob s ++ blobs m

  unfoldable pub blob_cookies : ℕ → SortedMap (r.Bitmap) → SortedMap ℕ
  blob_cookies offset [] = []
  blob_cookies offset ((key, s) ∷ m) = (key, offset) ∷ blob_cookies (offset + length (blob s)) m

  -- Sets whose encodings the writer accepts.
  abbrev pub AreSerializable : SortedMap (r.Bitmap) → Type 0
  AreSerializable [] = Unit
  AreSerializable ((key, s) ∷ m) = (length (serial s) ≤ max_serialized_bytes) × AreSerializable m

  blob_cookies-AreAbove :
      (key : Bytes) (offset : ℕ) (m : SortedMap (r.Bitmap))
      → AreAbove key m
      → AreAbove key (blob_cookies offset m)
  unfolding blob_cookies
  blob_cookies-AreAbove key offset [] h = tt
  blob_cookies-AreAbove key offset ((k, s) ∷ m) (first, rest) =
      (first, blob_cookies-AreAbove key (offset + length (blob s)) m rest)

  pub blob_cookies-IsAscending :
      (offset : ℕ) (m : SortedMap (r.Bitmap)) → IsAscending m → IsAscending (blob_cookies offset m)
  unfolding blob_cookies
  blob_cookies-IsAscending offset [] h = tt
  blob_cookies-IsAscending offset ((k, s) ∷ m) (first, rest) = (
    blob_cookies-AreAbove k (offset + length (blob s)) m first,
    blob_cookies-IsAscending (offset + length (blob s)) m rest,
  )

  pub write_bitmaps-blobs :
      (m : SortedMap (r.Bitmap)) (raw : Bytes)
      → AreSerializable m
      → write_bitmaps r m raw ≡ ok (raw ++ blobs m, blob_cookies (length raw) m)
  unfolding write_bitmaps blobs blob_cookies
  write_bitmaps-blobs [] raw h = rw (append-nil raw) refl
  write_bitmaps-blobs ((key, s) ∷ m) raw (small, rest) =
      let later = write_bitmaps-blobs m (raw ++ blob s) rest in
      let short : ltb (length (serial s)) (2 ^ 32) ≡ true = lt→ltb _ _ (omega (arith, small)) in
      rw
        (
          serialize-serial s,
          le→leb _ _ small,
          short,
          later,
          append_assoc raw (blob s) (blobs m),
          length-append raw (blob s),
        )
        refl

  -- What a lookup finds: nothing, or a set with its length before it.
  abbrev pub ReadsAs : Bytes → Option ℕ → List ℕ → Type 0
  ReadsAs postings none os = os ≡ []
  ReadsAs postings (some cookie) os =
      (len : ℕ) × (read_u32_le postings cookie ≡ ok len)
      × (s : r.Bitmap) × (read_bitmap_at r postings cookie side_version ≡ ok s)
      × (r.iter s ≡ os)

  ReadsAs-blob :
      (before after : Bytes) (s : r.Bitmap)
      → length (serial s) ≤ max_serialized_bytes
      → length (before ++ (blob s ++ after)) < 2 ^ 64
      → ReadsAs (before ++ (blob s ++ after)) (some (length before)) (r.iter s)
  unfolding read_bitmap_at
  ReadsAs-blob before after s small fits =
      let (bytes, written, read, opened, same) = r.serialized s in
      let n = length (serial s) in
      let flat = append_assoc (u32_le n) (serial s) after in
      let len1 = length-append before (blob s ++ after) in
      let len2 = length-append (blob s) after in
      let len3 = length-append (u32_le n) (serial s) in
      let len4 = length-append before (u32_le n) in
      let four = length-u32_le n in
      let word : read_u32_le (before ++ (u32_le n ++ (serial s ++ after))) (length before) ≡ ok n =
        read_u32_le-u32_le before (serial s ++ after) n (length before) refl (omega (arith, small))
          (omega arith) in
      let start : length (before ++ u32_le n) ≡ length before + 4 = omega arith in
      let body' : get_range (length (before ++ u32_le n)) (length (before ++ u32_le n) + n)
            ((before ++ u32_le n) ++ (serial s ++ after))
          ≡ some (serial s) =
        get_range-append (before ++ u32_le n) (serial s) after (length (before ++ u32_le n) + n)
          refl in
      let body : get_range (length before + 4) (length before + 4 + n)
            (before ++ (u32_le n ++ (serial s ++ after)))
          ≡ some (serial s) =
        subst (λ u. get_range (length before + 4) (length before + 4 + n) u ≡ some (serial s))
          (append_assoc before (u32_le n) (serial s ++ after))
          (subst
            (λ at.
              get_range at (at + n) ((before ++ u32_le n) ++ (serial s ++ after)) ≡ some (serial s))
            start body') in
      let room1 : ltb (length before + 4) (2 ^ 64) ≡ true = lt→ltb _ _ (omega arith) in
      let room2 : ltb (length before + 4 + n) (2 ^ 64) ≡ true = lt→ltb _ _ (omega arith) in
      rw flat (n, word, read, rw (word, le→leb _ _ small, room1, room2, body, opened) refl, same)

  pub ReadsAs-blob_cookies :
      (m : SortedMap (r.Bitmap)) (before : Bytes) (key : Bytes)
      → AreSerializable m
      → length (before ++ blobs m) < 2 ^ 64
      → ReadsAs
          (before ++ blobs m)
          (lookup key (blob_cookies (length before) m))
          (posting r (lookup key m))
  unfolding blob_cookies blobs lookup
  ReadsAs-blob_cookies [] before key h fits = refl
  ReadsAs-blob_cookies ((k, s) ∷ m) before key (small, rest) fits =
      let moved = append_assoc before (blob s) (blobs m) in
      let fits' : length ((before ++ blob s) ++ blobs m) < 2 ^ 64 =
        subst (λ u. length u < 2 ^ 64) (sym moved) fits in
      let later = ReadsAs-blob_cookies m (before ++ blob s) key rest fits' in
      let later' =
        subst
          (λ u.
            ReadsAs u (lookup key (blob_cookies (length (before ++ blob s)) m))
              (posting r (lookup key m)))
          moved later in
      elim (Bool-cases (bytes_eq k key)) [
        | inl e ↦ rw e (ReadsAs-blob before (blobs m) s small fits)
        | inr e ↦ rw e (
            subst
              (λ n.
                ReadsAs (before ++ (blob s ++ blobs m)) (lookup key (blob_cookies n m))
                  (posting r (lookup key m)))
              (length-append before (blob s)) later')
      ]
