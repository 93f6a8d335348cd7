-- ===== src/Index/Cookies.antt =====
-- The offset of each key's list in the postings, crates/nixdex-core/src/basename_index.rs.
use mathlib.Core.List.{append_assoc, append-nil}
use mathlib.Core.Path.{subst}
use nixdex.Prelude.{
  ℕ, ◌+◌, ◌^◌, ◌≤◌, ◌<◌, ◌≡◌, refl, sym, arith, Option, none, some, List, [], ◌∷◌, ◌++◌, length,
  length-append, ok, Bool-cases, inl, inr,
}
use nixdex.Prelude.Bytes.{Bytes, bytes_eq, bytes_eq_refl, bytes_eq→eq}
use nixdex.Prelude.SortedMap.{SortedMap, lookup, lookup-above, IsAscending, AreAbove}
use nixdex.Index.{Roaring, write_postings, read_at}
use nixdex.Index.Postings.{
  AreWords, AreStrict, IsPackable, chunk, read_ordinals_at-chunk, ordinals_bytes-chunk,
}

module _ (r : Roaring) where
  -- The sets of a map, as lists that fit the format.
  abbrev pub ArePackable : ℕ → SortedMap (r.Bitmap) → Type 0
  ArePackable max_ordinals [] = Unit
  ArePackable max_ordinals ((key, s) ∷ m) =
      AreStrict (r.iter s)
      × AreWords (r.iter s)
      × (length (r.iter s) ≤ max_ordinals)
      × ArePackable max_ordinals m

  unfoldable pub chunks : SortedMap (r.Bitmap) → Bytes
  chunks [] = []
  chunks ((key, s) ∷ m) = chunk (r.iter s) ++ chunks m

  unfoldable pub cookies : ℕ → SortedMap (r.Bitmap) → SortedMap ℕ
  cookies offset [] = []
  cookies offset ((key, s) ∷ m) = (key, offset) ∷ cookies (offset + length (chunk (r.iter s))) m

  pub write_postings-chunks :
      (max_ordinals : ℕ)
      → max_ordinals < 2 ^ 32
      → (m : SortedMap (r.Bitmap)) (raw : Bytes) → ArePackable max_ordinals m
      → write_postings r m raw ≡ ok (raw ++ chunks m, cookies (length raw) m)
  unfolding write_postings chunks cookies
  write_postings-chunks max_ordinals small [] raw h = rw (append-nil raw) refl
  write_postings-chunks max_ordinals small ((key, s) ∷ m) raw (strict, words, few, rest) =
      let packed = chunk (r.iter s) in
      let later = write_postings-chunks max_ordinals small m (raw ++ packed) rest in
      rw
        (
          ordinals_bytes-chunk (r.iter s) strict (omega arith),
          later,
          append_assoc raw packed (chunks m),
          length-append raw packed,
        )
        refl

  -- The ordinals of a key.
  abbrev pub posting : Option (r.Bitmap) → List ℕ
  posting none = []
  posting (some s) = r.iter s

  pub read_at-cookies :
      (max_ordinals : ℕ)
      → max_ordinals < 2 ^ 32
      → (m : SortedMap (r.Bitmap)) (before : Bytes) (key : Bytes) → ArePackable max_ordinals m
      → length (before ++ chunks m) < 2 ^ 64
      → read_at max_ordinals (before ++ chunks m) (lookup key (cookies (length before) m))
        ≡ ok (posting (lookup key m))
  unfolding cookies chunks lookup
  read_at-cookies max_ordinals small [] before key h fits = refl
  read_at-cookies max_ordinals small ((k, s) ∷ m) before key (strict, words, few, rest) fits =
      let packed = chunk (r.iter s) in
      let moved = append_assoc before packed (chunks m) in
      let fits' : length ((before ++ packed) ++ chunks m) < 2 ^ 64 =
        subst (λ u. length u < 2 ^ 64) (sym moved) fits in
      let later = read_at-cookies max_ordinals small m (before ++ packed) key rest fits' in
      let later' =
        subst
          (λ u.
            read_at max_ordinals u (lookup key (cookies (length (before ++ packed)) m))
            ≡ ok (posting (lookup key m)))
          moved later in
      elim (Bool-cases (bytes_eq k key)) [
        | inl e ↦ rw e (
            read_ordinals_at-chunk max_ordinals (r.iter s) before (chunks m) words few (omega arith)
              fits)
        | inr e ↦ rw e (
            subst
              (λ n.
                read_at max_ordinals (before ++ (packed ++ chunks m)) (lookup key (cookies n m))
                ≡ ok (posting (lookup key m)))
              (length-append before packed) later')
      ]

  cookies-AreAbove :
      (key : Bytes) (offset : ℕ) (m : SortedMap (r.Bitmap))
      → AreAbove key m
      → AreAbove key (cookies offset m)
  unfolding cookies
  cookies-AreAbove key offset [] h = tt
  cookies-AreAbove key offset ((k, s) ∷ m) (first, rest) =
      (first, cookies-AreAbove key (offset + length (chunk (r.iter s))) m rest)

  pub cookies-IsAscending :
      (offset : ℕ) (m : SortedMap (r.Bitmap)) → IsAscending m → IsAscending (cookies offset m)
  unfolding cookies
  cookies-IsAscending offset [] h = tt
  cookies-IsAscending offset ((k, s) ∷ m) (first, rest) = (
    cookies-AreAbove k (offset + length (chunk (r.iter s))) m first,
    cookies-IsAscending (offset + length (chunk (r.iter s))) m rest,
  )

  pub each-ArePackable :
      (max_ordinals : ℕ) (m : SortedMap (r.Bitmap))
      → IsAscending m
      → ((key : Bytes) → IsPackable max_ordinals (posting (lookup key m)))
      → ArePackable max_ordinals m
  unfolding lookup
  each-ArePackable max_ordinals [] h each = tt
  each-ArePackable max_ordinals ((k, s) ∷ m) (first, rest) each =
      let here : lookup k ((k, s) ∷ m) ≡ some s = rw (bytes_eq_refl k) refl in
      let (strict, words, few) = subst Fits here (each k) in
      (strict, words, few, each-ArePackable max_ordinals m rest tail)
    where
      Fits : Option (r.Bitmap) → Type 0
      Fits o = IsPackable max_ordinals (posting o)

      tail : (key : Bytes) → IsPackable max_ordinals (posting (lookup key m))
      tail key = elim (Bool-cases (bytes_eq k key)) [
        | inl e ↦
            let gone : lookup key m ≡ none =
              subst (λ u. lookup u m ≡ none) (bytes_eq→eq k key e) (lookup-above k m first) in
            subst Fits (sym gone) (tt, tt, omega arith)
        | inr e ↦
            let later : lookup key ((k, s) ∷ m) ≡ lookup key m = rw e refl in
            subst Fits later (each key)
      ]
