-- ===== src/Index/Ngram/Sets.antt =====
-- The sets of the entries and their intersection, crates/nixdex-core/src/ngram_index.rs.
use mathlib.Core.Path.{subst}
use nixdex.Prelude.{
  ℕ, ◌<◌, ◌≡◌, refl, sym, ap, ◌∙◌, arith, Bool, true, false, List, [], ◌∷◌, ◌==◌, ==_iff, ltb,
  if◌then◌else◌, if_elim, length, Result, ok, err, Bool-cases, inl, inr,
}
use nixdex.Prelude.Bytes.{Bytes}
use nixdex.Index.{Error, Roaring, has}
use nixdex.Index.Postings.{AreStrict}
use nixdex.Index.Trigram.Common.{has-common, common-AreStrict}
use nixdex.Index.Ngram.{
  side_version, insert_by_header, pop_order, read_bitmap_at, intersect_loop, intersect_entries,
}

module _ (r : Roaring) (postings : Bytes) where
  abbrev pub iter_of : Result (r.Bitmap) Error → List ℕ
  iter_of (ok s) = r.iter s
  iter_of (err e) = []

  -- The ordinals of a cookie.
  abbrev pub set_at : ℕ → List ℕ
  set_at cookie = iter_of (read_bitmap_at r postings cookie side_version)

  abbrev pub IsReadable : ℕ → Type 0
  IsReadable cookie =
      (s : r.Bitmap) × (read_bitmap_at r postings cookie side_version ≡ ok s) × AreStrict (r.iter s)

  abbrev pub AreReadable : List (ℕ × ℕ) → Type 0
  AreReadable [] = Unit
  AreReadable ((cookie, header) ∷ entries) = IsReadable cookie × AreReadable entries

  abbrev pub all_have : ℕ → List (ℕ × ℕ) → Bool
  all_have k [] = true
  all_have k ((cookie, header) ∷ entries) =
      if has k (set_at cookie) then all_have k entries else false

  all_have-insert_by_header :
      (k cookie header : ℕ) (entries : List (ℕ × ℕ))
      → all_have k (insert_by_header (cookie, header) entries)
        ≡ all_have k ((cookie, header) ∷ entries)
  unfolding insert_by_header
  all_have-insert_by_header k cookie header [] = refl
  all_have-insert_by_header k cookie header ((c, h) ∷ entries) =
      ground (arith, all_have-insert_by_header k cookie header entries)

  pub all_have-pop_order :
      (k : ℕ) (entries : List (ℕ × ℕ)) → all_have k (pop_order entries) ≡ all_have k entries
  unfolding pop_order
  all_have-pop_order k [] = refl
  all_have-pop_order k ((cookie, header) ∷ entries) = ground (
    arith,
    all_have-insert_by_header k cookie header (pop_order entries),
    all_have-pop_order k entries,
  )

  insert_by_header-AreReadable :
      (cookie header : ℕ) (entries : List (ℕ × ℕ))
      → IsReadable cookie
      → AreReadable entries
      → AreReadable (insert_by_header (cookie, header) entries)
  unfolding insert_by_header
  insert_by_header-AreReadable cookie header [] h hs = (h, tt)
  insert_by_header-AreReadable cookie header ((c, w) ∷ entries) h (first, rest) =
      if_elim AreReadable (ltb header w) (λ e. (h, (first, rest)))
        (λ e. (first, insert_by_header-AreReadable cookie header entries h rest))

  pub pop_order-AreReadable :
      (entries : List (ℕ × ℕ)) → AreReadable entries → AreReadable (pop_order entries)
  unfolding pop_order
  pop_order-AreReadable [] h = tt
  pop_order-AreReadable ((cookie, header) ∷ entries) (first, rest) =
      insert_by_header-AreReadable cookie header (pop_order entries) first
        (pop_order-AreReadable entries rest)

  -- A list that is not empty.
  abbrev pub IsFilled : List (ℕ × ℕ) → Type 0
  IsFilled entries = 0 < length entries

  insert_by_header-IsFilled :
      (cookie header : ℕ) (entries : List (ℕ × ℕ))
      → IsFilled (insert_by_header (cookie, header) entries)
  unfolding insert_by_header
  insert_by_header-IsFilled cookie header [] = omega arith
  insert_by_header-IsFilled cookie header ((c, w) ∷ entries) =
      if_elim IsFilled (ltb header w) (λ e. omega arith) (λ e. omega arith)

  pub pop_order-IsFilled :
      (entries : List (ℕ × ℕ)) → IsFilled entries → IsFilled (pop_order entries)
  unfolding pop_order
  pop_order-IsFilled [] h = h
  pop_order-IsFilled ((cookie, header) ∷ entries) h =
      insert_by_header-IsFilled cookie header (pop_order entries)

  has_none : (k : ℕ) (s : r.Bitmap) → (r.len s == 0) ≡ true → has k (r.iter s) ≡ false
  has_none k s e = of_length (r.iter s) (sym (r.len-iter s) ∙ (==_iff (r.len s) 0).0 e)
    where
      of_length : (os : List ℕ) → length os ≡ 0 → has k os ≡ false
      of_length [] h = refl
      of_length (o ∷ os) h = absurd (omega (arith, h))

  -- What an intersection of `acc` with the entries' sets is.
  abbrev Meets : r.Bitmap → List (ℕ × ℕ) → Result (r.Bitmap) Error → Type 0
  Meets acc entries result =
      (s : r.Bitmap) × (result ≡ ok s)
      × AreStrict (r.iter s)
      × ((k : ℕ) → has k (r.iter s) ≡ (if has k (r.iter acc) then all_have k entries else false))

  intersect_loop-Meets :
      (acc : r.Bitmap) (entries : List (ℕ × ℕ))
      → AreStrict (r.iter acc)
      → AreReadable entries
      → Meets acc entries (intersect_loop r postings side_version acc entries)
  unfolding intersect_loop
  intersect_loop-Meets acc [] strict h = (acc, refl, strict, λ k. ground arith)
  intersect_loop-Meets acc ((cookie, header) ∷ entries) strict ((b, read, sorted), rest) =
      let both = r.intersect acc b in
      let strict' : AreStrict (r.iter both) =
        subst AreStrict (sym (r.iter-intersect acc b))
          (common-AreStrict (r.iter acc) (r.iter b) strict) in
      let met : (k : ℕ)
          → has k (r.iter both) ≡ (if has k (r.iter acc) then has k (r.iter b) else false) =
        λ k. ap (has k) (r.iter-intersect acc b) ∙ has-common k (r.iter acc) (r.iter b) in
      let held : set_at cookie ≡ r.iter b = ap iter_of read in
      let (s, found, ordered, same) = intersect_loop-Meets both entries strict' rest in
      elim (Bool-cases (r.len both == 0)) [
        | inl e ↦ (
          both,
          rw (read, e) refl,
          strict',
          λ k. ground (arith, met k, has_none k both e, ap (has k) held),
        )
        | inr e ↦
            (s, rw (read, e) found, ordered, λ k. ground (arith, met k, same k, ap (has k) held))
      ]

  -- The intersection of all of them.
  pub intersect_entries-common :
      (entries : List (ℕ × ℕ))
      → IsFilled entries
      → AreReadable entries
      → (s : r.Bitmap) × (intersect_entries r postings side_version entries ≡ ok s)
        × AreStrict (r.iter s)
        × ((k : ℕ) → has k (r.iter s) ≡ all_have k entries)
  intersect_entries-common [] filled h = absurd (omega (arith, filled))
  intersect_entries-common ((cookie, header) ∷ entries) filled ((b, read, sorted), rest) =
      let (s, found, ordered, same) = intersect_loop-Meets b entries sorted rest in
      let held : set_at cookie ≡ r.iter b = ap iter_of read in
      (s, rw read found, ordered, λ k. ground (arith, same k, ap (has k) held))
