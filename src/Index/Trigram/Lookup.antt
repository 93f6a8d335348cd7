-- ===== src/Index/Trigram/Lookup.antt =====
-- Lookups in an index that was written and opened, crates/nixdex-core/src/path_trigram_index.rs.
use mathlib.Core.Path.{subst}
use nixdex.Prelude.{
  ℕ, zero, suc, ◌+◌, ◌^◌, ◌≤◌, ◌<◌, ◌≡◌, refl, ap, arith, Bool, true, false, Option, none, some,
  List, [], ◌∷◌, ◌++◌, ltb, if◌then◌else◌, length, get_elem?, Result, ok, err, ◌>>=◌, Bool-cases,
  inl, inr,
}
use nixdex.Prelude.Bytes.{Bytes}
use nixdex.Index.{Error, Fst, Roaring, has, IndexFiles}
use nixdex.Index.Postings.{header}
use nixdex.Index.Cookies.{chunks}
use nixdex.Index.Recorded.{record_keys, record_items}
use nixdex.Index.Packed.{
  IsWithin, Packed, packed, packed_files, write_index-packed_files, open_index-packed_files,
}
use nixdex.Index.Trigram.{
  PathTrigramIndexBuilder, postings_magic, side_version, max_fst_bytes, max_postings_bytes,
  max_ids_per_trigram, trigrams, record_path, write_sidecars, open_sidecars, gather, intersection,
  candidate_path_ids,
}
use nixdex.Index.Trigram.Windows.{has_all-trigrams, trigrams_short}
use nixdex.Index.Trigram.Common.{common_from, common_from-has_all}
use nixdex.Index.Trigram.Gathered.{intersection-gather}

abbrev pub each_trigrams : List Bytes → List (List Bytes)
each_trigrams [] = []
each_trigrams (path ∷ paths) = trigrams path ∷ each_trigrams paths

length-each_trigrams : (paths : List Bytes) → length (each_trigrams paths) ≡ length paths
length-each_trigrams [] = refl
length-each_trigrams (path ∷ paths) = ap suc (length-each_trigrams paths)

-- The sizes that the reader accepts.
abbrev pub HasCappedSizes : Result IndexFiles Error → Type 0
HasCappedSizes (ok files) =
    IsWithin max_fst_bytes files.fst_file × IsWithin max_postings_bytes files.postings_file
HasCappedSizes (err e) = Unit

module _ (r : Roaring) where
  -- The paths, the first with id `n`.
  unfoldable pub record_all : ℕ → List Bytes → PathTrigramIndexBuilder r → PathTrigramIndexBuilder r
  record_all n [] m = m
  record_all n (path ∷ paths) m = record_all (n + 1) paths (record_path r n path m)

  record_path-record_keys :
      (n : ℕ) (path : Bytes) (m : PathTrigramIndexBuilder r)
      → record_path r n path m ≡ record_keys r n (trigrams path) m
  unfolding record_path record_keys
  record_path-record_keys n path m = elim (Bool-cases (ltb (length path) 3)) [
    | inl e ↦ rw (e, trigrams_short path e) refl
    | inr e ↦ rw e refl
  ]

  record_all-record_items :
      (n : ℕ) (paths : List Bytes) (m : PathTrigramIndexBuilder r)
      → record_all n paths m ≡ record_items r n (each_trigrams paths) m
  unfolding record_all record_items
  record_all-record_items n [] m = refl
  record_all-record_items n (path ∷ paths) m =
      rw (record_path-record_keys n path m)
        (record_all-record_items (n + 1) paths (record_keys r n (trigrams path) m))

abbrev pub iter_some : (r : Roaring) → Option (r.Bitmap) → Option (List ℕ)
iter_some r none = none
iter_some r (some s) = some (r.iter s)

module _ (f : Fst) (r : Roaring) where
  unfoldable pub index_paths : List Bytes → Result IndexFiles Error
  index_paths paths = write_sidecars f r (record_all r 0 paths [])

  -- The ids that the index of the paths gives for a pattern, as a program that starts later finds them;
  -- none when the pattern is too short to look up.
  unfoldable pub candidates : List Bytes → Bytes → Result (Option (List ℕ)) Error
  candidates paths pattern = do
    files ← index_paths paths
    index ← open_sidecars f files
    found ← candidate_path_ids f r index pattern
    ok (iter_some r found)

  abbrev PackedPaths : List Bytes → Type 0
  PackedPaths paths =
      Packed f r max_ids_per_trigram (header postings_magic side_version) (each_trigrams paths)

  index_paths-packed_files :
      (paths : List Bytes) (w : PackedPaths paths)
      → index_paths paths
        ≡ ok (
            packed_files f r max_ids_per_trigram postings_magic side_version
              (each_trigrams paths)
              w)
  unfolding index_paths write_sidecars
  index_paths-packed_files paths w = rw (record_all-record_items r 0 paths []) (
      write_index-packed_files f r max_ids_per_trigram postings_magic side_version
        (each_trigrams paths) w)

  -- What the pattern's trigrams give.
  abbrev pub of_trigrams : List Bytes → Bytes → Option (List ℕ)
  of_trigrams paths pattern =
      if ltb (length pattern) 3
      then none
      else some (common_from 0 (trigrams pattern) (each_trigrams paths))

  found_some :
      (o : Result (r.Bitmap) Error) (ids : List ℕ)
      → (o >>= λ s. ok (r.iter s)) ≡ ok ids
      → ((o >>= λ s. ok (some s)) >>= λ found. ok (iter_some r found)) ≡ ok (some ids)
  found_some (ok s) ids h = ap (λ u. u >>= λ os. ok (some os)) h
  found_some (err e) ids h = cc

  candidate_path_ids-Packed :
      (paths : List Bytes) (w : PackedPaths paths)
      → length (header postings_magic side_version ++ chunks r w.held) < 2 ^ 64
      → (pattern : Bytes)
      → (candidate_path_ids f r
            (record {
              map = w.map;
              postings = header postings_magic side_version ++ chunks r w.held;
            })
            pattern
          >>= λ o. ok (iter_some r o))
        ≡ ok (of_trigrams paths pattern)
  unfolding candidate_path_ids trigrams
  candidate_path_ids-Packed paths w fits [] = refl
  candidate_path_ids-Packed paths w fits (a ∷ []) = refl
  candidate_path_ids-Packed paths w fits (a ∷ b ∷ []) = refl
  candidate_path_ids-Packed paths w fits (a ∷ b ∷ c ∷ rest) =
      let long : ltb (length (a ∷ b ∷ c ∷ rest)) 3 ≡ false = ground arith in
      let head = header postings_magic side_version in
      let first : Bytes = a ∷ b ∷ c ∷ [] in
      rw long (
        found_some
          (intersection r (head ++ chunks r w.held)
            (gather f w.map [] (first ∷ trigrams (b ∷ c ∷ rest))))
          (common_from 0 (first ∷ trigrams (b ∷ c ∷ rest)) (each_trigrams paths))
          (intersection-gather f r head (each_trigrams paths) w fits first
            (trigrams (b ∷ c ∷ rest))))

  -- An index that was written for at most 20,000,000 paths, whose files are within the reader's caps,
  -- opens, and a pattern of three bytes or more gives the ids of the paths that have every three-byte
  -- window of the pattern, ascending; a shorter pattern gives no set.
  pub candidates-of_trigrams :
      (paths : List Bytes)
      → length paths ≤ max_ids_per_trigram
      → HasCappedSizes (index_paths paths)
      → (pattern : Bytes) → candidates paths pattern ≡ ok (of_trigrams paths pattern)
  unfolding candidates open_sidecars
  candidates-of_trigrams paths few sizes pattern =
      let head = header postings_magic side_version in
      let w =
        packed f r max_ids_per_trigram head (each_trigrams paths)
          (omega (arith, few, length-each_trigrams paths)) (omega arith) in
      let (fst_fits, postings_fits) =
        subst HasCappedSizes (index_paths-packed_files paths w) sizes in
      rw
        (
          index_paths-packed_files paths w,
          open_index-packed_files f r max_ids_per_trigram postings_magic side_version
              (each_trigrams paths) w max_fst_bytes max_postings_bytes refl (omega arith) fst_fits
              postings_fits,
        )
        (candidate_path_ids-Packed paths w (omega (arith, postings_fits)) pattern)

get_elem?-each_trigrams :
    (paths : List Bytes) (i : ℕ) (path : Bytes)
    → get_elem? paths i ≡ some path
    → get_elem? (each_trigrams paths) i ≡ some (trigrams path)
get_elem?-each_trigrams [] i path h = cc
get_elem?-each_trigrams (first ∷ paths) zero path h =
    let same : first ≡ path = cc in ap (λ u. some (trigrams u)) same
get_elem?-each_trigrams (first ∷ paths) (suc i) path h = get_elem?-each_trigrams paths i path h

-- Whether a path is left to search: each one is, when there is no set.
abbrev pub is_candidate : ℕ → Result (Option (List ℕ)) Error → Bool
is_candidate i (err e) = false
is_candidate i (ok none) = true
is_candidate i (ok (some ids)) = has i ids

module _ (f : Fst) (r : Roaring) where
  -- When an index was written for at most 20,000,000 paths and its files are within the reader's caps, a path
  -- that contains the pattern is always a candidate.
  pub candidates-is_candidate :
      (paths : List Bytes)
      → length paths ≤ max_ids_per_trigram
      → HasCappedSizes (index_paths f r paths)
      → (i : ℕ) (before pattern after : Bytes)
      → get_elem? paths i ≡ some (before ++ (pattern ++ after))
      → is_candidate i (candidates f r paths pattern) ≡ true
  candidates-is_candidate paths few sizes i before pattern after h =
      rw (candidates-of_trigrams f r paths few sizes pattern)
        (elim (Bool-cases (ltb (length pattern) 3)) [
          | inl e ↦ rw e refl
          | inr e ↦ rw e (
              subst (λ k. has k (common_from 0 (trigrams pattern) (each_trigrams paths)) ≡ true)
                (omega arith)
                (common_from-has_all 0 i (trigrams pattern) (each_trigrams paths)
                  (trigrams (before ++ (pattern ++ after)))
                  (get_elem?-each_trigrams paths i (before ++ (pattern ++ after)) h)
                  (has_all-trigrams before pattern after)))
        ])
