-- ===== src/Index/Path/Lookup.antt =====
-- Lookups in an index that was written and opened, crates/nixdex-core/src/path_index.rs.
use mathlib.Core.Path.{subst}
use nixdex.Prelude.{
  ℕ, suc, bind_cong, ◌+◌, ◌≤◌, ◌≡◌, refl, sym, ap, arith, List, [], ◌∷◌, ◌++◌, if◌then◌else◌,
  length, Result, ok, err, ◌>>=◌, Bool-cases, inl, inr,
}
use nixdex.Prelude.Bytes.{Bytes, bytes_le, starts_with}
use nixdex.Prelude.SortedMap.{SortedMap, IsAscending}
use nixdex.Index.{
  Error, Fst, Roaring, is_empty, insert_key, extend, collect, with_prefix, IndexFiles, OpenIndex,
  read_ordinals_at,
}
use nixdex.Index.Postings.{header}
use nixdex.Index.Cookies.{chunks, cookies-IsAscending}
use nixdex.Index.Recorded.{ordinals_from, record_keys, record_items}
use nixdex.Index.Prefix.{prefix_ordinals_from}
use nixdex.Index.Collect.{with_prefix-above, collect-Packed}
use nixdex.Index.Packed.{
  IsWithin, Packed, packed, packed_files, write_index-packed_files, open_index-packed_files,
}
use nixdex.Index.Path.{
  PathIndexBuilder, postings_magic, side_version, max_fst_bytes, max_postings_bytes,
  max_ordinals_per_path, record_package, write_sidecars, open_sidecars, lookup_path_ordinals, scan,
  lookup_prefix_ordinals,
}

-- The paths that are not empty.
unfoldable pub paths_of : List Bytes → List Bytes
paths_of [] = []
paths_of (path ∷ paths) = let rest = paths_of paths in if is_empty path then rest else path ∷ rest

abbrev pub each_paths : List (List Bytes) → List (List Bytes)
each_paths [] = []
each_paths (paths ∷ packages) = paths_of paths ∷ each_paths packages

length-each_paths : (packages : List (List Bytes)) → length (each_paths packages) ≡ length packages
length-each_paths [] = refl
length-each_paths (paths ∷ packages) = ap suc (length-each_paths packages)

-- The sizes that the reader accepts.
abbrev pub HasCappedSizes : Result IndexFiles Error → Type 0
HasCappedSizes (ok files) =
    IsWithin max_fst_bytes files.fst_file × IsWithin max_postings_bytes files.postings_file
HasCappedSizes (err e) = Unit

module _ (r : Roaring) where
  -- The paths of each package, the first with ordinal `n`.
  unfoldable pub record_packages : ℕ → List (List Bytes) → PathIndexBuilder r → PathIndexBuilder r
  record_packages n [] m = m
  record_packages n (paths ∷ packages) m =
      record_packages (n + 1) packages (record_package r n paths m)

  record_package-record_keys :
      (n : ℕ) (paths : List Bytes) (m : SortedMap (r.Bitmap))
      → record_package r n paths m ≡ record_keys r n (paths_of paths) m
  unfolding record_package record_keys paths_of
  record_package-record_keys n [] m = refl
  record_package-record_keys n (path ∷ paths) m = elim (Bool-cases (is_empty path)) [
    | inl e ↦ rw e (record_package-record_keys n paths m)
    | inr e ↦ rw e (record_package-record_keys n paths (insert_key r n path m))
  ]

  record_packages-record_items :
      (n : ℕ) (packages : List (List Bytes)) (m : SortedMap (r.Bitmap))
      → record_packages n packages m ≡ record_items r n (each_paths packages) m
  unfolding record_packages record_items
  record_packages-record_items n [] m = refl
  record_packages-record_items n (paths ∷ packages) m =
      rw (record_package-record_keys n paths m)
        (record_packages-record_items (n + 1) packages (record_keys r n (paths_of paths) m))

  -- The loop sees every entry with the prefix before it stops.
  scan-collect :
      (postings prefix : Bytes) (entries : SortedMap ℕ) (s : r.Bitmap)
      → IsAscending entries
      → scan r postings prefix entries s
        ≡ collect r max_ordinals_per_path postings (with_prefix prefix entries) s
  unfolding scan collect with_prefix
  scan-collect postings prefix [] s h = refl
  scan-collect postings prefix ((key, cookie) ∷ entries) s (first, rest) =
      elim (Bool-cases (starts_with key prefix)) [
        | inl e ↦ rw e (
            bind_cong (read_ordinals_at max_ordinals_per_path postings cookie)
              (λ ordinals. scan-collect postings prefix entries (extend r ordinals s) rest))
        | inr e ↦ elim (Bool-cases (is_empty key)) [
          | inl empty_key ↦ rw (e, empty_key) (scan-collect postings prefix entries s rest)
          | inr full ↦ elim (Bool-cases (bytes_le key prefix)) [
            | inl le ↦ rw (e, full, le) (scan-collect postings prefix entries s rest)
            | inr gt ↦ rw (e, full, gt, with_prefix-above prefix key entries gt e first) refl
          ]
        ]
      ]

module _ (f : Fst) (r : Roaring) where
  unfoldable pub index_packages : List (List Bytes) → Result IndexFiles Error
  index_packages packages = write_sidecars f r (record_packages r 0 packages [])

  -- The index of the packages, as a program that starts later opens it.
  unfoldable pub stored_index : List (List Bytes) → Result (OpenIndex f) Error
  stored_index packages = do files ← index_packages packages; open_sidecars f files

  abbrev PackedPackages : List (List Bytes) → Type 0
  PackedPackages packages =
      Packed f r max_ordinals_per_path (header postings_magic side_version) (each_paths packages)

  packed_packages :
      (packages : List (List Bytes))
      → length packages ≤ max_ordinals_per_path
      → PackedPackages packages
  packed_packages packages few =
      packed f r max_ordinals_per_path (header postings_magic side_version) (each_paths packages)
        (omega (arith, few, length-each_paths packages)) (omega arith)

  index_packages-packed_files :
      (packages : List (List Bytes)) (w : PackedPackages packages)
      → index_packages packages
        ≡ ok (
            packed_files f r max_ordinals_per_path postings_magic side_version
              (each_paths packages)
              w)
  unfolding index_packages write_sidecars
  index_packages-packed_files packages w = rw (record_packages-record_items r 0 packages []) (
      write_index-packed_files f r max_ordinals_per_path postings_magic side_version
        (each_paths packages) w)

  stored_index-opens :
      (packages : List (List Bytes))
      → HasCappedSizes (index_packages packages)
      → (w : PackedPackages packages)
      → stored_index packages
        ≡ ok (record {
          map = w.map;
          postings = header postings_magic side_version ++ chunks r w.held;
        })
  unfolding stored_index open_sidecars
  stored_index-opens packages sizes w =
      let (fst_fits, postings_fits) =
        subst HasCappedSizes (index_packages-packed_files packages w) sizes in
      rw (index_packages-packed_files packages w) (
        open_index-packed_files f r max_ordinals_per_path postings_magic side_version
          (each_paths packages) w max_fst_bytes max_postings_bytes refl (omega arith) fst_fits
          postings_fits)

  -- An index that was written for at most 1,000,000 packages, whose files are within the reader's caps, opens;
  -- and the lookup of a path gives the ordinals of the packages with that path, ascending, and none for the
  -- empty path.
  pub stored_index-lookup_path_ordinals :
      (packages : List (List Bytes))
      → length packages ≤ max_ordinals_per_path
      → HasCappedSizes (index_packages packages)
      → (path : Bytes)
      → (stored_index packages >>= λ index. lookup_path_ordinals f index path)
        ≡ ok (ordinals_from 0 path (each_paths packages))
  unfolding lookup_path_ordinals
  stored_index-lookup_path_ordinals packages few sizes path =
      let w = packed_packages packages few in
      let (fst_fits, postings_fits) =
        subst HasCappedSizes (index_packages-packed_files packages w) sizes in
      rw (stored_index-opens packages sizes w) (w.reads path (omega (arith, postings_fits)))

  -- An index that was written for at most 1,000,000 packages, whose files are within the reader's caps, opens;
  -- and the lookup of a prefix gives the ordinals of the packages with a path that is not empty and starts
  -- with the prefix, ascending.
  pub stored_index-lookup_prefix_ordinals :
      (packages : List (List Bytes))
      → length packages ≤ max_ordinals_per_path
      → HasCappedSizes (index_packages packages)
      → (prefix : Bytes)
      → (stored_index packages >>= λ index. lookup_prefix_ordinals f r index prefix)
        ≡ ok (prefix_ordinals_from 0 prefix (each_paths packages))
  unfolding lookup_prefix_ordinals
  stored_index-lookup_prefix_ordinals packages few sizes prefix =
      let w = packed_packages packages few in
      let (fst_fits, postings_fits) =
        subst HasCappedSizes (index_packages-packed_files packages w) sizes in
      let head = header postings_magic side_version in
      let ascending : IsAscending (f.stream w.map) =
        subst IsAscending (sym w.streams)
          (cookies-IsAscending r (length head) w.held w.ascending) in
      rw
        (
          stored_index-opens packages sizes w,
          scan-collect r (head ++ chunks r w.held) prefix (f.stream w.map) r.empty ascending,
        )
        (collect-Packed f r max_ordinals_per_path head (each_paths packages) w prefix (omega arith)
          (omega (arith, postings_fits)))
