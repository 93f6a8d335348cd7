-- ===== src/Index/Basename/Build.antt =====
-- What the builder of crates/nixdex-core/src/basename_index.rs has recorded.
use mathlib.Core.List.{append_assoc, append-nil}
use nixdex.Prelude.{
  ℕ, suc, ◌+◌, ◌^◌, ◌<◌, ◌≡◌, refl, sym, ap, ◌∙◌, arith, true, List, [], ◌∷◌, ◌++◌, ltb, lt→ltb,
  if◌then◌else◌, length, Result, ok, err, Bool-cases, inl, inr,
}
use nixdex.Prelude.Bytes.{Bytes}
use nixdex.Prelude.SortedMap.{SortedMap}
use nixdex.Index.{Error, Roaring, is_empty, insert_key}
use nixdex.Index.Recorded.{record_keys, record_items}
use nixdex.Index.Basename.{
  BasenameIndexBuilder, basename_of, record_path, record_paths, record_package,
}

-- Packages in the order in which they are recorded: each a label and its paths.
abbrev pub Packages : Type 0
Packages = List (Bytes × List Bytes)

abbrev pub labels : Packages → List Bytes
labels [] = []
labels ((label, paths) ∷ packages) = label ∷ labels packages

-- The last components of the paths that have one.
unfoldable pub basenames_of : List Bytes → List Bytes
basenames_of [] = []
basenames_of (path ∷ paths) =
    let rest = basenames_of paths in
    if is_empty (basename_of path) then rest else basename_of path ∷ rest

-- The keys of each package.
abbrev pub each_basenames : Packages → List (List Bytes)
each_basenames [] = []
each_basenames ((label, paths) ∷ packages) = basenames_of paths ∷ each_basenames packages

pub length-labels : (packages : Packages) → length (labels packages) ≡ length packages
length-labels [] = refl
length-labels ((label, paths) ∷ packages) = ap suc (length-labels packages)

pub length-each_basenames :
    (packages : Packages) → length (each_basenames packages) ≡ length packages
length-each_basenames [] = refl
length-each_basenames ((label, paths) ∷ packages) = ap suc (length-each_basenames packages)

module _ (r : Roaring) where
  abbrev after_package :
      BasenameIndexBuilder r × Result ℕ Error
      → (BasenameIndexBuilder r → Result (BasenameIndexBuilder r) Error)
      → Result (BasenameIndexBuilder r) Error
  after_package (b, err e) f = err e
  after_package (b, ok ordinal) f = f b

  -- The calls of `record_package`, up to the first that fails.
  unfoldable pub record_packages :
      Packages → BasenameIndexBuilder r → Result (BasenameIndexBuilder r) Error
  record_packages [] b = ok b
  record_packages ((label, paths) ∷ packages) b =
      after_package (record_package r label paths b) (λ b'. record_packages packages b')

  record_paths-record_keys :
      (n : ℕ) (paths : List Bytes) (m : SortedMap (r.Bitmap))
      → record_paths r n paths m ≡ record_keys r n (basenames_of paths) m
  unfolding record_paths record_path record_keys basenames_of
  record_paths-record_keys n [] m = refl
  record_paths-record_keys n (path ∷ paths) m = elim (Bool-cases (is_empty (basename_of path))) [
    | inl e ↦ rw e (record_paths-record_keys n paths m)
    | inr e ↦ rw e (record_paths-record_keys n paths (insert_key r n (basename_of path) m))
  ]

  -- What the builder holds after packages were recorded into `b`.
  abbrev Holds : Packages → BasenameIndexBuilder r → BasenameIndexBuilder r → Type 0
  Holds packages b b' =
      (b'.basenames ≡ record_items r b.next_ordinal (each_basenames packages) b.basenames)
      × (b'.package_names ≡ b.package_names ++ labels packages)
      × (b'.next_ordinal ≡ b.next_ordinal + length packages)

  pub record_packages-Holds :
      (packages : Packages) (b : BasenameIndexBuilder r)
      → b.next_ordinal + length packages < 2 ^ 32
      → (b' : BasenameIndexBuilder r) × (record_packages packages b ≡ ok b') × Holds packages b b'
  unfolding record_packages record_package record_items
  record_packages-Holds [] b small =
      (b, refl, (refl, sym (append-nil b.package_names), omega arith))
  record_packages-Holds ((label, paths) ∷ packages) b small =
      let n = b.next_ordinal in
      let b1 : BasenameIndexBuilder r = record b {
        next_ordinal = n + 1;
        basenames = record_paths r n paths b.basenames;
        package_names = b.package_names ++ (label ∷ []);
      } in
      let (b', done, (held, names, count)) =
        record_packages-Holds packages b1 (omega (arith, small)) in
      let room : ltb (n + 1) (2 ^ 32) ≡ true = lt→ltb _ _ (omega (arith, small)) in
      (
        b',
        rw (room, done) refl,
        (
          held
              ∙ ap (record_items r (n + 1) (each_basenames packages))
                  (record_paths-record_keys n paths b.basenames),
          names ∙ append_assoc b.package_names (label ∷ []) (labels packages),
          omega (arith, count),
        ),
      )
