-- ===== src/Index/Path.antt =====
-- crates/nixdex-core/src/path_index.rs: from a full path to the packages that have it. The cap on
-- the number of ordinals of a path is the one of the basename index.
pub mod Lookup
mod Tests
use nixdex.Prelude.{
  ℕ, ◌*◌, Bool, true, false, not, Option, none, some, List, [], ◌∷◌, if◌then◌else◌, Result, ok, err,
  ◌>>=◌,
}
use nixdex.Prelude.Bytes.{Bytes, codes, bytes_le, starts_with}
use nixdex.Prelude.SortedMap.{SortedMap}
use nixdex.Index.{
  Error, Fst, Roaring, is_empty, insert_key, extend, IndexFiles, OpenIndex, write_index, open_index,
  read_ordinals_at, read_at,
}

abbrev pub postings_magic : Bytes
postings_magic = codes "NPPO"

abbrev pub side_version : ℕ
side_version = 1

abbrev pub max_postings_bytes : ℕ
max_postings_bytes = 1024 * 1024 * 1024

abbrev pub max_ordinals_per_path : ℕ
max_ordinals_per_path = 1_000_000

abbrev pub max_fst_bytes : ℕ
max_fst_bytes = 512 * 1024 * 1024

module _ (r : Roaring) where
  abbrev pub PathIndexBuilder : Type 0
  PathIndexBuilder = SortedMap (r.Bitmap)

  unfoldable pub record_package : ℕ → List Bytes → PathIndexBuilder → PathIndexBuilder
  record_package ordinal [] paths = paths
  record_package ordinal (path ∷ rest) paths =
      record_package ordinal rest (if is_empty path then paths else insert_key r ordinal path paths)

module _ (f : Fst) (r : Roaring) where
  unfoldable pub write_sidecars : PathIndexBuilder r → Result IndexFiles Error
  write_sidecars paths = write_index f r postings_magic side_version paths

module _ (f : Fst) where
  unfoldable pub open_sidecars : IndexFiles → Result (OpenIndex f) Error
  open_sidecars files =
      open_index f postings_magic side_version max_fst_bytes max_postings_bytes files

  unfoldable pub lookup_path_ordinals : OpenIndex f → Bytes → Result (List ℕ) Error
  lookup_path_ordinals index path =
      read_at max_ordinals_per_path index.postings (f.get index.map path)

module _ (r : Roaring) where
  -- The loop over the stream, which stops at the first key above the prefix that does not start with it.
  unfoldable pub scan : Bytes → Bytes → SortedMap ℕ → r.Bitmap → Result (r.Bitmap) Error
  scan postings prefix [] matched = ok matched
  scan postings prefix ((key, cookie) ∷ entries) matched =
      let rest : r.Bitmap → Result (r.Bitmap) Error = λ s. scan postings prefix entries s in
      if starts_with key prefix
      then (read_ordinals_at max_ordinals_per_path postings cookie >>= λ ordinals.
          rest (extend r ordinals matched))
      else if is_empty key
      then rest matched
      else if bytes_le key prefix
      then rest matched
      else ok matched

module _ (f : Fst) (r : Roaring) where
  unfoldable pub lookup_prefix_ordinals : OpenIndex f → Bytes → Result (List ℕ) Error
  lookup_prefix_ordinals index prefix = do
    matched ← scan r index.postings prefix (f.stream index.map) r.empty
    ok (r.iter matched)
