-- ===== src/Index/Basename.antt =====
-- crates/nixdex-core/src/basename_index.rs: from the last component of a path to the packages with
-- such a path. The sidecar files are their bytes, absent or present; what a write that fails leaves
-- of them is not modelled. `is_utf8` is the test of `str::from_utf8`.
pub mod Build
pub mod Names
pub mod Lookup
pub mod Labels
mod Tests
use nixdex.Prelude.{
  ℕ, zero, suc, ◌+◌, ◌-◌, ◌*◌, ◌^◌, Bool, true, false, not, Option, none, some, List, [], ◌∷◌, ◌++◌,
  ◌==◌, ltb, leb, if◌then◌else◌, length, get_elem?, Result, ok, err, ◌>>=◌, ◌>>◌, require, ok_or,
}
use nixdex.Prelude.Bytes.{Bytes, codes, bytes_eq}
use nixdex.Prelude.Split.{rsplit_once}
use nixdex.Prelude.Words.{u32_le, get_range}
use nixdex.Prelude.SortedMap.{SortedMap}
use nixdex.Index.{
  collect, insert_key, is_empty, Error, Fst, Roaring, missing, corrupt_fst, ordinal_overflow,
  too_many_ordinals, file_too_large, short_header, bad_magic, bad_version, too_many_names,
  empty_name, name_too_long, name_truncated, offset_overflow, ordinal_out_of_range, extend,
  read_u32_le, validate_header, write_postings, read_ordinals_at, read_at,
}

abbrev pub postings_magic : Bytes
postings_magic = codes "NBPO"

abbrev pub names_magic : Bytes
names_magic = codes "NPKG"

abbrev pub side_version : ℕ
side_version = 1

abbrev pub max_names_bytes : ℕ
max_names_bytes = 64 * 1024 * 1024

abbrev pub max_name_count : ℕ
max_name_count = 2_000_000

abbrev pub max_name_bytes : ℕ
max_name_bytes = 64 * 1024

abbrev pub max_postings_bytes : ℕ
max_postings_bytes = 1024 * 1024 * 1024

abbrev pub max_ordinals_per_basename : ℕ
max_ordinals_per_basename = 1_000_000

abbrev pub max_fst_bytes : ℕ
max_fst_bytes = 128 * 1024 * 1024

abbrev pub after_slash : Bytes → Option (Bytes × Bytes) → Bytes
after_slash path none = path
after_slash path (some (parent, base)) = base

unfoldable pub basename_of : Bytes → Bytes
basename_of path = after_slash path (rsplit_once b'/' path)

pub record BasenameIndexBuilder (r : Roaring) : Type 0 where
  pub next_ordinal : ℕ
  pub basenames : SortedMap (r.Bitmap)
  pub package_names : List Bytes

module _ (r : Roaring) where
  unfoldable pub new : BasenameIndexBuilder r
  new = record { next_ordinal = 0; basenames = []; package_names = [] }

  -- One round of the loop over the paths.
  unfoldable pub record_path : ℕ → Bytes → SortedMap (r.Bitmap) → SortedMap (r.Bitmap)
  record_path ordinal path basenames =
      if is_empty (basename_of path)
      then basenames
      else insert_key r ordinal (basename_of path) basenames

  unfoldable pub record_paths : ℕ → List Bytes → SortedMap (r.Bitmap) → SortedMap (r.Bitmap)
  record_paths ordinal [] basenames = basenames
  record_paths ordinal (path ∷ paths) basenames =
      record_paths ordinal paths (record_path ordinal path basenames)

  unfoldable pub record_package :
      Bytes → List Bytes → BasenameIndexBuilder r → BasenameIndexBuilder r × Result ℕ Error
  record_package package_label paths b =
      if ltb (b.next_ordinal + 1) (2 ^ 32)
      then (
        record b {
          next_ordinal = b.next_ordinal + 1;
          basenames = record_paths b.next_ordinal paths b.basenames;
          package_names = b.package_names ++ (package_label ∷ []);
        },
        ok b.next_ordinal,
      )
      else (b, err ordinal_overflow)

  unfoldable pub package_count : BasenameIndexBuilder r → ℕ
  package_count b = b.next_ordinal

-- The loop of `write_package_names`.
unfoldable pub name_entries : List Bytes → Result Bytes Error
name_entries [] = ok []
name_entries (name ∷ names) = do
  _ ← require (ltb (length name) (2 ^ 32)) name_too_long
  rest ← name_entries names
  ok (u32_le (length name) ++ (name ++ rest))

unfoldable pub write_package_names : List Bytes → Result Bytes Error
write_package_names names = do
  _ ← require (ltb (length names) (2 ^ 32)) too_many_names
  entries ← name_entries names
  ok (names_magic ++ (u32_le side_version ++ (u32_le (length names) ++ entries)))

-- The loop of `parse_name_ranges`, `pos` being the offset of the next entry.
unfoldable pub name_ranges_from : ℕ → Bytes → ℕ → Result (List (ℕ × ℕ)) Error
name_ranges_from zero bytes pos = ok []
name_ranges_from (suc count) bytes pos = do
  len ← read_u32_le bytes pos
  _ ← require (not (len == 0)) empty_name
  _ ← require (leb len max_name_bytes) name_too_long
  _ ← require (ltb (pos + 4 + len) (2 ^ 64)) offset_overflow
  _ ← require (leb (pos + 4 + len) (length bytes)) name_truncated
  ranges ← name_ranges_from count bytes (pos + 4 + len)
  ok ((pos + 4, pos + 4 + len) ∷ ranges)

unfoldable pub parse_name_ranges : Bytes → Result (List (ℕ × ℕ)) Error
parse_name_ranges bytes = do
  magic ← ok_or (get_range 0 4 bytes) short_header
  _ ← require (bytes_eq magic names_magic) bad_magic
  ver ← read_u32_le bytes 4
  _ ← require (ver == side_version) bad_version
  count ← read_u32_le bytes 8
  _ ← require (leb count max_name_count) too_many_names
  _ ← require (ltb (count * 4) (2 ^ 64)) too_many_names
  _ ← require (leb (count * 4) (length bytes - 12)) too_many_names
  name_ranges_from count bytes 12

-- The files beside the database.
pub record Sidecars : Type 0 where
  pub fst_file : Option Bytes
  pub postings_file : Option Bytes
  pub names_file : Option Bytes

module _ (f : Fst) (r : Roaring) where
  unfoldable pub write_sidecars : BasenameIndexBuilder r → Result Sidecars Error
  write_sidecars b = do
    names ← write_package_names b.package_names
    (raw, cookies) ← write_postings r b.basenames (postings_magic ++ u32_le side_version)
    fst_bytes ← ok_or (f.build cookies) corrupt_fst
    ok (record { fst_file = some fst_bytes; postings_file = some raw; names_file = some names })

pub record BasenameIndex (f : Fst) : Type 0 where
  pub map : f.Map
  pub postings : Bytes
  pub names : Bytes
  pub name_ranges : List (ℕ × ℕ)

module _ (f : Fst) where
  unfoldable pub open_sidecars : Sidecars → Result (BasenameIndex f) Error
  open_sidecars files = do
    fst_data ← ok_or files.fst_file missing
    postings ← ok_or files.postings_file missing
    names ← ok_or files.names_file missing
    _ ← require (leb (length fst_data) max_fst_bytes) file_too_large
    map ← ok_or (f.open_map fst_data) corrupt_fst
    _ ← require (leb (length postings) max_postings_bytes) file_too_large
    _ ← validate_header postings_magic side_version postings
    _ ← require (leb (length names) max_names_bytes) file_too_large
    ranges ← parse_name_ranges names
    ok (record { map = map; postings = postings; names = names; name_ranges = ranges })

  unfoldable pub lookup_basename_ordinals : BasenameIndex f → Bytes → Result (List ℕ) Error
  lookup_basename_ordinals index basename =
      read_at max_ordinals_per_basename index.postings (f.get index.map basename)

  module _ (is_utf8 : Bytes → Bool) where
    unfoldable pub label_of : BasenameIndex f → ℕ → Result Bytes Error
    label_of index ord = do
      (start, end) ← ok_or (get_elem? index.name_ranges ord) ordinal_out_of_range
      bytes ← ok_or (get_range start end index.names) ordinal_out_of_range
      _ ← require (is_utf8 bytes) ordinal_out_of_range
      ok bytes

    unfoldable pub labels_of : BasenameIndex f → List ℕ → Result (List Bytes) Error
    labels_of index [] = ok []
    labels_of index (ord ∷ ords) = do
      label ← label_of index ord
      labels ← labels_of index ords
      ok (label ∷ labels)

    unfoldable pub lookup_basename : BasenameIndex f → Bytes → Result (List Bytes) Error
    lookup_basename index basename = do
      ordinals ← lookup_basename_ordinals index basename
      labels_of index ordinals

    module _ (r : Roaring) where
      unfoldable pub lookup_basename_prefix_ordinals :
          BasenameIndex f → Bytes → Result (List ℕ) Error
      lookup_basename_prefix_ordinals index prefix =
          let matched =
            collect r max_ordinals_per_basename index.postings (f.search index.map prefix)
              r.empty in
          if is_utf8 prefix then (matched >>= λ s. ok (r.iter s)) else ok []
