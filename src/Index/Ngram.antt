-- ===== src/Index/Ngram.antt =====
-- crates/nixdex-core/src/ngram_index.rs: from the three-byte windows of the paths to the packages. The
-- windows are those of the path trigram index.
pub mod Postings
pub mod Sets
pub mod Gathered
pub mod Lookup
mod Tests
use nixdex.Prelude.{
  ℕ, ◌+◌, ◌*◌, ◌^◌, Bool, true, false, Option, none, some, List, [], ◌∷◌, ◌++◌, ◌==◌, ltb, leb,
  if◌then◌else◌, length, Result, ok, err, ◌>>=◌, ◌>>◌, require, ok_or,
}
use nixdex.Prelude.Bytes.{Bytes, codes, bytes_eq}
use nixdex.Prelude.Words.{u32_le, get_range}
use nixdex.Prelude.SortedMap.{SortedMap}
use nixdex.Index.{
  Error, Fst, Roaring, missing, corrupt_fst, corrupt_bitmap, bitmap_too_large, file_too_large,
  short_header, bad_magic, bad_version, offset_overflow, list_overflow, list_truncated, extend,
  IndexFiles, read_u32_le, read_ordinals_at,
}
use nixdex.Index.Recorded.{has_key, record_keys}
use nixdex.Index.Trigram.{trigrams}

abbrev pub postings_magic : Bytes
postings_magic = codes "NNPO"

abbrev pub side_version : ℕ
side_version = 2

abbrev pub side_version_v1 : ℕ
side_version_v1 = 1

abbrev pub max_ordinals_per_trigram : ℕ
max_ordinals_per_trigram = 2_000_000

abbrev pub max_serialized_bytes : ℕ
max_serialized_bytes = 268_435_456

abbrev pub max_postings_bytes : ℕ
max_postings_bytes = 2 * 1024 * 1024 * 1024

abbrev pub max_fst_bytes : ℕ
max_fst_bytes = 512 * 1024 * 1024

module _ (r : Roaring) where
  abbrev pub NgramIndexBuilder : Type 0
  NgramIndexBuilder = SortedMap (r.Bitmap)

  unfoldable pub record_package : ℕ → List Bytes → NgramIndexBuilder → NgramIndexBuilder
  record_package ordinal [] m = m
  record_package ordinal (path ∷ paths) m =
      record_package ordinal paths
        (if ltb (length path) 3 then m else record_keys r ordinal (trigrams path) m)

  -- The loop over the map: the postings from `raw` on, and the offset of each trigram.
  unfoldable pub write_bitmaps : SortedMap (r.Bitmap) → Bytes → Result (Bytes × SortedMap ℕ) Error
  write_bitmaps [] raw = ok (raw, [])
  write_bitmaps ((key, bitmap) ∷ m) raw = do
    buf ← ok_or (r.serialize bitmap) corrupt_bitmap
    _ ← require (leb (length buf) max_serialized_bytes) bitmap_too_large
    _ ← require (ltb (length buf) (2 ^ 32)) bitmap_too_large
    (out, cookies) ← write_bitmaps m (raw ++ (u32_le (length buf) ++ buf))
    ok (out, (key, length raw) ∷ cookies)

module _ (f : Fst) (r : Roaring) where
  unfoldable pub write_sidecars : NgramIndexBuilder r → Result IndexFiles Error
  write_sidecars m = do
    (raw, cookies) ← write_bitmaps r m (postings_magic ++ u32_le side_version)
    fst_bytes ← ok_or (f.build cookies) corrupt_fst
    ok (record { fst_file = some fst_bytes; postings_file = some raw })

unfoldable pub read_postings_version : Bytes → Result ℕ Error
read_postings_version postings = do
  _ ← require (leb 8 (length postings)) short_header
  magic ← ok_or (get_range 0 4 postings) short_header
  _ ← require (bytes_eq magic postings_magic) bad_magic
  ver ← read_u32_le postings 4
  _ ← require (if ver == side_version then true else ver == side_version_v1) bad_version
  ok ver

pub record NgramIndex (f : Fst) : Type 0 where
  pub map : f.Map
  pub postings : Bytes
  pub version : ℕ

unfoldable pub open_sidecars : (f : Fst) → IndexFiles → Result (NgramIndex f) Error
open_sidecars f files = do
  fst_data ← ok_or files.fst_file missing
  postings ← ok_or files.postings_file missing
  _ ← require (leb (length fst_data) max_fst_bytes) file_too_large
  map ← ok_or (f.open_map fst_data) corrupt_fst
  _ ← require (leb (length postings) max_postings_bytes) file_too_large
  version ← read_postings_version postings
  ok (record { map = map; postings = postings; version = version })

abbrev pub push_entry : ℕ × ℕ → Option (List (ℕ × ℕ)) → Option (List (ℕ × ℕ))
push_entry entry none = none
push_entry entry (some entries) = some (entry ∷ entries)

-- The cookie of a trigram with the word there, and what the later trigrams give.
abbrev pub and_entry :
    Bytes → Option ℕ → Result (Option (List (ℕ × ℕ))) Error → Result (Option (List (ℕ × ℕ))) Error
and_entry postings none rest = ok none
and_entry postings (some cookie) rest = do
  header ← read_u32_le postings cookie
  entries ← rest
  ok (push_entry (cookie, header) entries)

-- The distinct trigrams, or none when one of them is not in the map.
unfoldable pub gather :
    (f : Fst) → f.Map → Bytes → List Bytes → List Bytes → Result (Option (List (ℕ × ℕ))) Error
gather f map postings seen [] = ok (some [])
gather f map postings seen (trigram ∷ rest) =
    if has_key trigram seen
    then gather f map postings seen rest
    else and_entry postings (f.get map trigram) (gather f map postings (trigram ∷ seen) rest)

-- The order in which the entries, stably sorted by descending headers, are popped from the end:
-- by ascending headers, of the same header the last first.
unfoldable pub insert_by_header : ℕ × ℕ → List (ℕ × ℕ) → List (ℕ × ℕ)
insert_by_header entry [] = entry ∷ []
insert_by_header (cookie, header) ((c, h) ∷ entries) =
    let rest = insert_by_header (cookie, header) entries in
    if ltb header h then (cookie, header) ∷ (c, h) ∷ entries else (c, h) ∷ rest

unfoldable pub pop_order : List (ℕ × ℕ) → List (ℕ × ℕ)
pop_order [] = []
pop_order (entry ∷ entries) = insert_by_header entry (pop_order entries)

module _ (r : Roaring) where
  unfoldable pub read_bitmap_at : Bytes → ℕ → ℕ → Result (r.Bitmap) Error
  read_bitmap_at postings cookie version =
      if version == side_version_v1
      then (read_ordinals_at max_ordinals_per_trigram postings cookie >>= λ ordinals.
          ok (extend r ordinals r.empty))
      else do
        len ← read_u32_le postings cookie
        _ ← require (leb len max_serialized_bytes) bitmap_too_large
        _ ← require (ltb (cookie + 4) (2 ^ 64)) offset_overflow
        _ ← require (ltb (cookie + 4 + len) (2 ^ 64)) list_overflow
        blob ← ok_or (get_range (cookie + 4) (cookie + 4 + len) postings) list_truncated
        ok_or (r.deserialize blob) corrupt_bitmap

  -- The loop `while let Some((cookie, _)) = entries.pop()`, which ends with an empty set.
  unfoldable pub intersect_loop : Bytes → ℕ → r.Bitmap → List (ℕ × ℕ) → Result (r.Bitmap) Error
  intersect_loop postings version acc [] = ok acc
  intersect_loop postings version acc ((cookie, header) ∷ entries) = do
    bm ← read_bitmap_at postings cookie version
    if r.len (r.intersect acc bm) == 0
        then ok (r.intersect acc bm)
        else intersect_loop postings version (r.intersect acc bm) entries

  abbrev pub intersect_entries : Bytes → ℕ → List (ℕ × ℕ) → Result (r.Bitmap) Error
  intersect_entries postings version [] = ok r.empty
  intersect_entries postings version ((first, header) ∷ entries) = do
    acc ← read_bitmap_at postings first version
    intersect_loop postings version acc entries

  abbrev pub intersection : Bytes → ℕ → Option (List (ℕ × ℕ)) → Result (r.Bitmap) Error
  intersection postings version none = ok r.empty
  intersection postings version (some entries) =
      intersect_entries postings version (pop_order entries)

unfoldable pub candidate_ordinals :
    (f : Fst) (r : Roaring) → NgramIndex f → Bytes → Result (Option (r.Bitmap)) Error
candidate_ordinals f r index pattern = if ltb (length pattern) 3 then ok none else do
  entries ← gather f index.map index.postings [] (trigrams pattern)
  s ← intersection r index.postings index.version entries
  ok (some s)
