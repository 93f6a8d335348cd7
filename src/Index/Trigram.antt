-- ===== src/Index/Trigram.antt =====
-- crates/nixdex-core/src/path_trigram_index.rs: from the three-byte windows of the paths to the ids of
-- the paths.
pub mod Common
pub mod Candidates
pub mod Gathered
pub mod Windows
pub mod Lookup
mod Tests
use nixdex.Prelude.{
  ℕ, ◌*◌, Bool, true, false, Option, none, some, List, [], ◌∷◌, ltb, leb, if◌then◌else◌, length,
  Result, ok, err, ◌>>=◌,
}
use nixdex.Prelude.Bytes.{Bytes, codes}
use nixdex.Prelude.SortedMap.{SortedMap}
use nixdex.Index.{
  Error, Fst, Roaring, extend, IndexFiles, OpenIndex, write_index, open_index, read_ordinals_at,
}
use nixdex.Index.Recorded.{has_key, record_keys}

abbrev pub postings_magic : Bytes
postings_magic = codes "NNPT"

abbrev pub side_version : ℕ
side_version = 1

abbrev pub max_ids_per_trigram : ℕ
max_ids_per_trigram = 20_000_000

abbrev pub max_postings_bytes : ℕ
max_postings_bytes = 8 * 1024 * 1024 * 1024

abbrev pub max_fst_bytes : ℕ
max_fst_bytes = 512 * 1024 * 1024

-- Every three bytes in a row.
unfoldable pub trigrams : Bytes → List Bytes
trigrams [] = []
trigrams (a ∷ []) = []
trigrams (a ∷ b ∷ []) = []
trigrams (a ∷ b ∷ c ∷ rest) = (a ∷ b ∷ c ∷ []) ∷ trigrams (b ∷ c ∷ rest)

module _ (r : Roaring) where
  abbrev pub PathTrigramIndexBuilder : Type 0
  PathTrigramIndexBuilder = SortedMap (r.Bitmap)

  unfoldable pub record_path : ℕ → Bytes → PathTrigramIndexBuilder → PathTrigramIndexBuilder
  record_path path_id path m =
      if ltb (length path) 3 then m else record_keys r path_id (trigrams path) m

abbrev pub push_cookie : Option ℕ → Option (List ℕ) → Option (List ℕ)
push_cookie none cookies = none
push_cookie (some cookie) none = none
push_cookie (some cookie) (some cookies) = some (cookie ∷ cookies)

module _ (f : Fst) (r : Roaring) where
  unfoldable pub write_sidecars : PathTrigramIndexBuilder r → Result IndexFiles Error
  write_sidecars m = write_index f r postings_magic side_version m

module _ (f : Fst) where
  unfoldable pub open_sidecars : IndexFiles → Result (OpenIndex f) Error
  open_sidecars files =
      open_index f postings_magic side_version max_fst_bytes max_postings_bytes files

  -- The cookies of the distinct trigrams, or none when one of them is not in the map.
  unfoldable pub gather : f.Map → List Bytes → List Bytes → Option (List ℕ)
  gather map seen [] = some []
  gather map seen (trigram ∷ rest) =
      if has_key trigram seen
      then gather map seen rest
      else push_cookie (f.get map trigram) (gather map (trigram ∷ seen) rest)

abbrev pub read_ids_at : Bytes → ℕ → Result (List ℕ) Error
read_ids_at postings cookie = read_ordinals_at max_ids_per_trigram postings cookie

module _ (r : Roaring) where
  unfoldable pub read_lists : Bytes → List ℕ → Result (List (r.Bitmap)) Error
  read_lists postings [] = ok []
  read_lists postings (cookie ∷ cookies) = do
    ids ← read_ids_at postings cookie
    lists ← read_lists postings cookies
    ok (extend r ids r.empty ∷ lists)

  -- `sort_by_key(RoaringBitmap::len)`, which is stable.
  unfoldable pub insert_by_len : r.Bitmap → List (r.Bitmap) → List (r.Bitmap)
  insert_by_len s [] = s ∷ []
  insert_by_len s (t ∷ ts) =
      let rest = insert_by_len s ts in if leb (r.len s) (r.len t) then s ∷ t ∷ ts else t ∷ rest

  unfoldable pub sort_by_len : List (r.Bitmap) → List (r.Bitmap)
  sort_by_len [] = []
  sort_by_len (s ∷ ss) = insert_by_len s (sort_by_len ss)

  -- The loop `for bm in lists { acc &= bm }`.
  unfoldable pub intersect_all : r.Bitmap → List (r.Bitmap) → r.Bitmap
  intersect_all acc [] = acc
  intersect_all acc (s ∷ ss) = intersect_all (r.intersect acc s) ss

  abbrev pub smallest_first : List (r.Bitmap) → r.Bitmap
  smallest_first [] = r.empty
  smallest_first (s ∷ ss) = intersect_all s ss

  -- What the trigrams' cookies give; none at all, or a trigram that is missing, gives the empty set.
  abbrev pub intersection : Bytes → Option (List ℕ) → Result (r.Bitmap) Error
  intersection postings none = ok r.empty
  intersection postings (some []) = ok r.empty
  intersection postings (some (cookie ∷ cookies)) = do
    lists ← read_lists postings (cookie ∷ cookies)
    ok (smallest_first (sort_by_len lists))

module _ (f : Fst) (r : Roaring) where
  unfoldable pub candidate_path_ids : OpenIndex f → Bytes → Result (Option (r.Bitmap)) Error
  candidate_path_ids index pattern =
      if ltb (length pattern) 3
      then ok none
      else (intersection r index.postings (gather f index.map [] (trigrams pattern)) >>= λ s.
          ok (some s))
