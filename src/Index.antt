-- ===== src/Index.antt =====
-- The secondary indexes of crates/nixdex-core: a finite-state map (`fst`) from keys to offsets
-- ("cookies") into a blob of postings. This file has what they share: the two packages that they are
-- built on, as records of the operations used and what their documentation says, and the packed
-- lists of ordinals, crates/nixdex-core/src/basename_index.rs. `usize` has 64 bits.
pub mod Postings
pub mod Cookies
pub mod Recorded
pub mod Packed
pub mod Instances
pub mod Basename
pub mod Prefix
pub mod Collect
pub mod Path
pub mod Trigram
pub mod Ngram
pub mod Command
use nixdex.Prelude.{
  ℕ, zero, suc, ◌+◌, ◌*◌, ◌^◌, ◌<◌, ◌≡◌, Bool, true, false, Option, none, some, List, [], ◌∷◌, ◌++◌,
  ◌==◌, ltb, leb, if◌then◌else◌, not, length, Result, ok, err, ◌>>=◌, ◌>>◌, require, ok_or,
}
use nixdex.Prelude.Bytes.{Bytes, codes, bytes_eq, starts_with}
use nixdex.Prelude.Words.{u32_le, from_u32_le, get_range}
use nixdex.Prelude.SortedMap.{SortedMap, IsAscending, lookup, adjust}

-- The reasons that `Error::Corrupt` carries, and the other errors.
pub data Error : Type 0 where
  missing corrupt_fst corrupt_io corrupt_bitmap bitmap_too_large : Error
  ordinal_overflow cookie_overflow too_many_ordinals : Error
  file_too_large short_header bad_magic bad_version : Error
  offset_overflow read_past_end list_overflow list_truncated : Error
  too_many_names empty_name name_too_long name_truncated ordinal_out_of_range bad_flag : Error

-- The entries whose key starts with a prefix.
unfoldable pub with_prefix {ℓ} : {V : Type ℓ} → Bytes → SortedMap V → SortedMap V
with_prefix prefix [] = []
with_prefix prefix ((key, v) ∷ m) =
    let rest = with_prefix prefix m in if starts_with key prefix then (key, v) ∷ rest else rest

-- The package `fst`: a map is built from its entries by ascending keys, opened from its bytes, read
-- by key, streamed in order, and searched for the keys with a prefix.
pub record Fst : Type 1 where
  pub Map : Type 0
  pub build : SortedMap ℕ → Option Bytes
  pub open_map : Bytes → Option Map
  pub get : Map → Bytes → Option ℕ
  pub stream : Map → SortedMap ℕ
  pub search : Map → Bytes → SortedMap ℕ
  pub searched : (m : Map) (prefix : Bytes) → search m prefix ≡ with_prefix prefix (stream m)
  pub built :
      (entries : SortedMap ℕ)
      → IsAscending entries
      → (bytes : Bytes) × (build entries ≡ some bytes)
        × (m : Map) × (open_map bytes ≡ some m)
        × (stream m ≡ entries)
        × ((key : Bytes) → get m key ≡ lookup key entries)

-- Into a list of ascending numbers, each of them once.
unfoldable pub insert_ordinal : ℕ → List ℕ → List ℕ
insert_ordinal n [] = n ∷ []
insert_ordinal n (o ∷ os) =
    let rest = insert_ordinal n os in
    if n == o then o ∷ os else if ltb n o then n ∷ o ∷ os else o ∷ rest

abbrev pub has : ℕ → List ℕ → Bool
has n [] = false
has n (o ∷ os) = if o == n then true else has n os

-- The elements that the other list has too.
unfoldable pub common : List ℕ → List ℕ → List ℕ
common [] os = []
common (n ∷ ns) os = let rest = common ns os in if has n os then n ∷ rest else rest

-- The package `roaring`: a set of u32, iterated in ascending order, with its size, the intersection `&=`
-- and its own encoding.
pub record Roaring : Type 1 where
  pub Bitmap : Type 0
  pub empty : Bitmap
  pub insert : ℕ → Bitmap → Bitmap
  pub iter : Bitmap → List ℕ
  pub len : Bitmap → ℕ
  pub intersect : Bitmap → Bitmap → Bitmap
  pub serialize : Bitmap → Option Bytes
  pub deserialize : Bytes → Option Bitmap
  pub iter-empty : iter empty ≡ []
  pub iter-insert : (n : ℕ) (s : Bitmap) → iter (insert n s) ≡ insert_ordinal n (iter s)
  pub len-iter : (s : Bitmap) → len s ≡ length (iter s)
  pub iter-intersect : (s other : Bitmap) → iter (intersect s other) ≡ common (iter s) (iter other)
  pub serialized :
      (s : Bitmap)
      → (bytes : Bytes) × (serialize s ≡ some bytes)
        × (read : Bitmap) × (deserialize bytes ≡ some read)
        × (iter read ≡ iter s)

abbrev pub is_empty : Bytes → Bool
is_empty [] = true
is_empty (b ∷ bytes) = false

-- `extend`
unfoldable pub extend : (r : Roaring) → List ℕ → r.Bitmap → r.Bitmap
extend r [] s = s
extend r (n ∷ ns) s = extend r ns (r.insert n s)

-- `entry(key).or_default().insert(n)`
unfoldable pub insert_key : (r : Roaring) → ℕ → Bytes → SortedMap (r.Bitmap) → SortedMap (r.Bitmap)
insert_key r n key m = adjust key r.empty (r.insert n) m

-- `sort_unstable` and `dedup`.
unfoldable pub sort_into : ℕ → List ℕ → List ℕ
sort_into n [] = n ∷ []
sort_into n (o ∷ os) = let rest = sort_into n os in if leb n o then n ∷ o ∷ os else o ∷ rest

unfoldable pub sort : List ℕ → List ℕ
unfolding sort_into
sort [] = []
sort (n ∷ ns) = sort_into n (sort ns)

abbrev pub unless_head : ℕ → List ℕ → List ℕ
unless_head n [] = n ∷ []
unless_head n (o ∷ os) = if n == o then o ∷ os else n ∷ o ∷ os

unfoldable pub dedup : List ℕ → List ℕ
dedup [] = []
dedup (n ∷ ns) = unless_head n (dedup ns)

unfoldable pub read_u32_le : Bytes → ℕ → Result ℕ Error
read_u32_le bytes at = do
  _ ← require (ltb (at + 4) (2 ^ 64)) offset_overflow
  slice ← ok_or (get_range at (at + 4) bytes) read_past_end
  ok_or (from_u32_le slice) read_past_end

-- A header of four bytes of magic and a version, as the postings of each index begin.
unfoldable pub validate_header : Bytes → ℕ → Bytes → Result (Unit {0}) Error
validate_header magic version postings = do
  _ ← require (leb 8 (length postings)) short_header
  found ← ok_or (get_range 0 4 postings) short_header
  _ ← require (bytes_eq found magic) bad_magic
  ver ← read_u32_le postings 4
  require (ver == version) bad_version

-- The loop `for i in 0..count`, `off` being the offset of the next word.
unfoldable pub read_words : ℕ → Bytes → ℕ → Result (List ℕ) Error
read_words zero postings off = ok []
read_words (suc count) postings off = do
  word ← read_u32_le postings off
  words ← read_words count postings (off + 4)
  ok (word ∷ words)

-- With the cap on the number of ordinals that each index sets.
unfoldable pub read_ordinals_at : ℕ → Bytes → ℕ → Result (List ℕ) Error
read_ordinals_at max_ordinals postings start = do
  count ← read_u32_le postings start
  _ ← require (leb count max_ordinals) too_many_ordinals
  _ ← require (ltb (start + 4) (2 ^ 64)) offset_overflow
  _ ← require (ltb (start + 4 + count * 4) (2 ^ 64)) list_overflow
  _ ← require (leb (start + 4 + count * 4) (length postings)) list_truncated
  read_words count postings (start + 4)

-- One list of ordinals, as the postings hold it.
abbrev pub words_bytes : List ℕ → Bytes
words_bytes [] = []
words_bytes (n ∷ ns) = u32_le n ++ words_bytes ns

unfoldable pub ordinals_bytes : List ℕ → Result Bytes Error
ordinals_bytes ordinals =
    let unique = dedup (sort ordinals) in
    if ltb (length unique) (2 ^ 32)
    then ok (u32_le (length unique) ++ words_bytes unique)
    else err too_many_ordinals

-- The loop of `write_sidecars` over the map: the postings from `raw` on, and the offset of each key.
unfoldable pub write_postings :
    (r : Roaring) → SortedMap (r.Bitmap) → Bytes → Result (Bytes × SortedMap ℕ) Error
write_postings r [] raw = ok (raw, [])
write_postings r ((key, bitmap) ∷ m) raw = do
  packed ← ordinals_bytes (r.iter bitmap)
  (out, cookies) ← write_postings r m (raw ++ packed)
  ok (out, (key, length raw) ∷ cookies)

-- A lookup: `let Some(cookie) = map.get(key) else { return Ok(Vec::new()) }`, and the list there.
abbrev pub read_at : ℕ → Bytes → Option ℕ → Result (List ℕ) Error
read_at max_ordinals postings none = ok []
read_at max_ordinals postings (some cookie) = read_ordinals_at max_ordinals postings cookie

-- The two files of an index without a table of names.
pub record IndexFiles : Type 0 where
  pub fst_file : Option Bytes
  pub postings_file : Option Bytes

pub record OpenIndex (f : Fst) : Type 0 where
  pub map : f.Map
  pub postings : Bytes

unfoldable pub write_index :
    (f : Fst) (r : Roaring) (magic : Bytes) (version : ℕ)
    → SortedMap (r.Bitmap)
    → Result IndexFiles Error
write_index f r magic version m = do
  (raw, cookies) ← write_postings r m (magic ++ u32_le version)
  fst_bytes ← ok_or (f.build cookies) corrupt_fst
  ok (record { fst_file = some fst_bytes; postings_file = some raw })

unfoldable pub open_index :
    (f : Fst) (magic : Bytes) (version max_fst_bytes max_postings_bytes : ℕ)
    → IndexFiles
    → Result (OpenIndex f) Error
open_index f magic version max_fst_bytes max_postings_bytes files = do
  fst_data ← ok_or files.fst_file missing
  postings ← ok_or files.postings_file missing
  _ ← require (leb (length fst_data) max_fst_bytes) file_too_large
  map ← ok_or (f.open_map fst_data) corrupt_fst
  _ ← require (leb (length postings) max_postings_bytes) file_too_large
  _ ← validate_header magic version postings
  ok (record { map = map; postings = postings })

-- The loop `while let Some((_, cookie)) = stream.next()`, the ordinals of each entry added.
unfoldable pub collect :
    (r : Roaring) (max_ordinals : ℕ) → Bytes → SortedMap ℕ → r.Bitmap → Result (r.Bitmap) Error
collect r max_ordinals postings [] matched = ok matched
collect r max_ordinals postings ((key, cookie) ∷ entries) matched = do
  ordinals ← read_ordinals_at max_ordinals postings cookie
  collect r max_ordinals postings entries (extend r ordinals matched)
