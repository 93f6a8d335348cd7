-- ===== src/Redb.antt =====
-- crates/nixdex-core/src/redb_index.rs: how the writer of the redb index takes up a package.
-- The packages redb and postcard are parameters: `commits` says whether a transaction from the first
-- tables to the second goes through; one that fails, at any of its steps, leaves the tables as they
-- were. The others are postcard's encodings and `String::from_utf8_lossy`. A table is the list of its
-- rows in the order of the keys. Where both an encoding and the transaction would fail, the error is
-- the encoding's.
use nixdex.Prelude.{
  Bool, true, false, Option, none, some, List, [], ◌∷◌, ◌++◌, Result, ok, err, ◌>>=◌, if◌then◌else◌,
  ok_or,
}
use nixdex.Prelude.Bytes.{Bytes, codes, bytes_eq}
use nixdex.Prelude.SortedMap.{SortedMap, lookup, adjust}
use nixdex.StorePath.{StorePath}
use nixdex.Files.{FileTreeEntry}
use nixdex.Index.{is_empty}
use nixdex.Index.Basename.{basename_of}

pub data Error : Type 0 where
  redb io postcard : Error

pub record Tables : Type 0 where
  pub packages : SortedMap Bytes
  pub basenames : SortedMap Bytes

pub record Writer : Type 0 where
  pub database : Tables
  pub path_cache : SortedMap (List Bytes)
  pub path_cache_path : Bytes

-- `insert` of a table: the row of the key is replaced.
abbrev pub insert_row : Bytes → Bytes → SortedMap Bytes → SortedMap Bytes
insert_row key value table = adjust key [] (λ old. value) table

abbrev pub origin_key_of : StorePath → Bytes
origin_key_of path = path.origin.attr ++ (codes "." ++ path.origin.output)

-- `origins.iter().any(|origin| origin == &origin_key)`
abbrev pub has_origin : Bytes → List Bytes → Bool
has_origin key [] = false
has_origin key (origin ∷ origins) = if bytes_eq origin key then true else has_origin key origins

abbrev pub with_origin : Bytes → List Bytes → List Bytes
with_origin key origins = if has_origin key origins then origins else origins ++ (key ∷ [])

-- The loop over the entries after the commit.
abbrev pub cache_paths :
    Bytes → List FileTreeEntry → SortedMap (List Bytes) → SortedMap (List Bytes)
cache_paths key [] cache = cache
cache_paths key (entry ∷ entries) cache =
    cache_paths key entries (adjust entry.path [] (λ origins. origins ++ (key ∷ [])) cache)

module _ (commits : Tables → Tables → Bool)
    (package_to_vec : StorePath → List FileTreeEntry → Option Bytes)
    (origins_to_vec : List Bytes → Option Bytes) (origins_from_bytes : Bytes → Option (List Bytes))
    (from_utf8_lossy : Bytes → Bytes) where
  -- The origins in the row of a basename.
  abbrev pub read_origins : Option Bytes → Result (List Bytes) Error
  read_origins none = ok []
  read_origins (some value) = ok_or (origins_from_bytes value) postcard

  -- One round of the loop over the entries, for a basename that is not empty.
  unfoldable pub add_origin : Bytes → Bytes → SortedMap Bytes → Result (SortedMap Bytes) Error
  add_origin key basename basenames = do
    origins ← read_origins (lookup basename basenames)
    row ← ok_or (origins_to_vec (with_origin key origins)) postcard
    ok (insert_row basename row basenames)

  unfoldable pub add_basenames :
      Bytes → List FileTreeEntry → SortedMap Bytes → Result (SortedMap Bytes) Error
  add_basenames key [] basenames = ok basenames
  add_basenames key (entry ∷ entries) basenames = do
    basenames' ←
        (if is_empty (basename_of entry.path)
          then ok basenames
          else add_origin key (from_utf8_lossy (basename_of entry.path)) basenames)
    add_basenames key entries basenames'

  -- The tables that the transaction would leave.
  unfoldable pub updated : StorePath → List FileTreeEntry → Tables → Result Tables Error
  updated path entries tables = do
    row ← ok_or (package_to_vec path entries) postcard
    basenames' ← add_basenames (origin_key_of path) entries tables.basenames
    ok (record {
      packages = insert_row (origin_key_of path) row tables.packages;
      basenames = basenames';
    })

  abbrev pub commit :
      StorePath
      → List FileTreeEntry
      → Writer
      → Result Tables Error
      → Writer × Result (Unit {0}) Error
  commit path entries w (err e) = (w, err e)
  commit path entries w (ok tables) =
      if commits w.database tables
      then (
        record w {
          database = tables;
          path_cache = cache_paths (origin_key_of path) entries w.path_cache;
        },
        ok tt,
      )
      else (w, err redb)

  unfoldable pub add : StorePath → List FileTreeEntry → Writer → Writer × Result (Unit {0}) Error
  add path [] w = (w, ok tt)
  add path (entry ∷ entries) w =
      commit path (entry ∷ entries) w (updated path (entry ∷ entries) w.database)
