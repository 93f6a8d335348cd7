-- ===== src/History.antt =====
-- crates/nixdex-history/src/lib.rs: the version history of packages, as it is built up and as it is
-- written to and read from its sidecar. serde's JSON of a `VersionHistory` is a parameter.
pub mod Record
pub mod Builder
pub mod RoundTrip
mod Tests
use nixdex.Prelude.{
  ℕ, ◌+◌, ◌*◌, ◌^◌, Bool, true, false, not, ◌||◌, Option, none, some, List, [], ◌∷◌, ◌++◌, ltb, leb,
  ◌==◌, if◌then◌else◌, length, take, drop, Result, ok, err, ◌>>=◌, ◌>>◌, require, ok_or,
}
use nixdex.Prelude.Bytes.{Bytes, codes, bytes_eq, bytes_le}

abbrev pub max_history_bytes : ℕ
max_history_bytes = 512 * 1024 * 1024

abbrev pub max_versions_per_attr : ℕ
max_versions_per_attr = 1000

abbrev pub max_version_bytes : ℕ
max_version_bytes = 128

abbrev pub max_commit_bytes : ℕ
max_commit_bytes = 64

abbrev pub max_date_bytes : ℕ
max_date_bytes = 64

-- The messages of `Corrupt` by what they are about.
pub data Error : Type 0 where
  long_version long_commit long_date too_many_versions too_large too_short bad_magic bad_version
        json_error :
      Error

pub record VersionEntry : Type 0 where
  pub version : Bytes
  pub commit : Bytes
  pub date : Bytes

pub record VersionHistory : Type 0 where
  pub attr : Bytes
  pub versions : List VersionEntry

unfoldable pub check_entry : VersionEntry → Result (Unit {0}) Error
check_entry entry = do
  _ ← require (leb (length entry.version) max_version_bytes) long_version
  _ ← require (leb (length entry.commit) max_commit_bytes) long_commit
  require (leb (length entry.date) max_date_bytes) long_date

-- `HistoryBuilder` and `HistoryDb`: the histories under their attributes, in the order of a `BTreeMap`.
abbrev pub Entries : Type 0
Entries = List VersionHistory

-- `versions.iter().any(|v| v.version == entry.version)`
unfoldable pub has_version : Bytes → List VersionEntry → Bool
has_version version [] = false
has_version version (v ∷ vs) = bytes_eq v.version version || has_version version vs

-- `insert` at the position of the first entry with an earlier date, or at the end.
unfoldable pub insert_version : VersionEntry → List VersionEntry → List VersionEntry
insert_version entry [] = entry ∷ []
insert_version entry (v ∷ vs) =
    if not (bytes_le entry.date v.date) then entry ∷ v ∷ vs else v ∷ insert_version entry vs

-- What `record_version` does to the list of the attribute.
unfoldable pub record_entry : VersionEntry → List VersionEntry → Result (List VersionEntry) Error
record_entry entry versions =
    if has_version entry.version versions
    then ok versions
    else if leb max_versions_per_attr (length versions)
    then err too_many_versions
    else ok (insert_version entry versions)

unfoldable pub store :
    Bytes
    → List VersionEntry
    → Result (List VersionEntry) Error
    → Entries
    → Entries × Result (Unit {0}) Error
store attr old (ok versions) rest = (record { attr = attr; versions = versions } ∷ rest, ok tt)
store attr old (err e) rest = (record { attr = attr; versions = old } ∷ rest, err e)

abbrev pub after :
    VersionHistory → Entries × Result (Unit {0}) Error → Entries × Result (Unit {0}) Error
after h (rest, result) = (h ∷ rest, result)

-- `self.entries.entry(attr).or_default()`, and what is then done to the list of the attribute.
unfoldable pub update_attr :
    Bytes
    → (List VersionEntry → Result (List VersionEntry) Error)
    → Entries
    → Entries × Result (Unit {0}) Error
unfolding store
update_attr attr change [] = store attr [] (change []) []
update_attr attr change (h ∷ hs) =
    let later = update_attr attr change hs in
    if bytes_eq h.attr attr
    then store attr h.versions (change h.versions) hs
    else if bytes_le attr h.attr
    then store attr [] (change []) (h ∷ hs)
    else after h later

abbrev pub record_checked :
    Bytes → VersionEntry → Result (Unit {0}) Error → Entries → Entries × Result (Unit {0}) Error
record_checked attr entry (err e) entries = (entries, err e)
record_checked attr entry (ok u) entries = update_attr attr (record_entry entry) entries

unfoldable pub record_version : Bytes → VersionEntry → Entries → Entries × Result (Unit {0}) Error
record_version attr entry entries = record_checked attr entry (check_entry entry) entries

unfoldable pub attr_count : Entries → ℕ
attr_count entries = length entries

unfoldable pub lookup_attr : Bytes → Entries → List VersionEntry
lookup_attr attr [] = []
lookup_attr attr (h ∷ hs) =
    let later = lookup_attr attr hs in if bytes_eq h.attr attr then h.versions else later

-- `BTreeMap::insert`
unfoldable pub insert_history : VersionHistory → Entries → Entries
insert_history new [] = new ∷ []
insert_history new (h ∷ hs) =
    let later = insert_history new hs in
    if bytes_eq h.attr new.attr
    then new ∷ hs
    else if bytes_le new.attr h.attr
    then new ∷ h ∷ hs
    else h ∷ later

unfoldable pub check_entries : List VersionEntry → Result (Unit {0}) Error
check_entries [] = ok tt
check_entries (v ∷ vs) = check_entry v >>= λ u. check_entries vs

-- `HISTORY_MAGIC` and `HISTORY_VERSION`, a little-endian u32.
abbrev pub header : Bytes
header = codes "NXHS" ++ (1 ∷ 0 ∷ 0 ∷ 0 ∷ [])

abbrev pub grow : ℕ → List Bytes → List Bytes
grow b [] = (b ∷ []) ∷ []
grow b (line ∷ lines) = (b ∷ line) ∷ lines

-- `split(|b| *b == b'\n')`
unfoldable pub split_lines : Bytes → List Bytes
split_lines [] = [] ∷ []
split_lines (b ∷ bytes) = if b == 10 then [] ∷ split_lines bytes else grow b (split_lines bytes)

unfoldable pub load_history : VersionHistory → Entries → Result Entries Error
load_history history entries = do
  _ ← require (leb (length history.versions) max_versions_per_attr) too_many_versions
  _ ← check_entries history.versions
  ok (insert_history history entries)

module _ (to_string : VersionHistory → Bytes) where
  unfoldable pub write_lines : Entries → Bytes
  write_lines [] = []
  write_lines (h ∷ hs) = to_string h ++ (10 ∷ write_lines hs)

  -- The bytes that the sidecar gets.
  unfoldable pub write_sidecar : Entries → Result Bytes Error
  write_sidecar entries =
      let bytes = header ++ write_lines entries in
      if ltb max_history_bytes (length bytes) then err too_large else ok bytes

module _ (from_slice : Bytes → Option VersionHistory) where
  unfoldable pub load_line : Bytes → Entries → Result Entries Error
  load_line [] entries = ok entries
  load_line (b ∷ line) entries = do
    history ← ok_or (from_slice (b ∷ line)) json_error
    load_history history entries

  unfoldable pub load_lines : List Bytes → Entries → Result Entries Error
  load_lines [] entries = ok entries
  load_lines (line ∷ lines) entries = load_line line entries >>= λ loaded. load_lines lines loaded

  -- `HistoryDb::open` on the bytes of a sidecar that is there.
  unfoldable pub open_sidecar : Bytes → Result Entries Error
  open_sidecar bytes = do
    _ ← require (leb (length bytes) max_history_bytes) too_large
    _ ← require (leb 8 (length bytes)) too_short
    _ ← require (bytes_eq (take 4 bytes) (codes "NXHS")) bad_magic
    _ ← require (bytes_eq (take 4 (drop 4 bytes)) (1 ∷ 0 ∷ 0 ∷ 0 ∷ [])) bad_version
    load_lines (split_lines (drop 8 bytes)) []
