-- ===== src/Index/Command.antt =====
-- crates/nixdex-core/src/command_index.rs: from the name of a command to the packages that provide it.
-- Its postings have the format of the other indexes.
pub mod Reader
pub mod Sorted
pub mod Lists
pub mod Build
pub mod Providers
pub mod Recorded
pub mod Entries
pub mod Table
pub mod Chosen
pub mod Lookup
mod Tests
use nixdex.Prelude.{
  ℕ, zero, suc, ◌+◌, ◌-◌, ◌*◌, ◌^◌, Bool, true, false, not, Option, none, some, List, [], ◌∷◌, ◌++◌,
  ◌==◌, ltb, leb, if◌then◌else◌, ◌&&◌, length, get_elem?, drop, Result, ok, err, ◌>>=◌, ◌>>◌,
  require, ok_or,
}
use nixdex.Prelude.Bytes.{Bytes, codes, bytes_eq, starts_with, contains}
use nixdex.Prelude.Words.{u32_le, get_range}
use nixdex.Prelude.SortedMap.{SortedMap, adjust}
use nixdex.Index.{
  Error, Fst, missing, corrupt_fst, ordinal_overflow, file_too_large, short_header, bad_magic,
  bad_version, too_many_names, name_too_long, name_truncated, offset_overflow, ordinal_out_of_range,
  bad_flag, is_empty, read_u32_le, validate_header, ordinals_bytes, read_at,
}
use nixdex.Index.Basename.{basename_of}

abbrev pub bin_prefixes : List Bytes
bin_prefixes = codes "/bin/" ∷ codes "/usr/bin/" ∷ codes "/sbin/" ∷ codes "/usr/sbin/" ∷ []

abbrev pub postings_magic : Bytes
postings_magic = codes "NCPO"

abbrev pub providers_magic : Bytes
providers_magic = codes "NCMD"

abbrev pub side_version : ℕ
side_version = 1

abbrev pub max_providers_bytes : ℕ
max_providers_bytes = 256 * 1024 * 1024

abbrev pub max_provider_count : ℕ
max_provider_count = 2_000_000

abbrev pub max_label_bytes : ℕ
max_label_bytes = 64 * 1024

abbrev pub max_postings_bytes : ℕ
max_postings_bytes = 1024 * 1024 * 1024

abbrev pub max_providers_per_command : ℕ
max_providers_per_command = 1_000_000

abbrev pub max_fst_bytes : ℕ
max_fst_bytes = 128 * 1024 * 1024

abbrev pub max_command_count : ℕ
max_command_count = 4_000_000

pub record CommandProvider : Type 0 where
  pub attr : Bytes
  pub output : Bytes
  pub toplevel : Bool

unfoldable pub provider_eq : CommandProvider → CommandProvider → Bool
provider_eq p q =
    bytes_eq p.attr q.attr
    && bytes_eq p.output q.output
    && (if p.toplevel then q.toplevel else not q.toplevel)

-- A child of the directory.
unfoldable pub is_child : Bytes → Bytes → Bool
is_child prefix path =
    if leb (length path) (length prefix)
    then false
    else if not (starts_with path prefix)
    then false
    else not (is_empty (drop (length prefix) path))
      && not (contains b'/' (drop (length prefix) path))

abbrev pub is_child_of_any : List Bytes → Bytes → Bool
is_child_of_any [] path = false
is_child_of_any (prefix ∷ prefixes) path =
    if is_child prefix path then true else is_child_of_any prefixes path

unfoldable pub is_command_candidate : Bytes → Bool
is_command_candidate path = is_child_of_any bin_prefixes path

pub record CommandIndexBuilder : Type 0 where
  pub providers : List CommandProvider
  pub provider_index : List (CommandProvider × ℕ)
  pub commands : SortedMap (List ℕ)

unfoldable pub new : CommandIndexBuilder
new = record { providers = []; provider_index = []; commands = [] }

unfoldable pub find_id : CommandProvider → List (CommandProvider × ℕ) → Option ℕ
find_id p [] = none
find_id p ((q, id) ∷ index) =
    let rest = find_id p index in if provider_eq q p then some id else rest

-- A provider that was found, or a new one.
abbrev pub known_or_new :
    CommandProvider → CommandIndexBuilder → Option ℕ → CommandIndexBuilder × Result ℕ Error
known_or_new p b (some id) = (b, ok id)
known_or_new p b none =
    if ltb (length b.providers) (2 ^ 32)
    then (
      record b {
        providers = b.providers ++ (p ∷ []);
        provider_index = (p, length b.providers) ∷ b.provider_index;
      },
      ok (length b.providers),
    )
    else (b, err ordinal_overflow)

unfoldable pub provider_id :
    CommandProvider → CommandIndexBuilder → CommandIndexBuilder × Result ℕ Error
provider_id p b = known_or_new p b (find_id p b.provider_index)

-- The loop over the paths.
unfoldable pub record_commands : ℕ → List Bytes → SortedMap (List ℕ) → SortedMap (List ℕ)
record_commands id [] commands = commands
record_commands id (path ∷ paths) commands = record_commands id paths (
    if not (is_command_candidate path)
    then commands
    else if is_empty (basename_of path)
    then commands
    else adjust (basename_of path) [] (λ ids. ids ++ (id ∷ [])) commands)

abbrev pub with_commands :
    List Bytes → CommandIndexBuilder × Result ℕ Error → CommandIndexBuilder × Result ℕ Error
with_commands paths (b, err e) = (b, err e)
with_commands paths (b, ok id) =
    (record b { commands = record_commands id paths b.commands }, ok id)

unfoldable pub record_package :
    CommandProvider → List Bytes → CommandIndexBuilder → CommandIndexBuilder × Result ℕ Error
record_package p paths b = with_commands paths (provider_id p b)

unfoldable pub command_count : CommandIndexBuilder → ℕ
command_count b = length b.commands

abbrev pub flag_byte : Bool → ℕ
flag_byte false = 0
flag_byte true = 1

-- The loop of `write_provider_table`.
unfoldable pub provider_entries : List CommandProvider → Result Bytes Error
provider_entries [] = ok []
provider_entries (p ∷ providers) = do
  _ ← require (leb (length p.attr) max_label_bytes) name_too_long
  _ ← require (leb (length p.output) max_label_bytes) name_too_long
  _ ← require (ltb (length p.attr) (2 ^ 32)) name_too_long
  _ ← require (ltb (length p.output) (2 ^ 32)) name_too_long
  rest ← provider_entries providers
  ok (
      u32_le (length p.attr)
      ++ (p.attr ++ (u32_le (length p.output) ++ (p.output ++ (flag_byte p.toplevel ∷ rest)))))

unfoldable pub write_provider_table : List CommandProvider → Result Bytes Error
write_provider_table providers = do
  _ ← require (ltb (length providers) (2 ^ 32)) too_many_names
  entries ← provider_entries providers
  ok (providers_magic ++ (u32_le side_version ++ (u32_le (length providers) ++ entries)))

-- The loop of `write_sidecars` over the map.
unfoldable pub write_id_lists : SortedMap (List ℕ) → Bytes → Result (Bytes × SortedMap ℕ) Error
write_id_lists [] raw = ok (raw, [])
write_id_lists ((key, ids) ∷ m) raw = do
  packed ← ordinals_bytes ids
  (out, cookies) ← write_id_lists m (raw ++ packed)
  ok (out, (key, length raw) ∷ cookies)

-- The files beside the database.
pub record Sidecars : Type 0 where
  pub fst_file : Option Bytes
  pub postings_file : Option Bytes
  pub providers_file : Option Bytes

unfoldable pub write_sidecars : (f : Fst) → CommandIndexBuilder → Result Sidecars Error
write_sidecars f b = do
  _ ← require (leb (length b.commands) max_command_count) too_many_names
  table ← write_provider_table b.providers
  (raw, cookies) ← write_id_lists b.commands (postings_magic ++ u32_le side_version)
  fst_bytes ← ok_or (f.build cookies) corrupt_fst
  ok (record { fst_file = some fst_bytes; postings_file = some raw; providers_file = some table })
