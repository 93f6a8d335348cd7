-- ===== src/Database.antt =====
-- crates/nixdex-core/src/database.rs: how the database writer takes up one package. `raw` is the
-- uncompressed listing, `boundaries` the ends of its packages, `attrs` the rows of the attribute
-- sidecar, `file` what the open file holds. The builders of the basename, path and command indexes are
-- those of Index. The writer of the redb index and its operation are the parameters `RedbWriter` and
-- `redb_add`, which `Writer` and `add` of Redb fulfil. `json` is the outcome of `sonic_rs::to_vec` on
-- the store path.
pub mod Kept
pub mod Block
pub mod Listing
pub mod Failures
pub mod FrameMap
mod Tests
use nixdex.Prelude.{
  ℕ, Bool, true, false, not, ◌&&◌, ◌||◌, Option, none, some, List, [], ◌∷◌, ◌++◌, if◌then◌else◌,
  Result, ok, err, ◌>>=◌, length,
}
use nixdex.Prelude.Bytes.{Bytes, codes, starts_with}
use nixdex.Frcode
use nixdex.Frcode.{Encoder, new, finish}
use nixdex.Frcode.Package.{and_then, written}
use nixdex.Redb
use nixdex.StorePath.{StorePath}
use nixdex.Files.{FileTreeEntry, is_encodable, encode}
use nixdex.Files.Tree.{FileTree, to_list}
use nixdex.Index
use nixdex.Index.{Roaring}
use nixdex.Index.Basename
use nixdex.Index.Basename.{BasenameIndexBuilder}
use nixdex.Index.Path
use nixdex.Index.Path.{PathIndexBuilder}
use nixdex.Index.Command
use nixdex.Index.Command.{CommandIndexBuilder, CommandProvider}

-- `out_of_fuel` is no error of the program: it marks that the loop of `to_list` was cut short, which
-- never happens. The errors of other crates and of the indexes are there without their payload.
pub data Error : Type 0 where
  unsupported_file_type : Bytes → Error
  unsupported_version : ℕ → Error
  corrupt missing_package_entry : Error
  frcode : Frcode.Error → Error
  entry_parse store_path_parse : Bytes → Error
  regex grep io json_error not_implemented : Error
  secondary_index path_index entry_index ngram_index path_entry_index path_trigram_index : Error
  command_index : Error
  out_of_fuel : Error

pub record Writer (r : Roaring) (RedbWriter : Type 0) : Type 0 where
  pub path : Bytes
  pub level : ℕ
  pub version : ℕ
  pub raw : Bytes
  pub boundaries : List ℕ
  pub basename_index : BasenameIndexBuilder r
  pub path_index : PathIndexBuilder r
  pub file : Option Bytes
  pub frame_lengths : List ℕ
  pub frame_map : List ℕ
  pub finished : Bool
  pub attrs : List (Bytes × Bytes × Bytes)
  pub redb : Option RedbWriter
  pub command_index : CommandIndexBuilder

unfoldable pub any_prefix : List Bytes → Bytes → Bool
any_prefix [] path = false
any_prefix (p ∷ ps) path = starts_with path p || any_prefix ps path

-- The filter of `add_excluding`.
unfoldable pub kept : List Bytes → List FileTreeEntry → List FileTreeEntry
kept exclude_prefixes [] = []
kept exclude_prefixes (entry ∷ entries) =
    let rest = kept exclude_prefixes entries in
    if not (any_prefix exclude_prefixes entry.path) && is_encodable entry
    then entry ∷ rest
    else rest

unfoldable pub encode_all : List FileTreeEntry → Encoder → Encoder × Result (Unit {0}) Frcode.Error
encode_all [] e = (e, ok tt)
encode_all (entry ∷ entries) e = and_then (encode entry e) (encode_all entries)

-- The buffer `package`, written through an encoder of its own.
unfoldable pub encode_package : List FileTreeEntry → Bytes → Result Bytes Frcode.Error
encode_package entries json = do
  fr ← new [] (codes "p") json
  written (and_then (encode_all entries fr) finish)

abbrev pub entry_paths : List FileTreeEntry → List Bytes
entry_paths [] = []
entry_paths (entry ∷ entries) = entry.path ∷ entry_paths entries

-- `format!("{}.{}", path.origin().attr, path.origin().output)`
abbrev pub package_label : StorePath → Bytes
package_label path = path.origin.attr ++ (codes "." ++ path.origin.output)

abbrev pub provider_of : StorePath → CommandProvider
provider_of path = record {
  attr = path.origin.attr;
  output = path.origin.output;
  toplevel = path.origin.toplevel;
}

module _ (r : Roaring) (RedbWriter : Type 0)
    (redb_add : StorePath
      → List FileTreeEntry
      → RedbWriter
      → RedbWriter × Result (Unit {0}) Redb.Error) where
  -- A method of the writer: the writer as it leaves it, and its result.
  abbrev pub Added : Type 0 → Type 0
  Added A = Writer r RedbWriter × Result A Error

  -- `?` on a method's result.
  abbrev pub then_next : {A B : Type 0} → Added A → (A → Writer r RedbWriter → Added B) → Added B
  then_next (w, err e) next = (w, err e)
  then_next (w, ok a) next = next a w

  abbrev pub after_basenames :
      Writer r RedbWriter → BasenameIndexBuilder r × Result ℕ Index.Error → Added ℕ
  after_basenames w (b, err e) = (record w { basename_index = b }, err secondary_index)
  after_basenames w (b, ok ordinal) = (record w { basename_index = b }, ok ordinal)

  unfoldable pub index_basenames : StorePath → List FileTreeEntry → Writer r RedbWriter → Added ℕ
  index_basenames path entries w =
      after_basenames w (
        Index.Basename.record_package r (package_label path) (entry_paths entries) w.basename_index)

  abbrev pub after_commands :
      Writer r RedbWriter → CommandIndexBuilder × Result ℕ Index.Error → Added (Unit {0})
  after_commands w (b, err e) = (record w { command_index = b }, err command_index)
  after_commands w (b, ok id) = (record w { command_index = b }, ok tt)

  unfoldable pub index_commands :
      StorePath → List FileTreeEntry → Writer r RedbWriter → Added (Unit {0})
  index_commands path entries w =
      after_commands w
        (Index.Command.record_package (provider_of path) (entry_paths entries) w.command_index)

  unfoldable pub index_paths : ℕ → List FileTreeEntry → Writer r RedbWriter → Writer r RedbWriter
  index_paths ordinal entries w = record w {
    path_index = Index.Path.record_package r ordinal (entry_paths entries) w.path_index;
  }

  abbrev pub after_redb :
      Writer r RedbWriter → RedbWriter × Result (Unit {0}) Redb.Error → Added (Unit {0})
  after_redb w (redb, err e) = (record w { redb = some redb }, err io)
  after_redb w (redb, ok u) = (record w { redb = some redb }, ok tt)

  -- `if let Some(redb) = &mut self.redb`
  abbrev pub try_redb :
      StorePath → List FileTreeEntry → Writer r RedbWriter → Option RedbWriter → Added (Unit {0})
  try_redb path entries w none = (w, ok tt)
  try_redb path entries w (some redb) = after_redb w (redb_add path entries redb)

  unfoldable pub index_redb :
      StorePath → List FileTreeEntry → Writer r RedbWriter → Added (Unit {0})
  index_redb path entries w = try_redb path entries w w.redb

  abbrev pub store_package :
      StorePath → Result Bytes Frcode.Error → Writer r RedbWriter → Added (Unit {0})
  store_package path (err e) w = (w, err (frcode e))
  store_package path (ok package_bytes) w =
      let raw = w.raw ++ package_bytes in
      (
        record w {
          raw = raw;
          boundaries = w.boundaries ++ (length raw ∷ []);
          attrs = w.attrs ++ ((path.origin.attr, path.origin.output, path.hash) ∷ []);
        },
        ok tt,
      )

  unfoldable pub encode_entries :
      StorePath → List FileTreeEntry → Result Bytes Error → Writer r RedbWriter → Added (Unit {0})
  encode_entries path entries (err e) w = (w, err e)
  encode_entries path entries (ok json) w = store_package path (encode_package entries json) w

  -- Once the filter has run; nothing is done for a package without entries.
  unfoldable pub add_entries :
      StorePath → List FileTreeEntry → Result Bytes Error → Writer r RedbWriter → Added (Unit {0})
  add_entries path [] json w = (w, ok tt)
  add_entries path (entry ∷ entries) json w =
      let all = entry ∷ entries in
      then_next (index_basenames path all w) (λ ordinal w1.
        then_next (index_commands path all w1) (λ u w2.
          then_next (index_redb path all (index_paths ordinal all w2))
            (λ v w3. encode_entries path all json w3)))

  unfoldable pub add_excluding :
      StorePath
      → FileTree
      → Bytes
      → List Bytes
      → Result Bytes Error
      → Writer r RedbWriter
      → Added (Unit {0})
  add_excluding path files filter_prefix exclude_prefixes json w =
      elim (to_list files filter_prefix) [
        | none ↦ (w, err out_of_fuel)
        | some listed ↦ add_entries path (kept exclude_prefixes listed) json w
      ]

  unfoldable pub add :
      StorePath → FileTree → Bytes → Result Bytes Error → Writer r RedbWriter → Added (Unit {0})
  add path files filter_prefix json w = add_excluding path files filter_prefix [] json w
