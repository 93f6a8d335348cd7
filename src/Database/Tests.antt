-- ===== src/Database/Tests.antt =====
-- Runs of crates/nixdex-core/src/database.rs, with lists for the sets of the indexes and a redb writer
-- whose transactions go through, or do not.
use nixdex.Prelude.{
  ℕ, ◌+◌, arith, ◌≡◌, refl, true, false, none, some, List, [], ◌∷◌, Result, ok, err, ◌⊎◌, length,
}
use nixdex.Prelude.Bytes.{Bytes, codes, starts_with}
use nixdex.StorePath.{StorePath}
use nixdex.Files.{FileTreeEntry}
use nixdex.Files.Tree.{FileTree, regular_tree, directory_tree, empty, entry}
use nixdex.Files.Flatten.{below, list_tree}
use nixdex.Index.Instances.{list_roaring}
use nixdex.Redb
use nixdex.Prelude.{Bool, Option}
use nixdex.Prelude.SortedMap.{SortedMap, lookup}
use nixdex.Index
use nixdex.Index.Basename.{basename_of}
use nixdex.Index.Basename
use nixdex.Index.Command
use nixdex.Database.{
  Error, Writer, corrupt, add_excluding, add_entries, index_basenames, index_commands, index_paths,
  index_redb, kept, any_prefix,
}
use nixdex.Database.Listing.{add_excluding-add_entries}
use nixdex.Database.Failures.{SameListing, add_excluding-err}
use nixdex.Database.FrameMap.{
  write_frame_map, read_frame_map, all_below, file_of, read_frame_map-write_frame_map,
}

abbrev hello : StorePath
hello = record {
  store_dir = codes "/nix/store";
  hash = codes "abc";
  name = codes "hello";
  origin = record { attr = codes "hello"; output = codes "out"; toplevel = true; system = none };
}

abbrev files : FileTree
files =
    directory_tree 2 (
      entry (codes "bin") (regular_tree 7 true)
        (entry (codes "share") (regular_tree 9 false) empty))

-- Encodings that always succeed, and transactions that do too, or never.
abbrev package_row : StorePath → List FileTreeEntry → Option Bytes
package_row path entries = some (path.hash)

abbrev origins_row : List Bytes → Option Bytes
origins_row origins = some (codes "row")

abbrev no_origins : Bytes → Option (List Bytes)
no_origins bytes = some []

abbrev lossy : Bytes → Bytes
lossy bytes = bytes

abbrev adding :
    Bool → StorePath → List FileTreeEntry → Redb.Writer → Redb.Writer × Result (Unit {0}) Redb.Error
adding goes path entries w =
    Redb.add (λ old new. goes) package_row origins_row no_origins lossy path entries w

abbrev fresh : Writer list_roaring Redb.Writer
fresh = record {
  path = codes "/db/files";
  level = 22;
  version = 2;
  raw = codes "before";
  boundaries = 6 ∷ [];
  basename_index = record { next_ordinal = 1; basenames = []; package_names = codes "x.out" ∷ [] };
  path_index = [];
  file = none;
  frame_lengths = [];
  frame_map = [];
  finished = false;
  attrs = [];
  redb = some (record {
    database = record { packages = []; basenames = [] };
    path_cache = [];
    path_cache_path = codes "/db/paths";
  });
  command_index = record { providers = []; provider_index = []; commands = [] };
}

adding_fails :
    (add_excluding list_roaring Redb.Writer
      (adding false)
      hello
      files
      (codes "/")
      []
      (ok (codes "{}"))
      fresh).1
    ≡ err Error.io
unfolding Redb.add Redb.updated Redb.add_basenames Redb.add_origin basename_of below list_tree
    starts_with kept any_prefix add_entries index_basenames index_commands index_paths index_redb
    Index.Basename.record_package Index.Command.record_package Index.Command.provider_id
    Index.Command.find_id nixdex.Files.is_encodable nixdex.Prelude.Split.rsplit_once lookup
    nixdex.Prelude.SortedMap.adjust nixdex.Prelude.Bytes.bytes_eq
adding_fails =
    rw
      (add_excluding-add_entries list_roaring Redb.Writer (adding false) hello files (codes "/") []
        (ok (codes "{}")) fresh)
      refl

add_excluding-err_example :
    SameListing list_roaring Redb.Writer
      (adding false)
      fresh
      (add_excluding list_roaring Redb.Writer
        (adding false)
        hello
        files
        (codes "/")
        []
        (ok (codes "{}"))
        fresh).0
add_excluding-err_example =
    add_excluding-err list_roaring Redb.Writer (adding false) hello files (codes "/") []
      (ok (codes "{}")) fresh Error.io adding_fails

-- The third frame is out of range.
read_frame_map-write_frame_map_example :
    ((all_below 2 (0 ∷ 1 ∷ 2 ∷ 1 ∷ []) ≡ true)
      × ((write_frame_map (0 ∷ 1 ∷ 2 ∷ 1 ∷ []) 2).1 ≡ ok tt)
      × (read_frame_map (write_frame_map (0 ∷ 1 ∷ 2 ∷ 1 ∷ []) 2).0 ≡ ok (0 ∷ 1 ∷ 2 ∷ 1 ∷ [])))
    ⊎ ((all_below 2 (0 ∷ 1 ∷ 2 ∷ 1 ∷ []) ≡ false)
        × ((write_frame_map (0 ∷ 1 ∷ 2 ∷ 1 ∷ []) 2).1 ≡ err corrupt)
        × ((write_frame_map (0 ∷ 1 ∷ 2 ∷ 1 ∷ []) 2).0 ≡ file_of (0 ∷ 1 ∷ 2 ∷ 1 ∷ []) 2 (0 ∷ 1 ∷ []))
        × (read_frame_map (write_frame_map (0 ∷ 1 ∷ 2 ∷ 1 ∷ []) 2).0 ≡ err corrupt))
read_frame_map-write_frame_map_example =
    read_frame_map-write_frame_map (0 ∷ 1 ∷ 2 ∷ 1 ∷ []) 2 (omega arith) (omega arith)
