-- ===== src/Database/Listing.antt =====
-- What the database writer holds after a package, crates/nixdex-core/src/database.rs.
use nixdex.Prelude.{◌≡◌, refl, List, [], ◌∷◌, ◌++◌, Result, ok, length, Option, none, some}
use nixdex.Prelude.Bytes.{Bytes}
use nixdex.Redb
use nixdex.StorePath.{StorePath}
use nixdex.Files.{FileTreeEntry}
use nixdex.Files.Tree.{FileTree}
use nixdex.Files.Flatten.{below, list_tree, to_list-list_tree}
use nixdex.Index.{Roaring}
use nixdex.Index
use nixdex.Index.Basename
use nixdex.Index.Path
use nixdex.Index.Command
use nixdex.Database.{
  Error, Writer, kept, add_entries, add_excluding, entry_paths, package_label, provider_of,
}

module _ (r : Roaring) (RedbWriter : Type 0)
    (redb_add : StorePath
      → List FileTreeEntry
      → RedbWriter
      → RedbWriter × Result (Unit {0}) Redb.Error) where
  -- The redb writer, if there is one, takes the package.
  abbrev pub Takes : StorePath → Option RedbWriter → Type 0
  Takes path none = Unit
  Takes path (some redb) = (entries : List FileTreeEntry) → (redb_add path entries redb).1 ≡ ok tt

  abbrev pub redb_after : StorePath → List FileTreeEntry → Option RedbWriter → Option RedbWriter
  redb_after path entries none = none
  redb_after path entries (some redb) = some (redb_add path entries redb).0

  -- The writer with the entries of a package in its indexes.
  abbrev pub indexed : StorePath → List FileTreeEntry → Writer r RedbWriter → Writer r RedbWriter
  indexed path entries w = record w {
    basename_index =
        (Index.Basename.record_package r (package_label path) (entry_paths entries)
          w.basename_index).0;
    command_index =
        (Index.Command.record_package (provider_of path) (entry_paths entries) w.command_index).0;
    path_index =
        Index.Path.record_package r w.basename_index.next_ordinal (entry_paths entries)
          w.path_index;
    redb = redb_after path entries w.redb;
  }

  -- The writer with `bytes` as the package's part of the listing.
  abbrev pub grown : StorePath → Bytes → Writer r RedbWriter → Writer r RedbWriter
  grown path bytes w = record w {
    raw = w.raw ++ bytes;
    boundaries = w.boundaries ++ (length (w.raw ++ bytes) ∷ []);
    attrs = w.attrs ++ ((path.origin.attr, path.origin.output, path.hash) ∷ []);
  }

  pub add_excluding-add_entries :
      (path : StorePath) (files : FileTree) (filter_prefix : Bytes) (exclude_prefixes : List Bytes)
      (json : Result Bytes Error) (w : Writer r RedbWriter)
      → add_excluding r RedbWriter redb_add path files filter_prefix exclude_prefixes json w
        ≡ add_entries r RedbWriter redb_add path
            (kept exclude_prefixes (below filter_prefix (list_tree [] files)))
            json
            w
  unfolding add_excluding
  add_excluding-add_entries path files filter_prefix exclude_prefixes json w =
      rw (to_list-list_tree files filter_prefix, add_excluding) refl
