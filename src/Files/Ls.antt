-- ===== src/Files/Ls.antt =====
-- From a binary cache's `.ls` document to a file tree, crates/nixdex-core/src/files.rs. Reading the
-- JSON text is another package's work: an `LsNode` is what it yields.
use nixdex.Prelude.{
  ℕ, ◌+◌, Bool, false, ◌||◌, Option, none, some, if◌then◌else◌, ltb, Result, ok, err,
}
use nixdex.Prelude.Bytes.{Bytes, codes, bytes_eq, contains}
use nixdex.Files.Tree.{FileTree, FileEntries, empty, entry, regular, symlink, directory}

-- A field `entries` that is missing is `absent`.
mutual
  pub data LsNode : Type 0 where
    ls_node : Bytes → Option ℕ → Option Bool → Option Bytes → LsEntries → LsNode

  pub data LsEntries : Type 0 where
    absent : LsEntries
    done : LsEntries
    item : Bytes → LsNode → LsEntries → LsEntries

-- The texts of the errors.
pub data LsError : Type 0 where
  too_deep : LsError
  missing_target : LsError
  invalid_name : Bytes → LsError
  unknown_type : Bytes → LsError

abbrev pub max_ls_depth : ℕ
max_ls_depth = 64

unfoldable pub bad_name : Bytes → Bool
bad_name name =
    contains b'/' name
    || contains b'\\' name
    || bytes_eq name (codes "..")
    || bytes_eq name (codes ".")

unfoldable pub symlink_to : Option Bytes → Result FileTree LsError
symlink_to none = err missing_target
symlink_to (some target) = ok (symlink target)

unfoldable pub to_directory : Result FileEntries LsError → Result FileTree LsError
to_directory (err e) = err e
to_directory (ok entries) = ok (directory entries)

unfoldable pub add_entry :
    Bytes → Result FileTree LsError → Result FileEntries LsError → Result FileEntries LsError
add_entry name (err e) rest = err e
add_entry name (ok child) (err e) = err e
add_entry name (ok child) (ok rest) = ok (entry name child rest)

-- `match node.kind`, with the directory's entries already read.
unfoldable pub by_kind :
    Bytes
    → Option ℕ
    → Option Bool
    → Option Bytes
    → Result FileEntries LsError
    → Result FileTree LsError
unfolding symlink_to to_directory
by_kind kind size executable target entries =
    if bytes_eq kind (codes "regular")
    then ok (
        regular (elim size [ none ↦ 0 | some n ↦ n ])
          (elim executable [ some b ↦ b | none ↦ false ]))
    else if bytes_eq kind (codes "symlink")
    then symlink_to target
    else if bytes_eq kind (codes "directory")
    then to_directory entries
    else err (unknown_type kind)

unfoldable mutual
  pub ls_node_to_tree : LsNode → ℕ → Result FileTree LsError
  ls_node_to_tree (ls_node kind size executable target entries) depth =
      let contents = ls_entries_to_list entries (depth + 1) in
      if ltb max_ls_depth depth then err too_deep else by_kind kind size executable target contents

  -- The loop over the map; the name is tested before its node is read.
  pub ls_entries_to_list : LsEntries → ℕ → Result FileEntries LsError
  ls_entries_to_list absent depth = ok empty
  ls_entries_to_list done depth = ok empty
  ls_entries_to_list (item name child rest) depth =
      let later = ls_entries_to_list rest depth in
      let tree = ls_node_to_tree child depth in
      if bad_name name then err (invalid_name name) else add_entry name tree later
