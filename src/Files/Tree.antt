-- ===== src/Files/Tree.antt =====
-- File trees and their flattening, crates/nixdex-core/src/files.rs.
use nixdex.Prelude.{
  ℕ, zero, suc, ◌+◌, ◌-◌, ◌^◌, Bool, Option, none, some, List, [], ◌∷◌, ◌++◌, if◌then◌else◌, ltb,
}
use nixdex.Prelude.Bytes.{Bytes, starts_with, bytes_le}
use nixdex.Files.{FileNode, FileTreeEntry, split_contents}

-- `struct FileTree(FileNode<Vec<(Bytes, FileTree)>>)`, with the vector as a list of its own.
mutual
  pub data FileTree : Type 0 where
    regular_tree : ℕ → Bool → FileTree
    symlink_tree : Bytes → FileTree
    directory_tree : ℕ → FileEntries → FileTree

  pub data FileEntries : Type 0 where
    empty : FileEntries
    entry : Bytes → FileTree → FileEntries → FileEntries

-- `root`: the node under the newtype.
unfoldable pub root : FileTree → FileNode FileEntries
root (regular_tree size executable) = FileNode.regular size executable
root (symlink_tree target) = FileNode.symlink target
root (directory_tree size contents) = FileNode.directory size contents

unfoldable pub regular : ℕ → Bool → FileTree
regular = regular_tree

unfoldable pub symlink : Bytes → FileTree
symlink = symlink_tree

-- The stable sort by name, as insertion of each entry before the first later name.
unfoldable pub insert_entry : Bytes → FileTree → FileEntries → FileEntries
insert_entry name child empty = entry name child empty
insert_entry name child (entry other tree rest) =
    let later = insert_entry name child rest in
    if bytes_le name other then entry name child (entry other tree rest) else entry other tree later

unfoldable pub sort_entries : FileEntries → FileEntries
sort_entries empty = empty
sort_entries (entry name child rest) = insert_entry name child (sort_entries rest)

unfoldable pub count_entries : FileEntries → ℕ
count_entries empty = 0
count_entries (entry name child rest) = suc (count_entries rest)

-- `directory`: the size is the number of entries, in 64 bits.
unfoldable pub directory : FileEntries → FileTree
directory entries =
    let sorted = sort_entries entries in
    let n = count_entries sorted in directory_tree (if ltb n (2 ^ 64) then n else 2 ^ 64 - 1) sorted

abbrev pub child_path : Bytes → Bytes → Bytes
child_path path name = path ++ (b'/' ∷ name)

-- The stack of `to_list`, its top first.
abbrev pub Stack : Type 0
Stack = List (Bytes × FileTree)

-- Pushing the children: the last one ends on top.
unfoldable pub push_children : Bytes → FileEntries → Stack → Stack
push_children path empty stack = stack
push_children path (entry name child rest) stack =
    push_children path rest ((child_path path name, child) ∷ stack)

push_contents : Bytes → Option FileEntries → Stack → Stack
push_contents path none stack = stack
push_contents path (some entries) stack = push_children path entries stack

-- The loop of `to_list`, on fuel; `none` means that the fuel ran out.
unfoldable pub to_list_loop : ℕ → Bytes → Stack → List FileTreeEntry → Option (List FileTreeEntry)
unfolding push_contents
to_list_loop fuel filter_prefix [] result = some result
to_list_loop zero filter_prefix (item ∷ stack) result = none
to_list_loop (suc fuel) filter_prefix ((path, tree) ∷ stack) result =
    let (node, contents) = split_contents (root tree) in
    to_list_loop fuel filter_prefix (push_contents path contents stack) (
      if starts_with path filter_prefix
      then result ++ ((record { path = path; node = node }) ∷ [])
      else result)

-- The number of nodes.
unfoldable mutual
  pub size_tree : FileTree → ℕ
  size_tree (regular_tree size executable) = 1
  size_tree (symlink_tree target) = 1
  size_tree (directory_tree size contents) = suc (size_entries contents)

  pub size_entries : FileEntries → ℕ
  size_entries empty = 0
  size_entries (entry name child rest) = size_tree child + size_entries rest

-- The fuel is the number of nodes, each of which is popped once.
unfoldable pub to_list : FileTree → Bytes → Option (List FileTreeEntry)
to_list tree filter_prefix = to_list_loop (size_tree tree) filter_prefix (([], tree) ∷ []) []
