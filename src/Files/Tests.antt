-- ===== src/Files/Tests.antt =====
-- Runs of crates/nixdex-core/src/files.rs.
use mathlib.Core.List.{Perm}
use nixdex.Prelude.{ℕ, inl, ◌≡◌, refl, true, false, none, some, [], ◌∷◌, ◌++◌, ok, err, arith}
use nixdex.Prelude.Bytes.{Bytes, codes, contains, bytes_le, starts_with, bytes_eq}
use nixdex.Frcode.{Encoder}
use nixdex.Frcode.Bounds.{IsValid}
use nixdex.Prelude.Decimal.{parse_u64}
use nixdex.Prelude.Split.{split_once}
use nixdex.Files.{
  FileType, FileNode, FileTreeEntry, to_possible_value, from_str, is_encodable, any_forbidden,
  encode, decode, split_last, decode_meta, decode_kind, DecodeError,
}
use nixdex.Files.Tree.{
  FileEntries, regular_tree, symlink_tree, directory_tree, empty, entry, root, regular,
  insert_entry, sort_entries, count_entries, directory, to_list, push_children, to_list_loop,
  size_tree,
}
use nixdex.Files.Flatten.{below, list_tree, to_list-list_tree}
use nixdex.Files.Directory.{to_pairs, AreSorted, directory-AreSorted}
use nixdex.Files.Meta.{from_str-to_possible_value}
use nixdex.Files.Errors.{Outcome, encode-IsValid}
use nixdex.Files.RoundTrip.{decode-encode}
use nixdex.Frcode.Format.{read_line}
use nixdex.Files.Ls.{
  LsNode, LsEntries, ls_node, done, item, absent, bad_name, by_kind, to_directory, add_entry,
  ls_node_to_tree, invalid_name,
}
use nixdex.Files.LsSafe.{SafeTree, ls_node_to_tree-SafeTree}

abbrev hello : FileTreeEntry
hello = record { path = codes "/bin/hello"; node = FileNode.regular 64472 true }

hello_decodes : decode (codes "64472x" ++ (0 ∷ codes "/bin/hello")) ≡ ok hello
unfolding decode split_once decode_meta split_last decode_kind parse_u64
hello_decodes = refl

no_separator : decode (codes "64472x") ≡ err DecodeError.missing_separator
unfolding decode split_once
no_separator = refl

from_str-to_possible_value_example :
    (from_str (codes "x") ≡ some (FileType.regular true)
      → codes "x" ≡ to_possible_value (FileType.regular true))
    × (codes "x" ≡ to_possible_value (FileType.regular true)
        → from_str (codes "x") ≡ some (FileType.regular true))
from_str-to_possible_value_example = from_str-to_possible_value (codes "x") (FileType.regular true)

abbrev midway : Encoder
midway = record {
  writer = [];
  last = codes "/bin";
  shared_len = 2;
  footer_meta = codes "p";
  footer_path = codes "{}";
  footer_written = false;
}

encode-IsValid_example :
    IsValid (encode hello midway).0 × Outcome hello midway (encode hello midway)
encode-IsValid_example =
    encode-IsValid hello midway (record { small = omega arith; within = omega arith })

hello_encodable : is_encodable hello ≡ true
unfolding is_encodable any_forbidden
hello_encodable = refl

decode-encode_example :
    (out : Bytes) × (meta : Bytes) × (shared : ℕ) × (encode hello midway ≡ (
      record midway { writer = midway.writer ++ out; last = hello.path; shared_len = shared },
      ok tt,
    ))
    × (read_line (codes "/bin") 2 (out ++ codes "7r")
        ≡ some ((meta, hello.path), shared, codes "7r"))
    × (decode (meta ++ (0 ∷ hello.path)) ≡ ok hello)
decode-encode_example =
    decode-encode hello midway (codes "/bin") (codes "7r")
      (record { small = omega arith; within = omega arith }) (inl refl) (omega arith)
      hello_encodable

abbrev two_files : FileEntries
two_files =
    entry (codes "man") (symlink_tree (codes "hello"))
      (entry (codes "bin") (regular_tree 7 true) empty)

listed :
    to_list (directory two_files) (codes "/b")
    ≡ some ((record { path = codes "/bin"; node = FileNode.regular 7 true }) ∷ [])
unfolding to_list directory sort_entries insert_entry count_entries bytes_le size_tree to_list_loop
    push_children root starts_with nixdex.Files.split_contents
listed = refl

to_list-list_tree_example :
    to_list (directory_tree 2 two_files) (codes "/b")
    ≡ some (below (codes "/b") (list_tree [] (directory_tree 2 two_files)))
to_list-list_tree_example = to_list-list_tree (directory_tree 2 two_files) (codes "/b")

directory-AreSorted_example :
    (sorted : FileEntries) × (root (directory two_files)
      ≡ FileNode.directory (count_entries two_files) sorted)
    × AreSorted sorted
    × Perm (to_pairs sorted) (to_pairs two_files)
unfolding count_entries
directory-AreSorted_example = directory-AreSorted two_files (omega arith)

abbrev file_node : LsNode
file_node = ls_node (codes "regular") (some 7) (some true) none absent

abbrev document : LsEntries → LsNode
document entries = ls_node (codes "directory") none none none entries

traversal_refused :
    ls_node_to_tree (document (item (codes "..") file_node done)) 0
    ≡ err (invalid_name (codes ".."))
unfolding ls_node_to_tree by_kind to_directory bad_name contains bytes_eq
traversal_refused = refl

document_read :
    ls_node_to_tree (document (item (codes "bin") file_node done)) 0
    ≡ ok (directory_tree 1 (entry (codes "bin") (regular_tree 7 true) empty))
unfolding ls_node_to_tree by_kind to_directory add_entry bad_name contains bytes_eq directory
    regular sort_entries insert_entry count_entries
document_read = refl

ls_node_to_tree-SafeTree_example :
    SafeTree (directory_tree 1 (entry (codes "bin") (regular_tree 7 true) empty)) 65
ls_node_to_tree-SafeTree_example =
    ls_node_to_tree-SafeTree (document (item (codes "bin") file_node done))
      (directory_tree 1 (entry (codes "bin") (regular_tree 7 true) empty)) document_read
