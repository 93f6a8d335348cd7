-- ===== src/Files/Flatten.antt =====
-- What `FileTree::to_list` returns, crates/nixdex-core/src/files.rs.
use mathlib.Core.List.{append_assoc, append-nil}
use nixdex.Prelude.{
  ℕ, zero, suc, ◌+◌, ◌≤◌, ◌<◌, ◌≡◌, refl, sym, ap, ◌∙◌, some, List, [], ◌∷◌, ◌++◌, if◌then◌else◌,
  arith,
}
use nixdex.Prelude.Bytes.{Bytes, starts_with}
use nixdex.Files.{FileNode, FileTreeEntry, split_contents}
use nixdex.Files.Tree.{
  FileTree, FileEntries, regular_tree, symlink_tree, directory_tree, empty, entry, root, child_path,
  Stack, push_children, to_list_loop, size_tree, size_entries, to_list,
}

abbrev node_entry : Bytes → FileNode (Unit {0}) → FileTreeEntry
node_entry path node = record { path = path; node = node }

-- Every node under the path of its tree: a directory first, then its children from the last to the
-- first, each with all that is below it.
unfoldable mutual
  pub list_tree : Bytes → FileTree → List FileTreeEntry
  list_tree path (regular_tree size executable) =
      node_entry path (FileNode.regular size executable) ∷ []
  list_tree path (symlink_tree target) = node_entry path (FileNode.symlink target) ∷ []
  list_tree path (directory_tree size contents) =
      node_entry path (FileNode.directory size tt) ∷ list_entries path contents

  pub list_entries : Bytes → FileEntries → List FileTreeEntry
  list_entries path empty = []
  list_entries path (entry name child rest) =
      list_entries path rest ++ list_tree (child_path path name) child

-- The entries whose path starts with a prefix.
unfoldable pub below : Bytes → List FileTreeEntry → List FileTreeEntry
below filter_prefix [] = []
below filter_prefix (e ∷ es) =
    let rest = below filter_prefix es in if starts_with e.path filter_prefix then e ∷ rest else rest

below-append :
    (filter_prefix : Bytes) (xs ys : List FileTreeEntry)
    → below filter_prefix (xs ++ ys) ≡ below filter_prefix xs ++ below filter_prefix ys
unfolding below
below-append filter_prefix [] ys = refl
below-append filter_prefix (x ∷ xs) ys = ground (arith, below-append filter_prefix xs ys)

abbrev list_stack : Stack → List FileTreeEntry
list_stack [] = []
list_stack ((path, tree) ∷ stack) = list_tree path tree ++ list_stack stack

abbrev size_stack : Stack → ℕ
size_stack [] = 0
size_stack ((path, tree) ∷ stack) = size_tree tree + size_stack stack

list_stack-push_children :
    (path : Bytes) (entries : FileEntries) (stack : Stack)
    → list_stack (push_children path entries stack) ≡ list_entries path entries ++ list_stack stack
unfolding push_children list_entries
list_stack-push_children path empty stack = refl
list_stack-push_children path (entry name child rest) stack =
    list_stack-push_children path rest ((child_path path name, child) ∷ stack)
    ∙ sym (
        append_assoc (list_entries path rest) (list_tree (child_path path name) child)
          (list_stack stack))

size_stack-push_children :
    (path : Bytes) (entries : FileEntries) (stack : Stack)
    → size_stack (push_children path entries stack) ≡ size_entries entries + size_stack stack
unfolding push_children size_tree
size_stack-push_children path empty stack = omega arith
size_stack-push_children path (entry name child rest) stack =
    omega (arith, size_stack-push_children path rest ((child_path path name, child) ∷ stack))

size_tree_pos : (tree : FileTree) → 0 < size_tree tree
unfolding size_tree
size_tree_pos (regular_tree size executable) = omega arith
size_tree_pos (symlink_tree target) = omega arith
size_tree_pos (directory_tree size contents) = omega arith

-- One node more, kept or not.
keep_one :
    (filter_prefix : Bytes) (result : List FileTreeEntry) (e : FileTreeEntry)
    (es : List FileTreeEntry)
    → (if starts_with e.path filter_prefix then result ++ (e ∷ []) else result)
        ++ below filter_prefix es
      ≡ result ++ below filter_prefix (e ∷ es)
unfolding below
keep_one filter_prefix result e es =
    ground (arith, append_assoc result (e ∷ []) (below filter_prefix es))

to_list_loop-list_stack :
    (fuel : ℕ) (filter_prefix : Bytes) (stack : Stack) (result : List FileTreeEntry)
    → size_stack stack ≤ fuel
    → to_list_loop fuel filter_prefix stack result
      ≡ some (result ++ below filter_prefix (list_stack stack))
unfolding to_list_loop root split_contents list_tree size_tree
to_list_loop-list_stack fuel filter_prefix [] result h = unfold below in rw append-nil
to_list_loop-list_stack zero filter_prefix ((path, tree) ∷ stack) result h =
    absurd (omega (arith, size_tree_pos tree))
to_list_loop-list_stack (suc fuel) filter_prefix ((path, regular_tree n x) ∷ stack) result h =
    to_list_loop-list_stack fuel filter_prefix stack _ (omega arith)
    ∙ ap some
        (keep_one filter_prefix result (node_entry path (FileNode.regular n x)) (list_stack stack))
to_list_loop-list_stack (suc fuel) filter_prefix ((path, symlink_tree target) ∷ stack) result h =
    to_list_loop-list_stack fuel filter_prefix stack _ (omega arith)
    ∙ ap some (
        keep_one filter_prefix result (node_entry path (FileNode.symlink target))
          (list_stack stack))
to_list_loop-list_stack (suc fuel) filter_prefix ((path, directory_tree n contents) ∷ stack) result
      h =
    to_list_loop-list_stack fuel filter_prefix (push_children path contents stack) _
      (omega (arith, size_stack-push_children path contents stack))
    ∙ ap some (
        keep_one filter_prefix result (node_entry path (FileNode.directory n tt)) _
        ∙ ap
            (λ (es : List FileTreeEntry).
              result ++ below filter_prefix (node_entry path (FileNode.directory n tt) ∷ es))
            (list_stack-push_children path contents stack))

-- `to_list` comes to an end, and returns the nodes of the tree whose path starts with the prefix: all
-- of them, once each, a directory before what is below it, and its children from last to first.
pub to_list-list_tree :
    (tree : FileTree) (filter_prefix : Bytes)
    → to_list tree filter_prefix ≡ some (below filter_prefix (list_tree [] tree))
unfolding to_list
to_list-list_tree tree filter_prefix =
    to_list_loop-list_stack (size_tree tree) filter_prefix (([], tree) ∷ []) [] (omega arith)
    ∙ ap (λ (es : List FileTreeEntry). some (below filter_prefix es))
        (append-nil (list_tree [] tree))
