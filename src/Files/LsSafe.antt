-- ===== src/Files/LsSafe.antt =====
-- What a `.ls` document can become, crates/nixdex-core/src/files.rs.
use nixdex.Prelude.{
  ℕ, ◌+◌, ◌-◌, ◌≤◌, ◌≡◌, ◌≢◌, refl, Bool, true, false, Option, none, some, ltb, Result, ok, err,
  arith, Bool-cases, inl, inr,
}
use nixdex.Prelude.Bytes.{Bytes, bytes_le, bytes_eq, bytes_eq_iff, codes, contains}
use mathlib.Core.Path.{subst}
use nixdex.Files.Tree.{
  FileTree, FileEntries, regular_tree, symlink_tree, directory_tree, empty, entry, insert_entry,
  sort_entries, regular, symlink, directory,
}
use nixdex.Files.Ls.{
  LsNode, LsEntries, ls_node, absent, done, item, LsError, too_deep, invalid_name, max_ls_depth,
  bad_name, by_kind, symlink_to, to_directory, add_entry, ls_node_to_tree, ls_entries_to_list,
}

-- No slash, no backslash, and neither `.` nor `..`. The empty name is one of these.
abbrev pub IsSafeName : Bytes → Type 0
IsSafeName name =
    (contains b'/' name ≡ false)
    × (contains b'\\' name ≡ false)
    × (name ≢ codes ".")
    × (name ≢ codes "..")

bytes_eq_complete : (xs ys : Bytes) → xs ≡ ys → bytes_eq xs ys ≡ true
bytes_eq_complete xs ys e = (bytes_eq_iff xs ys).1 e

bad_name-IsSafeName : (name : Bytes) → bad_name name ≡ false → IsSafeName name
unfolding bad_name
bad_name-IsSafeName name h = (
  ground (arith, h),
  ground (arith, h),
  λ e. ground (arith, h, bytes_eq_complete name (codes ".") e),
  λ e. ground (arith, h, bytes_eq_complete name (codes "..") e),
)

-- Every name in a tree is safe in that sense, and directories nest at most `room` deep.
unfoldable mutual
  pub SafeTree : FileTree → ℕ → Type 0
  SafeTree (regular_tree size executable) room = Unit
  SafeTree (symlink_tree target) room = Unit
  SafeTree (directory_tree size contents) room = (1 ≤ room) × SafeEntries contents (room - 1)

  pub SafeEntries : FileEntries → ℕ → Type 0
  SafeEntries empty room = Unit
  SafeEntries (entry name child rest) room =
      IsSafeName name × SafeTree child room × SafeEntries rest room

insert_entry-SafeEntries :
    (name : Bytes) (child : FileTree) (es : FileEntries) (room : ℕ)
    → IsSafeName name
    → SafeTree child room
    → SafeEntries es room
    → SafeEntries (insert_entry name child es) room
unfolding insert_entry SafeTree
insert_entry-SafeEntries name child empty room h safe all = (h, safe, tt)
insert_entry-SafeEntries name child (entry other tree rest) room h safe (k, t, all) =
    elim (Bool-cases (bytes_le name other)) [
      | inl le ↦ rw le (h, safe, (k, t, all))
      | inr gt ↦ rw gt (k, t, insert_entry-SafeEntries name child rest room h safe all)
    ]

sort_entries-SafeEntries :
    (es : FileEntries) (room : ℕ) → SafeEntries es room → SafeEntries (sort_entries es) room
unfolding sort_entries SafeTree
sort_entries-SafeEntries empty room h = tt
sort_entries-SafeEntries (entry name child rest) room (h, safe, all) =
    insert_entry-SafeEntries name child (sort_entries rest) room h safe
      (sort_entries-SafeEntries rest room all)

symlink_to-SafeTree :
    (target : Option Bytes) (room : ℕ) (t : FileTree) → symlink_to target ≡ ok t → SafeTree t room
unfolding symlink_to symlink SafeTree
symlink_to-SafeTree none room t h = cc
symlink_to-SafeTree (some target) room t h =
    let e : symlink_tree target ≡ t = cc h in subst (λ u. SafeTree u room) e tt

to_directory-SafeTree :
    (r : Result FileEntries LsError) (room : ℕ) (t : FileTree)
    → 1 ≤ room
    → ((l : FileEntries) → r ≡ ok l → SafeEntries l (room - 1))
    → to_directory r ≡ ok t
    → SafeTree t room
unfolding to_directory directory SafeTree
to_directory-SafeTree (err e) room t pos safe h = cc
to_directory-SafeTree (ok l) room t pos safe h =
    let e : directory l ≡ t = cc h in
    subst (λ u. SafeTree u room) e (pos, sort_entries-SafeEntries l (room - 1) (safe l refl))

regular-SafeTree :
    (size : ℕ) (executable : Bool) (room : ℕ) (t : FileTree)
    → ◌≡◌ {A = Result FileTree LsError} (ok (regular size executable)) (ok t)
    → SafeTree t room
unfolding regular SafeTree
regular-SafeTree size executable room t h =
    let e : regular_tree size executable ≡ t = cc h in subst (λ u. SafeTree u room) e tt

by_kind-SafeTree :
    (kind : Bytes) (size : Option ℕ) (executable : Option Bool) (target : Option Bytes)
    (r : Result FileEntries LsError) (room : ℕ) (t : FileTree)
    → 1 ≤ room
    → ((l : FileEntries) → r ≡ ok l → SafeEntries l (room - 1))
    → by_kind kind size executable target r ≡ ok t
    → SafeTree t room
unfolding by_kind
by_kind-SafeTree kind size executable target r room t pos safe h =
    elim (Bool-cases (bytes_eq kind (codes "regular"))) [
      | inl regular_kind ↦ regular-SafeTree _ _ room t (rw regular_kind at h)
      | inr other ↦ elim (Bool-cases (bytes_eq kind (codes "symlink"))) [
        | inl link ↦ symlink_to-SafeTree target room t (rw (other, link) at h)
        | inr other' ↦ elim (Bool-cases (bytes_eq kind (codes "directory"))) [
          | inl dir ↦ to_directory-SafeTree r room t pos safe (rw (other, other', dir) at h)
          | inr unknown ↦ ground (arith, other, other', unknown)
        ]
      ]
    ]

add_entry-SafeEntries :
    (name : Bytes) (child : Result FileTree LsError) (rest : Result FileEntries LsError) (room : ℕ)
    (l : FileEntries)
    → IsSafeName name
    → ((t : FileTree) → child ≡ ok t → SafeTree t room)
    → ((es : FileEntries) → rest ≡ ok es → SafeEntries es room)
    → add_entry name child rest ≡ ok l
    → SafeEntries l room
unfolding add_entry SafeTree
add_entry-SafeEntries name (err e) rest room l good safe all h = cc
add_entry-SafeEntries name (ok t) (err e) room l good safe all h = cc
add_entry-SafeEntries name (ok t) (ok es) room l good safe all h =
    let e : entry name t es ≡ l = cc h in
    subst (λ u. SafeEntries u room) e (good, safe t refl, all es refl)

err_ne_ok : {A : Type 0} (e : LsError) (a : A) → ¬ (◌≡◌ {A = Result A LsError} (err e) (ok a))
err_ne_ok e a h = cc h

empty_safe :
    (l : FileEntries) (room : ℕ)
    → ◌≡◌ {A = Result FileEntries LsError} (ok empty) (ok l)
    → SafeEntries l room
unfolding SafeTree
empty_safe l room h = let e : empty ≡ l = cc h in subst (λ u. SafeEntries u room) e tt

mutual
  unfolding ls_node_to_tree

  node_safe :
      (n : LsNode) (depth : ℕ) (t : FileTree)
      → ls_node_to_tree n depth ≡ ok t
      → SafeTree t (max_ls_depth + 1 - depth)
  node_safe (ls_node kind size executable target entries) depth t h =
      elim (Bool-cases (ltb max_ls_depth depth)) [
        | inl deep ↦ absurd (err_ne_ok too_deep t (rw deep at h))
        | inr shallow ↦
            by_kind-SafeTree kind size executable target (ls_entries_to_list entries (depth + 1))
              (max_ls_depth + 1 - depth) t (ground arith)
              (λ l e.
                let room : max_ls_depth + 1 - (depth + 1) ≡ max_ls_depth + 1 - depth - 1 =
                  omega arith in
                subst (SafeEntries l) room (entries_safe entries (depth + 1) l e))
              (rw shallow at h)
      ]

  entries_safe :
      (es : LsEntries) (depth : ℕ) (l : FileEntries)
      → ls_entries_to_list es depth ≡ ok l
      → SafeEntries l (max_ls_depth + 1 - depth)
  entries_safe absent depth l h = empty_safe l (max_ls_depth + 1 - depth) h
  entries_safe done depth l h = empty_safe l (max_ls_depth + 1 - depth) h
  entries_safe (item name child rest) depth l h = elim (Bool-cases (bad_name name)) [
    | inl bad ↦ absurd (err_ne_ok (invalid_name name) l (rw bad at h))
    | inr good ↦
        add_entry-SafeEntries name (ls_node_to_tree child depth) (ls_entries_to_list rest depth)
          (max_ls_depth + 1 - depth) l (bad_name-IsSafeName name good) (node_safe child depth)
          (entries_safe rest depth) (rw good at h)
  ]

-- Whatever the document, if a node that is read at depth 0 becomes a tree, then in it no entry's name
-- has a slash or a backslash or is `.` or `..`, and directories nest at most 65 deep. A name may be
-- empty.
pub ls_node_to_tree-SafeTree :
    (n : LsNode) (t : FileTree) → ls_node_to_tree n 0 ≡ ok t → SafeTree t (max_ls_depth + 1)
ls_node_to_tree-SafeTree n t h = node_safe n 0 t h
