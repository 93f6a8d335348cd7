-- ===== src/Files/Directory.antt =====
-- The constructor `FileTree::directory`, crates/nixdex-core/src/files.rs.
use mathlib.Core.List.{Perm}
use mathlib.Core.List.Perm
use nixdex.Prelude.{
  suc, ◌<◌, ◌^◌, ◌≡◌, refl, ap, ◌∙◌, true, List, [], ◌∷◌, arith, Bool-cases, inl, inr,
}
use nixdex.Prelude.Bytes.{Bytes, bytes_le, bytes_le_total, bytes_le_trans}
use nixdex.Files.{FileNode}
use nixdex.Files.Tree.{
  FileTree, FileEntries, empty, entry, root, insert_entry, sort_entries, count_entries, directory,
}

abbrev pub to_pairs : FileEntries → List (Bytes × FileTree)
to_pairs empty = []
to_pairs (entry name child rest) = (name, child) ∷ to_pairs rest

-- Every name is at most all later names.
abbrev pub AllFrom : Bytes → FileEntries → Type 0
AllFrom name empty = Unit
AllFrom name (entry other child rest) = (bytes_le name other ≡ true) × AllFrom name rest

abbrev pub AreSorted : FileEntries → Type 0
AreSorted empty = Unit
AreSorted (entry name child rest) = AllFrom name rest × AreSorted rest

AllFrom-trans : (a b : Bytes) (es : FileEntries) → bytes_le a b ≡ true → AllFrom b es → AllFrom a es
AllFrom-trans a b empty h k = tt
AllFrom-trans a b (entry name child rest) h (k, ks) =
    (bytes_le_trans a b name h k, AllFrom-trans a b rest h ks)

AllFrom-insert_entry :
    (a name : Bytes) (child : FileTree) (es : FileEntries)
    → bytes_le a name ≡ true
    → AllFrom a es
    → AllFrom a (insert_entry name child es)
unfolding insert_entry
AllFrom-insert_entry a name child empty h k = (h, tt)
AllFrom-insert_entry a name child (entry other tree rest) h (k, ks) =
    elim (Bool-cases (bytes_le name other)) [
      | inl le ↦ rw le (h, (k, ks))
      | inr gt ↦ rw gt (k, AllFrom-insert_entry a name child rest h ks)
    ]

insert_entry-AreSorted :
    (name : Bytes) (child : FileTree) (es : FileEntries)
    → AreSorted es
    → AreSorted (insert_entry name child es)
unfolding insert_entry
insert_entry-AreSorted name child empty h = (tt, tt)
insert_entry-AreSorted name child (entry other tree rest) (h, hs) =
    elim (Bool-cases (bytes_le name other)) [
      | inl le ↦ rw le ((le, AllFrom-trans name other rest le h), (h, hs))
      | inr gt ↦ rw gt (
        AllFrom-insert_entry other name child rest (bytes_le_total name other gt) h,
        insert_entry-AreSorted name child rest hs,
      )
    ]

sort_entries-AreSorted : (es : FileEntries) → AreSorted (sort_entries es)
unfolding sort_entries
sort_entries-AreSorted empty = tt
sort_entries-AreSorted (entry name child rest) =
    insert_entry-AreSorted name child (sort_entries rest) (sort_entries-AreSorted rest)

insert_entry-Perm :
    (name : Bytes) (child : FileTree) (es : FileEntries)
    → Perm (to_pairs (insert_entry name child es)) ((name, child) ∷ to_pairs es)
unfolding insert_entry
insert_entry-Perm name child empty = Perm.refl _
insert_entry-Perm name child (entry other tree rest) = elim (Bool-cases (bytes_le name other)) [
  | inl le ↦ rw le (Perm.refl _)
  | inr gt ↦ rw gt (Perm.trans (Perm.cons _ (insert_entry-Perm name child rest)) (Perm.swap _ _ _))
]

sort_entries-Perm : (es : FileEntries) → Perm (to_pairs (sort_entries es)) (to_pairs es)
unfolding sort_entries
sort_entries-Perm empty = Perm.refl _
sort_entries-Perm (entry name child rest) =
    Perm.trans (insert_entry-Perm name child (sort_entries rest))
      (Perm.cons _ (sort_entries-Perm rest))

count_entries-insert_entry :
    (name : Bytes) (child : FileTree) (es : FileEntries)
    → count_entries (insert_entry name child es) ≡ suc (count_entries es)
unfolding insert_entry count_entries
count_entries-insert_entry name child empty = refl
count_entries-insert_entry name child (entry other tree rest) =
    ground (arith, count_entries-insert_entry name child rest)

count_entries-sort_entries : (es : FileEntries) → count_entries (sort_entries es) ≡ count_entries es
unfolding sort_entries count_entries
count_entries-sort_entries empty = refl
count_entries-sort_entries (entry name child rest) =
    count_entries-insert_entry name child (sort_entries rest)
    ∙ ap suc (count_entries-sort_entries rest)

-- `directory` makes a directory node whose entries are those given, each as often, in the order of
-- their names; its size is their number, if that is below 2^64.
pub directory-AreSorted :
    (es : FileEntries)
    → count_entries es < 2 ^ 64
    → (sorted : FileEntries) × (root (directory es) ≡ FileNode.directory (count_entries es) sorted)
      × AreSorted sorted
      × Perm (to_pairs sorted) (to_pairs es)
unfolding directory root
directory-AreSorted es small = (
  sort_entries es,
  ground (arith, count_entries-sort_entries es),
  sort_entries-AreSorted es,
  sort_entries-Perm es,
)
