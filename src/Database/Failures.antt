-- ===== src/Database/Failures.antt =====
-- What a package that could not be added leaves behind, crates/nixdex-core/src/database.rs.
use nixdex.Prelude.{ℕ, ◌≡◌, refl, List, [], ◌∷◌, Option, none, some, Result, ok, err}
use nixdex.Prelude.Bytes.{Bytes}
use nixdex.Frcode
use nixdex.Redb
use nixdex.StorePath.{StorePath}
use nixdex.Files.{FileTreeEntry}
use mathlib.Core.Path.{subst}
use nixdex.Prelude.{sym}
use nixdex.Files.Tree.{FileTree}
use nixdex.Files.Flatten.{below, list_tree}
use nixdex.Database.Listing.{add_excluding-add_entries}
use nixdex.Index
use nixdex.Index.{Roaring}
use nixdex.Index.Basename
use nixdex.Index.Command
use nixdex.Index.Basename.{BasenameIndexBuilder}
use nixdex.Index.Command.{CommandIndexBuilder}
use nixdex.Database.{
  Error, Writer, kept, encode_package, store_package, encode_entries, add_entries, add_excluding,
  then_next, after_basenames, after_commands, after_redb, try_redb, index_basenames, index_commands,
  index_paths, index_redb, provider_of, entry_paths, package_label,
}

module _ (r : Roaring) (RedbWriter : Type 0)
    (redb_add : StorePath
      → List FileTreeEntry
      → RedbWriter
      → RedbWriter × Result (Unit {0}) Redb.Error) where
  -- The listing, its boundaries and its attributes are those of `w`.
  abbrev pub SameListing : Writer r RedbWriter → Writer r RedbWriter → Type 0
  SameListing w w' = (w'.raw ≡ w.raw) × (w'.boundaries ≡ w.boundaries) × (w'.attrs ≡ w.attrs)

  -- A failure leaves the listing.
  abbrev Keeps : {A : Type 0} → Writer r RedbWriter → Writer r RedbWriter × Result A Error → Type 0
  Keeps w (w', err e) = SameListing w w'
  Keeps w (w', ok a) = Unit

  Keeps-then_next :
      {A B : Type 0} (w : Writer r RedbWriter) (first : Writer r RedbWriter × Result A Error)
      (next : A → Writer r RedbWriter → Writer r RedbWriter × Result B Error)
      → SameListing w first.0
      → ((a : A) (w' : Writer r RedbWriter) → SameListing w w' → Keeps w (next a w'))
      → Keeps w (then_next r RedbWriter redb_add first next)
  Keeps-then_next w (w', err e) next same later = same
  Keeps-then_next w (w', ok a) next same later = later a w' same

  basenames_same :
      (w w' : Writer r RedbWriter) (o : BasenameIndexBuilder r × Result ℕ Index.Error)
      → SameListing w w'
      → SameListing w (after_basenames r RedbWriter redb_add w' o).0
  basenames_same w w' (b, err e) same = same
  basenames_same w w' (b, ok n) same = same

  commands_same :
      (w w' : Writer r RedbWriter) (o : CommandIndexBuilder × Result ℕ Index.Error)
      → SameListing w w'
      → SameListing w (after_commands r RedbWriter redb_add w' o).0
  commands_same w w' (b, err e) same = same
  commands_same w w' (b, ok n) same = same

  redb_same :
      (w w' : Writer r RedbWriter) (o : RedbWriter × Result (Unit {0}) Redb.Error)
      → SameListing w w'
      → SameListing w (after_redb r RedbWriter redb_add w' o).0
  redb_same w w' (redb, err e) same = same
  redb_same w w' (redb, ok u) same = same

  try_redb_same :
      (path : StorePath) (entries : List FileTreeEntry) (w w' : Writer r RedbWriter)
      (redb : Option RedbWriter)
      → SameListing w w'
      → SameListing w (try_redb r RedbWriter redb_add path entries w' redb).0
  try_redb_same path entries w w' none same = same
  try_redb_same path entries w w' (some redb) same =
      redb_same w w' (redb_add path entries redb) same

  encode_entries-Keeps :
      (path : StorePath) (entries : List FileTreeEntry) (json : Result Bytes Error)
      (w w' : Writer r RedbWriter)
      → SameListing w w'
      → Keeps w (encode_entries r RedbWriter redb_add path entries json w')
  unfolding encode_entries
  encode_entries-Keeps path entries (err e) w w' same = same
  encode_entries-Keeps path entries (ok json) w w' same = stored (encode_package entries json)
    where
      stored :
          (block : Result Bytes Frcode.Error)
          → Keeps w (store_package r RedbWriter redb_add path block w')
      stored (err e) = same
      stored (ok bytes) = tt

  -- The steps of `add_entries`, the last first.
  module _ (path : StorePath) (entries : List FileTreeEntry) (json : Result Bytes Error)
      (w : Writer r RedbWriter) where
    abbrev from_redb : Writer r RedbWriter → Writer r RedbWriter × Result (Unit {0}) Error
    from_redb w2 =
        then_next r RedbWriter redb_add (index_redb r RedbWriter redb_add path entries w2)
          (λ v w3. encode_entries r RedbWriter redb_add path entries json w3)

    abbrev from_commands : ℕ → Writer r RedbWriter → Writer r RedbWriter × Result (Unit {0}) Error
    from_commands ordinal w1 =
        then_next r RedbWriter redb_add (index_commands r RedbWriter redb_add path entries w1)
          (λ u w2. from_redb (index_paths r RedbWriter redb_add ordinal entries w2))

    from_redb-Keeps : (w2 : Writer r RedbWriter) → SameListing w w2 → Keeps w (from_redb w2)
    unfolding index_redb
    from_redb-Keeps w2 same =
        Keeps-then_next w (index_redb r RedbWriter redb_add path entries w2)
          (λ v w3. encode_entries r RedbWriter redb_add path entries json w3)
          (try_redb_same path entries w w2 w2.redb same)
          (λ v w3 same3. encode_entries-Keeps path entries json w w3 same3)

    from_commands-Keeps :
        (ordinal : ℕ) (w1 : Writer r RedbWriter)
        → SameListing w w1
        → Keeps w (from_commands ordinal w1)
    unfolding index_commands index_paths
    from_commands-Keeps ordinal w1 same =
        Keeps-then_next w (index_commands r RedbWriter redb_add path entries w1)
          (λ u w2. from_redb (index_paths r RedbWriter redb_add ordinal entries w2))
          (commands_same w w1
            (Index.Command.record_package (provider_of path) (entry_paths entries) w1.command_index)
            same)
          (λ u w2 same2.
            from_redb-Keeps (index_paths r RedbWriter redb_add ordinal entries w2) same2)

    first-Keeps : Keeps w (
        then_next r RedbWriter redb_add
          (index_basenames r RedbWriter redb_add path entries w)
          from_commands)
    unfolding index_basenames
    first-Keeps =
        Keeps-then_next w (index_basenames r RedbWriter redb_add path entries w) from_commands
          (basenames_same w w
            (Index.Basename.record_package r (package_label path) (entry_paths entries)
              w.basename_index)
            (refl, refl, refl))
          from_commands-Keeps

  add_entries-Keeps :
      (path : StorePath) (entries : List FileTreeEntry) (json : Result Bytes Error)
      (w : Writer r RedbWriter)
      → Keeps w (add_entries r RedbWriter redb_add path entries json w)
  unfolding add_entries
  add_entries-Keeps path [] json w = tt
  add_entries-Keeps path (entry ∷ entries) json w = first-Keeps path (entry ∷ entries) json w

  Keeps-err :
      (w : Writer r RedbWriter) (o : Writer r RedbWriter × Result (Unit {0}) Error) (e : Error)
      → Keeps w o
      → o.1 ≡ err e
      → SameListing w o.0
  Keeps-err w (w', err x) e k h = k
  Keeps-err w (w', ok u) e k h = cc h

  -- If a package cannot be added, for whatever reason, then the listing, its boundaries and its
  -- attributes are as before. The builders of the indexes need not be.
  pub add_excluding-err :
      (path : StorePath) (files : FileTree) (filter_prefix : Bytes) (exclude_prefixes : List Bytes)
      (json : Result Bytes Error) (w : Writer r RedbWriter) (e : Error)
      → (add_excluding r RedbWriter redb_add path files filter_prefix exclude_prefixes json w).1
        ≡ err e
      → SameListing w
          (add_excluding r RedbWriter redb_add path files filter_prefix exclude_prefixes json w).0
  add_excluding-err path files filter_prefix exclude_prefixes json w e h =
      let listed = kept exclude_prefixes (below filter_prefix (list_tree [] files)) in
      Keeps-err w
        (add_excluding r RedbWriter redb_add path files filter_prefix exclude_prefixes json w) e
        (subst (Keeps w)
          (sym (
            add_excluding-add_entries r RedbWriter redb_add path files filter_prefix
              exclude_prefixes json w))
          (add_entries-Keeps path listed json w))
        h
