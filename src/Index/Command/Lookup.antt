-- ===== src/Index/Command/Lookup.antt =====
-- Lookups in an index that was written and opened, crates/nixdex-core/src/command_index.rs.
use mathlib.Core.Path.{subst}
use nixdex.Prelude.{
  ℕ, zero, suc, ◌+◌, ◌≤◌, ◌≡◌, refl, sym, ap, ◌∙◌, arith, Bool, true, some, List, [], ◌∷◌, ◌++◌,
  le→leb, length, get_elem?, Result, ok, err, ◌>>=◌,
}
use nixdex.Prelude.Bytes.{Bytes}
use nixdex.Prelude.SortedMap.{lookup, or_default, IsAscending}
use nixdex.Index.{Error, Fst, has, read_at}
use nixdex.Index.Instances.{list_roaring}
use nixdex.Index.Postings.{header, validate_header-header, IsPackable}
use nixdex.Index.Cookies.{
  chunks, cookies, posting, write_postings-chunks, read_at-cookies, cookies-IsAscending,
  each-ArePackable,
}
use nixdex.Index.Packed.{IsWithin}
use nixdex.Index.Command.{
  CommandProvider, CommandIndexBuilder, Sidecars, postings_magic, side_version, max_fst_bytes,
  max_postings_bytes, max_providers_bytes, max_providers_per_command, max_command_count, new,
  find_id, write_sidecars,
}
use nixdex.Index.Command.Reader.{CommandIndex, open_sidecars, provider_at, lookup_command}
use nixdex.Index.Command.Lists.{
  normalized, write_id_lists-write_postings, normalized-IsAscending, posting-normalized,
}
use nixdex.Index.Command.Build.{Packages, distinct, is_member}
use nixdex.Index.Command.Providers.{IsConsistent}
use nixdex.Index.Command.Recorded.{marked, record_packages, record_packages-Holds}
use nixdex.Index.Command.Table.{
  table_bytes, table_header, length-table_header, write_provider_table-table_bytes,
  parse_provider_ranges-table_bytes,
}
use nixdex.Index.Command.Entries.{AreLabelled, ranges_from, get_range-entries}
use nixdex.Index.Command.Chosen.{
  providing, ids_from, ids_from-IsPackable, normal-ids_from, Has, providers_at-ids_from,
}

-- Packages that the index takes: at most 1,000,000, with labels of at most 64 KiB.
abbrev pub AreIndexable : Packages → Type 0
AreIndexable packages =
    AreLabelled (distinct [] packages) × (length packages ≤ max_providers_per_command)

-- A builder with no more commands than the index takes.
abbrev pub HasFewCommands : Result CommandIndexBuilder Error → Type 0
HasFewCommands (ok b) = length b.commands ≤ max_command_count
HasFewCommands (err e) = Unit

-- The sizes that the reader accepts.
abbrev pub HasCappedSizes : Result Sidecars Error → Type 0
HasCappedSizes (ok files) =
    IsWithin max_fst_bytes files.fst_file
    × IsWithin max_postings_bytes files.postings_file
    × IsWithin max_providers_bytes files.providers_file
HasCappedSizes (err e) = Unit

abbrev pub AreText : (Bytes → Bool) → List CommandProvider → Type 0
AreText is_utf8 [] = Unit
AreText is_utf8 (p ∷ providers) =
    (is_utf8 p.attr ≡ true) × (is_utf8 p.output ≡ true) × AreText is_utf8 providers

AreText-get_elem? :
    (is_utf8 : Bytes → Bool) (providers : List CommandProvider) (i : ℕ) (p : CommandProvider)
    → AreText is_utf8 providers
    → get_elem? providers i ≡ some p
    → (is_utf8 p.attr ≡ true) × (is_utf8 p.output ≡ true)
AreText-get_elem? is_utf8 [] i p h at = cc
AreText-get_elem? is_utf8 (q ∷ providers) zero p (attr, output, rest) at =
    let same : q ≡ p = cc in
    (subst (λ u. is_utf8 u.attr ≡ true) same attr, subst (λ u. is_utf8 u.output ≡ true) same output)
AreText-get_elem? is_utf8 (q ∷ providers) (suc i) p (attr, output, rest) at =
    AreText-get_elem? is_utf8 providers i p rest at

new-IsConsistent : IsConsistent new
unfolding new find_id is_member
new-IsConsistent = ((λ p id h. cc), (λ p h. refl), (λ i j p q h k e. cc), tt)

-- The builder after the packages.
recorded :
    (packages : Packages)
    → length packages ≤ max_providers_per_command
    → (b : CommandIndexBuilder) × (record_packages packages new ≡ ok b)
      × (b.providers ≡ distinct [] packages)
      × (length b.providers ≤ length packages)
      × IsAscending b.commands
      × ((k : ℕ) (command : Bytes)
          → has k (or_default [] (lookup command b.commands))
            ≡ marked command packages (get_elem? b.providers k))
unfolding new lookup
recorded packages few =
    let (b, done, ((found, missing, apart, ascending), before, providers, count, held)) =
      record_packages-Holds packages new new-IsConsistent (omega (arith, few)) in
    (b, done, providers, omega (arith, count), ascending, held)

module _ (f : Fst) where
  unfoldable pub index_packages : Packages → Result Sidecars Error
  index_packages packages = do b ← record_packages packages new; write_sidecars f b

  -- The index of the packages, as a program that starts later opens it.
  unfoldable pub stored_index : Packages → Result (CommandIndex f) Error
  stored_index packages = do files ← index_packages packages; open_sidecars f files

  -- The opened index has the table of the providers, and its lists are their ids.
  abbrev Lists : Packages → CommandIndex f → Type 0
  Lists packages index =
      (index.providers ≡ table_bytes (distinct [] packages))
      × (index.provider_ranges ≡ ranges_from 12 (distinct [] packages))
      × ((command : Bytes)
          → read_at max_providers_per_command index.postings (f.get index.map command)
            ≡ ok (ids_from command packages 0 (distinct [] packages)))

  stored_index-Lists :
      (packages : Packages)
      → AreIndexable packages
      → HasFewCommands (record_packages packages new)
      → HasCappedSizes (index_packages packages)
      → (index : CommandIndex f) × (stored_index packages ≡ ok index) × Lists packages index
  unfolding stored_index index_packages write_sidecars open_sidecars
  stored_index-Lists packages (labelled, few) commands sizes =
      let (b, done, providers, count, ascending, held) = recorded packages few in
      let all = distinct [] packages in
      let head = header postings_magic side_version in
      let m = normalized b.commands in
      let total : length all ≤ length packages =
        subst (λ u. length u ≤ length packages) providers count in
      let few_commands : length b.commands ≤ max_command_count =
        subst HasFewCommands done commands in
      let ids : (command : Bytes)
          → posting list_roaring (lookup command m) ≡ ids_from command packages 0 all =
        λ command.
          posting-normalized command b.commands
          ∙ normal-ids_from command packages (or_default [] (lookup command b.commands)) all
              (λ k. held k command ∙ ap (λ u. marked command packages (get_elem? u k)) providers) in
      let sorted = normalized-IsAscending b.commands ascending in
      let packable = each-ArePackable list_roaring max_providers_per_command m sorted (λ command.
        subst (IsPackable max_providers_per_command) (sym (ids command)) (
          ids_from-IsPackable command packages all max_providers_per_command
            (omega (arith, few, total)) (omega arith))) in
      let (fst_bytes, built, map, opened, streamed, got) =
        f.built (cookies list_roaring (length head) m)
          (cookies-IsAscending list_roaring (length head) m sorted) in
      let files : Sidecars = record {
        fst_file = some fst_bytes;
        postings_file = some (head ++ chunks list_roaring m);
        providers_file = some (table_bytes all);
      } in
      let table = write_provider_table-table_bytes all labelled (omega (arith, few, total)) in
      let written : index_packages packages ≡ ok files =
        rw
          (
            done,
            le→leb _ _ few_commands,
            providers,
            table,
            write_id_lists-write_postings b.commands head,
            write_postings-chunks list_roaring max_providers_per_command (omega arith) m head
                packable,
            built,
          )
          refl in
      let (fst_fits, postings_fits, table_fits) = subst HasCappedSizes written sizes in
      let index : CommandIndex f = record {
        map = map;
        postings = head ++ chunks list_roaring m;
        providers = table_bytes all;
        provider_ranges = ranges_from 12 all;
      } in
      let opens : open_sidecars f files ≡ ok index =
        rw
          (
            le→leb _ _ fst_fits,
            opened,
            le→leb _ _ postings_fits,
            validate_header-header postings_magic side_version (chunks list_roaring m) refl
                (omega arith),
            le→leb _ _ table_fits,
            parse_provider_ranges-table_bytes all labelled (omega (arith, few, total))
                (omega (arith, table_fits)),
          )
          refl in
      (
        index,
        rw (written, opens) refl,
        (
          refl,
          refl,
          λ command. rw (got command) (
              read_at-cookies list_roaring max_providers_per_command (omega arith) m head command
                packable (omega (arith, postings_fits))
              ∙ ap ok (ids command)),
        ),
      )

  module _ (is_utf8 : Bytes → Bool) where
    Lists-Has :
        (packages : Packages) (command : Bytes) (index : CommandIndex f)
        → Lists packages index
        → AreText is_utf8 (distinct [] packages)
        → Has command packages f is_utf8 index 0 (distinct [] packages)
    unfolding provider_at
    Lists-Has packages command index (table, ranges, lists) text i p at =
        let all = distinct [] packages in
        let (a, a', o, o', range, attr, output) =
          get_range-entries all (table_header (length all)) 12 i p
            (sym (length-table_header (length all))) at in
        let (attr_text, output_text) = AreText-get_elem? is_utf8 all i p text at in
        let zero_add : 0 + i ≡ i = omega arith in
        rw (zero_add, table, ranges, range, attr, output, attr_text, output_text) refl

    -- An index that was written for at most 1,000,000 packages, whose attributes and outputs are text of at
    -- most 65536 bytes, with at most 4,000,000 commands and files within the reader's caps, opens; and the
    -- lookup of a command gives the providers that have a candidate path with that last component, each once,
    -- in the order in which they were first recorded.
    pub stored_index-lookup_command :
        (packages : Packages)
        → AreIndexable packages
        → HasFewCommands (record_packages packages new)
        → HasCappedSizes (index_packages packages)
        → AreText is_utf8 (distinct [] packages)
        → (command : Bytes)
        → (stored_index packages >>= λ index. lookup_command f is_utf8 index command)
          ≡ ok (providing command packages (distinct [] packages))
    unfolding lookup_command
    stored_index-lookup_command packages indexable commands sizes text command =
        let (index, opened, (table, ranges, lists)) =
          stored_index-Lists packages indexable commands sizes in
        rw (opened, lists command)
          (providers_at-ids_from command packages f is_utf8 index 0 (distinct [] packages)
            (Lists-Has packages command index (table, ranges, lists) text))
