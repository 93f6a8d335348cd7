-- ===== src/Index/Command/Tests.antt =====
-- Runs of the command index, with the theorem applied to them.
use nixdex.Prelude.{◌≡◌, refl, arith, Bool, true, false, [], ◌∷◌, ok, ◌>>=◌}
use nixdex.Prelude.Bytes.{Bytes, codes, bytes_eq, bytes_le, starts_with, contains}
use nixdex.Prelude.Split.{rsplit_once}
use nixdex.Prelude.Words.{u32_le}
use nixdex.Prelude.SortedMap.{adjust}
use nixdex.Index.{ordinals_bytes, sort, sort_into, dedup}
use nixdex.Index.Instances.{list_fst}
use nixdex.Index.Basename.{basename_of}
use nixdex.Index.Command.{
  CommandProvider, new, provider_eq, is_child, is_command_candidate, find_id, provider_id,
  record_commands, record_package, provider_entries, write_provider_table, write_id_lists,
  write_sidecars,
}
use nixdex.Index.Command.Reader.{lookup_command}
use nixdex.Index.Command.Build.{Packages, commands_of, provides, is_member, distinct}
use nixdex.Index.Command.Recorded.{record_packages}
use nixdex.Index.Command.Chosen.{providing}
use nixdex.Index.Command.Lookup.{
  AreIndexable, HasFewCommands, HasCappedSizes, AreText, index_packages, stored_index,
  stored_index-lookup_command,
}

abbrev git : CommandProvider
git = record { attr = codes "git"; output = codes "out"; toplevel = true }

abbrev mini : CommandProvider
mini = record { attr = codes "gitMinimal"; output = codes "out"; toplevel = false }

abbrev three_packages : Packages
three_packages =
    (git, codes "/bin/git" ∷ codes "/share/git" ∷ [])
    ∷ (mini, codes "/bin/git" ∷ [])
    ∷ (git, codes "/bin/gitk" ∷ [])
    ∷ []

abbrev any_text : Bytes → Bool
any_text bytes = true

three_packages-AreIndexable : AreIndexable three_packages
unfolding distinct is_member provider_eq bytes_eq
three_packages-AreIndexable =
    ((omega arith, omega arith, (omega arith, omega arith, tt)), omega arith)

three_packages-AreText : AreText any_text (distinct [] three_packages)
unfolding distinct is_member provider_eq bytes_eq
three_packages-AreText = (refl, refl, (refl, refl, tt))

three_packages-HasFewCommands : HasFewCommands (record_packages three_packages new)
unfolding record_packages new record_package provider_id find_id provider_eq record_commands
    is_command_candidate is_child basename_of rsplit_once adjust bytes_eq bytes_le starts_with
    contains
three_packages-HasFewCommands = omega arith

three_packages-HasCappedSizes : HasCappedSizes (index_packages list_fst three_packages)
unfolding index_packages record_packages new record_package provider_id find_id provider_eq
    record_commands is_command_candidate is_child basename_of rsplit_once adjust bytes_eq bytes_le
    starts_with contains write_sidecars write_provider_table provider_entries write_id_lists
    ordinals_bytes sort sort_into dedup u32_le
three_packages-HasCappedSizes = (omega arith, omega arith, omega arith)

stored_index-lookup_command_example :
    (stored_index list_fst three_packages >>= λ index.
    lookup_command list_fst any_text index (codes "git"))
    ≡ ok (git ∷ mini ∷ [])
unfolding providing provides commands_of is_command_candidate is_child basename_of rsplit_once
    distinct is_member provider_eq bytes_eq starts_with contains
stored_index-lookup_command_example =
    stored_index-lookup_command list_fst any_text three_packages three_packages-AreIndexable
      three_packages-HasFewCommands three_packages-HasCappedSizes three_packages-AreText
      (codes "git")
