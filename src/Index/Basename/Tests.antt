-- ===== src/Index/Basename/Tests.antt =====
-- Runs of the basename index, with the theorems applied to them.
use nixdex.Prelude.{◌≡◌, refl, arith, Bool, true, [], ◌∷◌, ok, ◌>>=◌}
use nixdex.Prelude.Bytes.{Bytes, codes, bytes_eq, bytes_le, starts_with}
use nixdex.Prelude.Split.{rsplit_once}
use nixdex.Prelude.Words.{u32_le}
use nixdex.Prelude.SortedMap.{adjust}
use nixdex.Index.{
  insert_key, insert_ordinal, write_postings, ordinals_bytes, sort, sort_into, dedup,
}
use nixdex.Index.Recorded.{ordinals_from}
use nixdex.Index.Prefix.{prefix_ordinals_from}
use nixdex.Index.Instances.{list_fst, list_roaring}
use nixdex.Index.Basename.{
  new, record_package, record_paths, record_path, basename_of, write_sidecars, write_package_names,
  name_entries, lookup_basename, lookup_basename_prefix_ordinals, lookup_basename_ordinals,
}
use nixdex.Index.Basename.Build.{basenames_of, Packages, record_packages}
use nixdex.Index.Basename.Lookup.{
  index_packages, stored_index, AreIndexable, stored_index-lookup_basename_ordinals, HasCappedSizes,
}
use nixdex.Index.Basename.Labels.{
  stored_index-lookup_basename_prefix_ordinals, labels_with, stored_index-lookup_basename,
}

abbrev two_packages : Packages
two_packages =
    (codes "coreutils.out", codes "/bin/ls" ∷ codes "/bin/cat" ∷ [])
    ∷ (codes "busybox.out", codes "/bin/ls" ∷ codes "/share/" ∷ [])
    ∷ []

abbrev any_text : Bytes → Bool
any_text bytes = true

two_packages-AreIndexable : AreIndexable two_packages
two_packages-AreIndexable =
    ((omega arith, omega arith, (omega arith, omega arith, tt)), omega arith)

two_packages-HasCappedSizes : HasCappedSizes (index_packages list_fst list_roaring two_packages)
unfolding index_packages new record_packages record_package record_paths record_path basename_of
    rsplit_once insert_key adjust bytes_eq bytes_le insert_ordinal write_sidecars
    write_package_names name_entries write_postings ordinals_bytes sort sort_into dedup u32_le
two_packages-HasCappedSizes = (omega arith, omega arith, omega arith)

stored_index-lookup_basename_ordinals_example :
    (stored_index list_fst list_roaring two_packages >>= λ index.
    lookup_basename_ordinals list_fst index (codes "ls"))
    ≡ ok (0 ∷ 1 ∷ [])
unfolding ordinals_from basenames_of basename_of rsplit_once bytes_eq
stored_index-lookup_basename_ordinals_example =
    stored_index-lookup_basename_ordinals list_fst list_roaring two_packages
      two_packages-AreIndexable two_packages-HasCappedSizes (codes "ls")

stored_index-lookup_basename_example :
    (stored_index list_fst list_roaring two_packages >>= λ index.
    lookup_basename list_fst any_text index (codes "cat"))
    ≡ ok (codes "coreutils.out" ∷ [])
unfolding labels_with basenames_of basename_of rsplit_once bytes_eq
stored_index-lookup_basename_example =
    stored_index-lookup_basename list_fst list_roaring any_text two_packages
      two_packages-AreIndexable two_packages-HasCappedSizes (refl, (refl, tt)) (codes "cat")

stored_index-lookup_basename_prefix_ordinals_example :
    (stored_index list_fst list_roaring two_packages >>= λ index.
    lookup_basename_prefix_ordinals list_fst any_text list_roaring index (codes "c"))
    ≡ ok (0 ∷ [])
unfolding prefix_ordinals_from basenames_of basename_of rsplit_once starts_with
stored_index-lookup_basename_prefix_ordinals_example =
    stored_index-lookup_basename_prefix_ordinals list_fst list_roaring any_text two_packages
      two_packages-AreIndexable two_packages-HasCappedSizes (codes "c")
