-- ===== src/Index/Path/Tests.antt =====
-- Runs of the path index, with the theorems applied to them.
use nixdex.Prelude.{◌≡◌, arith, List, [], ◌∷◌, ok, ◌>>=◌}
use nixdex.Prelude.Bytes.{Bytes, codes, bytes_eq, bytes_le, starts_with}
use nixdex.Prelude.Words.{u32_le}
use nixdex.Prelude.SortedMap.{adjust}
use nixdex.Index.{
  insert_key, insert_ordinal, write_index, write_postings, ordinals_bytes, sort, sort_into, dedup,
}
use nixdex.Index.Recorded.{ordinals_from}
use nixdex.Index.Prefix.{prefix_ordinals_from}
use nixdex.Index.Instances.{list_fst, list_roaring}
use nixdex.Index.Path.{record_package, write_sidecars, lookup_path_ordinals, lookup_prefix_ordinals}
use nixdex.Index.Path.Lookup.{
  paths_of, record_packages, index_packages, stored_index, HasCappedSizes,
  stored_index-lookup_path_ordinals, stored_index-lookup_prefix_ordinals,
}

abbrev three_packages : List (List Bytes)
three_packages =
    (codes "/bin/ls" ∷ codes "/bin/cat" ∷ [])
    ∷ (codes "/lib/c.so" ∷ [] ∷ [])
    ∷ (codes "/bin/ls" ∷ [])
    ∷ []

three_packages-HasCappedSizes : HasCappedSizes (index_packages list_fst list_roaring three_packages)
unfolding index_packages record_packages record_package insert_key adjust bytes_eq bytes_le
    insert_ordinal write_sidecars write_index write_postings ordinals_bytes sort sort_into dedup
    u32_le
three_packages-HasCappedSizes = (omega arith, omega arith)

stored_index-lookup_path_ordinals_example :
    (stored_index list_fst list_roaring three_packages >>= λ index.
    lookup_path_ordinals list_fst index (codes "/bin/ls"))
    ≡ ok (0 ∷ 2 ∷ [])
unfolding ordinals_from paths_of bytes_eq
stored_index-lookup_path_ordinals_example =
    stored_index-lookup_path_ordinals list_fst list_roaring three_packages (omega arith)
      three_packages-HasCappedSizes (codes "/bin/ls")

stored_index-lookup_prefix_ordinals_example :
    (stored_index list_fst list_roaring three_packages >>= λ index.
    lookup_prefix_ordinals list_fst list_roaring index (codes "/lib/"))
    ≡ ok (1 ∷ [])
unfolding prefix_ordinals_from paths_of starts_with
stored_index-lookup_prefix_ordinals_example =
    stored_index-lookup_prefix_ordinals list_fst list_roaring three_packages (omega arith)
      three_packages-HasCappedSizes (codes "/lib/")
