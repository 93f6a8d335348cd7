-- ===== src/Index/Trigram/Tests.antt =====
-- Runs of the trigram index, with the theorems applied to them.
use nixdex.Prelude.{◌≡◌, refl, arith, true, some, List, [], ◌∷◌, ok}
use nixdex.Prelude.Bytes.{Bytes, codes, bytes_eq, bytes_le}
use nixdex.Prelude.Words.{u32_le}
use nixdex.Prelude.SortedMap.{adjust}
use nixdex.Index.{
  insert_key, insert_ordinal, write_index, write_postings, ordinals_bytes, sort, sort_into, dedup,
}
use nixdex.Index.Recorded.{record_keys}
use nixdex.Index.Instances.{list_fst, list_roaring}
use nixdex.Index.Trigram.{trigrams, record_path, write_sidecars}
use nixdex.Index.Trigram.Common.{common_from}
use nixdex.Index.Trigram.Lookup.{
  record_all, index_paths, candidates, HasCappedSizes, is_candidate, candidates-of_trigrams,
  candidates-is_candidate,
}

abbrev three_paths : List Bytes
three_paths = codes "/cats" ∷ codes "/c" ∷ codes "/scat" ∷ []

three_paths-HasCappedSizes : HasCappedSizes (index_paths list_fst list_roaring three_paths)
unfolding index_paths record_all record_path record_keys trigrams insert_key adjust bytes_eq
    bytes_le insert_ordinal write_sidecars write_index write_postings ordinals_bytes sort sort_into
    dedup u32_le
three_paths-HasCappedSizes = (omega arith, omega arith)

candidates-of_trigrams_example :
    candidates list_fst list_roaring three_paths (codes "cat") ≡ ok (some (0 ∷ 2 ∷ []))
unfolding common_from trigrams bytes_eq
candidates-of_trigrams_example =
    candidates-of_trigrams list_fst list_roaring three_paths (omega arith)
      three_paths-HasCappedSizes (codes "cat")

candidates-is_candidate_example :
    is_candidate 2 (candidates list_fst list_roaring three_paths (codes "scat")) ≡ true
candidates-is_candidate_example =
    candidates-is_candidate list_fst list_roaring three_paths (omega arith)
      three_paths-HasCappedSizes 2 (codes "/") (codes "scat") [] refl
