-- ===== src/Index/Ngram/Tests.antt =====
-- Runs of the n-gram index, with the theorems applied to them.
use nixdex.Prelude.{◌≡◌, refl, arith, true, some, List, [], ◌∷◌, ok}
use nixdex.Prelude.Bytes.{Bytes, codes, bytes_eq, bytes_le}
use nixdex.Prelude.Words.{u32_le}
use nixdex.Prelude.SortedMap.{adjust}
use nixdex.Index.{insert_key, insert_ordinal}
use nixdex.Index.Recorded.{record_keys}
use nixdex.Index.Instances.{list_fst, list_roaring}
use nixdex.Index.Trigram.{trigrams}
use nixdex.Index.Trigram.Common.{common_from}
use nixdex.Index.Trigram.Lookup.{is_candidate}
use nixdex.Index.Ngram.{record_package, write_sidecars, write_bitmaps}
use nixdex.Index.Ngram.Postings.{AreSerializable}
use nixdex.Index.Ngram.Lookup.{
  windows, record_packages, index_packages, candidates, HasCappedSizes, candidates-of_windows,
  package-is_candidate,
}

abbrev three_packages : List (List Bytes)
three_packages =
    (codes "/cats" ∷ codes "/c" ∷ [])
    ∷ (codes "/dog" ∷ [])
    ∷ (codes "/at" ∷ codes "/scat" ∷ [])
    ∷ []

three_packages-AreSerializable :
    AreSerializable list_roaring (record_packages list_roaring 0 three_packages [])
unfolding record_packages record_package record_keys trigrams insert_key adjust bytes_eq bytes_le
    insert_ordinal
three_packages-AreSerializable = (
  omega arith,
  (
    omega arith,
    (omega arith, (omega arith, (omega arith, (omega arith, (omega arith, (omega arith, tt)))))),
  ),
)

three_packages-HasCappedSizes : HasCappedSizes (index_packages list_fst list_roaring three_packages)
unfolding index_packages record_packages record_package record_keys trigrams insert_key adjust
    bytes_eq bytes_le insert_ordinal write_sidecars write_bitmaps u32_le
three_packages-HasCappedSizes = (omega arith, omega arith)

candidates-of_windows_example :
    candidates list_fst list_roaring three_packages (codes "cat") ≡ ok (some (0 ∷ 2 ∷ []))
unfolding common_from trigrams windows bytes_eq
candidates-of_windows_example =
    candidates-of_windows list_fst list_roaring three_packages three_packages-AreSerializable
      three_packages-HasCappedSizes (codes "cat")

package-is_candidate_example :
    is_candidate 2 (candidates list_fst list_roaring three_packages (codes "scat")) ≡ true
package-is_candidate_example =
    package-is_candidate list_fst list_roaring three_packages three_packages-AreSerializable
      three_packages-HasCappedSizes 2 1 (codes "/at" ∷ codes "/scat" ∷ []) (codes "/")
      (codes "scat") [] refl refl
