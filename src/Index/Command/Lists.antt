-- ===== src/Index/Command/Lists.antt =====
-- The postings of crates/nixdex-core/src/command_index.rs are those of the other indexes, for the sets
-- that the lists of ids stand for.
use nixdex.Prelude.{ℕ, ◌≡◌, refl, sym, List, [], ◌∷◌, ◌++◌, bind_cong, Bool-cases, inl, inr}
use nixdex.Prelude.Bytes.{Bytes, bytes_eq}
use nixdex.Prelude.SortedMap.{SortedMap, IsAscending, AreAbove, lookup, or_default}
use nixdex.Index.{sort, dedup, ordinals_bytes, write_postings}
use nixdex.Index.Postings.{sort-strict, dedup-strict}
use nixdex.Index.Cookies.{posting}
use nixdex.Index.Instances.{list_roaring}
use nixdex.Index.Command.{write_id_lists}
use nixdex.Index.Command.Sorted.{normal, normal-AreStrict}

abbrev pub normalized : SortedMap (List ℕ) → SortedMap (List ℕ)
normalized [] = []
normalized ((key, ids) ∷ m) = (key, normal ids) ∷ normalized m

ordinals_bytes-normal : (ids : List ℕ) → ordinals_bytes ids ≡ ordinals_bytes (normal ids)
unfolding ordinals_bytes
ordinals_bytes-normal ids =
    let strict = normal-AreStrict ids in
    rw (sort-strict (normal ids) strict, dedup-strict (normal ids) strict) refl

pub write_id_lists-write_postings :
    (m : SortedMap (List ℕ)) (raw : Bytes)
    → write_id_lists m raw ≡ write_postings list_roaring (normalized m) raw
unfolding write_id_lists write_postings
write_id_lists-write_postings [] raw = refl
write_id_lists-write_postings ((key, ids) ∷ m) raw = rw (sym (ordinals_bytes-normal ids)) (
    bind_cong (ordinals_bytes ids)
      (λ packed. rw (write_id_lists-write_postings m (raw ++ packed)) refl))

normalized-AreAbove :
    (key : Bytes) (m : SortedMap (List ℕ)) → AreAbove key m → AreAbove key (normalized m)
normalized-AreAbove key [] h = tt
normalized-AreAbove key ((k, ids) ∷ m) (first, rest) = (first, normalized-AreAbove key m rest)

pub normalized-IsAscending : (m : SortedMap (List ℕ)) → IsAscending m → IsAscending (normalized m)
normalized-IsAscending [] h = tt
normalized-IsAscending ((k, ids) ∷ m) (first, rest) =
    (normalized-AreAbove k m first, normalized-IsAscending m rest)

pub posting-normalized :
    (key : Bytes) (m : SortedMap (List ℕ))
    → posting list_roaring (lookup key (normalized m)) ≡ normal (or_default [] (lookup key m))
unfolding lookup sort dedup
posting-normalized key [] = refl
posting-normalized key ((k, ids) ∷ m) = elim (Bool-cases (bytes_eq k key)) [
  | inl e ↦ rw e refl
  | inr e ↦ rw e (posting-normalized key m)
]
