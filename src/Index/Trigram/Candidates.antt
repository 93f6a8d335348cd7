-- ===== src/Index/Trigram/Candidates.antt =====
-- The intersection of the trigrams' sets, crates/nixdex-core/src/path_trigram_index.rs.
use mathlib.Core.Path.{subst}
use nixdex.Prelude.{
  ℕ, ◌<◌, ◌≡◌, refl, sym, ap, ◌∙◌, arith, Bool, true, false, List, [], ◌∷◌, leb, if◌then◌else◌,
  if_elim, length,
}
use nixdex.Prelude.Bytes.{Bytes, bytes_eq→eq}
use nixdex.Index.{Roaring, has}
use nixdex.Index.Postings.{AreStrict}
use nixdex.Index.Recorded.{has_key, ordinals_from}
use nixdex.Index.Trigram.{insert_by_len, sort_by_len, intersect_all, smallest_first}
use nixdex.Index.Trigram.Common.{in_all, has-common, common-AreStrict}

module _ (r : Roaring) where
  abbrev pub all_have : ℕ → List (r.Bitmap) → Bool
  all_have k [] = true
  all_have k (s ∷ ss) = if has k (r.iter s) then all_have k ss else false

  abbrev pub AreSets : List (r.Bitmap) → Type 0
  AreSets [] = Unit
  AreSets (s ∷ ss) = AreStrict (r.iter s) × AreSets ss

  all_have-insert_by_len :
      (k : ℕ) (s : r.Bitmap) (ss : List (r.Bitmap))
      → all_have k (insert_by_len r s ss) ≡ all_have k (s ∷ ss)
  unfolding insert_by_len
  all_have-insert_by_len k s [] = refl
  all_have-insert_by_len k s (t ∷ ts) = ground (arith, all_have-insert_by_len k s ts)

  pub all_have-sort_by_len :
      (k : ℕ) (ss : List (r.Bitmap)) → all_have k (sort_by_len r ss) ≡ all_have k ss
  unfolding sort_by_len
  all_have-sort_by_len k [] = refl
  all_have-sort_by_len k (s ∷ ss) =
      ground (arith, all_have-insert_by_len k s (sort_by_len r ss), all_have-sort_by_len k ss)

  insert_by_len-AreSets :
      (s : r.Bitmap) (ss : List (r.Bitmap))
      → AreStrict (r.iter s)
      → AreSets ss
      → AreSets (insert_by_len r s ss)
  unfolding insert_by_len
  insert_by_len-AreSets s [] h hs = (h, tt)
  insert_by_len-AreSets s (t ∷ ts) h (ht, hs) =
      if_elim AreSets (leb (r.len s) (r.len t)) (λ e. (h, (ht, hs)))
        (λ e. (ht, insert_by_len-AreSets s ts h hs))

  pub sort_by_len-AreSets : (ss : List (r.Bitmap)) → AreSets ss → AreSets (sort_by_len r ss)
  unfolding sort_by_len
  sort_by_len-AreSets [] hs = tt
  sort_by_len-AreSets (s ∷ ss) (h, hs) =
      insert_by_len-AreSets s (sort_by_len r ss) h (sort_by_len-AreSets ss hs)

  has-intersect_all :
      (k : ℕ) (acc : r.Bitmap) (ss : List (r.Bitmap))
      → has k (r.iter (intersect_all r acc ss))
        ≡ (if has k (r.iter acc) then all_have k ss else false)
  unfolding intersect_all
  has-intersect_all k acc [] = ground arith
  has-intersect_all k acc (s ∷ ss) =
      let both = ap (has k) (r.iter-intersect acc s) ∙ has-common k (r.iter acc) (r.iter s) in
      ground (arith, has-intersect_all k (r.intersect acc s) ss, both)

  intersect_all-AreStrict :
      (acc : r.Bitmap) (ss : List (r.Bitmap))
      → AreStrict (r.iter acc)
      → AreStrict (r.iter (intersect_all r acc ss))
  unfolding intersect_all
  intersect_all-AreStrict acc [] h = h
  intersect_all-AreStrict acc (s ∷ ss) h =
      intersect_all-AreStrict (r.intersect acc s) ss (
        subst AreStrict (sym (r.iter-intersect acc s)) (common-AreStrict (r.iter acc) (r.iter s) h))

  -- A list that is not empty.
  abbrev pub IsFilled : List (r.Bitmap) → Type 0
  IsFilled ss = 0 < length ss

  pub insert_by_len-IsFilled :
      (s : r.Bitmap) (ss : List (r.Bitmap)) → IsFilled (insert_by_len r s ss)
  unfolding insert_by_len
  insert_by_len-IsFilled s [] = omega arith
  insert_by_len-IsFilled s (t ∷ ts) =
      if_elim IsFilled (leb (r.len s) (r.len t)) (λ e. omega arith) (λ e. omega arith)

  pub has-smallest_first :
      (k : ℕ) (ss : List (r.Bitmap))
      → IsFilled ss
      → has k (r.iter (smallest_first r ss)) ≡ all_have k ss
  has-smallest_first k [] h = absurd (omega (arith, h))
  has-smallest_first k (s ∷ ss) h = has-intersect_all k s ss

  pub smallest_first-AreStrict :
      (ss : List (r.Bitmap)) → AreSets ss → AreStrict (r.iter (smallest_first r ss))
  smallest_first-AreStrict [] h = subst AreStrict (sym r.iter-empty) tt
  smallest_first-AreStrict (s ∷ ss) (h, hs) = intersect_all-AreStrict s ss h

-- The trigrams that are looked up.
abbrev pub unique : List Bytes → List Bytes → List Bytes
unique seen [] = []
unique seen (key ∷ keys) =
    if has_key key seen then unique seen keys else key ∷ unique (key ∷ seen) keys

in_all-has_key :
    (k : ℕ) (key : Bytes) (keys : List Bytes) (items : List (List Bytes))
    → in_all k keys items ≡ true
    → has_key key keys ≡ true
    → has k (ordinals_from 0 key items) ≡ true
in_all-has_key k key [] items all h = cc
in_all-has_key k key (first ∷ keys) items all h =
    ground (arith, all, h, in_all-has_key k key keys items, bytes_eq→eq first key)

pub in_all-unique :
    (k : ℕ) (seen keys : List Bytes) (items : List (List Bytes))
    → in_all k seen items ≡ true
    → in_all k (unique seen keys) items ≡ in_all k keys items
in_all-unique k seen [] items h = refl
in_all-unique k seen (key ∷ keys) items h = ground (
  arith,
  h,
  in_all-has_key k key seen items h,
  in_all-unique k seen keys items h,
  in_all-unique k (key ∷ seen) keys items,
)
