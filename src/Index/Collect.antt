-- ===== src/Index/Collect.antt =====
-- The loops of crates/nixdex-core/src/basename_index.rs and path_index.rs over the entries of a map.
use mathlib.Core.List.{append_assoc}
use mathlib.Core.Path.{subst}
use nixdex.Prelude.{
  ℕ, ◌+◌, ◌^◌, ◌<◌, ◌≡◌, refl, sym, ap, ◌∙◌, arith, false, List, [], ◌∷◌, ◌++◌, length,
  length-append, ok, ◌>>=◌, Bool-cases, inl, inr,
}
use nixdex.Prelude.Bytes.{Bytes, bytes_le, starts_with}
use nixdex.Prelude.SortedMap.{SortedMap, AreAbove}
use nixdex.Index.{Fst, Roaring, with_prefix, extend, collect}
use nixdex.Index.Postings.{chunk, read_ordinals_at-chunk}
use nixdex.Index.Cookies.{ArePackable, chunks, cookies}
use nixdex.Index.Prefix.{union, iter-union, prefix_ordinals_from}
use nixdex.Index.Packed.{Packed}

-- Above a key that is above the prefix and does not start with it, no key starts with it.
starts_with-above :
    (prefix low high : Bytes)
    → bytes_le low prefix ≡ false
    → starts_with low prefix ≡ false
    → bytes_le high low ≡ false
    → starts_with high prefix ≡ false
unfolding starts_with bytes_le
starts_with-above [] low high h k l = cc
starts_with-above (p ∷ prefix) [] high h k l = cc
starts_with-above (p ∷ prefix) (x ∷ low) [] h k l = refl
starts_with-above (p ∷ prefix) (x ∷ low) (y ∷ high) h k l =
    ground (arith, h, k, l, starts_with-above prefix low high)

pub with_prefix-above :
    (prefix low : Bytes) (m : SortedMap ℕ)
    → bytes_le low prefix ≡ false
    → starts_with low prefix ≡ false
    → AreAbove low m
    → with_prefix prefix m ≡ []
unfolding with_prefix
with_prefix-above prefix low [] h k all = refl
with_prefix-above prefix low ((key, v) ∷ m) h k (first, rest) =
    ground
      (arith, starts_with-above prefix low key h k first, with_prefix-above prefix low m h k rest)

module _ (r : Roaring) (prefix : Bytes) (max_ordinals : ℕ) (small : max_ordinals < 2 ^ 32) where
  collect-cookies :
      (m : SortedMap (r.Bitmap)) (before : Bytes) (s : r.Bitmap)
      → ArePackable r max_ordinals m
      → length (before ++ chunks r m) < 2 ^ 64
      → collect r max_ordinals
          (before ++ chunks r m)
          (with_prefix prefix (cookies r (length before) m))
          s
        ≡ ok (union r prefix m s)
  unfolding collect with_prefix cookies chunks
  collect-cookies [] before s h fits = refl
  collect-cookies ((key, held) ∷ m) before s (strict, words, few, rest) fits =
      let packed = chunk (r.iter held) in
      let moved = append_assoc before packed (chunks r m) in
      let fits' : length ((before ++ packed) ++ chunks r m) < 2 ^ 64 =
        subst (λ u. length u < 2 ^ 64) (sym moved) fits in
      let read =
        read_ordinals_at-chunk max_ordinals (r.iter held) before (chunks r m) words few
          (omega (arith, few, small)) fits in
      let later : (s' : r.Bitmap)
          → collect r max_ordinals (before ++ (packed ++ chunks r m))
              (with_prefix prefix (cookies r (length before + length packed) m)) s'
            ≡ ok (union r prefix m s') =
        λ s'.
          rw (sym moved, sym (length-append before packed))
            (collect-cookies m (before ++ packed) s' rest fits') in
      elim (Bool-cases (starts_with key prefix)) [
        | inl e ↦ rw (e, read) (later (extend r (r.iter held) s))
        | inr e ↦ rw e (later s)
      ]

module _ (f : Fst) (r : Roaring) (max_ordinals : ℕ) (head : Bytes) where
  -- The loop over the entries with a prefix, in the index of the items.
  pub collect-Packed :
      (items : List (List Bytes)) (w : Packed f r max_ordinals head items) (prefix : Bytes)
      → max_ordinals < 2 ^ 32
      → length (head ++ chunks r w.held) < 2 ^ 64
      → (collect r max_ordinals
            (head ++ chunks r w.held)
            (with_prefix prefix (f.stream w.map))
            r.empty
          >>= λ s. ok (r.iter s))
        ≡ ok (prefix_ordinals_from 0 prefix items)
  collect-Packed items w prefix small fits =
      rw
        (w.streams, collect-cookies r prefix max_ordinals small w.held head r.empty w.packable fits)
        (ap ok (
          ap (λ m. r.iter (union r prefix m r.empty)) (sym w.recorded) ∙ iter-union r prefix items))
