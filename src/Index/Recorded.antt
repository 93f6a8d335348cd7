-- ===== src/Index/Recorded.antt =====
-- What the builders of crates/nixdex-core (basename_index.rs, path_index.rs, path_trigram_index.rs)
-- hold after keys were recorded, the items with ascending ordinals.
use mathlib.Core.List.{append_assoc, append-nil}
use mathlib.Core.Path.{subst}
use nixdex.Prelude.{
  ℕ, suc, ◌+◌, ◌^◌, ◌≤◌, ◌<◌, ◌≡◌, refl, sym, ap, ◌∙◌, arith, Bool, true, false, Option, none, some,
  List, [], ◌∷◌, ◌++◌, if◌then◌else◌, if_elim, length, Bool-cases, inl, inr,
}
use nixdex.Prelude.Bytes.{Bytes, bytes_eq, bytes_eq→eq}
use nixdex.Prelude.SortedMap.{
  SortedMap, IsAscending, lookup, or_default, adjust-IsAscending, lookup-adjust,
}
use nixdex.Index.{Roaring, insert_ordinal, insert_key}
use nixdex.Index.Postings.{AreWords, AreStrict, AllOver, IsPackable}
use nixdex.Index.Cookies.{posting}

abbrev pub has_key : Bytes → List Bytes → Bool
has_key key [] = false
has_key key (k ∷ keys) = if bytes_eq k key then true else has_key key keys

-- The ordinals of the items that have the key, each item a list of keys, the first with ordinal `n`.
unfoldable pub ordinals_from : ℕ → Bytes → List (List Bytes) → List ℕ
ordinals_from n key [] = []
ordinals_from n key (keys ∷ items) =
    let rest = ordinals_from (n + 1) key items in if has_key key keys then n ∷ rest else rest

abbrev AllUnder : ℕ → List ℕ → Type 0
AllUnder n [] = Unit
AllUnder n (o ∷ os) = (o < n) × AllUnder n os

AllUnder-suc : (n : ℕ) (os : List ℕ) → AllUnder n os → AllUnder (n + 1) os
AllUnder-suc n [] h = tt
AllUnder-suc n (o ∷ os) (lt, rest) = (omega (arith, lt), AllUnder-suc n os rest)

AllUnder-append : (n : ℕ) (os : List ℕ) → AllUnder n os → AllUnder (n + 1) (os ++ (n ∷ []))
AllUnder-append n [] h = (omega arith, tt)
AllUnder-append n (o ∷ os) (lt, rest) = (omega (arith, lt), AllUnder-append n os rest)

insert_ordinal-last : (n : ℕ) (os : List ℕ) → AllUnder n os → insert_ordinal n os ≡ os ++ (n ∷ [])
unfolding insert_ordinal
insert_ordinal-last n [] h = refl
insert_ordinal-last n (o ∷ os) (lt, rest) = ground (arith, lt, insert_ordinal-last n os rest)

insert_ordinal_idem :
    (n : ℕ) (os : List ℕ) → insert_ordinal n (insert_ordinal n os) ≡ insert_ordinal n os
unfolding insert_ordinal
insert_ordinal_idem n [] = ground arith
insert_ordinal_idem n (o ∷ os) = ground (arith, insert_ordinal_idem n os)

pub ordinals_from-AllOver :
    (n k : ℕ) (key : Bytes) (items : List (List Bytes))
    → k < n
    → AllOver k (ordinals_from n key items)
unfolding ordinals_from
ordinals_from-AllOver n k key [] lt = tt
ordinals_from-AllOver n k key (keys ∷ items) lt =
    let rest = ordinals_from-AllOver (n + 1) k key items (omega arith) in
    if_elim (AllOver k) (has_key key keys) (λ e. (lt, rest)) (λ e. rest)

pub ordinals_from-AreStrict :
    (n : ℕ) (key : Bytes) (items : List (List Bytes)) → AreStrict (ordinals_from n key items)
unfolding ordinals_from
ordinals_from-AreStrict n key [] = tt
ordinals_from-AreStrict n key (keys ∷ items) =
    let rest = ordinals_from-AreStrict (n + 1) key items in
    if_elim AreStrict (has_key key keys)
      (λ e. (ordinals_from-AllOver (n + 1) n key items (omega arith), rest)) (λ e. rest)

ordinals_from-AreWords :
    (n : ℕ) (key : Bytes) (items : List (List Bytes))
    → n + length items < 2 ^ 32
    → AreWords (ordinals_from n key items)
unfolding ordinals_from
ordinals_from-AreWords n key [] h = tt
ordinals_from-AreWords n key (keys ∷ items) h =
    let rest = ordinals_from-AreWords (n + 1) key items (omega (arith, h)) in
    if_elim AreWords (has_key key keys) (λ e. (omega (arith, h), rest)) (λ e. rest)

abbrev HasAtMost : ℕ → List ℕ → Type 0
HasAtMost n os = length os ≤ n

length-ordinals_from :
    (n : ℕ) (key : Bytes) (items : List (List Bytes))
    → length (ordinals_from n key items) ≤ length items
unfolding ordinals_from
length-ordinals_from n key [] = omega arith
length-ordinals_from n key (keys ∷ items) =
    let rest = length-ordinals_from (n + 1) key items in
    if_elim (HasAtMost (suc (length items))) (has_key key keys) (λ e. more rest) (λ e. less rest)
  where
    more :
        length (ordinals_from (n + 1) key items) ≤ length items
        → length (n ∷ ordinals_from (n + 1) key items) ≤ suc (length items)
    more h = omega (arith, h)

    less :
        length (ordinals_from (n + 1) key items) ≤ length items
        → length (ordinals_from (n + 1) key items) ≤ suc (length items)
    less h = omega (arith, h)

pub ordinals_from-IsPackable :
    (key : Bytes) (items : List (List Bytes)) (max_ordinals : ℕ)
    → length items ≤ max_ordinals
    → max_ordinals < 2 ^ 32
    → IsPackable max_ordinals (ordinals_from 0 key items)
ordinals_from-IsPackable key items max_ordinals few small = (
  ordinals_from-AreStrict 0 key items,
  ordinals_from-AreWords 0 key items (omega (arith, few, small)),
  omega (arith, few, length-ordinals_from 0 key items),
)

module _ (r : Roaring) where
  unfoldable pub record_keys : ℕ → List Bytes → SortedMap (r.Bitmap) → SortedMap (r.Bitmap)
  record_keys n [] m = m
  record_keys n (key ∷ keys) m = record_keys n keys (insert_key r n key m)

  -- All the keys of the items, the first of which has ordinal `n`.
  unfoldable pub record_items : ℕ → List (List Bytes) → SortedMap (r.Bitmap) → SortedMap (r.Bitmap)
  record_items n [] m = m
  record_items n (keys ∷ items) m = record_items (n + 1) items (record_keys n keys m)

  insert_key-IsAscending :
      (n : ℕ) (key : Bytes) (m : SortedMap (r.Bitmap))
      → IsAscending m
      → IsAscending (insert_key r n key m)
  unfolding insert_key
  insert_key-IsAscending n key m h = adjust-IsAscending key r.empty (r.insert n) m h

  record_keys-IsAscending :
      (n : ℕ) (keys : List Bytes) (m : SortedMap (r.Bitmap))
      → IsAscending m
      → IsAscending (record_keys n keys m)
  unfolding record_keys
  record_keys-IsAscending n [] m h = h
  record_keys-IsAscending n (key ∷ keys) m h =
      record_keys-IsAscending n keys (insert_key r n key m) (insert_key-IsAscending n key m h)

  pub record_items-IsAscending :
      (n : ℕ) (items : List (List Bytes)) (m : SortedMap (r.Bitmap))
      → IsAscending m
      → IsAscending (record_items n items m)
  unfolding record_items
  record_items-IsAscending n [] m h = h
  record_items-IsAscending n (keys ∷ items) m h =
      record_items-IsAscending (n + 1) items (record_keys n keys m)
        (record_keys-IsAscending n keys m h)

  posting-insert_key :
      (n : ℕ) (k key : Bytes) (m : SortedMap (r.Bitmap))
      → IsAscending m
      → posting r (lookup key (insert_key r n k m)) ≡ (
          if bytes_eq k key
          then insert_ordinal n (posting r (lookup key m))
          else posting r (lookup key m))
  unfolding insert_key
  posting-insert_key n k key m h =
      rw (lookup-adjust k r.empty (r.insert n) m key h) (elim (Bool-cases (bytes_eq k key)) [
        | inl same ↦ rw same (
            inserted (lookup k m)
            ∙ ap (λ u. insert_ordinal n (posting r (lookup u m))) (bytes_eq→eq k key same))
        | inr other ↦ rw other refl
      ])
    where
      inserted :
          (o : Option (r.Bitmap))
          → r.iter (r.insert n (or_default r.empty o)) ≡ insert_ordinal n (posting r o)
      inserted none = rw (r.iter-insert n r.empty, r.iter-empty) refl
      inserted (some s) = r.iter-insert n s

  posting-record_keys :
      (n : ℕ) (keys : List Bytes) (key : Bytes) (m : SortedMap (r.Bitmap))
      → IsAscending m
      → posting r (lookup key (record_keys n keys m)) ≡ (
          if has_key key keys
          then insert_ordinal n (posting r (lookup key m))
          else posting r (lookup key m))
  unfolding record_keys
  posting-record_keys n [] key m h = refl
  posting-record_keys n (k ∷ keys) key m h =
      let later =
        posting-record_keys n keys key (insert_key r n k m) (insert_key-IsAscending n k m h) in
      ground (
        arith,
        later,
        posting-insert_key n k key m h,
        insert_ordinal_idem n (posting r (lookup key m)),
      )

  posting-record_items_from :
      (n : ℕ) (items : List (List Bytes)) (key : Bytes) (m : SortedMap (r.Bitmap))
      → IsAscending m
      → AllUnder n (posting r (lookup key m))
      → posting r (lookup key (record_items n items m))
        ≡ posting r (lookup key m) ++ ordinals_from n key items
  unfolding record_items ordinals_from
  posting-record_items_from n [] key m h u = sym (append-nil (posting r (lookup key m)))
  posting-record_items_from n (keys ∷ items) key m h u =
      let held = posting r (lookup key m) in
      let m1 = record_keys n keys m in
      let now = posting-record_keys n keys key m h in
      let rest = ordinals_from (n + 1) key items in
      let later =
        posting-record_items_from (n + 1) items key m1 (record_keys-IsAscending n keys m h) in
      elim (Bool-cases (has_key key keys)) [
        | inl e ↦
            let now' : posting r (lookup key m1) ≡ held ++ (n ∷ []) =
              now ∙ rw e (insert_ordinal-last n held u) in
            rw e (
              later (subst (AllUnder (n + 1)) (sym now') (AllUnder-append n held u))
              ∙ ap (λ os. os ++ rest) now'
              ∙ append_assoc held (n ∷ []) rest)
        | inr e ↦
            let now' : posting r (lookup key m1) ≡ held = now ∙ rw e refl in
            rw e (
              later (subst (AllUnder (n + 1)) (sym now') (AllUnder-suc n held u))
              ∙ ap (λ os. os ++ rest) now')
      ]

  pub posting-record_items :
      (items : List (List Bytes)) (key : Bytes)
      → posting r (lookup key (record_items 0 items [])) ≡ ordinals_from 0 key items
  unfolding lookup
  posting-record_items items key = posting-record_items_from 0 items key [] tt tt
