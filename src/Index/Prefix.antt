-- ===== src/Index/Prefix.antt =====
-- The packages with a key that starts with a prefix, as crates/nixdex-core/src/basename_index.rs and
-- path_index.rs collect them.
use mathlib.Core.Path.{subst}
use nixdex.Prelude.{
  ℕ, ◌+◌, ◌≤◌, ◌<◌, ◌≡◌, refl, sym, ap, ◌∙◌, arith, Bool, true, false, List, [], ◌∷◌, ◌==◌, ltb,
  ltb→lt, if◌then◌else◌, if_elim,
}
use nixdex.Prelude.Bytes.{Bytes, bytes_eq→eq, starts_with}
use nixdex.Prelude.SortedMap.{SortedMap, adjust}
use nixdex.Index.{has, Roaring, insert_ordinal, insert_key, extend}
use nixdex.Index.Postings.{AreStrict, AllOver}
use nixdex.Index.Recorded.{record_keys, record_items}

abbrev pub any_starts_with : Bytes → List Bytes → Bool
any_starts_with prefix [] = false
any_starts_with prefix (key ∷ keys) =
    if starts_with key prefix then true else any_starts_with prefix keys

-- The ordinals of the items with a key that starts with the prefix, the first with ordinal `n`.
unfoldable pub prefix_ordinals_from : ℕ → Bytes → List (List Bytes) → List ℕ
prefix_ordinals_from n prefix [] = []
prefix_ordinals_from n prefix (keys ∷ items) =
    let rest = prefix_ordinals_from (n + 1) prefix items in
    if any_starts_with prefix keys then n ∷ rest else rest

prefix_ordinals_from-AllOver :
    (n k : ℕ) (prefix : Bytes) (items : List (List Bytes))
    → k < n
    → AllOver k (prefix_ordinals_from n prefix items)
unfolding prefix_ordinals_from
prefix_ordinals_from-AllOver n k prefix [] lt = tt
prefix_ordinals_from-AllOver n k prefix (keys ∷ items) lt =
    let rest = prefix_ordinals_from-AllOver (n + 1) k prefix items (omega arith) in
    if_elim (AllOver k) (any_starts_with prefix keys) (λ e. (lt, rest)) (λ e. rest)

pub prefix_ordinals_from-AreStrict :
    (n : ℕ) (prefix : Bytes) (items : List (List Bytes))
    → AreStrict (prefix_ordinals_from n prefix items)
unfolding prefix_ordinals_from
prefix_ordinals_from-AreStrict n prefix [] = tt
prefix_ordinals_from-AreStrict n prefix (keys ∷ items) =
    let rest = prefix_ordinals_from-AreStrict (n + 1) prefix items in
    if_elim AreStrict (any_starts_with prefix keys)
      (λ e. (prefix_ordinals_from-AllOver (n + 1) n prefix items (omega arith), rest)) (λ e. rest)

-- Ascending lists with the same elements are the same.
pub AllOver-has : (n k : ℕ) (os : List ℕ) → AllOver n os → k ≤ n → has k os ≡ false
AllOver-has n k [] h le = refl
AllOver-has n k (o ∷ os) (lt, rest) le = ground (arith, lt, le, AllOver-has n k os rest le)

pub has_self : (n : ℕ) (os : List ℕ) → has n (n ∷ os) ≡ true
has_self n os = ground arith

pub AreStrict-ext :
    (xs ys : List ℕ) → AreStrict xs → AreStrict ys → ((n : ℕ) → has n xs ≡ has n ys) → xs ≡ ys
AreStrict-ext [] [] hx hy same = refl
AreStrict-ext [] (y ∷ ys) hx hy same = absurd (ground (arith, same y, has_self y ys))
AreStrict-ext (x ∷ xs) [] hx hy same = absurd (ground (arith, same x, has_self x xs))
AreStrict-ext (x ∷ xs) (y ∷ ys) (ox, hx) (oy, hy) same =
    let first : x ≡ y =
      ground (arith, same x, same y, AllOver-has x y xs ox, AllOver-has y x ys oy) in
    let rest : xs ≡ ys = AreStrict-ext xs ys hx hy (λ n. tail n first) in rw (first, rest) refl
  where
    tail : (n : ℕ) → x ≡ y → has n xs ≡ has n ys
    tail n first = ground (arith, first, same n, AllOver-has x n xs ox, AllOver-has y n ys oy)

-- `insert_ordinal`
insert_ordinal-AllOver :
    (k n : ℕ) (os : List ℕ) → k < n → AllOver k os → AllOver k (insert_ordinal n os)
unfolding insert_ordinal
insert_ordinal-AllOver k n [] lt h = (lt, tt)
insert_ordinal-AllOver k n (o ∷ os) lt (first, rest) =
    if_elim (AllOver k) (n == o) (λ e. (first, rest))
      (λ e.
        if_elim (AllOver k) (ltb n o) (λ l. (lt, (first, rest)))
          (λ l. (first, insert_ordinal-AllOver k n os lt rest)))

AllOver-weaken : (low high : ℕ) (os : List ℕ) → low < high → AllOver high os → AllOver low os
AllOver-weaken low high [] lt h = tt
AllOver-weaken low high (o ∷ os) lt (first, rest) =
    (omega (arith, lt, first), AllOver-weaken low high os lt rest)

insert_ordinal-AreStrict : (n : ℕ) (os : List ℕ) → AreStrict os → AreStrict (insert_ordinal n os)
unfolding insert_ordinal
insert_ordinal-AreStrict n [] h = (tt, tt)
insert_ordinal-AreStrict n (o ∷ os) (first, rest) =
    if_elim AreStrict (n == o) (λ e. (first, rest))
      (λ e.
        if_elim AreStrict (ltb n o)
          (λ l. let lt = ltb→lt n o l in ((lt, AllOver-weaken n o os lt first), (first, rest)))
          (λ l. (
            insert_ordinal-AllOver o n os (ground (arith, e, l)) first,
            insert_ordinal-AreStrict n os rest,
          )))

has-insert_ordinal :
    (k n : ℕ) (os : List ℕ) → has k (insert_ordinal n os) ≡ (if n == k then true else has k os)
unfolding insert_ordinal
has-insert_ordinal k n [] = refl
has-insert_ordinal k n (o ∷ os) = ground (arith, has-insert_ordinal k n os)

pub extend-AreStrict :
    (r : Roaring) (ns : List ℕ) (s : r.Bitmap)
    → AreStrict (r.iter s)
    → AreStrict (r.iter (extend r ns s))
unfolding extend
extend-AreStrict r [] s h = h
extend-AreStrict r (n ∷ ns) s h =
    extend-AreStrict r ns (r.insert n s)
      (subst AreStrict (sym (r.iter-insert n s)) (insert_ordinal-AreStrict n (r.iter s) h))

pub has-extend :
    (r : Roaring) (k : ℕ) (ns : List ℕ) (s : r.Bitmap)
    → has k (r.iter (extend r ns s)) ≡ (if has k ns then true else has k (r.iter s))
unfolding extend
has-extend r k [] s = refl
has-extend r k (n ∷ ns) s =
    let inserted = ap (has k) (r.iter-insert n s) ∙ has-insert_ordinal k n (r.iter s) in
    ground (arith, has-extend r k ns (r.insert n s), inserted)

module _ (r : Roaring) (prefix : Bytes) where
  -- The sets of the entries whose key starts with the prefix, added to a set.
  abbrev pub union : SortedMap (r.Bitmap) → r.Bitmap → r.Bitmap
  union [] s = s
  union ((key, held) ∷ m) s =
      if starts_with key prefix then union m (extend r (r.iter held) s) else union m s

  -- Whether the ordinal is in one of them.
  abbrev any_has : ℕ → SortedMap (r.Bitmap) → Bool
  any_has k [] = false
  any_has k ((key, held) ∷ m) =
      if starts_with key prefix
      then (if has k (r.iter held) then true else any_has k m)
      else any_has k m

  has-union :
      (k : ℕ) (m : SortedMap (r.Bitmap)) (s : r.Bitmap)
      → has k (r.iter (union m s)) ≡ (if any_has k m then true else has k (r.iter s))
  has-union k [] s = refl
  has-union k ((key, held) ∷ m) s = ground (
    arith,
    has-union k m s,
    has-union k m (extend r (r.iter held) s),
    has-extend r k (r.iter held) s,
  )

  union-AreStrict :
      (m : SortedMap (r.Bitmap)) (s : r.Bitmap)
      → AreStrict (r.iter s)
      → AreStrict (r.iter (union m s))
  union-AreStrict [] s h = h
  union-AreStrict ((key, held) ∷ m) s h =
      if_elim IsStrictSet (starts_with key prefix)
        (λ e. union-AreStrict m (extend r (r.iter held) s) (extend-AreStrict r (r.iter held) s h))
        (λ e. union-AreStrict m s h)
    where
      IsStrictSet : r.Bitmap → Type 0
      IsStrictSet s = AreStrict (r.iter s)

  any_has-insert_key :
      (k n : ℕ) (key : Bytes) (m : SortedMap (r.Bitmap))
      → any_has k (insert_key r n key m)
        ≡ (if starts_with key prefix then (if n == k then true else any_has k m) else any_has k m)
  unfolding insert_key adjust
  any_has-insert_key k n key [] = ground (
    arith,
    ap (has k) (r.iter-insert n r.empty) ∙ has-insert_ordinal k n (r.iter r.empty),
    ap (has k) r.iter-empty,
  )
  any_has-insert_key k n key ((other, held) ∷ m) =
      let changed = ap (has k) (r.iter-insert n held) ∙ has-insert_ordinal k n (r.iter held) in
      let added = ap (has k) (r.iter-insert n r.empty) ∙ has-insert_ordinal k n (r.iter r.empty) in
      ground (
        arith,
        any_has-insert_key k n key m,
        changed,
        added,
        ap (has k) r.iter-empty,
        bytes_eq→eq other key,
      )

  any_has-record_keys :
      (k n : ℕ) (keys : List Bytes) (m : SortedMap (r.Bitmap))
      → any_has k (record_keys r n keys m) ≡ (
          if any_starts_with prefix keys
          then (if n == k then true else any_has k m)
          else any_has k m)
  unfolding record_keys
  any_has-record_keys k n [] m = refl
  any_has-record_keys k n (key ∷ keys) m =
      ground
        (arith, any_has-record_keys k n keys (insert_key r n key m), any_has-insert_key k n key m)

  any_has-record_items :
      (k n : ℕ) (items : List (List Bytes)) (m : SortedMap (r.Bitmap))
      → any_has k (record_items r n items m)
        ≡ (if any_has k m then true else has k (prefix_ordinals_from n prefix items))
  unfolding record_items prefix_ordinals_from
  any_has-record_items k n [] m = ground arith
  any_has-record_items k n (keys ∷ items) m = ground (
    arith,
    any_has-record_items k (n + 1) items (record_keys r n keys m),
    any_has-record_keys k n keys m,
  )

  pub iter-union :
      (items : List (List Bytes))
      → r.iter (union (record_items r 0 items []) r.empty) ≡ prefix_ordinals_from 0 prefix items
  iter-union items =
      let m = record_items r 0 items [] in
      AreStrict-ext (r.iter (union m r.empty)) (prefix_ordinals_from 0 prefix items)
        (union-AreStrict m r.empty (subst AreStrict (sym r.iter-empty) tt))
        (prefix_ordinals_from-AreStrict 0 prefix items)
        (λ k.
          has-union k m r.empty
          ∙ ground (arith, any_has-record_items k 0 items [], ap (has k) r.iter-empty))
