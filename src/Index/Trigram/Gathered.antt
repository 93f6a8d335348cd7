-- ===== src/Index/Trigram/Gathered.antt =====
-- The cookies of the trigrams and the sets that they stand for, crates/nixdex-core/src/path_trigram_index.rs.
use mathlib.Core.Path.{subst}
use nixdex.Prelude.{
  ℕ, suc, ◌<◌, ◌^◌, ◌≡◌, refl, sym, ap, ◌∙◌, arith, false, Option, none, some, List, [], ◌∷◌, ◌++◌,
  if◌then◌else◌, length, ok, ◌>>=◌, Bool-cases, inl, inr,
}
use nixdex.Prelude.Bytes.{Bytes}
use nixdex.Index.{Fst, Roaring, has, extend, read_at}
use nixdex.Index.Postings.{AreStrict}
use nixdex.Index.Cookies.{chunks}
use nixdex.Index.Recorded.{has_key, ordinals_from}
use nixdex.Index.Prefix.{AreStrict-ext, extend-AreStrict, has-extend}
use nixdex.Index.Packed.{Packed}
use nixdex.Index.Trigram.{
  max_ids_per_trigram, push_cookie, gather, read_lists, sort_by_len, smallest_first, intersection,
}
use nixdex.Index.Trigram.Common.{common_from, common_from-AreStrict, in_all, has-common_from}
use nixdex.Index.Trigram.Candidates.{
  all_have, AreSets, IsFilled, unique, all_have-sort_by_len, sort_by_len-AreSets,
  has-smallest_first, smallest_first-AreStrict, insert_by_len-IsFilled, in_all-unique,
}

extended-AreStrict : (r : Roaring) (ns : List ℕ) → AreStrict (r.iter (extend r ns r.empty))
extended-AreStrict r ns = extend-AreStrict r ns r.empty (subst AreStrict (sym r.iter-empty) tt)

has-extended : (r : Roaring) (k : ℕ) (ns : List ℕ) → has k (r.iter (extend r ns r.empty)) ≡ has k ns
has-extended r k ns = ground (arith, has-extend r k ns r.empty, ap (has k) r.iter-empty)

module _ (f : Fst) (r : Roaring) (head : Bytes) (items : List (List Bytes))
    (w : Packed f r max_ids_per_trigram head items) where
  abbrev postings : Bytes
  postings = head ++ chunks r w.held

  -- What the cookies of the keys stand for.
  abbrev Gathers : List Bytes → Option (List ℕ) → Type 0
  Gathers keys none = (k : ℕ) → in_all k keys items ≡ false
  Gathers keys (some cookies) =
      (lists : List (r.Bitmap)) × (read_lists r postings cookies ≡ ok lists)
      × AreSets r lists
      × (length lists ≡ length keys)
      × (length cookies ≡ length keys)
      × ((k : ℕ) → all_have r k lists ≡ in_all k keys items)

  push_cookie-Gathers :
      (key : Bytes) (keys : List Bytes) (o : Option ℕ) (rest : Option (List ℕ))
      → read_at max_ids_per_trigram postings o ≡ ok (ordinals_from 0 key items)
      → Gathers keys rest
      → Gathers (key ∷ keys) (push_cookie o rest)
  unfolding read_lists
  push_cookie-Gathers key keys none rest h g = λ k. absent k cc
    where
      absent :
          (k : ℕ)
          → ordinals_from 0 key items ≡ []
          → (if has k (ordinals_from 0 key items) then in_all k keys items else false) ≡ false
      absent k e = rw e refl
  push_cookie-Gathers key keys (some cookie) none h g = λ k. ground (arith, g k)
  push_cookie-Gathers key keys (some cookie) (some cookies) h (lists, read, sets, n, m, same) =
      let ids = ordinals_from 0 key items in
      let read' : read_lists r postings (cookie ∷ cookies) ≡ ok (extend r ids r.empty ∷ lists) =
        rw (h, read) refl in
      (
        extend r ids r.empty ∷ lists,
        read',
        (extended-AreStrict r ids, sets),
        ap suc n,
        ap suc m,
        λ k. ground (arith, has-extended r k ids, same k),
      )

  gather-Gathers :
      length postings < 2 ^ 64
      → (seen keys : List Bytes) → Gathers (unique seen keys) (gather f w.map seen keys)
  unfolding gather read_lists
  gather-Gathers fits seen [] = ([], refl, tt, refl, refl, λ k. refl)
  gather-Gathers fits seen (key ∷ keys) = elim (Bool-cases (has_key key seen)) [
    | inl e ↦ rw e (gather-Gathers fits seen keys)
    | inr e ↦ rw e (
        push_cookie-Gathers key (unique (key ∷ seen) keys) (f.get w.map key)
          (gather f w.map (key ∷ seen) keys) (w.reads key fits)
          (gather-Gathers fits (key ∷ seen) keys))
  ]

  -- A list of trigrams that is not empty has the items with all of them.
  pub intersection-gather :
      length postings < 2 ^ 64
      → (key : Bytes) (keys : List Bytes)
      → (intersection r postings (gather f w.map [] (key ∷ keys)) >>= λ s. ok (r.iter s))
        ≡ ok (common_from 0 (key ∷ keys) items)
  unfolding sort_by_len
  intersection-gather fits key keys =
      found (gather f w.map [] (key ∷ keys)) (gather-Gathers fits [] (key ∷ keys))
    where
      listed :
          (os : List ℕ)
          → AreStrict os
          → ((k : ℕ) → has k os ≡ in_all k (unique [] (key ∷ keys)) items)
          → os ≡ common_from 0 (key ∷ keys) items
      listed os strict same =
          AreStrict-ext os (common_from 0 (key ∷ keys) items) strict
            (common_from-AreStrict 0 (key ∷ keys) items)
            (λ k.
              same k
              ∙ in_all-unique k [] (key ∷ keys) items refl
              ∙ sym (has-common_from k key keys items))

      filled : (lists : List (r.Bitmap)) → IsFilled r lists → IsFilled r (sort_by_len r lists)
      filled [] h = h
      filled (s ∷ ss) h = insert_by_len-IsFilled r s (sort_by_len r ss)

      found :
          (o : Option (List ℕ))
          → Gathers (unique [] (key ∷ keys)) o
          → (intersection r postings o >>= λ s. ok (r.iter s))
            ≡ ok (common_from 0 (key ∷ keys) items)
      found none g = ap ok (
          listed (r.iter r.empty) (subst AreStrict (sym r.iter-empty) tt)
            (λ k. ap (has k) r.iter-empty ∙ sym (g k)))
      found (some []) (lists, read, sets, n, m, same) = absurd (omega (arith, m))
      found (some (cookie ∷ cookies)) (lists, read, sets, n, m, same) =
          let sorted = sort_by_len r lists in
          rw read (
            ap ok (
              listed (r.iter (smallest_first r sorted))
                (smallest_first-AreStrict r sorted (sort_by_len-AreSets r lists sets))
                (λ k.
                  has-smallest_first r k sorted (filled lists (omega (arith, n)))
                  ∙ all_have-sort_by_len r k lists
                  ∙ same k)))
