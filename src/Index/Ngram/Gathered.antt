-- ===== src/Index/Ngram/Gathered.antt =====
-- The entries of the trigrams and the sets that they stand for, crates/nixdex-core/src/ngram_index.rs.
use mathlib.Core.Path.{subst}
use nixdex.Prelude.{
  ℕ, suc, ◌≡◌, refl, sym, ap, ◌∙◌, arith, false, Option, none, some, List, [], ◌∷◌, length, Result,
  ok, ◌>>=◌, Bool-cases, inl, inr,
}
use nixdex.Prelude.Bytes.{Bytes}
use nixdex.Index.{Error, Fst, Roaring, has}
use nixdex.Index.Postings.{AreStrict}
use nixdex.Index.Recorded.{has_key, ordinals_from, ordinals_from-AreStrict}
use nixdex.Index.Prefix.{AreStrict-ext}
use nixdex.Index.Trigram.Common.{common_from, common_from-AreStrict, in_all, has-common_from}
use nixdex.Index.Trigram.Candidates.{unique, in_all-unique}
use nixdex.Index.Ngram.{side_version, and_entry, gather, pop_order, intersection}
use nixdex.Index.Ngram.Sets.{
  iter_of, set_at, AreReadable, all_have, all_have-pop_order, pop_order-AreReadable,
  pop_order-IsFilled, intersect_entries-common,
}
use nixdex.Index.Ngram.Postings.{ReadsAs}

module _ (f : Fst) (r : Roaring) (postings : Bytes) (map : f.Map) (items : List (List Bytes))
    (reads : (key : Bytes) → ReadsAs r postings (f.get map key) (ordinals_from 0 key items)) where
  abbrev Stands : List Bytes → Option (List (ℕ × ℕ)) → Type 0
  Stands keys none = (k : ℕ) → in_all k keys items ≡ false
  Stands keys (some entries) =
      AreReadable r postings entries
      × (length entries ≡ length keys)
      × ((k : ℕ) → all_have r postings k entries ≡ in_all k keys items)

  -- The entries that stand for the keys.
  abbrev Gathers : List Bytes → Result (Option (List (ℕ × ℕ))) Error → Type 0
  Gathers keys result = (o : Option (List (ℕ × ℕ))) × (result ≡ ok o) × Stands keys o

  and_entry-Gathers :
      (key : Bytes) (keys : List Bytes) (o : Option ℕ) (rest : Result (Option (List (ℕ × ℕ))) Error)
      → ReadsAs r postings o (ordinals_from 0 key items)
      → Gathers keys rest
      → Gathers (key ∷ keys) (and_entry postings o rest)
  and_entry-Gathers key keys none rest h g = (none, refl, λ k. rw h refl)
  and_entry-Gathers key keys (some cookie) rest (len, word, s, read, same) (none, done, stands) =
      (none, rw (word, done) refl, λ k. ground (arith, stands k))
  and_entry-Gathers key keys (some cookie) rest (len, word, s, read, same)
        (some entries, done, (readable, n, each)) =
      let held : set_at r postings cookie ≡ ordinals_from 0 key items =
        ap (iter_of r postings) read ∙ same in
      (
        some ((cookie, len) ∷ entries),
        rw (word, done) refl,
        (
          ((s, read, subst AreStrict (sym same) (ordinals_from-AreStrict 0 key items)), readable),
          ap suc n,
          λ k. ground (arith, ap (has k) held, each k),
        ),
      )

  gather-Gathers :
      (seen keys : List Bytes) → Gathers (unique seen keys) (gather f map postings seen keys)
  unfolding gather
  gather-Gathers seen [] = (some [], refl, (tt, refl, λ k. refl))
  gather-Gathers seen (key ∷ keys) = elim (Bool-cases (has_key key seen)) [
    | inl e ↦ rw e (gather-Gathers seen keys)
    | inr e ↦ rw e (
        and_entry-Gathers key (unique (key ∷ seen) keys) (f.get map key)
          (gather f map postings (key ∷ seen) keys) (reads key) (gather-Gathers (key ∷ seen) keys))
  ]

  listed :
      (key : Bytes) (keys : List Bytes) (os : List ℕ)
      → AreStrict os
      → ((k : ℕ) → has k os ≡ in_all k (unique [] (key ∷ keys)) items)
      → os ≡ common_from 0 (key ∷ keys) items
  listed key keys os strict same =
      AreStrict-ext os (common_from 0 (key ∷ keys) items) strict
        (common_from-AreStrict 0 (key ∷ keys) items)
        (λ k.
          same k
          ∙ in_all-unique k [] (key ∷ keys) items refl
          ∙ sym (has-common_from k key keys items))

  -- A list of trigrams that is not empty has the items with all of them.
  pub intersection-gather :
      (key : Bytes) (keys : List Bytes)
      → (gather f map postings [] (key ∷ keys) >>= λ entries.
          intersection r postings side_version entries >>= λ s. ok (r.iter s))
        ≡ ok (common_from 0 (key ∷ keys) items)
  intersection-gather key keys = found (gather-Gathers [] (key ∷ keys))
    where
      of_option :
          (o : Option (List (ℕ × ℕ)))
          → Stands (unique [] (key ∷ keys)) o
          → (intersection r postings side_version o >>= λ s. ok (r.iter s))
            ≡ ok (common_from 0 (key ∷ keys) items)
      of_option none stands = ap ok (
          listed key keys (r.iter r.empty) (subst AreStrict (sym r.iter-empty) tt)
            (λ k. ap (has k) r.iter-empty ∙ sym (stands k)))
      of_option (some entries) (readable, n, each) =
          let (s, done, ordered, same) =
            intersect_entries-common r postings (pop_order entries)
              (pop_order-IsFilled r postings entries (omega (arith, n)))
              (pop_order-AreReadable r postings entries readable) in
          rw done (
            ap ok (
              listed key keys (r.iter s) ordered
                (λ k. same k ∙ all_have-pop_order r postings k entries ∙ each k)))

      found :
          Gathers (unique [] (key ∷ keys)) (gather f map postings [] (key ∷ keys))
          → (gather f map postings [] (key ∷ keys) >>= λ entries.
              intersection r postings side_version entries >>= λ s. ok (r.iter s))
            ≡ ok (common_from 0 (key ∷ keys) items)
      found (o, done, stands) = rw done (of_option o stands)
