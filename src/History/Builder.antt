-- ===== src/History/Builder.antt =====
-- The histories that a builder holds, under ascending attributes, crates/nixdex-history/src/lib.rs.
use nixdex.Prelude.{
  ◌≡◌, refl, arith, true, false, List, [], ◌∷◌, if_elim, Result, ok, err, Bool-cases, inl, inr,
}
use nixdex.Prelude.Bytes.{Bytes, bytes_eq, bytes_eq_refl, bytes_eq→eq, bytes_le, bytes_le_trans}
use mathlib.Core.Path.{subst}
use nixdex.History.{
  Error, VersionEntry, Entries, check_entry, record_entry, store, update_attr, record_checked,
  record_version,
}
use nixdex.History.Record.{IsHistory, Keeps, record_entry-IsHistory}

abbrev pub AllAbove : Bytes → Entries → Type 0
AllAbove attr [] = Unit
AllAbove attr (h ∷ hs) = (bytes_le h.attr attr ≡ false) × AllAbove attr hs

-- Each attribute once, in ascending order, with a history that is right.
abbrev pub IsBuilder : Entries → Type 0
IsBuilder [] = Unit
IsBuilder (h ∷ hs) = IsHistory h.versions × AllAbove h.attr hs × IsBuilder hs

le_antisym : (xs ys : Bytes) → bytes_le xs ys ≡ true → bytes_le ys xs ≡ true → bytes_eq xs ys ≡ true
unfolding bytes_le bytes_eq
le_antisym [] [] h k = refl
le_antisym [] (y ∷ ys) h k = cc
le_antisym (x ∷ xs) [] h k = cc
le_antisym (x ∷ xs) (y ∷ ys) h k = ground (arith, le_antisym xs ys)

eq_sym : (xs ys : Bytes) → bytes_eq xs ys ≡ true → bytes_eq ys xs ≡ true
eq_sym xs ys h =
    let e = bytes_eq→eq xs ys h in subst (λ u. bytes_eq u xs ≡ true) e (bytes_eq_refl xs)

-- What is at least `attr`, and not it, is above it.
above :
    (attr other : Bytes)
    → bytes_le attr other ≡ true
    → bytes_eq other attr ≡ false
    → bytes_le other attr ≡ false
above attr other le ne = elim (Bool-cases (bytes_le other attr)) [
  | inl back ↦ ground (arith, ne, le_antisym other attr back le)
  | inr e ↦ e
]

AllAbove-weaken :
    (low high : Bytes) (hs : Entries)
    → bytes_le low high ≡ true
    → AllAbove high hs
    → AllAbove low hs
AllAbove-weaken low high [] le h = tt
AllAbove-weaken low high (w ∷ ws) le (first, rest) = (
  elim (Bool-cases (bytes_le w.attr low)) [
    | inl back ↦ ground (arith, first, bytes_le_trans w.attr low high back le)
    | inr e ↦ e
  ],
  AllAbove-weaken low high ws le rest,
)

stored :
    (attr : Bytes) (old : List VersionEntry) (r : Result (List VersionEntry) Error) (rest : Entries)
    → IsHistory old
    → Keeps r
    → AllAbove attr rest
    → IsBuilder rest
    → IsBuilder ((store attr old r rest).0)
unfolding store
stored attr old (ok versions) rest ho hr above_all b = (hr, above_all, b)
stored attr old (err e) rest ho hr above_all b = (ho, above_all, b)

stored_above :
    (key attr : Bytes) (old : List VersionEntry) (r : Result (List VersionEntry) Error)
    (rest : Entries)
    → bytes_le attr key ≡ false
    → AllAbove key rest
    → AllAbove key ((store attr old r rest).0)
unfolding store
stored_above key attr old (ok versions) rest h all = (h, all)
stored_above key attr old (err e) rest h all = (h, all)

empty_IsHistory : IsHistory []
empty_IsHistory = record { newest_first = tt; distinct = tt; bounded = omega arith; checked = tt }

-- Of what an operation leaves, beside its result.
abbrev Above : Bytes → Entries × Result (Unit {0}) Error → Type 0
Above key left = AllAbove key left.0

abbrev Right : Entries × Result (Unit {0}) Error → Type 0
Right left = IsBuilder left.0

module _ (attr : Bytes) (entry : VersionEntry) (fine : check_entry entry ≡ ok tt) where
  updated_above :
      (key : Bytes) (hs : Entries)
      → bytes_le attr key ≡ false
      → AllAbove key hs
      → AllAbove key ((update_attr attr (record_entry entry) hs).0)
  unfolding update_attr
  updated_above key [] h all = stored_above key attr [] _ [] h tt
  updated_above key (w ∷ ws) h (first, rest) =
      if_elim (Above key) (bytes_eq w.attr attr) (λ e. stored_above key attr _ _ ws h rest)
        (λ e.
          if_elim (Above key) (bytes_le attr w.attr)
            (λ k. stored_above key attr _ _ (w ∷ ws) h (first, rest))
            (λ k. (first, updated_above key ws h rest)))

  updated : (hs : Entries) → IsBuilder hs → IsBuilder ((update_attr attr (record_entry entry) hs).0)
  unfolding update_attr
  updated [] b =
      stored attr [] _ [] empty_IsHistory (record_entry-IsHistory entry [] fine empty_IsHistory) tt
        tt
  updated (w ∷ ws) (h, above_all, b) =
      if_elim Right (bytes_eq w.attr attr)
        (λ e.
          stored attr w.versions _ ws h (record_entry-IsHistory entry w.versions fine h)
            (subst (λ u. AllAbove u ws) (bytes_eq→eq w.attr attr e) above_all) b)
        (λ e.
          if_elim Right (bytes_le attr w.attr)
            (λ k.
              stored attr [] _ (w ∷ ws) empty_IsHistory
                (record_entry-IsHistory entry [] fine empty_IsHistory)
                (above attr w.attr k e, AllAbove-weaken attr w.attr ws k above_all)
                (h, above_all, b))
            (λ k. (h, updated_above w.attr ws k above_all, updated ws b)))

-- Whatever is recorded, and whether or not it is refused, a builder keeps every attribute once and in
-- order, and under each its versions newest first, each once, at most 1000 and none with a field over
-- its cap.
pub record_version-IsBuilder :
    (attr : Bytes) (entry : VersionEntry) (entries : Entries)
    → IsBuilder entries
    → IsBuilder ((record_version attr entry entries).0)
unfolding record_version
record_version-IsBuilder attr entry entries b = recorded (check_entry entry) refl
  where
    recorded :
        (r : Result (Unit {0}) Error)
        → check_entry entry ≡ r
        → IsBuilder ((record_checked attr entry r entries).0)
    recorded (err e) h = b
    recorded (ok tt) h = updated attr entry h entries b
