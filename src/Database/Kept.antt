-- ===== src/Database/Kept.antt =====
-- Which entries the filter of `add_excluding` keeps, crates/nixdex-core/src/database.rs.
use nixdex.Prelude.{
  ◌≡◌, ◌≢◌, ◌⊎◌, ◌↔◌, inl, inr, refl, ap, true, false, List, [], ◌∷◌, ◌++◌, arith, Bool-cases,
}
use nixdex.Prelude.Bytes.{Bytes, starts_with}
use nixdex.Frcode.Line.{IsPlain}
use nixdex.Files.{FileTreeEntry, is_encodable}
use nixdex.Files.Meta.{meta_bytes, is_encodable-IsPlain}
use nixdex.Database.{any_prefix, kept}

-- The path begins with none of the prefixes.
abbrev pub AvoidsAll : List Bytes → Bytes → Type 0
AvoidsAll [] path = Unit
AvoidsAll (prefix ∷ prefixes) path =
    ((rest : Bytes) → path ≢ prefix ++ rest) × AvoidsAll prefixes path

-- What an entry has to be to join the listing: its path outside the prefixes, and no NUL or newline in
-- its path or metadata.
abbrev pub IsAllowed : List Bytes → FileTreeEntry → Type 0
IsAllowed prefixes entry =
    AvoidsAll prefixes entry.path × IsPlain (meta_bytes entry.node) × IsPlain entry.path

-- `left` has the allowed ones of the entries, in their order and as often, and no others.
abbrev pub AreAllowedOf : List Bytes → List FileTreeEntry → List FileTreeEntry → Type 0
AreAllowedOf prefixes left [] = left ≡ []
AreAllowedOf prefixes left (entry ∷ entries) =
    (IsAllowed prefixes entry
      × ((others : List FileTreeEntry) × (left ≡ entry ∷ others)
          × AreAllowedOf prefixes others entries))
    ⊎ ((¬ IsAllowed prefixes entry) × AreAllowedOf prefixes left entries)

starts_with-append : (prefix rest : Bytes) → starts_with (prefix ++ rest) prefix ≡ true
unfolding starts_with
starts_with-append [] rest = refl
starts_with-append (b ∷ prefix) rest = ground (arith, starts_with-append prefix rest)

starts_with-rest :
    (path prefix : Bytes)
    → starts_with path prefix ≡ true
    → (rest : Bytes) × (path ≡ prefix ++ rest)
unfolding starts_with
starts_with-rest path [] h = (path, refl)
starts_with-rest [] (p ∷ ps) h = cc h
starts_with-rest (b ∷ bs) (p ∷ ps) h =
    let tail : starts_with bs ps ≡ true = ground (arith, h) in
    let (rest, e) = starts_with-rest bs ps tail in
    let head : b ≡ p = ground (arith, h) in (rest, cc (head, e))

any_prefix-AvoidsAll :
    (prefixes : List Bytes) (path : Bytes)
    → (any_prefix prefixes path ≡ false) ↔ AvoidsAll prefixes path
unfolding any_prefix
any_prefix-AvoidsAll [] path = (λ h. tt, λ h. refl)
any_prefix-AvoidsAll (prefix ∷ prefixes) path =
    let (there, back) = any_prefix-AvoidsAll prefixes path in
    elim (Bool-cases (starts_with path prefix)) [
      | inl found ↦
          let (rest, e) = starts_with-rest path prefix found in
          (λ h. ground (arith, found, h), λ (avoids, others). absurd (avoids rest e))
      | inr other ↦ (
        λ h. (
          λ rest e. ground (
            arith,
            other,
            starts_with-append prefix rest,
            ap (λ (u : Bytes). starts_with u prefix) e,
          ),
          there (ground (arith, other, h)),
        ),
        λ (avoids, others). ground (arith, other, back others),
      )
    ]

-- The filter keeps the allowed entries.
pub kept-AreAllowedOf :
    (prefixes : List Bytes) (entries : List FileTreeEntry)
    → AreAllowedOf prefixes (kept prefixes entries) entries
unfolding kept
kept-AreAllowedOf prefixes [] = refl
kept-AreAllowedOf prefixes (entry ∷ entries) =
    let (there, back) = any_prefix-AvoidsAll prefixes entry.path in
    let (plain, encodable) = is_encodable-IsPlain entry in
    let others = kept-AreAllowedOf prefixes entries in
    elim (Bool-cases (any_prefix prefixes entry.path)) [
      | inl excluded ↦
          rw excluded (inr (λ (avoids, _, _). ground (arith, excluded, back avoids), others))
      | inr free ↦ elim (Bool-cases (is_encodable entry)) [
        | inl e ↦
            rw (free, e)
              (inl ((there free, (plain e).0, (plain e).1), (kept prefixes entries, refl, others)))
        | inr e ↦
            rw (free, e)
              (inr
                (λ (_, in_meta, in_path). ground (arith, e, encodable (in_meta, in_path)), others))
      ]
    ]
