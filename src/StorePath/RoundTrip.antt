-- ===== src/StorePath/RoundTrip.antt =====
-- Rendering and parsing store paths, crates/nixdex-core/src/store_path.rs.
use mathlib.Core.List.{append_assoc}
use nixdex.Prelude.{◌≡◌, ◌⊎◌, ◌↔◌, inl, inr, false, ◌||◌, none, some, arith}
use nixdex.Prelude.{[], ◌∷◌, ◌++◌, Option-cases, ◌∙◌}
use nixdex.Prelude.Bytes.{Bytes, contains, contains-nil, contains-append}
use nixdex.StorePath.{Origin, StorePath, parse, as_str}
use nixdex.Prelude.Split.{
  split_once, rsplit_once, split_once-append, split_once-eq-some, split_once-none,
  rsplit_once-append, rsplit_once-eq-some, none-contains,
}

no_dash :
    (dir hash : Bytes)
    → contains b'-' dir ≡ false
    → contains b'-' hash ≡ false
    → (contains b'-' dir || contains b'-' (b'/' ∷ hash)) ≡ false
unfolding contains
no_dash dir hash hd hh = ground arith

-- A path whose store directory has no `-`, and whose hash has neither `-` nor `/`, is parsed back
-- from its rendering, with the origin that is supplied.
pub parse-as_str :
    (p : StorePath)
    → contains b'-' p.store_dir ≡ false
    → contains b'-' p.hash ≡ false
    → contains b'/' p.hash ≡ false
    → parse p.origin (as_str p) ≡ some p
unfolding parse as_str
parse-as_str p plain_dir plain_hash flat_hash =
    let prefix = p.store_dir ++ (b'/' ∷ p.hash) in
    let plain : contains b'-' prefix ≡ false =
      contains-append b'-' p.store_dir (b'/' ∷ p.hash) ∙ no_dash _ _ plain_dir plain_hash in
    ground (
      arith,
      append_assoc p.store_dir (b'/' ∷ p.hash) (b'-' ∷ p.name),
      split_once-append b'-' prefix p.name plain,
      rsplit_once-append b'/' p.store_dir p.hash flat_hash,
    )

plain_parts :
    (dir hash : Bytes)
    → contains b'-' (dir ++ (b'/' ∷ hash)) ≡ false
    → (contains b'-' dir ≡ false) × (contains b'-' hash ≡ false)
plain_parts dir hash h =
    let e = contains-append b'-' dir (b'/' ∷ hash) in unfold contains in ground (arith, e)

-- Whatever `parse` accepts was `{prefix}-{name}` with no `-` in the prefix. If the prefix has a `/`,
-- rendering the result gives the text back; if it has none, the store directory is empty and the
-- rendering has a `/` in front of the text. The hash has neither `-` nor `/`.
pub as_str-parse :
    (origin : Origin) (path : Bytes) (p : StorePath)
    → parse origin path ≡ some p
    → (contains b'-' p.hash ≡ false)
      × (contains b'/' p.hash ≡ false)
      × (contains b'-' p.store_dir ≡ false)
      × ((as_str p ≡ path) ⊎ ((p.store_dir ≡ []) × (as_str p ≡ b'/' ∷ path)))
unfolding parse as_str
as_str-parse origin path p h = elim (Option-cases (split_once b'-' path)) [
  | inl e ↦ ground (arith, e)
  | inr ((prefix, name), e) ↦
      let (whole, plain) = split_once-eq-some b'-' path prefix name e in
      elim (Option-cases (rsplit_once b'/' prefix)) [
        | inl flat ↦
            ground (arith, e, flat, whole, plain, none-contains b'/' prefix flat, contains-nil b'-')
        | inr ((dir, hash), cut) ↦ ground (
          arith,
          e,
          cut,
          whole,
          rsplit_once-eq-some b'/' prefix dir hash cut,
          plain_parts dir hash,
          append_assoc dir (b'/' ∷ hash) (b'-' ∷ name),
        )
      ]
]

-- `parse` refuses exactly the texts without a `-`.
pub parse-eq-none :
    (origin : Origin) (path : Bytes) → (parse origin path ≡ none) ↔ (contains b'-' path ≡ false)
unfolding parse
parse-eq-none origin path = ground (arith, split_once-none b'-' path)
