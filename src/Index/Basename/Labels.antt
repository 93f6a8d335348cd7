-- ===== src/Index/Basename/Labels.antt =====
-- The lookups of labels and of prefixes in an index that was written and opened,
-- crates/nixdex-core/src/basename_index.rs.
use mathlib.Core.List.{append_assoc}
use mathlib.Core.Path.{subst}
use nixdex.Prelude.{
  ℕ, ◌+◌, ◌≡◌, refl, sym, arith, Bool, true, some, List, [], ◌∷◌, ◌++◌, if◌then◌else◌, length,
  length-append, get_elem?, Result, ok, ◌>>=◌, Bool-cases, inl, inr,
}
use nixdex.Prelude.Bytes.{Bytes}
use nixdex.Index.{Error, Fst, Roaring}
use nixdex.Index.Postings.{header}
use nixdex.Index.Cookies.{chunks}
use nixdex.Index.Recorded.{ordinals_from, has_key}
use nixdex.Index.Prefix.{prefix_ordinals_from}
use nixdex.Index.Collect.{collect-Packed}
use nixdex.Index.Basename.{
  BasenameIndex, postings_magic, side_version, max_ordinals_per_basename, lookup_basename_ordinals,
  label_of, labels_of, lookup_basename, lookup_basename_prefix_ordinals,
}
use nixdex.Index.Basename.Build.{Packages, labels, basenames_of, each_basenames}
use nixdex.Index.Basename.Names.{
  names_bytes, names_header, length-names_header, ranges_from, get_range-entries,
}
use nixdex.Index.Basename.Lookup.{
  AreIndexable, HasCappedSizes, index_packages, stored_index, packed_packages,
  index_packages-written, stored_index-opens, stored_index-lookup_basename_ordinals,
}

-- The labels of the packages with a path of the basename.
unfoldable pub labels_with : Bytes → Packages → List Bytes
labels_with base [] = []
labels_with base ((label, paths) ∷ packages) =
    let rest = labels_with base packages in
    if has_key base (basenames_of paths) then label ∷ rest else rest

abbrev pub AreText : (Bytes → Bool) → List Bytes → Type 0
AreText is_utf8 [] = Unit
AreText is_utf8 (label ∷ rest) = (is_utf8 label ≡ true) × AreText is_utf8 rest

get_elem?-append_here :
    (before after : List Bytes) (label : Bytes)
    → get_elem? (before ++ (label ∷ after)) (length before) ≡ some label
get_elem?-append_here [] after label = refl
get_elem?-append_here (b ∷ before) after label = get_elem?-append_here before after label

module _ (f : Fst) (is_utf8 : Bytes → Bool) where
  -- An opened index with these labels.
  abbrev HasLabels : List Bytes → BasenameIndex f → Type 0
  HasLabels all index = (index.names ≡ names_bytes all) × (index.name_ranges ≡ ranges_from 12 all)

  label_of-HasLabels :
      (all : List Bytes) (index : BasenameIndex f) (ord : ℕ) (label : Bytes)
      → HasLabels all index
      → get_elem? all ord ≡ some label
      → is_utf8 label ≡ true
      → label_of f is_utf8 index ord ≡ ok label
  unfolding label_of
  label_of-HasLabels all index ord label (names, ranges) here text =
      let (start, end, range, bytes) =
        get_range-entries all (names_header (length all)) 12 ord label
          (sym (length-names_header (length all))) here in
      rw (names, ranges, range, bytes, text) refl

  labels_of-labels_with :
      (before : List Bytes) (packages : Packages) (base : Bytes) (index : BasenameIndex f)
      → HasLabels (before ++ labels packages) index
      → AreText is_utf8 (labels packages)
      → labels_of f is_utf8 index (ordinals_from (length before) base (each_basenames packages))
        ≡ ok (labels_with base packages)
  unfolding labels_of ordinals_from labels_with
  labels_of-labels_with before [] base index h text = refl
  labels_of-labels_with before ((label, paths) ∷ packages) base index h (utf8, text) =
      let all = before ++ (label ∷ labels packages) in
      let moved = append_assoc before (label ∷ []) (labels packages) in
      let next : length (before ++ (label ∷ [])) ≡ length before + 1 =
        length-append before (label ∷ []) in
      let later =
        labels_of-labels_with (before ++ (label ∷ [])) packages base index
          (subst (λ u. HasLabels u index) (sym moved) h) text in
      let later' =
        subst
          (λ n.
            labels_of f is_utf8 index (ordinals_from n base (each_basenames packages))
            ≡ ok (labels_with base packages))
          next later in
      let here =
        label_of-HasLabels all index (length before) label h
          (get_elem?-append_here before (labels packages) label) utf8 in
      elim (Bool-cases (has_key base (basenames_of paths))) [
        | inl e ↦ rw (e, here, later') refl
        | inr e ↦ rw (e, later') refl
      ]

module _ (f : Fst) (r : Roaring) (is_utf8 : Bytes → Bool) where
  -- An index that was written for at most 1,000,000 packages with labels of 1 to 65536 bytes, and
  -- whose files are within the reader's caps, opens; when the labels are text, the lookup of a basename gives
  -- the labels of the packages with a path of that basename, which is not empty, in the order in which they
  -- were recorded.
  pub stored_index-lookup_basename :
      (packages : Packages)
      → AreIndexable packages
      → HasCappedSizes (index_packages f r packages)
      → AreText is_utf8 (labels packages)
      → (base : Bytes)
      → (stored_index f r packages >>= λ index. lookup_basename f is_utf8 index base)
        ≡ ok (labels_with base packages)
  unfolding lookup_basename
  stored_index-lookup_basename packages indexable sizes text base =
      let w = packed_packages f r packages indexable in
      let opened = stored_index-opens f r packages indexable sizes w in
      let found = stored_index-lookup_basename_ordinals f r packages indexable sizes base in
      let index : BasenameIndex f = record {
        map = w.map;
        postings = header postings_magic side_version ++ chunks r w.held;
        names = names_bytes (labels packages);
        name_ranges = ranges_from 12 (labels packages);
      } in
      let found' : lookup_basename_ordinals f index base
          ≡ ok (ordinals_from 0 base (each_basenames packages)) =
        subst
          (λ (o : Result (BasenameIndex f) Error).
            (o >>= λ i. lookup_basename_ordinals f i base)
            ≡ ok (ordinals_from 0 base (each_basenames packages)))
          opened found in
      rw (opened, found') (labels_of-labels_with f is_utf8 [] packages base index (refl, refl) text)

  -- An index that was written for at most 1,000,000 packages with labels of 1 to 65536 bytes, and
  -- whose files are within the reader's caps, opens; the lookup of a prefix that is UTF-8 gives the
  -- ordinals of the packages with a path whose last component is not empty and starts with the prefix,
  -- ascending; and the lookup of any other prefix gives none.
  pub stored_index-lookup_basename_prefix_ordinals :
      (packages : Packages)
      → AreIndexable packages
      → HasCappedSizes (index_packages f r packages)
      → (prefix : Bytes)
      → (stored_index f r packages >>= λ index.
          lookup_basename_prefix_ordinals f is_utf8 r index prefix)
        ≡ ok
            (if is_utf8 prefix then prefix_ordinals_from 0 prefix (each_basenames packages) else [])
  unfolding lookup_basename_prefix_ordinals
  stored_index-lookup_basename_prefix_ordinals packages indexable sizes prefix =
      let w = packed_packages f r packages indexable in
      let (fst_fits, postings_fits, names_fits) =
        subst HasCappedSizes (index_packages-written f r packages indexable w) sizes in
      let head = header postings_magic side_version in
      let found =
        collect-Packed f r max_ordinals_per_basename head (each_basenames packages) w prefix
          (omega arith) (omega (arith, postings_fits)) in
      rw (stored_index-opens f r packages indexable sizes w, f.searched w.map prefix, found)
        (elim (Bool-cases (is_utf8 prefix)) [ inl e ↦ rw e refl | inr e ↦ rw e refl ])
