-- ===== src/Index/Basename/Lookup.antt =====
-- Lookups in an index that was written and opened, crates/nixdex-core/src/basename_index.rs.
use mathlib.Core.Path.{subst}
use nixdex.Prelude.{◌≤◌, ◌≡◌, refl, arith, some, ◌++◌, le→leb, length, Result, ok, err, ◌>>=◌}
use nixdex.Prelude.Bytes.{Bytes}
use nixdex.Index.{Error, Fst, Roaring}
use nixdex.Index.Postings.{header, validate_header-header}
use nixdex.Index.Cookies.{chunks}
use nixdex.Index.Recorded.{ordinals_from}
use nixdex.Index.Packed.{IsWithin, Packed, packed}
use nixdex.Index.Basename.{
  BasenameIndex, Sidecars, postings_magic, side_version, max_fst_bytes, max_postings_bytes,
  max_names_bytes, max_ordinals_per_basename, new, write_sidecars, open_sidecars,
  lookup_basename_ordinals,
}
use nixdex.Index.Basename.Build.{
  Packages, labels, length-labels, each_basenames, length-each_basenames, record_packages,
  record_packages-Holds,
}
use nixdex.Index.Basename.Names.{
  AreNames, names_bytes, ranges_from, write_package_names-names_bytes,
  parse_name_ranges-names_bytes,
}

-- The sizes that the reader accepts.
abbrev pub AreWithinCaps : Sidecars → Type 0
AreWithinCaps files =
    IsWithin max_fst_bytes files.fst_file
    × IsWithin max_postings_bytes files.postings_file
    × IsWithin max_names_bytes files.names_file

-- Packages that the reader accepts: with labels of 1 to 65536 bytes, and at most 1,000,000 of them.
abbrev pub AreIndexable : Packages → Type 0
AreIndexable packages = AreNames (labels packages) × (length packages ≤ max_ordinals_per_basename)

-- The same of the outcome of a write.
abbrev pub HasCappedSizes : Result Sidecars Error → Type 0
HasCappedSizes (ok files) = AreWithinCaps files
HasCappedSizes (err e) = Unit

module _ (f : Fst) (r : Roaring) where
  -- The sidecars of the packages, recorded in order.
  unfoldable pub index_packages : Packages → Result Sidecars Error
  index_packages packages = do b ← record_packages r packages (new r); write_sidecars f r b

  -- What the map and the postings of the packages are.
  abbrev pub PackedPackages : Packages → Type 0
  PackedPackages packages =
      Packed f r max_ordinals_per_basename (header postings_magic side_version)
        (each_basenames packages)

  pub packed_packages : (packages : Packages) → AreIndexable packages → PackedPackages packages
  packed_packages packages (named, few) =
      packed f r max_ordinals_per_basename (header postings_magic side_version)
        (each_basenames packages) (omega (arith, few, length-each_basenames packages)) (omega arith)

  abbrev pub written_files : (packages : Packages) → PackedPackages packages → Sidecars
  written_files packages w = record {
    fst_file = some w.fst_bytes;
    postings_file = some (header postings_magic side_version ++ chunks r w.held);
    names_file = some (names_bytes (labels packages));
  }

  pub index_packages-written :
      (packages : Packages)
      → AreIndexable packages
      → (w : PackedPackages packages) → index_packages packages ≡ ok (written_files packages w)
  unfolding index_packages new write_sidecars
  index_packages-written packages (named, few) w =
      let (b, recorded, (held, names, count)) =
        record_packages-Holds r packages (new r) (omega (arith, few)) in
      let small = length-labels packages in
      rw
        (
          recorded,
          names,
          write_package_names-names_bytes (labels packages) named (omega (arith, few, small)),
          held,
          w.recorded,
          w.written,
          w.builds,
        )
        refl

  -- The index of the packages, as a program that starts later opens it.
  unfoldable pub stored_index : Packages → Result (BasenameIndex f) Error
  stored_index packages = do files ← index_packages packages; open_sidecars f files

  pub stored_index-opens :
      (packages : Packages)
      → AreIndexable packages
      → HasCappedSizes (index_packages packages)
      → (w : PackedPackages packages)
      → stored_index packages
        ≡ ok (record {
          map = w.map;
          postings = header postings_magic side_version ++ chunks r w.held;
          names = names_bytes (labels packages);
          name_ranges = ranges_from 12 (labels packages);
        })
  unfolding stored_index open_sidecars
  stored_index-opens packages (named, few) sizes w =
      let (fst_fits, postings_fits, names_fits) =
        subst HasCappedSizes (index_packages-written packages (named, few) w) sizes in
      let small = length-labels packages in
      rw
        (
          index_packages-written packages (named, few) w,
          le→leb _ _ fst_fits,
          w.opens,
          le→leb _ _ postings_fits,
          le→leb _ _ names_fits,
        )
        (rw
          (
            validate_header-header postings_magic side_version (chunks r w.held) refl (omega arith),
            parse_name_ranges-names_bytes (labels packages) named (omega (arith, few, small))
                (omega (arith, names_fits)),
          )
          refl)

  -- An index that was written for at most 1,000,000 packages with labels of 1 to 65536 bytes, whose
  -- files are within the reader's caps, opens, and the lookup of a basename gives the ordinals of the
  -- packages with a path of that basename, ascending.
  pub stored_index-lookup_basename_ordinals :
      (packages : Packages)
      → AreIndexable packages
      → HasCappedSizes (index_packages packages)
      → (base : Bytes)
      → (stored_index packages >>= λ index. lookup_basename_ordinals f index base)
        ≡ ok (ordinals_from 0 base (each_basenames packages))
  unfolding lookup_basename_ordinals
  stored_index-lookup_basename_ordinals packages indexable sizes base =
      let w = packed_packages packages indexable in
      let (fst_fits, postings_fits, names_fits) =
        subst HasCappedSizes (index_packages-written packages indexable w) sizes in
      rw (stored_index-opens packages indexable sizes w)
        (w.reads base (omega (arith, postings_fits)))
