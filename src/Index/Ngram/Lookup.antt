-- ===== src/Index/Ngram/Lookup.antt =====
-- Lookups in an index that was written and opened, crates/nixdex-core/src/ngram_index.rs.
use mathlib.Core.Path.{subst}
use nixdex.Prelude.{
  ℕ, zero, suc, ◌+◌, ◌≡◌, refl, sym, ap, ◌∙◌, arith, true, false, Option, none, some, List, [], ◌∷◌,
  ◌++◌, ltb, le→leb, if◌then◌else◌, length, get_elem?, Result, ok, err, ◌>>=◌, Bool-cases, inl, inr,
}
use nixdex.Prelude.Bytes.{Bytes}
use nixdex.Prelude.SortedMap.{lookup, IsAscending}
use nixdex.Index.{Error, Fst, Roaring, has, IndexFiles}
use nixdex.Index.Postings.{header}
use nixdex.Index.Recorded.{
  record_keys, record_items, record_items-IsAscending, posting-record_items, ordinals_from,
}
use nixdex.Index.Trigram.{trigrams}
use nixdex.Index.Trigram.Common.{has_all, common_from, common_from-has_all}
use nixdex.Index.Trigram.Windows.{has_all-trigrams, has_all-append, has_all-after, trigrams_short}
use nixdex.Index.Ngram.{
  NgramIndex, NgramIndexBuilder, postings_magic, side_version, max_fst_bytes, max_postings_bytes,
  record_package, write_sidecars, open_sidecars, gather, intersection, candidate_ordinals,
}
use nixdex.Index.Ngram.Postings.{
  blobs, blob_cookies, blob_cookies-IsAscending, AreSerializable, ReadsAs, ReadsAs-blob_cookies,
  write_bitmaps-blobs, read_postings_version-header,
}
use nixdex.Index.Ngram.Gathered.{intersection-gather}
use nixdex.Index.Packed.{IsWithin}
use nixdex.Index.Cookies.{posting}
use nixdex.Index.Trigram.Lookup.{is_candidate}

-- The windows of all the paths of a package.
unfoldable pub windows : List Bytes → List Bytes
windows [] = []
windows (path ∷ paths) = trigrams path ++ windows paths

abbrev pub each_windows : List (List Bytes) → List (List Bytes)
each_windows [] = []
each_windows (paths ∷ packages) = windows paths ∷ each_windows packages

-- The sizes that the reader accepts.
abbrev pub HasCappedSizes : Result IndexFiles Error → Type 0
HasCappedSizes (ok files) =
    IsWithin max_fst_bytes files.fst_file × IsWithin max_postings_bytes files.postings_file
HasCappedSizes (err e) = Unit

module _ (r : Roaring) where
  -- The paths of each package, the first with ordinal `n`.
  unfoldable pub record_packages : ℕ → List (List Bytes) → NgramIndexBuilder r → NgramIndexBuilder r
  record_packages n [] m = m
  record_packages n (paths ∷ packages) m =
      record_packages (n + 1) packages (record_package r n paths m)

  record_keys-append :
      (n : ℕ) (keys more : List Bytes) (m : NgramIndexBuilder r)
      → record_keys r n (keys ++ more) m ≡ record_keys r n more (record_keys r n keys m)
  unfolding record_keys
  record_keys-append n [] more m = refl
  record_keys-append n (key ∷ keys) more m = record_keys-append n keys more _

  record_package-record_keys :
      (n : ℕ) (paths : List Bytes) (m : NgramIndexBuilder r)
      → record_package r n paths m ≡ record_keys r n (windows paths) m
  unfolding record_package record_keys windows
  record_package-record_keys n [] m = refl
  record_package-record_keys n (path ∷ paths) m = elim (Bool-cases (ltb (length path) 3)) [
    | inl e ↦ rw (e, trigrams_short path e) (record_package-record_keys n paths m)
    | inr e ↦
        rw (e, record_keys-append n (trigrams path) (windows paths) m)
          (record_package-record_keys n paths (record_keys r n (trigrams path) m))
  ]

  record_packages-record_items :
      (n : ℕ) (packages : List (List Bytes)) (m : NgramIndexBuilder r)
      → record_packages n packages m ≡ record_items r n (each_windows packages) m
  unfolding record_packages record_items
  record_packages-record_items n [] m = refl
  record_packages-record_items n (paths ∷ packages) m =
      rw (record_package-record_keys n paths m)
        (record_packages-record_items (n + 1) packages (record_keys r n (windows paths) m))

  abbrev pub iter_some : Option (r.Bitmap) → Option (List ℕ)
  iter_some none = none
  iter_some (some s) = some (r.iter s)

module _ (f : Fst) (r : Roaring) where
  unfoldable pub index_packages : List (List Bytes) → Result IndexFiles Error
  index_packages packages = write_sidecars f r (record_packages r 0 packages [])

  -- The ordinals that the index of the packages gives for a pattern, as a program that starts later
  -- finds them; none when the pattern is too short to look up.
  unfoldable pub candidates : List (List Bytes) → Bytes → Result (Option (List ℕ)) Error
  candidates packages pattern = do
    files ← index_packages packages
    index ← open_sidecars f files
    found ← candidate_ordinals f r index pattern
    ok (iter_some r found)

  -- What the pattern's windows give.
  abbrev pub of_windows : List (List Bytes) → Bytes → Option (List ℕ)
  of_windows packages pattern =
      if ltb (length pattern) 3
      then none
      else some (common_from 0 (trigrams pattern) (each_windows packages))

  found_some :
      {A : Type 0} (o : Result A Error) (next : A → Result (r.Bitmap) Error) (ids : List ℕ)
      → (o >>= λ a. next a >>= λ s. ok (r.iter s)) ≡ ok ids
      → ((o >>= λ a. next a >>= λ s. ok (some s)) >>= λ found. ok (iter_some r found))
        ≡ ok (some ids)
  found_some (ok a) next ids h = lift (next a) h
    where
      lift :
          (o : Result (r.Bitmap) Error)
          → (o >>= λ s. ok (r.iter s)) ≡ ok ids
          → ((o >>= λ s. ok (some s)) >>= λ found. ok (iter_some r found)) ≡ ok (some ids)
      lift (ok s) h = ap (λ u. u >>= λ os. ok (some os)) h
      lift (err e) h = cc
  found_some (err e) next ids h = cc

  candidate_ordinals-ReadsAs :
      (packages : List (List Bytes)) (index : NgramIndex f)
      → index.version ≡ side_version
      → ((key : Bytes)
          → ReadsAs r index.postings
              (f.get index.map key)
              (ordinals_from 0 key (each_windows packages)))
      → (pattern : Bytes)
      → (candidate_ordinals f r index pattern >>= λ o. ok (iter_some r o))
        ≡ ok (of_windows packages pattern)
  unfolding candidate_ordinals trigrams
  candidate_ordinals-ReadsAs packages index ver reads [] = refl
  candidate_ordinals-ReadsAs packages index ver reads (a ∷ []) = refl
  candidate_ordinals-ReadsAs packages index ver reads (a ∷ b ∷ []) = refl
  candidate_ordinals-ReadsAs packages index ver reads (a ∷ b ∷ c ∷ rest) =
      let long : ltb (length (a ∷ b ∷ c ∷ rest)) 3 ≡ false = ground arith in
      let first : Bytes = a ∷ b ∷ c ∷ [] in
      rw (long, ver)
        (found_some (gather f index.map index.postings [] (first ∷ trigrams (b ∷ c ∷ rest)))
          (intersection r index.postings side_version)
          (common_from 0 (first ∷ trigrams (b ∷ c ∷ rest)) (each_windows packages))
          (intersection-gather f r index.postings index.map (each_windows packages) reads first
            (trigrams (b ∷ c ∷ rest))))

  -- An index that was written, its encoded sets being at most 256 MiB each, and whose files are within
  -- the reader's caps, opens, and a pattern of three bytes or more gives the ordinals of the packages
  -- that have every three-byte window of the pattern in some path, ascending; a shorter pattern gives no set.
  pub candidates-of_windows :
      (packages : List (List Bytes))
      → AreSerializable r (record_packages r 0 packages [])
      → HasCappedSizes (index_packages packages)
      → (pattern : Bytes) → candidates packages pattern ≡ ok (of_windows packages pattern)
  unfolding candidates index_packages open_sidecars write_sidecars
  candidates-of_windows packages small sizes pattern =
      let m = record_packages r 0 packages [] in
      let head = header postings_magic side_version in
      let recorded = record_packages-record_items r 0 packages [] in
      let ascending : IsAscending m =
        subst IsAscending (sym recorded)
          (record_items-IsAscending r 0 (each_windows packages) [] tt) in
      let (fst_bytes, built, map, opened, streamed, got) =
        f.built (blob_cookies r (length head) m)
          (blob_cookies-IsAscending r (length head) m ascending) in
      let files : IndexFiles = record {
        fst_file = some fst_bytes;
        postings_file = some (head ++ blobs r m);
      } in
      let written : index_packages packages ≡ ok files =
        rw (write_bitmaps-blobs r m head small, built) refl in
      let (fst_fits, postings_fits) = subst HasCappedSizes written sizes in
      let index : NgramIndex f = record {
        map = map;
        postings = head ++ blobs r m;
        version = side_version;
      } in
      let opens : open_sidecars f files ≡ ok index =
        rw
          (
            le→leb _ _ fst_fits,
            opened,
            le→leb _ _ postings_fits,
            read_postings_version-header (blobs r m),
          )
          refl in
      let held : (key : Bytes)
          → posting r (lookup key m) ≡ ordinals_from 0 key (each_windows packages) =
        λ key.
          ap (λ u. posting r (lookup key u)) recorded
          ∙ posting-record_items r (each_windows packages) key in
      let reads : (key : Bytes)
          → ReadsAs r (head ++ blobs r m) (f.get map key)
              (ordinals_from 0 key (each_windows packages)) =
        λ key.
          subst (λ o. ReadsAs r (head ++ blobs r m) o (ordinals_from 0 key (each_windows packages)))
            (sym (got key))
            (subst (ReadsAs r (head ++ blobs r m) (lookup key (blob_cookies r (length head) m)))
              (held key)
              (ReadsAs-blob_cookies r m head key small (omega (arith, postings_fits)))) in
      rw (written, opens) (candidate_ordinals-ReadsAs packages index refl reads pattern)

has_all-windows :
    (keys : List Bytes) (paths : List Bytes) (j : ℕ) (path : Bytes)
    → get_elem? paths j ≡ some path
    → has_all keys (trigrams path) ≡ true
    → has_all keys (windows paths) ≡ true
unfolding windows
has_all-windows keys [] j path h all = cc
has_all-windows keys (first ∷ paths) zero path h all =
    let same : first ≡ path = cc in
    has_all-append keys (trigrams first) (windows paths)
      (subst (λ u. has_all keys (trigrams u) ≡ true) (sym same) all)
has_all-windows keys (first ∷ paths) (suc j) path h all =
    has_all-after keys (windows paths) (trigrams first) (has_all-windows keys paths j path h all)

get_elem?-each_windows :
    (packages : List (List Bytes)) (i : ℕ) (paths : List Bytes)
    → get_elem? packages i ≡ some paths
    → get_elem? (each_windows packages) i ≡ some (windows paths)
get_elem?-each_windows [] i paths h = cc
get_elem?-each_windows (first ∷ packages) zero paths h =
    let same : first ≡ paths = cc in ap (λ u. some (windows u)) same
get_elem?-each_windows (first ∷ packages) (suc i) paths h =
    get_elem?-each_windows packages i paths h

module _ (f : Fst) (r : Roaring) where
  -- When an index was written, its encoded sets being at most 256 MiB each, and its files are within the
  -- reader's caps, a package with a path that contains the pattern is always a candidate.
  pub package-is_candidate :
      (packages : List (List Bytes))
      → AreSerializable r (record_packages r 0 packages [])
      → HasCappedSizes (index_packages f r packages)
      → (i j : ℕ) (paths : List Bytes) (before pattern after : Bytes)
      → get_elem? packages i ≡ some paths
      → get_elem? paths j ≡ some (before ++ (pattern ++ after))
      → is_candidate i (candidates f r packages pattern) ≡ true
  package-is_candidate packages small sizes i j paths before pattern after h at =
      rw (candidates-of_windows f r packages small sizes pattern)
        (elim (Bool-cases (ltb (length pattern) 3)) [
          | inl e ↦ rw e refl
          | inr e ↦ rw e (
              subst (λ k. has k (common_from 0 (trigrams pattern) (each_windows packages)) ≡ true)
                (omega arith)
                (common_from-has_all 0 i (trigrams pattern) (each_windows packages) (windows paths)
                  (get_elem?-each_windows packages i paths h)
                  (has_all-windows (trigrams pattern) paths j (before ++ (pattern ++ after)) at
                    (has_all-trigrams before pattern after))))
        ])
