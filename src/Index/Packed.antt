-- ===== src/Index/Packed.antt =====
-- The postings and the map of the items' keys, as the writers of crates/nixdex-core (basename_index.rs,
-- path_index.rs, path_trigram_index.rs) make them and the readers find them.
use mathlib.Core.Path.{subst}
use nixdex.Prelude.{
  ℕ, ◌^◌, ◌≤◌, ◌<◌, ◌≡◌, le→leb, refl, sym, ap, ◌∙◌, Option, none, some, List, [], ◌++◌, length, ok,
}
use nixdex.Prelude.Bytes.{Bytes}
use nixdex.Prelude.SortedMap.{SortedMap, IsAscending}
use nixdex.Index.{Fst, Roaring, write_postings, read_at, IndexFiles, write_index, open_index}
use nixdex.Index.Postings.{header, validate_header-header, IsPackable}
use nixdex.Index.Cookies.{
  ArePackable, chunks, cookies, write_postings-chunks, read_at-cookies, cookies-IsAscending,
  each-ArePackable,
}
use nixdex.Index.Recorded.{
  ordinals_from, ordinals_from-IsPackable, record_items, record_items-IsAscending,
  posting-record_items,
}

-- A file that is there is at most that large.
abbrev pub IsWithin : ℕ → Option Bytes → Type 0
IsWithin max none = Unit
IsWithin max (some bytes) = length bytes ≤ max

module _ (f : Fst) (r : Roaring) (max_ordinals : ℕ) (head : Bytes) where
  pub record Packed (items : List (List Bytes)) : Type 0 where
    pub held : SortedMap (r.Bitmap)
    pub recorded : record_items r 0 items [] ≡ held
    pub ascending : IsAscending held
    pub packable : ArePackable r max_ordinals held
    pub written :
        write_postings r held head ≡ ok (head ++ chunks r held, cookies r (length head) held)
    pub fst_bytes : Bytes
    pub map : f.Map
    pub builds : f.build (cookies r (length head) held) ≡ some fst_bytes
    pub opens : f.open_map fst_bytes ≡ some map
    pub streams : f.stream map ≡ cookies r (length head) held
    pub reads :
        (key : Bytes)
        → length (head ++ chunks r held) < 2 ^ 64
        → read_at max_ordinals (head ++ chunks r held) (f.get map key)
          ≡ ok (ordinals_from 0 key items)

  pub packed :
      (items : List (List Bytes))
      → length items ≤ max_ordinals
      → max_ordinals < 2 ^ 32
      → Packed items
  packed items few small =
      let m = record_items r 0 items [] in
      let ascending = record_items-IsAscending r 0 items [] tt in
      let packable = each-ArePackable r max_ordinals m ascending (λ key.
        subst (IsPackable max_ordinals) (sym (posting-record_items r items key))
          (ordinals_from-IsPackable key items max_ordinals few small)) in
      let (fst_bytes, built, map, opened, streamed, got) =
        f.built (cookies r (length head) m) (cookies-IsAscending r (length head) m ascending) in
      record {
        held = m;
        recorded = refl;
        ascending = ascending;
        packable = packable;
        written = write_postings-chunks r max_ordinals small m head packable;
        fst_bytes = fst_bytes;
        map = map;
        builds = built;
        opens = opened;
        streams = streamed;
        reads = λ key fits. rw (got key) (
            read_at-cookies r max_ordinals small m head key packable fits
            ∙ ap ok (posting-record_items r items key));
      }

-- The files of an index without a table of names.
module _ (f : Fst) (r : Roaring) (max_ordinals : ℕ) (magic : Bytes) (version : ℕ) where
  abbrev pub packed_files :
      (items : List (List Bytes))
      → Packed f r max_ordinals (header magic version) items
      → IndexFiles
  packed_files items w = record {
    fst_file = some w.fst_bytes;
    postings_file = some (header magic version ++ chunks r w.held);
  }

  pub write_index-packed_files :
      (items : List (List Bytes)) (w : Packed f r max_ordinals (header magic version) items)
      → write_index f r magic version (record_items r 0 items []) ≡ ok (packed_files items w)
  unfolding write_index
  write_index-packed_files items w = rw (w.recorded, w.written, w.builds) refl

  pub open_index-packed_files :
      (items : List (List Bytes)) (w : Packed f r max_ordinals (header magic version) items)
      (max_fst_bytes max_postings_bytes : ℕ)
      → length magic ≡ 4
      → version < 2 ^ 32
      → length w.fst_bytes ≤ max_fst_bytes
      → length (header magic version ++ chunks r w.held) ≤ max_postings_bytes
      → open_index f magic version max_fst_bytes max_postings_bytes (packed_files items w)
        ≡ ok (record { map = w.map; postings = header magic version ++ chunks r w.held })
  unfolding open_index
  open_index-packed_files items w max_fst_bytes max_postings_bytes four small fst_fits
        postings_fits =
      rw
        (
          le→leb _ _ fst_fits,
          w.opens,
          le→leb _ _ postings_fits,
          validate_header-header magic version (chunks r w.held) four small,
        )
        refl
