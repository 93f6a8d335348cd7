-- ===== src/Index/Basename/Names.antt =====
-- The table of package labels, `write_package_names` and `parse_name_ranges` of
-- crates/nixdex-core/src/basename_index.rs.
use mathlib.Core.List.{append_assoc}
use mathlib.Core.Path.{subst}
use nixdex.Prelude.{
  ℕ, zero, suc, ◌+◌, ◌-◌, ◌*◌, ◌^◌, ◌≤◌, ◌<◌, ◌≡◌, refl, sym, ap, ◌∙◌, arith, true, false, some,
  List, [], ◌∷◌, ◌++◌, ◌==◌, ltb, leb, lt→ltb, le→leb, length, length-append, get_elem?, ok,
}
use nixdex.Prelude.Bytes.{Bytes, bytes_eq}
use nixdex.Prelude.Words.{u32_le, length-u32_le, get_range, get_range-append}
use nixdex.Index.{read_u32_le}
use nixdex.Index.Postings.{read_u32_le-u32_le}
use nixdex.Index.Basename.{
  side_version, names_magic, max_name_bytes, max_name_count, name_entries, write_package_names,
  name_ranges_from, parse_name_ranges,
}

-- Labels that the reader accepts: not empty, and at most 64 KiB long.
abbrev pub AreNames : List Bytes → Type 0
AreNames [] = Unit
AreNames (name ∷ names) = (0 < length name) × (length name ≤ max_name_bytes) × AreNames names

unfoldable pub entries : List Bytes → Bytes
entries [] = []
entries (name ∷ names) = u32_le (length name) ++ (name ++ entries names)

unfoldable pub ranges_from : ℕ → List Bytes → List (ℕ × ℕ)
ranges_from pos [] = []
ranges_from pos (name ∷ names) =
    (pos + 4, pos + 4 + length name) ∷ ranges_from (pos + 4 + length name) names

name_entries-entries :
    (names : List Bytes) → AreNames names → name_entries names ≡ ok (entries names)
unfolding name_entries entries
name_entries-entries [] h = refl
name_entries-entries (name ∷ names) (some_bytes, short, rest) =
    let room : ltb (length name) (2 ^ 32) ≡ true = lt→ltb _ _ (omega (arith, short)) in
    rw (room, name_entries-entries names rest) refl

name_ranges_from-entries :
    (names : List Bytes) (before : Bytes) (pos : ℕ)
    → pos ≡ length before
    → AreNames names
    → length (before ++ entries names) < 2 ^ 64
    → name_ranges_from (length names) (before ++ entries names) pos ≡ ok (ranges_from pos names)
unfolding name_ranges_from entries ranges_from
name_ranges_from-entries [] before pos e h fits = refl
name_ranges_from-entries (name ∷ names) before pos e (some_bytes, short, rest) fits =
    let n = length name in
    let word = u32_le n in
    let four = length-u32_le n in
    let all = before ++ (word ++ (name ++ entries names)) in
    let len1 = length-append before (word ++ (name ++ entries names)) in
    let len2 = length-append word (name ++ entries names) in
    let len3 = length-append name (entries names) in
    let len4 = length-append before word in
    let len5 = length-append (before ++ word) name in
    let moved : ((before ++ word) ++ name) ++ entries names ≡ all =
      append_assoc (before ++ word) name (entries names)
      ∙ append_assoc before word (name ++ entries names) in
    let fits' : length (((before ++ word) ++ name) ++ entries names) < 2 ^ 64 =
      subst (λ u. length u < 2 ^ 64) (sym moved) fits in
    let later : name_ranges_from (length names) (((before ++ word) ++ name) ++ entries names)
          (pos + 4 + n)
        ≡ ok (ranges_from (pos + 4 + n) names) =
      name_ranges_from-entries names ((before ++ word) ++ name) (pos + 4 + n) (omega arith) rest
        fits' in
    let later' =
      subst
        (λ u.
          name_ranges_from (length names) u (pos + 4 + n) ≡ ok (ranges_from (pos + 4 + n) names))
        moved later in
    let filled : (n == 0) ≡ false = ground (arith, some_bytes) in
    let short' : leb n max_name_bytes ≡ true = le→leb _ _ short in
    let room : ltb (pos + 4 + n) (2 ^ 64) ≡ true = lt→ltb _ _ (omega arith) in
    let inside : leb (pos + 4 + n) (length all) ≡ true = le→leb _ _ (omega arith) in
    rw
      (
        read_u32_le-u32_le before (name ++ entries names) n pos e (omega arith) (omega arith),
        filled,
        short',
        room,
        inside,
        later',
      )
      refl

-- A label is in the bytes of its range.
pub get_range-entries :
    (names : List Bytes) (before : Bytes) (pos i : ℕ) (name : Bytes)
    → pos ≡ length before
    → get_elem? names i ≡ some name
    → (start : ℕ) × (end : ℕ) × (get_elem? (ranges_from pos names) i ≡ some (start, end))
      × (get_range start end (before ++ entries names) ≡ some name)
unfolding entries ranges_from
get_range-entries [] before pos i name e h = cc
get_range-entries (first ∷ names) before pos zero name e h =
    let word = u32_le (length first) in
    let here : get_range (length (before ++ word)) (length (before ++ word) + length first)
          ((before ++ word) ++ (first ++ entries names))
        ≡ some first =
      get_range-append (before ++ word) first (entries names)
        (length (before ++ word) + length first) refl in
    let start : length (before ++ word) ≡ pos + 4 =
      omega (arith, e, length-append before word, length-u32_le (length first)) in
    let here' =
      subst
        (λ u.
          get_range u (u + length first) ((before ++ word) ++ (first ++ entries names))
          ≡ some first)
        start here in
    let moved = append_assoc before word (first ++ entries names) in
    (
      pos + 4,
      pos + 4 + length first,
      refl,
      subst (λ u. get_range (pos + 4) (pos + 4 + length first) u ≡ some first) moved here' ∙ h,
    )
get_range-entries (first ∷ names) before pos (suc i) name e h =
    let word = u32_le (length first) in
    let len1 = length-append before word in
    let len2 = length-append (before ++ word) first in
    let four = length-u32_le (length first) in
    let moved : ((before ++ word) ++ first) ++ entries names
        ≡ before ++ (word ++ (first ++ entries names)) =
      append_assoc (before ++ word) first (entries names)
      ∙ append_assoc before word (first ++ entries names) in
    let (start, end, found, held) =
      get_range-entries names ((before ++ word) ++ first) (pos + 4 + length first) i name
        (omega arith) h in
    (start, end, found, subst (λ u. get_range start end u ≡ some name) moved held)

-- What the file holds before the labels.
abbrev pub names_header : ℕ → Bytes
names_header count = names_magic ++ (u32_le side_version ++ u32_le count)

-- The file of the labels.
abbrev pub names_bytes : List Bytes → Bytes
names_bytes names = names_header (length names) ++ entries names

pub length-names_header : (count : ℕ) → length (names_header count) ≡ 12
length-names_header count = omega (
  arith,
  length-append (u32_le side_version) (u32_le count),
  length-u32_le side_version,
  length-u32_le count,
)

pub write_package_names-names_bytes :
    (names : List Bytes)
    → AreNames names
    → length names < 2 ^ 32
    → write_package_names names ≡ ok (names_bytes names)
unfolding write_package_names
write_package_names-names_bytes names h small =
    let room : ltb (length names) (2 ^ 32) ≡ true = lt→ltb _ _ small in
    rw (room, name_entries-entries names h)
      (ap ok (
        ap (λ u. names_magic ++ u)
          (sym (append_assoc (u32_le side_version) (u32_le (length names)) (entries names)))))

four_each : (names : List Bytes) → 4 * length names ≤ length (entries names)
unfolding entries
four_each [] = omega arith
four_each (name ∷ names) = omega (
  arith,
  four_each names,
  length-append (u32_le (length name)) (name ++ entries names),
  length-append name (entries names),
  length-u32_le (length name),
)

pub parse_name_ranges-names_bytes :
    (names : List Bytes)
    → AreNames names
    → length names ≤ max_name_count
    → length (names_bytes names) < 2 ^ 64
    → parse_name_ranges (names_bytes names) ≡ ok (ranges_from 12 names)
unfolding parse_name_ranges bytes_eq
parse_name_ranges-names_bytes names h few fits =
    let n = length names in
    let tail = u32_le n ++ entries names in
    let magic : get_range 0 4 (names_bytes names) ≡ some names_magic =
      get_range-append [] names_magic ((u32_le side_version ++ u32_le n) ++ entries names) 4 refl in
    let ver : read_u32_le (names_bytes names) 4 ≡ ok side_version =
      subst (λ u. read_u32_le (names_magic ++ u) 4 ≡ ok side_version)
        (sym (append_assoc (u32_le side_version) (u32_le n) (entries names)))
        (read_u32_le-u32_le names_magic tail side_version 4 refl (omega arith) (omega arith)) in
    let eight : 8 ≡ length (names_magic ++ u32_le side_version) =
      omega (arith, length-append names_magic (u32_le side_version), length-u32_le side_version) in
    let count : read_u32_le (names_bytes names) 8 ≡ ok n =
      subst (λ u. read_u32_le (names_magic ++ u) 8 ≡ ok n)
        (sym (append_assoc (u32_le side_version) (u32_le n) (entries names)))
        (read_u32_le-u32_le (names_magic ++ u32_le side_version) (entries names) n 8 eight
          (omega (arith, few)) (omega arith)) in
    let few' : leb n max_name_count ≡ true = le→leb _ _ few in
    let room : ltb (n * 4) (2 ^ 64) ≡ true = lt→ltb _ _ (omega (arith, few)) in
    let total = length-append (names_header n) (entries names) in
    let inside : leb (n * 4) (length (names_bytes names) - 12) ≡ true =
      le→leb _ _ (omega (arith, total, length-names_header n, four_each names)) in
    let body =
      name_ranges_from-entries names (names_header n) 12 (sym (length-names_header n)) h fits in
    rw (magic, ver, count, few', room, inside) body
