-- ===== src/Index/Postings.antt =====
-- What the postings of the secondary indexes read back, crates/nixdex-core/src/basename_index.rs.
use mathlib.Core.List.{append_assoc}
use nixdex.Prelude.{
  ℕ, ◌+◌, ◌*◌, ◌^◌, ◌≤◌, ◌<◌, ◌≡◌, refl, sym, ap, arith, true, some, List, [], ◌∷◌, ◌++◌, ◌==◌, ltb,
  leb, lt→ltb, le→leb, ==_iff, length, length-append, ok,
}
use nixdex.Prelude.Bytes.{Bytes, bytes_eq_refl}
use nixdex.Prelude.Words.{u32_le, from_u32_le-u32_le, length-u32_le, get_range, get_range-append}
use nixdex.Index.{
  validate_header, sort_into, sort, dedup, read_u32_le, read_words, read_ordinals_at, words_bytes,
  ordinals_bytes,
}

abbrev pub AreWords : List ℕ → Type 0
AreWords [] = Unit
AreWords (n ∷ ns) = (n < 2 ^ 32) × AreWords ns

pub read_u32_le-u32_le :
    (before after : Bytes) (n at : ℕ)
    → at ≡ length before
    → n < 2 ^ 32
    → at + 4 < 2 ^ 64
    → read_u32_le (before ++ (u32_le n ++ after)) at ≡ ok n
unfolding read_u32_le
read_u32_le-u32_le before after n at e h fits = rw (e, fits_in, found, from_u32_le-u32_le n h) refl
  where
    fits_in : ltb (length before + 4) (2 ^ 64) ≡ true
    fits_in = ground (arith, e, fits)

    found :
        get_range (length before) (length before + 4) (before ++ (u32_le n ++ after))
        ≡ some (u32_le n)
    found =
        get_range-append before (u32_le n) after (length before + 4)
          (omega (arith, length-u32_le n))

read_words-words_bytes :
    (ns : List ℕ) (before after : Bytes) (off : ℕ)
    → off ≡ length before
    → AreWords ns
    → off + 4 * length ns < 2 ^ 64
    → read_words (length ns) (before ++ (words_bytes ns ++ after)) off ≡ ok ns
unfolding read_words
read_words-words_bytes [] before after off e h fits = refl
read_words-words_bytes (n ∷ ns) before after off e (first, rest) fits =
    let after' = words_bytes ns ++ after in
    let len = length-append before (u32_le n) in
    let four = length-u32_le n in
    let later : read_words (length ns) ((before ++ u32_le n) ++ after') (off + 4) ≡ ok ns =
      read_words-words_bytes ns (before ++ u32_le n) after (off + 4) (omega arith) rest
        (omega arith) in
    rw
      (
        append_assoc (u32_le n) (words_bytes ns) after,
        read_u32_le-u32_le before after' n off e first (omega arith),
      )
      (rw (sym (append_assoc before (u32_le n) after'), later) refl)

-- What one list takes in the postings.
abbrev pub chunk : List ℕ → Bytes
chunk ns = u32_le (length ns) ++ words_bytes ns

pub length-words_bytes : (ns : List ℕ) → length (words_bytes ns) ≡ 4 * length ns
length-words_bytes [] = omega arith
length-words_bytes (n ∷ ns) =
    omega (arith, length-words_bytes ns, length-append (u32_le n) (words_bytes ns), length-u32_le n)

pub read_ordinals_at-chunk :
    (max_ordinals : ℕ) (ns : List ℕ) (before after : Bytes)
    → AreWords ns
    → length ns ≤ max_ordinals
    → length ns < 2 ^ 32
    → length (before ++ (chunk ns ++ after)) < 2 ^ 64
    → read_ordinals_at max_ordinals (before ++ (chunk ns ++ after)) (length before) ≡ ok ns
unfolding read_ordinals_at
read_ordinals_at-chunk max_ordinals ns before after words few small fits =
    let n = length ns in
    let after' = words_bytes ns ++ after in
    let flat = append_assoc (u32_le n) (words_bytes ns) after in
    let all = length-append before (chunk ns ++ after) in
    let here = length-append (chunk ns) after in
    let both = length-append (u32_le n) (words_bytes ns) in
    let four = length-u32_le n in
    let body = length-words_bytes ns in
    let start = length-append before (u32_le n) in
    let total = length (before ++ (u32_le n ++ after')) in
    let whole : length (before ++ (u32_le n ++ after')) ≡ length (before ++ (chunk ns ++ after)) =
      ap (λ u. length (before ++ u)) (sym flat) in
    let room1 : ltb (length before + 4) (2 ^ 64) ≡ true = lt→ltb _ _ (omega arith) in
    let room2 : ltb (length before + 4 + n * 4) (2 ^ 64) ≡ true = lt→ltb _ _ (omega arith) in
    let inside : leb (length before + 4 + n * 4) total ≡ true = le→leb _ _ (omega arith) in
    let few' : leb n max_ordinals ≡ true = le→leb _ _ few in
    let later : read_words n ((before ++ u32_le n) ++ after') (length before + 4) ≡ ok ns =
      read_words-words_bytes ns (before ++ u32_le n) after (length before + 4) (omega arith) words
        (omega arith) in
    rw
      (
        flat,
        read_u32_le-u32_le before after' n (length before) refl small (omega arith),
        few',
        room1,
        room2,
        inside,
      )
      (rw (sym (append_assoc before (u32_le n) after'), later) refl)

-- The first eight bytes of the postings.
abbrev pub header : Bytes → ℕ → Bytes
header magic version = magic ++ u32_le version

pub validate_header-header :
    (magic : Bytes) (version : ℕ) (rest : Bytes)
    → length magic ≡ 4
    → version < 2 ^ 32
    → validate_header magic version (header magic version ++ rest) ≡ ok tt
unfolding validate_header
validate_header-header magic version rest four small =
    let word = u32_le version in
    let flat = append_assoc magic word rest in
    let long : leb 8 (length (magic ++ (word ++ rest))) ≡ true = le→leb _ _ (
      omega (
        arith,
        four,
        length-u32_le version,
        length-append magic (word ++ rest),
        length-append word rest,
      )) in
    let found : get_range 0 4 (magic ++ (word ++ rest)) ≡ some magic =
      get_range-append [] magic (word ++ rest) 4 (omega (arith, four)) in
    let same : (version == version) ≡ true = (==_iff version version).1 refl in
    rw
      (
        flat,
        long,
        found,
        bytes_eq_refl magic,
        read_u32_le-u32_le magic rest version 4 (sym four) small (omega arith),
        same,
      )
      refl

abbrev pub AllOver : ℕ → List ℕ → Type 0
AllOver n [] = Unit
AllOver n (o ∷ os) = (n < o) × AllOver n os

-- Ascending, each number once.
abbrev pub AreStrict : List ℕ → Type 0
AreStrict [] = Unit
AreStrict (n ∷ ns) = AllOver n ns × AreStrict ns

sort_into-first : (n : ℕ) (ns : List ℕ) → AllOver n ns → sort_into n ns ≡ n ∷ ns
unfolding sort_into
sort_into-first n [] h = refl
sort_into-first n (o ∷ os) (h, rest) = ground (arith, h)

pub sort-strict : (ns : List ℕ) → AreStrict ns → sort ns ≡ ns
unfolding sort
sort-strict [] h = refl
sort-strict (n ∷ ns) (first, rest) = rw (sort-strict ns rest) (sort_into-first n ns first)

pub dedup-strict : (ns : List ℕ) → AreStrict ns → dedup ns ≡ ns
unfolding dedup
dedup-strict [] h = refl
dedup-strict (n ∷ []) h = refl
dedup-strict (n ∷ o ∷ os) ((lt, over), rest) = rw (dedup-strict (o ∷ os) rest) (ground (arith, lt))

pub ordinals_bytes-chunk :
    (ns : List ℕ) → AreStrict ns → length ns < 2 ^ 32 → ordinals_bytes ns ≡ ok (chunk ns)
unfolding ordinals_bytes
ordinals_bytes-chunk ns strict small =
    rw (sort-strict ns strict, dedup-strict ns strict) (ground (arith, small))

-- A list that fits the format.
abbrev pub IsPackable : ℕ → List ℕ → Type 0
IsPackable max_ordinals ns = AreStrict ns × AreWords ns × (length ns ≤ max_ordinals)
