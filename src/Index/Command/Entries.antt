-- ===== src/Index/Command/Entries.antt =====
-- The entries of the table of providers, the loops of `write_provider_table` and
-- `parse_provider_ranges` of crates/nixdex-core/src/command_index.rs.
use mathlib.Core.List.{append_assoc}
use mathlib.Core.Path.{subst}
use nixdex.Prelude.{
  ℕ, zero, suc, ◌+◌, ◌^◌, ◌≤◌, ◌<◌, ◌≡◌, refl, sym, ap, ◌∙◌, arith, Bool, true, false, some, List,
  [], ◌∷◌, ◌++◌, ltb, leb, lt→ltb, le→leb, length, length-append, get_elem?, ok,
}
use nixdex.Prelude.Bytes.{Bytes}
use nixdex.Prelude.Words.{u32_le, length-u32_le, get_range, get_range-append}
use nixdex.Index.{read_u32_le}
use nixdex.Index.Postings.{read_u32_le-u32_le}
use nixdex.Index.Command.{CommandProvider, max_label_bytes, flag_byte, provider_entries}
use nixdex.Index.Command.Reader.{ProviderRange, toplevel_flag, label_range, provider_ranges_from}

-- Labels of at most 64 KiB.
abbrev pub AreLabelled : List CommandProvider → Type 0
AreLabelled [] = Unit
AreLabelled (p ∷ providers) =
    (length p.attr ≤ max_label_bytes) × (length p.output ≤ max_label_bytes) × AreLabelled providers

-- A label with its length before it.
abbrev pub label_bytes : Bytes → Bytes
label_bytes label = u32_le (length label) ++ label

abbrev entry : CommandProvider → Bytes → Bytes
entry p rest = label_bytes p.attr ++ (label_bytes p.output ++ (flag_byte p.toplevel ∷ rest))

unfoldable pub entries : List CommandProvider → Bytes
entries [] = []
entries (p ∷ providers) = entry p (entries providers)

-- Where the output's label and the next entry begin.
abbrev output_at : ℕ → CommandProvider → ℕ
output_at pos p = pos + 4 + length p.attr

abbrev next_at : ℕ → CommandProvider → ℕ
next_at pos p = output_at pos p + 4 + length p.output + 1

unfoldable pub ranges_from : ℕ → List CommandProvider → List ProviderRange
ranges_from pos [] = []
ranges_from pos (p ∷ providers) =
    (
      (pos + 4, pos + 4 + length p.attr),
      (output_at pos p + 4, output_at pos p + 4 + length p.output),
      p.toplevel,
    )
    ∷ ranges_from (next_at pos p) providers

pub provider_entries-entries :
    (providers : List CommandProvider)
    → AreLabelled providers
    → provider_entries providers ≡ ok (entries providers)
unfolding provider_entries entries
provider_entries-entries [] h = refl
provider_entries-entries (p ∷ providers) (attr, output, rest) =
    let small1 : ltb (length p.attr) (2 ^ 32) ≡ true = lt→ltb _ _ (omega (arith, attr)) in
    let small2 : ltb (length p.output) (2 ^ 32) ≡ true = lt→ltb _ _ (omega (arith, output)) in
    let flat =
      append_assoc (u32_le (length p.attr)) p.attr
        (label_bytes p.output ++ (flag_byte p.toplevel ∷ entries providers)) in
    let flat2 =
      append_assoc (u32_le (length p.output)) p.output (flag_byte p.toplevel ∷ entries providers) in
    rw (le→leb _ _ attr, le→leb _ _ output, small1, small2, provider_entries-entries providers rest)
      (ap ok (sym (flat ∙ ap (λ u. u32_le (length p.attr) ++ (p.attr ++ u)) flat2)))

-- A label read back.
label_range-label_bytes :
    (before label after : Bytes) (pos extra : ℕ)
    → pos ≡ length before
    → length label ≤ max_label_bytes
    → extra ≤ length after
    → length (before ++ (label_bytes label ++ after)) < 2 ^ 64
    → label_range (before ++ (label_bytes label ++ after)) pos extra
      ≡ ok (pos + 4, pos + 4 + length label)
unfolding label_range
label_range-label_bytes before label after pos extra e short more fits =
    let n = length label in
    let flat = append_assoc (u32_le n) label after in
    let len1 = length-append before (label_bytes label ++ after) in
    let len2 = length-append (label_bytes label) after in
    let len3 = length-append (u32_le n) label in
    let four = length-u32_le n in
    let all = before ++ (label_bytes label ++ after) in
    let word : read_u32_le (before ++ (label_bytes label ++ after)) pos ≡ ok n =
      subst (λ u. read_u32_le (before ++ u) pos ≡ ok n) (sym flat)
        (read_u32_le-u32_le before (label ++ after) n pos e (omega (arith, short)) (omega arith)) in
    let room : ltb (pos + 4 + n) (2 ^ 64) ≡ true = lt→ltb _ _ (omega arith) in
    let inside : leb (pos + 4 + n + extra) (length all) ≡ true = le→leb _ _ (omega arith) in
    rw (word, le→leb _ _ short, room, inside) refl

-- And its bytes.
get_range-label_bytes :
    (before label after : Bytes) (pos : ℕ)
    → pos ≡ length before
    → get_range (pos + 4) (pos + 4 + length label) (before ++ (label_bytes label ++ after))
      ≡ some label
get_range-label_bytes before label after pos e =
    let n = length label in
    let start : length (before ++ u32_le n) ≡ pos + 4 =
      omega (arith, e, length-append before (u32_le n), length-u32_le n) in
    let found : get_range (length (before ++ u32_le n)) (length (before ++ u32_le n) + n)
          ((before ++ u32_le n) ++ (label ++ after))
        ≡ some label =
      get_range-append (before ++ u32_le n) label after (length (before ++ u32_le n) + n) refl in
    let moved : (before ++ u32_le n) ++ (label ++ after) ≡ before ++ (label_bytes label ++ after) =
      append_assoc before (u32_le n) (label ++ after)
      ∙ ap (λ u. before ++ u) (sym (append_assoc (u32_le n) label after)) in
    subst (λ u. get_range (pos + 4) (pos + 4 + n) u ≡ some label) moved
      (subst (λ at. get_range at (at + n) ((before ++ u32_le n) ++ (label ++ after)) ≡ some label)
        start found)

pub length-label_bytes : (label : Bytes) → length (label_bytes label) ≡ 4 + length label
length-label_bytes label =
    omega (arith, length-append (u32_le (length label)) label, length-u32_le (length label))

get_elem?-append_here :
    (before after : Bytes) (b i : ℕ)
    → i ≡ length before
    → get_elem? (before ++ (b ∷ after)) i ≡ some b
get_elem?-append_here before after b i e =
    subst (λ u. get_elem? (before ++ (b ∷ after)) u ≡ some b) (sym e) (go before)
  where
    go : (before : Bytes) → get_elem? (before ++ (b ∷ after)) (length before) ≡ some b
    go [] = refl
    go (c ∷ before) = go before

toplevel_flag-flag_byte : (flag : Bool) → toplevel_flag (some (flag_byte flag)) ≡ ok flag
toplevel_flag-flag_byte true = refl
toplevel_flag-flag_byte false = refl

-- The bytes around an entry's parts.
abbrev through_attr : Bytes → CommandProvider → Bytes
through_attr before p = before ++ label_bytes p.attr

abbrev through_output : Bytes → CommandProvider → Bytes
through_output before p = through_attr before p ++ label_bytes p.output

abbrev through_entry : Bytes → CommandProvider → Bytes
through_entry before p = through_output before p ++ (flag_byte p.toplevel ∷ [])

at_output :
    (before : Bytes) (p : CommandProvider) (rest : Bytes)
    → through_attr before p ++ (label_bytes p.output ++ (flag_byte p.toplevel ∷ rest))
      ≡ before ++ entry p rest
at_output before p rest =
    append_assoc before (label_bytes p.attr) (label_bytes p.output ++ (flag_byte p.toplevel ∷ rest))

at_flag :
    (before : Bytes) (p : CommandProvider) (rest : Bytes)
    → through_output before p ++ (flag_byte p.toplevel ∷ rest) ≡ before ++ entry p rest
at_flag before p rest =
    append_assoc (through_attr before p) (label_bytes p.output) (flag_byte p.toplevel ∷ rest)
    ∙ at_output before p rest

at_next :
    (before : Bytes) (p : CommandProvider) (rest : Bytes)
    → through_entry before p ++ rest ≡ before ++ entry p rest
at_next before p rest =
    append_assoc (through_output before p) (flag_byte p.toplevel ∷ []) rest ∙ at_flag before p rest

length-through_attr :
    (before : Bytes) (p : CommandProvider)
    → length (through_attr before p) ≡ output_at (length before) p
length-through_attr before p =
    omega (arith, length-append before (label_bytes p.attr), length-label_bytes p.attr)

length-through_output :
    (before : Bytes) (p : CommandProvider)
    → length (through_output before p) ≡ output_at (length before) p + 4 + length p.output
length-through_output before p = omega (
  arith,
  length-through_attr before p,
  length-append (through_attr before p) (label_bytes p.output),
  length-label_bytes p.output,
)

length-through_entry :
    (before : Bytes) (p : CommandProvider)
    → length (through_entry before p) ≡ next_at (length before) p
length-through_entry before p = omega (
  arith,
  length-through_output before p,
  length-append (through_output before p) (flag_byte p.toplevel ∷ []),
)

pub provider_ranges_from-entries :
    (providers : List CommandProvider) (before : Bytes) (pos : ℕ)
    → pos ≡ length before
    → AreLabelled providers
    → length (before ++ entries providers) < 2 ^ 64
    → provider_ranges_from (length providers) (before ++ entries providers) pos
      ≡ ok (ranges_from pos providers)
unfolding provider_ranges_from entries ranges_from
provider_ranges_from-entries [] before pos e h fits = refl
provider_ranges_from-entries (p ∷ providers) before pos e (attr, output, rest) fits =
    let tail = entries providers in
    let all = before ++ entry p tail in
    let after_attr = label_bytes p.output ++ (flag_byte p.toplevel ∷ tail) in
    let len1 = length-through_attr before p in
    let len2 = length-through_output before p in
    let len3 = length-through_entry before p in
    let first : label_range all pos 0 ≡ ok (pos + 4, output_at pos p) =
      label_range-label_bytes before p.attr after_attr pos 0 e attr (omega arith) fits in
    let fits2 : length (through_attr before p ++ after_attr) < 2 ^ 64 =
      subst (λ u. length u < 2 ^ 64) (sym (at_output before p tail)) fits in
    let second : label_range all (output_at pos p) 1
        ≡ ok (output_at pos p + 4, output_at pos p + 4 + length p.output) =
      subst
        (λ u.
          label_range u (output_at pos p) 1
          ≡ ok (output_at pos p + 4, output_at pos p + 4 + length p.output))
        (at_output before p tail)
        (label_range-label_bytes (through_attr before p) p.output (flag_byte p.toplevel ∷ tail)
          (output_at pos p) 1 (omega (arith, e, len1)) output (omega arith) fits2) in
    let flag : get_elem? all (output_at pos p + 4 + length p.output) ≡ some (flag_byte p.toplevel) =
      subst (λ u. get_elem? u (output_at pos p + 4 + length p.output) ≡ some (flag_byte p.toplevel))
        (at_flag before p tail)
        (get_elem?-append_here (through_output before p) tail (flag_byte p.toplevel)
          (output_at pos p + 4 + length p.output) (omega (arith, e, len2))) in
    let fits3 : length (through_entry before p ++ tail) < 2 ^ 64 =
      subst (λ u. length u < 2 ^ 64) (sym (at_next before p tail)) fits in
    let later : provider_ranges_from (length providers) all (next_at pos p)
        ≡ ok (ranges_from (next_at pos p) providers) =
      subst
        (λ u.
          provider_ranges_from (length providers) u (next_at pos p)
          ≡ ok (ranges_from (next_at pos p) providers))
        (at_next before p tail)
        (provider_ranges_from-entries providers (through_entry before p) (next_at pos p)
          (omega (arith, e, len3)) rest fits3) in
    rw (first, second, flag, toplevel_flag-flag_byte p.toplevel, later) refl

-- A provider is in the bytes of its ranges.
pub get_range-entries :
    (providers : List CommandProvider) (before : Bytes) (pos i : ℕ) (p : CommandProvider)
    → pos ≡ length before
    → get_elem? providers i ≡ some p
    → (a : ℕ) × (a' : ℕ) × (o : ℕ) × (o' : ℕ) × (get_elem? (ranges_from pos providers) i
        ≡ some ((a, a'), (o, o'), p.toplevel))
      × (get_range a a' (before ++ entries providers) ≡ some p.attr)
      × (get_range o o' (before ++ entries providers) ≡ some p.output)
unfolding entries ranges_from
get_range-entries [] before pos i p e h = cc
get_range-entries (first ∷ providers) before pos zero p e h =
    let tail = entries providers in
    let same : first ≡ p = cc in
    let after_attr = label_bytes p.output ++ (flag_byte p.toplevel ∷ tail) in
    let len1 = length-through_attr before p in
    rw same (
      pos + 4,
      output_at pos p,
      output_at pos p + 4,
      output_at pos p + 4 + length p.output,
      refl,
      get_range-label_bytes before p.attr after_attr pos e,
      subst
          (λ u.
            get_range (output_at pos p + 4) (output_at pos p + 4 + length p.output) u
            ≡ some p.output)
          (at_output before p tail)
          (get_range-label_bytes (through_attr before p) p.output (flag_byte p.toplevel ∷ tail)
            (output_at pos p) (omega (arith, e, len1))),
    )
get_range-entries (first ∷ providers) before pos (suc i) p e h =
    let tail = entries providers in
    let (a, a', o, o', found, attr, output) =
      get_range-entries providers (through_entry before first) (next_at pos first) i p
        (omega (arith, e, length-through_entry before first)) h in
    let moved = at_next before first tail in
    (
      a,
      a',
      o,
      o',
      found,
      subst (λ u. get_range a a' u ≡ some p.attr) moved attr,
      subst (λ u. get_range o o' u ≡ some p.output) moved output,
    )
