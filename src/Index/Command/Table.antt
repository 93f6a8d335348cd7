-- ===== src/Index/Command/Table.antt =====
-- The table of providers, `write_provider_table` and `parse_provider_ranges` of
-- crates/nixdex-core/src/command_index.rs.
use mathlib.Core.List.{append_assoc}
use mathlib.Core.Path.{subst}
use nixdex.Prelude.{
  ℕ, ◌-◌, ◌*◌, ◌^◌, ◌≤◌, ◌<◌, ◌≡◌, refl, sym, ap, arith, true, some, List, [], ◌∷◌, ◌++◌, ltb, leb,
  lt→ltb, le→leb, length, length-append, ok,
}
use nixdex.Prelude.Bytes.{Bytes, bytes_eq}
use nixdex.Prelude.Words.{u32_le, length-u32_le, get_range, get_range-append}
use nixdex.Index.{read_u32_le}
use nixdex.Index.Postings.{read_u32_le-u32_le}
use nixdex.Index.Command.{
  CommandProvider, side_version, providers_magic, max_provider_count, flag_byte,
  write_provider_table,
}
use nixdex.Index.Command.Reader.{parse_provider_ranges}
use nixdex.Index.Command.Entries.{
  AreLabelled, label_bytes, entries, ranges_from, provider_entries-entries, length-label_bytes,
  provider_ranges_from-entries,
}

-- What the file holds before the providers, and the file.
abbrev pub table_header : ℕ → Bytes
table_header count = providers_magic ++ (u32_le side_version ++ u32_le count)

abbrev pub table_bytes : List CommandProvider → Bytes
table_bytes providers = table_header (length providers) ++ entries providers

pub length-table_header : (count : ℕ) → length (table_header count) ≡ 12
length-table_header count = omega (
  arith,
  length-append (u32_le side_version) (u32_le count),
  length-u32_le side_version,
  length-u32_le count,
)

pub write_provider_table-table_bytes :
    (providers : List CommandProvider)
    → AreLabelled providers
    → length providers < 2 ^ 32
    → write_provider_table providers ≡ ok (table_bytes providers)
unfolding write_provider_table
write_provider_table-table_bytes providers h small =
    let room : ltb (length providers) (2 ^ 32) ≡ true = lt→ltb _ _ small in
    rw (room, provider_entries-entries providers h)
      (ap ok (
        ap (λ u. providers_magic ++ u)
          (sym
            (append_assoc (u32_le side_version) (u32_le (length providers)) (entries providers)))))

four_each : (providers : List CommandProvider) → 4 * length providers ≤ length (entries providers)
unfolding entries
four_each [] = omega arith
four_each (p ∷ providers) = omega (
  arith,
  four_each providers,
  length-append (label_bytes p.attr)
      (label_bytes p.output ++ (flag_byte p.toplevel ∷ entries providers)),
  length-append (label_bytes p.output) (flag_byte p.toplevel ∷ entries providers),
  length-label_bytes p.attr,
)

pub parse_provider_ranges-table_bytes :
    (providers : List CommandProvider)
    → AreLabelled providers
    → length providers ≤ max_provider_count
    → length (table_bytes providers) < 2 ^ 64
    → parse_provider_ranges (table_bytes providers) ≡ ok (ranges_from 12 providers)
unfolding parse_provider_ranges bytes_eq
parse_provider_ranges-table_bytes providers h few fits =
    let n = length providers in
    let tail = u32_le n ++ entries providers in
    let magic : get_range 0 4 (table_bytes providers) ≡ some providers_magic =
      get_range-append [] providers_magic ((u32_le side_version ++ u32_le n) ++ entries providers) 4
        refl in
    let flat = sym (append_assoc (u32_le side_version) (u32_le n) (entries providers)) in
    let ver : read_u32_le (table_bytes providers) 4 ≡ ok side_version =
      subst (λ u. read_u32_le (providers_magic ++ u) 4 ≡ ok side_version) flat
        (read_u32_le-u32_le providers_magic tail side_version 4 refl (omega arith) (omega arith)) in
    let eight : 8 ≡ length (providers_magic ++ u32_le side_version) =
      omega (arith, length-u32_le side_version) in
    let count : read_u32_le (table_bytes providers) 8 ≡ ok n =
      subst (λ u. read_u32_le (providers_magic ++ u) 8 ≡ ok n) flat
        (read_u32_le-u32_le (providers_magic ++ u32_le side_version) (entries providers) n 8 eight
          (omega (arith, few)) (omega arith)) in
    let few' : leb n max_provider_count ≡ true = le→leb _ _ few in
    let room : ltb (n * 4) (2 ^ 64) ≡ true = lt→ltb _ _ (omega (arith, few)) in
    let total = length-append (table_header n) (entries providers) in
    let inside : leb (n * 4) (length (table_bytes providers) - 12) ≡ true =
      le→leb _ _ (omega (arith, total, length-table_header n, four_each providers)) in
    rw (magic, ver, count, few', room, inside)
      (provider_ranges_from-entries providers (table_header n) 12 (sym (length-table_header n)) h
        fits)
