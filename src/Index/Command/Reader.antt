-- ===== src/Index/Command/Reader.antt =====
-- Opening and querying an index, crates/nixdex-core/src/command_index.rs.
use nixdex.Prelude.{
  ℕ, zero, suc, ◌+◌, ◌-◌, ◌*◌, ◌^◌, Bool, true, false, Option, none, some, List, [], ◌∷◌, ◌==◌, ltb,
  leb, length, get_elem?, Result, ok, err, ◌>>=◌, require, ok_or,
}
use nixdex.Prelude.Bytes.{Bytes, bytes_eq}
use nixdex.Prelude.Words.{get_range}
use nixdex.Index.{
  Error, Fst, missing, corrupt_fst, file_too_large, short_header, bad_magic, bad_version,
  too_many_names, name_too_long, name_truncated, offset_overflow, ordinal_out_of_range, bad_flag,
  read_u32_le, validate_header, read_at,
}
use nixdex.Index.Command.{
  CommandProvider, Sidecars, postings_magic, providers_magic, side_version, max_providers_bytes,
  max_provider_count, max_label_bytes, max_postings_bytes, max_providers_per_command, max_fst_bytes,
}

-- The byte after a provider's labels.
abbrev pub toplevel_flag : Option ℕ → Result Bool Error
toplevel_flag none = err name_truncated
toplevel_flag (some zero) = ok false
toplevel_flag (some (suc zero)) = ok true
toplevel_flag (some (suc (suc v))) = err bad_flag

-- The attribute's range, the output's, and the flag.
abbrev pub ProviderRange : Type 0
ProviderRange = (ℕ × ℕ) × (ℕ × ℕ) × Bool

-- A label of the table: where it begins and ends.
unfoldable pub label_range : Bytes → ℕ → ℕ → Result (ℕ × ℕ) Error
label_range bytes pos extra = do
  len ← read_u32_le bytes pos
  _ ← require (leb len max_label_bytes) name_too_long
  _ ← require (ltb (pos + 4 + len) (2 ^ 64)) offset_overflow
  _ ← require (leb (pos + 4 + len + extra) (length bytes)) name_truncated
  ok (pos + 4, pos + 4 + len)

-- The loop of `parse_provider_ranges`, `pos` being the offset of the next entry.
unfoldable pub provider_ranges_from : ℕ → Bytes → ℕ → Result (List ProviderRange) Error
provider_ranges_from zero bytes pos = ok []
provider_ranges_from (suc count) bytes pos = do
  (attr_start, attr_end) ← label_range bytes pos 0
  (out_body, out_end) ← label_range bytes attr_end 1
  toplevel ← toplevel_flag (get_elem? bytes out_end)
  ranges ← provider_ranges_from count bytes (out_end + 1)
  ok (((attr_start, attr_end), (out_body, out_end), toplevel) ∷ ranges)

unfoldable pub parse_provider_ranges : Bytes → Result (List ProviderRange) Error
parse_provider_ranges bytes = do
  magic ← ok_or (get_range 0 4 bytes) short_header
  _ ← require (bytes_eq magic providers_magic) bad_magic
  ver ← read_u32_le bytes 4
  _ ← require (ver == side_version) bad_version
  count ← read_u32_le bytes 8
  _ ← require (leb count max_provider_count) too_many_names
  _ ← require (ltb (count * 4) (2 ^ 64)) too_many_names
  _ ← require (leb (count * 4) (length bytes - 12)) too_many_names
  provider_ranges_from count bytes 12

pub record CommandIndex (f : Fst) : Type 0 where
  pub map : f.Map
  pub postings : Bytes
  pub providers : Bytes
  pub provider_ranges : List ProviderRange

module _ (f : Fst) where
  unfoldable pub open_sidecars : Sidecars → Result (CommandIndex f) Error
  open_sidecars files = do
    fst_data ← ok_or files.fst_file missing
    postings ← ok_or files.postings_file missing
    providers ← ok_or files.providers_file missing
    _ ← require (leb (length fst_data) max_fst_bytes) file_too_large
    map ← ok_or (f.open_map fst_data) corrupt_fst
    _ ← require (leb (length postings) max_postings_bytes) file_too_large
    _ ← validate_header postings_magic side_version postings
    _ ← require (leb (length providers) max_providers_bytes) file_too_large
    ranges ← parse_provider_ranges providers
    ok (record { map = map; postings = postings; providers = providers; provider_ranges = ranges })

  module _ (is_utf8 : Bytes → Bool) where
    unfoldable pub provider_at : CommandIndex f → ℕ → Result CommandProvider Error
    provider_at index id = do
      ((a_start, a_end), (o_start, o_end), toplevel) ←
          ok_or (get_elem? index.provider_ranges id) ordinal_out_of_range
      attr_bytes ← ok_or (get_range a_start a_end index.providers) ordinal_out_of_range
      output_bytes ← ok_or (get_range o_start o_end index.providers) ordinal_out_of_range
      _ ← require (is_utf8 attr_bytes) ordinal_out_of_range
      _ ← require (is_utf8 output_bytes) ordinal_out_of_range
      ok (record { attr = attr_bytes; output = output_bytes; toplevel = toplevel })

    unfoldable pub providers_at : CommandIndex f → List ℕ → Result (List CommandProvider) Error
    providers_at index [] = ok []
    providers_at index (id ∷ ids) = do
      provider ← provider_at index id
      providers ← providers_at index ids
      ok (provider ∷ providers)

    unfoldable pub lookup_command : CommandIndex f → Bytes → Result (List CommandProvider) Error
    lookup_command index command = do
      ids ← read_at max_providers_per_command index.postings (f.get index.map command)
      providers_at index ids
