-- ===== src/Cdc.antt =====
-- crates/nixdex-core/src/cdc.rs: content-defined chunking of an index blob, and the manifest that
-- a client checks and reassembles a blob with.
-- BLAKE3 and FastCDC are other packages: they are the parameters `blake3` and `fast_cdc` (the list
-- of `(offset, length)` entries that the chunker yields for the sizes min, avg, max). `usize` has
-- 64 bits, and the sum of two `u64` wraps, as in the release profile.
pub mod Build
pub mod Reassembly
mod Tests
use nixdex.Prelude.{
  ℕ, zero, suc, ◌+◌, ◌-◌, ◌*◌, ◌%◌, ◌^◌, Bool, true, false, not, ◌&&◌, Option, none, some,
}
use nixdex.Prelude.{List, [], ◌∷◌, ◌++◌, ◌==◌, ltb, leb, if◌then◌else◌, length, take, drop}
use nixdex.Prelude.{Result, ok, err}
use nixdex.Prelude.Bytes.{Bytes, bytes_eq, bytes_eq_iff}
use nixdex.Prelude.{◌≡◌, ◌↔◌, ap}
use mathlib.Core.HLevel.{Σ_prop_path}
use native.Mathlib.Nat.{ℕ_set}

abbrev pub default_min_chunk : ℕ
default_min_chunk = 4 * 1024

abbrev pub default_avg_chunk : ℕ
default_avg_chunk = 64 * 1024

abbrev pub default_max_chunk : ℕ
default_max_chunk = 256 * 1024

-- The reasons that `Error::Manifest` carries; `Error::Io` belongs to reading files.
pub data Error : Type 0 where
  wrong_count hash_mismatch length_mismatch total_mismatch : Error

pub record CdcConfig : Type 0 where
  pub min_size : ℕ
  pub avg_size : ℕ
  pub max_size : ℕ

abbrev pub default_config : CdcConfig
default_config = record {
  min_size = default_min_chunk;
  avg_size = default_avg_chunk;
  max_size = default_max_chunk;
}

-- `[u8; 32]`
abbrev pub Digest : Type 0
Digest = (bytes : Bytes) × (length bytes ≡ 32)

-- `==` on digests.
pub digest_eq : Digest → Digest → Bool
digest_eq d e = bytes_eq d.0 e.0

pub digest_eq_iff : (d e : Digest) → (digest_eq d e ≡ true) ↔ (d ≡ e)
unfolding digest_eq
digest_eq_iff d e = (
  λ h. Σ_prop_path (λ bytes. ℕ_set (length bytes) 32) ((bytes_eq_iff d.0 e.0).0 h),
  λ same. (bytes_eq_iff d.0 e.0).1 (ap (λ (x : Digest). x.0) same),
)

pub record Chunk : Type 0 where
  pub offset : ℕ
  pub chunk_length : ℕ
  pub hash : Digest

pub record ChunkManifest : Type 0 where
  pub total_length : ℕ
  pub chunks : List Chunk

pub len : ChunkManifest → ℕ
len m = length m.chunks

pub is_empty : ChunkManifest → Bool
is_empty m = elim m.chunks [ [] ↦ true | _ ↦ false ]

pub to_usize : ℕ → Option ℕ
to_usize value = if ltb value (2 ^ 64) then some value else none

pub len_to_u64 : ℕ → ℕ
len_to_u64 value = if ltb value (2 ^ 64) then value else 2 ^ 64 - 1

chunk_end : ℕ → Option ℕ → Option (ℕ × ℕ)
chunk_end start none = none
chunk_end start (some stop) = some (start, stop)

range_from : ℕ → Option ℕ → Option (ℕ × ℕ)
unfolding chunk_end to_usize
range_from sum none = none
range_from sum (some start) = chunk_end start (to_usize sum)

pub chunk_range : Chunk → Option (ℕ × ℕ)
unfolding range_from to_usize
chunk_range c = range_from ((c.offset + c.chunk_length) % 2 ^ 64) (to_usize c.offset)

-- `data.get(start..stop)`
pub slice : Bytes → ℕ → ℕ → Option Bytes
slice bytes start stop =
    if leb start stop && leb stop (length bytes)
    then some (take (stop - start) (drop start bytes))
    else none

module _ (blake3 : Bytes → Digest) where
  -- The loop over the chunker's entries; an entry outside the data ends it.
  pub cut_loop : Bytes → List (ℕ × ℕ) → List Chunk
  unfolding len_to_u64
  cut_loop bytes [] = []
  cut_loop bytes ((offset, size) ∷ rest) = elim (slice bytes offset (offset + size)) [
    | none ↦ []
    | some part ↦
        (record { offset = len_to_u64 offset; chunk_length = len_to_u64 size; hash = blake3 part })
        ∷ cut_loop bytes rest
  ]

  -- The test of one chunk in `verify_manifest`.
  pub chunk_matches : Bytes → Chunk → Bool
  unfolding chunk_range slice
  chunk_matches bytes c = elim (chunk_range c) [
    | none ↦ false
    | some (start, stop) ↦ elim (slice bytes start stop) [
      | none ↦ false
      | some part ↦ digest_eq (blake3 part) c.hash
    ]
  ]

  pub chunks_match : Bytes → List Chunk → Bool
  chunks_match bytes [] = true
  chunks_match bytes (c ∷ rest) =
      let rest_match = chunks_match bytes rest in
      if not (chunk_matches bytes c) then false else rest_match

  pub verify_manifest : Bytes → ChunkManifest → Bool
  unfolding len_to_u64
  verify_manifest bytes m =
      if not (m.total_length == len_to_u64 (length bytes))
      then false
      else chunks_match bytes m.chunks

  -- The loop over `manifest.chunks.iter().zip(chunk_data)`.
  pub reassemble_loop : List Chunk → List Bytes → Bytes → Result Bytes Error
  unfolding len_to_u64
  reassemble_loop [] payloads out = ok out
  reassemble_loop (c ∷ cs) [] out = ok out
  reassemble_loop (c ∷ cs) (payload ∷ payloads) out =
      let rest = reassemble_loop cs payloads (out ++ payload) in
      if not (digest_eq (blake3 payload) c.hash)
      then err hash_mismatch
      else if not (len_to_u64 (length payload) == c.chunk_length)
      then err length_mismatch
      else rest

  check_total : ℕ → Result Bytes Error → Result Bytes Error
  unfolding len_to_u64
  check_total total (err e) = err e
  check_total total (ok out) =
      if len_to_u64 (length out) == total then ok out else err total_mismatch

  pub reconstruct : List Bytes → ChunkManifest → Result Bytes Error
  unfolding check_total
  reconstruct chunk_data m =
      if not (length chunk_data == length m.chunks)
      then err wrong_count
      else check_total m.total_length (reassemble_loop m.chunks chunk_data [])

  module _ (fast_cdc : Bytes → ℕ → ℕ → ℕ → List (ℕ × ℕ)) where
    pub chunk_bytes : Bytes → CdcConfig → List Chunk
    chunk_bytes [] config = []
    chunk_bytes (b ∷ bs) config =
        cut_loop (b ∷ bs) (fast_cdc (b ∷ bs) config.min_size config.avg_size config.max_size)

    pub build_manifest : Bytes → CdcConfig → ChunkManifest
    unfolding len_to_u64
    build_manifest bytes config = record {
      total_length = len_to_u64 (length bytes);
      chunks = chunk_bytes bytes config;
    }
