-- ===== src/Cdc/Build.antt =====
-- What the chunker's cuts become, and the check of a manifest, crates/nixdex-core/src/cdc.rs.
use nixdex.Prelude.{ℕ, ◌+◌, ◌-◌, ◌^◌, ◌≤◌, ◌<◌, ◌≡◌, refl, true, some, arith}
use nixdex.Prelude.{List, [], ◌∷◌, length, take, drop, ap}
use nixdex.Prelude.Bytes.{Bytes}
use nixdex.Cdc.{
  Digest, digest_eq_iff, Chunk, CdcConfig, slice, chunk_range, cut_loop, chunk_matches,
  chunks_match, verify_manifest, chunk_bytes, build_manifest,
}

-- The entries lie end to end from `pos` up to `stop`.
abbrev pub IsTiling : ℕ → List (ℕ × ℕ) → ℕ → Type 0
IsTiling pos [] stop = pos ≡ stop
IsTiling pos ((offset, size) ∷ rest) stop = (offset ≡ pos) × IsTiling (pos + size) rest stop

IsTiling-le : (entries : List (ℕ × ℕ)) (pos stop : ℕ) → IsTiling pos entries stop → pos ≤ stop
IsTiling-le [] pos stop h = omega arith
IsTiling-le ((offset, size) ∷ rest) pos stop (_, h) =
    omega (arith, IsTiling-le rest (pos + size) stop h)

module _ (blake3 : Bytes → Digest) (bytes : Bytes) where
  -- The chunks lie end to end from `pos` up to the end of the data, each with its bytes' hash.
  abbrev pub Covers : ℕ → List Chunk → Type 0
  Covers pos [] = pos ≡ length bytes
  Covers pos (c ∷ cs) =
      (c.offset ≡ pos)
      × (c.hash ≡ blake3 (take c.chunk_length (drop pos bytes)))
      × Covers (pos + c.chunk_length) cs

  pub Covers-le : (cs : List Chunk) (pos : ℕ) → Covers pos cs → pos ≤ length bytes
  Covers-le [] pos h = omega arith
  Covers-le (c ∷ cs) pos (_, _, h) = omega (arith, Covers-le cs (pos + c.chunk_length) h)

  pub slice_within :
      (pos size : ℕ)
      → pos + size ≤ length bytes
      → slice bytes pos (pos + size) ≡ some (take size (drop pos bytes))
  unfolding slice
  slice_within pos size h =
      let e : pos + size - pos ≡ size = omega arith in
      ground (arith, ap (λ (n : ℕ). take n (drop pos bytes)) e)

  pub cut_loop-Covers :
      (entries : List (ℕ × ℕ)) (pos : ℕ)
      → length bytes < 2 ^ 64
      → IsTiling pos entries (length bytes)
      → Covers pos (cut_loop blake3 bytes entries)
  unfolding cut_loop
  cut_loop-Covers [] pos small h = h
  cut_loop-Covers ((offset, size) ∷ rest) pos small (at, h) = ground (
    arith,
    slice_within pos size,
    IsTiling-le rest (pos + size) (length bytes) h,
    cut_loop-Covers rest (pos + size) small h,
  )

  chunk_range_within :
      (c : Chunk)
      → c.offset + c.chunk_length < 2 ^ 64
      → chunk_range c ≡ some (c.offset, c.offset + c.chunk_length)
  unfolding chunk_range
  chunk_range_within c small = ground arith

  pub Covers-matches :
      (cs : List Chunk) (pos : ℕ)
      → length bytes < 2 ^ 64
      → Covers pos cs
      → chunks_match blake3 bytes cs ≡ true
  unfolding chunks_match chunk_matches
  Covers-matches [] pos small h = refl
  Covers-matches (c ∷ cs) pos small (at, same, h) = ground (
    arith,
    chunk_range_within c,
    slice_within pos c.chunk_length,
    Covers-le cs (pos + c.chunk_length) h,
    Covers-matches cs (pos + c.chunk_length) small h,
    (digest_eq_iff c.hash c.hash).1 refl,
  )

module _ (blake3 : Bytes → Digest) (fast_cdc : Bytes → ℕ → ℕ → ℕ → List (ℕ × ℕ))
    (config : CdcConfig)
    (tiles : (bytes : Bytes)
      → IsTiling 0 (fast_cdc bytes config.min_size config.avg_size config.max_size) (length bytes))
    (bytes : Bytes) (small : length bytes < 2 ^ 64) where
  -- For a chunker whose entries tile the data, of less than 2^64 bytes: the chunks lie end to end
  -- from 0 to the end of the data, and each carries the hash of its bytes. (Of empty data there is
  -- no chunk.)
  pub chunk_bytes-Covers : Covers blake3 bytes 0 (chunk_bytes blake3 fast_cdc bytes config)
  unfolding chunk_bytes
  chunk_bytes-Covers = go bytes small
    where
      go :
          (b : Bytes) → length b < 2 ^ 64 → Covers blake3 b 0 (chunk_bytes blake3 fast_cdc b config)
      go [] lt = refl
      go (x ∷ xs) lt = cut_loop-Covers blake3 (x ∷ xs) _ 0 lt (tiles (x ∷ xs))

  -- Under the same conditions a manifest built from the data passes the check against the data.
  pub verify_manifest-build_manifest :
      verify_manifest blake3 bytes (build_manifest blake3 fast_cdc bytes config) ≡ true
  unfolding verify_manifest build_manifest
  verify_manifest-build_manifest =
      ground (arith, Covers-matches blake3 bytes _ 0 small chunk_bytes-Covers)
