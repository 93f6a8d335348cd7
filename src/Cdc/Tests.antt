-- ===== src/Cdc/Tests.antt =====
-- Runs of crates/nixdex-core/src/cdc.rs, with a chunker of one chunk and of three-byte chunks.
use nixdex.Prelude.{ℕ, ◌≡◌, refl, true, false, List, [], ◌∷◌, ◌⊎◌, ◌%◌, ◌+◌, ok, err, length, arith}
use nixdex.Prelude.Bytes.{Bytes, codes, bytes_eq}
use nixdex.Cdc.{
  Digest, digest_eq, ChunkManifest, Error, len_to_u64, default_config, build_manifest, chunk_bytes,
  verify_manifest, reconstruct, slice, cut_loop, chunks_match, chunk_matches, reassemble_loop,
}
use nixdex.Cdc.Build.{IsTiling, Covers, chunk_bytes-Covers, verify_manifest-build_manifest}
use nixdex.Cdc.Reassembly.{
  Fits, concat, Collides, reconstruct_iff, reconstruct-build_manifest_sound,
  verify_manifest-build_manifest_sound, payloads, reconstruct-payloads,
}

-- The digest that begins with the sum of the bytes.
abbrev sum_of : Bytes → ℕ
sum_of [] = 0
sum_of (b ∷ bs) = b + sum_of bs

abbrev checksum : Bytes → Digest
checksum b = (
  (sum_of b % 256)
      ∷ 0
      ∷ 0
      ∷ 0
      ∷ 0
      ∷ 0
      ∷ 0
      ∷ 0
      ∷ 0
      ∷ 0
      ∷ 0
      ∷ 0
      ∷ 0
      ∷ 0
      ∷ 0
      ∷ 0
      ∷ 0
      ∷ 0
      ∷ 0
      ∷ 0
      ∷ 0
      ∷ 0
      ∷ 0
      ∷ 0
      ∷ 0
      ∷ 0
      ∷ 0
      ∷ 0
      ∷ 0
      ∷ 0
      ∷ 0
      ∷ 0
      ∷ [],
  refl,
)

-- The first byte is a chunk of its own.
abbrev head_cuts : Bytes → ℕ → ℕ → ℕ → List (ℕ × ℕ)
head_cuts [] lo avg hi = []
head_cuts (x ∷ xs) lo avg hi = (0, 1) ∷ (1, length xs) ∷ []

head_cuts-IsTiling : (b : Bytes) → IsTiling 0 (head_cuts b 4096 65536 262144) (length b)
head_cuts-IsTiling [] = omega arith
head_cuts-IsTiling (x ∷ xs) = omega arith

abbrev hey : Bytes
hey = codes "hey"

abbrev manifest : ChunkManifest
manifest = build_manifest checksum head_cuts hey default_config

chunk_bytes-Covers_example :
    Covers checksum hey 0 (chunk_bytes checksum head_cuts hey default_config)
chunk_bytes-Covers_example =
    chunk_bytes-Covers checksum head_cuts default_config head_cuts-IsTiling hey (omega arith)

verify_manifest-build_manifest_example : verify_manifest checksum hey manifest ≡ true
verify_manifest-build_manifest_example =
    verify_manifest-build_manifest checksum head_cuts default_config head_cuts-IsTiling hey
      (omega arith)

corrupted : verify_manifest checksum (codes "hex") manifest ≡ false
unfolding verify_manifest chunks_match chunk_matches digest_eq bytes_eq build_manifest chunk_bytes
    cut_loop
corrupted = refl

fetched : reconstruct checksum (codes "h" ∷ codes "ey" ∷ []) manifest ≡ ok hey
unfolding reconstruct reassemble_loop digest_eq bytes_eq build_manifest chunk_bytes cut_loop slice
fetched = refl

swapped : reconstruct checksum (codes "ey" ∷ codes "h" ∷ []) manifest ≡ err Error.hash_mismatch
unfolding reconstruct reassemble_loop digest_eq bytes_eq build_manifest chunk_bytes cut_loop slice
swapped = refl

reconstruct_iff_example :
    (reconstruct checksum (codes "h" ∷ codes "ey" ∷ []) manifest ≡ ok hey
      → Fits checksum manifest.chunks (codes "h" ∷ codes "ey" ∷ [])
        × (hey ≡ concat (codes "h" ∷ codes "ey" ∷ []))
        × (len_to_u64 (length hey) ≡ manifest.total_length))
    × (Fits checksum manifest.chunks (codes "h" ∷ codes "ey" ∷ [])
          × (hey ≡ concat (codes "h" ∷ codes "ey" ∷ []))
          × (len_to_u64 (length hey) ≡ manifest.total_length)
        → reconstruct checksum (codes "h" ∷ codes "ey" ∷ []) manifest ≡ ok hey)
reconstruct_iff_example = reconstruct_iff checksum (codes "h" ∷ codes "ey" ∷ []) manifest hey

-- The letters of the second payload are exchanged, which this hash does not see.
collided : reconstruct checksum (codes "h" ∷ codes "ye" ∷ []) manifest ≡ ok (codes "hye")
unfolding reconstruct reassemble_loop digest_eq bytes_eq build_manifest chunk_bytes cut_loop slice
collided = refl

reconstruct-build_manifest_sound_example :
    (codes "hye" ≡ hey)
    ⊎ Collides checksum hey
        (chunk_bytes checksum head_cuts hey default_config)
        (codes "h" ∷ codes "ye" ∷ [])
reconstruct-build_manifest_sound_example =
    reconstruct-build_manifest_sound checksum head_cuts default_config head_cuts-IsTiling hey
      (omega arith) (codes "h" ∷ codes "ye" ∷ []) (codes "hye") collided

hey_accepted : verify_manifest checksum hey manifest ≡ true
unfolding verify_manifest chunks_match chunk_matches digest_eq bytes_eq build_manifest chunk_bytes
    cut_loop
hey_accepted = refl

verify_manifest-build_manifest_sound_example :
    (hey ≡ codes "hey")
    ⊎ Collides checksum hey
        (chunk_bytes checksum head_cuts hey default_config)
        (payloads hey (chunk_bytes checksum head_cuts hey default_config))
verify_manifest-build_manifest_sound_example =
    verify_manifest-build_manifest_sound checksum head_cuts default_config head_cuts-IsTiling hey
      (omega arith) hey (omega arith) hey_accepted

reconstruct-payloads_example :
    reconstruct checksum (payloads hey (chunk_bytes checksum head_cuts hey default_config)) manifest
    ≡ ok hey
reconstruct-payloads_example =
    reconstruct-payloads checksum head_cuts default_config head_cuts-IsTiling hey (omega arith)
