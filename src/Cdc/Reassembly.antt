-- ===== src/Cdc/Reassembly.antt =====
-- Reassembling a blob from payloads, and what a manifest pins down, crates/nixdex-core/src/cdc.rs.
use mathlib.Core.List.{append-nil, append_assoc}
use nixdex.Prelude.{
  ℕ, zero, suc, ◌+◌, ◌^◌, ◌≤◌, ◌<◌, ◌≡◌, ◌↔◌, ◌≢◌, ◌⊎◌, inl, inr, Bool-cases, refl, true, arith,
}
use nixdex.Prelude.{
  List, [], ◌∷◌, ◌++◌, length, take, drop, length-take, length-drop, ap, sym, ◌∙◌, ok,
}
use nixdex.Prelude.Bytes.{Bytes, bytes_eq, bytes_eq_iff}
use nixdex.Cdc.{
  Digest, digest_eq, digest_eq_iff, Chunk, ChunkManifest, CdcConfig, chunk_range, chunk_matches,
  chunks_match, verify_manifest, chunk_bytes, build_manifest, len_to_u64, reassemble_loop,
  reconstruct,
}
use nixdex.Cdc.Build.{IsTiling, Covers, Covers-le, slice_within, chunk_bytes-Covers}

abbrev pub concat : List Bytes → Bytes
concat [] = []
concat (p ∷ ps) = p ++ concat ps

module _ (blake3 : Bytes → Digest) where
  -- One payload for each chunk, with its hash and its length.
  abbrev pub Fits : List Chunk → List Bytes → Type 0
  Fits [] [] = Unit
  Fits [] (p ∷ ps) = ⊥
  Fits (c ∷ cs) [] = ⊥
  Fits (c ∷ cs) (p ∷ ps) =
      (blake3 p ≡ c.hash) × (len_to_u64 (length p) ≡ c.chunk_length) × Fits cs ps

  Fits-reassemble :
      (cs : List Chunk) (ps : List Bytes) (out : Bytes)
      → Fits cs ps
      → reassemble_loop blake3 cs ps out ≡ ok (out ++ concat ps)
  unfolding reassemble_loop
  Fits-reassemble [] [] out h = rw append-nil
  Fits-reassemble [] (p ∷ ps) out h = elim h [ ]
  Fits-reassemble (c ∷ cs) [] out h = elim h [ ]
  Fits-reassemble (c ∷ cs) (p ∷ ps) out (same, size, h) = ground (
    arith,
    digest_eq_iff (blake3 p) c.hash,
    Fits-reassemble cs ps (out ++ p) h,
    append_assoc out p (concat ps),
  )

  reassemble-Fits :
      (cs : List Chunk) (ps : List Bytes) (out result : Bytes)
      → length ps ≡ length cs
      → reassemble_loop blake3 cs ps out ≡ ok result
      → Fits cs ps
  unfolding reassemble_loop
  reassemble-Fits [] [] out result n h = tt
  reassemble-Fits [] (p ∷ ps) out result n h = absurd (omega arith)
  reassemble-Fits (c ∷ cs) [] out result n h = absurd (omega arith)
  reassemble-Fits (c ∷ cs) (p ∷ ps) out result n h =
      ground (arith, digest_eq_iff (blake3 p) c.hash, reassemble-Fits cs ps (out ++ p) result)

  length-Fits : (cs : List Chunk) (ps : List Bytes) → Fits cs ps → length ps ≡ length cs
  length-Fits [] [] h = refl
  length-Fits [] (p ∷ ps) h = elim h [ ]
  length-Fits (c ∷ cs) [] h = elim h [ ]
  length-Fits (c ∷ cs) (p ∷ ps) h = omega (arith, length-Fits cs ps h.2)

  -- `reconstruct` succeeds exactly when there is one payload for each chunk, each has its chunk's
  -- hash and length, and the lengths add up to the recorded total; the blob is then the
  -- concatenation of the payloads.
  pub reconstruct_iff :
      (ps : List Bytes) (m : ChunkManifest) (blob : Bytes)
      → (reconstruct blake3 ps m ≡ ok blob)
        ↔ (Fits m.chunks ps × (blob ≡ concat ps) × (len_to_u64 (length blob) ≡ m.total_length))
  unfolding reconstruct
  reconstruct_iff ps m blob = (
    λ h. ground (arith, reassemble-Fits m.chunks ps [] blob, Fits-reassemble m.chunks ps []),
    λ h. ground (arith, length-Fits m.chunks ps h.0, Fits-reassemble m.chunks ps [] h.0),
  )

take-add : (m n : ℕ) (xs : Bytes) → take m xs ++ take n (drop m xs) ≡ take (m + n) xs
take-add zero n xs = let e : 0 + n ≡ n = omega arith in rw e
take-add (suc m) n [] = let e : suc m + n ≡ suc (m + n) = omega arith in rw e (take_nil n)
  where
    take_nil : (k : ℕ) → take {A = ℕ} k [] ≡ []
    take_nil zero = refl
    take_nil (suc k) = refl
take-add (suc m) n (x ∷ xs) =
    let e : suc m + n ≡ suc (m + n) = omega arith in rw (e, take-add m n xs)

take_all : (xs : Bytes) → take (length xs) xs ≡ xs
take_all [] = refl
take_all (x ∷ xs) = ap (λ (ys : Bytes). x ∷ ys) (take_all xs)

chunk_matches_within :
    (blake3 : Bytes → Digest) (bytes : Bytes) (c : Chunk) (pos : ℕ)
    → c.offset ≡ pos
    → pos + c.chunk_length ≤ length bytes
    → length bytes < 2 ^ 64
    → chunk_matches blake3 bytes c
      ≡ digest_eq (blake3 (take c.chunk_length (drop pos bytes))) c.hash
unfolding chunk_matches chunk_range
chunk_matches_within blake3 bytes c pos at fits small =
    ground (arith, slice_within blake3 bytes pos c.chunk_length fits)

-- The payloads that a manifest of `bytes` asks for.
pub payloads : Bytes → List Chunk → List Bytes
payloads bytes [] = []
payloads bytes (c ∷ cs) = take c.chunk_length (drop c.offset bytes) ∷ payloads bytes cs

module _ (blake3 : Bytes → Digest) where
  -- One of the payloads is not the piece of `bytes` that its chunk stands for, and has its hash.
  abbrev pub Collides : Bytes → List Chunk → List Bytes → Type 0
  Collides bytes [] ps = ⊥
  Collides bytes (c ∷ cs) [] = ⊥
  Collides bytes (c ∷ cs) (p ∷ ps) =
      ((p ≢ take c.chunk_length (drop c.offset bytes))
        × (blake3 p ≡ blake3 (take c.chunk_length (drop c.offset bytes))))
      ⊎ Collides bytes cs ps

  -- A payload with a chunk's hash is the chunk's piece of the data, or collides with it.
  piece_or_collision :
      (bytes p : Bytes) (c : Chunk) (pos : ℕ)
      → c.offset ≡ pos
      → blake3 p ≡ blake3 (take c.chunk_length (drop pos bytes))
      → (p ≡ take c.chunk_length (drop pos bytes))
        ⊎ ((p ≢ take c.chunk_length (drop c.offset bytes))
            × (blake3 p ≡ blake3 (take c.chunk_length (drop c.offset bytes))))
  piece_or_collision bytes p c pos at same =
      let iff = bytes_eq_iff p (take c.chunk_length (drop pos bytes)) in
      elim (Bool-cases (bytes_eq p (take c.chunk_length (drop pos bytes)))) [
        | inl e ↦ inl (iff.0 e)
        | inr ne ↦ rw at (inr (λ e. ground (arith, ne, iff.1 e), same))
      ]

  -- Payloads that fit make up the data from `pos` on, or one of them collides.
  Fits-Covers :
      (bytes : Bytes) (cs : List Chunk) (ps : List Bytes) (pos : ℕ)
      → Covers blake3 bytes pos cs
      → Fits blake3 cs ps
      → (take pos bytes ++ concat ps ≡ bytes) ⊎ Collides bytes cs ps
  Fits-Covers bytes [] [] pos at h = inl (rw (append-nil, at) (take_all bytes))
  Fits-Covers bytes [] (p ∷ ps) pos at h = elim h [ ]
  Fits-Covers bytes (c ∷ cs) [] pos at h = elim h [ ]
  Fits-Covers bytes (c ∷ cs) (p ∷ ps) pos (at, sum, later) (same, size, h) =
      let part = take c.chunk_length (drop pos bytes) in
      elim (piece_or_collision bytes p c pos at (same ∙ sum)) [
        | inr collision ↦ inr (inl collision)
        | inl e ↦ elim (Fits-Covers bytes cs ps (pos + c.chunk_length) later h) [
          | inr collides ↦ inr (inr collides)
          | inl whole ↦ inl (
              cc (
                e,
                whole,
                append_assoc (take pos bytes) part (concat ps),
                take-add pos c.chunk_length bytes,
              ))
        ]
      ]

  chunks_match-Covers :
      (bytes other : Bytes) (cs : List Chunk) (pos : ℕ)
      → length bytes < 2 ^ 64
      → length other ≡ length bytes
      → Covers blake3 bytes pos cs
      → take pos other ≡ take pos bytes
      → chunks_match blake3 other cs ≡ true
      → (other ≡ bytes) ⊎ Collides bytes cs (payloads other cs)
  unfolding chunks_match payloads
  chunks_match-Covers bytes other [] pos small n at same h = inl (
      cc (
        ap (λ (k : ℕ). take k other) (at ∙ sym n),
        ap (λ (k : ℕ). take k bytes) at,
        take_all other,
        take_all bytes,
      ))
  chunks_match-Covers bytes other (c ∷ cs) pos small n (at, sum, later) same h =
      let size = c.chunk_length in
      let mine = take size (drop pos other) in
      let fits : pos + size ≤ length other =
        omega (arith, Covers-le blake3 bytes cs (pos + size) later) in
      let tests = chunk_matches_within blake3 other c pos at fits (omega arith) in
      let hashes : blake3 mine ≡ c.hash =
        ground (arith, tests, digest_eq_iff (blake3 mine) c.hash) in
      let here : take size (drop c.offset other) ≡ mine =
        ap (λ (k : ℕ). take size (drop k other)) at in
      elim (piece_or_collision bytes (take size (drop c.offset other)) c pos at
        (ap blake3 here ∙ hashes ∙ sum)) [
          | inr collision ↦ inr (inl collision)
          | inl part ↦
              let longer : take (pos + size) other ≡ take (pos + size) bytes =
                cc (part, here, same, take-add pos size other, take-add pos size bytes) in
              let more : chunks_match blake3 other cs ≡ true = ground (arith, h) in
              elim (chunks_match-Covers bytes other cs (pos + size) small n later longer more) [
                | inl e ↦ inl e
                | inr collides ↦ inr (inr collides)
              ]
        ]

  module _ (fast_cdc : Bytes → ℕ → ℕ → ℕ → List (ℕ × ℕ)) (config : CdcConfig)
      (tiles : (bytes : Bytes)
        → IsTiling 0
            (fast_cdc bytes config.min_size config.avg_size config.max_size)
            (length bytes))
      (bytes : Bytes) (small : length bytes < 2 ^ 64) where
    -- For any hash and a chunker whose entries tile the data, of less than 2^64 bytes: whatever
    -- payloads were fetched, if reassembly by the manifest of `bytes` succeeds, then the blob is
    -- `bytes`, or one of the payloads differs from the piece of `bytes` that its chunk stands for and
    -- has the same hash.
    pub reconstruct-build_manifest_sound :
        (ps : List Bytes) (blob : Bytes)
        → reconstruct blake3 ps (build_manifest blake3 fast_cdc bytes config) ≡ ok blob
        → (blob ≡ bytes) ⊎ Collides bytes (chunk_bytes blake3 fast_cdc bytes config) ps
    unfolding build_manifest
    reconstruct-build_manifest_sound ps blob h =
        let (fits, e, _) = (reconstruct_iff blake3 ps _ blob).0 h in
        let covers = chunk_bytes-Covers blake3 fast_cdc config tiles bytes small in
        elim (Fits-Covers bytes _ ps 0 covers fits) [
          | inl whole ↦ inl (e ∙ whole)
          | inr collides ↦ inr collides
        ]

    -- Under the same conditions, if the manifest of `bytes` accepts other data of less than 2^64
    -- bytes, then these are `bytes`, or one of their pieces at the chunks of the manifest differs from
    -- that of `bytes` and has the same hash.
    pub verify_manifest-build_manifest_sound :
        (other : Bytes)
        → length other < 2 ^ 64
        → verify_manifest blake3 other (build_manifest blake3 fast_cdc bytes config) ≡ true
        → (other ≡ bytes)
          ⊎ Collides bytes
              (chunk_bytes blake3 fast_cdc bytes config)
              (payloads other (chunk_bytes blake3 fast_cdc bytes config))
    unfolding verify_manifest build_manifest
    verify_manifest-build_manifest_sound other lt h =
        chunks_match-Covers bytes other _ 0 small (ground arith)
          (chunk_bytes-Covers blake3 fast_cdc config tiles bytes small) refl (ground arith)

payloads-Fits :
    (blake3 : Bytes → Digest) (bytes : Bytes) (cs : List Chunk) (pos : ℕ)
    → length bytes < 2 ^ 64
    → Covers blake3 bytes pos cs
    → Fits blake3 cs (payloads bytes cs)
unfolding payloads len_to_u64
payloads-Fits blake3 bytes [] pos small h = tt
payloads-Fits blake3 bytes (c ∷ cs) pos small (at, sum, later) = (
  rw (at, sum),
  rw at (
      ground (
        arith,
        length-take c.chunk_length (drop pos bytes),
        length-drop pos bytes,
        Covers-le blake3 bytes cs (pos + c.chunk_length) later,
      )),
  payloads-Fits blake3 bytes cs (pos + c.chunk_length) small later,
)

concat-payloads :
    (blake3 : Bytes → Digest) (bytes : Bytes) (cs : List Chunk) (pos : ℕ)
    → Covers blake3 bytes pos cs
    → take pos bytes ++ concat (payloads bytes cs) ≡ bytes
unfolding payloads
concat-payloads blake3 bytes [] pos at = rw (append-nil, at) (take_all bytes)
concat-payloads blake3 bytes (c ∷ cs) pos (at, sum, later) = cc (
  ap (λ (k : ℕ). take c.chunk_length (drop k bytes)) at,
  append_assoc (take pos bytes) (take c.chunk_length (drop pos bytes)) (concat (payloads bytes cs)),
  take-add pos c.chunk_length bytes,
  concat-payloads blake3 bytes cs (pos + c.chunk_length) later,
)

-- For a chunker whose entries tile the data, of less than 2^64 bytes: the payloads that the
-- manifest of `bytes` asks for reassemble to `bytes`, whatever the hash function.
pub reconstruct-payloads :
    (blake3 : Bytes → Digest) (fast_cdc : Bytes → ℕ → ℕ → ℕ → List (ℕ × ℕ)) (config : CdcConfig)
    → ((bytes : Bytes)
        → IsTiling 0
            (fast_cdc bytes config.min_size config.avg_size config.max_size)
            (length bytes))
    → (bytes : Bytes) → length bytes < 2 ^ 64
    → reconstruct blake3
        (payloads bytes (chunk_bytes blake3 fast_cdc bytes config))
        (build_manifest blake3 fast_cdc bytes config)
      ≡ ok bytes
unfolding build_manifest len_to_u64
reconstruct-payloads blake3 fast_cdc config tiles bytes small =
    let m = build_manifest blake3 fast_cdc bytes config in
    let covers = chunk_bytes-Covers blake3 fast_cdc config tiles bytes small in
    (reconstruct_iff blake3 (payloads bytes m.chunks) m bytes).1 (
      payloads-Fits blake3 bytes m.chunks 0 small covers,
      sym (concat-payloads blake3 bytes m.chunks 0 covers),
      refl,
    )
