-- ===== src/Frcode/Bounds.antt =====
-- Invariant and error branches of the encoder, crates/nixdex-core/src/frcode.rs.
use nixdex.Prelude.{ℕ, zero, suc, ◌+◌, ◌-◌, ◌^◌, ◌≤◌, ◌<◌, ◌≡◌, ◌⊎◌, inl, inr, arith, ◌||◌, not}
use nixdex.Prelude.{[], ◌∷◌, ◌==◌, length, take, ok, err, Bool-cases}
use nixdex.Prelude.Bytes.{Bytes}
use nixdex.Frcode.{Encoder, forbidden_byte, validate_bytes, new, shared_loop, write_path}
use nixdex.Frcode.Line.{IsPlain, shared_loop_prefix}

-- What holds of an encoder between calls: the shared length is a non-negative i16, and lies in the
-- last path.
pub record IsValid (e : Encoder) : Type 0 where
  pub small : e.shared_len < 2 ^ 15
  pub within : e.shared_len ≤ length e.last

pub new-IsValid :
    (footer_meta footer_path : Bytes) {e : Encoder}
    → new [] footer_meta footer_path ≡ ok e
    → IsValid e
unfolding new validate_bytes
new-IsValid footer_meta footer_path h = ground arith

-- `write_path` on any path, plain or not: a valid encoder stays valid; it fails exactly when the
-- path has a NUL or a newline, then with `ForbiddenByte` and nothing written; so the branch
-- `SharedOutOfRange` is never taken.
pub write_path-IsValid :
    (path : Bytes) (e : Encoder)
    → IsValid e
    → IsValid (write_path path e).0
      × ((IsPlain path × ((write_path path e).1 ≡ ok tt) × ((write_path path e).0.last ≡ path))
          ⊎ (¬ IsPlain path × (write_path path e ≡ (e, err forbidden_byte))))
unfolding write_path validate_bytes
write_path-IsValid path e v =
    let (k, count, fits, _, in_path, _) = shared_loop_prefix e.last path 0 (omega arith) in
    ground (arith, count)

shared_loop-longest_from :
    (last path : Bytes) (shared k : ℕ)
    → shared + k < 2 ^ 15
    → k ≤ length last
    → k ≤ length path
    → take k last ≡ take k path
    → shared + k ≤ shared_loop last path shared
unfolding shared_loop
shared_loop-longest_from [] path shared k small in_last in_path same = omega arith
shared_loop-longest_from (a ∷ rest_a) [] shared k small in_last in_path same = omega arith
shared_loop-longest_from (a ∷ rest_a) (b ∷ rest_b) shared zero small in_last in_path same =
    elim (Bool-cases (not (a == b) || shared == 2 ^ 15 - 1)) [
      | inl stop ↦ rw stop (omega arith)
      | inr go ↦
          let (k, count, _, _, _, _) =
            shared_loop_prefix rest_a rest_b (shared + 1) (ground arith) in
          rw go (omega (arith, count))
    ]
shared_loop-longest_from (a ∷ rest_a) (b ∷ rest_b) shared (suc k) small in_last in_path same =
    ground (arith, shared_loop-longest_from rest_a rest_b (shared + 1) k)

-- For any length `k` below 2^15 at which the previous and the new path have equal prefixes: the
-- length that `write_path` records as shared is at least `k` and below 2^15, and the prefixes of
-- that length are equal too. So it is the longest common prefix, up to 2^15 - 1 bytes.
pub shared_loop-longest :
    (last path : Bytes) (k : ℕ)
    → k < 2 ^ 15
    → k ≤ length last
    → k ≤ length path
    → take k last ≡ take k path
    → (k ≤ shared_loop last path 0)
      × (shared_loop last path 0 < 2 ^ 15)
      × (take (shared_loop last path 0) last ≡ take (shared_loop last path 0) path)
shared_loop-longest last path k small in_last in_path same =
    let (n, count, fits, _, _, e) = shared_loop_prefix last path 0 (omega arith) in
    let n_count : shared_loop last path 0 ≡ n = omega (arith, count) in
    (omega (arith, shared_loop-longest_from last path 0 k), omega arith, rw n_count e)
