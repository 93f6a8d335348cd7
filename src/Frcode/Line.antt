-- ===== src/Frcode/Line.antt =====
-- One line: how the encoder of crates/nixdex-core/src/frcode.rs lays it out, and how it is read.
use nixdex.Prelude.{
  ℕ, suc, ◌+◌, ◌-◌, ◌^◌, ◌≤◌, ◌<◌, ◌≡◌, inl, inr, refl, some, arith, false, ◌||◌, not,
}
use nixdex.Prelude.{[], ◌∷◌, ◌++◌, ◌==◌, length, take, drop, ok, Bool-cases}
use nixdex.Prelude.Bytes.{Bytes, contains}
use nixdex.Prelude.Split.{split_once, split_once-append}
use nixdex.Frcode.{
  Encoder, validate_bytes, diff_bytes, sub_i16, write_meta, shared_loop, write_path,
}
use nixdex.Frcode.Package.{write_line}
use nixdex.Frcode.Format.{Line, add_signed, read_line, read_lines, prepend, read_diff-diff_bytes}
use mathlib.Core.List.{append_assoc}

-- Neither NUL nor newline.
abbrev pub IsPlain : Bytes → Type 0
IsPlain bytes = (contains 0 bytes ≡ false) × (contains b'\n' bytes ≡ false)

add_signed-sub_i16 :
    (shared previous : ℕ)
    → shared < 2 ^ 15
    → previous < 2 ^ 15
    → add_signed previous (sub_i16 shared previous) ≡ some shared
unfolding add_signed
add_signed-sub_i16 shared previous h k = ground arith

-- The loop counts on from `shared` over the bytes of a common prefix.
pub shared_loop_prefix :
    (last path : Bytes) (shared : ℕ)
    → shared < 2 ^ 15
    → (k : ℕ) × (shared_loop last path shared ≡ shared + k)
      × (shared + k < 2 ^ 15)
      × (k ≤ length last)
      × (k ≤ length path)
      × (take k last ≡ take k path)
unfolding shared_loop
shared_loop_prefix [] path shared h = (0, omega arith, omega arith, omega arith, omega arith, refl)
shared_loop_prefix (a ∷ rest_a) [] shared h =
    (0, omega arith, omega arith, omega arith, omega arith, refl)
shared_loop_prefix (a ∷ rest_a) (b ∷ rest_b) shared h =
    elim (Bool-cases (not (a == b) || shared == 2 ^ 15 - 1)) [
      | inl stop ↦ (0, rw stop (omega arith), omega arith, omega arith, omega arith, refl)
      | inr go ↦
          let (k, count, fits, in_last, in_path, same) =
            shared_loop_prefix rest_a rest_b (shared + 1) (ground arith) in
          (
            suc k,
            rw go (omega (arith, count)),
            omega arith,
            omega arith,
            omega arith,
            ground (arith, same),
          )
    ]

-- A line as the encoder lays it out, `last` the path before it.
abbrev pub line_bytes : Bytes → ℕ → Bytes → ℕ → Bytes → Bytes
line_bytes meta previous path shared suffix =
    meta ++ (0 ∷ (diff_bytes (sub_i16 shared previous) ++ (suffix ++ (b'\n' ∷ []))))

pub read_line-line_bytes :
    (last meta path suffix : Bytes) (previous shared : ℕ) (rest : Bytes)
    → contains 0 meta ≡ false
    → contains b'\n' suffix ≡ false
    → previous < 2 ^ 15
    → shared < 2 ^ 15
    → shared ≤ length last
    → take shared last ++ suffix ≡ path
    → read_line last previous (line_bytes meta previous path shared suffix ++ rest)
      ≡ some ((meta, path), shared, rest)
unfolding read_line
read_line-line_bytes last meta path suffix previous shared rest hm hs hp h fits e =
    simp append_assoc (
      ground (
        arith,
        split_once-append 0 meta
            (diff_bytes (sub_i16 shared previous) ++ (suffix ++ (b'\n' ∷ rest))) hm,
        read_diff-diff_bytes (sub_i16 shared previous) (suffix ++ (b'\n' ∷ rest)),
        add_signed-sub_i16 shared previous h hp,
        split_once-append b'\n' suffix rest hs,
      ))

pub IsPlain-validates : (bytes : Bytes) → IsPlain bytes → validate_bytes bytes ≡ ok tt
unfolding validate_bytes
IsPlain-validates bytes h = ground arith

-- The encoder after a line with the shared prefix `k`.
abbrev pub after_line : Line → ℕ → Encoder → Encoder
after_line (meta, path) k e = record e {
  writer = e.writer ++ line_bytes meta e.shared_len path k (drop k path);
  last = path;
  shared_len = k;
}

pub regroup :
    (w meta diff suffix : Bytes)
    → (((w ++ meta) ++ (0 ∷ [])) ++ diff) ++ suffix ++ (b'\n' ∷ [])
      ≡ w ++ (meta ++ (0 ∷ (diff ++ (suffix ++ (b'\n' ∷ [])))))
regroup w meta diff suffix = simp append_assoc

pub write_line-after_line :
    (meta path : Bytes) (e : Encoder) (k : ℕ)
    → IsPlain meta
    → IsPlain path
    → shared_loop e.last path 0 ≡ k
    → k < 2 ^ 15
    → k ≤ length path
    → write_line (meta, path) e ≡ (after_line (meta, path) k e, ok tt)
unfolding write_meta write_path
write_line-after_line meta path e k hm hp count small fits = ground (
  arith,
  IsPlain-validates meta hm,
  IsPlain-validates path hp,
  count,
  regroup e.writer meta (diff_bytes (sub_i16 k e.shared_len)) (drop k path),
)

pub read_lines_step :
    (fuel : ℕ) (last : Bytes) (shared : ℕ) (bytes : Bytes) {line : Line} {shared' : ℕ}
    {rest : Bytes}
    → read_line last shared bytes ≡ some (line, shared', rest)
    → read_lines (suc fuel) last shared bytes
      ≡ prepend (line ∷ []) (read_lines fuel line.1 shared' rest)
unfolding read_lines
read_lines_step fuel last shared [] h = unfold read_line split_once in cc
read_lines_step fuel last shared (b ∷ bytes) h = rw h
