-- ===== src/Frcode/Format.antt =====
-- The front-coded format of crates/nixdex-core/src/frcode.rs, as a reader of one line after the
-- other: `meta NUL diff suffix LF`. The reader keeps the previous path and the length of the prefix
-- that it shares with the path before it; `diff` changes that length, and the new path is the
-- shared prefix of the previous path and then `suffix`.
use nixdex.Prelude.{ℕ, zero, suc, ◌+◌, ◌-◌, ◌*◌, ◌^◌, ◌<◌, ◌≡◌, ◌≢◌, Option, none, some, arith}
use nixdex.Prelude.{List, [], ◌∷◌, ◌++◌, ◌==◌, ltb, leb, if◌then◌else◌, length, take}
use nixdex.Prelude.Bytes.{Bytes}
use nixdex.Prelude.Split.{split_once}
use nixdex.Frcode.{diff_bytes}

infixl 5 ◌>>=◌
abbrev pub ◌>>=◌ : {A B : Type 0} → Option A → (A → Option B) → Option B
none >>= f = none
some a >>= f = f a

-- An entry of a listing: its metadata and its path.
abbrev pub Line : Type 0
Line = Bytes × Bytes

read_wide : Bytes → Option (ℕ × Bytes)
read_wide (high ∷ low ∷ rest) = some (high * 256 + low, rest)
read_wide _ = none

-- A signed byte, or 0x80 and a big-endian 16-bit value; the answer is a 16-bit pattern.
unfoldable pub read_diff : Bytes → Option (ℕ × Bytes)
unfolding read_wide
read_diff [] = none
read_diff (b ∷ rest) =
    if b == 0x80
    then read_wide rest
    else if ltb b 128
    then some (b, rest)
    else some (b + (2 ^ 16 - 2 ^ 8), rest)

-- The sum of a length and a signed 16-bit value, unless it is negative.
unfoldable pub add_signed : ℕ → ℕ → Option ℕ
add_signed shared diff =
    if ltb diff (2 ^ 15)
    then some (shared + diff)
    else if ltb shared (2 ^ 16 - diff)
    then none
    else some (shared - (2 ^ 16 - diff))

unfoldable pub read_line : Bytes → ℕ → Bytes → Option (Line × ℕ × Bytes)
read_line last shared bytes = do
  (meta, after_meta) ← split_once 0 bytes
  (diff, after_diff) ← read_diff after_meta
  shared' ← add_signed shared diff
  if leb shared' (length last)
      then (do
        (suffix, rest) ← split_once b'\n' after_diff
        some ((meta, take shared' last ++ suffix), shared', rest))
      else none

abbrev pub prepend : List Line → Option (List Line) → Option (List Line)
prepend lines later = later >>= λ more. some (lines ++ more)

-- All lines, up to the end of the bytes; `fuel` bounds their number.
unfoldable pub read_lines : ℕ → Bytes → ℕ → Bytes → Option (List Line)
read_lines zero last shared bytes = none
read_lines (suc fuel) last shared [] = some []
read_lines (suc fuel) last shared (b ∷ bytes) = do
  (line, shared', rest) ← read_line last shared (b ∷ bytes)
  prepend (line ∷ []) (read_lines fuel line.1 shared' rest)

-- The reader finds `diff` again in what `encode_diff` writes.
pub read_diff-diff_bytes :
    (diff : ℕ) (rest : Bytes)
    → diff < 2 ^ 16
    → diff ≢ 2 ^ 15
    → read_diff (diff_bytes diff ++ rest) ≡ some (diff, rest)
unfolding read_diff diff_bytes
read_diff-diff_bytes diff rest h ne = ground arith
