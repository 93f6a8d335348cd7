-- ===== src/Prelude/Words.antt =====
-- Little-endian words in byte strings, and `bytes.get(start..end)`.
use Prim.Native.Nat.{ℕ, ◌+◌, ◌-◌, ◌*◌, ◌/◌, ◌%◌, ◌^◌, ◌<◌}
use mathlib.Core.Path.{◌≡◌, refl, ap}
use mathlib.Core.Bool.{◌&&◌}
use mathlib.Core.List.{[], ◌∷◌, ◌++◌}
use mathlib.Core.Option.{Option, none, some}
use native.Mathlib.Omega.{arith}
use nixdex.Prelude.Compare.{leb, if◌then◌else◌}
use nixdex.Prelude.Lists.{length, take, drop, length-append}
use nixdex.Prelude.Bytes.{Bytes}

-- `n.to_le_bytes()` of a u32.
unfoldable pub u32_le : ℕ → Bytes
u32_le n = (n % 256) ∷ (n / 256 % 256) ∷ (n / 65536 % 256) ∷ (n / 16777216 % 256) ∷ []

-- `u32::from_le_bytes` after `try_into` of a slice.
unfoldable pub from_u32_le : Bytes → Option ℕ
from_u32_le (a ∷ b ∷ c ∷ d ∷ []) = some (a + 256 * b + 65536 * c + 16777216 * d)
from_u32_le _ = none

pub from_u32_le-u32_le : (n : ℕ) → n < 2 ^ 32 → from_u32_le (u32_le n) ≡ some n
unfolding u32_le from_u32_le
from_u32_le-u32_le n h = ap some (omega arith)

pub length-u32_le : (n : ℕ) → length (u32_le n) ≡ 4
unfolding u32_le
length-u32_le n = refl

unfoldable pub get_range : ℕ → ℕ → Bytes → Option Bytes
get_range start end bytes =
    if leb start end && leb end (length bytes)
    then some (take (end - start) (drop start bytes))
    else none

pub drop-append : (xs ys : Bytes) → drop (length xs) (xs ++ ys) ≡ ys
drop-append [] ys = refl
drop-append (x ∷ xs) ys = drop-append xs ys

pub take-append : (xs ys : Bytes) → take (length xs) (xs ++ ys) ≡ xs
take-append [] ys = refl
take-append (x ∷ xs) ys = ap (λ u. x ∷ u) (take-append xs ys)

pub get_range-append :
    (before xs after : Bytes) (end : ℕ)
    → end ≡ length before + length xs
    → get_range (length before) end (before ++ (xs ++ after)) ≡ some xs
unfolding get_range
get_range-append before xs after end e =
    let whole = length-append before (xs ++ after) in
    let rest = length-append xs after in
    let width : end - length before ≡ length xs = omega arith in
    let cut = drop-append before (xs ++ after) in
    let kept = take-append xs after in ground (arith, cut, kept, width)
