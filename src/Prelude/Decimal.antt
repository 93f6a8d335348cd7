-- ===== src/Prelude/Decimal.antt =====
-- Decimal numbers: `format!("{}", n)` of an unsigned integer, and `str::parse::<u64>`.
use mathlib.Core.Path.{◌≡◌, refl, ◌∙◌}
use mathlib.Core.Bool.{Bool, false, ◌&&◌, not}
use mathlib.Core.Option.{Option, none, some}
use mathlib.Core.List.{[], ◌∷◌}
use native.Mathlib.Omega.{arith}
use Prim.Native.Nat.{ℕ, zero, suc, ◌+◌, ◌-◌, ◌*◌, ◌/◌, ◌%◌, ◌^◌, ◌<◌}
use nixdex.Prelude.Compare.{◌==◌, ltb, leb, if◌then◌else◌}
use nixdex.Prelude.Bytes.{Bytes, contains}

-- The digits of `n` in front of `acc`, lowest first; `fuel` is above `n`.
decimal_from : ℕ → ℕ → Bytes → Bytes
decimal_from zero n acc = acc
decimal_from (suc fuel) n acc =
    let acc' = (48 + n % 10) ∷ acc in
    let rest = decimal_from fuel (n / 10) acc' in if ltb n 10 then acc' else rest

unfoldable pub decimal : ℕ → Bytes
unfolding decimal_from
decimal n = decimal_from (suc n) n []

is_digit : ℕ → Bool
is_digit c = leb 48 c && leb c 57

-- The digits after the value `acc`; a value of 2^64 or more is an overflow.
parse_digits : Bytes → ℕ → Option ℕ
parse_digits [] acc = some acc
parse_digits (c ∷ cs) acc =
    let acc' = acc * 10 + (c - 48) in
    let rest = parse_digits cs acc' in
    if not (is_digit c) then none else if ltb acc' (2 ^ 64) then rest else none

-- A sign `+` may stand before the digits, of which there is one at least.
after_plus : Bytes → Option ℕ
after_plus [] = none
after_plus (c ∷ cs) = parse_digits (c ∷ cs) 0

unfoldable pub parse_u64 : Bytes → Option ℕ
unfolding parse_digits after_plus is_digit
parse_u64 [] = none
parse_u64 (c ∷ cs) = if c == b'+' then after_plus cs else parse_digits (c ∷ cs) 0

parse_digits-decimal_from :
    (fuel n : ℕ) (acc : Bytes)
    → n < fuel
    → n < 2 ^ 64
    → parse_digits (decimal_from fuel n acc) 0 ≡ parse_digits acc n
unfolding parse_digits decimal_from is_digit
parse_digits-decimal_from zero n acc h small = absurd (omega arith)
parse_digits-decimal_from (suc fuel) n acc h small =
    ground (arith, parse_digits-decimal_from fuel (n / 10) ((48 + n % 10) ∷ acc))

parse_u64-decimal_from :
    (fuel n : ℕ) (acc : Bytes)
    → n < fuel
    → parse_u64 (decimal_from fuel n acc) ≡ parse_digits (decimal_from fuel n acc) 0
unfolding parse_u64 decimal_from
parse_u64-decimal_from zero n acc h = absurd (omega arith)
parse_u64-decimal_from (suc fuel) n acc h =
    ground (arith, parse_u64-decimal_from fuel (n / 10) ((48 + n % 10) ∷ acc))

-- A number below 2^64 is parsed back from its digits.
pub parse_u64-decimal : (n : ℕ) → n < 2 ^ 64 → parse_u64 (decimal n) ≡ some n
unfolding decimal parse_digits
parse_u64-decimal n small =
    parse_u64-decimal_from (suc n) n [] (omega arith)
    ∙ parse_digits-decimal_from (suc n) n [] (omega arith) small

contains-decimal_from :
    (c fuel n : ℕ) (acc : Bytes) → c < 48 → contains c (decimal_from fuel n acc) ≡ contains c acc
unfolding contains decimal_from
contains-decimal_from c zero n acc h = refl
contains-decimal_from c (suc fuel) n acc h =
    ground (arith, contains-decimal_from c fuel (n / 10) ((48 + n % 10) ∷ acc) h)

pub contains-decimal : (c n : ℕ) → c < 48 → contains c (decimal n) ≡ false
unfolding decimal contains
contains-decimal c n h = contains-decimal_from c (suc n) n [] h
