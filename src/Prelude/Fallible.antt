-- ===== src/Prelude/Fallible.antt =====
-- Rust's `Result<A, E>` with the `?` operator as the bind of a `do` block.
use mathlib.Core.Path.{◌≡◌, refl}
use mathlib.Core.Bool.{Bool, true, false}
use mathlib.Core.Option.{Option, none, some}

pub data Result {ℓ} (A E : Type ℓ) : Type ℓ where
  ok : A → Result A E
  err : E → Result A E

infixl 5 ◌>>=◌ ◌>>◌
abbrev pub ◌>>=◌ {ℓ} : {A B E : Type ℓ} → Result A E → (A → Result B E) → Result B E
err cause >>= next = err cause
ok value >>= next = next value

abbrev pub ◌>>◌ : {B E : Type 0} → Result (Unit {0}) E → Result B E → Result B E
first >> later = first >>= λ _. later

-- `if !b { return Err(e) }`
abbrev pub require : {E : Type 0} → Bool → E → Result (Unit {0}) E
require holds cause = elim holds [ true ↦ ok tt | false ↦ err cause ]

-- `ok_or`
abbrev pub ok_or : {A E : Type 0} → Option A → E → Result A E
ok_or none e = err e
ok_or (some a) e = ok a

pub bind_cong {ℓ} :
    {A B E : Type ℓ} (o : Result A E) {next other : A → Result B E}
    → ((a : A) → next a ≡ other a)
    → (o >>= next) ≡ (o >>= other)
bind_cong (ok a) same = same a
bind_cong (err e) same = refl
