-- ===== src/Prelude/Split.antt =====
-- Cutting byte strings at a separator: `str::split_once`, `str::rsplit_once`, `memchr`.
use mathlib.Core.Option
use mathlib.Core.Path.{◌≡◌, refl}
use mathlib.Core.Logic.{◌↔◌, inl, inr}
use mathlib.Core.Bool.{false}
use mathlib.Core.Option.{Option, none, some}
use mathlib.Core.List.{[], ◌∷◌, ◌++◌}
use native.Mathlib.Omega.{arith}
use Prim.Native.Nat.{ℕ}
use nixdex.Prelude.Compare.{◌==◌, if◌then◌else◌, Option-cases}
use nixdex.Prelude.Bytes.{Bytes, contains}

abbrev pub push_front : ℕ → Bytes × Bytes → Bytes × Bytes
push_front x (front, back) = (x ∷ front, back)

-- `str::split_once(c)`: at the first `c`.
unfoldable pub split_once : ℕ → Bytes → Option (Bytes × Bytes)
split_once c [] = none
split_once c (x ∷ xs) =
    if x == c then some ([], xs) else Option.map (push_front x) (split_once c xs)

-- What `rsplit_once` answers at `x`, from its answer on the bytes after `x`.
abbrev pub rsplit_step : ℕ → ℕ → Bytes → Option (Bytes × Bytes) → Option (Bytes × Bytes)
rsplit_step c x xs none = if x == c then some ([], xs) else none
rsplit_step c x xs (some later) = some (push_front x later)

-- `str::rsplit_once(c)`: at the last `c`.
unfoldable pub rsplit_once : ℕ → Bytes → Option (Bytes × Bytes)
rsplit_once c [] = none
rsplit_once c (x ∷ xs) = rsplit_step c x xs (rsplit_once c xs)

-- The front part has none of the separator, and the parts make up the text.
pub split_once-append :
    (c : ℕ) (front back : Bytes)
    → contains c front ≡ false
    → split_once c (front ++ (c ∷ back)) ≡ some (front, back)
unfolding split_once contains
split_once-append c [] back h = ground arith
split_once-append c (x ∷ xs) back h = ground (arith, split_once-append c xs back)

pub split_once-eq-some :
    (c : ℕ) (text front back : Bytes)
    → split_once c text ≡ some (front, back)
    → (text ≡ front ++ (c ∷ back)) × (contains c front ≡ false)
unfolding split_once contains
split_once-eq-some c [] front back h = cc
split_once-eq-some c (x ∷ xs) front back h = elim (Option-cases (split_once c xs)) [
  | inl e ↦ ground (arith, e)
  | inr ((f, b), e) ↦ ground (arith, e, split_once-eq-some c xs f b e)
]

pub rsplit_once-eq-none :
    (c : ℕ) (text : Bytes) → contains c text ≡ false → rsplit_once c text ≡ none
unfolding rsplit_once contains
rsplit_once-eq-none c [] h = refl
rsplit_once-eq-none c (x ∷ xs) h = ground (arith, rsplit_once-eq-none c xs)

pub rsplit_once-append :
    (c : ℕ) (front back : Bytes)
    → contains c back ≡ false
    → rsplit_once c (front ++ (c ∷ back)) ≡ some (front, back)
unfolding rsplit_once
rsplit_once-append c [] back h = ground (arith, rsplit_once-eq-none c back)
rsplit_once-append c (x ∷ xs) back h = rw (rsplit_once-append c xs back h)

pub none-contains : (c : ℕ) (text : Bytes) → rsplit_once c text ≡ none → contains c text ≡ false
unfolding rsplit_once contains
none-contains c [] h = refl
none-contains c (x ∷ xs) h = ground (arith, none-contains c xs)

pub rsplit_once-eq-some :
    (c : ℕ) (text front back : Bytes)
    → rsplit_once c text ≡ some (front, back)
    → (text ≡ front ++ (c ∷ back)) × (contains c back ≡ false)
unfolding rsplit_once contains
rsplit_once-eq-some c [] front back h = cc
rsplit_once-eq-some c (x ∷ xs) front back h = elim (Option-cases (rsplit_once c xs)) [
  | inl e ↦ ground (arith, e, none-contains c xs e)
  | inr ((f, b), e) ↦ ground (arith, e, rsplit_once-eq-some c xs f b e)
]

pub split_once-none :
    (c : ℕ) (text : Bytes) → (split_once c text ≡ none) ↔ (contains c text ≡ false)
unfolding split_once contains
split_once-none c [] = ground arith
split_once-none c (x ∷ xs) = ground (arith, split_once-none c xs)
