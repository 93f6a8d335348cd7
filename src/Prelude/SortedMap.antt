-- ===== src/Prelude/SortedMap.antt =====
-- `BTreeMap<Vec<u8>, V>`: its entries, by ascending keys.
use mathlib.Core.Path.{◌≡◌, refl, subst}
use mathlib.Core.Logic.{inl, inr}
use mathlib.Core.Bool.{true, false}
use mathlib.Core.List.{List, [], ◌∷◌}
use mathlib.Core.Option.{Option, none, some}
use native.Mathlib.Omega.{arith}
use nixdex.Prelude.Compare.{if◌then◌else◌, if_elim, Bool-cases}
use nixdex.Prelude.Bytes.{
  Bytes, bytes_eq, bytes_eq_refl, bytes_eq→eq, bytes_le, bytes_le_total, bytes_le_trans,
}

abbrev pub SortedMap {ℓ} : Type ℓ → Type ℓ
SortedMap V = List (Bytes × V)

pub bytes_le_refl : (xs : Bytes) → bytes_le xs xs ≡ true
bytes_le_refl xs = elim (Bool-cases (bytes_le xs xs)) [ inl e ↦ e | inr e ↦ bytes_le_total xs xs e ]

pub bytes_le_antisym :
    (xs ys : Bytes) → bytes_le xs ys ≡ true → bytes_le ys xs ≡ true → bytes_eq xs ys ≡ true
unfolding bytes_le bytes_eq
bytes_le_antisym [] [] h k = refl
bytes_le_antisym [] (y ∷ ys) h k = cc
bytes_le_antisym (x ∷ xs) [] h k = cc
bytes_le_antisym (x ∷ xs) (y ∷ ys) h k = ground (arith, bytes_le_antisym xs ys)

-- What is above a key is not that key.
pub above_ne : (low high : Bytes) → bytes_le high low ≡ false → bytes_eq high low ≡ false
above_ne low high h = elim (Bool-cases (bytes_eq high low)) [
  | inl e ↦
      let same =
        subst (λ u. bytes_le high u ≡ true) (bytes_eq→eq high low e) (bytes_le_refl high) in
      ground (arith, h, same)
  | inr e ↦ e
]

-- What is at least a key, and not that key, is above it.
pub above :
    (key k : Bytes) → bytes_le key k ≡ true → bytes_eq k key ≡ false → bytes_le k key ≡ false
above key k le ne = elim (Bool-cases (bytes_le k key)) [
  | inl back ↦ ground (arith, ne, bytes_le_antisym k key back le)
  | inr e ↦ e
]

module _ {ℓ} {V : Type ℓ} where
  unfoldable pub lookup : Bytes → SortedMap V → Option V
  lookup key [] = none
  lookup key ((k, v) ∷ m) = let rest = lookup key m in if bytes_eq k key then some v else rest

  abbrev pub AreAbove : Bytes → SortedMap V → Type 0
  AreAbove key [] = Unit
  AreAbove key ((k, v) ∷ m) = (bytes_le k key ≡ false) × AreAbove key m

  abbrev pub IsAscending : SortedMap V → Type 0
  IsAscending [] = Unit
  IsAscending ((k, v) ∷ m) = AreAbove k m × IsAscending m

  -- `*map.entry(key).or_insert(default)` changed by `f`.
  unfoldable pub adjust : Bytes → V → (V → V) → SortedMap V → SortedMap V
  adjust key default f [] = (key, f default) ∷ []
  adjust key default f ((k, v) ∷ m) =
      let rest = adjust key default f m in
      if bytes_eq k key
      then (k, f v) ∷ m
      else if bytes_le key k
      then (key, f default) ∷ (k, v) ∷ m
      else (k, v) ∷ rest

  pub lookup-above : (key : Bytes) (m : SortedMap V) → AreAbove key m → lookup key m ≡ none
  unfolding lookup
  lookup-above key [] h = refl
  lookup-above key ((k, v) ∷ m) (first, rest) =
      if_elim (λ u. u ≡ none) (bytes_eq k key) (λ e. ground (arith, e, above_ne key k first))
        (λ e. lookup-above key m rest)

  pub AreAbove-weaken :
      (low high : Bytes) (m : SortedMap V)
      → bytes_le low high ≡ true
      → AreAbove high m
      → AreAbove low m
  AreAbove-weaken low high [] le h = tt
  AreAbove-weaken low high ((k, v) ∷ m) le (first, rest) = (
    elim (Bool-cases (bytes_le k low)) [
      | inl back ↦ ground (arith, first, bytes_le_trans k low high back le)
      | inr e ↦ e
    ],
    AreAbove-weaken low high m le rest,
  )

abbrev pub or_default {ℓ} : {V : Type ℓ} → V → Option V → V
or_default default none = default
or_default default (some v) = v

module _ {ℓ} {V : Type ℓ} (key : Bytes) (default : V) (f : V → V) where
  adjust-AreAbove :
      (low : Bytes) (m : SortedMap V)
      → bytes_le key low ≡ false
      → AreAbove low m
      → AreAbove low (adjust key default f m)
  unfolding adjust
  adjust-AreAbove low [] h all = (h, tt)
  adjust-AreAbove low ((k, v) ∷ m) h (first, rest) =
      if_elim (AreAbove low) (bytes_eq k key) (λ e. (first, rest))
        (λ e.
          if_elim (AreAbove low) (bytes_le key k) (λ le. (h, (first, rest)))
            (λ le. (first, adjust-AreAbove low m h rest)))

  pub adjust-IsAscending : (m : SortedMap V) → IsAscending m → IsAscending (adjust key default f m)
  unfolding adjust
  adjust-IsAscending [] h = (tt, tt)
  adjust-IsAscending ((k, v) ∷ m) (first, rest) =
      if_elim IsAscending (bytes_eq k key) (λ e. (first, rest))
        (λ e.
          if_elim IsAscending (bytes_le key k)
            (λ le. ((above key k le e, AreAbove-weaken key k m le first), (first, rest)))
            (λ le. (adjust-AreAbove k m le first, adjust-IsAscending m rest)))

  pub lookup-adjust :
      (m : SortedMap V) (other : Bytes)
      → IsAscending m
      → lookup other (adjust key default f m) ≡ (
          if bytes_eq key other
          then some (f (or_default default (lookup key m)))
          else lookup other m)
  unfolding adjust lookup
  lookup-adjust [] other h = refl
  lookup-adjust ((k, v) ∷ m) other (first, rest) =
      let later = lookup-adjust m other rest in
      elim (Bool-cases (bytes_eq k key)) [
        | inl e ↦ let same = bytes_eq→eq k key e in ground (arith, e, same)
        | inr e ↦ elim (Bool-cases (bytes_le key k)) [
          | inl le ↦ ground (arith, e, le, lookup-above key m (AreAbove-weaken key k m le first))
          | inr gt ↦
              ground
                (arith, e, gt, later, bytes_eq→eq k other, bytes_eq→eq key other, bytes_eq_refl k)
        ]
      ]
