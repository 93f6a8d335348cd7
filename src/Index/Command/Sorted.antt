-- ===== src/Index/Command/Sorted.antt =====
-- `sort_unstable` and `dedup` of a list, as crates/nixdex-core/src/command_index.rs packs ids.
use nixdex.Prelude.{
  ℕ, ◌≤◌, ◌<◌, ◌≡◌, refl, ◌∙◌, arith, true, List, [], ◌∷◌, ◌==◌, leb, leb→le, if◌then◌else◌,
  if_elim,
}
use nixdex.Index.{has, sort_into, sort, unless_head, dedup}
use nixdex.Index.Postings.{AreStrict, AllOver}

-- What `sort_unstable` and `dedup` make of a list.
abbrev pub normal : List ℕ → List ℕ
normal ids = dedup (sort ids)

has-sort_into :
    (k n : ℕ) (ns : List ℕ) → has k (sort_into n ns) ≡ (if n == k then true else has k ns)
unfolding sort_into
has-sort_into k n [] = refl
has-sort_into k n (o ∷ os) = ground (arith, has-sort_into k n os)

has-sort : (k : ℕ) (ns : List ℕ) → has k (sort ns) ≡ has k ns
unfolding sort
has-sort k [] = refl
has-sort k (n ∷ ns) = ground (arith, has-sort_into k n (sort ns), has-sort k ns)

has-unless_head :
    (k n : ℕ) (ns : List ℕ) → has k (unless_head n ns) ≡ (if n == k then true else has k ns)
has-unless_head k n [] = refl
has-unless_head k n (o ∷ os) = ground arith

has-dedup : (k : ℕ) (ns : List ℕ) → has k (dedup ns) ≡ has k ns
unfolding dedup
has-dedup k [] = refl
has-dedup k (n ∷ ns) = ground (arith, has-unless_head k n (dedup ns), has-dedup k ns)

pub has-normal : (k : ℕ) (ns : List ℕ) → has k (normal ns) ≡ has k ns
has-normal k ns = has-dedup k (sort ns) ∙ has-sort k ns

abbrev AllFrom : ℕ → List ℕ → Type 0
AllFrom n [] = Unit
AllFrom n (o ∷ os) = (n ≤ o) × AllFrom n os

abbrev AreSorted : List ℕ → Type 0
AreSorted [] = Unit
AreSorted (n ∷ ns) = AllFrom n ns × AreSorted ns

AllFrom-weaken : (low high : ℕ) (ns : List ℕ) → low ≤ high → AllFrom high ns → AllFrom low ns
AllFrom-weaken low high [] le h = tt
AllFrom-weaken low high (o ∷ os) le (first, rest) =
    (omega (arith, le, first), AllFrom-weaken low high os le rest)

sort_into-AllFrom :
    (low n : ℕ) (ns : List ℕ) → low ≤ n → AllFrom low ns → AllFrom low (sort_into n ns)
unfolding sort_into
sort_into-AllFrom low n [] le h = (le, tt)
sort_into-AllFrom low n (o ∷ os) le (first, rest) =
    if_elim (AllFrom low) (leb n o) (λ e. (le, (first, rest)))
      (λ e. (first, sort_into-AllFrom low n os le rest))

sort_into-AreSorted : (n : ℕ) (ns : List ℕ) → AreSorted ns → AreSorted (sort_into n ns)
unfolding sort_into
sort_into-AreSorted n [] h = (tt, tt)
sort_into-AreSorted n (o ∷ os) (first, rest) =
    if_elim AreSorted (leb n o)
      (λ e. let le = leb→le n o e in ((le, AllFrom-weaken n o os le first), (first, rest)))
      (λ e. (sort_into-AllFrom o n os (ground (arith, e)) first, sort_into-AreSorted n os rest))

sort-AreSorted : (ns : List ℕ) → AreSorted (sort ns)
unfolding sort
sort-AreSorted [] = tt
sort-AreSorted (n ∷ ns) = sort_into-AreSorted n (sort ns) (sort-AreSorted ns)

dedup-AllFrom : (low : ℕ) (ns : List ℕ) → AllFrom low ns → AllFrom low (dedup ns)
unfolding dedup
dedup-AllFrom low [] h = tt
dedup-AllFrom low (n ∷ ns) (first, rest) = kept (dedup ns) (dedup-AllFrom low ns rest)
  where
    kept : (os : List ℕ) → AllFrom low os → AllFrom low (unless_head n os)
    kept [] h = (first, tt)
    kept (o ∷ os) (low_o, h) =
        if_elim (AllFrom low) (n == o) (λ e. (low_o, h)) (λ e. (first, (low_o, h)))

AllOver-lt : (n o : ℕ) (os : List ℕ) → n < o → AllOver o os → AllOver n os
AllOver-lt n o [] lt h = tt
AllOver-lt n o (p ∷ os) lt (first, rest) = (omega (arith, lt, first), AllOver-lt n o os lt rest)

unless_head-AreStrict :
    (n : ℕ) (os : List ℕ) → AllFrom n os → AreStrict os → AreStrict (unless_head n os)
unless_head-AreStrict n [] le h = (tt, tt)
unless_head-AreStrict n (o ∷ os) (le, les) (over, h) =
    if_elim AreStrict (n == o) (λ e. (over, h))
      (λ e. let lt : n < o = ground (arith, e, le) in ((lt, AllOver-lt n o os lt over), (over, h)))

dedup-AreStrict : (ns : List ℕ) → AreSorted ns → AreStrict (dedup ns)
unfolding dedup
dedup-AreStrict [] h = tt
dedup-AreStrict (n ∷ ns) (first, rest) =
    unless_head-AreStrict n (dedup ns) (dedup-AllFrom n ns first) (dedup-AreStrict ns rest)

pub normal-AreStrict : (ns : List ℕ) → AreStrict (normal ns)
normal-AreStrict ns = dedup-AreStrict (sort ns) (sort-AreSorted ns)
