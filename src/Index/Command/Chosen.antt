-- ===== src/Index/Command/Chosen.antt =====
-- The providers of a command and their ids, crates/nixdex-core/src/command_index.rs.
use mathlib.Core.Path.{subst}
use nixdex.Prelude.{
  ℕ, zero, suc, ◌+◌, ◌^◌, ◌≤◌, ◌<◌, ◌≡◌, refl, sym, ◌∙◌, arith, Bool, some, List, [], ◌∷◌,
  if◌then◌else◌, if_elim, length, get_elem?, ok, Bool-cases, inl, inr,
}
use nixdex.Prelude.Bytes.{Bytes}
use nixdex.Index.{Fst, has}
use nixdex.Index.Postings.{AreStrict, AllOver, AreWords, IsPackable}
use nixdex.Index.Prefix.{AllOver-has, AreStrict-ext}
use nixdex.Index.Command.{CommandProvider}
use nixdex.Index.Command.Reader.{CommandIndex, provider_at, providers_at}
use nixdex.Index.Command.Sorted.{normal, has-normal, normal-AreStrict}
use nixdex.Index.Command.Build.{Packages, provides}
use nixdex.Index.Command.Recorded.{marked}

module _ (command : Bytes) (packages : Packages) where
  -- The providers that provide the command.
  unfoldable pub providing : List CommandProvider → List CommandProvider
  providing [] = []
  providing (q ∷ providers) =
      let rest = providing providers in if provides command q packages then q ∷ rest else rest

  -- Their ids, the first provider having id `n`.
  unfoldable pub ids_from : ℕ → List CommandProvider → List ℕ
  ids_from n [] = []
  ids_from n (q ∷ providers) =
      let rest = ids_from (n + 1) providers in
      if provides command q packages then n ∷ rest else rest

  ids_from-AllOver :
      (n k : ℕ) (providers : List CommandProvider) → k < n → AllOver k (ids_from n providers)
  unfolding ids_from
  ids_from-AllOver n k [] lt = tt
  ids_from-AllOver n k (q ∷ providers) lt =
      let rest = ids_from-AllOver (n + 1) k providers (omega arith) in
      if_elim (AllOver k) (provides command q packages) (λ e. (lt, rest)) (λ e. rest)

  ids_from-AreStrict : (n : ℕ) (providers : List CommandProvider) → AreStrict (ids_from n providers)
  unfolding ids_from
  ids_from-AreStrict n [] = tt
  ids_from-AreStrict n (q ∷ providers) =
      let rest = ids_from-AreStrict (n + 1) providers in
      if_elim AreStrict (provides command q packages)
        (λ e. (ids_from-AllOver (n + 1) n providers (omega arith), rest)) (λ e. rest)

  ids_from-AreWords :
      (n : ℕ) (providers : List CommandProvider)
      → n + length providers < 2 ^ 32
      → AreWords (ids_from n providers)
  unfolding ids_from
  ids_from-AreWords n [] h = tt
  ids_from-AreWords n (q ∷ providers) h =
      let rest = ids_from-AreWords (n + 1) providers (omega (arith, h)) in
      if_elim AreWords (provides command q packages) (λ e. (omega (arith, h), rest)) (λ e. rest)

  abbrev HasAtMost : ℕ → List ℕ → Type 0
  HasAtMost n os = length os ≤ n

  length-ids_from :
      (n : ℕ) (providers : List CommandProvider) → length (ids_from n providers) ≤ length providers
  unfolding ids_from
  length-ids_from n [] = omega arith
  length-ids_from n (q ∷ providers) =
      let rest = length-ids_from (n + 1) providers in
      if_elim (HasAtMost (suc (length providers))) (provides command q packages) (λ e. more rest)
        (λ e. less rest)
    where
      more :
          length (ids_from (n + 1) providers) ≤ length providers
          → length (n ∷ ids_from (n + 1) providers) ≤ suc (length providers)
      more h = omega (arith, h)

      less :
          length (ids_from (n + 1) providers) ≤ length providers
          → length (ids_from (n + 1) providers) ≤ suc (length providers)
      less h = omega (arith, h)

  pub ids_from-IsPackable :
      (providers : List CommandProvider) (max_ids : ℕ)
      → length providers ≤ max_ids
      → max_ids < 2 ^ 32
      → IsPackable max_ids (ids_from 0 providers)
  ids_from-IsPackable providers max_ids few small = (
    ids_from-AreStrict 0 providers,
    ids_from-AreWords 0 providers (omega (arith, few, small)),
    omega (arith, few, length-ids_from 0 providers),
  )

  has-ids_from :
      (n i : ℕ) (providers : List CommandProvider)
      → has (n + i) (ids_from n providers) ≡ marked command packages (get_elem? providers i)
  unfolding ids_from
  has-ids_from n i [] = refl
  has-ids_from n zero (q ∷ providers) = ground (
    arith,
    AllOver-has n (n + 0) (ids_from (n + 1) providers)
        (ids_from-AllOver (n + 1) n providers (omega arith)),
  )
  has-ids_from n (suc i) (q ∷ providers) =
      let later : has (n + suc i) (ids_from (n + 1) providers)
          ≡ marked command packages (get_elem? providers i) =
        subst
          (λ k.
            has k (ids_from (n + 1) providers) ≡ marked command packages (get_elem? providers i))
          (omega arith) (has-ids_from (n + 1) i providers) in
      ground (arith, later)

  -- Ids that stand for the marked providers are these, once sorted and each once.
  pub normal-ids_from :
      (ids : List ℕ) (providers : List CommandProvider)
      → ((k : ℕ) → has k ids ≡ marked command packages (get_elem? providers k))
      → normal ids ≡ ids_from 0 providers
  normal-ids_from ids providers held =
      AreStrict-ext (normal ids) (ids_from 0 providers) (normal-AreStrict ids)
        (ids_from-AreStrict 0 providers)
        (λ k.
          has-normal k ids
          ∙ held k
          ∙ sym (
              subst
                (λ u.
                  has u (ids_from 0 providers) ≡ marked command packages (get_elem? providers k))
                (omega arith) (has-ids_from 0 k providers)))

  module _ (f : Fst) (is_utf8 : Bytes → Bool) where
    -- The table has the providers from id `n` on.
    abbrev pub Has : CommandIndex f → ℕ → List CommandProvider → Type 0
    Has index n providers =
        (i : ℕ) (p : CommandProvider)
        → get_elem? providers i ≡ some p
        → provider_at f is_utf8 index (n + i) ≡ ok p

    pub providers_at-ids_from :
        (index : CommandIndex f) (n : ℕ) (providers : List CommandProvider)
        → Has index n providers
        → providers_at f is_utf8 index (ids_from n providers) ≡ ok (providing providers)
    unfolding providers_at ids_from providing
    providers_at-ids_from index n [] at = refl
    providers_at-ids_from index n (q ∷ providers) at =
        let first : provider_at f is_utf8 index n ≡ ok q =
          subst (λ u. provider_at f is_utf8 index u ≡ ok q) (omega arith) (at 0 q refl) in
        let later = providers_at-ids_from index (n + 1) providers (λ i p h.
          subst (λ u. provider_at f is_utf8 index u ≡ ok p) (omega arith) (at (suc i) p h)) in
        elim (Bool-cases (provides command q packages)) [
          | inl e ↦ rw (e, first, later) refl
          | inr e ↦ rw (e, later) refl
        ]
