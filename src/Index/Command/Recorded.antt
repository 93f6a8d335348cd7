-- ===== src/Index/Command/Recorded.antt =====
-- What the recorded packages leave in the builder of crates/nixdex-core/src/command_index.rs.
use mathlib.Core.Path.{subst}
use nixdex.Prelude.{
  ℕ, ◌+◌, ◌^◌, ◌≤◌, ◌<◌, ◌≡◌, refl, sym, ap, ◌∙◌, arith, Bool, true, false, Option, none, some,
  List, [], ◌∷◌, ◌==◌, ==_iff, if◌then◌else◌, length, get_elem?, Result, ok, err, Bool-cases,
  Option-cases, inl, inr,
}
use nixdex.Prelude.Bytes.{Bytes}
use nixdex.Prelude.SortedMap.{lookup, or_default}
use nixdex.Index.{Error, has}
use nixdex.Index.Recorded.{has_key}
use nixdex.Index.Command.{
  CommandProvider, CommandIndexBuilder, provider_eq, record_commands, record_package,
}
use nixdex.Index.Command.Build.{
  Packages, commands_of, provides, distinct, provider_eq_refl, has-record_commands,
  record_commands-IsAscending,
}
use nixdex.Index.Command.Providers.{AreDistinct, IsConsistent, IsPrefix, provider_id-Identifies}

abbrev after_package :
    CommandIndexBuilder × Result ℕ Error
    → (CommandIndexBuilder → Result CommandIndexBuilder Error)
    → Result CommandIndexBuilder Error
after_package (b, err e) f = err e
after_package (b, ok id) f = f b

-- The calls of `record_package`, up to the first that fails.
unfoldable pub record_packages : Packages → CommandIndexBuilder → Result CommandIndexBuilder Error
record_packages [] b = ok b
record_packages ((p, paths) ∷ packages) b =
    after_package (record_package p paths b) (λ b'. record_packages packages b')

-- Whether the provider at an id, if there is one, provides the command.
abbrev pub marked : Bytes → Packages → Option CommandProvider → Bool
marked command packages none = false
marked command packages (some q) = provides command q packages

-- What the builder holds after packages were recorded into `b`.
abbrev pub Holds : Packages → CommandIndexBuilder → CommandIndexBuilder → Type 0
Holds packages b b' =
    IsConsistent b'
    × IsPrefix b.providers b'.providers
    × (b'.providers ≡ distinct b.providers packages)
    × (length b'.providers ≤ length b.providers + length packages)
    × ((k : ℕ) (command : Bytes)
        → has k (or_default [] (lookup command b'.commands)) ≡ (
            if has k (or_default [] (lookup command b.commands))
            then true
            else marked command packages (get_elem? b'.providers k)))

marked_nil : (command : Bytes) (o : Option CommandProvider) → marked command [] o ≡ false
unfolding provides
marked_nil command none = refl
marked_nil command (some q) = refl

-- The provider recorded first, at its id, among those that are there in the end.
marked-first :
    (providers : List CommandProvider)
    → AreDistinct providers
    → (p : CommandProvider) (id k : ℕ) → get_elem? providers id ≡ some p
    → (command : Bytes) (paths : List Bytes) (packages : Packages)
    → marked command ((p, paths) ∷ packages) (get_elem? providers k) ≡ (
        if id == k
        then (if has_key command (commands_of paths)
            then true
            else marked command packages (get_elem? providers k))
        else marked command packages (get_elem? providers k))
unfolding provides
marked-first providers apart p id k at command paths packages =
    elim (Option-cases (get_elem? providers k)) [
      | inl e ↦ rw e (elim (Bool-cases (id == k)) [
        | inl here ↦ absent (sym at ∙ ap (get_elem? providers) ((==_iff id k).0 here) ∙ e)
        | inr away ↦ rw away refl
      ])
      | inr (q, e) ↦ rw (e, is_same q e) refl
    ]
  where
    absent : {B : Type 0} {a b : B} → some p ≡ none → a ≡ b
    absent h = cc

    found : (q : CommandProvider) → some p ≡ some q → p ≡ q
    found q h = cc

    is_same : (q : CommandProvider) → get_elem? providers k ≡ some q → provider_eq p q ≡ (id == k)
    is_same q e = elim (Bool-cases (id == k)) [
      | inl here ↦
          let same : p ≡ q =
            found q (sym at ∙ ap (get_elem? providers) ((==_iff id k).0 here) ∙ e) in
          subst (λ u. provider_eq p u ≡ true) same (provider_eq_refl p) ∙ sym here
      | inr away ↦ elim (Bool-cases (provider_eq p q)) [
        | inl eq ↦ eq ∙ sym ((==_iff id k).1 (apart id k p q at e eq))
        | inr ne ↦ ne ∙ sym away
      ]
    ]

pub record_packages-Holds :
    (packages : Packages) (b : CommandIndexBuilder)
    → IsConsistent b
    → length b.providers + length packages < 2 ^ 32
    → (b' : CommandIndexBuilder) × (record_packages packages b ≡ ok b') × Holds packages b b'
unfolding record_packages record_package distinct
record_packages-Holds [] b consistent small = (
  b,
  refl,
  (
    consistent,
    (λ i p at. at),
    refl,
    omega arith,
    λ k command. ground (arith, marked_nil command (get_elem? b.providers k)),
  ),
)
record_packages-Holds ((p, paths) ∷ packages) b consistent small =
    let (
      b1,
      id,
      named,
      ((found, missing, apart, ascending), before, at, commands, providers, count),
    ) =
      provider_id-Identifies p b consistent (omega (arith, small)) in
    let b2 : CommandIndexBuilder = record b1 { commands = record_commands id paths b1.commands } in
    let (b', done, (consistent', after, all, total, held)) =
      record_packages-Holds packages b2
        (found, missing, apart, record_commands-IsAscending id paths b1.commands ascending)
        (omega (arith, small, count)) in
    let (found', missing', apart', ascending') = consistent' in
    (
      b',
      rw (named, done) refl,
      (
        consistent',
        (λ i q h. after i q (before i q h)),
        all ∙ ap (λ u. distinct u packages) providers,
        omega (arith, total, count),
        λ k command.
            let now = has-record_commands k id paths command b1.commands ascending in
            let first =
              marked-first b'.providers apart' p id k (after id p at) command paths packages in
            let old = ap (λ u. has k (or_default [] (lookup command u))) commands in
            ground (arith, held k command, now, first, old),
      ),
    )
