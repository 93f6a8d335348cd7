-- ===== src/Index/Command/Providers.antt =====
-- The providers of crates/nixdex-core/src/command_index.rs, each with one id.
use mathlib.Core.Path.{subst}
use nixdex.Prelude.{
  ℕ, zero, suc, ◌+◌, ◌^◌, ◌≤◌, ◌<◌, ◌≡◌, refl, sym, ap, ◌∙◌, arith, Bool, true, false, none, some,
  List, [], ◌∷◌, ◌++◌, ltb, lt→ltb, if◌then◌else◌, length, length-append, get_elem?, ok, Bool-cases,
  Option-cases, inl, inr, ◌⊎◌,
}
use nixdex.Prelude.SortedMap.{IsAscending}
use nixdex.Index.Command.{CommandProvider, CommandIndexBuilder, provider_eq, find_id, provider_id}
use nixdex.Index.Command.Build.{is_member, provider_eq→eq, provider_eq_refl}

-- Providers, and the ids that the index of the builder gives for them.
abbrev pub AreDistinct : List CommandProvider → Type 0
AreDistinct providers =
    (i j : ℕ) (p q : CommandProvider)
    → get_elem? providers i ≡ some p
    → get_elem? providers j ≡ some q
    → provider_eq p q ≡ true
    → i ≡ j

abbrev pub IsConsistent : CommandIndexBuilder → Type 0
IsConsistent b =
    ((p : CommandProvider) (id : ℕ)
      → find_id p b.provider_index ≡ some id
      → get_elem? b.providers id ≡ some p)
    × ((p : CommandProvider) → find_id p b.provider_index ≡ none → is_member p b.providers ≡ false)
    × AreDistinct b.providers
    × IsAscending b.commands

-- The first list's providers are the first ones of the second.
abbrev pub IsPrefix : List CommandProvider → List CommandProvider → Type 0
IsPrefix providers more =
    (i : ℕ) (p : CommandProvider) → get_elem? providers i ≡ some p → get_elem? more i ≡ some p

pub get_elem?-append :
    {A : Type 0} (xs ys : List A) (i : ℕ) (x : A)
    → get_elem? xs i ≡ some x
    → get_elem? (xs ++ ys) i ≡ some x
get_elem?-append [] ys i x h = cc
get_elem?-append (y ∷ xs) ys zero x h = h
get_elem?-append (y ∷ xs) ys (suc i) x h = get_elem?-append xs ys i x h

pub get_elem?-append_last :
    {A : Type 0} (xs : List A) (x : A) → get_elem? (xs ++ (x ∷ [])) (length xs) ≡ some x
get_elem?-append_last [] x = refl
get_elem?-append_last (y ∷ xs) x = get_elem?-append_last xs x

-- What is at an index after a push was there, or is last.
pub get_elem?-push_cases :
    {A : Type 0} (xs : List A) (x : A) (i : ℕ) (y : A)
    → get_elem? (xs ++ (x ∷ [])) i ≡ some y
    → (get_elem? xs i ≡ some y) ⊎ ((i ≡ length xs) × (x ≡ y))
get_elem?-push_cases [] x zero y h = inr (refl, cc)
get_elem?-push_cases [] x (suc i) y h = cc
get_elem?-push_cases (z ∷ xs) x zero y h = inl h
get_elem?-push_cases (z ∷ xs) x (suc i) y h = elim (get_elem?-push_cases xs x i y h) [
  | inl old ↦ inl old
  | inr (e, same) ↦ inr (ap suc e, same)
]

pub is_member-get_elem? :
    (p q : CommandProvider) (providers : List CommandProvider) (i : ℕ)
    → is_member p providers ≡ false
    → get_elem? providers i ≡ some q
    → provider_eq q p ≡ false
unfolding is_member
is_member-get_elem? p q [] i h at = cc
is_member-get_elem? p q (first ∷ providers) zero h at =
    let same : first ≡ q = cc in subst (λ u. provider_eq u p ≡ false) same (ground (arith, h))
is_member-get_elem? p q (first ∷ providers) (suc i) h at =
    is_member-get_elem? p q providers i (ground (arith, h)) at

pub is_member-found :
    (p : CommandProvider) (providers : List CommandProvider) (i : ℕ)
    → get_elem? providers i ≡ some p
    → is_member p providers ≡ true
unfolding is_member
is_member-found p [] i at = cc
is_member-found p (first ∷ providers) zero at =
    let same : first ≡ p = cc in
    ground (arith, subst (λ u. provider_eq u p ≡ true) (sym same) (provider_eq_refl p))
is_member-found p (first ∷ providers) (suc i) at = ground (arith, is_member-found p providers i at)

pub is_member-push :
    (p q : CommandProvider) (providers : List CommandProvider)
    → is_member q (providers ++ (p ∷ []))
      ≡ (if is_member q providers then true else provider_eq p q)
unfolding is_member
is_member-push p q [] = ground arith
is_member-push p q (first ∷ providers) = ground (arith, is_member-push p q providers)

abbrev pushed : CommandProvider → CommandIndexBuilder → CommandIndexBuilder
pushed p b = record b {
  providers = b.providers ++ (p ∷ []);
  provider_index = (p, length b.providers) ∷ b.provider_index;
}

pushed-AreDistinct :
    (p : CommandProvider) (providers : List CommandProvider)
    → is_member p providers ≡ false
    → AreDistinct providers
    → AreDistinct (providers ++ (p ∷ []))
pushed-AreDistinct p providers new distinct i j a b at_i at_j e =
    elim (get_elem?-push_cases providers p i a at_i) [
      | inl old_i ↦ elim (get_elem?-push_cases providers p j b at_j) [
        | inl old_j ↦ distinct i j a b old_i old_j e
        | inr (last, same) ↦
            let ne = is_member-get_elem? p a providers i new old_i in
            absurd (ground (arith, ne, subst (λ u. provider_eq a u ≡ true) (sym same) e))
      ]
      | inr (last_i, same_i) ↦ elim (get_elem?-push_cases providers p j b at_j) [
        | inl old_j ↦
            let equal : p ≡ b = same_i ∙ provider_eq→eq a b e in
            let ne = is_member-get_elem? p b providers j new old_j in
            absurd
              (ground (arith, ne, subst (λ u. provider_eq u p ≡ true) equal (provider_eq_refl p)))
        | inr (last_j, same_j) ↦ last_i ∙ sym last_j
      ]
    ]

pushed-IsConsistent :
    (p : CommandProvider) (b : CommandIndexBuilder)
    → find_id p b.provider_index ≡ none
    → IsConsistent b
    → IsConsistent (pushed p b)
unfolding find_id
pushed-IsConsistent p b absent (found, missing, distinct, ascending) = (
  (λ q id h. elim (Bool-cases (provider_eq p q)) [
    | inl e ↦
        let last : length b.providers ≡ id = ids (length b.providers) id (sym (rw e refl) ∙ h) in
        subst (λ u. get_elem? (b.providers ++ (p ∷ [])) u ≡ some q) last
          (get_elem?-append_last b.providers p ∙ ap some (provider_eq→eq p q e))
    | inr e ↦ get_elem?-append b.providers (p ∷ []) id q (found q id (sym (rw e refl) ∙ h))
  ]),
  (λ q h. elim (Bool-cases (provider_eq p q)) [
    | inl e ↦
        clash (length b.providers) (is_member q (b.providers ++ (p ∷ []))) (sym (rw e refl) ∙ h)
    | inr e ↦
        let old = missing q (sym (rw e refl) ∙ h) in
        is_member-push p q b.providers ∙ ground (arith, old, e)
  ]),
  pushed-AreDistinct p b.providers (missing p absent) distinct,
  ascending,
)
  where
    ids : (a id : ℕ) → some a ≡ some id → a ≡ id
    ids a id h = cc

    clash : (a : ℕ) (c : Bool) → some a ≡ none → c ≡ false
    clash a c h = cc

-- What `provider_id` gives: the provider at its id, new if it was not there.
abbrev pub Identifies : CommandProvider → CommandIndexBuilder → CommandIndexBuilder → ℕ → Type 0
Identifies p b b' id =
    IsConsistent b'
    × IsPrefix b.providers b'.providers
    × (get_elem? b'.providers id ≡ some p)
    × (b'.commands ≡ b.commands)
    × (b'.providers ≡ (if is_member p b.providers then b.providers else b.providers ++ (p ∷ [])))
    × (length b'.providers ≤ length b.providers + 1)

pub provider_id-Identifies :
    (p : CommandProvider) (b : CommandIndexBuilder)
    → IsConsistent b
    → length b.providers < 2 ^ 32
    → (b' : CommandIndexBuilder) × (id : ℕ) × (provider_id p b ≡ (b', ok id)) × Identifies p b b' id
unfolding provider_id
provider_id-Identifies p b (found, missing, distinct, ascending) small =
    elim (Option-cases (find_id p b.provider_index)) [
      | inl e ↦
          let room : ltb (length b.providers) (2 ^ 32) ≡ true = lt→ltb _ _ small in
          let new = missing p e in
          (
            pushed p b,
            length b.providers,
            rw (e, room) refl,
            (
              pushed-IsConsistent p b e (found, missing, distinct, ascending),
              λ i q at. get_elem?-append b.providers (p ∷ []) i q at,
              get_elem?-append_last b.providers p,
              refl,
              rw new refl,
              omega (arith, length-append b.providers (p ∷ [])),
            ),
          )
      | inr (id, e) ↦
          let at = found p id e in
          (
            b,
            id,
            rw e refl,
            (
              (found, missing, distinct, ascending),
              λ i q h. h,
              at,
              refl,
              rw (is_member-found p b.providers id at) refl,
              omega arith,
            ),
          )
    ]
