-- ===== src/Index/Command/Build.antt =====
-- What the builder of crates/nixdex-core/src/command_index.rs has recorded.
use nixdex.Prelude.{
  ℕ, ◌≡◌, refl, ap, ◌∙◌, arith, Bool, true, false, not, List, [], ◌∷◌, ◌++◌, ◌==◌, if◌then◌else◌,
  if_elim, Bool-cases, inl, inr,
}
use nixdex.Prelude.Bytes.{Bytes, bytes_eq, bytes_eq_refl, bytes_eq→eq}
use nixdex.Prelude.SortedMap.{
  SortedMap, IsAscending, lookup, or_default, adjust, adjust-IsAscending, lookup-adjust,
}
use nixdex.Index.{has, is_empty}
use nixdex.Index.Recorded.{has_key}
use nixdex.Index.Basename.{basename_of}
use nixdex.Index.Command.{CommandProvider, provider_eq, is_command_candidate, record_commands}

-- Packages in the order in which they are recorded: each a provider and its paths.
abbrev pub Packages : Type 0
Packages = List (CommandProvider × List Bytes)

-- The commands among the paths.
unfoldable pub commands_of : List Bytes → List Bytes
commands_of [] = []
commands_of (path ∷ paths) =
    let rest = commands_of paths in
    if not (is_command_candidate path)
    then rest
    else if is_empty (basename_of path)
    then rest
    else basename_of path ∷ rest

-- Whether a package of the provider has the command.
unfoldable pub provides : Bytes → CommandProvider → Packages → Bool
provides command q [] = false
provides command q ((p, paths) ∷ packages) =
    let rest = provides command q packages in
    if provider_eq p q then (if has_key command (commands_of paths) then true else rest) else rest

unfoldable pub is_member : CommandProvider → List CommandProvider → Bool
is_member p [] = false
is_member p (q ∷ providers) =
    let rest = is_member p providers in if provider_eq q p then true else rest

-- The providers, each once, after the ones that are there.
unfoldable pub distinct : List CommandProvider → Packages → List CommandProvider
distinct providers [] = providers
distinct providers ((p, paths) ∷ packages) =
    distinct (if is_member p providers then providers else providers ++ (p ∷ [])) packages

same_flag : (a b : Bool) → (if a then b else not b) ≡ true → a ≡ b
same_flag true true h = refl
same_flag true false h = cc
same_flag false true h = cc
same_flag false false h = refl

abbrev make : Bytes → Bytes → Bool → CommandProvider
make attr output toplevel = record { attr = attr; output = output; toplevel = toplevel }

pub provider_eq→eq : (p q : CommandProvider) → provider_eq p q ≡ true → p ≡ q
unfolding provider_eq
provider_eq→eq p q h =
    let attr : p.attr ≡ q.attr = bytes_eq→eq p.attr q.attr (ground (arith, h)) in
    let output : p.output ≡ q.output = bytes_eq→eq p.output q.output (ground (arith, h)) in
    let toplevel : p.toplevel ≡ q.toplevel = same_flag p.toplevel q.toplevel (ground (arith, h)) in
    ap (λ u. make u p.output p.toplevel) attr
    ∙ ap (λ u. make q.attr u p.toplevel) output
    ∙ ap (λ u. make q.attr q.output u) toplevel

pub provider_eq_refl : (p : CommandProvider) → provider_eq p p ≡ true
unfolding provider_eq
provider_eq_refl p = ground (arith, bytes_eq_refl p.attr, bytes_eq_refl p.output)

has-push : (k n : ℕ) (ns : List ℕ) → has k (ns ++ (n ∷ [])) ≡ (if n == k then true else has k ns)
has-push k n [] = refl
has-push k n (o ∷ os) = ground (arith, has-push k n os)

pub record_commands-IsAscending :
    (id : ℕ) (paths : List Bytes) (m : SortedMap (List ℕ))
    → IsAscending m
    → IsAscending (record_commands id paths m)
unfolding record_commands
record_commands-IsAscending id [] m h = h
record_commands-IsAscending id (path ∷ paths) m h = record_commands-IsAscending id paths _ (
    if_elim IsAscending (not (is_command_candidate path)) (λ e. h)
      (λ e.
        if_elim IsAscending (is_empty (basename_of path)) (λ e. h)
          (λ e. adjust-IsAscending (basename_of path) [] (λ ids. ids ++ (id ∷ [])) m h)))

has-adjusted :
    (k id : ℕ) (key command : Bytes) (m : SortedMap (List ℕ))
    → IsAscending m
    → has k (or_default [] (lookup command (adjust key [] (λ ids. ids ++ (id ∷ [])) m))) ≡ (
        if bytes_eq key command
        then (if id == k then true else has k (or_default [] (lookup command m)))
        else has k (or_default [] (lookup command m)))
has-adjusted k id key command m h =
    rw (lookup-adjust key [] (λ ids. ids ++ (id ∷ [])) m command h)
      (elim (Bool-cases (bytes_eq key command)) [
        | inl e ↦ rw e (
            has-push k id (or_default [] (lookup key m))
            ∙ ap (λ u. if id == k then true else has k (or_default [] (lookup u m)))
                (bytes_eq→eq key command e))
        | inr e ↦ rw e refl
      ])

pub has-record_commands :
    (k id : ℕ) (paths : List Bytes) (command : Bytes) (m : SortedMap (List ℕ))
    → IsAscending m
    → has k (or_default [] (lookup command (record_commands id paths m))) ≡ (
        if has_key command (commands_of paths)
        then (if id == k then true else has k (or_default [] (lookup command m)))
        else has k (or_default [] (lookup command m)))
unfolding record_commands commands_of
has-record_commands k id [] command m h = refl
has-record_commands k id (path ∷ paths) command m h =
    let base = basename_of path in
    let same = has-record_commands k id paths command m h in
    let m' = adjust base [] (λ ids. ids ++ (id ∷ [])) m in
    let more =
      has-record_commands k id paths command m'
        (adjust-IsAscending base [] (λ ids. ids ++ (id ∷ [])) m h) in
    let here = has-adjusted k id base command m h in
    elim (Bool-cases (is_command_candidate path)) [
      | inl c ↦ elim (Bool-cases (is_empty base)) [
        | inl e ↦ rw (c, e) same
        | inr e ↦ rw (c, e) (ground (arith, more, here))
      ]
      | inr c ↦ rw c same
    ]
