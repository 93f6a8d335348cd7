-- ===== src/Index/Trigram/Common.antt =====
-- The items that have several keys, as crates/nixdex-core/src/path_trigram_index.rs and ngram_index.rs
-- look them up.
use mathlib.Core.Path.{subst}
use nixdex.Prelude.{
  ℕ, zero, suc, ◌+◌, ◌<◌, ◌≡◌, refl, sym, ap, ◌∙◌, arith, Bool, true, false, some, get_elem?, List,
  [], ◌∷◌, if◌then◌else◌, if_elim,
}
use nixdex.Prelude.Bytes.{Bytes}
use nixdex.Index.{has, common}
use nixdex.Index.Postings.{AreStrict, AllOver}
use nixdex.Index.Recorded.{has_key, ordinals_from, ordinals_from-AllOver}
use nixdex.Index.Prefix.{AllOver-has}

abbrev pub has_all : List Bytes → List Bytes → Bool
has_all [] item = true
has_all (key ∷ keys) item = if has_key key item then has_all keys item else false

-- The ordinals of the items that have all the keys, the first item with ordinal `n`.
unfoldable pub common_from : ℕ → List Bytes → List (List Bytes) → List ℕ
common_from n keys [] = []
common_from n keys (item ∷ items) =
    let rest = common_from (n + 1) keys items in if has_all keys item then n ∷ rest else rest

common_from-AllOver :
    (n k : ℕ) (keys : List Bytes) (items : List (List Bytes))
    → k < n
    → AllOver k (common_from n keys items)
unfolding common_from
common_from-AllOver n k keys [] lt = tt
common_from-AllOver n k keys (item ∷ items) lt =
    let rest = common_from-AllOver (n + 1) k keys items (omega arith) in
    if_elim (AllOver k) (has_all keys item) (λ e. (lt, rest)) (λ e. rest)

pub common_from-AreStrict :
    (n : ℕ) (keys : List Bytes) (items : List (List Bytes)) → AreStrict (common_from n keys items)
unfolding common_from
common_from-AreStrict n keys [] = tt
common_from-AreStrict n keys (item ∷ items) =
    let rest = common_from-AreStrict (n + 1) keys items in
    if_elim AreStrict (has_all keys item)
      (λ e. (common_from-AllOver (n + 1) n keys items (omega arith), rest)) (λ e. rest)

-- Whether the ordinal is one of each key's.
abbrev pub in_all : ℕ → List Bytes → List (List Bytes) → Bool
in_all k [] items = true
in_all k (key ∷ keys) items =
    if has k (ordinals_from 0 key items) then in_all k keys items else false

has-common_from_cons :
    (n k : ℕ) (key : Bytes) (keys : List Bytes) (items : List (List Bytes))
    → has k (common_from n (key ∷ keys) items)
      ≡ (if has k (ordinals_from n key items) then has k (common_from n keys items) else false)
unfolding common_from ordinals_from
has-common_from_cons n k key keys [] = refl
has-common_from_cons n k key keys (item ∷ items) =
    let later = has-common_from_cons (n + 1) k key keys items in
    let none1 =
      AllOver-has n k (common_from (n + 1) keys items)
        (common_from-AllOver (n + 1) n keys items (omega arith)) in
    let none2 =
      AllOver-has n k (ordinals_from (n + 1) key items)
        (ordinals_from-AllOver (n + 1) n key items (omega arith)) in
    let none3 =
      AllOver-has n k (common_from (n + 1) (key ∷ keys) items)
        (common_from-AllOver (n + 1) n (key ∷ keys) items (omega arith)) in
    ground (arith, later, none1, none2, none3)

has-common_from_nil :
    (n k : ℕ) (key : Bytes) (items : List (List Bytes))
    → has k (ordinals_from n key items) ≡ true
    → has k (common_from n [] items) ≡ true
unfolding common_from ordinals_from
has-common_from_nil n k key [] h = h
has-common_from_nil n k key (item ∷ items) h =
    ground (arith, h, has-common_from_nil (n + 1) k key items)

pub has-common_from :
    (k : ℕ) (key : Bytes) (keys : List Bytes) (items : List (List Bytes))
    → has k (common_from 0 (key ∷ keys) items) ≡ in_all k (key ∷ keys) items
has-common_from k key [] items =
    ground (arith, has-common_from_cons 0 k key [] items, has-common_from_nil 0 k key items)
has-common_from k key (next ∷ keys) items =
    has-common_from_cons 0 k key (next ∷ keys) items
    ∙ ap (λ b. if has k (ordinals_from 0 key items) then b else false)
        (has-common_from k next keys items)

-- An item with all the keys is one of them.
pub common_from-has_all :
    (n i : ℕ) (keys : List Bytes) (items : List (List Bytes)) (item : List Bytes)
    → get_elem? items i ≡ some item
    → has_all keys item ≡ true
    → has (n + i) (common_from n keys items) ≡ true
unfolding common_from
common_from-has_all n i keys [] item h all = cc
common_from-has_all n zero keys (first ∷ items) item h all =
    let same : first ≡ item = cc in
    let all' : has_all keys first ≡ true = subst (λ u. has_all keys u ≡ true) (sym same) all in
    ground (arith, all')
common_from-has_all n (suc i) keys (first ∷ items) item h all =
    let later = common_from-has_all (n + 1) i keys items item h all in
    let later' : has (n + suc i) (common_from (n + 1) keys items) ≡ true =
      subst (λ k. has k (common_from (n + 1) keys items) ≡ true) (omega arith) later in
    ground (arith, later')

-- `common`, the intersection of two sets.
pub has-common :
    (k : ℕ) (ns os : List ℕ) → has k (common ns os) ≡ (if has k ns then has k os else false)
unfolding common
has-common k [] os = refl
has-common k (n ∷ ns) os = ground (arith, has-common k ns os)

common-AllOver : (k : ℕ) (ns os : List ℕ) → AllOver k ns → AllOver k (common ns os)
unfolding common
common-AllOver k [] os h = tt
common-AllOver k (n ∷ ns) os (lt, h) =
    let rest = common-AllOver k ns os h in
    if_elim (AllOver k) (has n os) (λ e. (lt, rest)) (λ e. rest)

pub common-AreStrict : (ns os : List ℕ) → AreStrict ns → AreStrict (common ns os)
unfolding common
common-AreStrict [] os h = tt
common-AreStrict (n ∷ ns) os (over, h) =
    let rest = common-AreStrict ns os h in
    if_elim AreStrict (has n os) (λ e. (common-AllOver n ns os over, rest)) (λ e. rest)
