-- ===== src/Index/Trigram/Windows.antt =====
-- The three-byte windows of a path, crates/nixdex-core/src/path_trigram_index.rs.
use nixdex.Prelude.{ℕ, ◌≡◌, refl, arith, true, List, [], ◌∷◌, ◌++◌, ltb, length}
use nixdex.Prelude.Bytes.{Bytes, bytes_eq_refl}
use nixdex.Index.Recorded.{has_key}
use nixdex.Index.Trigram.{trigrams}
use nixdex.Index.Trigram.Common.{has_all}

-- The windows of a path that contains the pattern.
has_all-cons :
    (keys : List Bytes) (key : Bytes) (item : List Bytes)
    → has_all keys item ≡ true
    → has_all keys (key ∷ item) ≡ true
has_all-cons [] key item h = refl
has_all-cons (first ∷ keys) key item h = ground (arith, h, has_all-cons keys key item)

has_all-trigrams_append :
    (pattern after : Bytes) → has_all (trigrams pattern) (trigrams (pattern ++ after)) ≡ true
unfolding trigrams
has_all-trigrams_append [] after = refl
has_all-trigrams_append (a ∷ []) after = refl
has_all-trigrams_append (a ∷ b ∷ []) after = refl
has_all-trigrams_append (a ∷ b ∷ c ∷ rest) after =
    let first : Bytes = a ∷ b ∷ c ∷ [] in
    let later =
      has_all-cons (trigrams (b ∷ c ∷ rest)) first (trigrams (b ∷ c ∷ (rest ++ after)))
        (has_all-trigrams_append (b ∷ c ∷ rest) after) in
    rw (bytes_eq_refl first) later

has_all-trigrams_cons :
    (keys : List Bytes) (b : ℕ) (path : Bytes)
    → has_all keys (trigrams path) ≡ true
    → has_all keys (trigrams (b ∷ path)) ≡ true
unfolding trigrams
has_all-trigrams_cons keys b [] h = h
has_all-trigrams_cons keys b (c ∷ []) h = h
has_all-trigrams_cons keys b (c ∷ d ∷ rest) h =
    has_all-cons keys (b ∷ c ∷ d ∷ []) (trigrams (c ∷ d ∷ rest)) h

pub has_all-trigrams :
    (before pattern after : Bytes)
    → has_all (trigrams pattern) (trigrams (before ++ (pattern ++ after))) ≡ true
has_all-trigrams [] pattern after = has_all-trigrams_append pattern after
has_all-trigrams (b ∷ before) pattern after =
    has_all-trigrams_cons (trigrams pattern) b (before ++ (pattern ++ after))
      (has_all-trigrams before pattern after)

pub trigrams_short : (path : Bytes) → ltb (length path) 3 ≡ true → trigrams path ≡ []
unfolding trigrams
trigrams_short [] h = refl
trigrams_short (a ∷ []) h = refl
trigrams_short (a ∷ b ∷ []) h = refl
trigrams_short (a ∷ b ∷ c ∷ rest) h = absurd (ground (arith, h))

has_key-append :
    (key : Bytes) (item other : List Bytes)
    → has_key key item ≡ true
    → has_key key (item ++ other) ≡ true
has_key-append key [] other h = cc
has_key-append key (k ∷ item) other h = ground (arith, h, has_key-append key item other)

pub has_all-append :
    (keys item other : List Bytes) → has_all keys item ≡ true → has_all keys (item ++ other) ≡ true
has_all-append [] item other h = refl
has_all-append (key ∷ keys) item other h =
    ground (arith, h, has_key-append key item other, has_all-append keys item other)

pub has_all-after :
    (keys item other : List Bytes) → has_all keys item ≡ true → has_all keys (other ++ item) ≡ true
has_all-after keys item [] h = h
has_all-after keys item (key ∷ other) h =
    has_all-cons keys key (other ++ item) (has_all-after keys item other h)
