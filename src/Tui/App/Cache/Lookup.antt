-- ===== src/Tui/App/Cache/Lookup.antt =====
-- What the cache answers, crates/nixdex-tui/src/app.rs.
use nixdex.Prelude.{
  ℕ, ◌≡◌, ◌≢◌, refl, arith, ap, true, false, Option, none, some, List, if◌then◌else◌, if_elim,
}
use nixdex.Prelude.Bytes.{bytes_eq, bytes_eq_refl, bytes_eq→eq}
use nixdex.Tui.App.{App, Text, Map, SearchResult}
use nixdex.Tui.App.Cache.{
  key_settings, cache_key, get_cached_results, cache_results, is_cache_valid, is_fresh, is_live,
  clear_expired_cache, insert, retain, contains_key, keep_if, mode_debug,
}
use mathlib.Core.List.{append_cancel_left, append_cancel_right}
use nixdex.Prelude.Bytes.{codes}

-- Under one choice of settings, two queries have the same key only if they are the same.
pub cache_key-injective : (app : App) (p q : Text) → cache_key p app ≡ cache_key q app → p ≡ q
unfolding cache_key
cache_key-injective app p q e =
    append_cancel_right p q (key_settings app)
      (append_cancel_left (codes "|") _ _ (append_cancel_left (mode_debug app.mode) _ _ e))

insert_self :
    {V : Type 0} (key : Text) (v : V) (entries : Map V) → insert key v entries key ≡ some v
unfolding insert
insert_self key v entries =
    if_elim (λ found. found ≡ some v) (bytes_eq key key) (λ e. refl)
      (λ e. ground (arith, e, bytes_eq_refl key))

insert_other :
    {V : Type 0} (key k : Text) (v : V) (entries : Map V)
    → k ≢ key
    → insert key v entries k ≡ entries k
unfolding insert
insert_other key k v entries different =
    if_elim (λ found. found ≡ entries k) (bytes_eq k key)
      (λ e. absurd (different (bytes_eq→eq k key e))) (λ e. refl)

pub cached_self :
    (at now : ℕ) (query : Text) (results : List SearchResult) (app : App)
    → let cached = cache_results at query results app in
      (get_cached_results query cached ≡ some results)
      × (is_cache_valid now query cached ≡ is_fresh app.cache_ttl now at)
unfolding cache_results get_cached_results is_cache_valid cache_key key_settings
cached_self at now query results app = (
  insert_self (cache_key query app) results app.search_cache,
  ap (λ found. is_live app.cache_ttl now found)
      (insert_self (cache_key query app) at app.cache_timestamps),
)

-- Results that were cached for a query are found for it while they are younger than the time to
-- live, and what is found for any other query under the same settings stays as it was.
pub get_cached_results-cache_results :
    (at now : ℕ) (query other : Text) (results : List SearchResult) (app : App)
    → other ≢ query
    → let cached = cache_results at query results app in
      (get_cached_results query cached ≡ some results)
      × (is_cache_valid now query cached ≡ is_fresh app.cache_ttl now at)
      × (get_cached_results other cached ≡ get_cached_results other app)
      × (is_cache_valid now other cached ≡ is_cache_valid now other app)
unfolding cache_results get_cached_results is_cache_valid cache_key key_settings
get_cached_results-cache_results at now query other results app different =
    let (found, valid) = cached_self at now query results app in
    (
      found,
      valid,
      insert_other (cache_key query app) (cache_key other app) results app.search_cache
          (λ e. different (cache_key-injective app other query e)),
      ap (λ found. is_live app.cache_ttl now found)
          (insert_other (cache_key query app) (cache_key other app) at app.cache_timestamps
            (λ e. different (cache_key-injective app other query e))),
    )

-- Retaining the results whose key has a live time is asking for the time under the same key.
live_results :
    {V : Type 0} (ttl now : ℕ) (time : Option ℕ) (found : Option V)
    → keep_if
        (λ results. elim (keep_if (is_fresh ttl now) time) [ none ↦ false | some v ↦ true ])
        found
      ≡ (if is_live ttl now time then found else none)
live_results ttl now none none = refl
live_results ttl now none (some v) = refl
live_results ttl now (some t) none =
    if_elim (λ x. none ≡ x) (is_fresh ttl now t) (λ e. refl) (λ e. refl)
live_results ttl now (some t) (some v) = ground arith

-- Dropping the aged entries loses exactly the results that are no longer valid: a query that was
-- valid is answered as before, any other is not answered.
pub get_cached_results-clear_expired_cache :
    (now : ℕ) (query : Text) (app : App)
    → get_cached_results query (clear_expired_cache now app)
      ≡ (if is_cache_valid now query app then get_cached_results query app else none)
unfolding clear_expired_cache get_cached_results is_cache_valid retain contains_key cache_key
    key_settings
get_cached_results-clear_expired_cache now query app =
    live_results app.cache_ttl now (app.cache_timestamps (cache_key query app))
      (app.search_cache (cache_key query app))
