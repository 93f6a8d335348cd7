-- ===== src/Tui/App/Cache.antt =====
-- crates/nixdex-tui/src/app.rs: the cache of search results, and the tick that empties it.
pub mod Lookup
use nixdex.Prelude.{
  ℕ, ◌+◌, ◌-◌, Bool, true, false, not, ◌&&◌, Option, none, some, List, [], ◌∷◌, ◌++◌, ltb,
  if◌then◌else◌,
}
use nixdex.Prelude.Bytes.{codes, bytes_eq}
use nixdex.Prelude.Decimal.{decimal}
use nixdex.Tui.App.{
  App, Text, Map, Toast, SearchMode, SearchSort, SearchField, SearchResult, search, locate, which,
  unsorted, size_asc, size_desc, attr_asc, reversed, attr_field, description_field,
  main_program_field, both,
}
use nixdex.Tui.App.Settings.{is_expired}

-- The `{:?}` of the enums, as derived.
abbrev mode_debug : SearchMode → Text
mode_debug search = codes "Search"
mode_debug locate = codes "Locate"
mode_debug which = codes "Which"

abbrev field_debug : SearchField → Text
field_debug attr_field = codes "Attr"
field_debug description_field = codes "Description"
field_debug main_program_field = codes "MainProgram"
field_debug both = codes "Both"

abbrev sort_debug : SearchSort → Text
sort_debug unsorted = codes "None"
sort_debug size_asc = codes "SizeAsc"
sort_debug size_desc = codes "SizeDesc"
sort_debug attr_asc = codes "AttrAsc"
sort_debug reversed = codes "Reverse"

abbrev bool_text : Bool → Text
bool_text true = codes "true"
bool_text false = codes "false"

abbrev limit_or_zero : Option ℕ → ℕ
limit_or_zero none = 0
limit_or_zero (some v) = v

-- What follows the query in the key: every setting that the search depends on.
unfoldable pub key_settings : App → Text
unfolding decimal
key_settings app =
    codes "|"
    ++ (field_debug app.search_field
        ++ (codes "|"
            ++ (bool_text app.search_case_sensitive
                ++ (codes "|"
                    ++ (bool_text app.search_exact
                        ++ (codes "|"
                            ++ (bool_text app.search_regex
                                ++ (codes "|"
                                    ++ (bool_text app.search_fuzzy
                                        ++ (codes "|"
                                            ++ (bool_text app.search_tiered_fuzzy
                                                ++ (codes "|"
                                                    ++ (sort_debug app.search_sort
                                                        ++ (codes "|"
                                                            ++ (decimal
                                                            (limit_or_zero app.search_limit)
                                                            ++ (codes "|"
                                                            ++ bool_text
                                                            app.search_name_only))))))))))))))))

unfoldable pub cache_key : Text → App → Text
unfolding key_settings
cache_key query app = mode_debug app.mode ++ (codes "|" ++ (query ++ key_settings app))

-- `BTreeMap::insert` and `BTreeMap::retain`.
unfoldable pub insert : {V : Type 0} → Text → V → Map V → Map V
insert key value entries = λ k. if bytes_eq k key then some value else entries k

abbrev keep_if : {V : Type 0} → (V → Bool) → Option V → Option V
keep_if test none = none
keep_if test (some v) = if test v then some v else none

unfoldable pub retain : {V : Type 0} → (Text → V → Bool) → Map V → Map V
retain test entries = λ k. keep_if (test k) (entries k)

unfoldable pub contains_key : {V : Type 0} → Text → Map V → Bool
contains_key key entries = elim (entries key) [ none ↦ false | some v ↦ true ]

unfoldable pub get_cached_results : Text → App → Option (List SearchResult)
get_cached_results query app = app.search_cache (cache_key query app)

unfoldable pub cache_results : ℕ → Text → List SearchResult → App → App
unfolding insert
cache_results now query results app =
    let key = cache_key query app in
    record app {
      search_cache = insert key results app.search_cache;
      cache_timestamps = insert key now app.cache_timestamps;
    }

-- `now.duration_since(ts) < ttl`, where a difference below 0 counts as 0.
abbrev pub is_fresh : ℕ → ℕ → ℕ → Bool
is_fresh ttl now ts = ltb (now - ts) ttl

abbrev pub is_live : ℕ → ℕ → Option ℕ → Bool
is_live ttl now (some ts) = is_fresh ttl now ts
is_live ttl now none = false

unfoldable pub is_cache_valid : ℕ → Text → App → Bool
is_cache_valid now query app =
    is_live app.cache_ttl now (app.cache_timestamps (cache_key query app))

unfoldable pub clear_search_cache : App → App
clear_search_cache app = record app { search_cache = λ key. none; cache_timestamps = λ key. none }

unfoldable pub clear_expired_cache : ℕ → App → App
unfolding retain contains_key
clear_expired_cache now app =
    let live = retain (λ key ts. is_fresh app.cache_ttl now ts) app.cache_timestamps in
    record app {
      cache_timestamps = live;
      search_cache = retain (λ key results. contains_key key live) app.search_cache;
    }

abbrev unexpired : ℕ → List Toast → List Toast
unexpired now [] = []
unexpired now (t ∷ toasts) =
    if is_expired now t then unexpired now toasts else t ∷ unexpired now toasts

unfoldable pub tick : ℕ → App → App
unfolding clear_expired_cache is_expired
tick now app =
    clear_expired_cache now
      (record app { status_tick = app.status_tick + 1; toasts = unexpired now app.toasts })
