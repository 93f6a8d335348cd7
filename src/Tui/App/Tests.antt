-- ===== src/Tui/App/Tests.antt =====
-- Runs of the app's operations, and the theorems about them at a concrete state.
use nixdex.Prelude.{
  ◌+◌, ◌-◌, min, ◌≡◌, ◌≢◌, refl, arith, none, some, [], ◌∷◌, if◌then◌else◌, length, replicate,
}
use nixdex.Prelude.Bytes.{codes}
use nixdex.Tui.App.{
  App, SearchResult, new, ensure_visible, select_next, select_prev, repeat, page_down, page_up,
}
use nixdex.Tui.App.Selection.{IsVisible, Moved, ensure_visible-IsVisible, page_down-page_up}
use nixdex.Tui.App.Cache.{
  get_cached_results, cache_results, is_cache_valid, is_fresh, clear_expired_cache, cache_key,
  key_settings,
}
use nixdex.Tui.App.Cache.Lookup.{
  get_cached_results-cache_results, get_cached_results-clear_expired_cache,
}

abbrev hello : SearchResult
hello = record {
  attr = codes "hello";
  name = codes "hello";
  description = codes "A greeting";
  path = none;
  size = none;
  license = none;
  homepage = none;
  maintainers = [];
  main_program = none;
}

-- Thirty results with the cursor on row 25 of a window that begins at row 12.
abbrev browsing : App
browsing = record (new (codes "/db")) { results = replicate 30 hello; selected = 25; scroll = 12 }

browsing-IsVisible : IsVisible browsing
browsing-IsVisible = record {
  in_results = omega arith;
  from_scroll = omega arith;
  in_window = omega arith;
}

down : (page_down browsing).selected ≡ 29
unfolding page_down select_next ensure_visible repeat
down = refl

up : (page_up browsing).selected ≡ 15
unfolding page_up select_prev ensure_visible repeat
up = refl

page_down-page_up_example :
    Moved (min (browsing.selected + 10) (length browsing.results - 1)) browsing (page_down browsing)
    × Moved (browsing.selected - 10) browsing (page_up browsing)
page_down-page_up_example = page_down-page_up browsing browsing-IsVisible

-- A window far past the selected row, where the u16 sum wraps.
abbrev lost : App
lost = record browsing { scroll = 65530 }

ensure_visible-IsVisible_example :
    IsVisible (ensure_visible lost)
    × (ensure_visible lost ≡ record lost { scroll = (ensure_visible lost).scroll })
ensure_visible-IsVisible_example = ensure_visible-IsVisible lost (omega arith) (omega arith)

key_hello :
    cache_key (codes "a|b") browsing
    ≡ codes "Search|a|b|Both|false|false|false|false|false|None|50|false"
unfolding cache_key key_settings new
key_hello = refl

hello_ne_vim : codes "vim" ≢ codes "hello"
hello_ne_vim e = cc

get_cached_results-cache_results_example :
    let cached = cache_results 100 (codes "hello") (hello ∷ []) browsing in
    (get_cached_results (codes "hello") cached ≡ some (hello ∷ []))
    × (is_cache_valid 200 (codes "hello") cached ≡ is_fresh browsing.cache_ttl 200 100)
    × (get_cached_results (codes "vim") cached ≡ get_cached_results (codes "vim") browsing)
    × (is_cache_valid 200 (codes "vim") cached ≡ is_cache_valid 200 (codes "vim") browsing)
get_cached_results-cache_results_example =
    get_cached_results-cache_results 100 200 (codes "hello") (codes "vim") (hello ∷ []) browsing
      hello_ne_vim

abbrev warm : App
warm = cache_results 100 (codes "hello") (hello ∷ []) browsing

get_cached_results-clear_expired_cache_example :
    get_cached_results (codes "hello") (clear_expired_cache 200 warm) ≡ (
      if is_cache_valid 200 (codes "hello") warm
      then get_cached_results (codes "hello") warm
      else none)
get_cached_results-clear_expired_cache_example =
    get_cached_results-clear_expired_cache 200 (codes "hello") warm
