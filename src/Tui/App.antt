-- ===== src/Tui/App.antt =====
-- crates/nixdex-tui/src/app.rs: the state of the front end and its operations.
pub mod Selection
pub mod Settings
pub mod Cache
pub mod Requests
mod Tests
use nixdex.Prelude.{
  ℕ, zero, suc, ◌+◌, ◌-◌, ◌%◌, ◌^◌, Bool, true, false, not, Option, none, some, List, [], ◌∷◌, ◌++◌,
  ltb, leb, ◌==◌, if◌then◌else◌, length, get_elem?,
}
use nixdex.Prelude.Bytes.{codes, bytes_eq}
use nixdex.Prelude.Decimal.{decimal}

-- The characters of a text.
abbrev pub Text : Type 0
Text = List ℕ

pub data SearchMode : Type 0 where
  search locate which : SearchMode

-- `database::SearchSort`
pub data SearchSort : Type 0 where
  unsorted size_asc size_desc attr_asc reversed : SearchSort

-- `package_search::SearchField`
pub data SearchField : Type 0 where
  attr_field description_field main_program_field both : SearchField

pub data Theme : Type 0 where
  catppuccin_mocha nord dracula tokyo_night : Theme

pub record SearchResult : Type 0 where
  pub attr : Text
  pub name : Text
  pub description : Text
  pub path : Option Text
  pub size : Option ℕ
  pub license : Option Text
  pub homepage : Option Text
  pub maintainers : List Text
  pub main_program : Option Text

pub record DetailView : Type 0 where
  pub attr : Text
  pub name : Text
  pub description : Text
  pub path : Option Text
  pub size : Option ℕ
  pub license : Option Text
  pub homepage : Option Text
  pub maintainers : List Text
  pub main_program : Option Text
  pub pinned : Bool

pub record Toast : Type 0 where
  pub message : Text
  pub timestamp : ℕ
  pub duration : ℕ

-- A `BTreeMap<String, V>`: what it holds under each key, its order is never looked at.
abbrev pub Map : Type 0 → Type 0
Map V = Text → Option V

pub record App : Type 0 where
  pub mode : SearchMode
  pub input : Text
  pub results : List SearchResult
  pub selected : ℕ
  pub scroll : ℕ
  pub detail : Option DetailView
  pub status_message : Text
  pub status_tick : ℕ
  pub database : Text
  pub search_sort : SearchSort
  pub search_field : SearchField
  pub search_case_sensitive : Bool
  pub search_exact : Bool
  pub search_regex : Bool
  pub search_fuzzy : Bool
  pub search_tiered_fuzzy : Bool
  pub search_limit : Option ℕ
  pub search_count : Bool
  pub search_json : Bool
  pub search_name_only : Bool
  pub search_color : Bool
  pub search_details : Bool
  pub theme : Theme
  pub detail_pinned : Bool
  pub expand_all : Bool
  pub search_cache : Map (List SearchResult)
  pub cache_timestamps : Map ℕ
  pub cache_ttl : ℕ
  pub toasts : List Toast
  pub is_searching : Bool
  pub active_request : Option ℕ
  pub show_help : Bool
  pub reload_requested : Bool
  pub next_request_id : ℕ

unfoldable pub new : Text → App
new database = record {
  mode = search;
  input = [];
  results = [];
  selected = 0;
  scroll = 0;
  detail = none;
  status_message = codes "Press / to search, Tab to switch mode, q to quit";
  status_tick = 0;
  database = database;
  search_sort = unsorted;
  search_field = both;
  search_case_sensitive = false;
  search_exact = false;
  search_regex = false;
  search_fuzzy = false;
  search_tiered_fuzzy = false;
  search_limit = some 50;
  search_count = false;
  search_json = false;
  search_name_only = false;
  search_color = false;
  search_details = false;
  theme = catppuccin_mocha;
  detail_pinned = false;
  expand_all = false;
  search_cache = λ key. none;
  cache_timestamps = λ key. none;
  cache_ttl = 30000;
  toasts = [];
  is_searching = false;
  active_request = none;
  show_help = false;
  reload_requested = false;
  next_request_id = 0;
}

abbrev pub is_pinned : Option DetailView → Bool
is_pinned none = false
is_pinned (some d) = d.pinned

unfoldable pub detail_is_pinned : App → Bool
detail_is_pinned app = is_pinned app.detail

unfoldable pub cancel_search : App → App
cancel_search app = record app { active_request = none; is_searching = false }

mode_message : SearchMode → Text
mode_message search = codes "Search mode — type to search packages"
mode_message locate = codes "Locate mode — type to search files"
mode_message which = codes "Which mode — type a command to find its package"

unfoldable pub set_mode : SearchMode → App → App
unfolding mode_message cancel_search
set_mode mode app = record (cancel_search app) {
  mode = mode;
  input = [];
  results = [];
  selected = 0;
  scroll = 0;
  detail = none;
  detail_pinned = false;
  status_message = mode_message mode;
}

unfoldable pub set_input : Text → App → App
set_input input app = record app {
  input = input;
  selected = 0;
  scroll = 0;
  detail = none;
  detail_pinned = false;
}

unfoldable pub set_results : List SearchResult → App → App
set_results results app = record app {
  results = results;
  selected = 0;
  scroll = 0;
  detail = none;
  detail_pinned = false;
}

-- u16 arithmetic wraps in the release profile.
abbrev pub add_u16 : ℕ → ℕ → ℕ
add_u16 a b = (a + b) % 2 ^ 16

abbrev pub sub_u16 : ℕ → ℕ → ℕ
sub_u16 a b = (a + 2 ^ 16 - b) % 2 ^ 16

-- `u16::try_from(n).unwrap_or_else(|_| u16::MAX)`
abbrev pub clamp_u16 : ℕ → ℕ
clamp_u16 n = if ltb n (2 ^ 16) then n else 2 ^ 16 - 1

unfoldable pub ensure_visible : App → App
ensure_visible app =
    let screen_height : ℕ = 20 in
    let selected_u16 = clamp_u16 app.selected in
    let scroll' =
      if leb (sub_u16 (add_u16 app.scroll screen_height) 3) selected_u16
      then selected_u16 - (screen_height - 4)
      else app.scroll in
    record app { scroll = if ltb selected_u16 scroll' then selected_u16 else scroll' }

unfoldable pub select_next : App → App
unfolding ensure_visible
select_next app =
    if ltb app.selected (length app.results - 1)
    then ensure_visible (record app { selected = app.selected + 1 })
    else app

unfoldable pub select_prev : App → App
unfolding ensure_visible
select_prev app =
    if ltb 0 app.selected then ensure_visible (record app { selected = app.selected - 1 }) else app

-- `for _ in 0..n { … }`
unfoldable pub repeat : ℕ → (App → App) → App → App
repeat zero step app = app
repeat (suc n) step app = repeat n step (step app)

unfoldable pub page_down : App → App
page_down app = repeat 10 select_next app

unfoldable pub page_up : App → App
page_up app = repeat 10 select_prev app

unfoldable pub set_detail : DetailView → App → App
set_detail detail app = record app { detail = some detail }

unfoldable pub close_detail : App → App
close_detail app = record app { detail = none; detail_pinned = false }

abbrev pub toggle_pin : Option DetailView → App → App
toggle_pin none app = app
toggle_pin (some d) app = record app {
  detail = some (record d { pinned = not d.pinned });
  detail_pinned = not d.pinned;
}

unfoldable pub toggle_detail_pin : App → App
toggle_detail_pin app = toggle_pin app.detail app
