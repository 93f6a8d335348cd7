-- ===== src/Tui/App/Settings.antt =====
-- crates/nixdex-tui/src/app.rs: the settings that keys change, the status line and the toasts.
use nixdex.Prelude.{
  ℕ, ◌-◌, Bool, false, not, Option, [], ◌∷◌, ◌++◌, leb, if◌then◌else◌, length, get_elem?,
}
use nixdex.Tui.App.{
  App, Theme, Text, Toast, SearchResult, catppuccin_mocha, nord, dracula, tokyo_night,
}

unfoldable pub toggle_expand_all : App → App
toggle_expand_all app = record app { expand_all = not app.expand_all }

unfoldable pub toggle_fuzzy : App → App
toggle_fuzzy app = record app {
  search_fuzzy = not app.search_fuzzy;
  search_regex = if not app.search_fuzzy then false else app.search_regex;
}

unfoldable pub toggle_regex : App → App
toggle_regex app = record app {
  search_regex = not app.search_regex;
  search_fuzzy = if not app.search_regex then false else app.search_fuzzy;
}

unfoldable pub toggle_name_only : App → App
toggle_name_only app = record app { search_name_only = not app.search_name_only }

unfoldable pub toggle_help : App → App
toggle_help app = record app { show_help = not app.show_help }

next_theme : Theme → Theme
next_theme catppuccin_mocha = nord
next_theme nord = dracula
next_theme dracula = tokyo_night
next_theme tokyo_night = catppuccin_mocha

unfoldable pub cycle_theme : App → App
unfolding next_theme
cycle_theme app = record app { theme = next_theme app.theme }

unfoldable pub set_status : Text → App → App
set_status message app = record app { status_message = message }

-- `Toast::new`, at the time `now` in milliseconds.
unfoldable pub new_toast : ℕ → Text → ℕ → Toast
new_toast now message duration = record { message = message; timestamp = now; duration = duration }

-- `self.timestamp.elapsed() >= self.duration`
unfoldable pub is_expired : ℕ → Toast → Bool
is_expired now toast = leb toast.duration (now - toast.timestamp)

unfoldable pub add_toast : ℕ → Text → App → App
unfolding new_toast
add_toast now message app = record app { toasts = app.toasts ++ (new_toast now message 3000 ∷ []) }

unfoldable pub selected_result : App → Option SearchResult
selected_result app = get_elem? app.results app.selected

unfoldable pub result_count : App → ℕ
result_count app = length app.results
