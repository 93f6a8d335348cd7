-- ===== src/Tui/Handler.antt =====
-- crates/nixdex-tui/src/tui.rs: what the events do to the state, `handle_event` and its parts. The
-- clipboard program that `copy_to_clipboard` starts is a parameter, as is the time of the event.
pub mod Consistent
pub mod Detail
pub mod Rows
pub mod Events
use nixdex.Prelude.{
  ℕ, ◌+◌, ◌-◌, Bool, true, false, not, ◌&&◌, ◌||◌, Option, none, some, List, [], ◌∷◌, ◌++◌, ltb,
  if◌then◌else◌, drop,
}
use nixdex.Prelude.Bytes.{codes}
use nixdex.Tui.App.{
  App, Text, Theme, SearchMode, SearchResult, DetailView, search, locate, which, catppuccin_mocha,
  nord, dracula, tokyo_night, detail_is_pinned, set_mode, set_input, set_results, select_next,
  select_prev, page_down, page_up, ensure_visible, set_detail, close_detail, toggle_detail_pin,
}
use nixdex.Tui.App.Settings.{
  toggle_expand_all, toggle_fuzzy, toggle_regex, toggle_name_only, toggle_help, cycle_theme,
  set_status, add_toast, selected_result, result_count,
}
use nixdex.Tui.App.Cache.{clear_search_cache}
use nixdex.Tui.Event.{
  AppEvent, key, mouse, no_modifiers, esc, enter, char, button_down, left, scroll_down, scroll_up,
  is_key, is_quit, is_up, is_down, is_page_up, is_page_down, is_home, is_end, is_enter, is_escape,
  is_tab, is_ctrl_d, is_ctrl_h, is_ctrl_r, is_ctrl_j, is_ctrl_t, is_ctrl_a, is_ctrl_y, is_ctrl_e,
  is_ctrl_p, is_ctrl_f, is_ctrl_x, is_ctrl_n, as_char,
}
use nixdex.Tui.Keys.{
  handle_navigation_key, handle_mode_key, handle_search_toggle_key, handle_clipboard_key,
  handle_enter_key, handle_detail_pin_key, is_some, pin_message,
}

is_empty : {A : Type 0} → List A → Bool
is_empty [] = true
is_empty (a ∷ xs) = false

-- `ui::expanded_row_count`
unfoldable pub expanded_row_count : SearchResult → ℕ
unfolding is_empty is_some
expanded_row_count result =
    1
    + (if is_empty result.name then 0 else 1)
    + (if is_empty result.description then 0 else 1)
    + (if is_some result.path then 1 else 0)

abbrev pub result_height : Bool → SearchResult → ℕ
result_height expand_all result = if expand_all then expanded_row_count result else 1

abbrev theme_debug : Theme → Text
theme_debug catppuccin_mocha = codes "CatppuccinMocha"
theme_debug nord = codes "Nord"
theme_debug dracula = codes "Dracula"
theme_debug tokyo_night = codes "TokyoNight"

-- The loop over the results from `offset` on, with `remaining` rows left above the pointer.
unfoldable pub result_in_rows : Bool → ℕ → ℕ → List SearchResult → Option ℕ
result_in_rows expand_all remaining offset [] = none
result_in_rows expand_all remaining offset (result ∷ results) =
    let below =
      result_in_rows expand_all (remaining - result_height expand_all result) (offset + 1)
        results in
    if ltb remaining (result_height expand_all result) then some offset else below

unfoldable pub result_at_row : App → ℕ → Option ℕ
unfolding result_in_rows
result_at_row app row =
    if ltb row 3
    then none
    else result_in_rows app.expand_all (row - 3) app.scroll (drop app.scroll app.results)

module _ (copy_to_clipboard : Text → Bool) (now : ℕ) where
  -- The six handlers at the end of `handle_key_event`, each on the state the one before has left.
  abbrev handle_other_key : App → AppEvent → App
  handle_other_key app event =
      let navigated = handle_navigation_key app event in
      let switched = handle_mode_key navigated event in
      let toggled = handle_search_toggle_key switched event in
      let copied = handle_clipboard_key copy_to_clipboard now toggled event in
      handle_detail_pin_key (handle_enter_key copied event) event

  unfoldable pub handle_key_event : App → AppEvent → App
  unfolding is_some
  handle_key_event app event =
      if app.show_help
      then set_status (codes "Help overlay closed") (record app { show_help = false })
      else if is_quit event
      then set_status (codes "Quitting...") app
      else if is_some (as_char event)
      then app
      else if is_ctrl_h event
      then (let app' = toggle_help app in
          set_status
            (if app'.show_help
              then codes "Help overlay -- press any key to close"
              else codes "Help overlay closed")
            app')
      else if is_ctrl_t event
      then (let app' = cycle_theme app in
          set_status (codes "Theme: " ++ theme_debug app'.theme) app')
      else if is_escape event
      then set_status (codes "Search cleared") (set_results [] (set_input [] app))
      else handle_other_key app event

abbrev pub click : App → Option ℕ → App
click app none = app
click app (some index) = ensure_visible (record app { selected = index })

unfoldable pub handle_mouse_event : App → AppEvent → App
handle_mouse_event app (mouse (button_down left) row) =
    if ltb 0 (result_count app) then click app (result_at_row app row) else app
handle_mouse_event app (mouse scroll_down row) = select_next app
handle_mouse_event app (mouse scroll_up row) = select_prev app
handle_mouse_event app _ = app

-- Esc, Enter and `q` close the pane, a space turns its pin.
unfoldable pub handle_detail_event : App → AppEvent → App
handle_detail_event app event =
    if (is_key esc no_modifiers event || is_key enter no_modifiers event)
      || is_key (char 113) no_modifiers event
    then close_detail app
    else if is_key (char 32) no_modifiers event
    then pin_message (toggle_detail_pin app)
    else app

abbrev pub pinned_event : App → AppEvent → App
pinned_event app event =
    if is_ctrl_d event
    then set_status (codes "Detail unpinned") (toggle_detail_pin app)
    else if is_escape event
    then close_detail app
    else app

module _ (copy_to_clipboard : Text → Bool) (now : ℕ) where
  abbrev pub undetailed_event : App → AppEvent → App
  undetailed_event app (key c m) = handle_key_event copy_to_clipboard now app (key c m)
  undetailed_event app (mouse kind row) = handle_mouse_event app (mouse kind row)
  undetailed_event app _ = app

  unfoldable pub handle_event : App → AppEvent → App
  unfolding is_some
  handle_event app event =
      if is_some app.detail
      then (if detail_is_pinned app then pinned_event app event else handle_detail_event app event)
      else undetailed_event app event
