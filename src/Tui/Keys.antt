-- ===== src/Tui/Keys.antt =====
-- crates/nixdex-tui/src/tui.rs: what each group of keys does, from `handle_navigation_key` to
-- `handle_detail_pin_key`. The clipboard program that `copy_to_clipboard` starts is a parameter, as is
-- the time of the event.
use nixdex.Prelude.{ℕ, ◌-◌, Bool, true, false, not, ◌&&◌, Option, none, some, ◌++◌, if◌then◌else◌}
use nixdex.Prelude.Bytes.{codes}
use nixdex.Tui.App.{
  App, Text, SearchMode, SearchResult, DetailView, search, locate, which, set_mode, select_next,
  select_prev, page_down, page_up, ensure_visible, set_detail, toggle_detail_pin,
}
use nixdex.Tui.App.Settings.{
  toggle_expand_all, toggle_fuzzy, toggle_regex, toggle_name_only, set_status, add_toast,
  selected_result, result_count,
}
use nixdex.Tui.App.Cache.{clear_search_cache}
use nixdex.Tui.Event.{
  AppEvent, is_up, is_down, is_page_up, is_page_down, is_home, is_end, is_enter, is_tab, is_ctrl_d,
  is_ctrl_r, is_ctrl_j, is_ctrl_a, is_ctrl_y, is_ctrl_e, is_ctrl_p, is_ctrl_f, is_ctrl_x, is_ctrl_n,
}

unfoldable pub is_some : {A : Type 0} → Option A → Bool
is_some none = false
is_some (some a) = true

unfoldable pub handle_navigation_key : App → AppEvent → App
handle_navigation_key app event =
    if is_up event
    then select_prev app
    else if is_down event
    then select_next app
    else if is_page_up event
    then page_up app
    else if is_page_down event
    then page_down app
    else if is_home event
    then record app { selected = 0; scroll = 0 }
    else if is_end event
    then ensure_visible (record app { selected = result_count app - 1 })
    else app

abbrev pub next_mode : SearchMode → SearchMode
next_mode search = locate
next_mode locate = which
next_mode which = search

abbrev mode_name : SearchMode → Text
mode_name search = codes "search"
mode_name locate = codes "locate"
mode_name which = codes "which"

unfoldable pub handle_mode_key : App → AppEvent → App
handle_mode_key app event =
    if is_tab event
    then set_status (codes "Switched to " ++ (mode_name (next_mode app.mode) ++ codes " mode"))
        (set_mode (next_mode app.mode) app)
    else app

abbrev on_off : Bool → Text
on_off switched_on = if switched_on then codes "on" else codes "off"

unfoldable pub handle_search_toggle_key : App → AppEvent → App
handle_search_toggle_key app event =
    if is_ctrl_r event
    then set_status (codes "Refreshing...")
        (record (clear_search_cache app) { reload_requested = true })
    else if is_ctrl_j event
    then (let app' : App = record app { search_json = not app.search_json } in
        set_status (codes "JSON output " ++ on_off app'.search_json) app')
    else if is_ctrl_a event
    then (let app' = toggle_expand_all app in
        set_status (codes "Expand all " ++ on_off app'.expand_all) app')
    else if is_ctrl_f event
    then (let app' : App = record (toggle_fuzzy app) { reload_requested = true } in
        set_status (codes "Fuzzy " ++ on_off app'.search_fuzzy) app')
    else if is_ctrl_x event
    then (let app' : App = record (toggle_regex app) { reload_requested = true } in
        set_status (codes "Regex " ++ on_off app'.search_regex) app')
    else if is_ctrl_n event
    then (let app' = toggle_name_only app in
        set_status (codes "Name only " ++ on_off app'.search_name_only) app')
    else app

unfoldable pub clipboard_toast : Bool → Text → Text
clipboard_toast copied success_message =
    if copied
    then success_message
    else codes "Clipboard unavailable (no xclip/wl-copy/pbcopy/clip found)"

module _ (copy_to_clipboard : Text → Bool) (now : ℕ) where
  abbrev pub copy_result : App → AppEvent → Option SearchResult → App
  copy_result app event none = app
  copy_result app event (some result) =
      if is_ctrl_y event
      then add_toast now
          (clipboard_toast (copy_to_clipboard result.attr) (codes "Copied: " ++ result.attr)) app
      else if is_ctrl_e event
      then add_toast now
          (clipboard_toast (copy_to_clipboard (codes "nix-env -iA nixpkgs." ++ result.attr))
            (codes "Copied install command"))
          app
      else if is_ctrl_p event
      then add_toast now
          (clipboard_toast (copy_to_clipboard (codes "nix profile install nixpkgs#" ++ result.attr))
            (codes "Copied profile command"))
          app
      else app

  unfoldable pub handle_clipboard_key : App → AppEvent → App
  handle_clipboard_key app event =
      if not (is_ctrl_y event) && (not (is_ctrl_e event) && not (is_ctrl_p event))
      then app
      else copy_result app event (selected_result app)

unfoldable pub detail_of : SearchResult → DetailView
detail_of result = record {
  attr = result.attr;
  name = result.name;
  description = result.description;
  path = result.path;
  size = result.size;
  license = result.license;
  homepage = result.homepage;
  maintainers = result.maintainers;
  main_program = result.main_program;
  pinned = false;
}

abbrev pub open_result : App → Option SearchResult → App
open_result app none = app
open_result app (some result) = set_detail (detail_of result) app

unfoldable pub handle_enter_key : App → AppEvent → App
handle_enter_key app event =
    if not (is_enter event) then app else open_result app (selected_result app)

abbrev pub pin_message : App → App
pin_message app =
    set_status (codes "Detail " ++ (if app.detail_pinned then codes "pinned" else codes "unpinned"))
      app

unfoldable pub handle_detail_pin_key : App → AppEvent → App
unfolding is_some
handle_detail_pin_key app event =
    if not (is_ctrl_d event)
    then app
    else if is_some app.detail
    then pin_message (toggle_detail_pin app)
    else set_status (codes "No detail pane to pin -- select a result first") app
