-- ===== src/Tui/Handler/Consistent.antt =====
-- The invariant of the app, and the key handlers of crates/nixdex-tui/src/tui.rs that keep it.
use nixdex.Prelude.{
  ℕ, ◌-◌, ◌≤◌, ◌≡◌, refl, arith, sym, Bool, true, false, not, ◌&&◌, Option, none, some, List,
  length, if_elim,
}
use mathlib.Core.Path.{subst}
use nixdex.Tui.App.{
  App, Text, SearchMode, SearchResult, DetailView, cancel_search, set_mode, set_input, set_results,
  ensure_visible, set_detail, toggle_detail_pin, toggle_pin,
}
use nixdex.Tui.App.Selection.{
  InWindow, IsVisible, Moved, ensure_visible-IsVisible, scroll_fits, select_next-Moved,
  select_prev-Moved, page_down-page_up,
}
use nixdex.Tui.App.Settings.{
  toggle_expand_all, toggle_fuzzy, toggle_regex, toggle_name_only, toggle_help, cycle_theme,
  set_status, add_toast, selected_result, result_count,
}
use nixdex.Tui.App.Cache.{clear_search_cache}
use nixdex.Tui.Event.{
  AppEvent, is_up, is_down, is_page_up, is_page_down, is_home, is_end, is_enter, is_tab, is_ctrl_d,
  is_ctrl_r, is_ctrl_j, is_ctrl_a, is_ctrl_y, is_ctrl_e, is_ctrl_p, is_ctrl_f, is_ctrl_x, is_ctrl_n,
}
use nixdex.Tui.Keys.{
  handle_navigation_key, handle_mode_key, handle_search_toggle_key, handle_clipboard_key,
  handle_enter_key, handle_detail_pin_key, is_some, next_mode, copy_result, open_result,
}

abbrev has_request : Option ℕ → Bool
has_request none = false
has_request (some id) = true

pub record Consistent (selected scroll len : ℕ) (fuzzy regex searching : Bool) (active : Option ℕ)
    : Type 0 where
  pub visible : InWindow selected scroll len
  pub one_matcher : (fuzzy && regex) ≡ false
  pub spinner : searching ≡ has_request active

-- The selected index lies in the results and, capped, in the window of `scroll`, at most one of
-- fuzzy and regex matching is on, and the search indicator is on exactly while there is a request to wait for.
unfoldable pub IsConsistent : App → Type 0
IsConsistent app =
    Consistent app.selected app.scroll (length app.results) app.search_fuzzy app.search_regex
      app.is_searching app.active_request

pub top_InWindow : (len : ℕ) → InWindow 0 0 len
top_InWindow len = record {
  in_results = omega arith;
  from_scroll = omega arith;
  in_window = omega arith;
}

pub is_visible : (app : App) → IsConsistent app → IsVisible app
unfolding IsConsistent
is_visible app c = c.visible

pub say : (app : App) → IsConsistent app → (message : Text) → IsConsistent (set_status message app)
unfolding IsConsistent set_status
say app c message = c

-- Each handler on a consistent app.
module _ (app : App) (c : IsConsistent app) where
  pub from_Moved : {n : ℕ} {app' : App} → Moved n app app' → IsConsistent app'
  unfolding IsConsistent
  from_Moved {app'} m =
      subst
        (λ u.
          Consistent app'.selected app'.scroll (length app'.results) u.search_fuzzy u.search_regex
            u.is_searching u.active_request)
        (sym m.rest)
        (record { visible = m.visible; one_matcher = c.one_matcher; spinner = c.spinner })

  pub go_to :
      (index : ℕ)
      → index ≤ length app.results - 1
      → IsConsistent (ensure_visible (record app { selected = index }))
  unfolding ensure_visible IsConsistent
  go_to index inside =
      let (vis, same) =
        ensure_visible-IsVisible (record app { selected = index }) (scroll_fits app c.visible)
          inside in
      record { visible = vis; one_matcher = c.one_matcher; spinner = c.spinner }

  go_home : IsConsistent (record app { selected = 0; scroll = 0 })
  unfolding IsConsistent
  go_home = record {
    visible = top_InWindow (length app.results);
    one_matcher = c.one_matcher;
    spinner = c.spinner;
  }

  to_last : IsConsistent (ensure_visible (record app { selected = result_count app - 1 }))
  unfolding result_count
  to_last = go_to (length app.results - 1) (omega arith)

  pub show_results : (results : List SearchResult) → IsConsistent (set_results results app)
  unfolding IsConsistent set_results
  show_results results = record {
    visible = top_InWindow (length results);
    one_matcher = c.one_matcher;
    spinner = c.spinner;
  }

  pub show_input : (input : Text) → IsConsistent (set_input input app)
  unfolding IsConsistent set_input
  show_input input = record {
    visible = top_InWindow (length app.results);
    one_matcher = c.one_matcher;
    spinner = c.spinner;
  }

  change_mode : (mode : SearchMode) → IsConsistent (set_mode mode app)
  unfolding IsConsistent set_mode cancel_search
  change_mode mode = record {
    visible = top_InWindow 0;
    one_matcher = c.one_matcher;
    spinner = refl;
  }

  refreshed : IsConsistent (record (clear_search_cache app) { reload_requested = true })
  unfolding IsConsistent clear_search_cache
  refreshed = c

  json : IsConsistent (record app { search_json = not app.search_json })
  unfolding IsConsistent
  json = c

  expanded : IsConsistent (toggle_expand_all app)
  unfolding IsConsistent toggle_expand_all
  expanded = c

  name_only : IsConsistent (toggle_name_only app)
  unfolding IsConsistent toggle_name_only
  name_only = c

  toasted : (now : ℕ) (message : Text) → IsConsistent (add_toast now message app)
  unfolding IsConsistent add_toast
  toasted now message = c

  pub help_closed : IsConsistent (record app { show_help = false })
  unfolding IsConsistent
  help_closed = c

  pub helped : IsConsistent (toggle_help app)
  unfolding IsConsistent toggle_help
  helped = c

  pub themed : IsConsistent (cycle_theme app)
  unfolding IsConsistent cycle_theme
  themed = c

  pub retire : IsConsistent (cancel_search app)
  unfolding IsConsistent cancel_search
  retire = record { visible = c.visible; one_matcher = c.one_matcher; spinner = refl }

  fuzzy : IsConsistent (record (toggle_fuzzy app) { reload_requested = true })
  unfolding IsConsistent toggle_fuzzy
  fuzzy = record { visible = c.visible; one_matcher = ground arith; spinner = c.spinner }

  regex : IsConsistent (record (toggle_regex app) { reload_requested = true })
  unfolding IsConsistent toggle_regex
  regex = record { visible = c.visible; one_matcher = ground arith; spinner = c.spinner }

  pub navigation : (event : AppEvent) → IsConsistent (handle_navigation_key app event)
  unfolding handle_navigation_key
  navigation event =
      let (down, up) = page_down-page_up app (is_visible app c) in
      if_elim IsConsistent (is_up event)
        (λ e. from_Moved (select_prev-Moved app (is_visible app c)))
        (λ e.
          if_elim IsConsistent (is_down event)
            (λ e. from_Moved (select_next-Moved app (is_visible app c)))
            (λ e.
              if_elim IsConsistent (is_page_up event) (λ e. from_Moved up)
                (λ e.
                  if_elim IsConsistent (is_page_down event) (λ e. from_Moved down)
                    (λ e.
                      if_elim IsConsistent (is_home event) (λ e. go_home)
                        (λ e. if_elim IsConsistent (is_end event) (λ e. to_last) (λ e. c))))))

  pub toggles : (event : AppEvent) → IsConsistent (handle_search_toggle_key app event)
  unfolding handle_search_toggle_key
  toggles event =
      if_elim IsConsistent (is_ctrl_r event) (λ e. say _ refreshed _)
        (λ e.
          if_elim IsConsistent (is_ctrl_j event) (λ e. say _ json _)
            (λ e.
              if_elim IsConsistent (is_ctrl_a event) (λ e. say _ expanded _)
                (λ e.
                  if_elim IsConsistent (is_ctrl_f event) (λ e. say _ fuzzy _)
                    (λ e.
                      if_elim IsConsistent (is_ctrl_x event) (λ e. say _ regex _)
                        (λ e.
                          if_elim IsConsistent (is_ctrl_n event) (λ e. say _ name_only _)
                            (λ e. c))))))

  pub clipboard :
      (copy_to_clipboard : Text → Bool) (now : ℕ) (event : AppEvent)
      → IsConsistent (handle_clipboard_key copy_to_clipboard now app event)
  unfolding handle_clipboard_key
  clipboard copy_to_clipboard now event =
      if_elim IsConsistent _ (λ e. c) (λ e. copied (selected_result app))
    where
      copied :
          (result : Option SearchResult)
          → IsConsistent (copy_result copy_to_clipboard now app event result)
      copied none = c
      copied (some result) =
          if_elim IsConsistent (is_ctrl_y event) (λ e. toasted now _)
            (λ e.
              if_elim IsConsistent (is_ctrl_e event) (λ e. toasted now _)
                (λ e. if_elim IsConsistent (is_ctrl_p event) (λ e. toasted now _) (λ e. c)))

  opened : (result : Option SearchResult) → IsConsistent (open_result app result)
  unfolding IsConsistent set_detail
  opened none = c
  opened (some result) = c

  pub enter_key : (event : AppEvent) → IsConsistent (handle_enter_key app event)
  unfolding handle_enter_key
  enter_key event =
      if_elim IsConsistent (not (is_enter event)) (λ e. c) (λ e. opened (selected_result app))

pub mode_key :
    (app : App) → IsConsistent app → (event : AppEvent) → IsConsistent (handle_mode_key app event)
unfolding handle_mode_key
mode_key app c event =
    if_elim IsConsistent (is_tab event) (λ e. say _ (change_mode app c (next_mode app.mode)) _)
      (λ e. c)

turned :
    (app : App)
    → IsConsistent app
    → (detail : Option DetailView) → IsConsistent (toggle_pin detail app)
unfolding IsConsistent
turned app c none = c
turned app c (some d) = c

pub pinned : (app : App) → IsConsistent app → IsConsistent (toggle_detail_pin app)
unfolding toggle_detail_pin
pinned app c = turned app c app.detail

pub pin_key :
    (app : App)
    → IsConsistent app
    → (event : AppEvent) → IsConsistent (handle_detail_pin_key app event)
unfolding handle_detail_pin_key
pin_key app c event =
    if_elim IsConsistent (not (is_ctrl_d event)) (λ e. c)
      (λ e.
        if_elim IsConsistent (is_some app.detail) (λ e. say _ (pinned app c) _) (λ e. say _ c _))
