-- ===== src/Tui/Handler/Events.antt =====
-- Every event that crates/nixdex-tui/src/tui.rs handles leaves the app consistent.
use nixdex.Prelude.{
  ℕ, ◌+◌, ◌-◌, ◌≤◌, ◌≡◌, refl, arith, Bool, ◌||◌, Option, none, some, List, [], ◌∷◌, ltb, length,
  length-drop, drop, Bool-cases, if_elim, inl, inr,
}
use nixdex.Tui.App.{App, Text, SearchResult, close_detail, detail_is_pinned}
use nixdex.Tui.App.Selection.{select_next-Moved, select_prev-Moved}
use nixdex.Tui.App.Settings.{result_count}
use nixdex.Tui.Event.{
  AppEvent, MouseEventKind, key, mouse, resize, tick_event, quit_event, no_modifiers, esc, enter,
  char, button_down, left, other_button, scroll_down, scroll_up, other_kind, is_key, is_quit,
  is_escape, is_ctrl_d, is_ctrl_h, is_ctrl_t, as_char,
}
use nixdex.Tui.Handler.{
  handle_key_event, handle_mouse_event, handle_detail_event, handle_event, result_at_row,
  result_in_rows, result_height, click, pinned_event, undetailed_event,
}
use nixdex.Tui.Keys.{is_some}
use nixdex.Tui.Handler.Consistent.{
  IsConsistent, is_visible, say, go_to, show_results, show_input, help_closed, helped, themed,
  navigation, toggles, clipboard, enter_key, mode_key, pinned, pin_key, from_Moved,
}

keyed :
    (copy_to_clipboard : Text → Bool) (now : ℕ) (app : App)
    → IsConsistent app
    → (event : AppEvent) → IsConsistent (handle_key_event copy_to_clipboard now app event)
unfolding handle_key_event
keyed copy_to_clipboard now app c event =
    if_elim IsConsistent app.show_help (λ e. say _ (help_closed app c) _)
      (λ e.
        if_elim IsConsistent (is_quit event) (λ e. say _ c _)
          (λ e.
            if_elim IsConsistent (is_some (as_char event)) (λ e. c)
              (λ e.
                if_elim IsConsistent (is_ctrl_h event) (λ e. say _ (helped app c) _)
                  (λ e.
                    if_elim IsConsistent (is_ctrl_t event) (λ e. say _ (themed app c) _)
                      (λ e.
                        if_elim IsConsistent (is_escape event)
                          (λ e. say _ (show_results _ (show_input app c _) _) _)
                          (λ e.
                            let navigated = navigation app c event in
                            let switched = mode_key _ navigated event in
                            let toggled = toggles _ switched event in
                            let copied = clipboard _ toggled copy_to_clipboard now event in
                            pin_key _ (enter_key _ copied event) event))))))

row_inside :
    (expand : Bool) (remaining offset : ℕ) (results : List SearchResult) (index : ℕ)
    → result_in_rows expand remaining offset results ≡ some index
    → (offset ≤ index) × (index + 1 ≤ offset + length results)
unfolding result_in_rows
row_inside expand remaining offset [] index e = cc e
row_inside expand remaining offset (r ∷ results) index e =
    elim (Bool-cases (ltb remaining (result_height expand r))) [
      | inl h ↦ ground (arith, e, h)
      | inr h ↦
          let below : result_in_rows expand (remaining - result_height expand r) (offset + 1)
                results
              ≡ some index =
            ground (arith, e, h) in
          let (low, high) =
            row_inside expand (remaining - result_height expand r) (offset + 1) results index
              below in
          (omega arith, omega arith)
    ]

clicked :
    (app : App)
    → IsConsistent app
    → (row : Option ℕ) → ((index : ℕ) → row ≡ some index → index ≤ length app.results - 1)
    → IsConsistent (click app row)
clicked app c none inside = c
clicked app c (some index) inside = go_to app c index (inside index refl)

result_at_row_inside :
    (app : App) (row index : ℕ)
    → result_at_row app row ≡ some index
    → index ≤ length app.results - 1
unfolding result_at_row
result_at_row_inside app row index e = elim (Bool-cases (ltb row 3)) [
  | inl h ↦ ground (arith, e, h)
  | inr h ↦
      let found : result_in_rows app.expand_all (row - 3) app.scroll (drop app.scroll app.results)
          ≡ some index =
        ground (arith, e, h) in
      let (low, high) =
        row_inside app.expand_all (row - 3) app.scroll (drop app.scroll app.results) index found in
      let rows = length-drop app.scroll app.results in omega arith
]

moused :
    (app : App)
    → IsConsistent app
    → (kind : MouseEventKind) (row : ℕ) → IsConsistent (handle_mouse_event app (mouse kind row))
unfolding handle_mouse_event
moused app c (button_down left) row =
    if_elim IsConsistent (ltb 0 (result_count app))
      (λ e. clicked app c (result_at_row app row) (result_at_row_inside app row)) (λ e. c)
moused app c (button_down other_button) row = c
moused app c scroll_down row = from_Moved app c (select_next-Moved app (is_visible app c))
moused app c scroll_up row = from_Moved app c (select_prev-Moved app (is_visible app c))
moused app c (other_kind k) row = c

closed : (app : App) → IsConsistent app → IsConsistent (close_detail app)
unfolding IsConsistent close_detail
closed app c = c

detailed :
    (app : App)
    → IsConsistent app
    → (event : AppEvent) → IsConsistent (handle_detail_event app event)
unfolding handle_detail_event
detailed app c event =
    if_elim IsConsistent
      ((is_key esc no_modifiers event || is_key enter no_modifiers event)
        || is_key (char 113) no_modifiers event)
      (λ e. closed app c)
      (λ e.
        if_elim IsConsistent (is_key (char 32) no_modifiers event) (λ e. say _ (pinned app c) _)
          (λ e. c))

held : (app : App) → IsConsistent app → (event : AppEvent) → IsConsistent (pinned_event app event)
held app c event =
    if_elim IsConsistent (is_ctrl_d event) (λ e. say _ (pinned app c) _)
      (λ e. if_elim IsConsistent (is_escape event) (λ e. closed app c) (λ e. c))

module _ (copy_to_clipboard : Text → Bool) (now : ℕ) where
  undetailed :
      (app : App)
      → IsConsistent app
      → (event : AppEvent) → IsConsistent (undetailed_event copy_to_clipboard now app event)
  undetailed app c (key k m) = keyed copy_to_clipboard now app c (key k m)
  undetailed app c (mouse kind row) = moused app c kind row
  undetailed app c (resize w h) = c
  undetailed app c tick_event = c
  undetailed app c quit_event = c

  pub handle_event-IsConsistent :
      (app : App)
      → IsConsistent app
      → (event : AppEvent) → IsConsistent (handle_event copy_to_clipboard now app event)
  unfolding handle_event
  handle_event-IsConsistent app c event =
      if_elim IsConsistent (is_some app.detail)
        (λ e.
          if_elim IsConsistent (detail_is_pinned app) (λ h. held app c event)
            (λ h. detailed app c event))
        (λ e. undetailed app c event)
