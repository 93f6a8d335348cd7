-- ===== src/Tui/App/Selection.antt =====
-- The selected index and the field `scroll`, crates/nixdex-tui/src/app.rs. The clicks of tui.rs read the
-- field; the drawing code of ui.rs does not.
use nixdex.Prelude.{
  ℕ, zero, suc, ◌+◌, ◌-◌, ◌^◌, ◌≤◌, ◌<◌, min, ◌≡◌, refl, arith, if_elim, ltb, length, ◌∙◌, ap,
}
use nixdex.Tui.App.{
  App, clamp_u16, ensure_visible, select_next, select_prev, repeat, page_down, page_up,
}

-- The selected index lies in the results, if there are any; and the index, capped at 2^16 - 1, lies
-- in the 17 rows from `scroll` on. An index above 2^16 - 1 may itself be outside them.
pub record InWindow (selected scroll len : ℕ) : Type 0 where
  pub in_results : selected ≤ len - 1
  pub from_scroll : scroll ≤ clamp_u16 selected
  pub in_window : clamp_u16 selected < scroll + 17

abbrev pub IsVisible : App → Type 0
IsVisible app = InWindow app.selected app.scroll (length app.results)

-- For a u16 `scroll`, also where the u16 sum wraps, and a selected index in the results:
-- `ensure_visible` sets `scroll` so that the selected index, capped at 2^16 - 1, is one of the 17 from
-- `scroll` on, and changes nothing else.
pub ensure_visible-IsVisible :
    (app : App)
    → app.scroll < 2 ^ 16
    → app.selected ≤ length app.results - 1
    → IsVisible (ensure_visible app)
      × (ensure_visible app ≡ record app { scroll = (ensure_visible app).scroll })
unfolding ensure_visible
ensure_visible-IsVisible app fits inside =
    (record { in_results = inside; from_scroll = ground arith; in_window = ground arith }, refl)

clamp_u16_bound : (n : ℕ) → clamp_u16 n < 2 ^ 16
clamp_u16_bound n = ground arith

pub scroll_fits : (app : App) → IsVisible app → app.scroll < 2 ^ 16
scroll_fits app v = let b = clamp_u16_bound app.selected in let f = v.from_scroll in omega arith

-- The selection went to a row: the window follows, and nothing else changes.
pub record Moved (selected : ℕ) (app app' : App) : Type 0 where
  pub visible : IsVisible app'
  pub arrived : app'.selected ≡ selected
  pub rest : app' ≡ record app { selected = app'.selected; scroll = app'.scroll }

pub select_next-Moved :
    (app : App)
    → IsVisible app
    → Moved (min (app.selected + 1) (length app.results - 1)) app (select_next app)
unfolding select_next ensure_visible
select_next-Moved app v =
    if_elim (Moved (min (app.selected + 1) (length app.results - 1)) app)
      (ltb app.selected (length app.results - 1))
      (λ e.
        let next : App = record app { selected = app.selected + 1 } in
        let inside : next.selected ≤ length app.results - 1 = ground (arith, e) in
        let (vis, same) = ensure_visible-IsVisible next (scroll_fits app v) inside in
        record { visible = vis; arrived = omega arith; rest = refl })
      (λ e.
        let last = v.in_results in record { visible = v; arrived = ground (arith, e); rest = refl })

pub select_prev-Moved : (app : App) → IsVisible app → Moved (app.selected - 1) app (select_prev app)
unfolding select_prev ensure_visible
select_prev-Moved app v =
    if_elim (Moved (app.selected - 1) app) (ltb 0 app.selected)
      (λ e.
        let prev : App = record app { selected = app.selected - 1 } in
        let last = v.in_results in
        let (vis, same) = ensure_visible-IsVisible prev (scroll_fits app v) (omega arith) in
        record { visible = vis; arrived = refl; rest = refl })
      (λ e. record { visible = v; arrived = ground (arith, e); rest = refl })

-- Steps of the selection compose.
then_Moved :
    {a b : ℕ} {app app' app'' : App} (c : ℕ)
    → Moved a app app'
    → Moved b app' app''
    → b ≡ c
    → Moved c app app''
then_Moved {app''} c first later e = record {
  visible = later.visible;
  arrived = later.arrived ∙ e;
  rest =
      later.rest
      ∙ ap {A = App} (λ u. record u { selected = app''.selected; scroll = app''.scroll })
          first.rest;
}

results_kept :
    {a : ℕ} {app app' : App} → Moved a app app' → length app'.results ≡ length app.results
results_kept m = ap (λ u. length u.results) m.rest

repeat_next :
    (n : ℕ) (app : App)
    → IsVisible app
    → Moved (min (app.selected + n) (length app.results - 1)) app (repeat n select_next app)
unfolding repeat
repeat_next zero app v =
    let last = v.in_results in record { visible = v; arrived = omega arith; rest = refl }
repeat_next (suc n) app v =
    let first = select_next-Moved app v in
    let same = results_kept first in
    let there = first.arrived in
    then_Moved _ first (repeat_next n (select_next app) first.visible) (omega arith)

repeat_prev :
    (n : ℕ) (app : App) → IsVisible app → Moved (app.selected - n) app (repeat n select_prev app)
unfolding repeat
repeat_prev zero app v = record { visible = v; arrived = omega arith; rest = refl }
repeat_prev (suc n) app v =
    let first = select_prev-Moved app v in
    let there = first.arrived in
    then_Moved _ first (repeat_prev n (select_prev app) first.visible) (omega arith)

-- With the selected index in the results and, capped at 2^16 - 1, one of the 17 from `scroll` on: a
-- page down goes ten rows on or to the last row, a page up ten rows back or to the first; `scroll`
-- follows in the same sense, and nothing else changes.
pub page_down-page_up :
    (app : App)
    → IsVisible app
    → Moved (min (app.selected + 10) (length app.results - 1)) app (page_down app)
      × Moved (app.selected - 10) app (page_up app)
unfolding page_down page_up
page_down-page_up app v = (repeat_next 10 app v, repeat_prev 10 app v)
