-- ===== src/Tui/Loop/Tests.antt =====
-- Runs of the event loop, and the theorems about it at a concrete state.
use nixdex.Prelude.{◌≡◌, refl, arith, Bool, true, false, none, some, []}
use nixdex.Prelude.Bytes.{codes}
use nixdex.Tui.App.{App, Text, DetailView, search, new, detail_is_pinned}
use nixdex.Tui.App.Requests.{SearchOutcome}
use nixdex.Tui.Event.{key, char, is_key, control, no_modifiers}
use nixdex.Prelude.{drop, ◌-◌, ◌∷◌}
use nixdex.Tui.App.{SearchResult}
use nixdex.Tui.Handler.Rows.{Hits, result_at_row-Hits}
use nixdex.Tui.Handler.{
  result_at_row, result_in_rows, expanded_row_count, handle_event, handle_detail_event,
}
use nixdex.Tui.Keys.{is_some}
use nixdex.Tui.Handler.Consistent.{IsConsistent}
use nixdex.Tui.Loop.{
  Tui, SearchTx, Reachable, started, stepped, event_step, debounce_step, start, on_event,
  on_debounce, dispatch_search, apply_search_outcome,
}
use nixdex.Tui.Loop.Invariant.{Reachable-IsConsistent}
use nixdex.Tui.Loop.Outcome.{
  apply_search_outcome-dispatch_search, dispatch_search-apply_search_outcome,
}

abbrev no_clipboard : Text → Bool
no_clipboard text = false

-- `v` typed, and the debounce timer.
abbrev searching : Tui
searching =
    on_debounce 310 (on_event no_clipboard 10 (key (char 118) no_modifiers) (start (codes "/db")))

searching-Reachable : Reachable no_clipboard searching
searching-Reachable =
    stepped
      (stepped (started (codes "/db"))
        (event_step 10 (key (char 118) no_modifiers) (start (codes "/db"))))
      (debounce_step 310
        (on_event no_clipboard 10 (key (char 118) no_modifiers) (start (codes "/db"))))

Reachable-IsConsistent_example : IsConsistent searching.app
Reachable-IsConsistent_example = Reachable-IsConsistent no_clipboard searching-Reachable

abbrev idle_app : App
idle_app = record (new (codes "/db")) {
  active_request = some 3;
  is_searching = true;
  next_request_id = 3;
  cache_ttl = 30000;
}

abbrev open_tx : SearchTx
open_tx = record { is_open = true; sent = [] }

abbrev old_outcome : SearchOutcome
old_outcome = record { id = 3; query = codes "v"; mode = search; results = some []; status = none }

apply_search_outcome-dispatch_search_example :
    apply_search_outcome 500 ((dispatch_search 400 idle_app (codes "vi") open_tx).0) old_outcome
    ≡ (dispatch_search 400 idle_app (codes "vi") open_tx).0
apply_search_outcome-dispatch_search_example =
    apply_search_outcome-dispatch_search 400 500 idle_app (codes "vi") open_tx old_outcome
      (omega arith) (omega arith)

dispatch_search-apply_search_outcome_example :
    let again =
      dispatch_search 500 (apply_search_outcome 400 idle_app old_outcome) (codes "v") open_tx in
    (again.0.results ≡ [])
    × (again.0.is_searching ≡ false)
    × (again.0.active_request ≡ none)
    × (again.1 ≡ open_tx)
dispatch_search-apply_search_outcome_example =
    dispatch_search-apply_search_outcome 400 500 3 idle_app (codes "v") search [] none open_tx refl
      refl (omega arith)

abbrev pane : DetailView
pane = record {
  attr = codes "hello";
  name = codes "hello";
  description = codes "A greeting";
  path = none;
  size = none;
  license = none;
  homepage = none;
  maintainers = [];
  main_program = none;
  pinned = false;
}

abbrev reading : App
reading = record (new (codes "/db")) { detail = some pane }

-- Ctrl+D on an open pane that is not pinned.
ctrl_d_ignored : handle_event no_clipboard 10 reading (key (char 100) control) ≡ reading
unfolding handle_event handle_detail_event detail_is_pinned is_some is_key
ctrl_d_ignored = refl

-- The second of two expanded results, of three rows each.
abbrev listed : SearchResult
listed = record {
  attr = codes "hello";
  name = codes "hello";
  description = codes "A greeting";
  path = none;
  size = none;
  license = none;
  homepage = none;
  maintainers = [];
  main_program = none;
}

abbrev expanded_app : App
expanded_app = record (new (codes "/db")) { results = listed ∷ listed ∷ []; expand_all = true }

second_hit : result_at_row expanded_app 7 ≡ some 1
unfolding result_at_row result_in_rows expanded_row_count new
second_hit = refl

result_at_row-Hits_example :
    Hits expanded_app.expand_all
      (drop expanded_app.scroll expanded_app.results)
      expanded_app.scroll
      (7 - 3)
      (result_at_row expanded_app 7)
result_at_row-Hits_example = result_at_row-Hits expanded_app 7 (omega arith)
