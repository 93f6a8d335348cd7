-- ===== src/Tui/Loop.antt =====
-- crates/nixdex-tui/src/tui.rs: the event loop of `run_tui`, with the state that it keeps beside the
-- app, and what sends requests to the search worker and takes its outcomes. Times are milliseconds.
pub mod Invariant
pub mod Outcome
mod Tests
use nixdex.Prelude.{
  ℕ, ◌+◌, ◌-◌, Bool, true, false, not, ◌&&◌, ◌||◌, Option, none, some, List, [], ◌∷◌, ◌++◌, ◌==◌,
  ltb, if◌then◌else◌,
}
use nixdex.Prelude.Bytes.{codes, bytes_eq}
use nixdex.Prelude.Decimal.{decimal}
use nixdex.Tui.App.{
  App, Text, SearchResult, new, detail_is_pinned, cancel_search, set_input, set_results,
}
use nixdex.Tui.App.Settings.{set_status, result_count}
use nixdex.Tui.App.Cache.{get_cached_results, cache_results, is_cache_valid, tick}
use nixdex.Tui.App.Requests.{SearchRequest, SearchOutcome, search_request}
use nixdex.Tui.Event.{AppEvent, no_modifiers, backspace, is_key, is_escape, is_tab, as_char}
use nixdex.Tui.Handler.{handle_event}

-- The sending end of the channel to the search worker: what was sent on it, and whether the worker
-- still holds the other end.
pub record SearchTx : Type 0 where
  pub is_open : Bool
  pub sent : List SearchRequest

-- The locals of `run_tui`.
pub record Tui : Type 0 where
  pub app : App
  pub pending_query : Option Text
  pub debounce_deadline : Option ℕ
  pub dispatched_query : Option Text
  pub search_tx : SearchTx

abbrev pub debounce_delay : ℕ
debounce_delay = 300

unfoldable pub start : Text → Tui
start database = record {
  app = record (new database) { cache_ttl = 30000 };
  pending_query = none;
  debounce_deadline = none;
  dispatched_query = none;
  search_tx = record { is_open = true; sent = [] };
}

unfoldable pub send_search : App → SearchRequest → SearchTx → App × SearchTx
send_search app request tx =
    let waiting : App = record app { is_searching = true; active_request = some request.id } in
    if tx.is_open
    then (waiting, record tx { sent = tx.sent ++ (request ∷ []) })
    else (set_status (codes "Search worker stopped") (cancel_search waiting), tx)

-- `search_request` and then `send_search`.
abbrev pub send_request : SearchRequest × App → SearchTx → App × SearchTx
send_request (request, app) tx = send_search app request tx

abbrev pub is_empty : Text → Bool
is_empty [] = true
is_empty (c ∷ text) = false

abbrev pub cached_message : App → Text
cached_message app = codes "Found " ++ (decimal (result_count app) ++ codes " result(s) (cached)")

-- The answer to a query for which the cache holds `cached`, if it is still valid.
abbrev pub answer : Text → Bool → Option (List SearchResult) → App → SearchTx → App × SearchTx
answer query true (some cached) app tx =
    let app' = set_results cached (cancel_search app) in (set_status (cached_message app') app', tx)
answer query true none app tx = send_request (search_request query app) tx
answer query false found app tx = send_request (search_request query app) tx

unfoldable pub dispatch_search : ℕ → App → Text → SearchTx → App × SearchTx
dispatch_search now app query tx =
    if is_empty query
    then (set_results [] (cancel_search app), tx)
    else answer query (is_cache_valid now query app) (get_cached_results query app) app tx

abbrev pub as_reload : SearchRequest × App → SearchRequest × App
as_reload (request, app) = (record request { reload = true }, app)

unfoldable pub dispatch_reload : App → SearchTx → App × SearchTx
dispatch_reload app tx =
    let app' : App = record app { reload_requested = false } in
    if not app.reload_requested
    then (app, tx)
    else if is_empty app.input
    then (set_status (codes "Nothing to refresh") app', tx)
    else send_request (as_reload (search_request app.input app')) tx

-- `pending_query.take().unwrap_or_else(|| app.input.clone())`
abbrev pub typed : Tui → Text
typed tui = elim tui.pending_query [ some text ↦ text | none ↦ tui.app.input ]

-- `String::pop`
unfoldable pub pop : Text → Text
pop [] = []
pop (c ∷ []) = []
pop (c ∷ d ∷ text) = c ∷ pop (d ∷ text)

abbrev pub queue_input : ℕ → Text → Tui → Tui
queue_input now text tui = record tui {
  app = set_input text tui.app;
  pending_query = some text;
  debounce_deadline = some (now + debounce_delay);
}

abbrev pub type_char : ℕ → ℕ → Tui → Tui
type_char now c tui =
    if is_empty (typed tui) && c == 32
    then record tui { pending_query = some (typed tui) }
    else queue_input now (typed tui ++ (c ∷ [])) tui

abbrev pub forget_input : Tui → Tui
forget_input tui = record tui {
  app = cancel_search tui.app;
  pending_query = none;
  debounce_deadline = none;
  dispatched_query = none;
}

abbrev pub edit_input : ℕ → AppEvent → Option ℕ → Tui → Tui
edit_input now event (some c) tui = type_char now c tui
edit_input now event none tui =
    if is_key backspace no_modifiers event
    then queue_input now (pop (typed tui)) tui
    else if is_escape event || is_tab event
    then forget_input tui
    else tui

unfoldable pub handle_input_event : ℕ → AppEvent → Tui → Tui
unfolding pop
handle_input_event now event tui = edit_input now event (as_char event) tui

abbrev pub with_app : App × SearchTx → Tui → Tui
with_app (app, tx) tui = record tui { app = app; search_tx = tx }

-- The branch of the loop for an event of the terminal.
unfoldable pub on_event : (Text → Bool) → ℕ → AppEvent → Tui → Tui
on_event copy_to_clipboard now event tui =
    let typed_in = if detail_is_pinned tui.app then tui else handle_input_event now event tui in
    with_app
      (dispatch_reload (handle_event copy_to_clipboard now typed_in.app event) typed_in.search_tx)
      typed_in

abbrev pub cache_and_show : ℕ → Text → Option (List SearchResult) → App → App
cache_and_show now query none app = app
cache_and_show now query (some results) app =
    set_results results (cache_results now query results app)

abbrev pub show_status : Option Text → App → App
show_status none app = app
show_status (some status) app = set_status status app

abbrev pub is_request : Option ℕ → ℕ → Bool
is_request none id = false
is_request (some active) id = active == id

unfoldable pub apply_search_outcome : ℕ → App → SearchOutcome → App
apply_search_outcome now app outcome =
    if is_request app.active_request outcome.id
    then show_status outcome.status (
        cache_and_show now outcome.query outcome.results
          (record app { active_request = none; is_searching = false }))
    else app

abbrev pub was_dispatched : Option Text → Text → Bool
was_dispatched none query = false
was_dispatched (some dispatched) query = bytes_eq dispatched query

abbrev pub debounced : ℕ → Option Text → Tui → Tui
debounced now none tui = tui
debounced now (some query) tui =
    let taken : Tui = record tui { pending_query = none; debounce_deadline = none } in
    let input_app = set_input query tui.app in
    if was_dispatched tui.dispatched_query query
    then taken
    else record (with_app (dispatch_search now input_app query tui.search_tx) taken) {
      dispatched_query = some query;
    }

-- The branch of the loop for the debounce timer.
unfoldable pub on_debounce : ℕ → Tui → Tui
on_debounce now tui = debounced now tui.pending_query tui

-- The rounds of the loop, and the worker's end of the channel going away.
pub data Step (copy_to_clipboard : Text → Bool) : Tui → Tui → Type 0 where
  event_step :
      (now : ℕ) (event : AppEvent) (tui : Tui)
      → Step copy_to_clipboard tui (on_event copy_to_clipboard now event tui)
  tick_step :
      (now : ℕ) (tui : Tui) → Step copy_to_clipboard tui (record tui { app = tick now tui.app })
  outcome_step :
      (now : ℕ) (outcome : SearchOutcome) (tui : Tui)
      → Step copy_to_clipboard tui (record tui { app = apply_search_outcome now tui.app outcome })
  debounce_step : (now : ℕ) (tui : Tui) → Step copy_to_clipboard tui (on_debounce now tui)
  worker_stops :
      (tui : Tui)
      → Step copy_to_clipboard tui
          (record tui { search_tx = record (tui.search_tx) { is_open = false } })

pub data Reachable (copy_to_clipboard : Text → Bool) : Tui → Type 0 where
  started : (database : Text) → Reachable copy_to_clipboard (start database)
  stepped :
      {tui tui' : Tui}
      → Reachable copy_to_clipboard tui
      → Step copy_to_clipboard tui tui'
      → Reachable copy_to_clipboard tui'
