-- ===== src/Tui/Loop/Invariant.antt =====
-- What holds of the app in every state that the event loop of crates/nixdex-tui/src/tui.rs reaches.
use nixdex.Prelude.{
  ℕ, refl, Bool, true, false, not, ◌&&◌, ◌||◌, Option, none, some, List, [], ◌==◌, if◌then◌else◌,
  if_elim,
}
use nixdex.Tui.App.{App, Text, SearchResult, new, detail_is_pinned}
use nixdex.Tui.App.Cache.{
  clear_expired_cache, tick, cache_results, get_cached_results, is_cache_valid,
}
use nixdex.Tui.App.Requests.{SearchRequest, SearchOutcome, search_request}
use nixdex.Tui.Event.{AppEvent, no_modifiers, backspace, is_key, is_escape, is_tab, as_char}
use nixdex.Tui.Handler.{handle_event}
use nixdex.Tui.Handler.Consistent.{
  IsConsistent, say, show_results, show_input, retire, top_InWindow,
}
use nixdex.Tui.Handler.Events.{handle_event-IsConsistent}
use nixdex.Tui.Loop.{
  Tui, SearchTx, Step, Reachable, started, stepped, event_step, tick_step, outcome_step,
  debounce_step, worker_stops, start, send_search, send_request, answer, is_empty, dispatch_search,
  dispatch_reload, typed, type_char, edit_input, handle_input_event, with_app, on_event,
  cache_and_show, show_status, is_request, was_dispatched, debounced, on_debounce,
  apply_search_outcome,
}

waiting :
    (app : App)
    → IsConsistent app
    → (id : ℕ) → IsConsistent (record app { is_searching = true; active_request = some id })
unfolding IsConsistent
waiting app c id = record { visible = c.visible; one_matcher = c.one_matcher; spinner = refl }

-- A pair of an app and the channel with a consistent app.
abbrev Sends : App × SearchTx → Type 0
Sends (app, tx) = IsConsistent app

sent_request :
    (app : App)
    → IsConsistent app
    → (request : SearchRequest) (tx : SearchTx) → Sends (send_search app request tx)
unfolding send_search
sent_request app c request tx =
    if_elim Sends tx.is_open (λ e. waiting app c request.id)
      (λ e. say _ (retire _ (waiting app c request.id)) _)

numbered :
    (app : App) → IsConsistent app → (id : ℕ) → IsConsistent (record app { next_request_id = id })
unfolding IsConsistent
numbered app c id = c

searched :
    (app : App)
    → IsConsistent app
    → (query : Text) (tx : SearchTx) → Sends (send_request (search_request query app) tx)
unfolding search_request
searched app c query tx = sent_request _ (numbered app c _) _ tx

answered :
    (app : App)
    → IsConsistent app
    → (query : Text) (valid : Bool) (found : Option (List SearchResult)) (tx : SearchTx)
    → Sends (answer query valid found app tx)
answered app c query true (some cached) tx = say _ (show_results _ (retire app c) cached) _
answered app c query true none tx = searched app c query tx
answered app c query false found tx = searched app c query tx

dispatched :
    (now : ℕ) (app : App)
    → IsConsistent app
    → (query : Text) (tx : SearchTx) → Sends (dispatch_search now app query tx)
unfolding dispatch_search
dispatched now app c query tx =
    if_elim Sends (is_empty query) (λ e. show_results _ (retire app c) [])
      (λ e. answered app c query (is_cache_valid now query app) (get_cached_results query app) tx)

asked : (app : App) → IsConsistent app → IsConsistent (record app { reload_requested = false })
unfolding IsConsistent
asked app c = c

reloaded : (app : App) → IsConsistent app → (tx : SearchTx) → Sends (dispatch_reload app tx)
unfolding dispatch_reload search_request
reloaded app c tx =
    if_elim Sends (not app.reload_requested) (λ e. c)
      (λ e.
        if_elim Sends (is_empty app.input) (λ e. say _ (asked app c) _)
          (λ e. sent_request _ (numbered _ (asked app c) _) _ tx))

-- The same of the state of the loop.
abbrev Holds : Tui → Type 0
Holds tui = IsConsistent tui.app

char_typed : (now c : ℕ) (tui : Tui) → Holds tui → Holds (type_char now c tui)
char_typed now c tui h =
    if_elim Holds (is_empty (typed tui) && c == 32) (λ e. h) (λ e. show_input _ h _)

edited :
    (now : ℕ) (event : AppEvent) (typed_char : Option ℕ) (tui : Tui)
    → Holds tui
    → Holds (edit_input now event typed_char tui)
edited now event (some c) tui h = char_typed now c tui h
edited now event none tui h =
    if_elim Holds (is_key backspace no_modifiers event) (λ e. show_input _ h _)
      (λ e. if_elim Holds (is_escape event || is_tab event) (λ e. retire _ h) (λ e. h))

input_handled :
    (now : ℕ) (event : AppEvent) (tui : Tui) → Holds tui → Holds (handle_input_event now event tui)
unfolding handle_input_event
input_handled now event tui h = edited now event (as_char event) tui h

idle :
    (app : App)
    → IsConsistent app
    → IsConsistent (record app { active_request = none; is_searching = false })
unfolding IsConsistent
idle app c = record { visible = c.visible; one_matcher = c.one_matcher; spinner = refl }

cached :
    (now : ℕ) (app : App)
    → IsConsistent app
    → (query : Text) (results : List SearchResult)
    → IsConsistent (cache_results now query results app)
unfolding IsConsistent cache_results
cached now app c query results = c

results_shown :
    (now : ℕ) (app : App)
    → IsConsistent app
    → (query : Text) (results : Option (List SearchResult))
    → IsConsistent (cache_and_show now query results app)
results_shown now app c query none = c
results_shown now app c query (some results) =
    show_results _ (cached now app c query results) results

status_shown :
    (app : App) → IsConsistent app → (status : Option Text) → IsConsistent (show_status status app)
status_shown app c none = c
status_shown app c (some status) = say app c status

ticked : (now : ℕ) (app : App) → IsConsistent app → IsConsistent (tick now app)
unfolding IsConsistent tick clear_expired_cache
ticked now app c = c

initial : (database : Text) → IsConsistent ((start database).app)
unfolding IsConsistent start new
initial database = record { visible = top_InWindow 0; one_matcher = refl; spinner = refl }

outcome_applied :
    (now : ℕ) (app : App)
    → IsConsistent app
    → (outcome : SearchOutcome) → IsConsistent (apply_search_outcome now app outcome)
unfolding apply_search_outcome
outcome_applied now app c outcome =
    if_elim IsConsistent (is_request app.active_request outcome.id)
      (λ e.
        status_shown _
          (results_shown now (record app { active_request = none; is_searching = false })
            (idle app c) outcome.query outcome.results)
          outcome.status)
      (λ e. c)

input_debounced :
    (now : ℕ) (tui : Tui) → Holds tui → (pending : Option Text) → Holds (debounced now pending tui)
input_debounced now tui h none = h
input_debounced now tui h (some query) =
    if_elim Holds (was_dispatched tui.dispatched_query query) (λ e. h)
      (λ e. dispatched now _ (show_input _ h query) query tui.search_tx)

with_app-Holds : (sends : App × SearchTx) (tui : Tui) → Sends sends → Holds (with_app sends tui)
with_app-Holds (app, tx) tui h = h

debounce_held : (now : ℕ) (tui : Tui) → Holds tui → Holds (on_debounce now tui)
unfolding on_debounce
debounce_held now tui h = input_debounced now tui h tui.pending_query

event_held :
    (copy_to_clipboard : Text → Bool) (now : ℕ) (event : AppEvent) (tui : Tui)
    → Holds tui
    → Holds (on_event copy_to_clipboard now event tui)
unfolding on_event
event_held copy_to_clipboard now event tui h =
    let typed_in = if detail_is_pinned tui.app then tui else handle_input_event now event tui in
    let input : Holds typed_in =
      if_elim Holds (detail_is_pinned tui.app) (λ e. h) (λ e. input_handled now event tui h) in
    with_app-Holds
      (dispatch_reload (handle_event copy_to_clipboard now typed_in.app event) typed_in.search_tx)
      typed_in
      (reloaded _ (handle_event-IsConsistent copy_to_clipboard now typed_in.app input event) _)

module _ (copy_to_clipboard : Text → Bool) where
  stepped_on : {tui tui' : Tui} → Holds tui → Step copy_to_clipboard tui tui' → Holds tui'
  stepped_on h (event_step now event tui) = event_held copy_to_clipboard now event tui h
  stepped_on h (tick_step now tui) = ticked now tui.app h
  stepped_on h (outcome_step now outcome tui) = outcome_applied now tui.app h outcome
  stepped_on h (debounce_step now tui) = debounce_held now tui h
  stepped_on h (worker_stops tui) = h

  -- In every state that the loop reaches, whatever the keys, the times, the outcomes and the state of
  -- the search worker: at most one of fuzzy and regex matching is on; the search indicator is on
  -- exactly while there is a request to wait for; the selected index lies in the results, if there
  -- are any; and the index, capped at 2^16 - 1, is one of the 17 from the field `scroll` on, which
  -- the drawing code does not read.
  pub Reachable-IsConsistent : {tui : Tui} → Reachable copy_to_clipboard tui → IsConsistent tui.app
  Reachable-IsConsistent (started database) = initial database
  Reachable-IsConsistent (stepped before step) = stepped_on (Reachable-IsConsistent before) step
