-- ===== src/Tui/Loop/Outcome.antt =====
-- Which outcomes of searches reach the screen, crates/nixdex-tui/src/tui.rs.
use nixdex.Prelude.{
  ℕ, ◌+◌, ◌-◌, ◌^◌, ◌≤◌, ◌<◌, ◌≡◌, refl, sym, ◌∙◌, arith, Bool, true, false, Option, none, some,
  List, if_elim,
}
use nixdex.Tui.App.{App, Text, SearchMode, SearchResult, cancel_search, set_results}
use nixdex.Tui.App.Settings.{set_status}
use nixdex.Tui.App.Cache.{
  cache_key, key_settings, is_fresh, cache_results, get_cached_results, is_cache_valid,
}
use nixdex.Tui.App.Cache.Lookup.{cached_self}
use mathlib.Core.Path.{subst}
use nixdex.Tui.App.Requests.{SearchRequest, SearchOutcome, search_request, next_id}
use nixdex.Tui.Loop.{
  SearchTx, send_search, send_request, answer, is_empty, dispatch_search, cache_and_show,
  show_status, is_request, apply_search_outcome,
}

-- The app waits for nothing, or for a request with an id that is not `id`.
abbrev Ignores : ℕ → App × SearchTx → Type 0
Ignores id (app, tx) = is_request app.active_request id ≡ false

ignored :
    (now : ℕ) (app : App) (outcome : SearchOutcome)
    → is_request app.active_request outcome.id ≡ false
    → apply_search_outcome now app outcome ≡ app
unfolding apply_search_outcome
ignored now app outcome e =
    if_elim (λ u. u ≡ app) (is_request app.active_request outcome.id) (λ h. ground (arith, e, h))
      (λ h. refl)

sent-Ignores :
    (id : ℕ) (app : App) (request : SearchRequest) (tx : SearchTx)
    → id < request.id
    → Ignores id (send_search app request tx)
unfolding send_search set_status cancel_search
sent-Ignores id app request tx later =
    if_elim (Ignores id) tx.is_open (λ e. ground arith) (λ e. refl)

searched-Ignores :
    (id : ℕ) (app : App) (query : Text) (tx : SearchTx)
    → id ≤ app.next_request_id
    → app.next_request_id + 1 < 2 ^ 64
    → Ignores id (send_request (search_request query app) tx)
unfolding search_request next_id
searched-Ignores id app query tx earlier fits = sent-Ignores id _ _ tx (omega arith)

answered-Ignores :
    (id : ℕ) (app : App) (query : Text) (valid : Bool) (found : Option (List SearchResult))
    (tx : SearchTx)
    → id ≤ app.next_request_id
    → app.next_request_id + 1 < 2 ^ 64
    → Ignores id (answer query valid found app tx)
unfolding set_status set_results cancel_search
answered-Ignores id app query true (some cached) tx earlier fits = refl
answered-Ignores id app query true none tx earlier fits =
    searched-Ignores id app query tx earlier fits
answered-Ignores id app query false found tx earlier fits =
    searched-Ignores id app query tx earlier fits

-- Once a query was dispatched, in whichever way it is answered, an outcome of any request given out
-- before it changes nothing, as long as the ids have not wrapped around.
pub apply_search_outcome-dispatch_search :
    (now later : ℕ) (app : App) (query : Text) (tx : SearchTx) (outcome : SearchOutcome)
    → outcome.id ≤ app.next_request_id
    → app.next_request_id + 1 < 2 ^ 64
    → apply_search_outcome later ((dispatch_search now app query tx).0) outcome
      ≡ (dispatch_search now app query tx).0
unfolding dispatch_search set_results cancel_search
apply_search_outcome-dispatch_search now later app query tx outcome earlier fits =
    ignored later _ outcome (
      if_elim (Ignores outcome.id) (is_empty query) (λ e. refl)
        (λ e.
          answered-Ignores outcome.id app query (is_cache_valid now query app)
            (get_cached_results query app) tx earlier fits))

-- Shown from the cache, with nothing sent and nothing running.
abbrev Answered : List SearchResult → SearchTx → App × SearchTx → Type 0
Answered results tx again =
    (again.0.results ≡ results)
    × (again.0.is_searching ≡ false)
    × (again.0.active_request ≡ none)
    × (again.1 ≡ tx)

mismatch :
    (active : Option ℕ) (id other : ℕ)
    → active ≡ some id
    → other ≡ id
    → is_request active other ≡ false
    → ⊥
mismatch none id other waits same h = cc
mismatch (some a) id other waits same h = let e : a ≡ id = cc in ground (arith, e, same, h)

applied :
    (at id : ℕ) (app : App) (outcome : SearchOutcome)
    → app.active_request ≡ some id
    → outcome.id ≡ id
    → apply_search_outcome at app outcome
      ≡ show_status outcome.status (
          cache_and_show at outcome.query outcome.results
            (record app { active_request = none; is_searching = false }))
unfolding apply_search_outcome
applied at id app outcome waits same =
    let shown = show_status outcome.status (
      cache_and_show at outcome.query outcome.results
        (record app { active_request = none; is_searching = false })) in
    if_elim (λ u. u ≡ shown) (is_request app.active_request outcome.id) (λ h. refl)
      (λ h. absurd (mismatch app.active_request id outcome.id waits same h))

shown_cached :
    (now : ℕ) (query : Text) (results : List SearchResult) (status : Option Text) (app : App)
    → let shown = show_status status (set_results results app) in
      (get_cached_results query shown ≡ get_cached_results query app)
      × (is_cache_valid now query shown ≡ is_cache_valid now query app)
unfolding set_results set_status get_cached_results is_cache_valid cache_key key_settings
shown_cached now query results none app = (refl, refl)
shown_cached now query results (some status) app = (refl, refl)

hit :
    (now : ℕ) (app : App) (query : Text) (results : List SearchResult) (tx : SearchTx)
    → is_empty query ≡ false
    → is_cache_valid now query app ≡ true
    → get_cached_results query app ≡ some results
    → Answered results tx (dispatch_search now app query tx)
unfolding dispatch_search set_results set_status cancel_search
hit now app query results tx asks valid found =
    if_elim (Answered results tx) (is_empty query) (λ e. ground (arith, e, asks))
      (λ e.
        subst (λ v. Answered results tx (answer query v (get_cached_results query app) app tx))
          (sym valid)
          (subst (λ f. Answered results tx (answer query true f app tx)) (sym found)
            (refl, refl, refl, refl)))

-- When the outcome that the app waits for brings results, dispatching its query again under the same
-- settings, before the time to live is over, shows them from the cache, sends nothing to the worker
-- and leaves no search running.
pub dispatch_search-apply_search_outcome :
    (at now id : ℕ) (app : App) (query : Text) (mode : SearchMode) (results : List SearchResult)
    (status : Option Text) (tx : SearchTx)
    → app.active_request ≡ some id
    → is_empty query ≡ false
    → now - at < app.cache_ttl
    → let outcome : SearchOutcome = record {
      id = id;
      query = query;
      mode = mode;
      results = some results;
      status = status;
    } in
      let again = dispatch_search now (apply_search_outcome at app outcome) query tx in
      (again.0.results ≡ results)
      × (again.0.is_searching ≡ false)
      × (again.0.active_request ≡ none)
      × (again.1 ≡ tx)
dispatch_search-apply_search_outcome at now id app query mode results status tx waits asks fresh =
    let idle : App = record app { active_request = none; is_searching = false } in
    let shown = show_status status (set_results results (cache_results at query results idle)) in
    let outcome : SearchOutcome = record {
      id = id;
      query = query;
      mode = mode;
      results = some results;
      status = status;
    } in
    let (found, valid) = cached_self at now query results idle in
    let (same_found, same_valid) =
      shown_cached now query results status (cache_results at query results idle) in
    let live : is_fresh app.cache_ttl now at ≡ true = ground arith in
    subst (λ u. Answered results tx (dispatch_search now u query tx))
      (sym (applied at id app outcome waits refl))
      (hit now shown query results tx asks (same_valid ∙ valid ∙ live) (same_found ∙ found))
