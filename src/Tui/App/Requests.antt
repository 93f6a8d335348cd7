-- ===== src/Tui/App/Requests.antt =====
-- crates/nixdex-tui/src/app.rs: what goes to the search worker and what comes back.
use nixdex.Prelude.{ℕ, ◌+◌, ◌%◌, ◌^◌, Bool, false, Option, List}
use nixdex.Tui.App.{App, SearchMode, SearchSort, SearchField, SearchResult, Text}

pub record SearchRequest : Type 0 where
  pub id : ℕ
  pub query : Text
  pub mode : SearchMode
  pub database : Text
  pub limit : Option ℕ
  pub sort : SearchSort
  pub field : SearchField
  pub case_sensitive : Bool
  pub tiered_fuzzy : Bool
  pub fuzzy : Bool
  pub regex : Bool
  pub exact : Bool
  pub details : Bool
  pub reload : Bool

pub record SearchOutcome : Type 0 where
  pub id : ℕ
  pub query : Text
  pub mode : SearchMode
  pub results : Option (List SearchResult)
  pub status : Option Text

-- `self.next_request_id.wrapping_add(1)`
unfoldable pub next_id : App → ℕ
next_id app = (app.next_request_id + 1) % 2 ^ 64

-- The request and the app that has given it its id.
unfoldable pub search_request : Text → App → SearchRequest × App
unfolding next_id
search_request query app = (
  record {
    id = next_id app;
    query = query;
    mode = app.mode;
    database = app.database;
    limit = app.search_limit;
    sort = app.search_sort;
    field = app.search_field;
    case_sensitive = app.search_case_sensitive;
    tiered_fuzzy = app.search_tiered_fuzzy;
    fuzzy = app.search_fuzzy;
    regex = app.search_regex;
    exact = app.search_exact;
    details = app.search_details;
    reload = false;
  },
  record app { next_request_id = next_id app },
)
