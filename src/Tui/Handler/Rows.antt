-- ===== src/Tui/Handler/Rows.antt =====
-- Which result a click hits, crates/nixdex-tui/src/tui.rs.
use nixdex.Prelude.{
  ℕ, zero, suc, ◌+◌, ◌-◌, ◌≤◌, ◌<◌, ◌≡◌, arith, Bool, Option, none, some, List, [], ◌∷◌, ltb,
  if_elim, drop, length,
}
use nixdex.Tui.App.{App, SearchResult}
use nixdex.Tui.Handler.{result_height, result_in_rows, result_at_row}

-- The rows that the first `n` of the results take up.
unfoldable pub rows : Bool → List SearchResult → ℕ → ℕ
rows expand_all results zero = 0
rows expand_all [] (suc n) = 0
rows expand_all (result ∷ results) (suc n) =
    result_height expand_all result + rows expand_all results n

-- The `n`-th of the results covers the row `remaining`.
pub record Covers (expand_all : Bool) (results : List SearchResult) (n remaining : ℕ) : Type 0 where
  pub exists : n < length results
  pub from_top : rows expand_all results n ≤ remaining
  pub to_bottom : remaining < rows expand_all results (suc n)

Covers-next :
    (expand_all : Bool) (r : SearchResult) (results : List SearchResult) (n remaining : ℕ)
    → result_height expand_all r ≤ remaining
    → Covers expand_all results n (remaining - result_height expand_all r)
    → Covers expand_all (r ∷ results) (suc n) remaining
unfolding rows
Covers-next expand_all r results n remaining h c =
    let a = c.exists in
    let b = c.from_top in
    let d = c.to_bottom in
    record { exists = omega arith; from_top = omega arith; to_bottom = omega arith }

Covers-first :
    (expand_all : Bool) (r : SearchResult) (results : List SearchResult) (remaining : ℕ)
    → remaining < result_height expand_all r
    → Covers expand_all (r ∷ results) 0 remaining
unfolding rows
Covers-first expand_all r results remaining h = record {
  exists = omega arith;
  from_top = omega arith;
  to_bottom = omega arith;
}

-- What the answer to a click `remaining` rows below the first result, the one at `offset`, has to say.
abbrev pub Hits : Bool → List SearchResult → ℕ → ℕ → Option ℕ → Type 0
Hits expand_all results offset remaining none = rows expand_all results (length results) ≤ remaining
Hits expand_all results offset remaining (some index) =
    (n : ℕ) × (index ≡ offset + n) × Covers expand_all results n remaining

Hits-next :
    (expand_all : Bool) (r : SearchResult) (results : List SearchResult) (offset remaining : ℕ)
    (found : Option ℕ)
    → result_height expand_all r ≤ remaining
    → Hits expand_all results (offset + 1) (remaining - result_height expand_all r) found
    → Hits expand_all (r ∷ results) offset remaining found
unfolding rows
Hits-next expand_all r results offset remaining none h all = omega arith
Hits-next expand_all r results offset remaining (some index) h (n, at, c) =
    (suc n, omega arith, Covers-next expand_all r results n remaining h c)

result_in_rows-Hits :
    (expand_all : Bool) (remaining offset : ℕ) (results : List SearchResult)
    → Hits expand_all results offset remaining (result_in_rows expand_all remaining offset results)
unfolding result_in_rows rows
result_in_rows-Hits expand_all remaining offset [] = omega arith
result_in_rows-Hits expand_all remaining offset (r ∷ results) =
    if_elim (Hits expand_all (r ∷ results) offset remaining)
      (ltb remaining (result_height expand_all r))
      (λ h. (0, omega arith, Covers-first expand_all r results remaining (ground (arith, h))))
      (λ h. Hits-next expand_all r results offset remaining _ (ground (arith, h)) (
        result_in_rows-Hits expand_all (remaining - result_height expand_all r) (offset + 1)
          results))

-- With the results laid out below the header's three rows from the one at `scroll` on, each as high
-- as `expand_all` makes it, `result_at_row` answers a row of at least 3 with the result that covers
-- it: the results from the one at `scroll` to it take up no more rows than lie above the row, and
-- with it more. If it answers with none, the row lies below all of them. This is the layout that
-- `result_at_row` counts by; the drawing code does not read `scroll`.
pub result_at_row-Hits :
    (app : App) (row : ℕ)
    → 3 ≤ row
    → Hits app.expand_all (drop app.scroll app.results) app.scroll (row - 3) (result_at_row app row)
unfolding result_at_row
result_at_row-Hits app row below =
    if_elim (Hits app.expand_all (drop app.scroll app.results) app.scroll (row - 3)) (ltb row 3)
      (λ h. ground (arith, h))
      (λ h. result_in_rows-Hits app.expand_all (row - 3) app.scroll (drop app.scroll app.results))
