-- ===== src/Tui/Handler/Detail.antt =====
-- Which keys turn the pin of the detail pane, crates/nixdex-tui/src/tui.rs.
use nixdex.Prelude.{Bool, ◌||◌}
use nixdex.Tui.App.{App}
use nixdex.Tui.Event.{AppEvent, is_key, no_modifiers, esc, enter, char}

closes : AppEvent → Bool
closes event =
    (is_key esc no_modifiers event || is_key enter no_modifiers event)
    || is_key (char 113) no_modifiers event
