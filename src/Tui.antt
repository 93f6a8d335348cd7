-- ===== src/Tui.antt =====
-- crates/nixdex-tui: the terminal front end, as a state machine. The state is the record `App`; a
-- text is the list of its characters; an `Instant` or a `Duration` is a number of milliseconds of a
-- monotone clock, which the operations that read the clock take as an argument.
pub mod App
pub mod Event
pub mod Keys
pub mod Handler
pub mod Loop
