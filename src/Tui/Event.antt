-- ===== src/Tui/Event.antt =====
-- crates/nixdex-tui/src/event.rs: the events of the loop and the keys the program names. The event
-- types are crossterm's: a key event is its code and modifiers, a mouse event its kind and row, which
-- is what the program reads; the codes, modifiers and kinds that it never names are the `other` ones.
use nixdex.Prelude.{ℕ, Bool, true, false, ◌&&◌, ◌||◌, Option, none, some, ◌==◌}

pub data KeyCode : Type 0 where
  backspace enter up_arrow down_arrow home end_of page_up_key page_down_key tab esc : KeyCode
  function_key char other_code : ℕ → KeyCode

-- `NONE` and `CONTROL` are exactly these bits, any other combination is an `other`.
pub data KeyModifiers : Type 0 where
  no_modifiers control : KeyModifiers
  other_modifiers : ℕ → KeyModifiers

pub data MouseButton : Type 0 where
  left other_button : MouseButton

pub data MouseEventKind : Type 0 where
  button_down : MouseButton → MouseEventKind
  scroll_down scroll_up : MouseEventKind
  other_kind : ℕ → MouseEventKind

pub data AppEvent : Type 0 where
  key : KeyCode → KeyModifiers → AppEvent
  mouse : MouseEventKind → ℕ → AppEvent
  resize : ℕ → ℕ → AppEvent
  tick_event quit_event : AppEvent

-- crossterm's `Event`
pub data Event : Type 0 where
  key : KeyCode → KeyModifiers → Event
  mouse : MouseEventKind → ℕ → Event
  resize : ℕ → ℕ → Event
  paste focus_gained focus_lost : Event

unfoldable pub from_event : Event → AppEvent
from_event (key c m) = key c m
from_event (mouse kind row) = mouse kind row
from_event (resize w h) = resize w h
from_event paste = tick_event
from_event focus_gained = tick_event
from_event focus_lost = tick_event

same_code : KeyCode → KeyCode → Bool
same_code backspace backspace = true
same_code enter enter = true
same_code up_arrow up_arrow = true
same_code down_arrow down_arrow = true
same_code home home = true
same_code end_of end_of = true
same_code page_up_key page_up_key = true
same_code page_down_key page_down_key = true
same_code tab tab = true
same_code esc esc = true
same_code (function_key n) (function_key k) = n == k
same_code (char c) (char d) = c == d
same_code _ _ = false

same_modifiers : KeyModifiers → KeyModifiers → Bool
same_modifiers no_modifiers no_modifiers = true
same_modifiers control control = true
same_modifiers _ _ = false

-- `matches!(self, Self::Key(KeyEvent { code: …, modifiers: …, .. }))`, the pattern first.
unfoldable pub is_key : KeyCode → KeyModifiers → AppEvent → Bool
unfolding same_code same_modifiers
is_key code wanted (key c m) = same_code code c && same_modifiers wanted m
is_key code wanted _ = false

-- Ctrl+C.
unfoldable pub is_quit : AppEvent → Bool
is_quit event = is_key (char 99) control event

unfoldable pub is_up : AppEvent → Bool
is_up event = is_key up_arrow no_modifiers event || is_key (char 107) no_modifiers event

unfoldable pub is_down : AppEvent → Bool
is_down event = is_key down_arrow no_modifiers event || is_key (char 106) no_modifiers event

unfoldable pub is_page_up : AppEvent → Bool
is_page_up event = is_key page_up_key no_modifiers event

unfoldable pub is_page_down : AppEvent → Bool
is_page_down event = is_key page_down_key no_modifiers event

unfoldable pub is_home : AppEvent → Bool
is_home event = is_key home no_modifiers event

unfoldable pub is_end : AppEvent → Bool
is_end event = is_key end_of no_modifiers event

unfoldable pub is_enter : AppEvent → Bool
is_enter event = is_key enter no_modifiers event

unfoldable pub is_escape : AppEvent → Bool
is_escape event = is_key esc no_modifiers event

unfoldable pub is_tab : AppEvent → Bool
is_tab event = is_key tab no_modifiers event

unfoldable pub is_ctrl_d : AppEvent → Bool
is_ctrl_d event = is_key (char 100) control event

unfoldable pub is_ctrl_h : AppEvent → Bool
is_ctrl_h event =
    (is_key (char 104) control event || is_key backspace control event)
    || is_key (function_key 1) no_modifiers event

unfoldable pub is_ctrl_r : AppEvent → Bool
is_ctrl_r event = is_key (char 114) control event

unfoldable pub is_ctrl_j : AppEvent → Bool
is_ctrl_j event =
    (is_key (char 106) control event || is_key enter control event)
    || is_key (function_key 2) no_modifiers event

unfoldable pub is_ctrl_t : AppEvent → Bool
is_ctrl_t event = is_key (char 116) control event

unfoldable pub is_slash : AppEvent → Bool
is_slash event = is_key (char 47) no_modifiers event

unfoldable pub is_colon : AppEvent → Bool
is_colon event = is_key (char 58) no_modifiers event

unfoldable pub is_question : AppEvent → Bool
is_question event = is_key (char 63) no_modifiers event

unfoldable pub is_ctrl_a : AppEvent → Bool
is_ctrl_a event = is_key (char 97) control event

unfoldable pub is_ctrl_y : AppEvent → Bool
is_ctrl_y event = is_key (char 121) control event

unfoldable pub is_ctrl_e : AppEvent → Bool
is_ctrl_e event = is_key (char 101) control event

unfoldable pub is_ctrl_p : AppEvent → Bool
is_ctrl_p event = is_key (char 112) control event

unfoldable pub is_ctrl_f : AppEvent → Bool
is_ctrl_f event = is_key (char 102) control event

unfoldable pub is_ctrl_x : AppEvent → Bool
is_ctrl_x event = is_key (char 120) control event

unfoldable pub is_ctrl_n : AppEvent → Bool
is_ctrl_n event = is_key (char 110) control event

unfoldable pub as_char : AppEvent → Option ℕ
as_char (key (char c) no_modifiers) = some c
as_char _ = none

unfoldable pub is_mouse_scroll_down : AppEvent → Bool
is_mouse_scroll_down (mouse scroll_down row) = true
is_mouse_scroll_down _ = false

unfoldable pub is_mouse_scroll_up : AppEvent → Bool
is_mouse_scroll_up (mouse scroll_up row) = true
is_mouse_scroll_up _ = false

unfoldable pub is_mouse_click : AppEvent → Bool
is_mouse_click (mouse (button_down left) row) = true
is_mouse_click _ = false

unfoldable pub mouse_row : AppEvent → Option ℕ
mouse_row (mouse kind row) = some row
mouse_row _ = none
