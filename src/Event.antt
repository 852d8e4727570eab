-- ===== src/Event.antt =====
-- kernel/src/event.rs: typed input events in ring buffers. A push or a pop is one step here; Interrupt splits
-- the pop, which a push from an interrupt may come into.
pub mod Queue
pub mod Interrupt
use dbsos.Common.{
  ℕ, ◌+◌, ◌%◌, Bool, true, false, not, Option, none, some, ℤ, pos, ◌==◌, if◌then◌else◌, Array,
  update, bit_or,
}

pub data EventType : Type 0 where
  key_press key_release mouse_move mouse_click mouse_release focus_in focus_out : EventType

pub record Event : Type 0 where
  pub kind : EventType
  pub key : ℕ
  pub x : ℤ
  pub y : ℤ
  pub dx : ℤ
  pub dy : ℤ
  pub button : ℕ
  pub modifiers : ℕ

abbrev pub event_buf_size : ℕ
event_buf_size = 512

pub record EventRing : Type 0 where
  pub buf : Array Event
  pub read : ℕ
  pub write : ℕ

-- `EventRing::new`
abbrev pub new : EventRing
new = record {
  buf = λ i. record {
    kind = key_press;
    key = 0;
    x = pos 0;
    y = pos 0;
    dx = pos 0;
    dy = pos 0;
    button = 0;
    modifiers = 0;
  };
  read = 0;
  write = 0;
}

-- A full ring drops the event.
unfoldable pub push : Event → EventRing → EventRing
push event ring =
    let next = (ring.write + 1) % event_buf_size in
    if next == ring.read
    then ring
    else record ring { buf = update ring.buf ring.write event; write = next }

unfoldable pub pop : EventRing → EventRing × Option Event
pop ring =
    if ring.read == ring.write
    then (ring, none)
    else (record ring { read = (ring.read + 1) % event_buf_size }, some (ring.buf ring.read))

unfoldable pub has_events : EventRing → Bool
has_events ring = not (ring.read == ring.write)

-- KEY_EVENTS, MOUSE_EVENTS, FOCUS_EVENTS, and the modifier keys.
pub record Input : Type 0 where
  pub key_events : EventRing
  pub mouse_events : EventRing
  pub focus_events : EventRing
  pub mod_shift : Bool
  pub mod_ctrl : Bool
  pub mod_alt : Bool

unfoldable pub modifier_bits : Input → ℕ
modifier_bits s =
    let m = if s.mod_shift then bit_or 0 1 else 0 in
    let m' = if s.mod_ctrl then bit_or m 2 else m in if s.mod_alt then bit_or m' 4 else m'

unfoldable pub set_shift : Bool → Input → Input
set_shift v s = record s { mod_shift = v }

unfoldable pub set_ctrl : Bool → Input → Input
set_ctrl v s = record s { mod_ctrl = v }

unfoldable pub set_alt : Bool → Input → Input
set_alt v s = record s { mod_alt = v }

-- The event that `push_key` makes.
abbrev pub key_event : (pressed : Bool) (key modifiers : ℕ) → Event
key_event pressed key modifiers = record {
  kind = if pressed then key_press else key_release;
  key = key;
  x = pos 0;
  y = pos 0;
  dx = pos 0;
  dy = pos 0;
  button = 0;
  modifiers = modifiers;
}

unfoldable pub push_key : (pressed : Bool) (key : ℕ) → Input → Input
push_key pressed key s = record s {
  key_events = push (key_event pressed key (modifier_bits s)) s.key_events;
}

abbrev pub mouse_event : (dx dy : ℤ) (left right middle : Bool) (modifiers : ℕ) → Event
mouse_event dx dy left right middle modifiers = record {
  kind = mouse_move;
  key = 0;
  x = pos 0;
  y = pos 0;
  dx = dx;
  dy = dy;
  button = if left then 1 else if right then 2 else if middle then 3 else 0;
  modifiers = modifiers;
}

unfoldable pub push_mouse : (dx dy : ℤ) (left right middle : Bool) → Input → Input
push_mouse dx dy left right middle s = record s {
  mouse_events = push (mouse_event dx dy left right middle (modifier_bits s)) s.mouse_events;
}

abbrev pub focus_event : (focused : Bool) → Event
focus_event focused = record {
  kind = if focused then focus_in else focus_out;
  key = 0;
  x = pos 0;
  y = pos 0;
  dx = pos 0;
  dy = pos 0;
  button = 0;
  modifiers = 0;
}

unfoldable pub push_focus : (focused : Bool) → Input → Input
push_focus focused s = record s { focus_events = push (focus_event focused) s.focus_events }

unfoldable pub poll_key : Input → Input × Option Event
poll_key s = let (ring, event) = pop s.key_events in (record s { key_events = ring }, event)

unfoldable pub poll_mouse : Input → Input × Option Event
poll_mouse s = let (ring, event) = pop s.mouse_events in (record s { mouse_events = ring }, event)

unfoldable pub poll_focus : Input → Input × Option Event
poll_focus s = let (ring, event) = pop s.focus_events in (record s { focus_events = ring }, event)

unfoldable pub has_key_events : Input → Bool
has_key_events s = has_events s.key_events

unfoldable pub has_mouse_events : Input → Bool
has_mouse_events s = has_events s.mouse_events
