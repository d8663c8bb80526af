-- ===== src/Input/Control.antt =====
-- The control messages of apps/desktop/src/main/ipcValidation.ts: `sanitizeControlMessage`.
use remote_controll_app.Prelude.{
  ℕ, suc, ◌+◌, ◌-◌, ◌*◌, ◌/◌, ◌^◌, true, false, Option, none, some, if◌then◌else◌, leb,
}
use remote_controll_app.Text.{Str, lit, str_beq}
use remote_controll_app.Value.{Value, string, number, Fields, as_record, lookup_field, as_string}
use remote_controll_app.Value.Numeric.{Number, nonneg, negative, of_ℕ, is_finite}
use remote_controll_app.Signaling.Payloads.{non_empty, ◌>>=◌}
use remote_controll_app.Input.{sanitize_string}

pub data Button : Type 0 where
  left middle right : Button

-- The event types that carry a button, and those of a key.
pub data Press : Type 0 where
  click mouse_down mouse_up : Press

pub data KeyPress : Type 0 where
  key_down key_up : KeyPress

pub record Point : Type 0 where
  pub source_id : Option Str
  pub x : ℕ
  pub y : ℕ
  pub screen_width : ℕ
  pub screen_height : ℕ

-- `ControlMessage`
pub data ControlMessage : Type 0 where
  move : Point → ControlMessage
  press : Press → Button → Point → ControlMessage
  scroll : Number → Number → ControlMessage
  type_text : Str → ControlMessage
  key : KeyPress → Str → Str → ControlMessage

-- `isFiniteNumber`, handing on the number.
unfoldable pub read_finite : Value → Option Number
read_finite (number n) = if is_finite n then some n else none
read_finite _ = none

-- `value <= 0` refuses.
unfoldable pub read_positive : Value → Option Number
read_positive (number (nonneg m k)) = if leb m 0 then none else some (nonneg m k)
read_positive _ = none

-- `Math.round(clamp(value, lo, hi))` of a finite number, for `lo <= hi`: the half is rounded up.
unfoldable pub clamp_round : ℕ → ℕ → Number → ℕ
clamp_round lo hi (nonneg m k) =
    if leb (hi * 2 ^ k) m
    then hi
    else if leb m (lo * 2 ^ k)
    then lo
    else (2 * m + 2 ^ k) / (2 * 2 ^ k)
clamp_round lo hi _ = lo

-- `clamp(value, -bound, bound)` of a finite number, for a positive bound.
unfoldable pub clamp_both : ℕ → Number → Number
clamp_both bound (nonneg m k) = if leb (bound * 2 ^ k) m then of_ℕ bound else nonneg m k
clamp_both bound (negative m k) =
    if leb (bound * 2 ^ k) (suc m) then negative (bound - 1) 0 else negative m k
clamp_both bound n = n

unfoldable pub sanitize_pointer_coordinates : Fields → Option Point
sanitize_pointer_coordinates event = do
  x ← read_finite (lookup_field (lit "x") event)
  y ← read_finite (lookup_field (lit "y") event)
  width ← read_positive (lookup_field (lit "screenWidth") event)
  height ← read_positive (lookup_field (lit "screenHeight") event)
  some (record {
    source_id = non_empty (sanitize_string 256 true (lookup_field (lit "sourceId") event));
    x = clamp_round 0 (clamp_round 1 100000 width) x;
    y = clamp_round 0 (clamp_round 1 100000 height) y;
    screen_width = clamp_round 1 100000 width;
    screen_height = clamp_round 1 100000 height;
  })

unfoldable pub read_button : Value → Option Button
read_button (string s) =
    if str_beq s (lit "left")
    then some left
    else if str_beq s (lit "middle")
    then some middle
    else if str_beq s (lit "right")
    then some right
    else none
read_button _ = none

unfoldable pub sanitize_move : Fields → Option ControlMessage
sanitize_move event = do point ← sanitize_pointer_coordinates event; some (move point)

unfoldable pub sanitize_press : Press → Fields → Option ControlMessage
sanitize_press kind event = do
  point ← sanitize_pointer_coordinates event
  button ← read_button (lookup_field (lit "button") event)
  some (press kind button point)

unfoldable pub sanitize_scroll : Fields → Option ControlMessage
sanitize_scroll event = do
  delta_x ← read_finite (lookup_field (lit "deltaX") event)
  delta_y ← read_finite (lookup_field (lit "deltaY") event)
  some (scroll (clamp_both 5000 delta_x) (clamp_both 5000 delta_y))

unfoldable pub pointer_of : Str → Fields → Option ControlMessage
pointer_of type event =
    if str_beq type (lit "move")
    then sanitize_move event
    else if str_beq type (lit "click")
    then sanitize_press click event
    else if str_beq type (lit "mouseDown")
    then sanitize_press mouse_down event
    else if str_beq type (lit "mouseUp")
    then sanitize_press mouse_up event
    else if str_beq type (lit "scroll")
    then sanitize_scroll event
    else none

unfoldable pub sanitize_typed_text : Fields → Option ControlMessage
sanitize_typed_text event = do
  text ← sanitize_string 4096 false (lookup_field (lit "text") event)
  some (type_text text)

unfoldable pub sanitize_key : KeyPress → Fields → Option ControlMessage
sanitize_key kind event = do
  code ← non_empty (sanitize_string 64 true (lookup_field (lit "code") event))
  name ← sanitize_string 64 false (lookup_field (lit "key") event)
  some (key kind code name)

unfoldable pub keyboard_of : Str → Fields → Option ControlMessage
keyboard_of type event =
    if str_beq type (lit "typeText")
    then sanitize_typed_text event
    else if str_beq type (lit "keyDown")
    then sanitize_key key_down event
    else if str_beq type (lit "keyUp")
    then sanitize_key key_up event
    else none

-- `sanitizePointerMessage` and `sanitizeKeyboardMessage`: the event must be a record with a type.
unfoldable pub sanitize_pointer_message : Fields → Option ControlMessage
sanitize_pointer_message fields = do
  event ← as_record (lookup_field (lit "event") fields)
  type ← as_string (lookup_field (lit "type") event)
  pointer_of type event

unfoldable pub sanitize_keyboard_message : Fields → Option ControlMessage
sanitize_keyboard_message fields = do
  event ← as_record (lookup_field (lit "event") fields)
  type ← as_string (lookup_field (lit "type") event)
  keyboard_of type event

unfoldable pub message_of : Str → Fields → Option ControlMessage
message_of kind fields =
    if str_beq kind (lit "pointer")
    then sanitize_pointer_message fields
    else if str_beq kind (lit "keyboard")
    then sanitize_keyboard_message fields
    else none

unfoldable pub sanitize_control_message : Value → Option ControlMessage
sanitize_control_message value = do
  fields ← as_record value
  kind ← as_string (lookup_field (lit "kind") fields)
  message_of kind fields
