-- ===== src/Input/Bounds.antt =====
-- What the sanitizers of apps/desktop/src/main/ipcValidation.ts let through.
use native.Mathlib.Nat.{le-div_iff_mul-le, one-le-pow, suc-mul}
use remote_controll_app.Prelude.{
  ℕ, suc, ◌+◌, ◌*◌, ◌/◌, ◌^◌, ◌≤◌, ◌<◌, ◌≡◌, refl, Bool, true, false, Option, none, some, [], ◌∷◌,
  arith, Bool-cases, inl, inr, if◌then◌else◌, leb, leb→le, length, subst,
}
use remote_controll_app.Text.{Str, lit, is_empty, str_beq}
use remote_controll_app.Value.{Value, string, number, Fields, as_record, as_string, lookup_field}
use remote_controll_app.Value.Numeric.{Number, nonneg, negative, is_finite}
use remote_controll_app.Signaling.Payloads.{non_empty}
use remote_controll_app.Signaling.Payloads.Bounds.{bind-eq-some, of_some}
use remote_controll_app.Input.{sanitize_string}
use remote_controll_app.Input.Control.{
  Point, ControlMessage, move, press, scroll, type_text, key, clamp_round, clamp_both, read_finite,
  read_positive, read_button, sanitize_pointer_coordinates, sanitize_move, sanitize_press,
  sanitize_scroll, sanitize_typed_text, sanitize_key, pointer_of, keyboard_of,
  sanitize_pointer_message, sanitize_keyboard_message, message_of, sanitize_control_message, Press,
  KeyPress, click, mouse_down, mouse_up, key_down, key_up,
}

-- A text no longer than the limit.
abbrev pub Short : ℕ → Option Str → Type 0
Short max none = Unit
Short max (some s) = length s ≤ max

pub sanitize_string-Short :
    (max : ℕ) (trims : Bool) (v : Value) → Short max (sanitize_string max trims v)
unfolding sanitize_string
sanitize_string-Short max true (string s) = ground arith
sanitize_string-Short max false (string s) = ground arith
sanitize_string-Short max trims v = tt

pub sanitize_string-short_some :
    (max : ℕ) (trims : Bool) (v : Value) {s : Str}
    → sanitize_string max trims v ≡ some s
    → length s ≤ max
sanitize_string-short_some max trims v {s} e =
    subst (Short max) e (sanitize_string-Short max trims v)

double : (a p : ℕ) → a * (2 * p) ≡ 2 * (a * p)
double a p = omega arith

-- Rounding half up stays between whole bounds.
round-lo : (lo m p : ℕ) → 0 < p → lo * p ≤ m → lo ≤ (2 * m + p) / (2 * p)
round-lo lo m p pos h = (le-div_iff_mul-le (omega arith)).1 (omega (arith, double lo p))

round-absurd : (hi m p : ℕ) → m < hi * p → suc hi * (2 * p) ≤ 2 * m + p → (2 * m + p) / (2 * p) ≤ hi
round-absurd hi m p h q = omega (arith, double (suc hi) p, suc-mul hi p)

round-hi : (hi m p : ℕ) → 0 < p → m < hi * p → (2 * m + p) / (2 * p) ≤ hi
round-hi hi m p pos h = elim (Bool-cases (leb (suc hi) ((2 * m + p) / (2 * p)))) [
  | inl y ↦ round-absurd hi m p h ((le-div_iff_mul-le (omega arith)).0 (leb→le _ _ y))
  | inr n ↦ ground arith
]

-- A clamped and rounded number lies between its whole bounds.
pub clamp_round_bounds :
    (lo hi : ℕ) (n : Number) → lo ≤ hi → (lo ≤ clamp_round lo hi n) × (clamp_round lo hi n ≤ hi)
unfolding clamp_round
clamp_round_bounds lo hi (nonneg m k) h =
    ground (arith, round-lo lo m (2 ^ k), round-hi hi m (2 ^ k), one-le-pow k 2 (omega arith))
clamp_round_bounds lo hi n h = ground arith

-- A point lies on a screen of a sensible size.
pub record IsPoint (p : Point) : Type 0 where
  pub width : (1 ≤ p.screen_width) × (p.screen_width ≤ 100000)
  pub height : (1 ≤ p.screen_height) × (p.screen_height ≤ 100000)
  pub inside : (p.x ≤ p.screen_width) × (p.y ≤ p.screen_height)

sanitize_pointer_coordinates-IsPoint :
    (event : Fields) {p : Point} → sanitize_pointer_coordinates event ≡ some p → IsPoint p
unfolding sanitize_pointer_coordinates
sanitize_pointer_coordinates-IsPoint event h =
    let (x, _, h1) = bind-eq-some (read_finite _) _ h in
    let (y, _, h2) = bind-eq-some (read_finite _) _ h1 in
    let (w, _, h3) = bind-eq-some (read_positive _) _ h2 in
    let (v, _, h4) = bind-eq-some (read_positive _) _ h3 in
    of_some IsPoint h4 (record {
      width = clamp_round_bounds 1 100000 w (omega arith);
      height = clamp_round_bounds 1 100000 v (omega arith);
      inside = (
        (clamp_round_bounds 0 (clamp_round 1 100000 w) x (omega arith)).1,
        (clamp_round_bounds 0 (clamp_round 1 100000 v) y (omega arith)).1,
      );
    })

-- A finite number between -bound and bound.
abbrev pub Between : ℕ → Number → Type 0
Between bound (nonneg m k) = m ≤ bound * 2 ^ k
Between bound (negative m k) = suc m ≤ bound * 2 ^ k
Between bound _ = ⊥

read_finite-Between :
    (bound : ℕ) (v : Value) {n : Number}
    → 1 ≤ bound
    → read_finite v ≡ some n
    → Between bound (clamp_both bound n)
unfolding read_finite clamp_both is_finite
read_finite-Between bound (number (nonneg m k)) {n} pos h =
    let same : nonneg m k ≡ n = cc h in rw (← same) (ground arith)
read_finite-Between bound (number (negative m k)) {n} pos h =
    let same : negative m k ≡ n = cc h in rw (← same) (ground arith)
read_finite-Between bound v pos h = cc h

-- What a control message may hold.
abbrev pub IsControl : ControlMessage → Type 0
IsControl (move p) = IsPoint p
IsControl (press kind button p) = IsPoint p
IsControl (scroll dx dy) = Between 5000 dx × Between 5000 dy
IsControl (type_text text) = length text ≤ 4096
IsControl (key kind code name) = (is_empty code ≡ false) × (length code ≤ 64) × (length name ≤ 64)

pub non_empty-some :
    (max : ℕ) (o : Option Str) {s : Str}
    → Short max o
    → non_empty o ≡ some s
    → (is_empty s ≡ false) × (length s ≤ max)
non_empty-some max none b h = cc h
non_empty-some max (some []) b h = cc h
non_empty-some max (some (c ∷ t)) {s} b h = let same : c ∷ t ≡ s = cc h in rw (← same) (refl, b)

sanitize_move-IsControl :
    (event : Fields) {c : ControlMessage} → sanitize_move event ≡ some c → IsControl c
unfolding sanitize_move
sanitize_move-IsControl event h =
    let (p, e, h1) = bind-eq-some (sanitize_pointer_coordinates _) _ h in
    of_some IsControl h1 (sanitize_pointer_coordinates-IsPoint event e)

sanitize_press-IsControl :
    (kind : Press) (event : Fields) {c : ControlMessage}
    → sanitize_press kind event ≡ some c
    → IsControl c
unfolding sanitize_press
sanitize_press-IsControl kind event h =
    let (p, e, h1) = bind-eq-some (sanitize_pointer_coordinates _) _ h in
    let (b, _, h2) = bind-eq-some (read_button _) _ h1 in
    of_some IsControl h2 (sanitize_pointer_coordinates-IsPoint event e)

sanitize_scroll-IsControl :
    (event : Fields) {c : ControlMessage} → sanitize_scroll event ≡ some c → IsControl c
unfolding sanitize_scroll
sanitize_scroll-IsControl event h =
    let (dx, e, h1) = bind-eq-some (read_finite _) _ h in
    let (dy, e', h2) = bind-eq-some (read_finite _) _ h1 in
    of_some IsControl h2
      (read_finite-Between 5000 _ (omega arith) e, read_finite-Between 5000 _ (omega arith) e')

sanitize_typed_text-IsControl :
    (event : Fields) {c : ControlMessage} → sanitize_typed_text event ≡ some c → IsControl c
unfolding sanitize_typed_text
sanitize_typed_text-IsControl event h =
    let (text, e, h1) = bind-eq-some (sanitize_string 4096 false _) _ h in
    of_some IsControl h1 (sanitize_string-short_some 4096 false _ e)

sanitize_key-IsControl :
    (kind : KeyPress) (event : Fields) {c : ControlMessage}
    → sanitize_key kind event ≡ some c
    → IsControl c
unfolding sanitize_key
sanitize_key-IsControl kind event h =
    let (code, e, h1) = bind-eq-some (non_empty _) _ h in
    let (name, e', h2) = bind-eq-some (sanitize_string 64 false _) _ h1 in
    let (full, short) = non_empty-some 64 _ (sanitize_string-Short 64 true _) e in
    of_some IsControl h2 (full, short, sanitize_string-short_some 64 false _ e')

-- A conditional that returns a value returns that of one of its branches.
pub if_some {ℓ} :
    {A : Type ℓ} (P : A → Type 0) (b : Bool) (x y : Option A) {a : A}
    → (x ≡ some a → P a)
    → (y ≡ some a → P a)
    → (if b then x else y) ≡ some a
    → P a
if_some P true x y f g h = f h
if_some P false x y f g h = g h

pub nothing_some {ℓ} : {A : Type ℓ} (P : A → Type 0) {a : A} → none ≡ some a → P a
nothing_some P h = cc h

pub pointer_of-IsControl :
    (type : Str) (event : Fields) {c : ControlMessage}
    → pointer_of type event ≡ some c
    → IsControl c
unfolding pointer_of
pointer_of-IsControl type event h =
    if_some IsControl (str_beq type (lit "move")) _ _ (sanitize_move-IsControl event)
      (if_some IsControl (str_beq type (lit "click")) _ _ (sanitize_press-IsControl click event) (
        if_some IsControl (str_beq type (lit "mouseDown")) _ _
          (sanitize_press-IsControl mouse_down event)
          (if_some IsControl (str_beq type (lit "mouseUp")) _ _
            (sanitize_press-IsControl mouse_up event)
            (if_some IsControl (str_beq type (lit "scroll")) _ _ (sanitize_scroll-IsControl event)
              (nothing_some IsControl)))))
      h

pub keyboard_of-IsControl :
    (type : Str) (event : Fields) {c : ControlMessage}
    → keyboard_of type event ≡ some c
    → IsControl c
unfolding keyboard_of
keyboard_of-IsControl type event h =
    if_some IsControl (str_beq type (lit "typeText")) _ _ (sanitize_typed_text-IsControl event)
      (if_some IsControl (str_beq type (lit "keyDown")) _ _ (sanitize_key-IsControl key_down event)
        (if_some IsControl (str_beq type (lit "keyUp")) _ _ (sanitize_key-IsControl key_up event)
          (nothing_some IsControl)))
      h

sanitize_pointer_message-IsControl :
    (fields : Fields) {c : ControlMessage} → sanitize_pointer_message fields ≡ some c → IsControl c
unfolding sanitize_pointer_message
sanitize_pointer_message-IsControl fields h =
    let (event, _, h1) = bind-eq-some (as_record _) _ h in
    let (type, _, h2) =
      bind-eq-some (as_string (lookup_field (lit "type") event)) (λ t. pointer_of t event) h1 in
    pointer_of-IsControl type event h2

sanitize_keyboard_message-IsControl :
    (fields : Fields) {c : ControlMessage} → sanitize_keyboard_message fields ≡ some c → IsControl c
unfolding sanitize_keyboard_message
sanitize_keyboard_message-IsControl fields h =
    let (event, _, h1) = bind-eq-some (as_record _) _ h in
    let (type, _, h2) =
      bind-eq-some (as_string (lookup_field (lit "type") event)) (λ t. keyboard_of t event) h1 in
    keyboard_of-IsControl type event h2

-- A control message that is let through: a pointer lies on a screen of 1 to 100000 pixels each way,
-- a scroll step lies between -5000 and 5000, a text has at most 4096 code units, and a key has a
-- code of 1 to 64 and a name of at most 64.
pub sanitize_control_message-IsControl :
    (v : Value) (c : ControlMessage) → sanitize_control_message v ≡ some c → IsControl c
unfolding sanitize_control_message message_of
sanitize_control_message-IsControl v c h =
    let (fields, _, h1) = bind-eq-some (as_record v) _ h in
    let (kind, _, h2) =
      bind-eq-some (as_string (lookup_field (lit "kind") fields)) (λ t. message_of t fields) h1 in
    if_some IsControl (str_beq kind (lit "pointer")) _ _ (sanitize_pointer_message-IsControl fields)
      (if_some IsControl (str_beq kind (lit "keyboard")) _ _
        (sanitize_keyboard_message-IsControl fields) (nothing_some IsControl))
      h2
