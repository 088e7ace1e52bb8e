-- ===== src/Input/Linux.antt =====
-- internal/input/input_linux.go: the injector on /dev/uinput. What it writes to its three devices
-- is the list that each operation gives back. The products with the floats of an event, as int32,
-- are the numbers of the event. `heldKeys` is an association list, in no particular order.
pub mod Keys
pub mod Release
use network_computer.Prelude.{
  ℕ, Bool, true, false, not, ◌&&◌, List, [], ◌∷◌, ◌++◌, Option, none, some, ◌==◌, if◌then◌else◌,
}
use network_computer.Prelude.Assoc.{lookup, insert, delete}
use network_computer.Prelude.Bytes.{Bytes, bytes_key}
use network_computer.Prelude.Decimal.{ℤ, pos, negsuc}
use network_computer.Prelude.Keys.{nat_eq}
use Keys.{linux_key_codes}

pub data Device : Type 0 where
  kbd mouse tab : Device

-- The types and codes of input-event-codes.h that are written.
abbrev pub ev_syn : ℕ
ev_syn = 0

abbrev pub ev_key : ℕ
ev_key = 1

abbrev pub ev_rel : ℕ
ev_rel = 2

abbrev pub ev_abs : ℕ
ev_abs = 3

abbrev pub rel_x : ℕ
rel_x = 0

abbrev pub rel_y : ℕ
rel_y = 1

abbrev pub rel_hwheel : ℕ
rel_hwheel = 6

abbrev pub rel_wheel : ℕ
rel_wheel = 8

abbrev pub abs_x : ℕ
abs_x = 0

abbrev pub abs_y : ℕ
abs_y = 1

abbrev pub btn_left : ℕ
btn_left = 272

abbrev pub btn_right : ℕ
btn_right = 273

abbrev pub btn_middle : ℕ
btn_middle = 274

-- One write of `emit`.
pub record Emitted : Type 0 where
  pub device : Device
  pub typ : ℕ
  pub code : ℕ
  pub val : ℤ

abbrev pub emit : Device → ℕ → ℕ → ℤ → Emitted
emit f typ code val = record { device = f; typ = typ; code = code; val = val }

abbrev pub syn : Device → Emitted
syn f = emit f ev_syn 0 (pos 0)

pub record Linux : Type 0 where
  pub held_keys : List (ℕ × Bool)
  pub buttons : ℕ → Bool

abbrev pub new_linux : Linux
new_linux = record { held_keys = []; buttons = λ _. false }

-- The events, by their T: mm, mr, md and mu, wh, kd and ku, and every other one.
pub data Event : Type 0 where
  move : ℤ → ℤ → Event
  relative : ℤ → ℤ → Event
  button : Bool → ℕ → Event
  wheel : ℤ → ℤ → Event
  key : Bool → Bytes → Event
  other : Event

abbrev pub bool_int32 : Bool → ℤ
bool_int32 true = pos 1
bool_int32 false = pos 0

abbrev pub is_zero : ℤ → Bool
is_zero (pos n) = n == 0
is_zero (negsuc n) = false

unfoldable pub button_code : ℕ → Option ℕ
button_code b =
    if b == 0
    then some btn_left
    else if b == 1
    then some btn_middle
    else if b == 2
    then some btn_right
    else none

-- A turn of the wheel, unless it is less than a notch.
unfoldable pub notch : ℕ → ℤ → List Emitted
notch code n = if is_zero n then [] else emit mouse ev_rel code n ∷ []

unfoldable pub handle : Linux → Event → Linux × List Emitted
unfolding button_code notch
handle l (move x y) = (l, emit tab ev_abs abs_x x ∷ emit tab ev_abs abs_y y ∷ syn tab ∷ [])
handle l (relative dx dy) =
    (l, emit mouse ev_rel rel_x dx ∷ emit mouse ev_rel rel_y dy ∷ syn mouse ∷ [])
handle l (button down b) = elim (button_code b) [
  | none ↦ (l, [])
  | some code ↦ (
    record l { buttons = λ i. if i == b then down else l.buttons i },
    emit tab ev_key code (bool_int32 down) ∷ syn tab ∷ [],
  )
]
handle l (wheel up across) = (l, notch rel_wheel up ++ (notch rel_hwheel across ++ syn mouse ∷ []))
handle l (key down code) = elim (lookup code linux_key_codes) [
  | none ↦ (l, [])
  | some kc ↦ (
    record l { held_keys = if down then insert kc true l.held_keys else delete kc l.held_keys },
    emit kbd ev_key kc (bool_int32 down) ∷ syn kbd ∷ [],
  )
]
handle l other = (l, [])

unfoldable pub keys_up : List (ℕ × Bool) → List Emitted
keys_up [] = []
keys_up ((kc, _) ∷ held) = emit kbd ev_key kc (pos 0) ∷ keys_up held

-- `if l.buttons[i]`
unfoldable pub button_up : Linux → ℕ → ℕ → List Emitted
button_up l i code = if l.buttons i then emit tab ev_key code (pos 0) ∷ [] else []

unfoldable pub release_all : Linux → Linux × List Emitted
unfolding keys_up button_up
release_all l = (
  record { held_keys = []; buttons = λ _. false },
  keys_up l.held_keys
      ++ (syn kbd
          ∷ (button_up l 0 btn_left
              ++ (button_up l 1 btn_middle ++ (button_up l 2 btn_right ++ syn tab ∷ [])))),
)
