-- ===== src/Input/Windows.antt =====
-- internal/input/input_windows.go: the injector on SendInput. What it sends is the list that each
-- operation gives back. The screen's metrics and the products with floats are the numbers of the
-- events. `heldKeys` is an association list, in no particular order.
pub mod Keys
pub mod Release
use network_computer.Prelude.{
  ℕ, ◌+◌, Bool, true, false, List, [], ◌∷◌, ◌++◌, Option, none, some, ◌==◌, if◌then◌else◌,
}
use network_computer.Prelude.Assoc.{lookup, insert, delete}
use network_computer.Prelude.Bytes.{Bytes, bytes_key}
use network_computer.Prelude.Decimal.{ℤ, pos}
use network_computer.Prelude.Keys.{nat_eq}
use Keys.{win_vk}

abbrev pub mouse_move : ℕ
mouse_move = 1

abbrev pub mouse_left_down : ℕ
mouse_left_down = 2

abbrev pub mouse_left_up : ℕ
mouse_left_up = 4

abbrev pub mouse_right_down : ℕ
mouse_right_down = 8

abbrev pub mouse_right_up : ℕ
mouse_right_up = 16

abbrev pub mouse_middle_down : ℕ
mouse_middle_down = 32

abbrev pub mouse_middle_up : ℕ
mouse_middle_up = 64

abbrev pub mouse_wheel : ℕ
mouse_wheel = 2048

abbrev pub mouse_hwheel : ℕ
mouse_hwheel = 4096

abbrev pub mouse_absolute : ℕ
mouse_absolute = 32768

abbrev pub mouse_virtual_dsk : ℕ
mouse_virtual_dsk = 16384

abbrev pub key_key_up : ℕ
key_key_up = 2

abbrev pub key_extended : ℕ
key_extended = 1

-- One call of SendInput: flags, dx, dy and data, or a virtual key and flags.
pub data Sent : Type 0 where
  mouse_event : ℕ → ℤ → ℤ → ℤ → Sent
  key_event : ℕ → ℕ → Sent

pub record Win : Type 0 where
  pub held_keys : List (ℕ × Bool)
  pub buttons : ℕ → Bool

abbrev pub new_win : Win
new_win = record { held_keys = []; buttons = λ _. false }

-- The events, by their T. A move on a screen with no positive size is `none`, and so is a wheel's
-- delta of 0.
pub data Event : Type 0 where
  move : Option (ℤ × ℤ) → Event
  relative : ℤ → ℤ → Event
  button : Bool → ℕ → Event
  wheel : Option ℤ → Option ℤ → Event
  key : Bool → Bytes → Event
  other : Event

abbrev pub pick : Bool → ℕ → ℕ → ℕ
pick c a b = if c then a else b

unfoldable pub button_flag : Bool → ℕ → Option ℕ
button_flag down b =
    if b == 0
    then some (pick down mouse_left_down mouse_left_up)
    else if b == 1
    then some (pick down mouse_middle_down mouse_middle_up)
    else if b == 2
    then some (pick down mouse_right_down mouse_right_up)
    else none

unfoldable pub turn : ℕ → Option ℤ → List Sent
turn flag none = []
turn flag (some n) = mouse_event flag (pos 0) (pos 0) n ∷ []

abbrev pub key_flags : Bool → Bool → ℕ
key_flags ext down = (if ext then key_extended else 0) + (if down then 0 else key_key_up)

unfoldable pub handle : Win → Event → Win × List Sent
unfolding button_flag turn
handle w (move none) = (w, [])
handle w (move (some (nx, ny))) =
    (w, mouse_event (mouse_move + (mouse_absolute + mouse_virtual_dsk)) nx ny (pos 0) ∷ [])
handle w (relative dx dy) = (w, mouse_event mouse_move dx dy (pos 0) ∷ [])
handle w (button down b) = elim (button_flag down b) [
  | none ↦ (w, [])
  | some flag ↦ (
    record w { buttons = λ i. if i == b then down else w.buttons i },
    mouse_event flag (pos 0) (pos 0) (pos 0) ∷ [],
  )
]
handle w (wheel dy dx) = (w, turn mouse_wheel dy ++ turn mouse_hwheel dx)
handle w (key down code) = elim (lookup code win_vk) [
  | none ↦ (w, [])
  | some (vk, ext) ↦ (
    record w { held_keys = if down then insert vk true w.held_keys else delete vk w.held_keys },
    key_event vk (key_flags ext down) ∷ [],
  )
]
handle w other = (w, [])

unfoldable pub keys_up : List (ℕ × Bool) → List Sent
keys_up [] = []
keys_up ((vk, _) ∷ held) = key_event vk key_key_up ∷ keys_up held

unfoldable pub button_up : Win → ℕ → ℕ → List Sent
button_up w i flag = if w.buttons i then mouse_event flag (pos 0) (pos 0) (pos 0) ∷ [] else []

unfoldable pub release_all : Win → Win × List Sent
unfolding keys_up button_up
release_all w = (
  record { held_keys = []; buttons = λ _. false },
  keys_up w.held_keys
      ++ (button_up w 0 mouse_left_up
          ++ (button_up w 1 mouse_middle_up ++ button_up w 2 mouse_right_up)),
)
