-- ===== src/Host/Control.antt =====
-- cmd/nc-host/main.go, OnDataChannel of handleOffer and writeInput: what a message of a client on its
-- control or input channel does. A message is what it decodes to; an input event is of a type E and a
-- screen size of a type D. What the handler does is the list that is given back, in its order; of what
-- it leaves to a goroutine only the start is in the list, since that may run at any time after it.
pub mod Paste
pub mod Reports
use network_computer.Prelude.{
  ℕ, Bool, true, false, not, ◌&&◌, ◌||◌, List, [], ◌∷◌, ◌++◌, map, is_nil, Option, none, some,
  if◌then◌else◌,
}
use network_computer.Prelude.Bytes.{Bytes, bytes_eq, codes}
use network_computer.Host.Clipboard.{ClipSync, Piece, Effect, receive_piece, get}

-- `kind` and `device` are inputKind and device of the host.
pub record Reported : Type 0 where
  pub kind : Bytes
  pub device : Bytes

abbrev pub nothing_reported : Reported
nothing_reported = record { kind = []; device = [] }

abbrev pub is_kind : Bytes → Bool
is_kind k = bytes_eq k (codes "touch") || bytes_eq k (codes "pointer")

abbrev pub is_device : Bytes → Bool
is_device d =
    bytes_eq d (codes "phone") || (bytes_eq d (codes "tablet") || bytes_eq d (codes "desktop"))

unfoldable pub report_lines : Reported → Bytes
report_lines r =
    (if is_nil r.kind then [] else codes "input=" ++ (r.kind ++ codes "\n"))
    ++ (if is_nil r.device then [] else codes "device=" ++ (r.device ++ codes "\n"))

unfoldable pub reported : Bytes → Bytes → Reported → Reported
reported kind device r = record {
  kind = if is_kind kind then kind else r.kind;
  device = if is_device device then device else r.device;
}

pub data Message (E D : Type 0) : Type 0 where
  keyboard : Bytes → Message E D
  clip : Piece → Message E D
  clip_get : Message E D
  clip_now : Message E D
  launch : Message E D
  tz : Bytes → Message E D
  input : Bytes → Bytes → Message E D
  voice : Bool → Bool → Message E D
  display : D → Message E D
  placed : E → Message E D  -- "md" or "mu" with At
  event : E → Message E D  -- any other

-- What is run as a goroutine.
pub data Task (D : Type 0) : Type 0 where
  set_keyboard : Bytes → Task D
  look_now : Task D
  run_launch : Task D
  set_timezone : Bytes → Task D
  apply : D → Task D

pub data Act (E D : Type 0) : Type 0 where
  go : Task D → Act E D  -- the `go` statement
  on_clip : Effect → Act E D
  write_file : Bytes → Act E D
  command : Bool → Bool → Act E D
  no_voice : Act E D
  inject : E → Act E D

-- `clip` is the session's, `reported` the host's.
pub record Control : Type 0 where
  pub clip : ClipSync
  pub reported : Reported

-- What the host has: an input file, and nc-voice running.
pub record Desk : Type 0 where
  pub has_file : Bool
  pub has_voice : Bool

-- writeInput: what is kept, and what is written to the file.
unfoldable pub write_input : Desk → Bytes → Bytes → Reported → Reported × Option Bytes
unfolding reported report_lines
write_input desk kind device r =
    let r' : Reported = reported kind device r in
    if not desk.has_file
    then (r, none)
    else if is_nil (report_lines r')
    then (r', none)
    else (r', some (report_lines r'))

abbrev pub written : {E D : Type 0} → Option Bytes → List (Act E D)
written none = []
written (some text) = write_file text ∷ []

module _ {E D : Type 0} where
  abbrev pub on_piece : Piece → Control → Control × List (Act E D)
  on_piece p c =
      let (clip', out) = receive_piece p c.clip in (record c { clip = clip' }, map on_clip out)

-- `move_of` is the "mm" event at the place of a press.
module _ {E D : Type 0} (move_of : E → E) where
  unfoldable pub on_control : Desk → Message E D → Control → Control × List (Act E D)
  unfolding write_input
  on_control desk (keyboard layout) c = (c, go (set_keyboard layout) ∷ [])
  on_control desk (clip p) c = on_piece p c
  on_control desk clip_get c = (record c { clip = get c.clip }, [])
  on_control desk clip_now c = (c, go look_now ∷ [])
  on_control desk launch c = (c, go run_launch ∷ [])
  on_control desk (tz name) c = (c, go (set_timezone name) ∷ [])
  on_control desk (input kind device) c =
      let (r, text) = write_input desk kind device c.reported in
      (record c { reported = r }, written text)
  on_control desk (voice on once) c =
      (c, (if desk.has_voice then command on once else no_voice) ∷ [])
  on_control desk (display size) c = (c, go (apply size) ∷ [])
  on_control desk (placed e) c = (c, inject (move_of e) ∷ inject e ∷ [])
  on_control desk (event e) c = (c, inject e ∷ [])

  -- The messages of a channel, in order.
  unfoldable pub on_all : Desk → List (Message E D) → Control → Control × List (Act E D)
  unfolding on_control
  on_all desk [] c = (c, [])
  on_all desk (m ∷ ms) c =
      let (c', acts) = on_control desk m c in
      let (c'', more) = on_all desk ms c' in (c'', acts ++ more)
