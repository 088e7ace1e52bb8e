-- ===== src/Host/Voice.antt =====
-- cmd/nc-host/voice.go: the relay between the clients and nc-voice. A connection of nc-voice is a number,
-- for its channel; `queue` has what waits in each channel, and `gone` tells which have disconnected.
pub mod Listener
use network_computer.Prelude.{
  ℕ, suc, Bool, true, false, not, ◌&&◌, ◌||◌, List, [], ◌∷◌, ◌++◌, Option, none, some, length,
  is_nil, ltb, ◌==◌, if◌then◌else◌,
}
use network_computer.Prelude.Bytes.{Bytes, codes}

pub record Relay : Type 0 where
  pub sub : Option ℕ
  pub queue : ℕ → List Bytes
  pub next : ℕ

abbrev pub new_relay : Relay
new_relay = record { sub = none; queue = λ _. []; next = 0 }

abbrev pub command_text : Bool → Bool → Bytes
command_text on once =
    if on && once
    then codes "{\"cmd\":\"on\",\"once\":true}"
    else if on
    then codes "{\"cmd\":\"on\"}"
    else codes "{\"cmd\":\"off\"}"

-- A channel holds eight.
abbrev pub offer : Bytes → List Bytes → List Bytes
offer text q = if ltb (length q) 8 then q ++ text ∷ [] else q

abbrev pub set_queue : ℕ → List Bytes → Relay → Relay
set_queue ch q v = record v { queue = λ c. if c == ch then q else v.queue c }

-- `command`; the answer is false if nc-voice is not running.
unfoldable pub command : Bool → Bool → Relay → Relay × Bool
command on once v = elim v.sub [
  | none ↦ (v, false)
  | some ch ↦ (set_queue ch (offer (command_text on once) (v.queue ch)) v, true)
]

-- handleVoiceCommands: the connection, a turn of its loop that writes what waits, and its end.
unfoldable pub connect : Relay → Relay
connect v = record v { sub = some v.next; next = suc v.next }

unfoldable pub take_command : ℕ → Relay → Relay × Option Bytes
take_command ch v = elim (v.queue ch) [ [] ↦ (v, none) | text ∷ q ↦ (set_queue ch q v, some text) ]

abbrev pub is_sub : Option ℕ → ℕ → Bool
is_sub none ch = false
is_sub (some c) ch = c == ch

unfoldable pub disconnect : ℕ → Relay → Relay
disconnect ch v = record v { sub = if is_sub v.sub ch then none else v.sub }

pub data Event : Type 0 where
  commands : Bool → Bool → Event
  connects : Event
  takes : ℕ → Event
  disconnects : ℕ → Event

unfoldable pub step : Event → Relay → Relay
unfolding command connect take_command disconnect
step (commands on once) v = (command on once v).0
step connects v = connect v
step (takes ch) v = (take_command ch v).0
step (disconnects ch) v = disconnect ch v
