-- ===== src/Host/Sessions/State.antt =====
-- What a host keeps of its sessions, and what it does to the outside.
use network_computer.Prelude.{
  ℕ, ◌+◌, Bool, true, false, ◌&&◌, List, [], ◌∷◌, Option, none, some, if◌then◌else◌,
}
use network_computer.Prelude.Assoc.{lookup, insert}
use network_computer.Prelude.Bytes.{Bytes, bytes_key}
use network_computer.Prelude.Keys.{nat_eq}
use network_computer.Proto.{Message}
use network_computer.Host.Hub.{Hub}
use network_computer.Host.Pairing.{Pairing}

pub data PcState : Type 0 where
  fresh connecting connected disconnected failed closed : PcState

-- Where the goroutine that Connected starts has come to.
pub data Stage : Type 0 where
  idle joining streaming left : Stage

pub record Session : Type 0 where
  pub peer : Bytes
  pub pc : PcState
  pub cancelled : Bool
  pub stage : Stage

pub record Host (O : Type 0) : Type 0 where
  pub pin : Bytes
  pub pairs : Pairing
  pub has_audio : Bool  -- h.audio is not ""
  pub has_idle_file : Bool  -- h.idleFile is not ""
  pub sessions : List (Bytes × ℕ)
  pub objs : List (ℕ × Session)
  pub next : ℕ
  pub video : Hub O
  pub sound : Hub O
  pub idle_since : Option ℕ

-- What is done to the outside: a message sent, ReleaseAll of the injector, voice told to stop, the
-- idle file's line, an ICE candidate handed to a session's connection.
pub data Effect : Type 0 where
  send : Message → Effect
  release_all : Effect
  voice_off : Effect
  busy : ℕ → Effect
  idle_at : ℕ → Effect
  add_candidate : ℕ → Bytes → Effect

-- What pion answers while an offer is handled.
pub record Setup : Type 0 where
  pub pc_ok : Bool
  pub tracks_ok : Bool
  pub remote_ok : Bool
  pub answer_ok : Bool
  pub local_ok : Bool
  pub sdp : Bytes

abbrev pub all_ok : Setup → Bool
all_ok u = u.tracks_ok && (u.remote_ok && (u.answer_ok && u.local_ok))

abbrev pub second : ℕ
second = 1000000000

abbrev pub is_connected : PcState → Bool
is_connected connected = true
is_connected fresh = false
is_connected connecting = false
is_connected disconnected = false
is_connected failed = false
is_connected closed = false

unfoldable pub update : (Session → Session) → ℕ → List (ℕ × Session) → List (ℕ × Session)
update f id objs = elim (lookup id objs) [ none ↦ objs | some s ↦ insert id (f s) objs ]

-- cancel() and pc.Close()
abbrev pub shut : Session → Session
shut s = record s { cancelled = true; pc = closed }

-- Connected starts the goroutine.
abbrev pub started : Stage → Stage
started idle = joining
started joining = joining
started streaming = streaming
started left = left

abbrev pub is_connected_at : List (ℕ × Session) → ℕ → Bool
is_connected_at objs id = elim (lookup id objs) [ none ↦ false | some s ↦ is_connected s.pc ]

-- The sessions of the map whose connection is up.
unfoldable pub count_connected : List (ℕ × Session) → List (Bytes × ℕ) → ℕ
count_connected objs [] = 0
count_connected objs ((_, id) ∷ ss) =
    (if is_connected_at objs id then 1 else 0) + count_connected objs ss
