-- ===== src/Host/Sessions.antt =====
-- cmd/nc-host/main.go: the sessions of type host. A session is a number, for its pointer; `objs` has
-- every session that was made, also when it is no longer in the map `sessions`, since its callbacks
-- go on being called. Each event is one callback, or one step of the goroutine that joins the
-- encoders; what it does to the outside is the list that it gives back. What pion and the capture
-- options answer is arguments. A connection reports Connected once. An event takes the sections of the
-- hub's leave and restart together; those of other events that come between them are in Hub/Encoder.
pub mod Gate
pub mod Live
pub mod Streaming
pub mod State
unfoldable pub use State.*
use network_computer.Prelude.{
  ℕ, suc, ◌+◌, ◌/◌, ◌<◌, Bool, true, false, not, ◌&&◌, ◌||◌, List, [], ◌∷◌, ◌++◌, Option, none,
  some, is_nil, ltb, ◌==◌, if◌then◌else◌,
}
use network_computer.Prelude.Assoc.{lookup, insert, delete}
use network_computer.Prelude.Bytes.{Bytes, bytes_key, bytes_eq, codes}
use network_computer.Prelude.Keys.{nat_eq}
use network_computer.Proto.{Message, no_message}
use network_computer.Host.Hub.{Hub, join, leave, restart}
use network_computer.Host.Pairing
use network_computer.Host.Pairing.{Pairing}

abbrev pub rejection : Message → Bytes
rejection m =
    if not (is_nil m.pair) && is_nil m.pin
    then codes "pairing expired or revoked: enter the PIN"
    else codes "wrong PIN"

module _ {O : Type 0} where
  unfoldable pub write_idle : ℕ → Host O → Host O × List Effect
  write_idle now h =
      let n = count_connected h.objs h.sessions in
      let since : ℕ = elim h.idle_since [ none ↦ now | some t ↦ t ] in
      if not h.has_idle_file
      then (h, [])
      else if ltb 0 n
      then (record h { idle_since = none }, busy n ∷ [])
      else (record h { idle_since = some since }, idle_at (since / second) ∷ [])

  -- `h.sessions[peer] == s`
  unfoldable pub holds : Host O → Bytes → ℕ → Bool
  holds h peer id = elim (lookup peer h.sessions) [ none ↦ false | some i ↦ i == id ]

  -- closeSession, before it writes the idle file.
  unfoldable pub drop_session : Bytes → ℕ → Host O → Host O
  drop_session peer id h = record h {
    objs = update shut id h.objs;
    sessions = if holds h peer id then delete peer h.sessions else h.sessions;
  }

  unfoldable pub close_session : ℕ → Bytes → ℕ → Host O → Host O × List Effect
  unfolding drop_session write_idle
  close_session now peer id h =
      let h' = drop_session peer id h in
      let (h'', out) = write_idle now h' in
      (h'', (if is_nil h'.sessions then voice_off ∷ [] else []) ++ out)

  -- The new session in the map, and the one that it replaces cancelled and closed.
  unfoldable pub open_session : Bytes → Host O → Host O
  open_session peer h =
      let s : Session = record { peer = peer; pc = fresh; cancelled = false; stage = idle } in
      let objs : List (ℕ × Session) = elim (lookup peer h.sessions) [
        | none ↦ h.objs
        | some old ↦ update shut old h.objs
      ] in
      record h {
        sessions = insert peer h.next h.sessions;
        objs = insert h.next s objs;
        next = suc h.next;
      }

  abbrev pub set_pc : ℕ → Session → PcState → Host O → Host O
  set_pc id s st h = record h { objs = insert id (record s { pc = st }) h.objs }

  unfoldable pub lost : ℕ → ℕ → Session → Host O → Host O × List Effect
  unfolding close_session
  lost now id s h = let (h', out) = close_session now s.peer id h in (h', release_all ∷ out)

  -- OnConnectionStateChange of a session.
  unfoldable pub on_state_of : ℕ → ℕ → Session → PcState → Host O → Host O × List Effect
  unfolding lost write_idle
  on_state_of now id s connected h =
      write_idle now (set_pc id (record s { stage = started s.stage }) connected h)
  on_state_of now id s disconnected h = lost now id s (set_pc id s disconnected h)
  on_state_of now id s failed h = lost now id s (set_pc id s failed h)
  on_state_of now id s closed h = lost now id s (set_pc id s closed h)
  on_state_of now id s fresh h = (set_pc id s fresh h, [])
  on_state_of now id s connecting h = (set_pc id s connecting h, [])

  unfoldable pub on_state : ℕ → ℕ → PcState → Host O → Host O × List Effect
  unfolding on_state_of
  on_state now id st h = elim (lookup id h.objs) [
    | none ↦ (h, [])
    | some s ↦ on_state_of now id s st h
  ]

  -- The goroutine joins the encoders, once.
  unfoldable pub on_join_of : ℕ → Session → Stage → O → Host O → Host O
  on_join_of id s joining opts h = record h {
    objs = insert id (record s { stage = streaming }) h.objs;
    video = join id opts h.video;
    sound = if h.has_audio then join id opts h.sound else h.sound;
  }
  on_join_of id s idle opts h = h
  on_join_of id s streaming opts h = h
  on_join_of id s left opts h = h

  unfoldable pub on_join : ℕ → O → Host O → Host O
  unfolding on_join_of
  on_join id opts h = elim (lookup id h.objs) [ none ↦ h | some s ↦ on_join_of id s s.stage opts h ]

  -- It leaves them, when its context is done.
  unfoldable pub on_leave_of : ℕ → Session → Stage → Bool → Host O → Host O
  on_leave_of id s streaming true h = record h {
    objs = insert id (record s { stage = left }) h.objs;
    video = leave id h.video;
    sound = if h.has_audio then leave id h.sound else h.sound;
  }
  on_leave_of id s streaming false h = h
  on_leave_of id s idle done h = h
  on_leave_of id s joining done h = h
  on_leave_of id s left done h = h

  unfoldable pub on_leave : ℕ → Host O → Host O
  unfolding on_leave_of
  on_leave id h = elim (lookup id h.objs) [
    | none ↦ h
    | some s ↦ on_leave_of id s s.stage s.cancelled h
  ]

  -- A "display" message on a session's channel has changed the screen.
  unfoldable pub on_resize : ℕ → O → Host O → Host O
  on_resize id opts h = elim (lookup id h.objs) [
    | none ↦ h
    | some _ ↦ record h { video = restart opts h.video }
  ]

  -- `case "ice"` of the read loop
  unfoldable pub on_ice : Message → Host O → List Effect
  on_ice m h = elim (lookup m.from h.sessions) [
    | none ↦ []
    | some id ↦ add_candidate id m.candidate ∷ []
  ]

pub data Event (O : Type 0) : Type 0 where
  offer : Setup → Message → Event O
  ice : Message → Event O
  state : ℕ → PcState → Event O
  joins : ℕ → O → Event O
  leaves : ℕ → Event O
  resize : ℕ → O → Event O

module _ (mac : Bytes → Bytes → Bytes) {O : Type 0} where
  unfoldable pub pin_ok : Host O → Message → Bool
  pin_ok h m = not (is_nil m.pin) && bytes_eq m.pin h.pin

  unfoldable pub pair_ok : ℕ → Host O → Message → Bool
  pair_ok now h m = not (is_nil m.pair) && Pairing.valid mac h.pairs now m.pair

  -- handleOffer. The tracks, the descriptions and the answer come after the session is in the map,
  -- and the first that fails closes it.
  unfoldable pub handle_offer : ℕ → Setup → Message → Host O → Host O × List Effect
  unfolding pin_ok pair_ok open_session close_session
  handle_offer now setup m h =
      let opened = open_session m.from h in
      let answer = record no_message {
        type = codes "answer";
        to = m.from;
        sdp = setup.sdp;
        pair = Pairing.mint mac h.pairs now;
      } in
      if not (pin_ok h m) && not (pair_ok now h m)
      then (
        h,
        send (record no_message { type = codes "error"; to = m.from; error = rejection m }) ∷ [],
      )
      else if not setup.pc_ok
      then (h, [])
      else if all_ok setup
      then (opened, send answer ∷ [])
      else close_session now m.from h.next opened

  -- One event, at a time.
  unfoldable pub step : ℕ → Event O → Host O → Host O × List Effect
  unfolding handle_offer on_state on_join on_leave on_resize on_ice
  step now (offer setup m) h = handle_offer now setup m h
  step now (ice m) h = (h, on_ice m h)
  step now (state id st) h = on_state now id st h
  step now (joins id opts) h = (on_join id opts h, [])
  step now (leaves id) h = (on_leave id h, [])
  step now (resize id opts) h = (on_resize id opts h, [])

  unfoldable pub run : List (ℕ × Event O) → Host O → Host O
  unfolding step
  run [] h = h
  run ((now, e) ∷ es) h = run es (step now e h).0

module _ {O : Type 0} where
  abbrev pub new_host : Bytes → Pairing → Bool → Bool → Option ℕ → Hub O → Hub O → Host O
  new_host pin pairs audio idle_file since video sound = record {
    pin = pin;
    pairs = pairs;
    has_audio = audio;
    has_idle_file = idle_file;
    sessions = [];
    objs = [];
    next = 0;
    video = video;
    sound = sound;
    idle_since = since;
  }
