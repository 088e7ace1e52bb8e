-- ===== src/Tests/Sessions.antt =====
-- Sessions of a host, at concrete inputs.
use network_computer.Prelude.{
  ℕ, ◌+◌, ◌/◌, ◌≡◌, refl, true, false, List, [], ◌∷◌, ◌++◌, none, some, arith, leb, if◌then◌else◌,
}
use network_computer.Prelude.Assoc.{lookup, insert}
use network_computer.Prelude.Bytes.{Bytes, bytes_key, bytes_eq, codes}
use network_computer.Proto.{Message, no_message}
use network_computer.Host.Hub.{new_hub}
use network_computer.Input.Darwin
use network_computer.Input.Darwin.Release
use network_computer.Host.Pairing
use network_computer.Host.Pairing.{Pairing, pair_ttl}
use network_computer.Host.Sessions.{
  Host, Setup, Event, offer, state, joins, leaves, send, connected, failed, new_host, handle_offer,
  run, update, holds, pin_ok, pair_ok,
}
use network_computer.Host.Sessions.Gate.{admits, answer_for, no_secret_no_session, paired_reconnect}
use network_computer.Host.Sessions.Live.{HostIsLive, live_peer}
use network_computer.Host.Sessions.Live.Run.{run-IsLive}
use network_computer.Host.Sessions.Streaming.{AllStream, streams_at}
use network_computer.Host.Sessions.Streaming.Run.{run-AllStream}

abbrev mac : Bytes → Bytes → Bytes
mac secret text = secret ++ text

abbrev second : ℕ
second = 1000000000

abbrev pairs : Pairing
pairs = record { host = codes "desk"; secret = codes "k" }

abbrev host : Host ℕ
host = new_host (codes "1234") pairs true false none (new_hub true) (new_hub false)

abbrev good : Setup
good = record {
  pc_ok = true;
  tracks_ok = true;
  remote_ok = true;
  answer_ok = true;
  local_ok = true;
  sdp = codes "v=0";
}

abbrev knock : Bytes → Message
knock pin = record no_message { type = codes "offer"; from = codes "c1"; pin = pin }

-- A client comes in, streams, connects again, and its first session is then told that it failed.
abbrev comings : List (ℕ × Event ℕ)
comings =
    (1, offer good (knock (codes "1234")))
    ∷ (2, state 0 connected)
    ∷ (3, joins 0 7)
    ∷ (4, offer good (knock (codes "1234")))
    ∷ (5, state 0 failed)
    ∷ (6, leaves 0)
    ∷ []

new-HostIsLive : HostIsLive host
unfolding live_peer lookup
new-HostIsLive = record {
  mapped = λ q j e. ground (arith, e);
  live = λ q j e. ground (arith, e);
  unused = λ j le. refl;
}

new-AllStream : AllStream host
unfolding streams_at lookup
new-AllStream = record {
  on_video = record { subs = λ j. refl; balanced = refl };
  on_sound = λ _. record { subs = λ j. refl; balanced = refl };
}

run-IsLive_example : HostIsLive (run mac comings host)
run-IsLive_example = run-IsLive mac comings host new-HostIsLive

run-AllStream_example : AllStream (run mac comings host)
run-AllStream_example = run-AllStream mac comings host new-HostIsLive new-AllStream

-- The second session is in the map.
replaced : lookup (codes "c1") (run mac comings host).sessions ≡ some 1
unfolding run lookup bytes_eq insert update holds
replaced = refl

abbrev strangers : List (ℕ × Event ℕ)
strangers =
    (1, offer good (knock (codes "0000"))) ∷ (2, joins 0 7) ∷ (3, offer good (knock [])) ∷ []

no_secret_no_session_example : run mac strangers host ≡ host
unfolding pin_ok pair_ok bytes_eq
no_secret_no_session_example = no_secret_no_session mac strangers host refl (refl, (tt, (refl, tt)))

abbrev returning : Message
returning = record (knock []) { pair = Pairing.mint mac pairs 1 }

paired_reconnect_example :
    ((handle_offer mac 1 good (knock (codes "1234")) host).1
      ≡ send (answer_for mac 1 good (knock (codes "1234")) host) ∷ [])
    × (admits mac 2 host returning ≡ leb (2 / second) ((1 + pair_ttl) / second))
unfolding pin_ok bytes_eq
paired_reconnect_example =
    paired_reconnect mac 1 2 good (knock (codes "1234")) returning host host (omega arith)
      (omega arith) (omega arith) refl refl refl refl refl refl

-- A point is one coordinate.
abbrev dragged : List (Darwin.Event ℕ)
dragged = Darwin.key true (codes "ShiftLeft") ∷ Darwin.button true 0 ∷ Darwin.move 5 ∷ []

mac_release_example :
    let (m, v) =
      Release.run
        (λ p. p)
        (λ a d. a + d)
        (λ p. p)
        (Darwin.new_mac 0)
        Release.nothing_down
        dragged in
    Release.released (λ p. p) (λ a d. a + d) (λ p. p) m v 56
    ≡ (if Release.any_down v then none else some false)
mac_release_example = Release.mac_release (λ p. p) (λ a d. a + d) (λ p. p) 0 dragged 56
