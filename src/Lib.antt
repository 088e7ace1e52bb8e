-- ===== src/Lib.antt =====
-- network-computer: a desk that runs on a server and is used from any browser. A rendezvous
-- server introduces the devices to the desk's host over WebSockets; the host streams its screen
-- and sound over WebRTC and takes input and files. This library models the parts of both programs
-- that decide something, and proves what makes them correct.
--
-- Parts, and the files that model them:
--
-- - cmd/nc-rendezvous/main.go, type authority: Rendezvous/Auth.antt has the state (Authority: the
--   user, the password, the secret, the table of wrong passwords) and its operations check_creds,
--   blocked, failed, check_creds_from, request_ok (ok) and guard; Rendezvous/Auth/Endpoint.antt
--   has the handler of POST /auth. Rendezvous/Token.antt has mint and valid_token.
--   Auth/Throttle.antt and Auth/Access.antt have the theorems.
-- - cmd/nc-rendezvous/main.go, type hub, with internal/proto/proto.go: Rendezvous/Hub.antt has
--   the two maps and the operations add, remove, register_host (register), lookup_peer (lookup),
--   host_names, and the read loop of serveWS as handle, one frame at a time; `step` takes the hub
--   through connections, frames and disconnections. Proto.antt has the message.
-- - cmd/nc-host/pairing.go: Host/Pairing.antt. What the two kinds of token share, a payload and
--   its signature in base64, is Signed.antt.
-- - cmd/nc-host/hub.go: Host/Hub.antt has one function for each section under the mutex, and the
--   sections composed. Hub/Gate.antt is about the samples and Hub/Encoder.antt about when the
--   encoder runs, also when two devices' sections mix.
-- - cmd/nc-host/files.go, receiveFile: Host/Files.antt, one function for each case of OnMessage;
--   Files/Transfer.antt is about any messages and Files/Whole.antt about one whole transfer.
-- - internal/oggopus/oggopus.go: OggOpus.antt, OggOpus/Pages.antt for the pages that a writer
--   makes, OggOpus/Reading.antt for the rounds of Next and OggOpus/Duration.antt for durations.
-- - cmd/nc-host/clipboard.go: Host/Clipboard.antt has the operations of clipSync;
--   Clipboard/Pieces.antt is about a text in pieces, Clipboard/Runes.antt about where it is cut,
--   Clipboard/Sync.antt about the watching of the desk's clipboard.
-- - internal/input/input_linux.go: Input/Linux.antt, with the table of keys in Linux/Keys.antt;
--   Linux/Release.antt is about what the kernel holds pressed.
-- - cmd/nc-host/capture.go, runOnce and nalUnits: Host/Capture.antt assembles access units out of
--   NAL units, and Capture/Units.antt is about what the samples hold; Capture/Nals.antt cuts the
--   stream into NAL units, Nals/Code.antt is about start codes, Nals/Rounds.antt about the inner
--   loop and Nals/Split.antt about the reads.
-- - internal/input/input_windows.go: Input/Windows.antt, with the table of virtual keys in
--   Windows/Keys.antt; Windows/Release.antt is about what Windows holds pressed.
-- - cmd/nc-host/display.go: Host/Display.antt, the sizes and the control that skips repeats.
-- - cmd/nc-host/main.go, sessions: Sessions/State.antt has the records, Host/Sessions.antt one
--   function for each callback of handleOffer and `step` for any of them; Sessions/Gate.antt is
--   about who gets in, Sessions/Live.antt about the map of sessions and Sessions/Streaming.antt
--   about who is given the screen and the sound.
-- - internal/input/input_darwin.go: Input/Darwin.antt, with the table of keys in
--   Darwin/Keys.antt; Darwin/Release.antt is about ReleaseAll.
-- - cmd/nc-host/files.go, fileOut and serveSend: Host/Sending.antt; Sending/Receiver.antt is a
--   device that saves files (cmd/nc-probe/main.go, probeRecvFiles), Sending/Delivery.antt is
--   about the two.
-- - cmd/nc-host/camera.go: Host/Camera.antt, the stages of the tracks as a relation;
--   Camera/Owned.antt and Camera/Newest.antt are about which one has the webcam.
-- - cmd/nc-host/audio.go: Host/Audio.antt, when the packets of the sound are sent.
-- - cmd/nc-host/main.go, OnDataChannel and writeInput: Host/Control.antt; Control/Paste.antt is
--   about a paste and Control/Reports.antt about the input file.
-- - cmd/nc-host/files.go, safeName and uniquePath: Host/Names.antt, with runes and their bytes,
--   and Names/Unique.antt, on fuel, of which one more than the names there are is enough;
--   Safe.antt is about what can get through.
-- - cmd/nc-host/voice.go: Host/Voice.antt, the relay to nc-voice; Voice/Listener.antt is about
--   which connection of it is given the commands.
-- - cmd/nc-rendezvous/main.go, main: Rendezvous/Start.antt goes from the flags to the listeners,
--   and Start/Protected.antt and Start/Posture.antt are about where plain HTTP is served;
--   Rendezvous/Routes.antt has the mux, its handlers and /config, and Routes/Public.antt is about
--   what is open to anyone.
-- - cmd/nc-rendezvous/sites.go and talkback.go: Rendezvous/Proxy.antt and Proxy/Talkback.antt;
--   Proxy/Private.antt and Proxy/Paths.antt are about what passes. Prelude/Regexp.antt is what
--   the patterns use of package regexp, and Regexp/Language.antt the texts that a pattern
--   describes.
-- - cmd/nc-rendezvous/tls.go: Rendezvous/Certificate.antt, with Certificate/Stable.antt about the
--   files from start to start; internal/tlspin/tlspin.go is Tlspin.antt, with Tlspin/Pin.antt
--   about the ways to write a fingerprint and Certificate/Pinned.antt about server and client.
-- - cmd/nc-host/keyboard.go: Host/Keyboard.antt; Keyboard/Words.antt is about what is run.
-- - cmd/nc-host/pairing.go, loadPairing: Host/Pairing/Key.antt, the file and what a restart finds
--   in it.
-- - cmd/nc-probe/main.go: Probe.antt; Probe/Stats.antt is its counting, Probe/Keyframe.antt is
--   about the packets of H.264 and Probe/Sharing.antt about files and clipboards between it and a
--   desk.
-- - Prelude: numbers, lists, association lists by a key, texts as bytes, decimal numbers as fmt
--   and strconv write and read them, base64.RawURLEncoding, encoding/hex, trimming and patterns.
-- - Tests: the theorems at concrete inputs.
--
-- The parts meet in these places: guard stands in front of the hub's handlers and takes the
-- tokens that auth_endpoint hands out; the hub forwards to a host the offers whose pairing token
-- the host then checks, and an answer carries the token for the next time; the sessions join and
-- leave the shared encoders; a client's messages go through Control to the clipboard and to an
-- injector; what Sending puts on a channel is what the receiving device of the probe takes; the
-- mux puts the guard, the proxies and the login behind one address; a client of tlspin is given
-- the fingerprint of the server's certificate.
--
-- Conventions. Texts are lists of bytes (ℕ), ASCII where package strings or regexp looks at them,
-- and theorems about base64 say where they need bytes under 256. Times are nanoseconds as ℕ and
-- an argument of each operation; int64 seconds are bounded where a theorem needs it. A map is an
-- association list. HMAC-SHA-256, address parsing, HTTP Basic and the file system are parameters
-- (Platform, Disk, mac), and no theorem assumes that a digest has no collisions. Loops are
-- structural recursion; OggOpus.next reads pages on fuel, as many as there are bytes, which is
-- enough since a page takes at least 27; the clipboard's send has a round for each byte, which is
-- enough for any text in UTF-8; the scanner of NAL units has a round more than bytes in its
-- buffer, and uniquePath needs one more than names in the directory; the probe's loops have a
-- round for each byte of a file, a packet or a text, and for a text two more. What goes on at the
-- same time is a sequence of events or a step relation, one section under a mutex at a time; only
-- the events of the sessions take the two sections of a hub's leave and restart as one, and
-- Hub/Encoder.antt shows what can happen between them. What a library documents and a theorem
-- needs is a named hypothesis: IsReverseProxy of net/http/httputil, IsJson of encoding/json.
--
-- Not modelled: JSON (a message is what it decodes to; for the text of a clipboard's piece it is
-- a parameter, which keeps UTF-8), logging, the mutexes (each section under one is a function),
-- the goroutines and programs that capture and play, the protocols of TLS and TURN, the flags of
-- the host, and the parts of the host that have no file here: the programs that capture and play,
-- the microphone, and the probe's connecting, tone and camera.
pub mod Prelude
pub mod Http
pub mod Proto
pub mod Tlspin
pub mod Signed
pub mod OggOpus
pub mod Rendezvous
pub mod Input
pub mod Host
pub mod Probe
mod Tests
