-- ===== src/Host/Voice/Listener.antt =====
-- Which connection of nc-voice is given the commands.
use network_computer.Prelude.{
  ℕ, suc, ◌≡◌, ◌∙◌, refl, Bool, true, false, List, [], ◌∷◌, Option, none, some, ==_iff,
  if◌then◌else◌, arith,
}
use network_computer.Host.Voice.{
  Relay, new_relay, command, command_text, offer, connect, take_command, disconnect, is_sub, Event,
  commands, connects, takes, disconnects, step,
}

unfoldable pub run : List Event → Relay → Relay
unfolding step
run [] v = v
run (e ∷ es) v = run es (step e v)

abbrev is_connect : Event → Bool
is_connect connects = true
is_connect (commands on once) = false
is_connect (takes ch) = false
is_connect (disconnects ch) = false

abbrev pub is_some : Option ℕ → Bool
is_some none = false
is_some (some _) = true

-- What the events say about it: the newest connection, unless it has ended; `n` connections were made.
abbrev pub newest : List Event → ℕ → Option ℕ → Option ℕ
newest [] n last = last
newest (commands on once ∷ es) n last = newest es n last
newest (connects ∷ es) n last = newest es (suc n) (some n)
newest (takes ch ∷ es) n last = newest es n last
newest (disconnects ch ∷ es) n last = newest es n (if is_sub last ch then none else last)

step-sub :
    (e : Event) (v : Relay)
    → ((step e v).sub ≡ newest (e ∷ []) v.next v.sub)
      × ((step e v).next ≡ (if is_connect e then suc v.next else v.next))
unfolding step command take_command connect disconnect
step-sub (commands on once) v = ground arith
step-sub connects v = (refl, refl)
step-sub (takes ch) v = ground arith
step-sub (disconnects ch) v = (refl, refl)

run-sub : (es : List Event) (v : Relay) → (run es v).sub ≡ newest es v.next v.sub
unfolding run
run-sub [] v = refl
run-sub (commands on once ∷ es) v =
    let (a, b) = step-sub (commands on once) v in
    run-sub es (step (commands on once) v) ∙ rw (a, b) refl
run-sub (connects ∷ es) v =
    let (a, b) = step-sub connects v in run-sub es (step connects v) ∙ rw (a, b) refl
run-sub (takes ch ∷ es) v =
    let (a, b) = step-sub (takes ch) v in run-sub es (step (takes ch) v) ∙ rw (a, b) refl
run-sub (disconnects ch ∷ es) v =
    let (a, b) = step-sub (disconnects ch) v in
    run-sub es (step (disconnects ch) v) ∙ rw (a, b) refl

-- After any connections, ends of them and commands, in any order: a command of a client is taken exactly
-- if the newest connection of nc-voice has not ended, and it waits, behind what waits already, for
-- that connection alone; if eight wait there, it is dropped.
pub commands_to_newest :
    (es : List Event) (on once : Bool)
    → let v = run es new_relay in
      let (v', taken) = command on once v in
      let last = newest es 0 none in
      (taken ≡ is_some last)
      × ((ch : ℕ)
          → v'.queue ch
            ≡ (if is_sub last ch then offer (command_text on once) (v.queue ch) else v.queue ch))
unfolding command
commands_to_newest es on once =
    let sub : (run es new_relay).sub ≡ newest es 0 none = run-sub es new_relay in
    (ground (arith, sub), λ ch. waits (newest es 0 none) sub ch)
  where
    waits :
        (last : Option ℕ)
        → (run es new_relay).sub ≡ last
        → (ch : ℕ)
        → (command on once (run es new_relay)).0.queue ch ≡ (
            if is_sub last ch
            then offer (command_text on once) ((run es new_relay).queue ch)
            else (run es new_relay).queue ch)
    waits none e ch = rw (e, command) refl
    waits (some c) e ch = rw (e, command) (ground (arith, ==_iff ch c, ==_iff c ch))
