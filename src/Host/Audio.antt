-- ===== src/Host/Audio.antt =====
-- cmd/nc-host/audio.go, streamAudio: when each Opus packet of the captured sound is sent. A time is that
-- at which the loop has the packet; sleeping takes exactly as long as it is asked for.
use network_computer.Prelude.{
  ℕ, ◌+◌, ◌*◌, ◌-◌, ◌≡◌, ◌≤◌, refl, ap, ◌||◌, List, [], ◌∷◌, Option, none, some, ltb, ◌==◌,
  if◌then◌else◌, arith,
}
use network_computer.Prelude.Bytes.{Bytes}
use network_computer.OggOpus.{duration}

abbrev pub ms : ℕ
ms = 1000000

abbrev pub audio_lead : ℕ
audio_lead = 40 * ms

-- `start` is none before the first packet.
pub record Pace : Type 0 where
  pub start : Option ℕ
  pub sent : ℕ

abbrev pub new_pace : Pace
new_pace = record { start = none; sent = 0 }

-- How long a packet plays, in nanoseconds.
unfoldable pub plays : Bytes → ℕ
plays pkt =
    let d = duration pkt * 1000 in  -- `duration` counts microseconds
    if d == 0 || ltb (120 * ms) d then 20 * ms else d

abbrev pub start_of : ℕ → Pace → ℕ
start_of now p = elim p.start [ none ↦ now + audio_lead | some t ↦ t ]

-- When a packet that plays for `d` and is there at `now` is sent.
unfoldable pub pace : ℕ → ℕ → Pace → ℕ × Pace
pace now d p =
    let start = start_of now p in
    let due = start + p.sent in
    if ltb now due
    then (due, record { start = some start; sent = p.sent + d })
    else if ltb (200 * ms) (now - due)
    then (now, record { start = some (now + audio_lead); sent = d })
    else (now, record { start = some start; sent = p.sent + d })

-- The loop, over the packets and when it has them.
unfoldable pub pace_all : List (ℕ × Bytes) → Pace → List ℕ
unfolding pace plays
pace_all [] p = []
pace_all ((now, pkt) ∷ pkts) p = let (at, p') = pace now (plays pkt) p in at ∷ pace_all pkts p'

-- One packet after the other, each when the one before has been played.
abbrev pub evenly : ℕ → List (ℕ × Bytes) → List ℕ
evenly at [] = []
evenly at ((now, pkt) ∷ pkts) = at ∷ evenly (at + plays pkt) pkts

-- Each packet is there when it is due.
abbrev pub InTime : ℕ → List (ℕ × Bytes) → Type 0
InTime at [] = Unit {0}
InTime at ((now, pkt) ∷ pkts) = (now ≤ at) × InTime (at + plays pkt) pkts

pace_in_time :
    (now d start sent at : ℕ)
    → at ≡ start + sent
    → now ≤ at
    → pace now d (record { start = some start; sent = sent })
      ≡ (at, record { start = some start; sent = sent + d })
unfolding pace
pace_in_time now d start sent at e h = ground (arith, e, h)

pace-new_pace :
    (now d : ℕ)
    → pace now d new_pace ≡ (now + audio_lead, record { start = some (now + audio_lead); sent = d })
unfolding pace
pace-new_pace now d = ground arith

pace_all-evenly :
    (pkts : List (ℕ × Bytes)) (start sent at : ℕ)
    → at ≡ start + sent
    → InTime at pkts
    → pace_all pkts (record { start = some start; sent = sent }) ≡ evenly at pkts
unfolding pace_all
pace_all-evenly [] start sent at e in_time = refl
pace_all-evenly ((now, pkt) ∷ pkts) start sent at e (h, in_time) =
    let rest =
      pace_all-evenly pkts start (sent + plays pkt) (at + plays pkt) (omega (arith, e)) in_time in
    rw (pace_in_time now (plays pkt) start sent at e h) (ap (◌∷◌ at) rest)

-- When the sound starts, and each later packet is there by the time at which it is due, the packets are
-- sent exactly as far apart as they play, from 40 ms after the first came: it may come that much
-- later than at a steady pace.
pub paced_evenly :
    (now : ℕ) (pkt : Bytes) (pkts : List (ℕ × Bytes))
    → InTime (now + audio_lead + plays pkt) pkts
    → pace_all ((now, pkt) ∷ pkts) new_pace ≡ evenly (now + audio_lead) ((now, pkt) ∷ pkts)
unfolding pace_all
paced_evenly now pkt pkts in_time = rw (pace-new_pace now (plays pkt)) (
    ap (◌∷◌ (now + audio_lead)) (
      pace_all-evenly pkts (now + audio_lead) (plays pkt) (now + audio_lead + plays pkt) refl
        in_time))
