-- ===== src/Tests/Devices.antt =====
-- Camera, sound, paste and reports, at concrete inputs.
use network_computer.Prelude.{
  ℕ, ◌≡◌, refl, true, false, not, ◌||◌, List, [], ◌∷◌, ◌++◌, map, some, arith, ◌==◌,
}
use network_computer.Prelude.Bytes.{Bytes, codes}
use network_computer.Host.Voice.{Event, connects, disconnects}
use network_computer.Host.Audio.{pace, new_pace, pace_all, plays}
use network_computer.OggOpus.{duration, frame_us}
use network_computer.Host.Camera.{
  Cam, new_cam, running, context_done, take, set_stage, Steps, here, then_, starts,
}
use network_computer.Host.Camera.Newest.{newest_writes, unsupported_takes, taken_over}
use network_computer.Host.Clipboard.{new_clip_sync, Piece, clip_write, send}
use network_computer.Host.Clipboard.Runes.{IsUtf8, over}
use network_computer.Host.Names.{encode, encode_rune}
use network_computer.Host.Control.{
  Control, Desk, clip, event, on_clip, inject, on_all, nothing_reported,
}
use network_computer.Host.Control.Paste.{paste_before_key}

-- Track 0 runs, and then track 1 as well.
abbrev one_camera : Cam
one_camera = set_stage 0 (running 1) (take new_cam)

abbrev two_cameras : Cam
two_cameras = set_stage 1 (running 2) (take one_camera)

one_started : Steps new_cam one_camera
one_started = then_ here (starts 0 refl)

two_started : Steps new_cam two_cameras
unfolding take
two_started = then_ one_started (starts 1 refl)

newest_writes_example :
    (context_done 0 1 two_cameras ≡ (not (1 == two_cameras.id) || two_cameras.closed 0))
    × (◌≡◌ {A = ℕ} 1 2 → ◌≡◌ {A = ℕ} 0 1)
unfolding take
newest_writes_example = newest_writes two_cameras 0 1 1 2 two_started refl refl

unsupported_takes_example :
    Steps one_camera (taken_over one_camera 0 1)
    × ((v id : ℕ)
        → (taken_over one_camera 0 1).stages v ≡ running id
        → (taken_over one_camera 0 1).cancelled id ≡ true)
unfolding take
unsupported_takes_example = unsupported_takes one_camera 0 1 one_started refl refl

-- Three packets, of 20 ms each; the third comes late and is sent when it is due.
sent_times :
    pace_all ((0, 120 ∷ []) ∷ (55000000, 120 ∷ []) ∷ (60000000, 120 ∷ []) ∷ []) new_pace
    ≡ 40000000 ∷ 60000000 ∷ 80000000 ∷ []
unfolding pace_all pace plays duration frame_us
sent_times = refl

hi-IsUtf8 : IsUtf8 (codes "hi")
unfolding encode encode_rune
hi-IsUtf8 = (codes "hi", (refl, (refl, tt)), refl)

abbrev quiet : Control
quiet = record { clip = new_clip_sync; reported = nothing_reported }

abbrev desk : Desk
desk = record { has_file = true; has_voice = false }

paste_before_key_example :
    (ps : List Piece) × (send (λ _. true) (codes "hi") ≡ some ps)
    × ((on_all {E = ℕ} {D = ℕ}
          (λ e. e)
          desk
          (map clip (map (over (λ t. t)) ps) ++ event 7 ∷ [])
          quiet).1
        ≡ on_clip (clip_write (codes "hi")) ∷ inject 7 ∷ [])
paste_before_key_example =
    paste_before_key (λ e. e) desk (λ t. t) (codes "hi") 7 quiet (λ t u. refl) hi-IsUtf8
      (omega arith) refl

abbrev reports : List (Bytes × Bytes)
reports = (codes "touch", codes "phone") ∷ (codes "pointer", []) ∷ (codes "pen", codes "watch") ∷ []

-- nc-voice connects twice, and the first one ends.
abbrev two_connections : List Event
two_connections = connects ∷ connects ∷ disconnects 0 ∷ []
