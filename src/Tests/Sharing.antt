-- ===== src/Tests/Sharing.antt =====
-- The clipboard, the capture loop and the injector, at concrete inputs.
use network_computer.Probe.{clip_pieces, on_clips}
use network_computer.Probe.Sharing.{clipboards_shared}
use network_computer.Prelude.{
  ℕ, zero, suc, ◌<◌, ◌≡◌, refl, true, false, List, [], ◌∷◌, some, arith, get_or, map,
}
use network_computer.Prelude.Bytes.{Bytes, codes}
use network_computer.Host.Clipboard.{new_clip_sync, Piece, clip_write, send, rune_start}
use network_computer.Host.Clipboard.Pieces.{receive_clip}
use network_computer.Host.Clipboard.Runes.{IsUtf8, over}
use network_computer.Host.Names.{encode, encode_rune}
use network_computer.Host.Display.{DisplayReq}
use network_computer.Host.Capture.{
  assemble, new_assembly, on_nal, flush, is_slice, is_key, first_mb, on_keyframe, write,
}
use network_computer.Input.Linux.{Event, key, button, release_all, new_linux, kbd}
use network_computer.Input.Windows
use network_computer.Input.Linux.Release.{run, feed, release_all_frees}

hello-IsUtf8 : IsUtf8 (codes "hello")
unfolding encode encode_rune
hello-IsUtf8 = (codes "hello", (refl, (refl, (refl, (refl, (refl, tt))))), refl)

clipboards_shared_example :
    (ps : List Piece) × (clip_pieces 7 (codes "hello") ≡ some ps)
    × (receive_clip (map (over (λ t. t)) ps) new_clip_sync ≡ (
      record new_clip_sync { input = []; last = codes "hello"; known = true },
      clip_write (codes "hello") ∷ [],
    ))
    × (send (λ _. true) (codes "hello") ≡ some ps)
    × (on_clips (map (over (λ t. t)) ps) [] ≡ ([], codes "hello" ∷ []))
clipboards_shared_example =
    clipboards_shared (λ t. t) (codes "hello") new_clip_sync (λ t u. refl) hello-IsUtf8 refl
      (omega arith) refl

abbrev hello_piece : Piece
hello_piece = record { text = codes "hello"; more = false }

-- A text of continuation bytes.
unfoldable long_text : ℕ → Bytes
long_text zero = []
long_text (suc n) = 128 ∷ long_text n

long_text-continues : (n j : ℕ) → 0 < j → j < n → rune_start (get_or (long_text n) j 0) ≡ false
unfolding long_text
long_text-continues zero j pos_ h = absurd (omega arith)
long_text-continues (suc n) zero pos_ h = absurd (omega arith)
long_text-continues (suc n) (suc zero) pos_ h = second n (omega arith)
  where
    second : (n : ℕ) → 0 < n → rune_start (get_or (long_text n) 0 0) ≡ false
    second zero h = absurd (omega arith)
    second (suc n) h = refl
long_text-continues (suc n) (suc (suc j)) pos_ h =
    long_text-continues n (suc j) (omega arith) (omega arith)

abbrev too_much : Piece
too_much = record { text = long_text 4194305; more = true }

abbrev presses : List Event
presses = key true (codes "KeyA") ∷ button true 2 ∷ key true (codes "ShiftLeft") ∷ []

release_all_frees_example :
    (feed
        (release_all (run new_linux (λ _ _. false) presses).0).1
        (run new_linux (λ _ _. false) presses).1
        kbd
        30
      ≡ false)
    × ((release_all (run new_linux (λ _ _. false) presses).0).0 ≡ new_linux)
release_all_frees_example = release_all_frees presses kbd 30

-- A parameter set, a keyframe slice, a slice of the next picture.
abbrev nals : List Bytes
nals = (7 ∷ 1 ∷ []) ∷ (5 ∷ 128 ∷ []) ∷ [] ∷ (1 ∷ 128 ∷ []) ∷ []

nals-calls :
    assemble nals new_assembly
    ≡ on_keyframe
      ∷ write (0 ∷ 0 ∷ 0 ∷ 1 ∷ 7 ∷ 1 ∷ 0 ∷ 0 ∷ 0 ∷ 1 ∷ 5 ∷ 128 ∷ [])
      ∷ write (0 ∷ 0 ∷ 0 ∷ 1 ∷ 1 ∷ 128 ∷ [])
      ∷ []
unfolding assemble on_nal flush is_slice is_key first_mb
nals-calls = refl

abbrev win_presses : List Windows.Event
win_presses = Windows.key true (codes "KeyA") ∷ Windows.button true 2 ∷ []

abbrev steps : ℕ → ℕ
steps s = s

abbrev wide : DisplayReq ℕ
wide = record { w = 1920; h = 1080; s = 20 }

abbrev narrow : DisplayReq ℕ
narrow = record { w = 1280; h = 720; s = 20 }
