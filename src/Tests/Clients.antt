-- ===== src/Tests/Clients.antt =====
-- The words that a client sends to a desk, pairings over restarts, and the probe, at concrete inputs.
use network_computer.Host.Keyboard.{layout_re, tz_re, set_keyboard, set_timezone, has_suffix}
use network_computer.Host.Keyboard
use network_computer.Host.Keyboard.Words.{IsWord, client_words}
use network_computer.Host.Pairing
use network_computer.Host.Pairing.Key
use network_computer.Host.Pairing.Key.{paired_over_restarts}
use network_computer.Prelude.{
  ℕ, ◌≡◌, ◌↔◌, refl, true, false, List, [], ◌∷◌, ◌++◌, none, some, arith, replicate, subst, length,
  All,
}
use network_computer.Prelude.Base64.{IsByte}
use network_computer.Prelude.Bytes.{Bytes, bytes_key, codes}
use network_computer.Prelude.Hex.{encode}
use network_computer.Prelude.Regexp.{match_string}
use network_computer.Prelude.Regexp.Language.{Matches}
use network_computer.Probe.{is_keyframe}
use network_computer.Probe.Keyframe.{Packet, stap, payload, is_keyframe_lem}
use network_computer.Probe.Stats
use network_computer.Probe.Stats.{new_stats-Steady}

abbrev sound_desk : Keyboard.Desk
sound_desk = record { linux = true; stat = λ p. true; localtime = []; set_ok = true; hook = [] }

client_words_example :
    ((set_keyboard sound_desk (codes "de:nodeadkeys")
        ≡ (codes "nc-keyboard" ∷ codes "de:nodeadkeys" ∷ []) ∷ [])
      ↔ ((true ≡ true) × Matches layout_re (codes "de:nodeadkeys")))
    × (((more : List (List Bytes)) × (set_timezone sound_desk (codes "de:nodeadkeys")
            ≡ (codes "timedatectl" ∷ codes "set-timezone" ∷ codes "de:nodeadkeys" ∷ []) ∷ more))
        ↔ ((true ≡ true)
            × Matches tz_re (codes "de:nodeadkeys")
            × (true ≡ true)
            × (has_suffix [] (codes "/de:nodeadkeys") ≡ false)))
    × (Matches layout_re (codes "de:nodeadkeys") → IsWord (codes "de:nodeadkeys"))
    × (Matches tz_re (codes "de:nodeadkeys") → IsWord (codes "de:nodeadkeys"))
client_words_example = client_words sound_desk (codes "de:nodeadkeys")

nodeadkeys : match_string layout_re (codes "de:nodeadkeys") ≡ true
unfolding match_string
nodeadkeys = refl

los_angeles : match_string tz_re (codes "America/Los_Angeles") ≡ true
unfolding match_string
los_angeles = refl

parent : match_string tz_re (codes "a/../b") ≡ false
unfolding match_string
parent = refl

abbrev key_start : Key.Start
key_start = record {
  reset = false;
  random = some (replicate 32 7);
  mkdir = true;
  write = true;
  left = none;
}

abbrev new_key : Bytes
new_key = encode (replicate 32 7) ++ 10 ∷ []

abbrev new_pairing : Pairing.Pairing
new_pairing = record { host = codes "pc"; secret = replicate 32 7 }

abbrev sevens : Bytes
sevens = replicate 32 7

seven_bytes : (length sevens ≡ 32) × All IsByte sevens
seven_bytes = (refl, omega arith)

drawn : Key.Draws key_start
drawn sec h = let e : sevens ≡ sec = cc in subst (λ s. (length s ≡ 32) × All IsByte s) e seven_bytes

paired_over_restarts_example :
    (Key.load_pairing key_start (codes "pc") (some new_key) ≡ (some new_key, some new_pairing))
    × (Pairing.valid (λ s t. s ++ t) new_pairing 5 (Pairing.mint (λ s t. s ++ t) new_pairing 0)
        ≡ true)
unfolding Key.load_pairing
paired_over_restarts_example =
    paired_over_restarts (λ s t. s ++ t) key_start key_start (codes "pc") none (some new_key)
      new_pairing 0 5 drawn refl refl (omega arith) (omega arith) (omega arith)

abbrev idr_packet : Packet
idr_packet = stap 24 ((6 ∷ 1 ∷ []) ∷ (101 ∷ 2 ∷ 3 ∷ []) ∷ [])

is_keyframe_lem_example : is_keyframe (payload idr_packet) ≡ true
is_keyframe_lem_example =
    is_keyframe_lem idr_packet
      (refl, (λ e. cc), (((λ e. cc), omega arith), (((λ e. cc), omega arith), tt)))

abbrev sound_at : ℕ → Stats.Packet
sound_at t = record { payload = []; marker = false; timestamp = t }

wrapping_sound :
    (Stats.on_audios
      ((0, sound_at 4294967000) ∷ (20, sound_at 664) ∷ (40, sound_at 1624) ∷ [])
      (record { at = none; ts = 0 }, Stats.new_stats)).1.audio_ts_delta
    ≡ (960, 2) ∷ []
wrapping_sound =
    new_stats-Steady 960 0 20 (sound_at 4294967000) (sound_at 664) ((40, sound_at 1624) ∷ [])
      (record { at = none; ts = 0 }) (omega arith) (omega arith) (refl, (refl, tt))
