-- ===== src/Probe/Stats.antt =====
-- cmd/nc-probe/main.go, OnTrack: what the probe counts of the packets of a desk's tracks.
use network_computer.Prelude.{
  ℕ, suc, ◌+◌, ◌-◌, ◌%◌, ◌^◌, ◌<◌, ◌≡◌, refl, ap, ◌∙◌, Bool, List, [], ◌∷◌, ◌++◌, Option, none,
  some, arith, length, ltb, lt→ltb, if◌then◌else◌,
}
use network_computer.Prelude.Assoc.{lookup, insert}
use network_computer.Prelude.Bytes.{Bytes}
use network_computer.Prelude.Keys.{nat_eq}
use network_computer.Probe.{is_keyframe}

pub record Packet : Type 0 where
  pub payload : Bytes
  pub marker : Bool
  pub timestamp : ℕ

pub record Stats : Type 0 where
  pub packets : ℕ
  pub bytes : ℕ
  pub frames : ℕ
  pub keyframes : ℕ
  pub audio_packets : ℕ
  pub audio_bytes : ℕ
  pub audio_gaps : List ℕ
  pub audio_ts_delta : List (ℕ × ℕ)

abbrev pub new_stats : Stats
new_stats = record {
  packets = 0;
  bytes = 0;
  frames = 0;
  keyframes = 0;
  audio_packets = 0;
  audio_bytes = 0;
  audio_gaps = [];
  audio_ts_delta = [];
}

abbrev pub one_if : Bool → ℕ
one_if b = if b then 1 else 0

-- A packet of the video track.
unfoldable pub on_video : Packet → Stats → Stats
on_video p st = record st {
  packets = suc st.packets;
  bytes = st.bytes + length p.payload;
  frames = st.frames + one_if p.marker;
  keyframes = st.keyframes + one_if (is_keyframe p.payload);
}

-- The times of the last packet of the sound, when there was one, and its timestamp.
pub record Last : Type 0 where
  pub at : Option ℕ
  pub ts : ℕ

-- `m[k]++`
unfoldable pub count_up : ℕ → List (ℕ × ℕ) → List (ℕ × ℕ)
count_up k m = elim (lookup k m) [ none ↦ insert k 1 m | some n ↦ insert k (suc n) m ]

-- `a - b` of two uint32
unfoldable pub sub32 : ℕ → ℕ → ℕ
sub32 a b = (a + (2 ^ 32 - b)) % 2 ^ 32

-- A packet of the sound, read at a time.
unfoldable pub add_gap : ℕ → Option ℕ → List ℕ → List ℕ
add_gap now none gaps = gaps
add_gap now (some t) gaps = gaps ++ (now - t) ∷ []

unfoldable pub on_audio : ℕ → Packet → Last × Stats → Last × Stats
unfolding count_up sub32 add_gap
on_audio now p (last, st) =
    let deltas =
      if ltb 0 st.audio_packets
      then count_up (sub32 p.timestamp last.ts) st.audio_ts_delta
      else st.audio_ts_delta in
    (
      record { at = some now; ts = p.timestamp },
      record st {
        audio_gaps = add_gap now last.at st.audio_gaps;
        audio_ts_delta = deltas;
        audio_packets = suc st.audio_packets;
        audio_bytes = st.audio_bytes + length p.payload;
      },
    )

unfoldable pub on_audios : List (ℕ × Packet) → Last × Stats → Last × Stats
unfolding on_audio
on_audios [] s = s
on_audios ((now, p) ∷ ps) s = on_audios ps (on_audio now p s)

-- A step of a timestamp that wraps around at 2^32 is counted as the step.
sub32-wrap : (ts step : ℕ) → ts < 2 ^ 32 → step < 2 ^ 32 → sub32 ((ts + step) % 2 ^ 32) ts ≡ step
unfolding sub32
sub32-wrap ts step h k = omega arith

-- Each timestamp is `step` after the one before, and wraps around.
abbrev pub Steady : ℕ → ℕ → List (ℕ × Packet) → Type 0
Steady step ts [] = Unit
Steady step ts ((now, p) ∷ ps) = (p.timestamp ≡ (ts + step) % 2 ^ 32) × Steady step p.timestamp ps

count_once : (k : ℕ) → count_up k [] ≡ (k, 1) ∷ []
unfolding count_up lookup insert
count_once k = refl

count_again : (k n : ℕ) → count_up k ((k, n) ∷ []) ≡ (k, suc n) ∷ []
unfolding count_up lookup insert
count_again k n = ground (arith)

steady_round :
    (step now : ℕ) (p : Packet) (last : Last) (st : Stats)
    → last.ts < 2 ^ 32
    → step < 2 ^ 32
    → 0 < st.audio_packets
    → p.timestamp ≡ (last.ts + step) % 2 ^ 32
    → (on_audio now p (last, st)).1.audio_ts_delta ≡ count_up step st.audio_ts_delta
unfolding on_audio
steady_round step now p last st lt k some_before e =
    ground (arith, sub32-wrap last.ts step lt k, lt→ltb 0 st.audio_packets some_before)

on_audios-Steady :
    (step n : ℕ) (ps : List (ℕ × Packet)) (last : Last) (st : Stats)
    → last.ts < 2 ^ 32
    → step < 2 ^ 32
    → 0 < st.audio_packets
    → Steady step last.ts ps
    → st.audio_ts_delta ≡ (step, n) ∷ []
    → (on_audios ps (last, st)).1.audio_ts_delta ≡ (step, n + length ps) ∷ []
unfolding on_audios on_audio
on_audios-Steady step n [] last st lt k b h e = ground arith
on_audios-Steady step n ((now, p) ∷ ps) last st lt k b (e1, h) e =
    let counted =
      steady_round step now p last st lt k b e1 ∙ ap (count_up step) e ∙ count_again step n in
    let below : p.timestamp < 2 ^ 32 = omega arith in
    on_audios-Steady step (suc n) ps (on_audio now p (last, st)).0 (on_audio now p (last, st)).1
      below k (omega arith) h counted
    ∙ ap (λ x. (step, x) ∷ []) (omega arith)

-- Of two or more packets of a sound whose timestamps go up by one step, and wrap around at 2^32, the
-- probe counts exactly that step, once less than there are packets.
pub new_stats-Steady :
    (step now later : ℕ) (p q : Packet) (ps : List (ℕ × Packet)) (last : Last)
    → p.timestamp < 2 ^ 32
    → step < 2 ^ 32
    → Steady step p.timestamp ((later, q) ∷ ps)
    → (on_audios ((now, p) ∷ (later, q) ∷ ps) (last, new_stats)).1.audio_ts_delta
      ≡ (step, suc (length ps)) ∷ []
unfolding on_audios on_audio
new_stats-Steady step now later p q ps last lt k (e, h) =
    let first = on_audio now p (last, new_stats) in
    let second = on_audio later q first in
    let below : q.timestamp < 2 ^ 32 = omega arith in
    let counted =
      steady_round step later q first.0 first.1 lt k (omega arith) e ∙ count_once step in
    on_audios-Steady step 1 ps second.0 second.1 below k (omega arith) h counted
    ∙ ap (λ x. (step, x) ∷ []) (omega arith)
