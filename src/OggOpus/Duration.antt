-- ===== src/OggOpus/Duration.antt =====
-- Packet durations against the tables of RFC 6716, section 3.1 and 3.2.
use network_computer.Prelude.{
  ℕ, zero, suc, ◌*◌, ◌/◌, ◌%◌, ◌<◌, ◌≡◌, refl, Bool, true, ◌&&◌, List, [], ◌∷◌, arith, get_or, ◌==◌,
  ==_iff, if◌then◌else◌,
}
use network_computer.Prelude.Bytes.{Bytes}
use network_computer.OggOpus.{duration, frame_us}

-- Table 2: the frame sizes of the 32 configurations, in microseconds.
abbrev pub rfc_frames : List ℕ
rfc_frames =
    10000 ∷ 20000 ∷ 40000 ∷ 60000  -- SILK, narrow, medium and wide band
    ∷ 10000 ∷ 20000 ∷ 40000 ∷ 60000 ∷ 10000 ∷ 20000 ∷ 40000 ∷ 60000 ∷ 10000 ∷ 20000  -- hybrid, super-wide and full band
    ∷ 10000 ∷ 20000 ∷ 2500 ∷ 5000 ∷ 10000 ∷ 20000  -- CELT, narrow, wide, super-wide and full band
    ∷ 2500 ∷ 5000 ∷ 10000 ∷ 20000 ∷ 2500 ∷ 5000 ∷ 10000 ∷ 20000 ∷ 2500 ∷ 5000 ∷ 10000 ∷ 20000 ∷ []

-- The number of frames, by the code in the last two bits of the first byte: 1 for code 0, 2 for
-- codes 1 and 2, and what the next byte says for code 3.
abbrev pub rfc_count : ℕ → Bytes → ℕ
rfc_count zero p = 1
rfc_count (suc zero) p = 2
rfc_count (suc (suc zero)) p = 2
rfc_count (suc (suc (suc _))) [] = 0
rfc_count (suc (suc (suc _))) (b ∷ _) = b % 64

all_below : (ℕ → Bool) → ℕ → Bool
all_below f zero = true
all_below f (suc n) = f n && all_below f n

all_below_sound : (f : ℕ → Bool) (n c : ℕ) → all_below f n ≡ true → c < n → f c ≡ true
unfolding all_below
all_below_sound f zero c h lt = absurd (omega arith)
all_below_sound f (suc n) c h lt = ground (arith, all_below_sound f n c)

frame_us_rfc : (c : ℕ) → c < 32 → frame_us c ≡ get_or rfc_frames c 0
unfolding frame_us all_below
frame_us_rfc c lt =
    (==_iff (frame_us c) (get_or rfc_frames c 0)).0
      (all_below_sound (λ k. frame_us k == get_or rfc_frames k 0) 32 c refl lt)

-- The duration of a packet that is not empty is the number of its frames times the frame size of
-- its configuration, as the RFC's tables have them.
pub duration_rfc :
    (toc : ℕ) (p : Bytes)
    → toc < 256
    → duration (toc ∷ p) ≡ rfc_count (toc % 4) p * get_or rfc_frames (toc / 8) 0
unfolding duration
duration_rfc toc p byte = by_code (toc % 4) p (omega arith) (frame_us_rfc (toc / 8) (omega arith))
  where
    by_code :
        (code : ℕ) (p : Bytes)
        → code < 4
        → frame_us (toc / 8) ≡ get_or rfc_frames (toc / 8) 0
        → (if code == 0
            then frame_us (toc / 8)
            else if code == 3
            then elim p [ [] ↦ 0 | b ∷ _ ↦ b % 64 * frame_us (toc / 8) ]
            else 2 * frame_us (toc / 8))
          ≡ rfc_count code p * get_or rfc_frames (toc / 8) 0
    by_code zero p lt e = omega (arith, e)
    by_code (suc zero) p lt e = rw e refl
    by_code (suc (suc zero)) p lt e = rw e refl
    by_code (suc (suc (suc zero))) [] lt e = omega arith
    by_code (suc (suc (suc zero))) (b ∷ p) lt e = rw e refl
    by_code (suc (suc (suc (suc n)))) p lt e = absurd (omega arith)
