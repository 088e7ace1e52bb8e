-- ===== src/Probe/Keyframe.antt =====
-- The probe's test for a keyframe, against the packets that RFC 6184 makes of H.264 units.
use network_computer.Prelude.{
  ℕ, zero, suc, ◌+◌, ◌*◌, ◌/◌, ◌%◌, ◌<◌, ◌≤◌, ◌≡◌, ◌≢◌, refl, ◌∙◌, Bool, true, false, ◌&&◌, ◌||◌,
  List, [], ◌∷◌, ◌++◌, All, arith, length, length-append, drop-append, get_or, leb, ◌==◌,
  if◌then◌else◌,
}
use network_computer.Prelude.Bytes.{Bytes}
use network_computer.Probe.{nal_type, stap_keyframe, is_keyframe}

-- A payload: one unit, several (STAP-A), or a part of one (FU-A) with its start and end bits and type.
pub data Packet : Type 0 where
  single : Bytes → Packet
  stap : ℕ → List Bytes → Packet
  fua : ℕ → Bool → Bool → ℕ → Bytes → Packet

abbrev bit : Bool → ℕ → ℕ
bit b n = if b then n else 0

-- Each unit behind its size in two bytes.
unfoldable frame : List Bytes → Bytes
frame [] = []
frame (n ∷ ns) = length n / 256 ∷ length n % 256 ∷ (n ++ frame ns)

unfoldable pub payload : Packet → Bytes
unfolding frame
payload (single n) = n
payload (stap h ns) = h ∷ frame ns
payload (fua h start end t part) = h ∷ (bit start 128 + bit end 64 + t) ∷ part

-- The unit is an IDR slice.
abbrev idr : Bytes → Bool
idr n = nal_type (get_or n 0 0) == 5

abbrev any_idr : List Bytes → Bool
any_idr [] = false
any_idr (n ∷ ns) = idr n || any_idr ns

-- An IDR slice, or its start, is in the packet.
abbrev pub starts_idr : Packet → Bool
starts_idr (single n) = idr n
starts_idr (stap h ns) = any_idr ns
starts_idr (fua h start end t part) = start && t == 5

abbrev pub IsPacket : Packet → Type 0
IsPacket (single n) = (2 ≤ length n) × (nal_type (get_or n 0 0) < 24)
IsPacket (stap h ns) = (nal_type h ≡ 24) × (ns ≢ []) × All (λ n. (n ≢ []) × (length n < 65536)) ns
IsPacket (fua h start end t part) = (nal_type h ≡ 28) × (t < 32)

stap_round :
    (fuel b : ℕ) (t s : Bytes)
    → length (b ∷ t) < 65536
    → stap_keyframe (suc fuel) (length (b ∷ t) / 256 ∷ length (b ∷ t) % 256 ∷ (b ∷ t ++ s))
      ≡ (if nal_type b == 5 then true else stap_keyframe fuel s)
unfolding stap_keyframe
stap_round fuel b t s h =
    let size : length (b ∷ t) / 256 * 256 + length (b ∷ t) % 256 ≡ length (b ∷ t) = omega arith in
    rw (size, drop-append (b ∷ t) s) (ground arith)

stap_end : (fuel : ℕ) → stap_keyframe (suc fuel) [] ≡ false
unfolding stap_keyframe
stap_end fuel = refl

stap_keyframe-frame :
    (fuel : ℕ) (ns : List Bytes)
    → All (λ n. (n ≢ []) × (length n < 65536)) ns
    → length ns < fuel
    → stap_keyframe fuel (frame ns) ≡ any_idr ns
unfolding frame
stap_keyframe-frame zero ns h lt = absurd (omega arith)
stap_keyframe-frame (suc fuel) [] h lt = stap_end fuel
stap_keyframe-frame (suc fuel) ([] ∷ ns) (h, hs) lt = absurd (h.0 refl)
stap_keyframe-frame (suc fuel) ((b ∷ t) ∷ ns) (h, hs) lt =
    stap_round fuel b t (frame ns) h.1
    ∙ ground (arith, stap_keyframe-frame fuel ns hs (omega arith))

length-frame : (ns : List Bytes) → length ns ≤ length (frame ns)
unfolding frame
length-frame [] = omega arith
length-frame (n ∷ ns) = omega (arith, length-frame ns, length-append n (frame ns))

units_length : (ns : List Bytes) → ns ≢ [] → 1 ≤ length ns
units_length [] n = absurd (n refl)
units_length (n ∷ ns) h = omega arith

part_head :
    (start end : Bool) (t : ℕ)
    → t < 32
    → (leb 128 (bit start 128 + bit end 64 + t) ≡ start)
      × (nal_type (bit start 128 + bit end 64 + t) ≡ t)
part_head true true t h = ground arith
part_head true false t h = ground arith
part_head false true t h = ground arith
part_head false false t h = ground arith

-- Of a packet of the three kinds that carries units of 1 to 65535 bytes, or a part of one, the probe
-- says exactly whether an IDR slice is in it, or starts in it.
pub is_keyframe_lem : (p : Packet) → IsPacket p → is_keyframe (payload p) ≡ starts_idr p
unfolding is_keyframe payload
is_keyframe_lem (single n) (h, t) = ground arith
is_keyframe_lem (stap h ns) (t, n, hs) =
    let some_units = units_length ns n in
    ground (
      arith,
      stap_keyframe-frame (suc (length (frame ns))) ns hs (omega (arith, length-frame ns)),
      length-frame ns,
    )
is_keyframe_lem (fua h start end t part) (k, lt) = ground (arith, part_head start end t lt)
