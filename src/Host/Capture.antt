-- ===== src/Host/Capture.antt =====
-- cmd/nc-host/capture.go, runOnce: the loop that assembles access units from the NAL units that the
-- encoder's output is cut into. What it does to the hub, the calls of onKeyframe and WriteSample, is
-- the list that each step gives back; durations and statistics are left out.
pub mod Nals
pub mod Units
use network_computer.Prelude.{
  ℕ, ◌/◌, ◌%◌, Bool, true, false, ◌&&◌, ◌||◌, List, [], ◌∷◌, ◌++◌, length, get_or, is_nil, ltb,
  ◌==◌, if◌then◌else◌,
}
use network_computer.Prelude.Bytes.{Bytes}

pub data Call : Type 0 where
  on_keyframe : Call
  write : Bytes → Call

-- `au` and `auHasSlice`
pub record Assembly : Type 0 where
  pub au : Bytes
  pub has_slice : Bool

abbrev pub new_assembly : Assembly
new_assembly = record { au = []; has_slice = false }

-- `nal[0] & 0x1f`
abbrev pub nal_type : Bytes → ℕ
nal_type nal = get_or nal 0 0 % 32

unfoldable pub is_slice : Bytes → Bool
is_slice nal = nal_type nal == 1 || nal_type nal == 5

unfoldable pub is_key : Bytes → Bool
is_key nal = nal_type nal == 5

-- `len(nal) > 1 && nal[1]&0x80 != 0`
unfoldable pub first_mb : Bytes → Bool
first_mb nal = ltb 1 (length nal) && get_or nal 1 0 / 128 % 2 == 1

unfoldable pub flush : Assembly → Assembly × List Call
flush a = if is_nil a.au then (a, []) else (new_assembly, write a.au ∷ [])

-- A new slice after one is held starts a new frame.
abbrev pub starts_frame : Assembly → Bytes → Bool
starts_frame a nal = is_slice nal && (a.has_slice && first_mb nal)

abbrev pub start_code : Bytes → Bytes
start_code nal = 0 ∷ 0 ∷ 0 ∷ 1 ∷ nal

abbrev pub append_nal : Assembly → Bytes → Assembly
append_nal a nal = record { au = a.au ++ start_code nal; has_slice = a.has_slice || is_slice nal }

abbrev pub key_calls : Bytes → List Call
key_calls nal = if is_key nal then on_keyframe ∷ [] else []

-- One round of the loop.
unfoldable pub on_nal : Bytes → Assembly → Assembly × List Call
unfolding flush
on_nal nal a =
    if is_nil nal
    then (a, [])
    else if starts_frame a nal
    then (append_nal (flush a).0 nal, (flush a).1 ++ key_calls nal)
    else (append_nal a nal, key_calls nal)

-- The loop, and the flush behind it.
unfoldable pub assemble : List Bytes → Assembly → List Call
unfolding on_nal flush
assemble [] a = (flush a).1
assemble (nal ∷ nals) a = (on_nal nal a).1 ++ assemble nals (on_nal nal a).0
