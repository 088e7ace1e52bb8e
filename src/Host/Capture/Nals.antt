-- ===== src/Host/Capture/Nals.antt =====
-- cmd/nc-host/capture.go, nalUnits: the cutting of an Annex B stream into NAL units, out of what the
-- reads give. `none` stands for a slice that is out of bounds. The caller takes every unit, so yield
-- is always true.
pub mod Code
pub mod Rounds
pub mod Split
use network_computer.Prelude.{
  ℕ, zero, suc, ◌+◌, ◌-◌, ◌^◌, Bool, true, false, ◌&&◌, List, [], ◌∷◌, ◌++◌, Option, none, some,
  length, get_or, take, drop, ltb, leb, ◌==◌, if◌then◌else◌,
}
use network_computer.Prelude.Bytes.{Bytes}

abbrev pub is_code : ℕ → ℕ → ℕ → Bool
is_code a b c = a == 0 && (b == 0 && c == 1)

-- bytes.Index with {0, 0, 1}
unfoldable pub index_code : Bytes → Option ℕ
index_code [] = none
index_code (a ∷ []) = none
index_code (a ∷ b ∷ []) = none
index_code (a ∷ b ∷ c ∷ xs) =
    let later = index_code (b ∷ c ∷ xs) in
    if is_code a b c then some 0 else elim later [ none ↦ none | some i ↦ some (suc i) ]

-- `start` is none before the first start code.
pub record Scan : Type 0 where
  pub buf : Bytes
  pub start : Option ℕ

abbrev pub new_scan : Scan
new_scan = record { buf = []; start = none }

abbrev pub from : Option ℕ → ℕ
from none = 0
from (some st) = st

-- `buf[a:b]`
unfoldable pub slice : ℕ → ℕ → Bytes → Option Bytes
slice a b buf = if leb a b && leb b (length buf) then some (take (b - a) (drop a buf)) else none

-- Where a unit ends whose next start code is at `idx`: a code of four bytes has a 0 in front.
abbrev pub unit_end : ℕ → Bytes → ℕ
unit_end zero buf = zero
unit_end (suc i) buf = if get_or buf i 1 == 0 then i else suc i

unfoldable pub found : Option ℕ → ℕ → Bytes → Option (List Bytes)
unfolding slice
found none idx buf = some []
found (some st) idx buf = elim (slice st (unit_end idx buf) buf) [
  | none ↦ none
  | some nal ↦ some (nal ∷ [])
]

-- Consumed bytes are dropped past 1 MB.
unfoldable pub restart_at : ℕ → Bytes → Scan
restart_at st buf =
    if ltb (2 ^ 20) st
    then record { buf = drop st buf; start = some 0 }
    else record { buf = buf; start = some st }

-- The inner loop, a round for each start code.
unfoldable pub scan : ℕ → Scan → Option (Scan × List Bytes)
unfolding index_code found restart_at
scan zero s = none
scan (suc rounds) s = elim (index_code (drop (from s.start) s.buf)) [
  | none ↦ some (s, [])
  | some i ↦
      let idx = i + from s.start in
      let rest = scan rounds (restart_at (idx + 3) s.buf) in
      elim (found s.start idx s.buf) [
        | none ↦ none
        | some nals ↦ elim rest [ none ↦ none | some (s', more) ↦ some (s', nals ++ more) ]
      ]
]

-- The end of the stream.
unfoldable pub last_unit : Scan → List Bytes
last_unit s = elim s.start [
  | none ↦ []
  | some st ↦ (if ltb st (length s.buf) then drop st s.buf ∷ [] else [])
]

abbrev pub append_read : Bytes → Scan → Scan
append_read chunk s = record s { buf = s.buf ++ chunk }

unfoldable pub nal_units : List Bytes → Scan → Option (List Bytes)
unfolding scan last_unit
nal_units [] s = some (last_unit s)
nal_units (chunk ∷ chunks) s =
    elim (scan (suc (length s.buf + length chunk)) (append_read chunk s)) [
      | none ↦ none
      | some (s', nals) ↦ elim (nal_units chunks s') [
        | none ↦ none
        | some more ↦ some (nals ++ more)
      ]
    ]
