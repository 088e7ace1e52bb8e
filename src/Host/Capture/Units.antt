-- ===== src/Host/Capture/Units.antt =====
-- What the assembled samples hold.
use network_computer.Prelude.{
  ◌≡◌, refl, Bool, true, false, not, ◌&&◌, ◌||◌, List, [], ◌∷◌, ◌++◌, All, is_nil, if◌then◌else◌,
}
use network_computer.Prelude.Bytes.{Bytes}
use network_computer.Host.Capture.{
  Call, write, Assembly, is_slice, first_mb, start_code, key_calls, assemble,
}

-- The bytes of NAL units, each behind a start code, and the calls for the keyframes among them.
abbrev pub annex_b : List Bytes → Bytes
annex_b [] = []
annex_b (nal ∷ nals) = start_code nal ++ annex_b nals

abbrev pub keys : List Bytes → List Call
keys [] = []
keys (nal ∷ nals) = key_calls nal ++ keys nals

abbrev pub any_slice : List Bytes → Bool
any_slice [] = false
any_slice (nal ∷ nals) = is_slice nal || any_slice nals

-- No slice that starts a picture comes behind another slice; `seen` tells of one in front.
abbrev pub one_picture : Bool → List Bytes → Bool
one_picture seen [] = true
one_picture seen (nal ∷ nals) =
    not (is_slice nal && (seen && first_mb nal)) && one_picture (seen || is_slice nal) nals

-- An access unit as it goes to the hub: its keyframes are announced, then it is written.
abbrev pub unit_calls : List Bytes → List Call
unit_calls nals = keys nals ++ write (annex_b nals) ∷ []

abbrev pub units_calls : List (List Bytes) → List Call
units_calls [] = []
units_calls (u ∷ us) = unit_calls u ++ units_calls us

abbrev pub all_nals : List (List Bytes) → List Bytes
all_nals [] = []
all_nals (u ∷ us) = u ++ all_nals us

abbrev pub nonempty : List Bytes → List Bytes
nonempty [] = []
nonempty (nal ∷ nals) = if is_nil nal then nonempty nals else nal ∷ nonempty nals

abbrev pub IsUnit : List Bytes → Type 0
IsUnit u = (one_picture false u ≡ true) × (is_nil u ≡ false)

-- The unit starts with the slice that starts a picture.
abbrev pub begins_picture : List Bytes → Bool
begins_picture [] = false
begins_picture (nal ∷ nals) = is_slice nal && first_mb nal

-- No picture goes on in a later sample: each one but the first starts with the start of one.
abbrev pub IsCutAtPictures : List (List Bytes) → Type 0
IsCutAtPictures [] = Unit
IsCutAtPictures (u ∷ us) = All (λ v. begins_picture v ≡ true) us

is_nil-snoc : (u : List Bytes) (n : Bytes) → is_nil (u ++ n ∷ []) ≡ false
is_nil-snoc [] n = refl
is_nil-snoc (m ∷ u) n = refl

-- The assembly that holds the NAL units `u`.
abbrev held : List Bytes → Assembly
held u = record { au = annex_b u; has_slice = any_slice u }

abbrev pub CutInto : List Bytes → List Call → List (List Bytes) → Type 0
CutInto nals calls us =
    (all_nals us ≡ nals) × All IsUnit us × IsCutAtPictures us × (calls ≡ units_calls us)

abbrev Assembled : List Bytes → List Bytes → Type 0
Assembled u nals =
    (us : List (List Bytes)) × CutInto (u ++ nonempty nals) (keys u ++ assemble nals (held u)) us
