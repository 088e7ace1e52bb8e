-- ===== src/Host/Capture/Nals/Split.antt =====
-- However the stream comes, the units are those of the whole stream.
use network_computer.Prelude.{
  All, ℕ, suc, ◌+◌, ◌≡◌, refl, sym, ap, ◌∙◌, false, List, [], ◌∷◌, ◌++◌, Option, none, some, length,
  arith, append_assoc, append-nil, length-append, length-drop, drop-append_le,
}
use network_computer.Prelude.Bytes.{Bytes}
use network_computer.Host.Capture.Nals.{
  index_code, Scan, new_scan, from, scan, last_unit, append_read, nal_units,
}
use network_computer.Host.Capture.Units.{annex_b}
use network_computer.Host.Capture.Nals.Code.{
  IsPlain, units-annex_b, rest_unit, units, units-at_code, is_nil-drop, get_or-append,
}
use network_computer.Host.Capture.Nals.Rounds.{pending, is_started, IsOk, IsScanned, scan-IsScanned}

last_unit_lem :
    (buf : Bytes) (start : Option ℕ)
    → let s : Scan = record { buf = buf; start = start } in
      last_unit s ≡ rest_unit (is_started s) (pending s)
unfolding last_unit
last_unit_lem buf none = refl
last_unit_lem buf (some st) = ground (arith, is_nil-drop st buf)

append_read-IsOk : (chunk : Bytes) (s : Scan) → IsOk s → IsOk (append_read chunk s)
append_read-IsOk chunk s ok = record {
  bound = omega (arith, ok.bound, length-append s.buf chunk);
  after_one = λ j e. get_or-append j s.buf chunk (omega (arith, e, ok.bound)) ∙ ok.after_one j e;
}

abbrev pub stream : List Bytes → Bytes
stream [] = []
stream (chunk ∷ chunks) = chunk ++ stream chunks

-- From wherever the scanning stands.
nal_units-units :
    (chunks : List Bytes) (s : Scan)
    → IsOk s
    → index_code (pending s) ≡ none
    → nal_units chunks s ≡ some (units (is_started s) [] (pending s ++ stream chunks))
unfolding nal_units
nal_units-units [] s ok none_ = ap some (
    last_unit_lem s.buf s.start
    ∙ sym (rw (append-nil (pending s), units-at_code (is_started s) [] (pending s), none_) refl))
nal_units-units (chunk ∷ chunks) s ok none_ =
    let whole : pending (append_read chunk s) ≡ pending s ++ chunk =
      drop-append_le (from s.start) s.buf chunk ok.bound in
    let r : IsScanned (append_read chunk s)
        (scan (suc (length s.buf + length chunk)) (append_read chunk s)) =
      scan-IsScanned (suc (length s.buf + length chunk)) (append_read chunk s)
        (append_read-IsOk chunk s ok)
        (omega (arith, length-drop (from s.start) (s.buf ++ chunk), length-append s.buf chunk)) in
    rw (r.result, nal_units, nal_units-units chunks r.next r.ok r.no_code)
      (ap some (
        sym (r.same (stream chunks))
        ∙ rw (whole, append_assoc (pending s) chunk (stream chunks)) refl))

-- In whatever reads the encoder's stream comes, the scanner slices within bounds and finishes, and it
-- yields exactly the units of the whole stream, as taking it byte after byte gives them.
pub nal_units_any_reads :
    (chunks : List Bytes) → nal_units chunks new_scan ≡ some (units false [] (stream chunks))
unfolding index_code
nal_units_any_reads chunks =
    nal_units-units chunks new_scan
      (record { bound = omega arith; after_one = λ j e. absurd (omega (arith, e)) }) refl

-- A stream of units of at least a byte, each with no start code in it and behind a start code of four
-- bytes, gives exactly the units, in whatever reads it comes.
pub nals_whole :
    (us chunks : List Bytes)
    → All IsPlain us
    → stream chunks ≡ annex_b us
    → nal_units chunks new_scan ≡ some us
nals_whole us chunks plain same =
    nal_units_any_reads chunks
    ∙ ap (λ s. some (units false [] s)) same
    ∙ ap some (units-annex_b us plain)
