-- ===== src/Host/Control/Reports.antt =====
-- What the input file says after the clients' reports.
use network_computer.Prelude.{
  ◌≡◌, refl, Bool, true, false, ◌&&◌, List, [], ◌∷◌, Option, none, some, is_nil, if◌then◌else◌,
  arith,
}
use network_computer.Prelude.Bytes.{Bytes, bytes_eq}
use network_computer.Host.Control.{
  nothing_reported, Reported, is_kind, is_device, report_lines, reported, Desk, write_input,
}

-- The last of the texts that passes the test, or else the first one.
abbrev pub last_valid : (Bytes → Bool) → Bytes → List Bytes → Bytes
last_valid ok x [] = x
last_valid ok x (y ∷ ys) = last_valid ok (if ok y then y else x) ys

abbrev pub kinds : List (Bytes × Bytes) → List Bytes
kinds [] = []
kinds ((kind, device) ∷ rs) = kind ∷ kinds rs

abbrev pub devices : List (Bytes × Bytes) → List Bytes
devices [] = []
devices ((kind, device) ∷ rs) = device ∷ devices rs

-- Any reports, of any clients, with what the file holds.
unfoldable pub report_all :
    Desk → List (Bytes × Bytes) → Reported × Option Bytes → Reported × Option Bytes
unfolding write_input
report_all desk [] s = s
report_all desk ((kind, device) ∷ rs) (r, file) =
    let (r', text) = write_input desk kind device r in
    report_all desk rs (r', elim text [ none ↦ file | some t ↦ some t ])

-- A file that says what is kept; with nothing to say there is none.
abbrev pub contents : Reported → Option Bytes
contents r = if is_nil (report_lines r) then none else some (report_lines r)

is_kind-filled : (k : Bytes) → is_kind k ≡ true → is_nil k ≡ false
unfolding bytes_eq
is_kind-filled [] e = absurd (ground (arith, e))
is_kind-filled (x ∷ k) e = refl

is_device-filled : (d : Bytes) → is_device d ≡ true → is_nil d ≡ false
unfolding bytes_eq
is_device-filled [] e = absurd (ground (arith, e))
is_device-filled (x ∷ d) e = refl

-- Whether there is anything to say.
is_nil-report_lines : (r : Reported) → is_nil (report_lines r) ≡ (is_nil r.kind && is_nil r.device)
unfolding report_lines
is_nil-report_lines r = ground arith

write_input-contents :
    (desk : Desk) (kind device : Bytes) (r : Reported)
    → desk.has_file ≡ true
    → let (r', text) = write_input desk kind device r in
      (r' ≡ reported kind device r)
      × (elim text [ none ↦ contents r | some t ↦ some t ] ≡ contents (reported kind device r))
unfolding write_input reported
write_input-contents desk kind device r on = ground (
  arith,
  on,
  is_kind-filled kind,
  is_device-filled device,
  is_nil-report_lines r,
  is_nil-report_lines (reported kind device r),
)

report_all-contents :
    (desk : Desk) (rs : List (Bytes × Bytes)) (r : Reported)
    → desk.has_file ≡ true
    → report_all desk rs (r, contents r) ≡ (
        let last : Reported = record {
          kind = last_valid is_kind r.kind (kinds rs);
          device = last_valid is_device r.device (devices rs);
        } in
        (last, contents last))
unfolding report_all reported
report_all-contents desk [] r on = refl
report_all-contents desk ((kind, device) ∷ rs) r on =
    let (kept, file) = write_input-contents desk kind device r on in
    rw (kept, file) (report_all-contents desk rs (reported kind device r) on)

-- The last report wins: after any reports of any clients, the file says the last kind and the last device
-- that were reported and are known, each on its line, whatever else was reported behind them; it is
-- not there before one is.
pub last_report :
    (desk : Desk) (rs : List (Bytes × Bytes))
    → desk.has_file ≡ true
    → report_all desk rs (nothing_reported, none) ≡ (
        let last : Reported = record {
          kind = last_valid is_kind [] (kinds rs);
          device = last_valid is_device [] (devices rs);
        } in
        (last, contents last))
unfolding report_lines
last_report desk rs on = report_all-contents desk rs nothing_reported on
