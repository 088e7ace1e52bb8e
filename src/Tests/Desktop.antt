-- ===== src/Tests/Desktop.antt =====
-- The stream of the screen and files for the devices, at concrete inputs.
use network_computer.Prelude.{◌≡◌, refl, List, [], ◌∷◌, some, false, true}
use network_computer.Prelude.Bytes.{Bytes}
use network_computer.Prelude.Bytes.{codes, has_prefix}
use network_computer.Host.Sending.{
  FileHeader, Round, ReadEnd, more, eof, Ending, answered, send_file, send_rounds, wait_room,
  on_answers, last_answer,
}
use network_computer.Host.Sending.Receiver.{new_saving, save_all}
use network_computer.Host.Sending.Delivery.{delivered_saved}
use network_computer.Host.Capture.Nals.{
  new_scan, nal_units, index_code, scan, restart_at, found, slice, last_unit,
}
use network_computer.Host.Capture.Nals.Code.{units}
use network_computer.Host.Capture.Nals.Split.{stream, nal_units_any_reads}

-- Two units, the reads apart in the middle of the second start code.
abbrev reads : List Bytes
reads = (0 ∷ 0 ∷ 0 ∷ 1 ∷ 103 ∷ 7 ∷ 0 ∷ 0 ∷ []) ∷ (0 ∷ 1 ∷ 101 ∷ []) ∷ []

nal_units_any_reads_example : nal_units reads new_scan ≡ some (units false [] (stream reads))
nal_units_any_reads_example = nal_units_any_reads reads

abbrev two_units : List Bytes
two_units = (103 ∷ 7 ∷ []) ∷ (101 ∷ []) ∷ []

two_reads : nal_units reads new_scan ≡ some two_units
unfolding nal_units index_code scan restart_at found slice last_unit
two_reads = refl

abbrev photo : FileHeader
photo = record { name = codes "a.png"; size = 3; print = false }

abbrev round : Bytes → ReadEnd → Round
round bytes read_end = record {
  arrived = [];
  wakes = [];
  bytes = bytes;
  read_end = read_end;
  send_ok = true;
}

abbrev confirmed : Ending
confirmed = record {
  header_ok = true;
  end_ok = true;
  arrived = codes "ok a.png" ∷ [];
  wake = answered;
}

abbrev two_rounds : List Round
two_rounds = round (1 ∷ 2 ∷ []) more ∷ round (3 ∷ []) eof ∷ []

delivered_saved_example :
    let v =
      save_all (λ n. n) (λ n t. some t) (send_file photo [] two_rounds confirmed).0 new_saving in
    (v.saved ≡ (codes "a.png", 1 ∷ 2 ∷ 3 ∷ []) ∷ []) × (v.replies ≡ codes "ok a.png" ∷ [])
unfolding send_file send_rounds wait_room on_answers last_answer has_prefix
delivered_saved_example =
    delivered_saved (λ n. n) (λ n t. some t) photo [] two_rounds confirmed refl refl refl refl
