-- ===== src/Host/Sending/Receiver.antt =====
-- cmd/nc-probe/main.go, probeRecvFiles: a device that saves the files it is sent. filepath.Base is a
-- parameter, and so is what os.WriteFile gets into a file, whose error the code does not look at.
use network_computer.Prelude.{
  ℕ, not, List, [], ◌∷◌, ◌++◌, length, Option, none, some, is_nil, ◌==◌, if◌then◌else◌,
}
use network_computer.Prelude.Bytes.{Bytes, codes}
use network_computer.Prelude.Decimal.{format_int}
use network_computer.Host.Sending.{Sent, header, piece, end}

pub record Saving : Type 0 where
  pub name : Bytes
  pub size : ℕ
  pub buf : Bytes
  pub saved : List (Bytes × Bytes)
  pub replies : List Bytes

abbrev pub new_saving : Saving
new_saving = record { name = []; size = 0; buf = []; saved = []; replies = [] }

abbrev pub short_answer : ℕ → ℕ → Bytes
short_answer got size = codes "error: got " ++ (format_int got ++ (codes " of " ++ format_int size))

-- The files, when a file has got this, or could not be opened.
abbrev pub stored : Bytes → Option Bytes → List (Bytes × Bytes) → List (Bytes × Bytes)
stored name none files = files
stored name (some bytes) files = (name, bytes) ∷ files

-- filepath.Base, and what os.WriteFile leaves under a name: all the bytes if it succeeds, and some of
-- them or no file if it fails.
module _ (base : Bytes → Bytes) (write_file : Bytes → Bytes → Option Bytes) where
  -- `case m.IsString && name == ""`
  abbrev pub take_header : Bytes → ℕ → Saving → Saving
  take_header name size v = record v { name = base name; size = size }

  unfoldable pub on_saving : Sent → Saving → Saving
  on_saving (header hdr) v = if is_nil v.name then take_header hdr.name hdr.size v else v
  on_saving (piece bytes) v = record v { buf = v.buf ++ bytes }
  on_saving end v =
      if is_nil v.name
      then take_header [] 0 v
      else if not (length v.buf == v.size)
      then record v { replies = v.replies ++ short_answer (length v.buf) v.size ∷ [] }
      else record v {
        saved = stored v.name (write_file v.name v.buf) v.saved;
        replies = v.replies ++ (codes "ok " ++ v.name) ∷ [];
      }

  unfoldable pub save_all : List Sent → Saving → Saving
  unfolding on_saving
  save_all [] v = v
  save_all (m ∷ ms) v = save_all ms (on_saving m v)
