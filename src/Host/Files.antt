-- ===== src/Host/Files.antt =====
-- cmd/nc-host/files.go, receiveFile: one "file" channel, as a machine over the messages on it. The
-- file system is the arguments: whether opening, writing, closing and renaming fail, how much is
-- free, and the names that safeName and uniquePath give; `disk` is the list of the files that a
-- rename has put in place. The mutex makes each message one step. An error's own words are left out of
-- the answers.
pub mod Transfer
pub mod Whole
use network_computer.Prelude.{
  ℕ, ◌+◌, ◌-◌, ◌*◌, ◌^◌, Bool, true, false, not, ◌&&◌, ◌||◌, List, [], ◌∷◌, ◌++◌, Option, none,
  some, length, is_nil, ltb, leb, ◌==◌, if◌then◌else◌,
}
use network_computer.Prelude.Bytes.{Bytes, bytes_eq, codes}

pub record Header : Type 0 where
  pub name : Bytes
  pub size : ℕ

-- A file that is being received: its header, the bytes that have come, the name that it is to have
-- in the directory, and the temporary file's name and contents.
pub record Incoming : Type 0 where
  pub hdr : Header
  pub got : ℕ
  pub final : Bytes
  pub tmp : Bytes
  pub written : Bytes

pub record Channel : Type 0 where
  pub f : Option Incoming
  pub temps : List Bytes  -- temporary files on disk
  pub disk : List (Bytes × Bytes)  -- files in place, by name
  pub replies : List Bytes

-- A text is the header that it decodes to, if it does and the size is not negative, or "end".
pub data Message : Type 0 where
  piece : Bytes → Message
  end : Message
  header : Option Header → Message

abbrev pub file_reserve : ℕ
file_reserve = 50 * 2 ^ 20

-- What the file system answers at a message.
pub record Disk : Type 0 where
  pub accepts : Bool  -- dir is not ""
  pub safe_name : Bytes → Bytes
  pub free : Option ℕ  -- freeBytes, none on an error
  pub unique : Bytes → Bytes  -- uniquePath, less the directory
  pub open_ok : Bool
  pub write_ok : Bool
  pub close_ok : Bool
  pub rename_ok : Bool

abbrev pub reply : Bytes → Channel → Channel
reply r c = record c { replies = c.replies ++ r ∷ [] }

unfoldable pub remove_temp : Bytes → List Bytes → List Bytes
remove_temp t [] = []
remove_temp t (u ∷ us) = if bytes_eq u t then remove_temp t us else u ∷ remove_temp t us

-- `finish`: the temporary file, if one is open, is closed and removed, and the client answered.
unfoldable pub finish : Bytes → Channel → Channel
finish r c = elim c.f [
  | none ↦ reply r c
  | some i ↦ reply r (record c { f = none; temps = remove_temp i.tmp c.temps })
]

-- `hdr.Size > free-fileReserve`, in int64
unfoldable pub too_big : Option ℕ → ℕ → Bool
too_big none size = false
too_big (some free) size = ltb free (size + file_reserve)

-- `case f == nil && m.IsString`: a header
unfoldable pub on_header : Disk → Option Header → Channel → Channel
unfolding finish too_big
on_header d none c = finish (codes "error: bad header") c
on_header d (some hdr) c =
    let name = d.safe_name hdr.name in
    let final = d.unique name in
    let tmp = codes "." ++ (final ++ codes ".part") in
    if not d.accepts
    then finish (codes "error: this host does not accept files") c
    else if is_nil name
    then finish (codes "error: bad file name") c
    else if too_big d.free hdr.size
    then finish (codes "error: not enough space on the desk") c
    else if d.open_ok
    then record c {
      f = some (record { hdr = hdr; got = 0; final = final; tmp = tmp; written = [] });
      temps = tmp ∷ c.temps;
    }
    else finish (codes "error: open") c

-- `case f != nil && !m.IsString`: a piece
unfoldable pub on_piece : Disk → Bytes → Incoming → Channel → Channel
unfolding finish
on_piece d bytes i c =
    let i' = record i { got = i.got + length bytes; written = i.written ++ bytes } in
    let c' = record c { f = some i' } in
    if ltb i.hdr.size i'.got
    then finish (codes "error: more data than announced") c'
    else if d.write_ok
    then c'
    else finish (codes "error: write") c'

-- `case f != nil && string(m.Data) == "end"`
unfoldable pub on_end : Disk → Incoming → Channel → Channel
unfolding finish
on_end d i c =
    let final = d.unique i.final in
    let closed = record c { f = none; temps = remove_temp i.tmp c.temps } in
    if not (i.got == i.hdr.size)
    then finish (codes "error: got too few bytes") c
    else if d.close_ok && d.rename_ok
    then reply (codes "ok " ++ final) (record closed { disk = (final, i.written) ∷ c.disk })
    else reply (codes "error: close") closed

-- The switch of OnMessage. A text other than "end" while a file is open matches no case.
unfoldable pub on_message : Disk → Option Incoming → Message → Channel → Channel
unfolding on_header on_piece on_end
on_message d none (piece bytes) c = c
on_message d none end c = c
on_message d none (header hdr) c = on_header d hdr c
on_message d (some i) (piece bytes) c = on_piece d bytes i c
on_message d (some i) end c = on_end d i c
on_message d (some i) (header hdr) c = c

unfoldable pub receive : Disk → Message → Channel → Channel
unfolding on_message
receive d m c = on_message d c.f m c

-- OnClose: the client went away, maybe mid-file.
unfoldable pub on_close : Channel → Channel
on_close c = elim c.f [
  | none ↦ c
  | some i ↦ record c { f = none; temps = remove_temp i.tmp c.temps }
]
