-- ===== src/Probe.antt =====
-- cmd/nc-probe/main.go: the client for tests. What it sends of a file and of a text, what it takes of
-- the desk's clipboard, and how it knows a keyframe.
pub mod Keyframe
pub mod Sharing
pub mod Stats
use network_computer.Prelude.{
  ℕ, zero, suc, ◌+◌, ◌-◌, ◌*◌, ◌/◌, ◌%◌, Bool, true, false, ◌&&◌, ◌||◌, not, List, [], ◌∷◌, ◌++◌,
  Option, none, some, length, take, drop, is_nil, ltb, leb, ◌==◌, get_or, if◌then◌else◌,
}
use network_computer.Prelude.Bytes.{Bytes, bytes_eq, codes}
use network_computer.Host.Clipboard.{Piece, back_up}

-- `b & 0x1f`, the type of a NAL unit by its first byte
abbrev pub nal_type : ℕ → ℕ
nal_type b = b % 32

-- The units of a STAP-A packet, from the size of one on, on fuel: a round takes at least two bytes.
unfoldable pub stap_keyframe : ℕ → Bytes → Bool
stap_keyframe zero s = false
stap_keyframe (suc fuel) s =
    let size = get_or s 0 0 * 256 + get_or s 1 0 in
    let rest = stap_keyframe fuel (drop size (drop 2 s)) in
    if not (ltb 2 (length s)) then false else if nal_type (get_or s 2 0) == 5 then true else rest

-- `isKeyframe`, of a packet's payload
unfoldable pub is_keyframe : Bytes → Bool
unfolding stap_keyframe
is_keyframe pl =
    let t = nal_type (get_or pl 0 0) in
    let next = get_or pl 1 0 in
    if ltb (length pl) 2
    then false
    else if t == 5
    then true
    else if t == 24
    then stap_keyframe (length pl) (drop 1 pl)
    else if t == 28
    then leb 128 next && nal_type next == 5
    else false

-- 16 << 10
abbrev pub file_piece : ℕ
file_piece = 16384

-- The pieces of a file, on fuel: a round takes at least one byte.
unfoldable pub file_pieces : ℕ → Bytes → List Bytes
file_pieces zero s = []
file_pieces (suc fuel) s =
    let rest = file_pieces fuel (drop file_piece s) in
    if is_nil s then [] else take file_piece s ∷ rest

-- What -clip asks: the text to send, and the message that comes behind it.
unfoldable pub clip_asked : (Bytes → Bytes) → Bytes → Bytes × Bytes
clip_asked read_file arg =
    if bytes_eq arg (codes "-")
    then ([], codes "clipget")
    else if bytes_eq arg (codes "?")
    then ([], codes "clipnow")
    else if get_or arg 0 0 == b'@'
    then (read_file (drop 1 arg), codes "clipget")
    else (arg, codes "clipget")

-- Where a text is cut, with the loop of the host's clipSync.
unfoldable pub clip_cut : Bytes → ℕ
clip_cut rest = if ltb 8192 (length rest) then back_up 8192 rest else length rest

-- The pieces of a text, on fuel.
unfoldable pub clip_pieces : ℕ → Bytes → Option (List Piece)
unfolding clip_cut
clip_pieces zero rest = none
clip_pieces (suc fuel) rest =
    let n = clip_cut rest in
    let p : Piece = record { text = take n rest; more = ltb n (length rest) } in
    let more = clip_pieces fuel (drop n rest) in
    if is_nil rest then some [] else elim more [ none ↦ none | some ps ↦ some (p ∷ ps) ]

-- OnMessage, of a piece of the host's clipboard: the text so far, and one that is whole.
unfoldable pub on_clip : Piece → Bytes → Bytes × Option Bytes
on_clip p so_far = let t = so_far ++ p.text in if p.more then (t, none) else ([], some t)

-- The texts that are whole, and what is left.
unfoldable pub on_clips : List Piece → Bytes → Bytes × List Bytes
unfolding on_clip
on_clips [] so_far = (so_far, [])
on_clips (p ∷ ps) so_far =
    let (left, whole) = on_clip p so_far in
    let (end, texts) = on_clips ps left in (end, elim whole [ none ↦ texts | some t ↦ t ∷ texts ])
