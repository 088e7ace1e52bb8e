-- ===== src/Host/Clipboard.antt =====
-- cmd/nc-host/clipboard.go: text between the desk's clipboard and a client. Reading the desk's
-- clipboard gives the text, or `none` on an error, as an argument; what an operation writes to the
-- desk and sends to the client is the list that it gives back. Times are nanoseconds.
pub mod Pieces
pub mod Runes
pub mod Sync
use network_computer.Prelude.{
  ℕ, zero, suc, ◌+◌, ◌*◌, ◌^◌, Bool, true, false, not, ◌&&◌, ◌||◌, List, [], ◌∷◌, ◌++◌, Option,
  none, some, length, get_or, take, drop, is_nil, ltb, leb, if◌then◌else◌, ◌>>=◌,
}
use network_computer.Prelude.Bytes.{Bytes, bytes_eq}

abbrev pub clip_piece : ℕ
clip_piece = 8 * 2 ^ 10

abbrev pub clip_max : ℕ
clip_max = 4 * 2 ^ 20

abbrev pub clip_wait : ℕ
clip_wait = 1000000000

-- {"t":"clip","text":...,"more":...}
pub record Piece : Type 0 where
  pub text : Bytes
  pub more : Bool

-- `input` is the builder `in`; `poke` tells whether its channel holds a token; `wait_until` is none
-- for the zero time.
pub record ClipSync : Type 0 where
  pub last : Bytes
  pub known : Bool
  pub input : Bytes
  pub poke : Bool
  pub wait_until : Option ℕ

abbrev pub new_clip_sync : ClipSync
new_clip_sync = record { last = []; known = false; input = []; poke = false; wait_until = none }

pub data Effect : Type 0 where
  clip_write : Bytes → Effect
  send_text : Bytes → Effect
  send_clipnone : Effect

unfoldable pub receive_piece : Piece → ClipSync → ClipSync × List Effect
receive_piece ev c =
    let text = c.input ++ ev.text in
    if ltb clip_max (length c.input + length ev.text)
    then (record c { input = [] }, [])
    else if ev.more
    then (record c { input = text }, [])
    else (record c { input = []; last = text; known = true }, clip_write text ∷ [])

-- `get`: a token, unless the channel is full.
unfoldable pub get : ClipSync → ClipSync
get c = record c { poke = true }

unfoldable pub now : Option Bytes → ClipSync → ClipSync × List Effect
now none c = (c, send_clipnone ∷ [])
now (some t) c =
    if is_nil t || ltb clip_max (length t)
    then (c, send_clipnone ∷ [])
    else (record c { last = t }, send_text t ∷ [])

-- `run`: the first look, before its loop.
unfoldable pub first_look : Option Bytes → ClipSync → ClipSync
first_look none c = c
first_look (some t) c = if c.known then c else record c { last = t; known = true }

-- `case <-c.poke`
unfoldable pub poked : ℕ → ClipSync → ClipSync
poked at c = record c { poke = false; wait_until = some (at + clip_wait) }

unfoldable pub changed : Option Bytes → ClipSync → Bool
changed none c = false
changed (some t) c = not (is_nil t) && (not (bytes_eq t c.last) && leb (length t) clip_max)

-- `case !waitUntil.IsZero() && time.Now().After(waitUntil)`
unfoldable pub give_up : ℕ → ClipSync → ClipSync × List Effect
give_up at c = elim c.wait_until [
  | none ↦ (c, [])
  | some t ↦ if ltb t at then (record c { wait_until = none }, send_clipnone ∷ []) else (c, [])
]

-- `case <-time.After(every)`: a look at the desk's clipboard.
unfoldable pub look : ℕ → Option Bytes → ClipSync → ClipSync × List Effect
unfolding changed give_up
look at none c = give_up at c
look at (some t) c =
    if changed (some t) c
    then (record c { last = t; wait_until = none }, send_text t ∷ [])
    else give_up at c

-- utf8.RuneStart
abbrev pub rune_start : ℕ → Bool
rune_start b = ltb b 128 || leb 192 b

-- `for n > 0 && !utf8.RuneStart(text[n]) { n-- }`
unfoldable pub back_up : ℕ → Bytes → ℕ
back_up zero text = zero
back_up (suc n) text =
    let rest = back_up n text in if rune_start (get_or text (suc n) 0) then suc n else rest

unfoldable pub cut : Bytes → ℕ
cut text = if ltb clip_piece (length text) then back_up clip_piece text else length text

-- `send`, on fuel: the pieces that went out. `up i` tells whether sending the i-th one succeeds.
unfoldable pub send_on : ℕ → (ℕ → Bool) → ℕ → Bytes → Option (List Piece)
unfolding cut
send_on zero up i text = none
send_on (suc fuel) up i text =
    let n = cut text in
    let p : Piece = record { text = take n text; more = ltb n (length text) } in
    let rest = send_on fuel up (suc i) (drop n text) in
    if not (up i)
    then some []
    else if is_nil (drop n text)
    then some (p ∷ [])
    else do ps ← rest; some (p ∷ ps)

-- A round for each byte, and one more for the empty text.
unfoldable pub send : (ℕ → Bool) → Bytes → Option (List Piece)
unfolding send_on
send up text = send_on (suc (length text)) up 0 text
