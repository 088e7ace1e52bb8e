-- ===== src/OggOpus.antt =====
-- internal/oggopus/oggopus.go: Opus packets out of an Ogg stream. The stream is the bytes that are
-- left to read; io.ReadFull fails when they are too few. An error ends the reading.
pub mod Pages
pub mod Duration
pub mod Reading
use network_computer.Prelude.{
  ℕ, zero, suc, ◌+◌, ◌-◌, ◌*◌, ◌/◌, ◌%◌, Bool, true, false, not, ◌&&◌, List, [], ◌∷◌, ◌++◌, Option,
  none, some, length, get_or, take, drop, is_nil, ltb, leb, ◌==◌, if◌then◌else◌, ◌>>=◌,
}
use network_computer.Prelude.Bytes.{Bytes, bytes_eq, has_prefix, codes}

pub record Reader : Type 0 where
  pub r : Bytes
  pub pending : Bytes
  pub queue : List Bytes

abbrev pub new_reader : Bytes → Reader
new_reader r = record { r = r; pending = []; queue = [] }

-- io.ReadFull of n bytes: those, and what is left.
unfoldable pub read_full : ℕ → Bytes → Option (Bytes × Bytes)
read_full n s = if leb n (length s) then some (take n s, drop n s) else none

unfoldable pub total : Bytes → ℕ
total [] = 0
total (l ∷ segs) = l + total segs

-- Neither a header packet nor empty.
unfoldable pub is_audio : Bytes → Bool
is_audio p =
    not (has_prefix p (codes "OpusHead"))
    && (not (has_prefix p (codes "OpusTags")) && not (is_nil p))

unfoldable pub enqueue : List Bytes → Bytes → List Bytes
enqueue queue p = if is_audio p then queue ++ p ∷ [] else queue

-- The loop over the lacing values: the pending packet and the queue behind it.
unfoldable pub lace : Bytes → Bytes → Bytes → List Bytes → Bytes × List Bytes
lace [] page pending queue = (pending, queue)
lace (l ∷ segs) page pending queue =
    let p = pending ++ take l page in
    lace segs (drop l page) (if ltb l 255 then [] else p)
      (if ltb l 255 then enqueue queue p else queue)

unfoldable pub read_page : Reader → Option Reader
unfolding read_full total lace
read_page o = do
  (hdr, s) ← read_full 27 o.r
  (segs, s') ← if bytes_eq (take 4 hdr) (codes "OggS") then read_full (get_or hdr 26 0) s else none
  (page, rest) ← read_full (total segs) s'
  let (pending, queue) = lace segs page o.pending o.queue
  some (record { r = rest; pending = pending; queue = queue })

-- `Next`: pages are read until a packet is queued. Each page takes 27 bytes or more, so as many
-- rounds as there are bytes are enough.
unfoldable pub next_on : ℕ → Reader → List Bytes → Option (Bytes × Reader)
next_on fuel o (p ∷ queue) = some (p, record o { queue = queue })
next_on zero o [] = none
next_on (suc fuel) o [] = elim (read_page o) [ none ↦ none | some o' ↦ next_on fuel o' o'.queue ]

unfoldable pub next : Reader → Option (Bytes × Reader)
unfolding next_on
next o = next_on (length o.r) o o.queue

-- Duration of a packet in microseconds, from its TOC byte; 0 if it is malformed.
unfoldable pub frame_us : ℕ → ℕ
frame_us cfg =
    if ltb cfg 12
    then get_or (10000 ∷ 20000 ∷ 40000 ∷ 60000 ∷ []) (cfg % 4) 0
    else if ltb cfg 16
    then get_or (10000 ∷ 20000 ∷ []) (cfg % 2) 0
    else get_or (2500 ∷ 5000 ∷ 10000 ∷ 20000 ∷ []) (cfg % 4) 0

unfoldable pub duration : Bytes → ℕ
unfolding frame_us
duration [] = 0
duration (toc ∷ p) =
    let frame = frame_us (toc / 8) in
    if toc % 4 == 0
    then frame
    else if toc % 4 == 3
    then elim p [ [] ↦ 0 | b ∷ _ ↦ b % 64 * frame ]
    else 2 * frame
