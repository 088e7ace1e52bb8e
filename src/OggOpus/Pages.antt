-- ===== src/OggOpus/Pages.antt =====
-- A stream of pages, as an Ogg writer lays packets out, and what the reader makes of it.
use network_computer.Prelude.{
  ℕ, zero, suc, ◌+◌, ◌*◌, ◌/◌, ◌%◌, ◌<◌, ◌≡◌, refl, ap, ◌∙◌, true, List, [], ◌∷◌, ◌++◌, none, some,
  arith, All, length, get_or, take, drop, replicate, append_assoc, append-nil, length-append,
  take-append, drop-append, take-append_le, drop-append_le, take-append-drop, length-drop,
  get_or-append, ltb, lt→ltb, le→leb, if◌then◌else◌, Bool-cases, inl, inr, ◌>>=◌,
}
use network_computer.Prelude.Bytes.{Bytes, bytes_eq, codes}
use network_computer.OggOpus.{
  Reader, new_reader, read_full, total, is_audio, enqueue, lace, read_page,
}

lace-cons :
    (l : ℕ) (segs page pending : Bytes) (queue : List Bytes)
    → lace (l ∷ segs) page pending queue
      ≡ lace segs
          (drop l page)
          (if ltb l 255 then [] else pending ++ take l page)
          (if ltb l 255 then enqueue queue (pending ++ take l page) else queue)
unfolding lace
lace-cons l segs page pending queue = refl

-- Lacing one page after another is lacing both at once.
lace-append :
    (s1 s2 b1 b2 pending : Bytes) (queue : List Bytes)
    → total s1 ≡ length b1
    → lace (s1 ++ s2) (b1 ++ b2) pending queue
      ≡ lace s2 b2 (lace s1 b1 pending queue).0 (lace s1 b1 pending queue).1
unfolding total
lace-append [] s2 [] b2 pending queue h = unfold lace in refl
lace-append [] s2 (b ∷ b1) b2 pending queue h = absurd (omega arith)
lace-append (l ∷ s1) s2 b1 b2 pending queue h =
    rw
      (
        lace-cons l (s1 ++ s2) (b1 ++ b2) pending queue,
        lace-cons l s1 b1 pending queue,
        take-append_le l b1 b2 (omega arith),
        drop-append_le l b1 b2 (omega arith),
      )
      (lace-append s1 s2 (drop l b1) b2 _ _ (omega (arith, length-drop l b1)))

-- The lacing values of a packet: 255 while it goes on, and a last one under 255.
abbrev pub lacing : Bytes → Bytes
lacing p = replicate (length p / 255) 255 ++ (length p % 255) ∷ []

lace_packet :
    (k n : ℕ) (segs packet rest pending : Bytes) (queue : List Bytes)
    → n < 255
    → length packet ≡ k * 255 + n
    → lace (replicate k 255 ++ n ∷ segs) (packet ++ rest) pending queue
      ≡ lace segs rest [] (enqueue queue (pending ++ packet))
lace_packet zero n segs packet rest pending queue lt e =
    let whole : n ≡ length packet = omega arith in
    rw
      (
        lace-cons n segs (packet ++ rest) pending queue,
        whole,
        take-append packet rest,
        drop-append packet rest,
        lt→ltb (length packet) 255 (omega arith),
      )
      refl
lace_packet (suc k) n segs packet rest pending queue lt e =
    rw
      (
        lace-cons 255 (replicate k 255 ++ n ∷ segs) (packet ++ rest) pending queue,
        take-append_le 255 packet rest (omega arith),
        drop-append_le 255 packet rest (omega arith),
      )
      (lace_packet k n segs (drop 255 packet) rest (pending ++ take 255 packet) queue lt
          (omega (arith, length-drop 255 packet))
        ∙ ap (λ p. lace segs rest [] (enqueue queue p)) (regroup pending packet))
  where
    regroup : (s p : Bytes) → (s ++ take 255 p) ++ drop 255 p ≡ s ++ p
    regroup s p = append_assoc s (take 255 p) (drop 255 p) ∙ ap (◌++◌ s) (take-append-drop 255 p)

abbrev pub lacings : List Bytes → Bytes
lacings [] = []
lacings (p ∷ ps) = lacing p ++ lacings ps

abbrev pub joined : List Bytes → Bytes
joined [] = []
joined (p ∷ ps) = p ++ joined ps

-- The packets that are no headers and not empty, in order.
abbrev pub audio_packets : List Bytes → List Bytes
audio_packets [] = []
audio_packets (p ∷ ps) = if is_audio p then p ∷ audio_packets ps else audio_packets ps

enqueue-append :
    (queue : List Bytes) (p : Bytes) (ps : List Bytes)
    → enqueue queue p ++ audio_packets ps ≡ queue ++ audio_packets (p ∷ ps)
unfolding enqueue
enqueue-append queue p ps = elim (Bool-cases (is_audio p)) [
  | inl audio ↦ rw audio (append_assoc queue (p ∷ []) (audio_packets ps))
  | inr other ↦ rw other
]

lace_packets :
    (ps : List Bytes) (queue : List Bytes)
    → lace (lacings ps) (joined ps) [] queue ≡ ([], queue ++ audio_packets ps)
lace_packets [] queue = unfold lace in rw (append-nil queue)
lace_packets (p ∷ ps) queue =
    rw (append_assoc (replicate (length p / 255) 255) ((length p % 255) ∷ []) (lacings ps)) (
      lace_packet (length p / 255) (length p % 255) (lacings ps) p (joined ps) [] queue
        (omega arith) (omega arith)
      ∙ lace_packets ps (enqueue queue p)
      ∙ ap (λ q. ([], q)) (enqueue-append queue p ps))

-- A page: 22 bytes of its header behind the capture pattern, its lacing values and its body.
pub record Page : Type 0 where
  pub header : Bytes
  pub segs : Bytes
  pub body : Bytes

pub record IsPage (p : Page) : Type 0 where
  pub header_length : length p.header ≡ 22
  pub body_length : total p.segs ≡ length p.body

-- The bytes of the pages; a page's number of lacing values is the last byte of its header.
abbrev pub stream : List Page → Bytes
stream [] = []
stream (p ∷ ps) =
    (codes "OggS" ++ (p.header ++ length p.segs ∷ [])) ++ (p.segs ++ (p.body ++ stream ps))

abbrev pub all_segs : List Page → Bytes
all_segs [] = []
all_segs (p ∷ ps) = p.segs ++ all_segs ps

abbrev pub all_bodies : List Page → Bytes
all_bodies [] = []
all_bodies (p ∷ ps) = p.body ++ all_bodies ps

-- Page after page, until reading one fails.
unfoldable pub read_pages : ℕ → Reader → Reader
read_pages zero o = o
read_pages (suc fuel) o = elim (read_page o) [ none ↦ o | some o' ↦ read_pages fuel o' ]

read_full-append : (n : ℕ) (xs ys : Bytes) → n ≡ length xs → read_full n (xs ++ ys) ≡ some (xs, ys)
unfolding read_full
read_full-append n xs ys e =
    rw
      (
        e,
        le→leb (length xs) (length (xs ++ ys)) (omega (arith, length-append xs ys)),
        take-append xs ys,
        drop-append xs ys,
      )
      refl

read_page_parts :
    (o : Reader) (hdr s segs s' page rest : Bytes)
    → read_full 27 o.r ≡ some (hdr, s)
    → bytes_eq (take 4 hdr) (codes "OggS") ≡ true
    → read_full (get_or hdr 26 0) s ≡ some (segs, s')
    → read_full (total segs) s' ≡ some (page, rest)
    → read_page o
      ≡ some (record {
        r = rest;
        pending = (lace segs page o.pending o.queue).0;
        queue = (lace segs page o.pending o.queue).1;
      })
unfolding read_page
read_page_parts o hdr s segs s' page rest h1 h2 h3 h4 =
    rw (h1, read_page, ◌>>=◌) (rw (h2, ◌>>=◌) (rw (h3, ◌>>=◌) (rw (h4, ◌>>=◌) refl)))

abbrev head_bytes : Page → Bytes
head_bytes p = codes "OggS" ++ (p.header ++ length p.segs ∷ [])

head_bytes_parts :
    (p : Page)
    → IsPage p
    → (27 ≡ length (head_bytes p))
      × (bytes_eq (take 4 (head_bytes p)) (codes "OggS") ≡ true)
      × (get_or (head_bytes p) 26 0 ≡ length p.segs)
unfolding bytes_eq
head_bytes_parts p w = (
  omega (arith, length-append p.header (length p.segs ∷ []), w.header_length),
  refl,
  at_22 p.header (length p.segs) w.header_length,
)
  where
    at_22 : (h : Bytes) (n : ℕ) → length h ≡ 22 → get_or (h ++ n ∷ []) 22 0 ≡ n
    at_22 h n e = rw (← e) (get_or-append h n [] 0)

read_page-stream :
    (p : Page) (ps : List Page) (pending : Bytes) (queue : List Bytes)
    → IsPage p
    → read_page (record { r = stream (p ∷ ps); pending = pending; queue = queue })
      ≡ some (record {
        r = stream ps;
        pending = (lace p.segs p.body pending queue).0;
        queue = (lace p.segs p.body pending queue).1;
      })
read_page-stream p ps pending queue w =
    let (size, pattern_, count) = head_bytes_parts p w in
    read_page_parts (record { r = stream (p ∷ ps); pending = pending; queue = queue })
      (head_bytes p) (p.segs ++ (p.body ++ stream ps)) p.segs (p.body ++ stream ps) p.body
      (stream ps) (read_full-append 27 (head_bytes p) _ size) pattern_
      (read_full-append _ p.segs _ count) (read_full-append _ p.body _ w.body_length)

read_pages_step :
    (fuel : ℕ) (o : Reader) {o' : Reader}
    → read_page o ≡ some o'
    → read_pages (suc fuel) o ≡ read_pages fuel o'
unfolding read_pages
read_pages_step fuel o h = rw (h, read_pages)

read_pages-stream :
    (ps : List Page) (pending : Bytes) (queue : List Bytes)
    → All IsPage ps
    → read_pages (length ps) (record { r = stream ps; pending = pending; queue = queue }) ≡ record {
      r = [];
      pending = (lace (all_segs ps) (all_bodies ps) pending queue).0;
      queue = (lace (all_segs ps) (all_bodies ps) pending queue).1;
    }
read_pages-stream [] pending queue w = unfold lace read_pages in refl
read_pages-stream (p ∷ ps) pending queue w =
    read_pages_step (length ps) _ (read_page-stream p ps pending queue w.0)
    ∙ rw (lace-append p.segs (all_segs ps) p.body (all_bodies ps) pending queue w.0.body_length)
        (read_pages-stream ps _ _ w.1)

-- However an Ogg writer cuts the packets into pages, reading the pages gives back the packets, each
-- whole and in order, less the headers and the empty ones, and leaves nothing pending.
pub packets_whole :
    (pages : List Page) (ps : List Bytes)
    → All IsPage pages
    → all_segs pages ≡ lacings ps
    → all_bodies pages ≡ joined ps
    → read_pages (length pages) (new_reader (stream pages))
      ≡ record { r = []; pending = []; queue = audio_packets ps }
packets_whole pages ps w segs bodies =
    read_pages-stream pages [] [] w ∙ rw (segs, bodies) (rw (lace_packets ps []) refl)
