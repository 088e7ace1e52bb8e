-- ===== src/Host/Files/Whole.antt =====
-- One whole transfer: a header, the pieces, "end".
use network_computer.Prelude.{
  suc, ◌+◌, ◌≤◌, ◌≡◌, ◌≢◌, refl, ap, ◌∙◌, true, false, List, [], ◌∷◌, ◌++◌, Option, none, some,
  arith, All, length, length-append, append_assoc, append-nil,
}
use network_computer.Prelude.Bytes.{Bytes, codes}
use network_computer.Host.Files.{
  Header, Incoming, Channel, piece, end, header, Disk, too_big, on_header, on_piece, on_end,
  on_message, receive,
}
use network_computer.Host.Files.Transfer.{
  receive_eq, answers, header-answers, piece-answers, end-answers,
}

unfoldable pub receive_pieces : List (Disk × Bytes) → Channel → Channel
receive_pieces [] c = c
receive_pieces ((d, bytes) ∷ ps) c = receive_pieces ps (receive d (piece bytes) c)

unfoldable pub transfer : Disk → Option Header → List (Disk × Bytes) → Disk → Channel → Channel
unfolding receive_pieces
transfer d o ps d' c = receive d' end (receive_pieces ps (receive d (header o) c))

receive_pieces-answers :
    (ps : List (Disk × Bytes)) (c : Channel) → answers (receive_pieces ps c) ≡ answers c
unfolding receive_pieces
receive_pieces-answers [] c = refl
receive_pieces-answers ((d, bytes) ∷ ps) c =
    receive_pieces-answers ps (receive d (piece bytes) c) ∙ piece-answers d bytes c

-- A client that sends a header, any pieces and "end" gets exactly one answer, however the disk
-- behaves and whatever the header says, and the channel is free for the next file.
pub one_answer :
    (d d' : Disk) (o : Option Header) (ps : List (Disk × Bytes)) (c : Channel)
    → c.f ≡ none
    → ((transfer d o ps d' c).f ≡ none)
      × (length (transfer d o ps d' c).replies ≡ suc (length c.replies))
unfolding transfer
one_answer d d' o ps c e =
    let started = receive d (header o) c in
    let (answered, idle) = end-answers d' (receive_pieces ps started) in
    (
      idle,
      answered
          ∙ receive_pieces-answers ps started
          ∙ rw (receive_eq d (header o) c e) (unfold on_message in header-answers d o c e),
    )

-- The bytes of the pieces.
abbrev pub contents : List (Disk × Bytes) → Bytes
contents [] = []
contents ((d, bytes) ∷ ps) = bytes ++ contents ps

abbrev pub Writes : Disk × Bytes → Type 0
Writes (d, bytes) = d.write_ok ≡ true

on_piece_ok :
    (d : Disk) (bytes : Bytes) (i : Incoming) (c : Channel)
    → d.write_ok ≡ true
    → i.got + length bytes ≤ i.hdr.size
    → on_piece d bytes i c ≡ record c {
      f = some (record i { got = i.got + length bytes; written = i.written ++ bytes });
    }
unfolding on_piece
on_piece_ok d bytes i c w h = ground arith

receive_pieces_ok :
    (ps : List (Disk × Bytes)) (i : Incoming) (c : Channel)
    → c.f ≡ some i
    → All Writes ps
    → i.got + length (contents ps) ≤ i.hdr.size
    → receive_pieces ps c ≡ record c {
      f =
          some
            (record i { got = i.got + length (contents ps); written = i.written ++ contents ps });
    }
unfolding receive_pieces on_message
receive_pieces_ok [] i c e w h = ground (arith, append-nil i.written)
receive_pieces_ok ((d, bytes) ∷ ps) i c e w h =
    let i' = record i { got = i.got + length bytes; written = i.written ++ bytes } in
    let sum = length-append bytes (contents ps) in
    ap (receive_pieces ps)
      (receive_eq d (piece bytes) c e ∙ on_piece_ok d bytes i c w.0 (omega (arith, sum)))
    ∙ receive_pieces_ok ps i' (record c { f = some i' }) refl w.1 (omega (arith, sum))
    ∙ ground (arith, sum, append_assoc i.written bytes (contents ps))

-- What the desk must allow for a file to be taken.
pub record Takes (d : Disk) (hdr : Header) : Type 0 where
  pub accepted : d.accepts ≡ true
  pub named : d.safe_name hdr.name ≢ []
  pub fits : too_big d.free hdr.size ≡ false
  pub opened : d.open_ok ≡ true

abbrev begun : Disk → Header → Incoming
begun d hdr = record {
  hdr = hdr;
  got = 0;
  final = d.unique (d.safe_name hdr.name);
  tmp = codes "." ++ (d.unique (d.safe_name hdr.name) ++ codes ".part");
  written = [];
}

on_header_ok :
    (d : Disk) (hdr : Header) (c : Channel)
    → Takes d hdr
    → on_header d (some hdr) c
      ≡ record c { f = some (begun d hdr); temps = (begun d hdr).tmp ∷ c.temps }
unfolding on_header
on_header_ok d hdr c takes = ground arith

on_end_ok :
    (d : Disk) (i : Incoming) (c : Channel)
    → i.got ≡ i.hdr.size
    → d.close_ok ≡ true
    → d.rename_ok ≡ true
    → ((on_end d i c).disk ≡ (d.unique i.final, i.written) ∷ c.disk)
      × ((on_end d i c).replies ≡ c.replies ++ (codes "ok " ++ d.unique i.final) ∷ [])
unfolding on_end
on_end_ok d i c full closes renames = ground arith

-- A file that the desk takes, sent in any pieces that add up to the announced size, is put in place
-- with exactly the bytes of its pieces in order, under the name that is free at the end, and the
-- answer is "ok" and that name.
pub whole_file :
    (d d' : Disk) (hdr : Header) (ps : List (Disk × Bytes)) (c : Channel)
    → c.f ≡ none
    → Takes d hdr
    → All Writes ps
    → length (contents ps) ≡ hdr.size
    → d'.close_ok ≡ true
    → d'.rename_ok ≡ true
    → let final = d'.unique (d.unique (d.safe_name hdr.name)) in
      let c' = transfer d (some hdr) ps d' c in
      (c'.disk ≡ (final, contents ps) ∷ c.disk)
      × (c'.replies ≡ c.replies ++ (codes "ok " ++ final) ∷ [])
unfolding transfer on_message
whole_file d d' hdr ps c e takes w size closes renames =
    let opened = record c { f = some (begun d hdr); temps = (begun d hdr).tmp ∷ c.temps } in
    let j = record (begun d hdr) { got = 0 + length (contents ps); written = contents ps } in
    let c' = record opened { f = some j } in
    rw
      (
        receive_eq d (header (some hdr)) c e ∙ on_header_ok d hdr c takes,
        receive_pieces_ok ps (begun d hdr) opened refl w (omega (arith, size)),
        receive_eq d' end c' refl,
      )
      (on_end_ok d' j c' (omega (arith, size)) closes renames)
