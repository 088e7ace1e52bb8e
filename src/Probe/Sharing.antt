-- ===== src/Probe/Sharing.antt =====
-- What the probe and the desk get of each other's files and clipboards.
use network_computer.Prelude.{
  ℕ, zero, suc, ◌≤◌, ◌≡◌, refl, sym, ap, subst, ◌∙◌, true, false, List, [], ◌∷◌, ◌++◌, none, some,
  All, arith, length, map, length-drop, take, drop, take-append-drop, is_nil, append_assoc,
  append-nil, Bool-cases, inl, inr,
}
use network_computer.Prelude.Bytes.{Bytes, codes}
use network_computer.Host.Clipboard.{Piece, ClipSync, clip_max, clip_write, cut, send_on, send}
use network_computer.Host.Clipboard.Pieces.{
  receive_clip, joined_text, marked, clipboard_roundtrip, send_on-Sends,
}
use network_computer.Host.Clipboard.Runes.{
  IsUtf8, IsJson, over, utf8-IsRunes, send_on-over, piece_at, send_last, send_next, some_more,
}
use network_computer.Host.Files.{Channel, Disk}
use network_computer.Host.Files.Whole.{transfer, contents, Writes, Takes, whole_file}
use network_computer.Probe.{file_piece, file_pieces, clip_cut, clip_pieces, on_clip, on_clips}

-- The pieces at a desk that answers each alike.
abbrev pub at_desk : Disk → List Bytes → List (Disk × Bytes)
at_desk d [] = []
at_desk d (s ∷ ps) = (d, s) ∷ at_desk d ps

nil_length : (s : Bytes) → length s ≤ 0 → s ≡ []
nil_length [] h = refl
nil_length (c ∷ s) h = absurd (omega arith)

pieces_whole :
    (d : Disk) (fuel : ℕ) (s : Bytes)
    → length s ≤ fuel
    → contents (at_desk d (file_pieces fuel s)) ≡ s
unfolding file_pieces
pieces_whole d zero s h = sym (nil_length s h)
pieces_whole d (suc fuel) [] h = refl
pieces_whole d (suc fuel) (c ∷ s) h =
    ap (take file_piece (c ∷ s) ++◌) (
      pieces_whole d fuel (drop file_piece (c ∷ s)) (omega (arith, length-drop file_piece (c ∷ s))))
    ∙ take-append-drop file_piece (c ∷ s)

at_desk-All : (d : Disk) (ps : List Bytes) → d.write_ok ≡ true → All Writes (at_desk d ps)
at_desk-All d [] w = tt
at_desk-All d (s ∷ ps) w = (w, at_desk-All d ps w)

-- A file that the probe sends to a desk that takes it is put in place with exactly its bytes, and the
-- answer is "ok" and its name; fuel for each of its bytes is enough.
pub probe_file_saved :
    (d : Disk) (name data_ : Bytes) (c : Channel)
    → c.f ≡ none
    → Takes d (record { name = name; size = length data_ })
    → d.write_ok ≡ true
    → d.close_ok ≡ true
    → d.rename_ok ≡ true
    → let final = d.unique (d.unique (d.safe_name name)) in
      let c' =
        transfer d
          (some (record { name = name; size = length data_ }))
          (at_desk d (file_pieces (length data_) data_))
          d
          c in
      (c'.disk ≡ (final, data_) ∷ c.disk) × (c'.replies ≡ c.replies ++ (codes "ok " ++ final) ∷ [])
probe_file_saved d name data_ c idle takes w closes renames =
    let ps = at_desk d (file_pieces (length data_) data_) in
    let e = pieces_whole d (length data_) data_ (omega arith) in
    let (placed, answered) =
      whole_file d d (record { name = name; size = length data_ }) ps c idle takes
        (at_desk-All d _ w) (ap length e) closes renames in
    (placed ∙ ap (λ x. (d.unique (d.unique (d.safe_name name)), x) ∷ c.disk) e, answered)

on_clips-cons :
    (p : Piece) (ps : List Piece) (t : Bytes)
    → p.more ≡ true
    → on_clips (p ∷ ps) t ≡ on_clips ps (t ++ p.text)
unfolding on_clips on_clip
on_clips-cons p ps t m = ground arith

marked_rest :
    (p q : Piece) (ps : List Piece)
    → marked (p ∷ q ∷ ps) ≡ true
    → (p.more ≡ true) × (marked (q ∷ ps) ≡ true)
unfolding marked
marked_rest p q ps m = ground arith

on_clips-marked :
    (ps : List Piece) (t : Bytes)
    → marked ps ≡ true
    → on_clips ps t ≡ ([], (t ++ joined_text ps) ∷ [])
unfolding on_clips on_clip marked
on_clips-marked [] t m = absurd (cc m)
on_clips-marked (p ∷ []) t m = ground (arith, append-nil p.text)
on_clips-marked (p ∷ q ∷ ps) t m =
    let (more, rest) = marked_rest p q ps m in
    on_clips-cons p (q ∷ ps) t more
    ∙ on_clips-marked (q ∷ ps) (t ++ p.text) rest
    ∙ ap (λ x. ([], x ∷ [])) (append_assoc t p.text (joined_text (q ∷ ps)))

clip_cut-cut : (text : Bytes) → clip_cut text ≡ cut text
unfolding clip_cut cut
clip_cut-cut text = refl

clip_end : (fuel : ℕ) (text : Bytes) → is_nil text ≡ true → clip_pieces (suc fuel) text ≡ some []
unfolding clip_pieces
clip_end fuel text n = rw n refl

clip_step :
    (fuel : ℕ) (text : Bytes) (ps : List Piece)
    → is_nil text ≡ false
    → clip_pieces fuel (drop (cut text) text) ≡ some ps
    → clip_pieces (suc fuel) text ≡ some (piece_at text ∷ ps)
unfolding clip_pieces piece_at cut
clip_step fuel text ps n h = rw (clip_cut-cut text, n, h) refl

-- Each round of the probe is one of the host's, and there is one more for the end.
clip_pieces-send_on :
    (fuel i : ℕ) (text : Bytes) (ps : List Piece)
    → is_nil text ≡ false
    → send_on fuel (λ _. true) i text ≡ some ps
    → clip_pieces (suc fuel) text ≡ some ps
clip_pieces-send_on zero i text ps n h = unfold send_on in cc h
clip_pieces-send_on (suc fuel) i text ps n h = elim (Bool-cases (is_nil (drop (cut text) text))) [
  | inl e ↦ clip_step (suc fuel) text [] n (clip_end fuel _ e) ∙ sym (send_last fuel i text e) ∙ h
  | inr e ↦
      let (qs, k, m) = some_more _ (piece_at text) ps (sym (send_next fuel i text e) ∙ h) in
      clip_step (suc fuel) text qs n
        (clip_pieces-send_on fuel (suc i) (drop (cut text) text) qs e k)
      ∙ m
]

-- A text in UTF-8 that is neither empty nor too long goes both ways, with each piece marshalled as
-- JSON and back: what the probe sends has the desk's clipboard set to it, once, and of what the desk
-- sends the probe takes exactly that text, once; fuel for each byte and one more round or two is
-- enough.
pub clipboards_shared :
    (wire : Bytes → Bytes) (text : Bytes) (c : ClipSync)
    → IsJson wire
    → IsUtf8 text
    → is_nil text ≡ false
    → length text ≤ clip_max
    → c.input ≡ []
    → (ps : List Piece) × (clip_pieces (suc (suc (length text))) text ≡ some ps)
      × (receive_clip (map (over wire) ps) c
          ≡ (record c { input = []; last = text; known = true }, clip_write text ∷ []))
      × (send (λ _. true) text ≡ some ps)
      × (on_clips (map (over wire) ps) [] ≡ ([], text ∷ []))
unfolding send
clipboards_shared wire text c json utf8 n h idle =
    let r = utf8-IsRunes text utf8 in
    let (ps, sent, (joined, m, small)) = send_on-Sends (suc (length text)) 0 text (omega arith) r in
    let (qs, sent2, sizes, got) = clipboard_roundtrip text c r h idle in
    let qs_ps : qs ≡ ps = ground (arith) in
    let same = send_on-over wire (suc (length text)) 0 text ps json utf8 sent in
    (
      ps,
      clip_pieces-send_on (suc (length text)) 0 text ps n sent,
      rw same (
          subst
            (λ x.
              receive_clip x c
              ≡ (record c { input = []; last = text; known = true }, clip_write text ∷ []))
            qs_ps got),
      sent,
      rw same (on_clips-marked ps [] m ∙ ap (λ x. ([], x ∷ [])) joined),
    )
