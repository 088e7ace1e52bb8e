-- ===== src/Host/Control/Paste.antt =====
-- A paste: the text, then the keystroke.
use network_computer.Prelude.{
  suc, ◌≡◌, ◌≤◌, refl, sym, append_assoc, ap, ◌∙◌, true, List, [], ◌∷◌, ◌++◌, map, some, length,
}
use mathlib.Core.List.{map-append}
use network_computer.Prelude.Bytes.{Bytes}
use network_computer.Host.Clipboard.{Piece, clip_write, receive_piece, clip_max, send}
use network_computer.Host.Clipboard.Pieces.{receive_clip, clipboard_roundtrip}
use network_computer.Host.Clipboard.Runes.{IsUtf8, IsJson, over, utf8-IsRunes, send_on-over}
use network_computer.Host.Control.{
  Message, clip, event, on_clip, inject, Control, Desk, on_control, on_all,
}

module _ {E D : Type 0} (move_of : E → E) (desk : Desk) where
  on_all-clip :
      (ps : List Piece) (after : List (Message E D)) (c : Control)
      → on_all move_of desk (map clip ps ++ after) c ≡ (
          let (clip', out) = receive_clip ps c.clip in
          let (c', acts) = on_all move_of desk after (record c { clip = clip' }) in
          (c', map on_clip out ++ acts))
  unfolding on_all on_control receive_clip
  on_all-clip [] after c = refl
  on_all-clip (p ∷ ps) after c =
      let (clip1, out1) = receive_piece p c.clip in
      let (clip2, out2) = receive_clip ps clip1 in
      let (c', acts) = on_all move_of desk after (record c { clip = clip2 }) in
      rw (on_all-clip ps after (record c { clip = clip1 })) (
        ap (λ x. (c', x))
          (sym (append_assoc (map on_clip out1) (map on_clip out2) acts)
            ∙ ap (λ x. x ++ acts) (sym (map-append on_clip out1 out2))))

  -- A client that sends a text in pieces, in order, and then an event: what the handler itself does, in
  -- no goroutine, is to set the desk's clipboard to exactly that text, once, before it injects the
  -- event, and nothing else; for a text in UTF-8 that is not too long, when no piece of another text
  -- is waiting, with each piece marshalled as JSON and back.
  pub paste_before_key :
      (wire : Bytes → Bytes) (text : Bytes) (e : E) (c : Control)
      → IsJson wire
      → IsUtf8 text
      → length text ≤ clip_max
      → c.clip.input ≡ []
      → (ps : List Piece) × (send (λ _. true) text ≡ some ps)
        × ((on_all {D = D} move_of desk (map clip (map (over wire) ps) ++ event e ∷ []) c).1
            ≡ on_clip (clip_write text) ∷ inject e ∷ [])
  unfolding on_all on_control send
  paste_before_key wire text e c json utf8 small idle =
      let (ps, sent, short, whole) =
        clipboard_roundtrip text c.clip (utf8-IsRunes text utf8) small idle in
      let same = send_on-over wire (suc (length text)) 0 text ps json utf8 sent in
      (ps, sent, rw same (rw (on_all-clip ps (event e ∷ []) c, whole) refl))
