-- ===== src/Host/Clipboard/Pieces.antt =====
-- A text in pieces, there and back.
use network_computer.Prelude.{
  ℕ, zero, suc, ◌+◌, ◌≤◌, ◌<◌, ◌≡◌, refl, sym, ap, ◌∙◌, ◌⊎◌, inl, inr, Bool, true, false, List, [],
  ◌∷◌, ◌++◌, some, arith, All, length, length-take, length-drop, get_or, take, drop,
  take-append-drop, append_assoc, append-nil, is_nil, ltb, if◌then◌else◌, Bool-cases, ◌>>=◌,
  length-append, lt→ltb,
}
use network_computer.Prelude.Bytes.{Bytes}
use network_computer.Host.Clipboard.{
  ClipSync, Piece, Effect, clip_write, receive_piece, clip_piece, clip_max, rune_start, back_up,
  cut, send_on, send,
}

-- What UTF-8 has: of four bytes in a row one starts a rune.
abbrev pub StartsNear : Bytes → ℕ → Type 0
StartsNear text i =
    (rune_start (get_or text i 0) ≡ true)
    ⊎ (rune_start (get_or text (suc i) 0) ≡ true)
    ⊎ (rune_start (get_or text (suc (suc i)) 0) ≡ true)
    ⊎ (rune_start (get_or text (suc (suc (suc i))) 0) ≡ true)

pub record IsRunes (text : Bytes) : Type 0 where
  pub near : (i : ℕ) → suc (suc (suc i)) < length text → StartsNear text i

get_or-drop : (n i j : ℕ) (xs : Bytes) → j ≡ n + i → get_or (drop n xs) i 0 ≡ get_or xs j 0
get_or-drop zero i j xs h = ap (λ k. get_or xs k 0) (omega (arith, h))
get_or-drop (suc n) i j [] h = refl
get_or-drop (suc n) i zero (x ∷ xs) h = absurd (omega arith)
get_or-drop (suc n) i (suc j) (x ∷ xs) h = get_or-drop n i j xs (omega arith)

drop-IsRunes : (n : ℕ) (text : Bytes) → IsRunes text → IsRunes (drop n text)
drop-IsRunes n text r = record {
  near = λ i h.
      let long : suc (suc (suc (n + i))) < length text = omega (arith, length-drop n text) in
      rw
        (
          get_or-drop n i (n + i) text (omega arith),
          get_or-drop n (suc i) (suc (n + i)) text (omega arith),
          get_or-drop n (suc (suc i)) (suc (suc (n + i))) text (omega arith),
          get_or-drop n (suc (suc (suc i))) (suc (suc (suc (n + i)))) text (omega arith),
        )
        (r.near (n + i) long);
}

back_up-le : (n : ℕ) (text : Bytes) → back_up n text ≤ n
unfolding back_up
back_up-le zero text = omega arith
back_up-le (suc n) text = ground (arith, back_up-le n text)

-- Backing up from a position goes back three bytes at most.
back_up-near :
    (i : ℕ) (text : Bytes)
    → StartsNear text (suc i)
    → suc i ≤ back_up (suc (suc (suc (suc i)))) text
unfolding back_up
back_up-near i text h = ground arith

cut-le : (text : Bytes) → cut text ≤ length text
unfolding cut
cut-le text = ground (arith, back_up-le clip_piece text)

cut-pos : (text : Bytes) → IsRunes text → 0 < length text → 0 < cut text
unfolding cut
cut-pos text r h = elim (Bool-cases (ltb clip_piece (length text))) [
  | inl e ↦ rw e (omega (arith, back_up-near 8188 text (r.near 8189 (ground arith))))
  | inr e ↦ rw e h
]

-- The pieces, received one after another: the state, and what was written to the desk.
unfoldable pub receive_clip : List Piece → ClipSync → ClipSync × List Effect
receive_clip [] c = (c, [])
receive_clip (p ∷ ps) c =
    let (c', out) = receive_piece p c in let (c'', out') = receive_clip ps c' in (c'', out ++ out')

-- The texts of the pieces, and that all but the last say that more comes.
abbrev pub joined_text : List Piece → Bytes
joined_text [] = []
joined_text (p ∷ ps) = p.text ++ joined_text ps

unfoldable pub marked : List Piece → Bool
marked [] = false
marked (p ∷ []) = if p.more then false else true
marked (p ∷ q ∷ ps) = if p.more then marked (q ∷ ps) else false

abbrev pub Sends : Bytes → List Piece → Type 0
Sends text ps =
    (joined_text ps ≡ text) × (marked ps ≡ true) × All (λ p. length p.text ≤ clip_piece) ps

cut-piece : (text : Bytes) → length (take (cut text) text) ≤ clip_piece
unfolding cut
cut-piece text = ground (arith, length-take (cut text) text, back_up-le clip_piece text)

marked-cons :
    (p : Piece) (ps : List Piece) → p.more ≡ true → marked ps ≡ true → marked (p ∷ ps) ≡ true
unfolding marked
marked-cons p [] more m = absurd (cc m)
marked-cons p (q ∷ ps) more m = rw more m

is_nil-length : (xs : Bytes) → is_nil xs ≡ true → length xs ≡ 0
is_nil-length [] h = refl
is_nil-length (x ∷ xs) h = absurd (cc h)

pub send_on-Sends :
    (fuel i : ℕ) (text : Bytes)
    → length text < fuel
    → IsRunes text
    → (ps : List Piece) × (send_on fuel (λ _. true) i text ≡ some ps) × Sends text ps
unfolding send_on marked
send_on-Sends zero i text h r = absurd (omega arith)
send_on-Sends (suc fuel) i text h r = elim (Bool-cases (is_nil (drop (cut text) text))) [
  | inl e ↦
      let whole : length text ≤ cut text =
        omega (arith, is_nil-length (drop (cut text) text) e, length-drop (cut text) text) in
      (
        record { text = take (cut text) text; more = ltb (cut text) (length text) } ∷ [],
        rw e refl,
        (whole_text e, last_mark whole, (cut-piece text, tt)),
      )
  | inr e ↦
      let (ps, sent, (joined, m, small)) =
        send_on-Sends fuel (suc i) (drop (cut text) text)
          (omega (arith, length-drop (cut text) text, nonempty e, cut-pos text r (nonempty e)))
          (drop-IsRunes (cut text) text r) in
      (
        record { text = take (cut text) text; more = ltb (cut text) (length text) } ∷ ps,
        rw (e, sent, ◌>>=◌) refl,
        (
          rw joined (take-append-drop (cut text) text),
          marked-cons (record { text = take (cut text) text; more = ltb (cut text) (length text) })
              ps (shorter e) m,
          (cut-piece text, small),
        ),
      )
]
  where
    nil_of : (xs : Bytes) → is_nil xs ≡ true → xs ≡ []
    nil_of [] h = refl
    nil_of (x ∷ xs) h = absurd (cc h)

    whole_text : is_nil (drop (cut text) text) ≡ true → take (cut text) text ++ [] ≡ text
    whole_text e =
        ap (λ b. take (cut text) text ++ b) (sym (nil_of (drop (cut text) text) e))
        ∙ take-append-drop (cut text) text

    last_mark :
        length text ≤ cut text
        → marked (record { text = take (cut text) text; more = ltb (cut text) (length text) } ∷ [])
          ≡ true
    last_mark h = ground arith

    pos_length : (xs : Bytes) → is_nil xs ≡ false → 0 < length xs
    pos_length [] h = absurd (cc h)
    pos_length (x ∷ xs) h = omega arith

    nonempty : is_nil (drop (cut text) text) ≡ false → 0 < length text
    nonempty e = omega (arith, pos_length (drop (cut text) text) e, length-drop (cut text) text)

    shorter : is_nil (drop (cut text) text) ≡ false → ltb (cut text) (length text) ≡ true
    shorter e =
        lt→ltb (cut text) (length text)
          (omega (arith, pos_length (drop (cut text) text) e, length-drop (cut text) text))

-- Every piece but the last adds to the text, and the last one sets the desk's clipboard.
receive_clip-marked :
    (ps : List Piece) (c : ClipSync)
    → marked ps ≡ true
    → length c.input + length (joined_text ps) ≤ clip_max
    → receive_clip ps c ≡ (
      record c { input = []; last = c.input ++ joined_text ps; known = true },
      clip_write (c.input ++ joined_text ps) ∷ [],
    )
unfolding receive_clip receive_piece marked
receive_clip-marked [] c m h = absurd (cc m)
receive_clip-marked (p ∷ []) c m h = ground (arith, length-append p.text [], append-nil p.text)
receive_clip-marked (p ∷ q ∷ ps) c m h =
    let c' : ClipSync = record c { input = c.input ++ p.text } in
    let sizes = length-append p.text (joined_text (q ∷ ps)) in
    ap (λ r. ((receive_clip (q ∷ ps) r.0).0, r.1 ++ (receive_clip (q ∷ ps) r.0).1))
      (first_piece p c (more_of m) (omega (arith, sizes)))
    ∙ receive_clip-marked (q ∷ ps) c' (rest_of m)
        (omega (arith, sizes, length-append c.input p.text))
    ∙ ap (λ t. (record c { input = []; last = t; known = true }, clip_write t ∷ []))
        (append_assoc c.input p.text (joined_text (q ∷ ps)))
  where
    more_of : (if p.more then marked (q ∷ ps) else false) ≡ true → p.more ≡ true
    more_of m = ground arith

    rest_of : (if p.more then marked (q ∷ ps) else false) ≡ true → marked (q ∷ ps) ≡ true
    rest_of m = ground arith

    first_piece :
        (p : Piece) (c : ClipSync)
        → p.more ≡ true
        → length c.input + length p.text ≤ clip_max
        → receive_piece p c ≡ (record c { input = c.input ++ p.text }, [])
    first_piece p c more h = ground arith

-- A text in UTF-8 that is not too long is cut into pieces of 8 KB at most, on the fuel given; the
-- receiving side, with nothing pending, puts exactly that text on the clipboard, once.
pub clipboard_roundtrip :
    (text : Bytes) (c : ClipSync)
    → IsRunes text
    → length text ≤ clip_max
    → c.input ≡ []
    → (ps : List Piece) × (send (λ _. true) text ≡ some ps)
      × All (λ p. length p.text ≤ clip_piece) ps
      × (receive_clip ps c
          ≡ (record c { input = []; last = text; known = true }, clip_write text ∷ []))
unfolding send
clipboard_roundtrip text c r h idle =
    let (ps, sent, (joined, m, small)) = send_on-Sends (suc (length text)) 0 text (omega arith) r in
    let whole : c.input ++ joined_text ps ≡ text = rw (idle, joined) refl in
    (
      ps,
      sent,
      small,
      receive_clip-marked ps c m (omega (arith, h, ap length idle, ap length joined))
          ∙ ap (λ t. (record c { input = []; last = t; known = true }, clip_write t ∷ [])) whole,
    )
