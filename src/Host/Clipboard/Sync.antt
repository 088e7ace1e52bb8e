-- ===== src/Host/Clipboard/Sync.antt =====
-- What a session's clipboard sends and writes over time, and where it goes wrong.
use network_computer.Prelude.{
  ℕ, zero, suc, ◌+◌, ◌≤◌, ◌<◌, ◌≡◌, refl, true, false, [], ◌∷◌, ◌++◌, none, some, arith, length,
  get_or, is_nil, lt→ltb, ◌>>=◌,
}
use network_computer.Prelude.Bytes.{Bytes, bytes_eq_iff}
use network_computer.Host.Clipboard.{
  ClipSync, Piece, receive_piece, look, changed, give_up, clip_piece, clip_max, rune_start, back_up,
  cut, send_on,
}

-- What the client pasted is no news: a look at the desk's clipboard that finds it there sends
-- nothing, when the client does not wait for a copy.
pub no_echo :
    (at : ℕ) (p : Piece) (c : ClipSync)
    → p.more ≡ false
    → length c.input + length p.text ≤ clip_max
    → c.wait_until ≡ none
    → let c' = (receive_piece p c).0 in look at (some (c.input ++ p.text)) c' ≡ (c', [])
unfolding receive_piece look changed give_up
no_echo at p c last_ fits idle =
    ground (arith, bytes_eq_iff (c.input ++ p.text) (c.input ++ p.text))

back_up-stuck :
    (n : ℕ) (text : Bytes)
    → ((i : ℕ) → 0 < i → i ≤ n → rune_start (get_or text i 0) ≡ false)
    → back_up n text ≡ 0
unfolding back_up
back_up-stuck zero text h = refl
back_up-stuck (suc n) text h =
    rw (h (suc n) (omega arith) (omega arith))
      (back_up-stuck n text (λ i pos_ le. h i pos_ (omega arith)))

-- A long text whose first 8 KB hold no start of a rune is never sent: each round sends an empty piece
-- and keeps the text, so no number of rounds is enough.
pub endless_send :
    (fuel i : ℕ) (text : Bytes)
    → clip_piece < length text
    → ((j : ℕ) → 0 < j → j ≤ clip_piece → rune_start (get_or text j 0) ≡ false)
    → send_on fuel (λ _. true) i text ≡ none
unfolding send_on
endless_send zero i text long h = refl
endless_send (suc fuel) i text long h =
    let none_ : cut text ≡ 0 =
      unfold cut in rw (lt→ltb clip_piece (length text) long) (back_up-stuck clip_piece text h) in
    rw none_ (rw (nonempty text long, endless_send fuel (suc i) text long h, ◌>>=◌) refl)
  where
    nonempty : (text : Bytes) → clip_piece < length text → is_nil text ≡ false
    nonempty [] h = absurd (omega arith)
    nonempty (x ∷ xs) h = refl
