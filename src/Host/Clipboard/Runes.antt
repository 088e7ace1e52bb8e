-- ===== src/Host/Clipboard/Runes.antt =====
-- The cuts between the pieces of a text fall between its runes, so that JSON keeps each piece.
use network_computer.Prelude.{
  ℕ, zero, suc, ◌+◌, ◌/◌, ◌%◌, ◌≤◌, ◌≡◌, refl, sym, ap, ◌∙◌, ◌⊎◌, inl, inr, Bool, true, false, ◌&&◌,
  ◌||◌, List, [], ◌∷◌, ◌++◌, Option, none, some, arith, All, length, get_or, take, drop, map,
  is_nil, ltb, leb, Bool-cases, ◌>>=◌, subst,
}
use network_computer.Prelude.Bytes.{Bytes}
use network_computer.Host.Names.{encode, encode_rune}
use network_computer.Host.Clipboard.{Piece, clip_piece, rune_start, back_up, cut, send_on}
use network_computer.Host.Clipboard.Pieces.{StartsNear, IsRunes}

-- A Unicode scalar value.
abbrev pub is_scalar : ℕ → Bool
is_scalar r = ltb r 55296 || leb 57344 r && ltb r 1114112

-- Text in UTF-8: the runes' encodings, one after another.
abbrev pub IsUtf8 : Bytes → Type 0
IsUtf8 text = (rs : List ℕ) × All (λ r. is_scalar r ≡ true) rs × (text ≡ encode rs)

-- What encoding/json documents of a string that is marshalled and unmarshalled: text in UTF-8 stays
-- as it is. (Of other bytes, those that are not UTF-8 are replaced.)
abbrev pub IsJson : (Bytes → Bytes) → Type 0
IsJson wire = (text : Bytes) → IsUtf8 text → wire text ≡ text

-- A piece as the other side gets it.
abbrev pub over : (Bytes → Bytes) → Piece → Piece
over wire p = record p { text = wire p.text }

abbrev IsRune : Bytes → Type 0
IsRune u =
    (a : ℕ) × (cs : Bytes) × (u ≡ a ∷ cs)
    × (rune_start a ≡ true)
    × (length cs ≤ 3)
    × All (λ c. rune_start c ≡ false) cs

encode_rune-IsRune : (r : ℕ) → IsRune (encode_rune r)
unfolding encode_rune
encode_rune-IsRune r = elim (Bool-cases (ltb r 128)) [
  | inl a ↦ (r, [], rw a refl, ground (arith), omega arith, tt)
  | inr a ↦ elim (Bool-cases (ltb r 2048)) [
    | inl b ↦ (
      192 + r / 64,
      (128 + r % 64) ∷ [],
      rw (a, b) refl,
      ground arith,
      omega arith,
      (ground arith, tt),
    )
    | inr b ↦ elim (Bool-cases (ltb r 65536)) [
      | inl c ↦ (
        224 + r / 4096,
        (128 + r / 64 % 64) ∷ (128 + r % 64) ∷ [],
        rw (a, b, c) refl,
        ground arith,
        omega arith,
        (ground arith, (ground arith, tt)),
      )
      | inr c ↦ (
        240 + r / 262144,
        (128 + r / 4096 % 64) ∷ (128 + r / 64 % 64) ∷ (128 + r % 64) ∷ [],
        rw (a, b, c) refl,
        ground arith,
        omega arith,
        (ground arith, (ground arith, (ground arith, tt))),
      )
    ]
  ]
]

first_starts : (rs : List ℕ) → rune_start (get_or (encode rs) 0 0) ≡ true
unfolding encode
first_starts [] = refl
first_starts (r ∷ rs) = let (a, cs, e, s, _, _) = encode_rune-IsRune r in rw e s

starts_near : (cs : Bytes) (rs : List ℕ) (i : ℕ) → length cs ≤ 3 → StartsNear (cs ++ encode rs) i
unfolding encode
starts_near [] [] i h = inl refl
starts_near [] (r ∷ rs) zero h = inl (first_starts (r ∷ rs))
starts_near [] (r ∷ rs) (suc i) h =
    let (a, cs, e, s, short, _) = encode_rune-IsRune r in rw e (starts_near cs rs i short)
starts_near (c ∷ cs) rs (suc i) h = starts_near cs rs i (omega (arith, h))
starts_near (c ∷ []) rs zero h = inr (inl (first_starts rs))
starts_near (c ∷ d ∷ []) rs zero h = inr (inr (inl (first_starts rs)))
starts_near (c ∷ d ∷ e ∷ []) rs zero h = inr (inr (inr (first_starts rs)))
starts_near (c ∷ d ∷ e ∷ f ∷ cs) rs zero h = absurd (omega (arith, h))

pub utf8-IsRunes : (text : Bytes) → IsUtf8 text → IsRunes text
utf8-IsRunes text (rs, scalar, e) = record {
  near = λ i h. rw e (starts_near [] rs i (omega arith));
}

back_up-start :
    (n : ℕ) (text : Bytes)
    → (back_up n text ≡ 0) ⊎ (rune_start (get_or text (back_up n text) 0) ≡ true)
unfolding back_up
back_up-start zero text = inl refl
back_up-start (suc n) text = elim (Bool-cases (rune_start (get_or text (suc n) 0))) [
  | inl e ↦ inr (rw e e)
  | inr e ↦ rw e (back_up-start n text)
]

get_or-length : (text : Bytes) → get_or text (length text) 0 ≡ 0
get_or-length [] = refl
get_or-length (x ∷ xs) = get_or-length xs

-- A text is cut where a rune starts.
cut-start : (text : Bytes) → (cut text ≡ 0) ⊎ (rune_start (get_or text (cut text) 0) ≡ true)
unfolding cut
cut-start text = elim (Bool-cases (ltb clip_piece (length text))) [
  | inl e ↦ rw e (back_up-start clip_piece text)
  | inr e ↦ rw e (inr (rw (get_or-length text) refl))
]

-- No cut where a rune starts is inside the bytes that go on with a rune.
past_rune :
    (cs t : Bytes) (n : ℕ)
    → All (λ c. rune_start c ≡ false) cs
    → rune_start (get_or (cs ++ t) n 0) ≡ true
    → (m : ℕ) × (take n (cs ++ t) ≡ cs ++ take m t)
      × (drop n (cs ++ t) ≡ drop m t)
      × (rune_start (get_or t m 0) ≡ true)
past_rune [] t n h s = (n, refl, refl, s)
past_rune (c ∷ cs) t zero (h, hs) s = cc
past_rune (c ∷ cs) t (suc n) (h, hs) s =
    let (m, e, f, k) = past_rune cs t n hs s in (m, ap (c ∷◌) e, f, k)

cut_between :
    (rs : List ℕ) (n : ℕ)
    → All (λ r. is_scalar r ≡ true) rs
    → (n ≡ 0) ⊎ (rune_start (get_or (encode rs) n 0) ≡ true)
    → IsUtf8 (take n (encode rs)) × IsUtf8 (drop n (encode rs))
unfolding encode
cut_between rs zero h s = (([], tt, refl), (rs, h, refl))
cut_between [] (suc n) h s = (([], tt, refl), ([], tt, refl))
cut_between (r ∷ rs) (suc n) h (inl z) = absurd (omega (arith, z))
cut_between (r ∷ rs) (suc n) (h, hs) (inr s) =
    let (a, cs, e, _, _, goes_on) = encode_rune-IsRune r in
    let at_n : rune_start (get_or (cs ++ encode rs) n 0) ≡ true = whole a cs e s in
    let (m, front, back, k) = past_rune cs (encode rs) n goes_on at_n in
    let ((xs, hx, ex), (ys, hy, ey)) = cut_between rs m hs (inr k) in
    ((r ∷ xs, (h, hx), rw e (ap (a ∷◌) (front ∙ ap (cs ++◌) ex))), (ys, hy, rw e (back ∙ ey)))
  where
    whole :
        (a : ℕ) (cs : Bytes)
        → encode_rune r ≡ a ∷ cs
        → rune_start (get_or (encode_rune r ++ encode rs) (suc n) 0) ≡ true
        → rune_start (get_or (cs ++ encode rs) n 0) ≡ true
    whole a cs e s = ap (λ u. rune_start (get_or (u ++ encode rs) (suc n) 0)) (sym e) ∙ s

-- What is cut off and what is left are in UTF-8 like the text.
pub cut-IsUtf8 :
    (text : Bytes) → IsUtf8 text → IsUtf8 (take (cut text) text) × IsUtf8 (drop (cut text) text)
cut-IsUtf8 text (rs, h, e) =
    subst
      (λ t.
        (((cut t ≡ 0) ⊎ (rune_start (get_or t (cut t) 0) ≡ true))
          → IsUtf8 (take (cut t) t) × IsUtf8 (drop (cut t) t)))
      (sym e) (cut_between rs (cut (encode rs)) h) (cut-start text)

unfoldable pub piece_at : Bytes → Piece
piece_at text = record { text = take (cut text) text; more = ltb (cut text) (length text) }

pub send_last :
    (fuel i : ℕ) (text : Bytes)
    → is_nil (drop (cut text) text) ≡ true
    → send_on (suc fuel) (λ _. true) i text ≡ some (piece_at text ∷ [])
unfolding send_on piece_at
send_last fuel i text e = rw e refl

pub send_next :
    (fuel i : ℕ) (text : Bytes)
    → is_nil (drop (cut text) text) ≡ false
    → send_on (suc fuel) (λ _. true) i text ≡ (
        send_on fuel (λ _. true) (suc i) (drop (cut text) text) >>= λ ps. some (piece_at text ∷ ps))
unfolding send_on piece_at
send_next fuel i text e = rw e refl

pub some_more :
    (o : Option (List Piece)) (p : Piece) (ps : List Piece)
    → (o >>= λ qs. some (p ∷ qs)) ≡ some ps
    → (qs : List Piece) × (o ≡ some qs) × (some (p ∷ qs) ≡ some ps)
some_more none p ps h = cc
some_more (some qs) p ps h = (qs, refl, h)

listed : (ps qs : List Piece) → some ps ≡ some qs → ps ≡ qs
listed ps qs h = cc

kept :
    (wire : Bytes → Bytes) (text : Bytes)
    → wire (take (cut text) text) ≡ take (cut text) text
    → over wire (piece_at text) ≡ piece_at text
unfolding piece_at
kept wire text e = rw e refl

-- Each piece that goes out is in UTF-8.
pub send_on-over :
    (wire : Bytes → Bytes) (fuel i : ℕ) (text : Bytes) (ps : List Piece)
    → IsJson wire
    → IsUtf8 text
    → send_on fuel (λ _. true) i text ≡ some ps
    → map (over wire) ps ≡ ps
send_on-over wire zero i text ps json u h = unfold send_on in cc h
send_on-over wire (suc fuel) i text ps json u h =
    let (front, back) = cut-IsUtf8 text u in
    let same : over wire (piece_at text) ≡ piece_at text = kept wire text (json _ front) in
    elim (Bool-cases (is_nil (drop (cut text) text))) [
      | inl e ↦ rw (sym (listed _ ps (sym (send_last fuel i text e) ∙ h)), same) refl
      | inr e ↦
          let (qs, k, m) = some_more _ (piece_at text) ps (sym (send_next fuel i text e) ∙ h) in
          rw
            (
              sym (listed _ ps m),
              same,
              send_on-over wire fuel (suc i) (drop (cut text) text) qs json back k,
            )
            refl
    ]
