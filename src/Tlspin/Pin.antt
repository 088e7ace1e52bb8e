-- ===== src/Tlspin/Pin.antt =====
-- The ways in which a fingerprint may be written, and what a client accepts that is given it.
use network_computer.Prelude.{
  ℕ, ◌+◌, ◌≡◌, ◌≢◌, ◌⊎◌, inl, inr, refl, sym, ap, ◌∙◌, Bool, true, false, ◌&&◌, ◌||◌, [], ◌∷◌, ◌++◌,
  All, arith, leb, ◌==◌, if◌then◌else◌, is_nil,
}
use network_computer.Prelude.Bytes.{Bytes, codes, has_prefix, trim_prefix, trim_prefix-append}
use network_computer.Prelude.Hex.{is_hex}
use network_computer.Prelude.Trim.{is_space, trim_left, trim_end, trim_space}
use network_computer.Tlspin.{
  lower_byte, to_lower, is_mark, unmarked, normalize, default, pinned, client,
}

-- A hex digit of either case, a colon or a space.
abbrev pub is_written : ℕ → Bool
is_written c = is_hex c || leb b'A' c && leb c b'F' || c == b':' || c == 32

-- The digit `d` as a person writes it: itself, or a letter in upper case.
abbrev writes : ℕ → ℕ → Bool
writes d c = c == d || leb b'a' d && c + 32 == d

-- The text is the hex digits `x`, each in either case, with any colons and spaces around them.
abbrev pub Spells : Bytes → Bytes → Type 0
Spells x [] = x ≡ []
Spells x (c ∷ s) =
    (((c == b':' || c == 32) ≡ true) × Spells x s)
    ⊎ ((d : ℕ) × (y : Bytes) × (x ≡ d ∷ y) × (is_hex d ≡ true) × (writes d c ≡ true) × Spells y s)

-- What the code makes of such text.
abbrev IsPlain : Bytes → Bytes → Type 0
IsPlain x s = All (λ c. is_written c ≡ true) s × (unmarked (to_lower s) ≡ x)

mark-IsPlain :
    (x : Bytes) (c : ℕ) (s : Bytes)
    → (c == b':' || c == 32) ≡ true
    → IsPlain x s
    → IsPlain x (c ∷ s)
unfolding unmarked to_lower lower_byte
mark-IsPlain x c s m (w, e) = ((ground arith, w), ground (arith, m, e))

digit-IsPlain :
    (x y : Bytes) (c d : ℕ) (s : Bytes)
    → x ≡ d ∷ y
    → is_hex d ≡ true
    → writes d c ≡ true
    → IsPlain y s
    → IsPlain x (c ∷ s)
unfolding unmarked to_lower lower_byte
digit-IsPlain x y c d s k h m (w, e) = ((ground arith, w), ground (arith, k, h, m, e))

spelled : (x s : Bytes) → Spells x s → IsPlain x s
unfolding unmarked to_lower
spelled x [] e = (tt, sym e)
spelled x (c ∷ s) (inl (m, h)) = mark-IsPlain x c s m (spelled x s h)
spelled x (c ∷ s) (inr (d, y, k, h, m, r)) = digit-IsPlain x y c d s k h m (spelled y s r)

-- Trimming spaces from written text takes nothing that the Replacer would keep.
left_space :
    (s : Bytes)
    → All (λ c. is_written c ≡ true) s
    → unmarked (to_lower (trim_left is_space s)) ≡ unmarked (to_lower s)
unfolding trim_left unmarked to_lower lower_byte
left_space [] h = refl
left_space (c ∷ s) (h, hs) = ground (arith, left_space s hs)

written_either :
    (b : Bool) (s t : Bytes)
    → All (λ c. is_written c ≡ true) s
    → All (λ c. is_written c ≡ true) t
    → All (λ c. is_written c ≡ true) (if b then s else t)
written_either true s t hs ht = hs
written_either false s t hs ht = ht

left_written :
    (k : ℕ → Bool) (s : Bytes)
    → All (λ c. is_written c ≡ true) s
    → All (λ c. is_written c ≡ true) (trim_left k s)
unfolding trim_left
left_written k [] h = tt
left_written k (c ∷ s) (h, hs) =
    written_either (k c) (trim_left k s) (c ∷ s) (left_written k s hs) (h, hs)

end_step : ℕ → Bytes → Bytes
end_step c [] = if is_space c then [] else c ∷ []
end_step c (d ∷ t) = c ∷ d ∷ t

trim_end_step : (c : ℕ) (s : Bytes) → trim_end is_space (c ∷ s) ≡ end_step c (trim_end is_space s)
unfolding trim_end end_step
trim_end_step c s = ground arith

end_keeps :
    (c : ℕ) (u : Bytes)
    → is_written c ≡ true
    → unmarked (to_lower (end_step c u)) ≡ unmarked (to_lower (c ∷ u))
unfolding end_step unmarked to_lower lower_byte
end_keeps c [] h = ground arith
end_keeps c (d ∷ t) h = refl

unmarked_step :
    (c : ℕ) (s t : Bytes)
    → unmarked (to_lower s) ≡ unmarked (to_lower t)
    → unmarked (to_lower (c ∷ s)) ≡ unmarked (to_lower (c ∷ t))
unfolding unmarked to_lower
unmarked_step c s t e = rw e refl

end_space :
    (s : Bytes)
    → All (λ c. is_written c ≡ true) s
    → unmarked (to_lower (trim_end is_space s)) ≡ unmarked (to_lower s)
unfolding trim_end
end_space [] h = refl
end_space (c ∷ s) (h, hs) =
    ap (λ u. unmarked (to_lower u)) (trim_end_step c s)
    ∙ end_keeps c (trim_end is_space s) h
    ∙ unmarked_step c (trim_end is_space s) s (end_space s hs)

end_written :
    (s : Bytes)
    → All (λ c. is_written c ≡ true) s
    → All (λ c. is_written c ≡ true) (trim_end is_space s)
unfolding trim_end end_step
end_written [] h = tt
end_written (c ∷ s) (h, hs) =
    rw (trim_end_step c s) (stepped (trim_end is_space s) (end_written s hs))
  where
    stepped :
        (u : Bytes)
        → All (λ c. is_written c ≡ true) u
        → All (λ c. is_written c ≡ true) (end_step c u)
    stepped [] hu = written_either (is_space c) [] (c ∷ []) tt (h, tt)
    stepped (d ∷ t) hu = (h, hu)

no_sha :
    (s : Bytes)
    → All (λ c. is_written c ≡ true) s
    → trim_prefix (to_lower s) (codes "sha256") ≡ to_lower s
unfolding trim_prefix has_prefix to_lower lower_byte
no_sha [] h = refl
no_sha (c ∷ s) (h, hs) = ground arith

left_mark :
    (s : Bytes)
    → All (λ c. is_written c ≡ true) s
    → unmarked (trim_left is_mark (to_lower s)) ≡ unmarked (to_lower s)
unfolding trim_left unmarked to_lower lower_byte
left_mark [] h = refl
left_mark (c ∷ s) (h, hs) = ground (arith, left_mark s hs)

trim-IsPlain : (x s : Bytes) → IsPlain x s → IsPlain x (trim_space s)
unfolding trim_space
trim-IsPlain x s (h, e) =
    let l = left_written is_space s h in
    (end_written (trim_left is_space s) l, end_space (trim_left is_space s) l ∙ left_space s h ∙ e)

-- A fingerprint that is written plainly is normalized to its hex digits.
normalize_plain : (x s : Bytes) → IsPlain x s → normalize s ≡ x
unfolding normalize
normalize_plain x s h =
    let (w, e) = trim-IsPlain x s h in rw (no_sha (trim_space s) w) (left_mark (trim_space s) w ∙ e)

trim_end_cons :
    (c d : ℕ) (s t : Bytes) → trim_end is_space s ≡ d ∷ t → trim_end is_space (c ∷ s) ≡ c ∷ d ∷ t
unfolding trim_end
trim_end_cons c d s t e = rw e

trim_end-append :
    (p s : Bytes) (d : ℕ) (t : Bytes)
    → trim_end is_space s ≡ d ∷ t
    → trim_end is_space (p ++ s) ≡ p ++ d ∷ t
trim_end-append [] s d t e = e
trim_end-append (c ∷ []) s d t e = trim_end_cons c d s t e
trim_end-append (c ∷ b ∷ p) s d t e =
    trim_end_cons c b (b ∷ p ++ s) (p ++ d ∷ t) (trim_end-append (b ∷ p) s d t e)

left_marks :
    (gap s : Bytes)
    → All (λ c. is_mark c ≡ true) gap
    → trim_left is_mark (to_lower (gap ++ s)) ≡ trim_left is_mark (to_lower s)
unfolding trim_left to_lower lower_byte
left_marks [] s h = refl
left_marks (c ∷ gap) s (h, hs) = ground (arith, left_marks gap s hs)

abbrev pub label : Bytes
label = codes "sha256"

labelled :
    (gap s : Bytes) (d : ℕ) (t : Bytes)
    → trim_end is_space s ≡ d ∷ t
    → normalize (label ++ (gap ++ s)) ≡ unmarked (trim_left is_mark (to_lower (gap ++ d ∷ t)))
unfolding normalize trim_space trim_left to_lower lower_byte
labelled gap s d t e =
    ap (λ u. unmarked (trim_left is_mark (trim_prefix (to_lower u) label)))
      (trim_end-append (label ++ gap) s d t e)
    ∙ ap (λ u. unmarked (trim_left is_mark u)) (trim_prefix-append label (to_lower (gap ++ d ∷ t)))

normalize_marked :
    (x gap s u : Bytes)
    → x ≢ []
    → All (λ c. is_mark c ≡ true) gap
    → trim_end is_space s ≡ u
    → IsPlain x u
    → normalize (label ++ (gap ++ s)) ≡ x
unfolding to_lower unmarked
normalize_marked x gap s [] n g e (w, k) = absurd (n (sym k))
normalize_marked x gap s (d ∷ t) n g e (w, k) =
    labelled gap s d t e ∙ ap unmarked (left_marks gap (d ∷ t) g) ∙ left_mark (d ∷ t) w ∙ k

-- The ways to write the fingerprint `x`: plainly, or behind "sha256" and marks.
abbrev pub Written : Bytes → Bytes → Type 0
Written x fp =
    (s : Bytes) × Spells x s
    × ((fp ≡ s) ⊎ ((gap : Bytes) × All (λ c. is_mark c ≡ true) gap × (fp ≡ label ++ (gap ++ s))))

pub normalize-Written : (x fp : Bytes) → x ≢ [] → Written x fp → normalize fp ≡ x
normalize-Written x fp n (s, h, inl e) = rw e (normalize_plain x s (spelled x s h))
normalize-Written x fp n (s, h, inr (gap, g, e)) =
    let (w, k) = spelled x s h in
    rw e
      (normalize_marked x gap s (trim_end is_space s) n g refl (end_written s w, end_space s w ∙ k))

-- A client that is given the fingerprint is pinned to it.
pub client-Written : (x fp : Bytes) → x ≢ [] → Written x fp → client fp ≡ pinned x
unfolding client
client-Written x fp n h = rw (normalize-Written x fp n h) (not_default x n)
  where
    not_default : (y : Bytes) → y ≢ [] → (if is_nil y then default else pinned y) ≡ pinned y
    not_default [] h = absurd (h refl)
    not_default (c ∷ y) h = refl

-- Lower-case hex digits spell themselves.
pub hex-Spells : (x : Bytes) → All (λ c. is_hex c ≡ true) x → Spells x x
hex-Spells [] h = refl
hex-Spells (c ∷ x) (h, hs) = inr (c, x, refl, h, ground arith, hex-Spells x hs)
