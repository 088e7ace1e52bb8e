-- ===== src/Host/Names/Safe.antt =====
-- No name gets out of the directory, or is hidden in it.
use network_computer.Prelude.{
  ℕ, zero, suc, ◌-◌, ◌≡◌, ◌≤◌, refl, Bool, true, false, not, ◌&&◌, ◌||◌, List, [], ◌∷◌, ◌++◌,
  length, take, ltb, leb, ◌==◌, arith, length-append, length-take, Bool-cases, inl, inr,
}
use network_computer.Prelude.Bytes.{Bytes}
use network_computer.Host.Names.{
  slash, dot, strip_left, strip_right, is_control, is_space, printable, base, slashes, cleaned,
  encode_rune, encode, ext, cut_back, kept_ext, cut_at, shortened, safe_name,
}

abbrev pub all : (ℕ → Bool) → List ℕ → Bool
all p [] = true
all p (x ∷ xs) = p x && all p xs

module _ (p : ℕ → Bool) where
  all-append : (xs ys : List ℕ) → all p (xs ++ ys) ≡ (all p xs && all p ys)
  all-append [] ys = refl
  all-append (x ∷ xs) ys = ground (arith, all-append xs ys)

  all-take : (n : ℕ) (xs : List ℕ) → all p xs ≡ true → all p (take n xs) ≡ true
  all-take zero xs e = refl
  all-take (suc n) [] e = refl
  all-take (suc n) (x ∷ xs) e = ground (arith, e, all-take n xs)

  all-strip_left : (q : ℕ → Bool) (xs : List ℕ) → all p xs ≡ true → all p (strip_left q xs) ≡ true
  unfolding strip_left
  all-strip_left q [] e = refl
  all-strip_left q (x ∷ xs) e = ground (arith, e, all-strip_left q xs)

  all-strip_right : (q : ℕ → Bool) (xs : List ℕ) → all p xs ≡ true → all p (strip_right q xs) ≡ true
  unfolding strip_right
  all-strip_right q [] e = refl
  all-strip_right q (x ∷ xs) e = ground (arith, e, all-strip_right q xs)

  all-ext : (xs : Bytes) → all p xs ≡ true → all p (ext xs) ≡ true
  unfolding ext
  all-ext [] e = refl
  all-ext (x ∷ xs) e = ground (arith, e, all-ext xs)

  all-cut_back : (n : ℕ) (xs : Bytes) → all p xs ≡ true → all p (cut_back n xs) ≡ true
  unfolding cut_back
  all-cut_back zero xs e = refl
  all-cut_back (suc n) xs e = ground (arith, all-take (suc n) xs e, all-cut_back n xs e)

-- Neither a control character nor a slash.
abbrev pub plain_rune : ℕ → Bool
plain_rune r = not (is_control r || r == slash)

abbrev pub plain_byte : ℕ → Bool
plain_byte b = leb 32 b && (not (b == 127) && not (b == slash))

both : (a b : Bool) → (a && b) ≡ true → (a ≡ true) × (b ≡ true)
both true b e = (refl, e)
both false b e = absurd (ground (arith, e))

all-printable : (rs : List ℕ) → all plain_rune (printable rs) ≡ true
unfolding printable
all-printable [] = refl
all-printable (r ∷ rs) = ground (arith, all-printable rs)

all-cleaned : (name : List ℕ) → all plain_rune (cleaned name) ≡ true
unfolding cleaned
all-cleaned name =
    let shown = printable (base (slashes name)) in
    let left = strip_left is_space shown in
    all-strip_left plain_rune (λ r. r == dot) (strip_right is_space left)
      (all-strip_right plain_rune is_space left
        (all-strip_left plain_rune is_space shown (all-printable (base (slashes name)))))

all-encode_rune : (r : ℕ) → plain_rune r ≡ true → all plain_byte (encode_rune r) ≡ true
unfolding encode_rune
all-encode_rune r e = ground (arith, e)

all-encode : (rs : List ℕ) → all plain_rune rs ≡ true → all plain_byte (encode rs) ≡ true
unfolding encode
all-encode [] e = refl
all-encode (r ∷ rs) e =
    let (first, rest) = both (plain_rune r) (all plain_rune rs) e in
    rw
      (
        all-append plain_byte (encode_rune r) (encode rs),
        all-encode_rune r first,
        all-encode rs rest,
      )
      refl

-- Whether a name is hidden.
abbrev pub dotted : List ℕ → Bool
dotted [] = false
dotted (x ∷ xs) = x == dot

dotted-strip_left : (xs : List ℕ) → dotted (strip_left (λ r. r == dot) xs) ≡ false
unfolding strip_left
dotted-strip_left [] = refl
dotted-strip_left (x ∷ xs) = ground (arith, dotted-strip_left xs)

dotted-encode : (rs : List ℕ) → dotted rs ≡ false → dotted (encode rs) ≡ false
unfolding encode encode_rune
dotted-encode [] e = refl
dotted-encode (r ∷ rs) e = ground (arith, e)

dotted-cut_back : (n : ℕ) (xs : Bytes) → dotted xs ≡ false → dotted (cut_back n xs) ≡ false
unfolding cut_back
dotted-cut_back zero xs e = refl
dotted-cut_back (suc n) [] e = ground (arith, dotted-cut_back n [] e)
dotted-cut_back (suc n) (x ∷ xs) e = ground (arith, e, dotted-cut_back n (x ∷ xs) e)

dotted-cut :
    (n : ℕ) (xs e : Bytes)
    → 1 ≤ n
    → dotted xs ≡ false
    → 1 ≤ length xs
    → dotted (take n xs ++ e) ≡ false
dotted-cut zero xs e h d some_ = absurd (omega (arith, h))
dotted-cut (suc n) [] e h d some_ = absurd (omega (arith, some_))
dotted-cut (suc n) (x ∷ xs) e h d some_ = d

length-cut_back : (n : ℕ) (xs : Bytes) → length (cut_back n xs) ≤ n
unfolding cut_back
length-cut_back zero xs = omega arith
length-cut_back (suc n) xs = ground (arith, length-take (suc n) xs, length-cut_back n xs)

short_ext : (name : Bytes) → length (kept_ext name) ≤ 20
short_ext name = ground arith

length-cut_at : (name : Bytes) → length (cut_at name) ≤ 200
length-cut_at name = omega (
  arith,
  short_ext name,
  length-append (take (200 - length (kept_ext name)) name) (kept_ext name),
  length-take (200 - length (kept_ext name)) name,
)

all-cut_at : (name : Bytes) → all plain_byte name ≡ true → all plain_byte (cut_at name) ≡ true
all-cut_at name e =
    rw
      (
        all-append plain_byte (take (200 - length (kept_ext name)) name) (kept_ext name),
        all-take plain_byte (200 - length (kept_ext name)) name e,
      )
      (ground (arith, all-ext plain_byte name e))

all-shortened : (name : Bytes) → all plain_byte name ≡ true → all plain_byte (shortened name) ≡ true
unfolding shortened
all-shortened name e = elim (Bool-cases (ltb 200 (length name))) [
  | inl long ↦
      rw (long, shortened)
        (all-cut_back plain_byte (length (cut_at name)) (cut_at name) (all-cut_at name e))
  | inr short ↦ rw (short, shortened) e
]

dotted-shortened : (name : Bytes) → dotted name ≡ false → dotted (shortened name) ≡ false
unfolding shortened
dotted-shortened name e = elim (Bool-cases (ltb 200 (length name))) [
  | inl long ↦
      rw (long, shortened)
        (dotted-cut_back (length (cut_at name)) (cut_at name) (
          dotted-cut (200 - length (kept_ext name)) name (kept_ext name)
            (omega (arith, short_ext name)) e (ground (arith, long))))
  | inr short ↦ rw (short, shortened) e
]

length-shortened : (name : Bytes) → length (shortened name) ≤ 200
unfolding shortened
length-shortened name =
    ground (arith, length-cut_back (length (cut_at name)) (cut_at name), length-cut_at name)

-- Whatever name a client gives, the name under which its file is saved has no slash and no control
-- character of ASCII in it, does not begin with a dot, and has at most 200 bytes; it may be
-- empty, which the caller refuses.
pub safe_name_lem :
    (name : List ℕ)
    → (all plain_byte (safe_name name) ≡ true)
      × (dotted (safe_name name) ≡ false)
      × (length (safe_name name) ≤ 200)
unfolding safe_name cleaned
safe_name_lem name = (
  all-shortened (encode (cleaned name)) (all-encode (cleaned name) (all-cleaned name)),
  dotted-shortened (encode (cleaned name)) (
      dotted-encode (cleaned name) (
        dotted-strip_left
          (strip_right is_space (strip_left is_space (printable (base (slashes name))))))),
  length-shortened (encode (cleaned name)),
)
