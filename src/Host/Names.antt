-- ===== src/Host/Names.antt =====
-- cmd/nc-host/files.go, safeName: the name under which a client's file is saved. A client's name is the
-- runes that it decodes to; the name that comes out is bytes, since the cut at 200 counts them.
pub mod Safe
pub mod Unique
use network_computer.Prelude.{
  ℕ, zero, suc, ◌+◌, ◌-◌, ◌*◌, ◌/◌, ◌%◌, Bool, true, false, not, ◌&&◌, ◌||◌, List, [], ◌∷◌, ◌++◌,
  map, Option, none, some, length, take, is_nil, ltb, leb, ◌==◌, if◌then◌else◌,
}
use network_computer.Prelude.Bytes.{Bytes}

abbrev pub slash : ℕ
slash = 47

abbrev pub dot : ℕ
dot = 46

abbrev pub has : ℕ → List ℕ → Bool
has x [] = false
has x (y ∷ ys) = y == x || has x ys

unfoldable pub strip_left : (ℕ → Bool) → List ℕ → List ℕ
strip_left p [] = []
strip_left p (x ∷ xs) = let rest = strip_left p xs in if p x then rest else x ∷ xs

unfoldable pub strip_right : (ℕ → Bool) → List ℕ → List ℕ
strip_right p [] = []
strip_right p (x ∷ xs) = let rest = strip_right p xs in if is_nil rest && p x then [] else x ∷ rest

-- What is behind the last slash.
unfoldable pub behind_slash : List ℕ → List ℕ
behind_slash [] = []
behind_slash (x ∷ xs) =
    let rest = behind_slash xs in if has slash xs then rest else if x == slash then xs else x ∷ xs

-- filepath.Base
unfoldable pub base : List ℕ → List ℕ
unfolding strip_right behind_slash
base name =
    let last = behind_slash (strip_right (λ r. r == slash) name) in
    if is_nil name then dot ∷ [] else if is_nil last then slash ∷ [] else last

-- `strings.ReplaceAll(name, "\\", "/")`
abbrev pub slashes : List ℕ → List ℕ
slashes name = map (λ r. if r == 92 then slash else r) name

-- unicode.IsControl, and what strings.TrimSpace takes away.
abbrev pub is_control : ℕ → Bool
is_control r = ltb r 32 || (leb 127 r && ltb r 160)

abbrev pub is_space : ℕ → Bool
is_space r =
    (leb 9 r && leb r 13)
    || (r == 32
        || (r == 133
            || (r == 160
                || (r == 5760
                    || ((leb 8192 r && leb r 8202)
                        || (r == 8232
                            || (r == 8233 || (r == 8239 || (r == 8287 || r == 12288)))))))))

unfoldable pub printable : List ℕ → List ℕ
printable [] = []
printable (r ∷ rs) =
    let rest = printable rs in if is_control r || r == slash then rest else r ∷ rest

-- The runes of the name, before it is cut.
unfoldable pub cleaned : List ℕ → List ℕ
unfolding base printable strip_left strip_right
cleaned name =
    strip_left (λ r. r == dot)
      (strip_right is_space (strip_left is_space (printable (base (slashes name)))))

-- A rune in UTF-8.
unfoldable pub encode_rune : ℕ → Bytes
encode_rune r =
    if ltb r 128
    then r ∷ []
    else if ltb r 2048
    then (192 + r / 64) ∷ (128 + r % 64) ∷ []
    else if ltb r 65536
    then (224 + r / 4096) ∷ (128 + r / 64 % 64) ∷ (128 + r % 64) ∷ []
    else (240 + r / 262144) ∷ (128 + r / 4096 % 64) ∷ (128 + r / 64 % 64) ∷ (128 + r % 64) ∷ []

unfoldable pub encode : List ℕ → Bytes
unfolding encode_rune
encode [] = []
encode (r ∷ rs) = encode_rune r ++ encode rs

-- filepath.Ext, of a name without a slash
unfoldable pub ext : Bytes → Bytes
ext [] = []
ext (x ∷ xs) = let rest = ext xs in if has dot xs then rest else if x == dot then x ∷ xs else []

-- How many bytes of a rune are to come, and the range of the next one.
pub record Due : Type 0 where
  pub count : ℕ
  pub low : ℕ
  pub high : ℕ

abbrev pub due : ℕ → ℕ → ℕ → Due
due n low high = record { count = n; low = low; high = high }

abbrev pub first_byte : ℕ → Option Due
first_byte a =
    if ltb a 128
    then some (due 0 0 0)
    else if ltb a 194
    then none
    else if ltb a 224
    then some (due 1 128 191)
    else if a == 224
    then some (due 2 160 191)
    else if a == 237
    then some (due 2 128 159)
    else if ltb a 240
    then some (due 2 128 191)
    else if a == 240
    then some (due 3 144 191)
    else if ltb a 244
    then some (due 3 128 191)
    else if a == 244
    then some (due 3 128 143)
    else none

abbrev pub next_byte : ℕ → Due → ℕ → Option Due
next_byte zero d a = first_byte a
next_byte (suc n) d a = if leb d.low a && leb a d.high then some (due n 128 191) else none

unfoldable pub valid_on : Due → Bytes → Bool
valid_on d [] = d.count == 0
valid_on d (a ∷ xs) = elim (next_byte d.count d a) [ none ↦ false | some d' ↦ valid_on d' xs ]

-- utf8ValidEnd: the whole of it is UTF-8.
abbrev pub valid_end : Bytes → Bool
valid_end s = valid_on (due 0 0 0) s

-- `for !utf8ValidEnd(name) { name = name[:len(name)-1] }`, from the first `n` bytes
unfoldable pub cut_back : ℕ → Bytes → Bytes
unfolding valid_on
cut_back zero s = []
cut_back (suc n) s =
    let shorter = cut_back n s in if valid_end (take (suc n) s) then take (suc n) s else shorter

abbrev pub kept_ext : Bytes → Bytes
kept_ext name = if ltb 20 (length (ext name)) then [] else ext name

abbrev pub cut_at : Bytes → Bytes
cut_at name = take (200 - length (kept_ext name)) name ++ kept_ext name

unfoldable pub shortened : Bytes → Bytes
unfolding cut_back ext
shortened name =
    if ltb 200 (length name) then cut_back (length (cut_at name)) (cut_at name) else name

unfoldable pub safe_name : List ℕ → Bytes
unfolding cleaned encode shortened
safe_name name = shortened (encode (cleaned name))
