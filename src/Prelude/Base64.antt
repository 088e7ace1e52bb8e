-- ===== src/Prelude/Base64.antt =====
-- base64.RawURLEncoding: six bits to a character, no padding, line breaks skipped on the way back.
use Prim.Native.Nat.{ℕ, ◌+◌, ◌-◌, ◌*◌, ◌/◌, ◌%◌, ◌<◌}
use mathlib.Core.Path.{◌≡◌, refl}
use mathlib.Core.Logic.{◌≢◌}
use mathlib.Core.Bool.{◌&&◌, ◌||◌}
use mathlib.Core.List.{List, [], ◌∷◌}
use mathlib.Core.Option.{Option, none, some}
use native.Mathlib.Omega.{arith}
use network_computer.Prelude.Bytes.{Bytes, Lacks, codes}
use network_computer.Prelude.Lists.{All}
use network_computer.Prelude.Tests.{ltb, leb, ◌==◌, if◌then◌else◌, ◌>>=◌}

abbrev pub IsByte : ℕ → Type 0
IsByte b = b < 256

-- The alphabet.
letter : ℕ → ℕ
letter v =
    if ltb v 26
    then b'A' + v
    else if ltb v 52
    then b'a' + (v - 26)
    else if ltb v 62
    then b'0' + (v - 52)
    else if v == 62
    then b'-'
    else b'_'

letter_value : ℕ → Option ℕ
letter_value c =
    if leb b'A' c && leb c b'Z'
    then some (c - b'A')
    else if leb b'a' c && leb c b'z'
    then some (c - b'a' + 26)
    else if leb b'0' c && leb c b'9'
    then some (c - b'0' + 52)
    else if c == b'-'
    then some 62
    else if c == b'_'
    then some 63
    else none

unfoldable pub encode : Bytes → Bytes
unfolding letter
encode [] = []
encode (a ∷ []) = letter (a / 4) ∷ letter (a % 4 * 16) ∷ []
encode (a ∷ b ∷ []) = letter (a / 4) ∷ letter (a % 4 * 16 + b / 16) ∷ letter (b % 16 * 4) ∷ []
encode (a ∷ b ∷ c ∷ s) =
    letter (a / 4)
    ∷ letter (a % 4 * 16 + b / 16)
    ∷ letter (b % 16 * 4 + c / 64)
    ∷ letter (c % 64)
    ∷ encode s

sextets : Bytes → Option (List ℕ)
unfolding letter_value
sextets [] = some []
sextets (c ∷ s) =
    let rest = sextets s in
    if c == 10 || c == 13 then rest else do v ← letter_value c; vs ← rest; some (v ∷ vs)

-- A single character left over is an error; bits left over are dropped.
octets : List ℕ → Option Bytes
octets [] = some []
octets (p ∷ []) = none
octets (p ∷ q ∷ []) = some ((p * 4 + q / 16) ∷ [])
octets (p ∷ q ∷ r ∷ []) = some ((p * 4 + q / 16) ∷ (q % 16 * 16 + r / 4) ∷ [])
octets (p ∷ q ∷ r ∷ t ∷ vs) = do
  s ← octets vs
  some ((p * 4 + q / 16) ∷ (q % 16 * 16 + r / 4) ∷ (r % 4 * 64 + t) ∷ s)

unfoldable pub decode : Bytes → Option Bytes
unfolding sextets octets
decode s = do vs ← sextets s; octets vs

sextets-letter :
    (v : ℕ) (s : Bytes) (vs : List ℕ)
    → v < 64
    → sextets s ≡ some vs
    → sextets (letter v ∷ s) ≡ some (v ∷ vs)
unfolding sextets letter
sextets-letter v s vs h e = ground arith

-- What `encode` writes, read back six bits at a time.
pieces : Bytes → List ℕ
pieces [] = []
pieces (a ∷ []) = a / 4 ∷ a % 4 * 16 ∷ []
pieces (a ∷ b ∷ []) = a / 4 ∷ (a % 4 * 16 + b / 16) ∷ b % 16 * 4 ∷ []
pieces (a ∷ b ∷ c ∷ s) = a / 4 ∷ (a % 4 * 16 + b / 16) ∷ (b % 16 * 4 + c / 64) ∷ c % 64 ∷ pieces s

sextets-encode : (s : Bytes) → All IsByte s → sextets (encode s) ≡ some (pieces s)
unfolding encode pieces
sextets-encode [] h = unfold sextets in refl
sextets-encode (a ∷ []) h =
    sextets-letter _ _ _ (omega arith)
      (sextets-letter _ [] [] (omega arith) (unfold sextets in refl))
sextets-encode (a ∷ b ∷ []) h = sextets-letter _ _ _ (omega arith) (
    sextets-letter _ _ _ (omega arith)
      (sextets-letter _ [] [] (omega arith) (unfold sextets in refl)))
sextets-encode (a ∷ b ∷ c ∷ s) h = sextets-letter _ _ _ (omega arith) (
    sextets-letter _ _ _ (omega arith) (
      sextets-letter _ _ _ (omega arith)
        (sextets-letter _ _ _ (omega arith) (sextets-encode s h.1.1.1))))

octets-pieces : (s : Bytes) → All IsByte s → octets (pieces s) ≡ some s
unfolding octets pieces
octets-pieces [] h = refl
octets-pieces (a ∷ []) h = ground arith
octets-pieces (a ∷ b ∷ []) h = ground arith
octets-pieces (a ∷ b ∷ c ∷ s) h = ground (arith, octets-pieces s)

pub decode-encode : (s : Bytes) → All IsByte s → decode (encode s) ≡ some s
unfolding decode
decode-encode s h = rw (sextets-encode s h) (octets-pieces s h)

letter-ne_dot : (v : ℕ) → letter v ≢ b'.'
unfolding letter
letter-ne_dot v = ground arith

pub encode-Lacks_dot : (s : Bytes) → Lacks b'.' (encode s)
unfolding encode
encode-Lacks_dot [] = tt
encode-Lacks_dot (a ∷ []) = (letter-ne_dot (a / 4), (letter-ne_dot (a % 4 * 16), tt))
encode-Lacks_dot (a ∷ b ∷ []) =
    (letter-ne_dot (a / 4), (letter-ne_dot (a % 4 * 16 + b / 16), (letter-ne_dot (b % 16 * 4), tt)))
encode-Lacks_dot (a ∷ b ∷ c ∷ s) = (
  letter-ne_dot (a / 4),
  (
    letter-ne_dot (a % 4 * 16 + b / 16),
    (letter-ne_dot (b % 16 * 4 + c / 64), (letter-ne_dot (c % 64), encode-Lacks_dot s)),
  ),
)

encode_text : encode (codes "nc|7") ≡ codes "bmN8Nw"
unfolding encode
encode_text = refl

decode_text : decode (codes "bmN8\nNw") ≡ some (codes "nc|7")
unfolding decode
decode_text = refl
