-- ===== src/Prelude/Hex.antt =====
-- What the program uses of encoding/hex.
use Prim.Native.Nat.{ℕ, ◌+◌, ◌*◌, ◌-◌, ◌/◌, ◌%◌, ◌<◌}
use mathlib.Core.Path.{◌≡◌, refl, ap}
use mathlib.Core.Bool.{Bool, true, ◌&&◌, ◌||◌}
use mathlib.Core.List.{[], ◌∷◌}
use mathlib.Core.Option.{Option, none, some}
use native.Mathlib.Omega.{arith}
use network_computer.Prelude.Base64.{IsByte}
use network_computer.Prelude.Bytes.{Bytes}
use network_computer.Prelude.Lists.{All}
use network_computer.Prelude.Tests.{ltb, leb, if◌then◌else◌}

unfoldable pub digit : ℕ → ℕ
digit n = if ltb n 10 then b'0' + n else b'a' + (n - 10)

-- `hex.EncodeToString`
unfoldable pub encode : Bytes → Bytes
unfolding digit
encode [] = []
encode (b ∷ s) = digit (b / 16) ∷ digit (b % 16) ∷ encode s

-- The digit's value, of either case.
unfoldable pub value : ℕ → Option ℕ
value c =
    if leb b'0' c && leb c b'9'
    then some (c - b'0')
    else if leb b'a' c && leb c b'f'
    then some (c - b'a' + 10)
    else if leb b'A' c && leb c b'F'
    then some (c - b'A' + 10)
    else none

-- The byte of two digits.
unfoldable pub pair_value : Option ℕ → Option ℕ → Option ℕ
pair_value (some h) (some l) = some (h * 16 + l)
pair_value (some h) none = none
pair_value none l = none

abbrev pub cons : Option ℕ → Option Bytes → Option Bytes
cons (some b) (some s) = some (b ∷ s)
cons (some b) none = none
cons none s = none

-- `hex.DecodeString`, `none` for its error
unfoldable pub decode : Bytes → Option Bytes
unfolding value pair_value
decode [] = some []
decode (h ∷ []) = none
decode (h ∷ l ∷ s) = cons (pair_value (value h) (value l)) (decode s)

value-digit : (n : ℕ) → n < 16 → value (digit n) ≡ some n
unfolding value digit
value-digit n h = ground arith

byte_value :
    (b : ℕ) → IsByte b → pair_value (value (digit (b / 16))) (value (digit (b % 16))) ≡ some b
unfolding pair_value
byte_value b h =
    rw (value-digit (b / 16) (omega arith), value-digit (b % 16) (omega arith))
      (ap some (omega arith))

-- What is encoded is decoded.
pub decode-encode : (s : Bytes) → All IsByte s → decode (encode s) ≡ some s
unfolding decode encode
decode-encode [] h = refl
decode-encode (b ∷ s) (h, hs) = rw (byte_value b h, decode-encode s hs)

-- A lower-case hex digit.
abbrev pub is_hex : ℕ → Bool
is_hex c = leb b'0' c && leb c b'9' || leb b'a' c && leb c b'f'

digit_hex : (n : ℕ) → n < 16 → is_hex (digit n) ≡ true
unfolding digit
digit_hex n h = ground arith

pub encode_hex : (s : Bytes) → All IsByte s → All (λ c. is_hex c ≡ true) (encode s)
unfolding encode
encode_hex [] h = tt
encode_hex (b ∷ s) (h, hs) =
    (digit_hex (b / 16) (omega arith), (digit_hex (b % 16) (omega arith), encode_hex s hs))

-- Texts with one encoding are one text.
pub encode_inj : (s t : Bytes) → All IsByte s → All IsByte t → encode s ≡ encode t → s ≡ t
encode_inj s t hs ht e = ground (arith, decode-encode s hs, decode-encode t ht)
