-- ===== src/Prelude/Decimal.antt =====
-- Decimal text: `%d` of a number that is not negative, and strconv.ParseInt(s, 10, 64).
use Prim.Native.Nat.{ℕ, zero, suc, ◌+◌, ◌-◌, ◌*◌, ◌/◌, ◌%◌, ◌^◌, ◌≤◌, ◌<◌}
use mathlib.Core.Path.{◌≡◌, refl, ◌∙◌}
use mathlib.Core.Logic.{◌≢◌, inl, inr}
use mathlib.Core.Bool.{Bool, true, false, ◌&&◌}
use mathlib.Core.List.{[], ◌∷◌, ◌++◌}
use mathlib.Core.List.{concat-ne-nil}
use mathlib.Core.Option.{Option, none, some}
use native.Mathlib.Omega.{arith}
use network_computer.Prelude.Bytes.{Bytes, Lacks}
use network_computer.Prelude.Lists.{All, All-append}
use network_computer.Prelude.Tests.{ltb, leb, ◌==◌, if◌then◌else◌, Bool-cases}

-- Most significant digit first; `n < 10 ^ fuel` is enough fuel, and so is `n < fuel`.
digits_on : ℕ → ℕ → Bytes
digits_on zero n = []
digits_on (suc f) n =
    let rest = digits_on f (n / 10) in
    if ltb n 10 then (b'0' + n) ∷ [] else rest ++ (b'0' + n % 10) ∷ []

-- `fmt.Sprintf("%d", n)`
unfoldable pub format_int : ℕ → Bytes
unfolding digits_on
format_int n = digits_on (suc n) n

-- The value of a run of digits, `none` on any other byte.
unfoldable pub digits_value : ℕ → Bytes → Option ℕ
digits_value acc [] = some acc
digits_value acc (c ∷ s) =
    if leb b'0' c && leb c b'9' then digits_value (acc * 10 + (c - b'0')) s else none

-- `negsuc n` is -(n + 1).
pub data ℤ : Type 0 where
  pos : ℕ → ℤ
  negsuc : ℕ → ℤ

-- ParseInt of the digits behind a sign; a value out of the range of int64 is an error.
parse_magnitude : Bool → Bytes → Option ℤ
parse_magnitude neg [] = none
parse_magnitude neg (c ∷ s) = elim (digits_value 0 (c ∷ s)) [
  | none ↦ none
  | some n ↦
      if neg
      then (if ltb (2 ^ 63) n then none else if n == 0 then some (pos 0) else some (negsuc (n - 1)))
      else if leb (2 ^ 63) n
      then none
      else some (pos n)
]

-- `strconv.ParseInt(s, 10, 64)`; `none` is an error.
unfoldable pub parse_int : Bytes → Option ℤ
unfolding parse_magnitude digits_value
parse_int [] = none
parse_int (c ∷ s) =
    if c == b'-'
    then parse_magnitude true s
    else if c == b'+'
    then parse_magnitude false s
    else parse_magnitude false (c ∷ s)

digits_value-append :
    (acc v : ℕ) (s t : Bytes)
    → digits_value acc s ≡ some v
    → digits_value acc (s ++ t) ≡ digits_value v t
unfolding digits_value
digits_value-append acc v [] t h = ground arith
digits_value-append acc v (c ∷ s) t h =
    ground (arith, digits_value-append (acc * 10 + (c - b'0')) v s t)

digits_value-digits_on : (f n : ℕ) → n < f → digits_value 0 (digits_on f n) ≡ some n
unfolding digits_on digits_value
digits_value-digits_on zero n h = absurd (omega arith)
digits_value-digits_on (suc f) n h = elim (Bool-cases (ltb n 10)) [
  | inl small ↦ rw small (ground arith)
  | inr big ↦ rw big (
      digits_value-append 0 (n / 10) (digits_on f (n / 10)) ((b'0' + n % 10) ∷ [])
        (digits_value-digits_on f (n / 10) (ground arith))
      ∙ ground arith)
]

abbrev IsDigit : ℕ → Type 0
IsDigit c = (b'0' ≤ c) × (c ≤ b'9')

digits_on-IsDigit : (f n : ℕ) → All IsDigit (digits_on f n)
unfolding digits_on
digits_on-IsDigit zero n = tt
digits_on-IsDigit (suc f) n = elim (Bool-cases (ltb n 10)) [
  | inl small ↦ rw small ((omega arith, ground arith), tt)
  | inr big ↦ rw big (
      All-append IsDigit (digits_on f (n / 10)) _ (digits_on-IsDigit f (n / 10))
        ((omega arith, omega arith), tt))
]

pub format_int-Lacks : (c n : ℕ) → b'9' < c → Lacks c (format_int n)
unfolding format_int
format_int-Lacks c n h = lacks (digits_on (suc n) n) (digits_on-IsDigit (suc n) n)
  where
    lacks : (s : Bytes) → All IsDigit s → Lacks c s
    lacks [] d = tt
    lacks (b ∷ s) d = (omega arith, lacks s d.1)

digits_on-ne-nil : (f n : ℕ) → digits_on (suc f) n ≢ []
unfolding digits_on
digits_on-ne-nil f n h = ground (arith, concat-ne-nil (b'0' + n % 10) (digits_on f (n / 10)))

parse_int-digits :
    (n : ℕ) (s : Bytes)
    → s ≢ []
    → All IsDigit s
    → digits_value 0 s ≡ some n
    → n < 2 ^ 63
    → parse_int s ≡ some (pos n)
unfolding parse_int
parse_int-digits n [] e d h lt = absurd (e refl)
parse_int-digits n (c ∷ s) e d h lt = ground arith

-- What `%d` prints, ParseInt reads back, in the range of int64.
pub parse_int-format_int : (n : ℕ) → n < 2 ^ 63 → parse_int (format_int n) ≡ some (pos n)
unfolding format_int
parse_int-format_int n h =
    parse_int-digits n (digits_on (suc n) n) (digits_on-ne-nil n n) (digits_on-IsDigit (suc n) n)
      (digits_value-digits_on (suc n) n (omega arith)) h

pub format_int-bytes : (n : ℕ) → All (λ b. b < 256) (format_int n)
unfolding format_int
format_int-bytes n = bytes (digits_on (suc n) n) (digits_on-IsDigit (suc n) n)
  where
    bytes : (s : Bytes) → All IsDigit s → All (λ b. b < 256) s
    bytes [] d = tt
    bytes (b ∷ s) d = (omega arith, bytes s d.1)

pub format_int-injective : (m n : ℕ) → format_int m ≡ format_int n → m ≡ n
unfolding format_int
format_int-injective m n h =
    cc (
      digits_value-digits_on (suc m) m (omega arith),
      digits_value-digits_on (suc n) n (omega arith),
    )
