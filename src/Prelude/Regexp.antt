-- ===== src/Prelude/Regexp.antt =====
-- What the program's patterns use of package regexp: expressions between ^ and $, which MatchString
-- compares with a whole text, byte after byte; a pattern's characters are ASCII.
pub mod Language
use Prim.Native.Nat.{ℕ, zero, suc, ◌-◌}
use mathlib.Core.Bool.{Bool, true, false, ◌&&◌, ◌||◌}
use mathlib.Core.List.{List, [], ◌∷◌}
use network_computer.Prelude.Bytes.{Bytes}
use network_computer.Prelude.Tests.{◌==◌, leb, if◌then◌else◌}

pub data Regexp : Type 0 where
  nothing : Regexp
  empty : Regexp
  class : (ℕ → Bool) → Regexp  -- a byte of a class, as [0-9]
  seq : Regexp → Regexp → Regexp
  alt : Regexp → Regexp → Regexp
  star : Regexp → Regexp

abbrev pub range : ℕ → ℕ → ℕ → Bool
range a z c = leb a c && leb c z

-- A byte of the pattern that stands for itself.
abbrev pub byte : ℕ → Regexp
byte b = class (λ c. c == b)

-- Bytes that stand for themselves.
abbrev pub text : Bytes → Regexp
text [] = empty
text (b ∷ s) = seq (byte b) (text s)

abbrev pub plus : Regexp → Regexp
plus a = seq a (star a)

abbrev pub opt : Regexp → Regexp
opt a = alt empty a

-- `a{0,n}`
abbrev pub at_most : ℕ → Regexp → Regexp
at_most zero a = empty
at_most (suc n) a = opt (seq a (at_most n a))

-- `a{m,n}`
abbrev pub between : ℕ → ℕ → Regexp → Regexp
between zero n a = at_most n a
between (suc m) n a = seq a (between m (n - 1) a)

unfoldable pub has_empty : Regexp → Bool
has_empty nothing = false
has_empty empty = true
has_empty (class k) = false
has_empty (seq a b) = has_empty a && has_empty b
has_empty (alt a b) = has_empty a || has_empty b
has_empty (star a) = true

-- What has to follow the byte `c`.
unfoldable pub after : ℕ → Regexp → Regexp
unfolding has_empty
after c nothing = nothing
after c empty = nothing
after c (class k) = if k c then empty else nothing
after c (seq a b) =
    let rest = after c b in alt (seq (after c a) b) (if has_empty a then rest else nothing)
after c (alt a b) = alt (after c a) (after c b)
after c (star a) = seq (after c a) (star a)

-- `regexp.MatchString(s)` of the pattern ^r$
unfoldable pub match_string : Regexp → Bytes → Bool
unfolding has_empty after
match_string r [] = has_empty r
match_string r (c ∷ s) = match_string (after c r) s
