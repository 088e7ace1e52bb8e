-- ===== src/Prelude/Trim.antt =====
-- Trimming texts of ASCII, as package strings does.
use Prim.Native.Nat.{ℕ}
use mathlib.Core.Path.{◌≡◌, refl}
use mathlib.Core.Bool.{Bool, false, ◌&&◌, ◌||◌}
use mathlib.Core.List.{[], ◌∷◌, ◌++◌}
use native.Mathlib.Omega.{arith}
use network_computer.Prelude.Bytes.{Bytes}
use network_computer.Prelude.Lists.{All}
use network_computer.Prelude.Tests.{◌==◌, leb, if◌then◌else◌}

-- `unicode.IsSpace`
abbrev pub is_space : ℕ → Bool
is_space c = c == 32 || leb 9 c && leb c 13

-- Without the bytes of a kind in front.
unfoldable pub trim_left : (ℕ → Bool) → Bytes → Bytes
trim_left k [] = []
trim_left k (c ∷ s) = if k c then trim_left k s else c ∷ s

-- Without the bytes of a kind at the end.
unfoldable pub trim_end : (ℕ → Bool) → Bytes → Bytes
trim_end k [] = []
trim_end k (c ∷ s) = elim (trim_end k s) [ [] ↦ if k c then [] else c ∷ [] | d ∷ t ↦ c ∷ d ∷ t ]

-- `strings.TrimSpace`
unfoldable pub trim_space : Bytes → Bytes
unfolding trim_left trim_end
trim_space s = trim_end is_space (trim_left is_space s)

trim_end_step :
    (k : ℕ → Bool) (c d : ℕ) (s t : Bytes) → trim_end k s ≡ d ∷ t → trim_end k (c ∷ s) ≡ c ∷ d ∷ t
unfolding trim_end
trim_end_step k c d s t e = rw e

-- A text of other bytes comes out of a line whole.
trim_end_line : (s : Bytes) → All (λ c. is_space c ≡ false) s → trim_end is_space (s ++ 10 ∷ []) ≡ s
unfolding trim_end
trim_end_line [] h = refl
trim_end_line (c ∷ []) (h, hs) = ground arith
trim_end_line (c ∷ d ∷ s) (h, hs) =
    trim_end_step is_space c d (d ∷ s ++ 10 ∷ []) s (trim_end_line (d ∷ s) hs)

pub trim_space_line : (s : Bytes) → All (λ c. is_space c ≡ false) s → trim_space (s ++ 10 ∷ []) ≡ s
unfolding trim_space trim_left
trim_space_line [] h = refl
trim_space_line (c ∷ s) (h, hs) = rw h (trim_end_line (c ∷ s) (h, hs))
