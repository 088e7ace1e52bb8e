-- ===== src/Prelude/Bytes.antt =====
-- Go strings and byte slices as lists of bytes, with what the program uses of package strings.
use Prim.Native.Char.{code}
use Prim.Native.String.{String}
use Prim.Native.Nat.{ℕ, zero, suc, ◌+◌}
use mathlib.Core.Path.{◌≡◌, refl, ap}
use mathlib.Core.Logic.{◌↔◌, ◌≢◌, inl, inr}
use mathlib.Core.Bool.{Bool, true, false, ◌&&◌, ◌||◌}
use mathlib.Core.List.{List, [], ◌∷◌, ◌++◌}
use mathlib.Core.Option.{Option, none, some}
use native.Mathlib.Omega.{arith}
use network_computer.Prelude.Keys.{Eq}
use network_computer.Prelude.Lists.{length, take, drop, drop-append, All, is_nil, replicate}
use network_computer.Prelude.Tests.{◌==◌, if◌then◌else◌, Option-cases, Bool-cases}

abbrev pub Bytes : Type 0
Bytes = List ℕ

-- A literal of the source; its code points are its bytes when it is ASCII.
abbrev pub codes : String → Bytes
codes String.[] = []
codes (String.◌∷◌ c s) = code c ∷ codes s

unfoldable pub bytes_eq : Bytes → Bytes → Bool
bytes_eq [] [] = true
bytes_eq [] (b ∷ t) = false
bytes_eq (a ∷ s) [] = false
bytes_eq (a ∷ s) (b ∷ t) = a == b && bytes_eq s t

pub bytes_eq_sound : (s t : Bytes) → bytes_eq s t ≡ true → s ≡ t
unfolding bytes_eq
bytes_eq_sound [] [] h = refl
bytes_eq_sound [] (b ∷ t) h = cc
bytes_eq_sound (a ∷ s) [] h = cc
bytes_eq_sound (a ∷ s) (b ∷ t) h = ground (arith, bytes_eq_sound s t)

bytes_eq_refl : (s : Bytes) → bytes_eq s s ≡ true
unfolding bytes_eq
bytes_eq_refl [] = refl
bytes_eq_refl (a ∷ s) = ground (arith, bytes_eq_refl s)

pub bytes_eq_iff : (s t : Bytes) → (bytes_eq s t ≡ true) ↔ (s ≡ t)
bytes_eq_iff s t = (bytes_eq_sound s t, λ e. rw e (bytes_eq_refl t))

instance abbrev pub bytes_key : Eq Bytes
bytes_key = record { beq = bytes_eq; beq_iff = bytes_eq_iff }

-- `strings.HasPrefix(s, prefix)`
unfoldable pub has_prefix : Bytes → Bytes → Bool
has_prefix s [] = true
has_prefix [] (p ∷ ps) = false
has_prefix (c ∷ s) (p ∷ ps) = c == p && has_prefix s ps

-- `strings.TrimPrefix(s, prefix)`
unfoldable pub trim_prefix : Bytes → Bytes → Bytes
unfolding has_prefix
trim_prefix s p = if has_prefix s p then drop (length p) s else s

pub has_prefix-append : (p s : Bytes) → has_prefix (p ++ s) p ≡ true
unfolding has_prefix
has_prefix-append [] s = refl
has_prefix-append (c ∷ p) s = ground (arith, has_prefix-append p s)

pub has_prefix_split : (s p : Bytes) → has_prefix s p ≡ true → s ≡ p ++ drop (length p) s
unfolding has_prefix
has_prefix_split s [] h = refl
has_prefix_split [] (p ∷ ps) h = cc
has_prefix_split (c ∷ s) (p ∷ ps) h = ground (arith, has_prefix_split s ps)

pub trim_prefix-append : (p s : Bytes) → trim_prefix (p ++ s) p ≡ s
unfolding trim_prefix
trim_prefix-append p s = rw (has_prefix-append p s) (drop-append p s)

-- No byte of the text is `c`.
abbrev pub Lacks : ℕ → Bytes → Type 0
Lacks c = All (λ b. b ≢ c)

-- `strings.LastIndex(s, sep)` for a separator of one byte; `none` is -1.
unfoldable pub last_index : ℕ → Bytes → Option ℕ
last_index c [] = none
last_index c (b ∷ s) = elim (last_index c s) [
  | some i ↦ some (suc i)
  | none ↦ if b == c then some 0 else none
]

last_index-Lacks : (c : ℕ) (s : Bytes) → Lacks c s → last_index c s ≡ none
unfolding last_index
last_index-Lacks c [] h = refl
last_index-Lacks c (b ∷ s) h = ground (arith, last_index-Lacks c s h.1)

-- The last separator is the one that none follows.
pub last_index-append :
    (c : ℕ) (s t : Bytes) → Lacks c t → last_index c (s ++ c ∷ t) ≡ some (length s)
unfolding last_index
last_index-append c [] t h = ground (arith, last_index-Lacks c t h)
last_index-append c (b ∷ s) t h = ground (arith, last_index-append c s t h)

-- `strings.Split(s, sep)` for a separator of one byte: the first piece, and those after it.
unfoldable pub split_at : ℕ → Bytes → Bytes × List Bytes
split_at c [] = ([], [])
split_at c (b ∷ s) = let (p, ps) = split_at c s in if b == c then ([], p ∷ ps) else (b ∷ p, ps)

unfoldable pub split : ℕ → Bytes → List Bytes
unfolding split_at
split c s = let (p, ps) = split_at c s in p ∷ ps

pub split-Lacks : (c : ℕ) (s : Bytes) → Lacks c s → split_at c s ≡ (s, [])
unfolding split_at
split-Lacks c [] h = refl
split-Lacks c (b ∷ s) h = ground (arith, split-Lacks c s h.1)

pub split_at-append : (c : ℕ) (s t : Bytes) → Lacks c s → split_at c (s ++ c ∷ t) ≡ (s, split c t)
unfolding split split_at
split_at-append c [] t h = ground arith
split_at-append c (b ∷ s) t h = ground (arith, split_at-append c s t h.1)

pub last_index_split :
    (c : ℕ) (s : Bytes) {i : ℕ} → last_index c s ≡ some i → s ≡ take i s ++ c ∷ drop (suc i) s
unfolding last_index
last_index_split c [] h = cc
last_index_split c (b ∷ s) {i} h = elim (Option-cases (last_index c s)) [
  | inl e ↦ ground (arith)
  | inr (j, e) ↦ ground (arith, last_index_split c s e)
]

-- How often a byte stands in the text.
unfoldable pub count : ℕ → Bytes → ℕ
count c [] = 0
count c (b ∷ s) = (if b == c then 1 else 0) + count c s

pub count-append : (c : ℕ) (s t : Bytes) → count c (s ++ t) ≡ count c s + count c t
unfolding count
count-append c [] t = omega arith
count-append c (b ∷ s) t = ground (arith, count-append c s t)

pub length-split : (c : ℕ) (s : Bytes) → length (split c s) ≡ suc (count c s)
unfolding split count
length-split c [] = refl
length-split c (b ∷ s) = ground (arith, length-split c s)

-- `strings.Contains(s, sub)`
unfoldable pub contains : Bytes → Bytes → Bool
unfolding has_prefix
contains [] p = is_nil p
contains (c ∷ s) p = has_prefix (c ∷ s) p || contains s p

-- `strings.TrimRight(s, cutset)` for a cutset of one byte
unfoldable pub trim_right : ℕ → Bytes → Bytes
trim_right c [] = []
trim_right c (b ∷ s) = elim (trim_right c s) [
  | [] ↦ if b == c then [] else b ∷ []
  | x ∷ t ↦ b ∷ x ∷ t
]

contains_sound : (s p : Bytes) → contains s p ≡ true → (a b : Bytes) × (s ≡ a ++ (p ++ b))
unfolding contains
contains_sound [] [] h = ([], [], refl)
contains_sound [] (x ∷ p) h = cc
contains_sound (c ∷ s) p h = elim (Bool-cases (has_prefix (c ∷ s) p)) [
  | inl e ↦ ([], drop (length p) (c ∷ s), has_prefix_split (c ∷ s) p e)
  | inr e ↦ let (a, b, k) = contains_sound s p (ground arith) in (c ∷ a, b, ap (◌∷◌ c) k)
]

contains_complete : (a p b : Bytes) → contains (a ++ (p ++ b)) p ≡ true
unfolding contains
contains_complete [] [] [] = refl
contains_complete [] [] (c ∷ b) = ground (arith, has_prefix-append [] (c ∷ b))
contains_complete [] (x ∷ p) b = ground (arith, has_prefix-append (x ∷ p) b)
contains_complete (c ∷ a) p b = ground (arith, contains_complete a p b)

pub contains_iff : (s p : Bytes) → (contains s p ≡ true) ↔ ((a b : Bytes) × (s ≡ a ++ (p ++ b)))
contains_iff s p = (contains_sound s p, λ (a, b, e). rw e (contains_complete a p b))

trim_right-replicate : (c k : ℕ) → trim_right c (replicate k c) ≡ []
unfolding trim_right
trim_right-replicate c zero = refl
trim_right-replicate c (suc k) = ground (arith, trim_right-replicate c k)

trim_right_step :
    (c x y : ℕ) (s t : Bytes) → trim_right c s ≡ y ∷ t → trim_right c (x ∷ s) ≡ x ∷ y ∷ t
unfolding trim_right
trim_right_step c x y s t h = rw h

-- What is trimmed is separators alone, and none of them is left at the end.
pub trim_right-append :
    (c : ℕ) (s : Bytes) (b k : ℕ) → b ≢ c → trim_right c (s ++ b ∷ replicate k c) ≡ s ++ b ∷ []
unfolding trim_right
trim_right-append c [] b k h = ground (arith, trim_right-replicate c k)
trim_right-append c (x ∷ []) b k h =
    trim_right_step c x b (b ∷ replicate k c) [] (trim_right-append c [] b k h)
trim_right-append c (x ∷ y ∷ s) b k h =
    trim_right_step c x y (y ∷ s ++ b ∷ replicate k c) (s ++ b ∷ [])
      (trim_right-append c (y ∷ s) b k h)
