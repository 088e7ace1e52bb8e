-- ===== src/Host/Names/Unique.antt =====
-- cmd/nc-host/files.go, uniquePath: a name that is free in the directory, and when it is found. Lstat
-- is a parameter; the names stand for the paths in the directory.
use mathlib.Core.List.{append_cancel_left, append_cancel_right}
use network_computer.Prelude.{
  ℕ, zero, suc, ◌-◌, ◌≡◌, ◌≢◌, ◌≤◌, ◌<◌, refl, sym, ap, Bool, true, false, ◌||◌, List, [], ◌∷◌,
  ◌++◌, Option, none, some, length, take, if◌then◌else◌, arith, length-append, length-take,
  Bool-cases, inl, inr,
}
use network_computer.Prelude.Bytes.{Bytes, bytes_eq, bytes_eq_iff, codes}
use network_computer.Prelude.Decimal.{format_int, format_int-injective}
use network_computer.Host.Names.{ext}

-- What Lstat answers.
pub data Stat : Type 0 where
  missing : Stat
  there : Stat
  unreadable : Stat

abbrev pub is_missing : Stat → Bool
is_missing missing = true
is_missing there = false
is_missing unreadable = false

-- `fmt.Sprintf("%s (%d)%s", stem, i, ext)`
abbrev pub numbered : Bytes → Bytes → ℕ → Bytes
numbered stem tail i = stem ++ (codes " (" ++ (format_int i ++ (codes ")" ++ tail)))

-- strings.TrimSuffix, of a suffix
abbrev pub stem_of : Bytes → Bytes
stem_of name = take (length name - length (ext name)) name

-- The loop, on fuel.
unfoldable pub unique_on : ℕ → (Bytes → Stat) → Bytes → Bytes → ℕ → Bytes → Option Bytes
unique_on zero lstat stem tail i p = none
unique_on (suc fuel) lstat stem tail i p =
    let rest = unique_on fuel lstat stem tail (suc i) (numbered stem tail i) in
    if is_missing (lstat p) then some p else rest

unfoldable pub unique_path : ℕ → (Bytes → Stat) → Bytes → Option Bytes
unfolding unique_on
unique_path fuel lstat name = unique_on fuel lstat (stem_of name) (ext name) 2 name

-- The names that are tried, from the first.
abbrev pub tried : Bytes → ℕ → Bytes
tried name zero = name
tried name (suc k) = numbered (stem_of name) (ext name) (suc (suc k))

length-ext : (xs : Bytes) → length (ext xs) ≤ length xs
unfolding ext
length-ext [] = omega arith
length-ext (x ∷ xs) = ground (arith, length-ext xs)

numbered-injective :
    (stem tail : Bytes) (i j : ℕ) → numbered stem tail i ≡ numbered stem tail j → i ≡ j
numbered-injective stem tail i j e =
    let inner = append_cancel_left (codes " (") _ _ (append_cancel_left stem _ _ e) in
    format_int-injective i j
      (append_cancel_right (format_int i) (format_int j) (codes ")" ++ tail) inner)

first_tried : (name : Bytes) (i : ℕ) → name ≢ numbered (stem_of name) (ext name) i
first_tried name i e = omega (
  arith,
  ap length e,
  length-append (stem_of name) (codes " (" ++ (format_int i ++ (codes ")" ++ ext name))),
  length-append (format_int i) (codes ")" ++ ext name),
  length-take (length name - length (ext name)) name,
  length-ext name,
)

tried-injective : (name : Bytes) (j k : ℕ) → tried name j ≡ tried name k → j ≡ k
tried-injective name zero zero e = refl
tried-injective name zero (suc k) e = absurd (first_tried name (suc (suc k)) e)
tried-injective name (suc j) zero e = absurd (first_tried name (suc (suc j)) (sym e))
tried-injective name (suc j) (suc k) e =
    omega (arith, numbered-injective (stem_of name) (ext name) (suc (suc j)) (suc (suc k)) e)

abbrev pub among : Bytes → List Bytes → Bool
among x [] = false
among x (y ∷ ys) = bytes_eq y x || among x ys

unfoldable without : Bytes → List Bytes → List Bytes
without x [] = []
without x (y ∷ ys) = let rest = without x ys in if bytes_eq y x then ys else y ∷ rest

length-without :
    (x : Bytes) (ys : List Bytes) → among x ys ≡ true → suc (length (without x ys)) ≡ length ys
unfolding without
length-without x [] e = absurd (ground (arith, e))
length-without x (y ∷ ys) e = ground (arith, e, length-without x ys)

among-without :
    (x z : Bytes) (ys : List Bytes)
    → bytes_eq x z ≡ false
    → among z ys ≡ true
    → among z (without x ys) ≡ true
unfolding without
among-without x z [] e h = h
among-without x z (y ∷ ys) e h =
    ground (arith, e, h, among-without x z ys, bytes_eq_iff y x, bytes_eq_iff y z)

module _ (lstat : Bytes → Stat) (name : Bytes) where
  unique_on-finds :
      (fuel k : ℕ) (names : List Bytes)
      → length names < fuel
      → ((j : ℕ)
          → k ≤ j
          → is_missing (lstat (tried name j)) ≡ false
          → among (tried name j) names ≡ true)
      → (p : Bytes) × (unique_on fuel lstat (stem_of name) (ext name) (suc (suc k)) (tried name k)
          ≡ some p)
        × (is_missing (lstat p) ≡ true)
  unfolding unique_on
  unique_on-finds zero k names enough taken = absurd (omega (arith, enough))
  unique_on-finds (suc fuel) k names enough taken =
      elim (Bool-cases (is_missing (lstat (tried name k)))) [
        | inl free ↦ (tried name k, ground (arith, free), free)
        | inr here ↦
            let (p, found, free) =
              unique_on-finds fuel (suc k) (without (tried name k) names)
                (omega
                  (arith, enough, length-without (tried name k) names (taken k (omega arith) here)))
                (later here) in
            (p, ground (arith, here, found), free)
      ]
    where
      later :
          is_missing (lstat (tried name k)) ≡ false
          → (j : ℕ) → suc k ≤ j
          → is_missing (lstat (tried name j)) ≡ false
          → among (tried name j) (without (tried name k) names) ≡ true
      later here j h e =
          among-without (tried name k) (tried name j) names (other j h)
            (taken j (omega (arith, h)) e)
        where
          other : (j : ℕ) → suc k ≤ j → bytes_eq (tried name k) (tried name j) ≡ false
          other j h = elim (Bool-cases (bytes_eq (tried name k) (tried name j))) [
            | inl same ↦ absurd (
                omega (
                  arith,
                  h,
                  tried-injective name k j ((bytes_eq_iff (tried name k) (tried name j)).0 same),
                ))
            | inr differ ↦ differ
          ]

  -- When Lstat can read the directory, the loop ends: as many rounds as there are names in it, and one
  -- more, give a name that is free.
  pub unique_path_found :
      (names : List Bytes)
      → ((p : Bytes) → is_missing (lstat p) ≡ false → among p names ≡ true)
      → (p : Bytes) × (unique_path (suc (length names)) lstat name ≡ some p)
        × (is_missing (lstat p) ≡ true)
  unfolding unique_path
  unique_path_found names taken =
      unique_on-finds (suc (length names)) 0 names (omega arith) (λ j h e. taken (tried name j) e)

unique_on-endless :
    (lstat : Bytes → Stat) (fuel : ℕ) (stem tail : Bytes) (i : ℕ) (p : Bytes)
    → ((q : Bytes) → lstat q ≡ unreadable)
    → unique_on fuel lstat stem tail i p ≡ none
unfolding unique_on
unique_on-endless lstat zero stem tail i p fails = refl
unique_on-endless lstat (suc fuel) stem tail i p fails =
    rw (fails p) (unique_on-endless lstat fuel stem tail (suc i) (numbered stem tail i) fails)

-- When Lstat fails for every name in another way than that it is missing, no number of rounds is enough:
-- the loop never ends.
pub endless_path :
    (fuel : ℕ) (lstat : Bytes → Stat) (name : Bytes)
    → ((p : Bytes) → lstat p ≡ unreadable)
    → unique_path fuel lstat name ≡ none
unfolding unique_path
endless_path fuel lstat name fails =
    unique_on-endless lstat fuel (stem_of name) (ext name) 2 name fails
