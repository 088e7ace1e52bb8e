-- ===== src/Host/Capture/Nals/Code.antt =====
-- Start codes in a stream, and the units that lie between them.
use network_computer.Prelude.{
  All, append-nil, subst, ℕ, zero, suc, ◌+◌, ◌≤◌, ◌<◌, ◌≡◌, refl, sym, ap, ◌∙◌, Bool, true, false,
  not, List, [], ◌∷◌, ◌++◌, Option, none, some, is_nil, length, get_or, take, drop, ltb, ◌==◌,
  if◌then◌else◌, arith, Option-cases, Bool-cases, inl, inr, append_assoc, append-nil,
}
use native.Mathlib.Numerals.{unary_clauses}
use network_computer.Prelude.Bytes.{Bytes}
use network_computer.Host.Capture.Units.{annex_b}
use network_computer.Host.Capture.Nals.{is_code, index_code}

-- A unit's bytes, less the 0 of a start code of four bytes behind it.
unfoldable pub trim : Bytes → Bytes
trim [] = []
trim (x ∷ []) = if x == 0 then [] else x ∷ []
trim (x ∷ y ∷ ys) = x ∷ trim (y ∷ ys)

abbrev pub closed : Bool → Bytes → List Bytes
closed false unit = []
closed true unit = trim unit ∷ []

abbrev pub rest_unit : Bool → Bytes → List Bytes
rest_unit false unit = []
rest_unit true unit = if is_nil unit then [] else unit ∷ []

-- The units of a stream, byte after byte: `inside` tells that a start code has come, and `unit` has
-- the bytes since then.
unfoldable pub units : Bool → Bytes → Bytes → List Bytes
unfolding trim
units inside unit [] = rest_unit inside unit
units inside unit (a ∷ []) = rest_unit inside (unit ++ a ∷ [])
units inside unit (a ∷ b ∷ []) = rest_unit inside (unit ++ a ∷ b ∷ [])
units inside unit (a ∷ b ∷ c ∷ xs) =
    let later = units inside (unit ++ a ∷ []) (b ∷ c ∷ xs) in
    let next = units true [] xs in if is_code a b c then closed inside unit ++ next else later

-- What `units` does up to the first start code.
abbrev pub at_code : Bool → Bytes → Bytes → Option ℕ → List Bytes
at_code inside unit p none = rest_unit inside (unit ++ p)
at_code inside unit p (some i) =
    closed inside (unit ++ take i p) ++ units true [] (drop (suc (suc (suc i))) p)

pub units-at_code :
    (inside : Bool) (unit p : Bytes) → units inside unit p ≡ at_code inside unit p (index_code p)
unfolding units index_code
units-at_code inside unit [] = ap (rest_unit inside) (sym (append-nil unit))
units-at_code inside unit (a ∷ []) = refl
units-at_code inside unit (a ∷ b ∷ []) = refl
units-at_code inside unit (a ∷ b ∷ c ∷ xs) = elim (Bool-cases (is_code a b c)) [
  | inl e ↦ rw (e, append-nil unit) refl
  | inr e ↦ rw (e, units-at_code inside (unit ++ a ∷ []) (b ∷ c ∷ xs)) (moved e)
]
  where
    moved :
        is_code a b c ≡ false
        → at_code inside (unit ++ a ∷ []) (b ∷ c ∷ xs) (index_code (b ∷ c ∷ xs))
          ≡ at_code inside unit
              (a ∷ b ∷ c ∷ xs)
              (elim (index_code (b ∷ c ∷ xs)) [ none ↦ none | some i ↦ some (suc i) ])
    moved e = elim (Option-cases (index_code (b ∷ c ∷ xs))) [
      | inl none_ ↦ rw (none_, append_assoc unit (a ∷ []) (b ∷ c ∷ xs)) refl
      | inr (i, at_i) ↦ rw (at_i, append_assoc unit (a ∷ []) (take i (b ∷ c ∷ xs))) refl
    ]

-- Where a code is found.
pub record IsFound (p : Bytes) (i : ℕ) : Type 0 where
  pub bound : suc (suc (suc i)) ≤ length p
  pub ends_in_one : get_or p (suc (suc i)) 1 ≡ 1

pub index_code-IsFound : (p : Bytes) (i : ℕ) → index_code p ≡ some i → IsFound p i
unfolding index_code
index_code-IsFound [] i e = absurd (ground (arith, e))
index_code-IsFound (a ∷ []) i e = absurd (ground (arith, e))
index_code-IsFound (a ∷ b ∷ []) i e = absurd (ground (arith, e))
index_code-IsFound (a ∷ b ∷ c ∷ xs) i e = elim (Option-cases (index_code (b ∷ c ∷ xs))) [
  | inl none_ ↦ first (ground (arith, e, none_)) (ground (arith, e, none_))
  | inr (j, at_j) ↦ elim (Bool-cases (is_code a b c)) [
    | inl code ↦ first (ground (arith, e, code)) (ground (arith, e, code))
    | inr other ↦
        subst (λ k. IsFound (a ∷ b ∷ c ∷ xs) k) (ground (arith, e, other, at_j))
          (later j (index_code-IsFound (b ∷ c ∷ xs) j at_j))
  ]
]
  where
    first : i ≡ 0 → c ≡ 1 → IsFound (a ∷ b ∷ c ∷ xs) i
    first zero_ one = rw zero_ (record { bound = omega arith; ends_in_one = one })

    later : (j : ℕ) → IsFound (b ∷ c ∷ xs) j → IsFound (a ∷ b ∷ c ∷ xs) (suc j)
    later j f = record { bound = omega (arith, f.bound); ends_in_one = f.ends_in_one }

pub index_code-append : (p c : Bytes) (i : ℕ) → index_code p ≡ some i → index_code (p ++ c) ≡ some i
unfolding index_code
index_code-append [] ys i e = absurd (ground (arith, e))
index_code-append (a ∷ []) ys i e = absurd (ground (arith, e))
index_code-append (a ∷ b ∷ []) ys i e = absurd (ground (arith, e))
index_code-append (a ∷ b ∷ c ∷ xs) ys i e = elim (Option-cases (index_code (b ∷ c ∷ xs))) [
  | inl none_ ↦ ground (arith, e, none_)
  | inr (j, at_j) ↦ ground (arith, e, at_j, index_code-append (b ∷ c ∷ xs) ys j at_j)
]

pub drop-drop : {A : Type 0} (a b : ℕ) (xs : List A) → drop (a + b) xs ≡ drop a (drop b xs)
drop-drop a zero xs = ap (λ n. drop n xs) (omega arith)
drop-drop zero (suc b) [] = simp unary_clauses refl
drop-drop (suc a) (suc b) [] = simp unary_clauses refl
drop-drop a (suc b) (x ∷ xs) = simp unary_clauses (drop-drop a b xs)

pub get_or-drop : (i st : ℕ) (xs : Bytes) → get_or (drop st xs) i 1 ≡ get_or xs (i + st) 1
get_or-drop i zero xs = ap (λ n. get_or xs n 1) (omega arith)
get_or-drop i (suc st) [] = refl
get_or-drop i (suc st) (x ∷ xs) = simp unary_clauses (get_or-drop i st xs)

pub trim-take :
    (i : ℕ) (p : Bytes)
    → suc i ≤ length p
    → trim (take (suc i) p) ≡ take (if get_or p i 1 == 0 then i else suc i) p
unfolding trim
trim-take i [] h = absurd (omega (arith, h))
trim-take zero (x ∷ xs) h = ground arith
trim-take (suc i) (x ∷ []) h = absurd (omega (arith, h))
trim-take (suc i) (x ∷ y ∷ ys) h =
    ap (◌∷◌ x) (trim-take i (y ∷ ys) (omega (arith, h))) ∙ ground arith

pub is_nil-drop : (n : ℕ) (xs : Bytes) → is_nil (drop n xs) ≡ not (ltb n (length xs))
is_nil-drop zero [] = refl
is_nil-drop zero (x ∷ xs) = ground arith
is_nil-drop (suc n) [] = ground arith
is_nil-drop (suc n) (x ∷ xs) = is_nil-drop n xs ∙ ground arith

pub get_or-append : (j : ℕ) (xs ys : Bytes) → j < length xs → get_or (xs ++ ys) j 1 ≡ get_or xs j 1
get_or-append j [] ys h = absurd (omega (arith, h))
get_or-append zero (x ∷ xs) ys h = refl
get_or-append (suc j) (x ∷ xs) ys h = get_or-append j xs ys (omega (arith, h))

-- A unit of at least a byte, with no start code in it.
pub record IsPlain (u : Bytes) : Type 0 where
  pub filled : is_nil u ≡ false
  pub no_code : index_code u ≡ none

-- The start code of four bytes behind such a unit is the first one.
code_behind :
    (u xs : Bytes)
    → index_code u ≡ none
    → index_code (u ++ 0 ∷ 0 ∷ 0 ∷ 1 ∷ xs) ≡ some (suc (length u))
unfolding index_code
code_behind [] xs none_ = refl
code_behind (a ∷ []) xs none_ = ground arith
code_behind (a ∷ b ∷ []) xs none_ = ground arith
code_behind (a ∷ b ∷ c ∷ rest) xs none_ = elim (Option-cases (index_code (b ∷ c ∷ rest))) [
  | inl e ↦ ground (arith, none_, code_behind (b ∷ c ∷ rest) xs e)
  | inr (i, e) ↦ absurd (ground (arith, none_, e))
]

take_zero : (u xs : Bytes) → take (suc (length u)) (u ++ 0 ∷ xs) ≡ u ++ 0 ∷ []
take_zero [] xs = refl
take_zero (a ∷ u) xs = ap (◌∷◌ a) (take_zero u xs)

drop_code : (u xs : Bytes) → drop (suc (suc (suc (suc (length u))))) (u ++ 0 ∷ 0 ∷ 0 ∷ 1 ∷ xs) ≡ xs
drop_code [] xs = refl
drop_code (a ∷ u) xs = drop_code u xs

trim_zero : (u : Bytes) → trim (u ++ 0 ∷ []) ≡ u
unfolding trim
trim_zero [] = refl
trim_zero (a ∷ []) = refl
trim_zero (a ∷ b ∷ u) = ap (◌∷◌ a) (trim_zero (b ∷ u))

units-annex_b_on :
    (u : Bytes) (us : List Bytes)
    → IsPlain u
    → All IsPlain us
    → units true [] (u ++ annex_b us) ≡ u ∷ us
units-annex_b_on u [] plain all =
    units-at_code true [] (u ++ []) ∙ rw (append-nil u, plain.no_code, plain.filled) refl
units-annex_b_on u (v ∷ us) plain all =
    units-at_code true [] (u ++ annex_b (v ∷ us))
    ∙ rw
        (
          code_behind u (v ++ annex_b us) plain.no_code,
          take_zero u (0 ∷ 0 ∷ 1 ∷ (v ++ annex_b us)),
          drop_code u (v ++ annex_b us),
          trim_zero u,
        )
        (ap (◌∷◌ u) (units-annex_b_on v us all.0 all.1))

pub units-annex_b : (us : List Bytes) → All IsPlain us → units false [] (annex_b us) ≡ us
unfolding units
units-annex_b [] all = refl
units-annex_b (u ∷ us) all = ground (arith, units-annex_b_on u us all.0 all.1)
