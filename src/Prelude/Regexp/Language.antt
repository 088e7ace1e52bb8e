-- ===== src/Prelude/Regexp/Language.antt =====
-- The texts that an expression describes, and that match_string answers exactly for them.
use Prim.Native.Nat.{ℕ, zero, suc, ◌-◌}
use mathlib.Core.Path.{◌≡◌, refl, ap, sym, subst, ◌∙◌}
use mathlib.Core.Logic.{◌↔◌, ◌≢◌, ◌⊎◌, inl, inr}
use mathlib.Core.Bool.{Bool, true, false, ◌&&◌, ◌||◌}
use mathlib.Core.List.{List, [], ◌∷◌, ◌++◌}
use native.Mathlib.Omega.{arith}
use network_computer.Prelude.Bytes.{Bytes}
use network_computer.Prelude.Lists.{All, All-append}
use network_computer.Prelude.Regexp.{
  Regexp, nothing, empty, class, seq, alt, star, text, plus, at_most, between, has_empty, after,
  match_string,
}
use network_computer.Prelude.Tests.{◌==◌, ==_iff, if◌then◌else◌}

abbrev pub concat : List Bytes → Bytes
concat [] = []
concat (s ∷ l) = s ++ concat l

abbrev pub Matches : Regexp → Bytes → Type 0
Matches nothing s = ⊥
Matches empty s = s ≡ []
Matches (class k) s = (c : ℕ) × (k c ≡ true) × (s ≡ c ∷ [])
Matches (seq a b) s = (t u : Bytes) × (s ≡ t ++ u) × Matches a t × Matches b u
Matches (alt a b) s = Matches a s ⊎ Matches b s
Matches (star a) s = (l : List Bytes) × All (Matches a) l × (s ≡ concat l)

append_nil : (t u : Bytes) → t ++ u ≡ [] → (t ≡ []) × (u ≡ [])
append_nil [] u h = (refl, h)
append_nil (c ∷ t) u h = cc

both : {a b : Bool} → (a && b) ≡ true → (a ≡ true) × (b ≡ true)
both h = ground arith

either : {a b : Bool} → (a || b) ≡ true → (a ≡ true) ⊎ (b ≡ true)
either h = ground arith

has_empty_sound : (r : Regexp) → has_empty r ≡ true → Matches r []
unfolding has_empty
has_empty_sound nothing h = cc
has_empty_sound empty h = refl
has_empty_sound (class k) h = cc
has_empty_sound (seq a b) h =
    ([], [], refl, has_empty_sound a (both h).0, has_empty_sound b (both h).1)
has_empty_sound (alt a b) h = elim (either h) [
  | inl e ↦ inl (has_empty_sound a e)
  | inr e ↦ inr (has_empty_sound b e)
]
has_empty_sound (star a) h = ([], tt, refl)

has_empty_complete : (r : Regexp) → Matches r [] → has_empty r ≡ true
unfolding has_empty
has_empty_complete nothing h = elim h [ ]
has_empty_complete empty h = refl
has_empty_complete (class k) (c, h, e) = cc
has_empty_complete (seq a b) (t, u, e, p, q) =
    let (e1, e2) = append_nil t u (sym e) in
    rw
      (has_empty_complete a (subst (Matches a) e1 p), has_empty_complete b (subst (Matches b) e2 q))
has_empty_complete (alt a b) (inl p) = rw (has_empty_complete a p)
has_empty_complete (alt a b) (inr p) = ground (arith, has_empty_complete b p)
has_empty_complete (star a) h = refl

guarded :
    (b : Bool) (r : Regexp) (s : Bytes)
    → Matches (if b then r else nothing) s
    → (b ≡ true) × Matches r s
guarded true r s h = (refl, h)
guarded false r s h = elim h [ ]

guard_on :
    {b : Bool} (r : Regexp) (s : Bytes)
    → b ≡ true
    → Matches r s
    → Matches (if b then r else nothing) s
guard_on {b} r s e h = subst (λ x. Matches (if x then r else nothing) s) (sym e) h

after_sound : (c : ℕ) (r : Regexp) (s : Bytes) → Matches (after c r) s → Matches r (c ∷ s)
unfolding after
after_sound c nothing s h = h
after_sound c empty s h = elim h [ ]
after_sound c (class k) s h = let (e, m) = guarded (k c) empty s h in (c, e, ap (◌∷◌ c) m)
after_sound c (seq a b) s (inl (t, u, e, p, q)) = (c ∷ t, u, ap (◌∷◌ c) e, after_sound c a t p, q)
after_sound c (seq a b) s (inr h) =
    let (e, m) = guarded (has_empty a) (after c b) s h in
    ([], c ∷ s, refl, has_empty_sound a e, after_sound c b s m)
after_sound c (alt a b) s (inl h) = inl (after_sound c a s h)
after_sound c (alt a b) s (inr h) = inr (after_sound c b s h)
after_sound c (star a) s (t, u, e, p, (l, hl, e')) =
    ((c ∷ t) ∷ l, (after_sound c a t p, hl), ap (◌∷◌ c) (e ∙ ap (t ++◌) e'))

head_of : {c d : ℕ} {s t : Bytes} → (◌≡◌ {A = Bytes} (c ∷ s) (d ∷ t)) → (c ≡ d) × (s ≡ t)
head_of h = (cc, cc)

-- The first text of a list that is not empty begins the whole.
after_pieces :
    (P : Bytes → Type 0) (c : ℕ) (s : Bytes) (l : List Bytes)
    → All P l
    → c ∷ s ≡ concat l
    → (t : Bytes) × (k : List Bytes) × P (c ∷ t) × All P k × (s ≡ t ++ concat k)
after_pieces P c s [] h e = cc
after_pieces P c s ([] ∷ l) h e = after_pieces P c s l h.1 e
after_pieces P c s ((d ∷ t) ∷ l) h e =
    let (e1, e2) = head_of e in (t, l, subst (λ x. P (x ∷ t)) (sym e1) h.0, h.1, e2)

after_complete : (c : ℕ) (r : Regexp) (s : Bytes) → Matches r (c ∷ s) → Matches (after c r) s
unfolding after
after_complete c nothing s h = h
after_complete c empty s h = cc
after_complete c (class k) s (d, h, e) =
    let (e1, e2) = head_of e in guard_on _ _ (subst (λ x. k x ≡ true) (sym e1) h) e2
after_complete c (seq a b) s ([], u, e, p, q) =
    inr (guard_on _ _ (has_empty_complete a p) (after_complete c b s (subst (Matches b) (sym e) q)))
after_complete c (seq a b) s (d ∷ t, u, e, p, q) =
    let (e1, e2) = head_of e in
    inl (t, u, e2, after_complete c a t (subst (λ x. Matches a (x ∷ t)) (sym e1) p), q)
after_complete c (alt a b) s (inl h) = inl (after_complete c a s h)
after_complete c (alt a b) s (inr h) = inr (after_complete c b s h)
after_complete c (star a) s (l, hl, e) =
    let (t, k, p, hk, e') = after_pieces (Matches a) c s l hl e in
    (t, concat k, e', after_complete c a t p, (k, hk, refl))

-- MatchString answers yes exactly for the texts that the expression describes.
pub match_string_lem : (r : Regexp) (s : Bytes) → (match_string r s ≡ true) ↔ Matches r s
unfolding match_string
match_string_lem r [] = (has_empty_sound r, has_empty_complete r)
match_string_lem r (c ∷ s) =
    let (sound, complete) = match_string_lem (after c r) s in
    (λ h. after_sound c r s (sound h), λ h. complete (after_complete c r s h))

-- At least one byte, and each of the class.
abbrev pub Some : (ℕ → Bool) → Bytes → Type 0
Some k s = (s ≢ []) × All (λ c. k c ≡ true) s

byte_after : (b c : ℕ) (s t u : Bytes) → (c == b) ≡ true → t ≡ c ∷ [] → s ≡ t ++ u → s ≡ b ∷ u
byte_after b c s t u k e1 e = e ∙ ap (◌++ u) e1 ∙ ap (◌∷ u) ((==_iff c b).0 k)

pub text_lem : (w s : Bytes) → Matches (text w) s ↔ (s ≡ w)
text_lem [] s = (λ h. h, λ h. h)
text_lem (b ∷ w) s = (
  λ (t, u, e, (c, k, e1), q). byte_after b c s t u k e1 e ∙ ap (b ∷◌) ((text_lem w u).0 q),
  λ e. (b ∷ [], w, e, (b, (==_iff b b).1 refl, refl), (text_lem w w).1 refl),
)

pub seq_text_lem :
    (w : Bytes) (r : Regexp) (s : Bytes)
    → Matches (seq (text w) r) s ↔ ((u : Bytes) × (s ≡ w ++ u) × Matches r u)
seq_text_lem w r s = (
  λ (t, u, e, p, q). (u, e ∙ ap (◌++ u) ((text_lem w t).0 p), q),
  λ (u, e, q). (w, u, e, (text_lem w w).1 refl, q),
)

module _ (k : ℕ → Bool) where
  star_sound :
      (l : List Bytes) (s : Bytes)
      → All (Matches (class k)) l
      → s ≡ concat l
      → All (λ c. k c ≡ true) s
  star_sound [] s h e = subst (All (λ c. k c ≡ true)) (sym e) tt
  star_sound (t ∷ l) s ((c, p, e1), h) e =
      subst (All (λ c. k c ≡ true)) (sym (e ∙ ap (◌++ concat l) e1))
        (p, star_sound l (concat l) h refl)

  star_complete : (s : Bytes) → All (λ c. k c ≡ true) s → Matches (star (class k)) s
  star_complete [] h = ([], tt, refl)
  star_complete (c ∷ s) (p, h) =
      let (l, hl, e) = star_complete s h in ((c ∷ []) ∷ l, ((c, p, refl), hl), ap (◌∷◌ c) e)

  pub star_class_lem : (s : Bytes) → Matches (star (class k)) s ↔ All (λ c. k c ≡ true) s
  star_class_lem s = (λ (l, h, e). star_sound l s h e, star_complete s)

  plus_complete : (s : Bytes) → Some k s → Matches (plus (class k)) s
  plus_complete [] (n, h) = absurd (n refl)
  plus_complete (c ∷ s) (n, (p, h)) = (c ∷ [], s, refl, (c, p, refl), star_complete s h)

  plus_sound : (s : Bytes) → Matches (plus (class k)) s → Some k s
  plus_sound s (t, u, e, (c, p, e1), (l, h, e2)) =
      let e3 = e ∙ ap (◌++ u) e1 in
      ((λ z. cc), subst (All (λ c. k c ≡ true)) (sym e3) (p, star_sound l u h e2))

  pub plus_class_lem : (s : Bytes) → Matches (plus (class k)) s ↔ Some k s
  plus_class_lem s = (plus_sound s, plus_complete s)

module _ (P : ℕ → Type 0) where
  -- Every byte of every class has the property.
  abbrev pub Over : Regexp → Type 0
  Over nothing = Unit
  Over empty = Unit
  Over (class k) = (c : ℕ) → k c ≡ true → P c
  Over (seq a b) = Over a × Over b
  Over (alt a b) = Over a × Over b
  Over (star a) = Over a

  All-concat : (l : List Bytes) → All (All P) l → All P (concat l)
  All-concat [] h = tt
  All-concat (s ∷ l) (h, hs) = All-append P s (concat l) h (All-concat l hs)

  All-All :
      {Q : Bytes → Type 0}
      → ((t : Bytes) → Q t → All P t)
      → (l : List Bytes) → All Q l
      → All (All P) l
  All-All f [] h = tt
  All-All f (t ∷ l) (h, hs) = (f t h, All-All f l hs)

  -- Then so has every byte of a text that is described.
  pub Over-Matches : (r : Regexp) (s : Bytes) → Over r → Matches r s → All P s
  Over-Matches nothing s o h = absurd h
  Over-Matches empty s o h = subst (All P) (sym h) tt
  Over-Matches (class k) s o (c, h, e) = subst (All P) (sym e) (o c h, tt)
  Over-Matches (seq a b) s (oa, ob) (t, u, e, p, q) =
      subst (All P) (sym e) (All-append P t u (Over-Matches a t oa p) (Over-Matches b u ob q))
  Over-Matches (alt a b) s (oa, ob) (inl h) = Over-Matches a s oa h
  Over-Matches (alt a b) s (oa, ob) (inr h) = Over-Matches b s ob h
  Over-Matches (star a) s o (l, h, e) =
      subst (All P) (sym e) (All-concat l (All-All (λ t m. Over-Matches a t o m) l h))

  pub Over-at_most : (n : ℕ) (a : Regexp) → Over a → Over (at_most n a)
  Over-at_most zero a o = tt
  Over-at_most (suc n) a o = (tt, (o, Over-at_most n a o))

  pub Over-between : (m n : ℕ) (a : Regexp) → Over a → Over (between m n a)
  Over-between zero n a o = Over-at_most n a o
  Over-between (suc m) n a o = (o, Over-between m (n - 1) a o)
