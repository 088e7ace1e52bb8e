-- ===== src/OggOpus/Reading.antt =====
-- How many rounds `Next` takes.
use network_computer.Prelude.{
  ℕ, zero, suc, ◌+◌, ◌≤◌, ◌<◌, ◌≡◌, refl, ap, Bool, true, false, List, [], ◌∷◌, Option, none, some,
  arith, length, get_or, take, drop, length-drop, leb, leb→le, if◌then◌else◌, Bool-cases,
  Option-cases, inl, inr, ◌>>=◌,
}
use network_computer.Prelude.Bytes.{Bytes, bytes_eq, codes}
use network_computer.OggOpus.{Reader, read_full, total, lace, read_page, next_on, next}

read_full-length : (n : ℕ) (s x y : Bytes) → read_full n s ≡ some (x, y) → n + length y ≡ length s
unfolding read_full
read_full-length n s x y h = elim (Bool-cases (leb n (length s))) [
  | inl e ↦
      let rest : drop n s ≡ y = cc (h, e) in
      omega (arith, length-drop n s, ap length rest, leb→le n (length s) e)
  | inr e ↦ absurd (cc (h, e))
]

bind-some :
    {A B : Type 0} (o : Option A) (f : A → Option B) {b : B}
    → (o >>= f) ≡ some b
    → (a : A) × (o ≡ some a) × (f a ≡ some b)
bind-some none f h = absurd (cc h)
bind-some (some a) f h = (a, refl, h)

-- A page takes at least the 27 bytes of its header.
read_page-shorter : (o o' : Reader) → read_page o ≡ some o' → length o'.r < length o.r
unfolding read_page
read_page-shorter o o' h =
    let (one, e1, h1) = bind-some (read_full 27 o.r) (λ x. from_lacing x.0 x.1) h in
    let (two, e2, h2) = bind-some (lacing_of one.0 one.1) (λ x. from_body x.0 x.1) h1 in
    let (three, e3, h3) =
      bind-some (read_full (total two.0) two.1) (λ x. some (laced two.0 x.0 x.1)) h2 in
    let rest : three.1 ≡ o'.r = cc h3 in
    omega (
      arith,
      read_full-length 27 o.r one.0 one.1 e1,
      read_full-length (get_or one.0 26 0) one.1 two.0 two.1
          (taken (bytes_eq (take 4 one.0) (codes "OggS")) e2),
      read_full-length (total two.0) two.1 three.0 three.1 e3,
      ap length rest,
    )
  where
    laced : Bytes → Bytes → Bytes → Reader
    laced segs page rest = record {
      r = rest;
      pending = (lace segs page o.pending o.queue).0;
      queue = (lace segs page o.pending o.queue).1;
    }

    from_body : Bytes → Bytes → Option Reader
    from_body segs s = read_full (total segs) s >>= λ x. some (laced segs x.0 x.1)

    lacing_of : Bytes → Bytes → Option (Bytes × Bytes)
    lacing_of hdr s =
        if bytes_eq (take 4 hdr) (codes "OggS") then read_full (get_or hdr 26 0) s else none

    from_lacing : Bytes → Bytes → Option Reader
    from_lacing hdr s = lacing_of hdr s >>= λ x. from_body x.0 x.1

    taken :
        {A : Type 0} (b : Bool) {x : Option A} {a : A}
        → (if b then x else none) ≡ some a
        → x ≡ some a
    taken true e = e
    taken false e = absurd (cc e)

next_on-enough :
    (f g : ℕ) (o : Reader) (queue : List Bytes)
    → length o.r ≤ f
    → length o.r ≤ g
    → next_on f o queue ≡ next_on g o queue
unfolding next_on
next_on-enough zero zero o queue hf hg = refl
next_on-enough f g o (p ∷ queue) hf hg = refl
next_on-enough zero (suc g) o [] hf hg = elim (Option-cases (read_page o)) [
  | inl e ↦ rw (e, next_on) refl
  | inr (o', e) ↦ absurd (omega (arith, read_page-shorter o o' e))
]
next_on-enough (suc f) zero o [] hf hg = elim (Option-cases (read_page o)) [
  | inl e ↦ rw (e, next_on) refl
  | inr (o', e) ↦ absurd (omega (arith, read_page-shorter o o' e))
]
next_on-enough (suc f) (suc g) o [] hf hg = elim (Option-cases (read_page o)) [
  | inl e ↦ rw (e, next_on) refl
  | inr (o', e) ↦
      let shorter = read_page-shorter o o' e in
      rw (e, next_on)
        (next_on-enough f g o' o'.queue (omega (arith, shorter)) (omega (arith, shorter)))
]

-- `Next` reads as many pages as it needs: with more rounds than there are bytes left its answer is
-- the same, so it fails only where reading a page fails.
pub next_fuel : (fuel : ℕ) (o : Reader) → length o.r ≤ fuel → next_on fuel o o.queue ≡ next o
unfolding next
next_fuel fuel o h = next_on-enough fuel (length o.r) o o.queue h (omega arith)
