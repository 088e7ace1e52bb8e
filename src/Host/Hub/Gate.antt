-- ===== src/Host/Hub/Gate.antt =====
-- What a device is given of the stream: the samples from the first keyframe after it joined.
use network_computer.Prelude.{
  ℕ, ◌≡◌, refl, ap, ◌∙◌, Bool, true, false, not, ◌&&◌, ◌||◌, List, [], ◌∷◌, map, none, some, arith,
  if◌then◌else◌,
}
use network_computer.Prelude.Assoc.{lookup, lookup-insert}
use network_computer.Prelude.Keys.{nat_eq}
use network_computer.Host.Hub.{Hub, join, keyframe, write_sample, passes}

module _ {O : Type 0} where
  -- The capture loop calls keyframe() before it writes a sample that holds one.
  unfoldable pub offer : Hub O → Bool → Hub O × (ℕ → Bool)
  unfolding keyframe write_sample
  offer h key = write_sample (if key then keyframe h else h)

module _ {O : Type 0} {A : Type 0} where
  -- The samples of a stream that a subscriber is given; each says whether it holds a keyframe.
  unfoldable pub received : ℕ → Hub O → List (Bool × A) → List A
  unfolding offer
  received s h [] = []
  received s h ((key, x) ∷ xs) =
      let (h', to) = offer h key in let rest = received s h' xs in if to s then x ∷ rest else rest

module _ {A : Type 0} where
  -- Everything, and everything from the first keyframe on.
  abbrev pub samples : List (Bool × A) → List A
  samples = map (λ p. p.1)

  unfoldable pub from_keyframe : List (Bool × A) → List A
  from_keyframe [] = []
  from_keyframe ((key, x) ∷ xs) = if key then x ∷ samples xs else from_keyframe xs

pub lookup-map :
    (f : Bool → Bool) (s : ℕ) (subs : List (ℕ × Bool))
    → lookup s (map (λ p. (p.0, f p.1)) subs)
      ≡ elim (lookup s subs) [ none ↦ none | some w ↦ some (f w) ]
unfolding lookup
lookup-map f s [] = refl
lookup-map f s ((i, w) ∷ subs) = ground (arith, lookup-map f s subs)

module _ {O : Type 0} where
  -- The key that a sample goes out with: its own, or one announced before.
  abbrev key_of : Hub O → Bool → Bool
  key_of h key = h.next_key || key

  offer-lookup :
      (s : ℕ) (h : Hub O) (key w : Bool)
      → lookup s h.subs ≡ some w
      → (lookup s (offer h key).0.subs ≡ some (not (passes (key_of h key) w)))
        × ((offer h key).0.next_key ≡ false)
        × ((offer h key).1 s ≡ passes (key_of h key) w)
  unfolding offer
  offer-lookup s h false w e = ground (arith, lookup-map (λ b. not (passes h.next_key b)) s h.subs)
  offer-lookup s h true w e = ground (arith, lookup-map (λ b. not (passes true b)) s h.subs)

  join-subs :
      (s : ℕ) (opts : O) (h : Hub O)
      → (lookup s (join s opts h).subs ≡ some h.gated) × ((join s opts h).next_key ≡ h.next_key)
  unfolding join
  join-subs s opts h = ground (arith, lookup-insert s s h.gated h.subs)

module _ {O : Type 0} {A : Type 0} where
  received-cons :
      (s : ℕ) (h : Hub O) (key : Bool) (x : A) (xs : List (Bool × A))
      → received s h ((key, x) ∷ xs) ≡ (
          if (offer h key).1 s
          then x ∷ received s (offer h key).0 xs
          else received s (offer h key).0 xs)
  unfolding received
  received-cons s h key x xs = refl

  received_lem :
      (s : ℕ) (h : Hub O) (w : Bool) (xs : List (Bool × A))
      → lookup s h.subs ≡ some w
      → received s h xs ≡ (if w && not h.next_key then from_keyframe xs else samples xs)
  unfolding from_keyframe
  received_lem s h w [] e = unfold received in ground arith
  received_lem s h w ((key, x) ∷ xs) e =
      let (kept, reset, given) = offer-lookup s h key w e in
      ground (
        arith,
        received-cons s h key x xs,
        received_lem s (offer h key).0 (not (passes (key_of h key) w)) xs kept,
      )

  -- A device that joins a gated hub is given the stream from the first sample that holds a
  -- keyframe on, and then every sample; on a hub that is not gated, or one for which a keyframe has
  -- just been announced, it is given every sample. Whether the encoder ran before does not matter.
  pub joined_from_keyframe :
      (s : ℕ) (opts : O) (h : Hub O) (xs : List (Bool × A))
      → received s (join s opts h) xs
        ≡ (if h.gated && not h.next_key then from_keyframe xs else samples xs)
  joined_from_keyframe s opts h xs =
      let (waiting, kept) = join-subs s opts h in
      received_lem s (join s opts h) h.gated xs waiting
      ∙ ap (λ k. if h.gated && not k then from_keyframe xs else samples xs) kept
