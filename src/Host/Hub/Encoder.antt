-- ===== src/Host/Hub/Encoder.antt =====
-- When the encoder runs: with the operations one at a time, and with two devices in between.
use network_computer.Prelude.{
  ℕ, ◌≡◌, refl, Bool, true, false, not, List, [], ◌∷◌, map, Option, none, some, arith, is_nil,
}
use network_computer.Prelude.Assoc.{lookup, insert, delete, lookup-insert}
use network_computer.Prelude.Keys.{nat_eq}
use network_computer.Host.Hub.{Running, Hub, join, leave_locked, stop, leave, restart}

abbrev is_some {ℓ} : {A : Type ℓ} → Option A → Bool
is_some none = false
is_some (some _) = true

pub data Op (O : Type 0) : Type 0 where
  joins : ℕ → O → Op O
  leaves : ℕ → Op O
  restarts : O → Op O

delete_nil : (s : ℕ) (subs : List (ℕ × Bool)) → is_nil subs ≡ true → is_nil (delete s subs) ≡ true
unfolding delete
delete_nil s [] h = refl
delete_nil s (x ∷ xs) h = cc

insert-nonempty : (s : ℕ) (b : Bool) (subs : List (ℕ × Bool)) → is_nil (insert s b subs) ≡ false
unfolding insert
insert-nonempty s b [] = refl
insert-nonempty s b ((j, w) ∷ m) = ground arith

is_nil-map : (f : ℕ × Bool → ℕ × Bool) (subs : List (ℕ × Bool)) → is_nil (map f subs) ≡ is_nil subs
is_nil-map f [] = refl
is_nil-map f (x ∷ xs) = refl

module _ {O : Type 0} where
  -- The encoder runs exactly while somebody is there.
  abbrev pub Balanced : Hub O → Type 0
  Balanced h = is_some h.encoder ≡ not (is_nil h.subs)

  unfoldable pub apply : Hub O → Op O → Hub O
  apply h (joins s opts) = join s opts h
  apply h (leaves s) = leave s h
  apply h (restarts opts) = restart opts h

  unfoldable pub run : Hub O → List (Op O) → Hub O
  unfolding apply
  run h [] = h
  run h (o ∷ os) = run (apply h o) os

  pub apply-Balanced : (h : Hub O) (o : Op O) → Balanced h → Balanced (apply h o)
  unfolding apply join leave restart
  apply-Balanced h (joins s opts) b = ground (arith, insert-nonempty s h.gated h.subs)
  apply-Balanced h (leaves s) b = ground (arith, delete_nil s h.subs)
  apply-Balanced h (restarts opts) b = ground (arith, is_nil-map (λ p. (p.0, h.gated)) h.subs)

  -- One operation after another, the encoder runs exactly while some device is there: whatever
  -- devices join and leave and whatever sizes they ask for.
  pub run-Balanced : (h : Hub O) (os : List (Op O)) → Balanced h → Balanced (run h os)
  unfolding run
  run-Balanced h [] b = b
  run-Balanced h (o ∷ os) b = run-Balanced (apply h o) os (apply-Balanced h o b)

  -- A device that joins while the last one leaves, between its removal and the stop, is left
  -- with no encoder: it joins a hub whose encoder still runs, and that encoder is then stopped.
  pub late_stop_starves :
      (h : Hub O) (s t : ℕ) (opts : O) (e : Running O)
      → h.encoder ≡ some e
      → (leave_locked s h).1 ≡ true
      → let joined = join t opts (leave_locked s h).0 in
        ((stop joined).encoder ≡ none)
        × (lookup t (stop joined).subs ≡ some h.gated)
        × ¬ Balanced (stop joined)
  unfolding leave_locked join stop
  late_stop_starves h s t opts e running empty = (
    refl,
    ground (arith, lookup-insert t t h.gated (delete s h.subs)),
    ground (arith, insert-nonempty t h.gated (delete s h.subs)),
  )
