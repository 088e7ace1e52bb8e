-- ===== src/Input/Windows/Release.antt =====
-- What Windows holds pressed, from what is sent to it.
use network_computer.Prelude.{
  ℕ, ◌/◌, ◌%◌, ◌≡◌, refl, ap, Bool, true, false, not, ◌&&◌, List, [], ◌∷◌, ◌++◌, Option, none, some,
  arith, ltb, ◌==◌, if◌then◌else◌, Option-cases, inl, inr,
}
use network_computer.Prelude.Assoc.{lookup, insert, delete, lookup-insert, lookup-delete}
use network_computer.Prelude.Bytes.{bytes_key}
use network_computer.Prelude.Keys.{nat_eq}
use network_computer.Input.Windows.{
  Sent, mouse_event, key_event, Win, new_win, Event, move, relative, button, wheel, key, other,
  handle, keys_up, button_up, release_all, button_flag, turn, key_flags, key_key_up,
}
use network_computer.Input.Windows.Keys.{win_vk}

-- Which keys, and which of the buttons left, middle and right, are down.
pub record Pressed : Type 0 where
  pub keys : ℕ → Bool
  pub buttons : ℕ → Bool

abbrev bit : ℕ → ℕ → Bool
bit flags b = flags / b % 2 == 1

-- A flag for going down or up sets the button; without one it stays.
abbrev pub set_by : ℕ → ℕ → ℕ → Bool → Bool
set_by down up flags b = if bit flags down then true else if bit flags up then false else b

abbrev pub button_after : ℕ → ℕ → Bool → Bool
button_after flags i b =
    if i == 0
    then set_by 2 4 flags b
    else if i == 1
    then set_by 32 64 flags b
    else if i == 2
    then set_by 8 16 flags b
    else false

unfoldable pub press : Sent → Pressed → Pressed
press (mouse_event flags dx dy x) v = record v { buttons = λ i. button_after flags i (v.buttons i) }
press (key_event vk flags) v = record v {
  keys = λ k. if k == vk then not (bit flags 2) else v.keys k;
}

unfoldable pub feed : List Sent → Pressed → Pressed
feed [] v = v
feed (e ∷ es) v = feed es (press e v)

feed-append : (xs ys : List Sent) (v : Pressed) → feed (xs ++ ys) v ≡ feed ys (feed xs v)
unfolding feed
feed-append [] ys v = refl
feed-append (x ∷ xs) ys v = feed-append xs ys (press x v)

abbrev is_some {ℓ} : {A : Type ℓ} → Option A → Bool
is_some none = false
is_some (some _) = true

-- Windows and the injector agree on what is down; there are three buttons.
pub record Agrees (w : Win) (v : Pressed) : Type 0 where
  pub keys : (k : ℕ) → v.keys k ≡ is_some (lookup k w.held_keys)
  pub buttons : (i : ℕ) → v.buttons i ≡ (ltb i 3 && w.buttons i)

handle-Agrees :
    (w : Win) (e : Event) (v : Pressed) → Agrees w v → Agrees (handle w e).0 (feed (handle w e).1 v)
unfolding handle feed press turn button_flag
handle-Agrees w (move none) v a = a
handle-Agrees w (move (some (x, y))) v a = record {
  keys = a.keys;
  buttons = λ i. ground (arith, a.buttons i);
}
handle-Agrees w (relative x y) v a = record {
  keys = a.keys;
  buttons = λ i. ground (arith, a.buttons i);
}
handle-Agrees w (button down b) v a = record {
  keys = λ k. ground (arith, a.keys k);
  buttons = λ i. ground (arith, a.buttons i);
}
handle-Agrees w (wheel y x) v a = record {
  keys = λ k. ground (arith, a.keys k);
  buttons = λ i. ground (arith, a.buttons i);
}
handle-Agrees w (key down code) v a = elim (Option-cases (lookup code win_vk)) [
  | inl e ↦ rw (e, handle) a
  | inr ((vk, ext), e) ↦ rw (e, handle) (pressed vk ext)
]
  where
    pressed :
        (vk : ℕ) (ext : Bool)
        → Agrees
            (record w {
              held_keys = if down then insert vk true w.held_keys else delete vk w.held_keys;
            })
            (feed (key_event vk (key_flags ext down) ∷ []) v)
    pressed vk ext = record {
      keys = λ k.
          ground
            (arith, a.keys k, lookup-insert vk k true w.held_keys, lookup-delete vk k w.held_keys);
      buttons = a.buttons;
    }
handle-Agrees w other v a = a

feed-keys_up :
    (held : List (ℕ × Bool)) (v : Pressed) (k : ℕ)
    → ((feed (keys_up held) v).keys k ≡ (if is_some (lookup k held) then false else v.keys k))
      × ((feed (keys_up held) v).buttons ≡ v.buttons)
unfolding feed keys_up press lookup
feed-keys_up [] v k = (ground arith, refl)
feed-keys_up ((vk, b) ∷ held) v k =
    let rest = feed-keys_up held (press (key_event vk key_key_up) v) k in
    (ground (arith, rest.0), rest.1)

unfoldable pub run : Win → Pressed → List Event → Win × Pressed
run w v [] = (w, v)
run w v (e ∷ es) = run (handle w e).0 (feed (handle w e).1 v) es

run-Agrees :
    (w : Win) (v : Pressed) (es : List Event) → Agrees w v → Agrees (run w v es).0 (run w v es).1
unfolding run
run-Agrees w v [] a = a
run-Agrees w v (e ∷ es) a =
    run-Agrees (handle w e).0 (feed (handle w e).1 v) es (handle-Agrees w e v a)

abbrev pub nothing_pressed : Pressed
nothing_pressed = record { keys = λ _. false; buttons = λ _. false }

feed-release_all :
    (w : Win) (v : Pressed) (k : ℕ)
    → Agrees w v
    → ((feed (release_all w).1 v).keys k ≡ false) × ((feed (release_all w).1 v).buttons k ≡ false)
unfolding release_all feed press button_up
feed-release_all w v k a =
    let (up, same) = feed-keys_up w.held_keys v k in
    rw (feed-append (keys_up w.held_keys) _ v)
      (ground (arith, up, a.keys k), ground (arith, ap (λ f. f k) same, a.buttons k))

-- Whatever the client pressed and released before, in whatever order, when everything is released no
-- key and no button is left down.
pub win_release_frees :
    (es : List Event) (k : ℕ)
    → let (w, v) = run new_win nothing_pressed es in
      ((feed (release_all w).1 v).keys k ≡ false) × ((feed (release_all w).1 v).buttons k ≡ false)
unfolding lookup
win_release_frees es k = feed-release_all _ _ k (
    run-Agrees new_win nothing_pressed es
      (record { keys = λ k. refl; buttons = λ i. ground arith }))
