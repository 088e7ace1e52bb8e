-- ===== src/Input/Darwin/Release.antt =====
-- When ReleaseAll returns, and what it leaves down.
use network_computer.Prelude.{
  ℕ, ◌≡◌, refl, Bool, true, false, List, [], ◌∷◌, Option, none, some, arith, ◌==◌, if◌then◌else◌,
  Option-cases, Bool-cases, inl, inr, ◌||◌, ltb, append-nil,
}
use network_computer.Prelude.Assoc.{lookup, lookup-insert, lookup-delete}
use network_computer.Prelude.Bytes.{bytes_key}
use network_computer.Prelude.Keys.{nat_eq}
use network_computer.Input.Darwin.{
  Posted, post_mouse, post_scroll, post_key, Mac, new_mac, Event, move, relative, button, wheel,
  key, other, handle, moved_to, move_type, press_of, no_mods, keys_up, then_posts, call_handle,
  release_buttons, release_all,
}
use network_computer.Input.Darwin.Keys.{key_codes}

-- Which keys and buttons macOS holds for down, after what was posted.
pub record View : Type 0 where
  pub keys : ℕ → Bool
  pub buttons : ℕ → Bool

abbrev pub nothing_down : View
nothing_down = record { keys = λ _. false; buttons = λ _. false }

abbrev is_some {ℓ} : {A : Type ℓ} → Option A → Bool
is_some none = false
is_some (some _) = true

-- kCGEventLeftMouseDown and the other types of Core Graphics: the button that goes down or up.
unfoldable pub clicked : ℕ → Option (ℕ × Bool)
clicked typ =
    if typ == 1
    then some (0, true)
    else if typ == 2
    then some (0, false)
    else if typ == 3
    then some (2, true)
    else if typ == 4
    then some (2, false)
    else if typ == 25
    then some (1, true)
    else if typ == 26
    then some (1, false)
    else none

unfoldable pub click : Option (ℕ × Bool) → (ℕ → Bool) → ℕ → Bool
click none v = v
click (some (b, down)) v = λ i. if i == b then down else v i

module _ {P : Type 0} where
  unfoldable pub press : Posted P → View → View
  unfolding clicked click
  press (post_mouse typ at btn mods) v = record v { buttons = click (clicked typ) v.buttons }
  press (post_scroll d mods) v = v
  press (post_key kc down mods) v = record v { keys = λ k. if k == kc then down else v.keys k }

  unfoldable pub feed : List (Posted P) → View → View
  feed [] v = v
  feed (e ∷ es) v = feed es (press e v)

  -- macOS and the injector agree on what is down.
  pub record Agrees (m : Mac P) (v : View) : Type 0 where
    pub keys : (k : ℕ) → v.keys k ≡ is_some (lookup k m.held_keys)
    pub left : v.buttons 0 ≡ m.buttons 0
    pub middle : v.buttons 1 ≡ m.buttons 1
    pub right : v.buttons 2 ≡ m.buttons 2

-- Some button of the mouse is down.
abbrev pub any_down : View → Bool
any_down v = v.buttons 0 || (v.buttons 1 || v.buttons 2)

feed-keys_up :
    (P : Type 0) (held : List (ℕ × Bool)) (v : View) (k : ℕ)
    → (feed {P = P} (keys_up held) v).keys k ≡ (if is_some (lookup k held) then false else v.keys k)
unfolding feed keys_up press lookup
feed-keys_up P [] v k = ground arith
feed-keys_up P ((kc, b) ∷ held) v k =
    ground
      (arith, feed-keys_up P held (record v { keys = λ i. if i == kc then false else v.keys i }) k)

module _ {P : Type 0} (to_global : P → P) (moved : P → P → P) (turned : P → P) where
  -- What is down after ReleaseAll, if it returns.
  unfoldable pub released : Mac P → View → ℕ → Option Bool
  released m v k = elim (release_all to_global moved turned m) [
    | none ↦ none
    | some (_, posts) ↦ some ((feed posts v).keys k)
  ]

  -- With the mutex held, the first button that is down stops the loop.
  release_buttons_lem :
      (m : Mac P)
      → release_buttons to_global moved turned true (0 ∷ 1 ∷ 2 ∷ []) m
        ≡ (if m.buttons 0 || (m.buttons 1 || m.buttons 2) then none else some (m, []))
  unfolding release_buttons call_handle
  release_buttons_lem m = ground arith

  released_lem :
      (m : Mac P) (v : View) (k : ℕ)
      → Agrees m v
      → released m v k ≡ (if any_down v then none else some false)
  unfolding released release_all then_posts
  released_lem m v k a = ground (
    arith,
    release_buttons_lem (record m { held_keys = []; mods = no_mods }),
    feed-keys_up P m.held_keys v k,
    a.keys k,
    a.left,
    a.middle,
    a.right,
    append-nil (keys_up {P = P} m.held_keys),
  )

  moved_clicks : (m : Mac P) → clicked (move_type m) ≡ none
  unfolding clicked move_type
  moved_clicks m = ground arith

  moved-Agrees :
      (m : Mac P) (p : P) (v : View)
      → Agrees m v
      → let (m', posts) = moved_to p m in Agrees m' (feed posts v)
  unfolding feed press click
  moved-Agrees m p v a = record {
    keys = a.keys;
    left = ground (arith, moved_clicks (record m { at = p }), a.left);
    middle = ground (arith, moved_clicks (record m { at = p }), a.middle);
    right = ground (arith, moved_clicks (record m { at = p }), a.right);
  }

  button-Agrees :
      (m : Mac P) (down : Bool) (b : ℕ) (v : View)
      → Agrees m v
      → let (m', posts) = handle to_global moved turned m (button down b) in
        Agrees m' (feed posts v)
  unfolding handle feed press click clicked press_of
  button-Agrees m down b v a = elim (Bool-cases (ltb 2 b)) [
    | inl e ↦ rw (e, handle) a
    | inr e ↦
        rw (e, handle)
          (record {
            keys = a.keys;
            left = ground (arith, a.left);
            middle = ground (arith, a.middle);
            right = ground (arith, a.right);
          })
  ]

  handle-Agrees :
      (m : Mac P) (e : Event P) (v : View)
      → Agrees m v
      → let (m', posts) = handle to_global moved turned m e in Agrees m' (feed posts v)
  unfolding handle feed press
  handle-Agrees m (move p) v a = moved-Agrees m (to_global p) v a
  handle-Agrees m (relative d) v a = moved-Agrees m (moved m.at d) v a
  handle-Agrees m (button down b) v a = button-Agrees m down b v a
  handle-Agrees m (wheel d) v a = a
  handle-Agrees m (key down code) v a = elim (Option-cases (lookup code key_codes)) [
    | inl e ↦ rw (e, handle) a
    | inr (kc, e) ↦
        rw (e, handle)
          (record {
            keys = λ k. ground (
              arith,
              a.keys k,
              lookup-insert kc k true m.held_keys,
              lookup-delete kc k m.held_keys,
            );
            left = a.left;
            middle = a.middle;
            right = a.right;
          })
  ]
  handle-Agrees m other v a = a

  unfoldable pub run : Mac P → View → List (Event P) → Mac P × View
  run m v [] = (m, v)
  run m v (e ∷ es) = let (m', posts) = handle to_global moved turned m e in run m' (feed posts v) es

  run-Agrees :
      (m : Mac P) (v : View) (es : List (Event P))
      → Agrees m v
      → let (m', v') = run m v es in Agrees m' v'
  unfolding run
  run-Agrees m v [] a = a
  run-Agrees m v (e ∷ es) a =
      let (m', posts) = handle to_global moved turned m e in
      run-Agrees m' (feed posts v) es (handle-Agrees m e v a)

  -- Whatever the client pressed and released before: when everything is released while a button of
  -- the mouse is down by what was posted, the call never returns, since it waits for its own lock;
  -- with no button down it returns, and no key is left down.
  pub mac_release :
      (at : P) (es : List (Event P)) (k : ℕ)
      → let (m, v) = run (new_mac at) nothing_down es in
        released m v k ≡ (if any_down v then none else some false)
  unfolding lookup
  mac_release at es k = released_lem _ _ k (
      run-Agrees (new_mac at) nothing_down es
        (record { keys = λ i. refl; left = refl; middle = refl; right = refl }))
