-- ===== src/Input/Linux/Release.antt =====
-- What the kernel holds pressed, from what is written to the devices.
use network_computer.Prelude.{
  ℕ, ◌≡◌, refl, Bool, true, false, not, ◌&&◌, List, [], ◌∷◌, ◌++◌, Option, none, some, arith, ◌==◌,
  if◌then◌else◌, Option-cases, inl, inr,
}
use network_computer.Prelude.Assoc.{lookup, insert, delete, lookup-insert, lookup-delete}
use network_computer.Prelude.Bytes.{bytes_key}
use network_computer.Prelude.Decimal.{pos}
use network_computer.Prelude.Keys.{nat_eq}
use network_computer.Input.Linux.{
  Device, kbd, mouse, tab, Emitted, emit, syn, ev_key, Linux, new_linux, Event, move, relative,
  button, wheel, key, other, handle, keys_up, button_up, release_all, button_code, notch,
  bool_int32, is_zero, btn_left, btn_middle, btn_right,
}
use network_computer.Input.Linux.Keys.{linux_key_codes}

abbrev pub same_device : Device → Device → Bool
same_device kbd kbd = true
same_device mouse mouse = true
same_device tab tab = true
same_device _ _ = false

-- Which keys and buttons of which device are down.
abbrev pub View : Type 0
View = Device → ℕ → Bool

-- A key event sets its code on its device; the others set nothing.
unfoldable pub press : Emitted → View → View
press e v d c =
    if e.typ == ev_key && (same_device e.device d && e.code == c)
    then not (is_zero e.val)
    else v d c

unfoldable pub feed : List Emitted → View → View
feed [] v = v
feed (e ∷ es) v = feed es (press e v)

feed-append : (xs ys : List Emitted) (v : View) → feed (xs ++ ys) v ≡ feed ys (feed xs v)
unfolding feed
feed-append [] ys v = refl
feed-append (x ∷ xs) ys v = feed-append xs ys (press x v)

abbrev is_some {ℓ} : {A : Type ℓ} → Option A → Bool
is_some none = false
is_some (some _) = true

-- The buttons that the injector takes for pressed, by their codes.
abbrev pub button_down : Linux → ℕ → Bool
button_down l c =
    if c == btn_left
    then l.buttons 0
    else if c == btn_middle
    then l.buttons 1
    else if c == btn_right
    then l.buttons 2
    else false

-- The kernel and the injector agree on what is down.
pub record Agrees (l : Linux) (v : View) : Type 0 where
  pub keys : (c : ℕ) → v kbd c ≡ is_some (lookup c l.held_keys)
  pub none_on_mouse : (c : ℕ) → v mouse c ≡ false
  pub on_tab : (c : ℕ) → v tab c ≡ button_down l c

handle-Agrees :
    (l : Linux) (e : Event) (v : View) → Agrees l v → Agrees (handle l e).0 (feed (handle l e).1 v)
unfolding handle feed press notch button_code
handle-Agrees l (move x y) v a = record {
  keys = a.keys;
  none_on_mouse = a.none_on_mouse;
  on_tab = a.on_tab;
}
handle-Agrees l (relative x y) v a = record {
  keys = a.keys;
  none_on_mouse = a.none_on_mouse;
  on_tab = a.on_tab;
}
handle-Agrees l (button down b) v a = record {
  keys = λ c. ground (arith, a.keys c);
  none_on_mouse = λ c. ground (arith, a.none_on_mouse c);
  on_tab = λ c. ground (arith, a.on_tab c);
}
handle-Agrees l (wheel y x) v a = record {
  keys = λ c. ground (arith, a.keys c);
  none_on_mouse = λ c. ground (arith, a.none_on_mouse c);
  on_tab = λ c. ground (arith, a.on_tab c);
}
handle-Agrees l (key down code) v a = elim (Option-cases (lookup code linux_key_codes)) [
  | inl e ↦ rw (e, handle) a
  | inr (kc, e) ↦ rw (e, handle) (pressed kc)
]
  where
    pressed :
        (kc : ℕ)
        → Agrees
            (record l {
              held_keys = if down then insert kc true l.held_keys else delete kc l.held_keys;
            })
            (feed (emit kbd ev_key kc (bool_int32 down) ∷ syn kbd ∷ []) v)
    pressed kc = record {
      keys = λ c.
          ground
            (arith, a.keys c, lookup-insert kc c true l.held_keys, lookup-delete kc c l.held_keys);
      none_on_mouse = λ c. a.none_on_mouse c;
      on_tab = λ c. a.on_tab c;
    }
handle-Agrees l other v a = a

feed-keys_up :
    (held : List (ℕ × Bool)) (v : View) (d : Device) (c : ℕ)
    → feed (keys_up held) v d c
      ≡ (if same_device kbd d && is_some (lookup c held) then false else v d c)
unfolding feed keys_up press lookup
feed-keys_up [] v d c = ground arith
feed-keys_up ((kc, b) ∷ held) v d c =
    ground (arith, feed-keys_up held (press (emit kbd ev_key kc (pos 0)) v) d c)

-- The injector after any events, and the kernel's view of them.
unfoldable pub run : Linux → View → List Event → Linux × View
run l v [] = (l, v)
run l v (e ∷ es) = run (handle l e).0 (feed (handle l e).1 v) es

run-Agrees :
    (l : Linux) (v : View) (es : List Event) → Agrees l v → Agrees (run l v es).0 (run l v es).1
unfolding run
run-Agrees l v [] a = a
run-Agrees l v (e ∷ es) a =
    run-Agrees (handle l e).0 (feed (handle l e).1 v) es (handle-Agrees l e v a)

feed-release_all :
    (l : Linux) (v : View) (d : Device) (c : ℕ) → Agrees l v → feed (release_all l).1 v d c ≡ false
unfolding release_all feed press button_up
feed-release_all l v d c a = rw (feed-append (keys_up l.held_keys) _ v) (by_device d)
  where
    w : View
    w = feed (keys_up l.held_keys) v

    rest : List Emitted
    rest =
        syn kbd
        ∷ (button_up l 0 btn_left
            ++ (button_up l 1 btn_middle ++ (button_up l 2 btn_right ++ syn tab ∷ [])))

    by_device : (d : Device) → feed rest w d c ≡ false
    by_device kbd = ground (arith, feed-keys_up l.held_keys v kbd c, a.keys c)
    by_device mouse = ground (arith, feed-keys_up l.held_keys v mouse c, a.none_on_mouse c)
    by_device tab = ground (arith, feed-keys_up l.held_keys v tab c, a.on_tab c)

-- Whatever the client pressed and released before, in whatever order, when everything is released no
-- key and no button of any of the three devices is left down, and the injector has forgotten all
-- that it held.
pub release_all_frees :
    (es : List Event) (d : Device) (c : ℕ)
    → let (l, v) = run new_linux (λ _ _. false) es in
      (feed (release_all l).1 v d c ≡ false) × ((release_all l).0 ≡ new_linux)
unfolding release_all lookup
release_all_frees es d c =
    let a = run-Agrees new_linux (λ _ _. false) es new-Agrees in (feed-release_all _ _ d c a, refl)
  where
    new-Agrees : Agrees new_linux (λ _ _. false)
    new-Agrees = record { keys = λ c. refl; none_on_mouse = λ c. refl; on_tab = λ c. ground arith }
