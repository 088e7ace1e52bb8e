-- ===== src/Input/Darwin.antt =====
-- internal/input/input_darwin.go: the injector on Core Graphics. What it posts is the list that each
-- operation gives back; a point is of a type P, with what mm and mr make of it as arguments, since
-- the coordinates are floats. `mods` is the set of its four flags. The mutex is not re-entrant: a call
-- that takes it while it is held never returns, which is `none`.
pub mod Keys
pub mod Release
use network_computer.Prelude.{
  ℕ, suc, ◌+◌, Bool, true, false, not, ◌&&◌, ◌||◌, List, [], ◌∷◌, ◌++◌, Option, none, some, ◌==◌,
  ltb, if◌then◌else◌,
}
use network_computer.Prelude.Assoc.{lookup, insert, delete}
use network_computer.Prelude.Bytes.{Bytes, bytes_key, codes}
use network_computer.Prelude.Keys.{nat_eq}
use Keys.{key_codes}

abbrev pub ev_left_down : ℕ
ev_left_down = 1

abbrev pub ev_right_down : ℕ
ev_right_down = 3

abbrev pub ev_mouse_move : ℕ
ev_mouse_move = 5

abbrev pub ev_left_dragged : ℕ
ev_left_dragged = 6

abbrev pub ev_right_dragged : ℕ
ev_right_dragged = 7

abbrev pub ev_other_down : ℕ
ev_other_down = 25

abbrev pub ev_other_dragged : ℕ
ev_other_dragged = 27

pub data Flag : Type 0 where
  shift ctrl alt cmd : Flag

abbrev pub same_flag : Flag → Flag → Bool
same_flag shift shift = true
same_flag ctrl ctrl = true
same_flag alt alt = true
same_flag cmd cmd = true
same_flag _ _ = false

abbrev pub Mods : Type 0
Mods = Flag → Bool

abbrev pub no_mods : Mods
no_mods _ = false

abbrev pub mod_flags : List (Bytes × Flag)
mod_flags =
    (codes "ShiftLeft", shift)
    ∷ (codes "ShiftRight", shift)
    ∷ (codes "ControlLeft", ctrl)
    ∷ (codes "ControlRight", ctrl)
    ∷ (codes "AltLeft", alt)
    ∷ (codes "AltRight", alt)
    ∷ (codes "MetaLeft", cmd)
    ∷ (codes "MetaRight", cmd)
    ∷ []

-- postMouse, postScroll and postKey.
pub data Posted (P : Type 0) : Type 0 where
  post_mouse : ℕ → P → ℕ → Mods → Posted P
  post_scroll : P → Mods → Posted P
  post_key : ℕ → Bool → Mods → Posted P

pub record Mac (P : Type 0) : Type 0 where
  pub at : P
  pub buttons : ℕ → Bool
  pub mods : Mods
  pub held_keys : List (ℕ × Bool)

pub data Event (P : Type 0) : Type 0 where
  move : P → Event P
  relative : P → Event P
  button : Bool → ℕ → Event P
  wheel : P → Event P
  key : Bool → Bytes → Event P
  other : Event P

-- For a modifier's key, `mods` with its flag set or cleared.
abbrev pub mods_after : Bool → Option Flag → Mods → Mods
mods_after down none mods = mods
mods_after down (some f) mods = λ g. if same_flag f g then down else mods g

-- The type and the button number of a press; a release is of the next type.
unfoldable pub press_of : ℕ → ℕ × ℕ
press_of b =
    if b == 0 then (ev_left_down, 0) else if b == 2 then (ev_right_down, 1) else (ev_other_down, 2)

module _ {P : Type 0} where
  abbrev pub new_mac : P → Mac P
  new_mac at = record { at = at; buttons = λ _. false; mods = no_mods; held_keys = [] }

  unfoldable pub cg_button : Mac P → ℕ
  cg_button m = if m.buttons 2 then 1 else if m.buttons 1 then 2 else 0

  unfoldable pub move_type : Mac P → ℕ
  move_type m =
      if m.buttons 0
      then ev_left_dragged
      else if m.buttons 2
      then ev_right_dragged
      else if m.buttons 1
      then ev_other_dragged
      else ev_mouse_move

  abbrev pub moved_to : P → Mac P → Mac P × List (Posted P)
  moved_to p m =
      let m' = record m { at = p } in (m', post_mouse (move_type m') p (cg_button m') m.mods ∷ [])

module _ {P : Type 0} (to_global : P → P) (moved : P → P → P) (turned : P → P) where
  -- Handle, with the mutex free.
  unfoldable pub handle : Mac P → Event P → Mac P × List (Posted P)
  unfolding press_of cg_button move_type
  handle m (move p) = moved_to (to_global p) m
  handle m (relative d) = moved_to (moved m.at d) m
  handle m (button down b) = if ltb 2 b then (m, []) else (
    record m { buttons = λ i. if i == b then down else m.buttons i },
    post_mouse (if down then (press_of b).0 else suc (press_of b).0) m.at (press_of b).1 m.mods
        ∷ [],
  )
  handle m (wheel d) = (m, post_scroll (turned d) m.mods ∷ [])
  handle m (key down code) = elim (lookup code key_codes) [
    | none ↦ (m, [])
    | some kc ↦
        let mods' : Mods = mods_after down (lookup code mod_flags) m.mods in
        (
          record m {
            mods = mods';
            held_keys = if down then insert kc true m.held_keys else delete kc m.held_keys;
          },
          post_key kc down mods' ∷ [],
        )
  ]
  handle m other = (m, [])

module _ {P : Type 0} where
  unfoldable pub keys_up : List (ℕ × Bool) → List (Posted P)
  keys_up [] = []
  keys_up ((kc, _) ∷ held) = post_key kc false no_mods ∷ keys_up held

  -- The rest of an operation, and what was posted before it.
  unfoldable pub then_posts :
      List (Posted P) → Option (Mac P × List (Posted P)) → Option (Mac P × List (Posted P))
  then_posts posts none = none
  then_posts posts (some (m, more)) = some (m, posts ++ more)

module _ {P : Type 0} (to_global : P → P) (moved : P → P → P) (turned : P → P) where
  -- A call of Handle while the mutex is held or free: `m.mu.Lock()` waits for a mutex that is held.
  unfoldable pub call_handle : Bool → Mac P → Event P → Option (Mac P × List (Posted P))
  call_handle locked m e = if locked then none else some (handle to_global moved turned m e)

  -- The loop over the buttons, with the mutex held or not.
  unfoldable pub release_buttons : Bool → List ℕ → Mac P → Option (Mac P × List (Posted P))
  unfolding call_handle then_posts
  release_buttons locked [] m = some (m, [])
  release_buttons locked (b ∷ bs) m = elim (m.buttons b) [
    | false ↦ release_buttons locked bs m
    | true ↦ elim (call_handle locked m (button false b)) [
      | none ↦ none
      | some (m', posts) ↦ then_posts posts (release_buttons locked bs m')
    ]
  ]

  -- ReleaseAll, which takes the mutex and holds it to the end.
  unfoldable pub release_all : Mac P → Option (Mac P × List (Posted P))
  unfolding keys_up then_posts release_buttons
  release_all m =
      then_posts (keys_up m.held_keys)
        (release_buttons true (0 ∷ 1 ∷ 2 ∷ []) (record m { held_keys = []; mods = no_mods }))
