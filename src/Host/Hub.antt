-- ===== src/Host/Hub.antt =====
-- cmd/nc-host/hub.go: one encoder for every device. A subscriber is a number, for its pointer; the
-- encoder that runs is a number too, for the cancel function and the done channel that the hub
-- keeps of it. Each function is what one section under the mutex does, and `leave`, `restart` and
-- `stop` are the sections composed with nobody in between; sections of two devices that mix are in
-- Encoder.
pub mod Encoder
pub mod Gate
use network_computer.Prelude.{
  ℕ, suc, ◌+◌, Bool, true, false, not, ◌&&◌, ◌||◌, List, [], ◌∷◌, map, Option, none, some, is_nil,
  if◌then◌else◌,
}
use network_computer.Prelude.Assoc.{lookup, insert, delete}
use network_computer.Prelude.Keys.{nat_eq}

-- The encoder that is running, with its options.
pub record Running (O : Type 0) : Type 0 where
  pub id : ℕ
  pub opts : O

-- `subs` has each subscriber's `waiting`; `starts` counts the encoders started.
pub record Hub (O : Type 0) : Type 0 where
  pub gated : Bool
  pub subs : List (ℕ × Bool)
  pub encoder : Option (Running O)
  pub next_key : Bool
  pub starts : ℕ

-- A subscriber that waits gets the sample only if it holds a keyframe.
abbrev pub passes : Bool → Bool → Bool
passes key waiting = not waiting || key

module _ {O : Type 0} where
  abbrev pub new_hub : Bool → Hub O
  new_hub gated = record { gated = gated; subs = []; encoder = none; next_key = false; starts = 0 }

  unfoldable pub start_locked : O → Hub O → Hub O
  start_locked opts h = record h {
    encoder = some (record { id = h.starts; opts = opts });
    starts = suc h.starts;
  }

  unfoldable pub join : ℕ → O → Hub O → Hub O
  unfolding start_locked
  join s opts h =
      let h' = record h { subs = insert s h.gated h.subs } in
      elim h.encoder [ none ↦ start_locked opts h' | some _ ↦ h' ]

  -- The locked part of leaving: the hub after it, and whether nobody is left.
  unfoldable pub leave_locked : ℕ → Hub O → Hub O × Bool
  leave_locked s h = let subs' = delete s h.subs in (record h { subs = subs' }, is_nil subs')

  -- The locked part of `stop`; the encoder that it took out is then cancelled and waited for.
  unfoldable pub stop : Hub O → Hub O
  stop h = record h { encoder = none }

  unfoldable pub leave : ℕ → Hub O → Hub O
  unfolding leave_locked stop
  leave s h = let (h', empty) = leave_locked s h in if empty then stop h' else h'

  -- The part of `restart` behind the stops, when no encoder is left.
  unfoldable pub restart_locked : O → Hub O → Hub O
  unfolding start_locked
  restart_locked opts h =
      if is_nil h.subs
      then h
      else start_locked opts (record h { subs = map (λ p. (p.0, h.gated)) h.subs })

  unfoldable pub restart : O → Hub O → Hub O
  unfolding restart_locked stop
  restart opts h = restart_locked opts (stop h)

  unfoldable pub keyframe : Hub O → Hub O
  keyframe h = record h { next_key = true }

  -- WriteSample: the hub after it, and which subscribers the sample is written to.
  unfoldable pub write_sample : Hub O → Hub O × (ℕ → Bool)
  write_sample h = (
    record h { next_key = false; subs = map (λ p. (p.0, not (passes h.next_key p.1))) h.subs },
    λ s. elim (lookup s h.subs) [ none ↦ false | some waiting ↦ passes h.next_key waiting ],
  )
