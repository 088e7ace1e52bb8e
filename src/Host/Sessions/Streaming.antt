-- ===== src/Host/Sessions/Streaming.antt =====
-- The encoders over any events of any sessions: they run exactly while a session streams.
pub mod Run
use network_computer.Prelude.{
  ℕ, suc, ◌+◌, ◌≤◌, ◌<◌, ◌≡◌, ◌≢◌, ◌↔◌, refl, sym, ap, ◌∙◌, Bool, true, false, not, ◌&&◌, ◌||◌,
  List, [], ◌∷◌, ◌⊎◌, inl, inr, Option, none, some, arith, is_nil, ◌==◌, ==_iff, if◌then◌else◌,
  Bool-cases, Option-cases,
}
use network_computer.Prelude.Assoc.{lookup, insert, delete, lookup-insert, lookup-delete}
use network_computer.Prelude.Bytes.{Bytes, bytes_key}
use network_computer.Prelude.Keys.{nat_eq}
use network_computer.Proto.{Message}
use network_computer.Host.Hub.{Hub, join, leave, leave_locked, start_locked, stop, restart}
use network_computer.Host.Hub.Encoder.{Balanced, joins, leaves, restarts, apply, apply-Balanced}
use network_computer.Host.Hub.Gate.{lookup-map}
use network_computer.Host.Sessions.{
  Host, Session, PcState, fresh, connecting, connected, disconnected, failed, closed, Stage, idle,
  joining, streaming, left, Setup, Event, offer, ice, state, resize, update, shut, set_pc, started,
  write_idle, drop_session, lost, close_session, open_session, on_state, on_state_of, on_join,
  on_join_of, on_leave, on_leave_of, on_resize, all_ok, pin_ok, pair_ok, handle_offer, step, run,
}
use network_computer.Host.Sessions.Live.{
  IsLive, HostIsLive, lookup-update, write_idle-keeps, new_session,
}

abbrev pub is_streaming : Stage → Bool
is_streaming streaming = true
is_streaming idle = false
is_streaming joining = false
is_streaming left = false

unfoldable pub streams_at : List (ℕ × Session) → ℕ → Bool
streams_at objs id = elim (lookup id objs) [ none ↦ false | some s ↦ is_streaming s.stage ]

pub streams_at-insert :
    (id j : ℕ) (s : Session) (objs : List (ℕ × Session))
    → streams_at (insert id s objs) j
      ≡ (if id == j then is_streaming s.stage else streams_at objs j)
unfolding streams_at
streams_at-insert id j s objs = ground (arith, lookup-insert id j s objs)

pub streams_at-shut :
    (id j : ℕ) (objs : List (ℕ × Session)) → streams_at (update shut id objs) j ≡ streams_at objs j
unfolding streams_at
streams_at-shut id j objs = ground (arith, lookup-update shut id j objs)

pub streams_at-at :
    (id : ℕ) (s : Session) (objs : List (ℕ × Session))
    → lookup id objs ≡ some s
    → streams_at objs id ≡ is_streaming s.stage
unfolding streams_at
streams_at-at id s objs e = rw (e, streams_at) refl

abbrev pub is_in : ℕ → List (ℕ × Bool) → Bool
is_in id m = elim (lookup id m) [ none ↦ false | some _ ↦ true ]

pub started-streaming : (t : Stage) → is_streaming (started t) ≡ is_streaming t
started-streaming idle = refl
started-streaming joining = refl
started-streaming streaming = refl
started-streaming left = refl

-- An encoder's subscribers are the sessions that stream, and it runs exactly if there are some.
pub record Streams {O : Type 0} (hub : Hub O) (objs : List (ℕ × Session)) : Type 0 where
  pub subs : (id : ℕ) → is_in id hub.subs ≡ streams_at objs id
  pub balanced : Balanced hub

-- The hub of the sound is used only with a sound device.
pub record AllStream {O : Type 0} (h : Host O) : Type 0 where
  pub on_video : Streams h.video h.objs
  pub on_sound : h.has_audio ≡ true → Streams h.sound h.objs

module _ {O : Type 0} where
  abbrev pub SameHubs : Host O → Host O → Type 0
  SameHubs h h' = (h'.video ≡ h.video) × (h'.sound ≡ h.sound) × (h'.has_audio ≡ h.has_audio)

  -- A step that leaves the encoders, and which sessions stream, as they are.
  pub same-AllStream :
      (h h' : Host O)
      → SameHubs h h'
      → ((id : ℕ) → streams_at h'.objs id ≡ streams_at h.objs id)
      → AllStream h
      → AllStream h'
  same-AllStream h h' (v, s, u) same a = record {
    on_video = rw v (record {
      subs = λ id. a.on_video.subs id ∙ sym (same id);
      balanced = a.on_video.balanced;
    });
    on_sound = λ on.
        let t = a.on_sound (sym u ∙ on) in
        rw s (record { subs = λ id. t.subs id ∙ sym (same id); balanced = t.balanced });
  }

  pub join-Streams :
      (id : ℕ) (opts : O) (hub : Hub O) (s : Session) (objs : List (ℕ × Session))
      → Streams hub objs
      → Streams (join id opts hub) (insert id (record s { stage = streaming }) objs)
  join-Streams id opts hub s objs t = record {
    subs = λ j.
        unfold join in
        ground (
          arith,
          t.subs j,
          streams_at-insert id j (record s { stage = streaming }) objs,
          lookup-insert id j hub.gated hub.subs,
          ==_iff id j,
        );
    balanced = unfold apply in apply-Balanced hub (joins id opts) t.balanced;
  }

  pub leave-Streams :
      (id : ℕ) (hub : Hub O) (s : Session) (objs : List (ℕ × Session))
      → Streams hub objs
      → Streams (leave id hub) (insert id (record s { stage = left }) objs)
  leave-Streams id hub s objs t = record {
    subs = λ j.
        unfold leave in
        ground (
          arith,
          t.subs j,
          streams_at-insert id j (record s { stage = left }) objs,
          lookup-delete id j hub.subs,
          ==_iff id j,
        );
    balanced = unfold apply in apply-Balanced hub (leaves id) t.balanced;
  }

  pub restart-Streams :
      (opts : O) (hub : Hub O) (objs : List (ℕ × Session))
      → Streams hub objs
      → Streams (restart opts hub) objs
  restart-Streams opts hub objs t = record {
    subs = λ j. unfold restart in ground (arith, t.subs j, lookup-map (λ _. hub.gated) j hub.subs);
    balanced = unfold apply in apply-Balanced hub (restarts opts) t.balanced;
  }
