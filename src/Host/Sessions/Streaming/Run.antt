-- ===== src/Host/Sessions/Streaming/Run.antt =====
-- Every event keeps the encoders to the sessions that stream.
use network_computer.Prelude.{
  ℕ, ◌≡◌, refl, ap, Bool, true, false, List, [], ◌∷◌, inl, inr, some, arith, ==_iff, Option-cases,
}
use network_computer.Prelude.Assoc.{lookup, insert}
use network_computer.Prelude.Bytes.{Bytes, bytes_key}
use network_computer.Prelude.Keys.{nat_eq}
use network_computer.Proto.{Message}
use network_computer.Host.Sessions.{
  Host, Session, PcState, fresh, connecting, connected, disconnected, failed, closed, Stage, idle,
  joining, streaming, left, Setup, Event, offer, ice, state, resize, update, shut, set_pc, started,
  write_idle, drop_session, lost, close_session, open_session, on_state, on_state_of, on_join,
  on_join_of, on_leave, on_leave_of, on_resize, handle_offer, step, run,
}
use network_computer.Host.Sessions.Live.{HostIsLive, write_idle-keeps, new_session}
use network_computer.Host.Sessions.Live.Run.{handle_offer_cases, step-IsLive}
use network_computer.Host.Sessions.Streaming.{
  AllStream, SameHubs, is_streaming, join-Streams, leave-Streams, restart-Streams, same-AllStream,
  started-streaming, streams_at, streams_at-at, streams_at-insert, streams_at-shut,
}

module _ {O : Type 0} where
  write_idle-hubs : (now : ℕ) (h : Host O) → SameHubs h (write_idle now h).0
  unfolding write_idle
  write_idle-hubs now h = ground arith

  write_idle-AllStream : (now : ℕ) (h : Host O) → AllStream h → AllStream (write_idle now h).0
  write_idle-AllStream now h a =
      same-AllStream h (write_idle now h).0 (write_idle-hubs now h)
        (λ id. ap (λ objs. streams_at objs id) (write_idle-keeps now h).1) a

  close_session-AllStream :
      (now : ℕ) (peer : Bytes) (id : ℕ) (h : Host O)
      → AllStream h
      → AllStream (close_session now peer id h).0
  unfolding close_session drop_session
  close_session-AllStream now peer id h a = write_idle-AllStream now (drop_session peer id h) (
      same-AllStream h (drop_session peer id h) (refl, refl, refl)
        (λ j. streams_at-shut id j h.objs) a)

  open_session-AllStream :
      (peer : Bytes) (h : Host O) → HostIsLive h → AllStream h → AllStream (open_session peer h)
  unfolding open_session
  open_session-AllStream peer h l a =
      same-AllStream h (open_session peer h) (refl, refl, refl) same a
    where
      unused_at : (j : ℕ) → h.next ≡ j → streams_at h.objs j ≡ false
      unused_at j e = unfold streams_at in ground (arith, l.unused j)

      same : (j : ℕ) → streams_at (open_session peer h).objs j ≡ streams_at h.objs j
      same j = elim (Option-cases (lookup peer h.sessions)) [
        | inl e ↦ rw e (
            ground (
              arith,
              streams_at-insert h.next j (new_session peer) h.objs,
              ==_iff h.next j,
              unused_at j,
            ))
        | inr (old, e) ↦ rw e (
            ground (
              arith,
              streams_at-insert h.next j (new_session peer) (update shut old h.objs),
              streams_at-shut old j h.objs,
              ==_iff h.next j,
              unused_at j,
            ))
      ]

  set-AllStream :
      (id : ℕ) (s t : Session) (h : Host O)
      → lookup id h.objs ≡ some s
      → is_streaming t.stage ≡ is_streaming s.stage
      → AllStream h
      → AllStream (record h { objs = insert id t h.objs })
  set-AllStream id s t h e same a =
      same-AllStream h (record h { objs = insert id t h.objs }) (refl, refl, refl)
        (λ j.
          ground (arith, streams_at-insert id j t h.objs, streams_at-at id s h.objs e, ==_iff id j))
        a

  on_state_of-AllStream :
      (now id : ℕ) (s : Session) (st : PcState) (h : Host O)
      → lookup id h.objs ≡ some s
      → AllStream h
      → AllStream (on_state_of now id s st h).0
  unfolding on_state_of lost
  on_state_of-AllStream now id s connected h e a = write_idle-AllStream now _ (
      set-AllStream id s (record s { stage = started s.stage; pc = connected }) h e
        (started-streaming s.stage) a)
  on_state_of-AllStream now id s disconnected h e a =
      close_session-AllStream now s.peer id (set_pc id s disconnected h)
        (set-AllStream id s (record s { pc = disconnected }) h e refl a)
  on_state_of-AllStream now id s failed h e a =
      close_session-AllStream now s.peer id (set_pc id s failed h)
        (set-AllStream id s (record s { pc = failed }) h e refl a)
  on_state_of-AllStream now id s closed h e a =
      close_session-AllStream now s.peer id (set_pc id s closed h)
        (set-AllStream id s (record s { pc = closed }) h e refl a)
  on_state_of-AllStream now id s fresh h e a =
      set-AllStream id s (record s { pc = fresh }) h e refl a
  on_state_of-AllStream now id s connecting h e a =
      set-AllStream id s (record s { pc = connecting }) h e refl a

  on_join-AllStream : (id : ℕ) (opts : O) (h : Host O) → AllStream h → AllStream (on_join id opts h)
  unfolding on_join on_join_of
  on_join-AllStream id opts h a = elim (Option-cases (lookup id h.objs)) [
    | inl e ↦ rw (e, on_join) a
    | inr (s, e) ↦ rw (e, on_join) (by_stage s s.stage)
  ]
    where
      by_stage : (s : Session) (t : Stage) → AllStream (on_join_of id s t opts h)
      by_stage s joining = record {
        on_video = join-Streams id opts h.video s h.objs a.on_video;
        on_sound = λ on. rw on (join-Streams id opts h.sound s h.objs (a.on_sound on));
      }
      by_stage s idle = a
      by_stage s streaming = a
      by_stage s left = a

  on_leave-AllStream : (id : ℕ) (h : Host O) → AllStream h → AllStream (on_leave id h)
  unfolding on_leave on_leave_of
  on_leave-AllStream id h a = elim (Option-cases (lookup id h.objs)) [
    | inl e ↦ rw (e, on_leave) a
    | inr (s, e) ↦ rw (e, on_leave) (by_stage s s.stage s.cancelled)
  ]
    where
      by_stage : (s : Session) (t : Stage) (done : Bool) → AllStream (on_leave_of id s t done h)
      by_stage s streaming true = record {
        on_video = leave-Streams id h.video s h.objs a.on_video;
        on_sound = λ on. rw on (leave-Streams id h.sound s h.objs (a.on_sound on));
      }
      by_stage s streaming false = a
      by_stage s idle done = a
      by_stage s joining done = a
      by_stage s left done = a

  on_state-AllStream :
      (now id : ℕ) (st : PcState) (h : Host O) → AllStream h → AllStream (on_state now id st h).0
  unfolding on_state
  on_state-AllStream now id st h a = elim (Option-cases (lookup id h.objs)) [
    | inl e ↦ rw (e, on_state) a
    | inr (s, e) ↦ rw (e, on_state) (on_state_of-AllStream now id s st h e a)
  ]

  on_resize-AllStream :
      (id : ℕ) (opts : O) (h : Host O) → AllStream h → AllStream (on_resize id opts h)
  unfolding on_resize
  on_resize-AllStream id opts h a = elim (Option-cases (lookup id h.objs)) [
    | inl e ↦ rw (e, on_resize) a
    | inr (s, e) ↦
        rw (e, on_resize)
          (record {
            on_video = restart-Streams opts h.video h.objs a.on_video;
            on_sound = a.on_sound;
          })
  ]

  handle_offer-AllStream :
      (mac : Bytes → Bytes → Bytes) (now : ℕ) (setup : Setup) (m : Message) (h : Host O)
      → HostIsLive h
      → AllStream h
      → AllStream (handle_offer mac now setup m h).0
  handle_offer-AllStream mac now setup m h l a =
      handle_offer_cases mac now setup m h AllStream a opened
        (close_session-AllStream now m.from h.next (open_session m.from h) opened)
    where
      opened : AllStream (open_session m.from h)
      opened = open_session-AllStream m.from h l a

  step-AllStream :
      (mac : Bytes → Bytes → Bytes) (now : ℕ) (e : Event O) (h : Host O)
      → HostIsLive h
      → AllStream h
      → AllStream (step mac now e h).0
  unfolding step
  step-AllStream mac now (offer setup m) h l a = handle_offer-AllStream mac now setup m h l a
  step-AllStream mac now (ice m) h l a = a
  step-AllStream mac now (state id st) h l a = on_state-AllStream now id st h a
  step-AllStream mac now (Event.joins id opts) h l a = on_join-AllStream id opts h a
  step-AllStream mac now (Event.leaves id) h l a = on_leave-AllStream id h a
  step-AllStream mac now (resize id opts) h l a = on_resize-AllStream id opts h a

  -- Whatever offers, connection states, sizes and goroutines come, in any order, each event handled as
  -- a whole, so that nothing falls between the two locked sections of a leave or of a restart: each
  -- encoder's subscribers are exactly the sessions that stream, and it runs exactly while there are
  -- some.
  pub run-AllStream :
      (mac : Bytes → Bytes → Bytes) (es : List (ℕ × Event O)) (h : Host O)
      → HostIsLive h
      → AllStream h
      → AllStream (run mac es h)
  unfolding run
  run-AllStream mac [] h l a = a
  run-AllStream mac ((now, e) ∷ es) h l a =
      run-AllStream mac es (step mac now e h).0 (step-IsLive mac now e h l)
        (step-AllStream mac now e h l a)
