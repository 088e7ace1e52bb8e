-- ===== src/Host/Sessions/Live/Run.antt =====
-- Every event keeps the map to the sessions that have not been closed.
use network_computer.Prelude.{
  ℕ, ◌≡◌, refl, sym, ◌∙◌, Bool, true, false, not, ◌&&◌, List, [], ◌∷◌, ◌⊎◌, inl, inr, none, some,
  arith, ==_iff, Bool-cases, Option-cases,
}
use network_computer.Prelude.Assoc.{lookup, insert, lookup-insert}
use network_computer.Prelude.Bytes.{Bytes, bytes_key}
use network_computer.Prelude.Keys.{nat_eq}
use network_computer.Proto.{Message}
use network_computer.Host.Sessions.{
  Host, Session, PcState, fresh, connecting, connected, disconnected, failed, closed, Stage, idle,
  joining, streaming, left, Setup, Event, offer, ice, state, joins, leaves, resize, close_session,
  open_session, on_state, on_state_of, lost, set_pc, started, on_join, on_leave, handle_offer, step,
  run, all_ok, pin_ok, pair_ok, on_join_of, on_leave_of, on_resize,
}
use network_computer.Host.Sessions.Live.{
  HostIsLive, IsLive, close_session-IsLive, known_peer, live_peer, new_session, open_session-IsLive,
  opened_at, write_idle-keeps,
}

module _ {O : Type 0} where
  -- Writing back a session with the same client, closed or not as before, changes nothing here.
  rewrite-IsLive :
      (h : Host O) (id : ℕ) (s t : Session)
      → lookup id h.objs ≡ some s
      → t.peer ≡ s.peer
      → t.cancelled ≡ s.cancelled
      → HostIsLive h
      → IsLive h.sessions (insert id t h.objs) h.next
  rewrite-IsLive h id s t e p c l = record {
    mapped = λ q j at_. same j ∙ l.mapped q j at_;
    live = λ q j at_. l.live q j (sym (same j) ∙ at_);
    unused = λ j le. ground (arith, lookup-insert id j t h.objs, ==_iff id j, l.unused j);
  }
    where
      same : (j : ℕ) → live_peer (insert id t h.objs) j ≡ live_peer h.objs j
      same j = unfold live_peer in ground (arith, lookup-insert id j t h.objs, ==_iff id j)

  set_pc-IsLive :
      (id : ℕ) (s : Session) (st : PcState) (h : Host O)
      → lookup id h.objs ≡ some s
      → HostIsLive h
      → HostIsLive (set_pc id s st h)
  set_pc-IsLive id s st h e l = rewrite-IsLive h id s (record s { pc = st }) e refl refl l

  lost-IsLive :
      (now id : ℕ) (s : Session) (st : PcState) (h : Host O)
      → lookup id h.objs ≡ some s
      → HostIsLive h
      → HostIsLive (lost now id s (set_pc id s st h)).0
  unfolding lost
  lost-IsLive now id s st h e l =
      close_session-IsLive now s.peer id (set_pc id s st h)
        (known_peer id (record s { pc = st }) (insert id (record s { pc = st }) h.objs)
          (ground (arith, lookup-insert id id (record s { pc = st }) h.objs, ==_iff id id)))
        (set_pc-IsLive id s st h e l)

  on_state_of-IsLive :
      (now id : ℕ) (s : Session) (st : PcState) (h : Host O)
      → lookup id h.objs ≡ some s
      → HostIsLive h
      → HostIsLive (on_state_of now id s st h).0
  unfolding on_state_of
  on_state_of-IsLive now id s connected h e l =
      let t : Session = record s { stage = started s.stage; pc = connected } in
      let h' : Host O = record h { objs = insert id t h.objs } in
      let (a, b, c) = write_idle-keeps now h' in
      rw (a, b, c) (rewrite-IsLive h id s t e refl refl l)
  on_state_of-IsLive now id s disconnected h e l = lost-IsLive now id s disconnected h e l
  on_state_of-IsLive now id s failed h e l = lost-IsLive now id s failed h e l
  on_state_of-IsLive now id s closed h e l = lost-IsLive now id s closed h e l
  on_state_of-IsLive now id s fresh h e l = set_pc-IsLive id s fresh h e l
  on_state_of-IsLive now id s connecting h e l = set_pc-IsLive id s connecting h e l

  -- What holds of the host as it was, with the new session, and with that one closed again, holds
  -- behind an offer.
  pub handle_offer_cases {κ} :
      (mac : Bytes → Bytes → Bytes) (now : ℕ) (setup : Setup) (m : Message) (h : Host O)
      (P : Host O → Type κ)
      → P h
      → P (open_session m.from h)
      → P (close_session now m.from h.next (open_session m.from h)).0
      → P (handle_offer mac now setup m h).0
  unfolding handle_offer
  handle_offer_cases mac now setup m h P old opened shut_ =
      elim (Bool-cases (not (pin_ok mac h m) && not (pair_ok mac now h m))) [
        | inl refused ↦ rw refused old
        | inr let_in ↦ rw let_in (elim (Bool-cases (not setup.pc_ok)) [
          | inl no_pc ↦ rw no_pc old
          | inr pc ↦ rw pc (elim (Bool-cases (all_ok setup)) [
            | inl up ↦ rw up opened
            | inr down ↦ rw down shut_
          ])
        ])
      ]

  handle_offer-IsLive :
      (mac : Bytes → Bytes → Bytes) (now : ℕ) (setup : Setup) (m : Message) (h : Host O)
      → HostIsLive h
      → HostIsLive (handle_offer mac now setup m h).0
  handle_offer-IsLive mac now setup m h l =
      handle_offer_cases mac now setup m h HostIsLive l opened
        (close_session-IsLive now m.from h.next (open_session m.from h) new_known opened)
    where
      opened : HostIsLive (open_session m.from h)
      opened = open_session-IsLive m.from h l

      new_known :
          (live_peer (open_session m.from h).objs h.next ≡ none)
          ⊎ (live_peer (open_session m.from h).objs h.next ≡ some m.from)
      new_known =
          known_peer h.next (new_session m.from) (open_session m.from h).objs (opened_at m.from h)

  on_join-IsLive : (id : ℕ) (opts : O) (h : Host O) → HostIsLive h → HostIsLive (on_join id opts h)
  unfolding on_join
  on_join-IsLive id opts h l = elim (Option-cases (lookup id h.objs)) [
    | inl e ↦ rw (e, on_join) l
    | inr (s, e) ↦ rw (e, on_join) (by_stage s s.stage e)
  ]
    where
      by_stage :
          (s : Session) (t : Stage)
          → lookup id h.objs ≡ some s
          → HostIsLive (on_join_of id s t opts h)
      by_stage s joining e = rewrite-IsLive h id s (record s { stage = streaming }) e refl refl l
      by_stage s idle e = l
      by_stage s streaming e = l
      by_stage s left e = l

  on_leave-IsLive : (id : ℕ) (h : Host O) → HostIsLive h → HostIsLive (on_leave id h)
  unfolding on_leave
  on_leave-IsLive id h l = elim (Option-cases (lookup id h.objs)) [
    | inl e ↦ rw (e, on_leave) l
    | inr (s, e) ↦ rw (e, on_leave) (by_stage s s.stage s.cancelled e)
  ]
    where
      by_stage :
          (s : Session) (t : Stage) (done : Bool)
          → lookup id h.objs ≡ some s
          → HostIsLive (on_leave_of id s t done h)
      by_stage s streaming true e = rewrite-IsLive h id s (record s { stage = left }) e refl refl l
      by_stage s streaming false e = l
      by_stage s idle done e = l
      by_stage s joining done e = l
      by_stage s left done e = l

  on_state-IsLive :
      (now id : ℕ) (st : PcState) (h : Host O) → HostIsLive h → HostIsLive (on_state now id st h).0
  unfolding on_state
  on_state-IsLive now id st h l = elim (Option-cases (lookup id h.objs)) [
    | inl e ↦ rw (e, on_state) l
    | inr (s, e) ↦ rw (e, on_state) (on_state_of-IsLive now id s st h e l)
  ]

  on_resize-IsLive :
      (id : ℕ) (opts : O) (h : Host O) → HostIsLive h → HostIsLive (on_resize id opts h)
  unfolding on_resize
  on_resize-IsLive id opts h l = elim (Option-cases (lookup id h.objs)) [
    | inl e ↦ rw (e, on_resize) l
    | inr (s, e) ↦
        rw (e, on_resize) (record { mapped = l.mapped; live = l.live; unused = l.unused })
  ]

  pub step-IsLive :
      (mac : Bytes → Bytes → Bytes) (now : ℕ) (e : Event O) (h : Host O)
      → HostIsLive h
      → HostIsLive (step mac now e h).0
  unfolding step
  step-IsLive mac now (offer setup m) h l = handle_offer-IsLive mac now setup m h l
  step-IsLive mac now (ice m) h l = l
  step-IsLive mac now (state id st) h l = on_state-IsLive now id st h l
  step-IsLive mac now (joins id opts) h l = on_join-IsLive id opts h l
  step-IsLive mac now (leaves id) h l = on_leave-IsLive id h l
  step-IsLive mac now (resize id opts) h l = on_resize-IsLive id opts h l

  -- Whatever offers, connection states and goroutines come, in any order, the map has for each client
  -- exactly its session that has not been closed, so no client has two, and closing a session that
  -- was replaced does not take the new one out.
  pub run-IsLive :
      (mac : Bytes → Bytes → Bytes) (es : List (ℕ × Event O)) (h : Host O)
      → HostIsLive h
      → HostIsLive (run mac es h)
  unfolding run
  run-IsLive mac [] h l = l
  run-IsLive mac ((now, e) ∷ es) h l =
      run-IsLive mac es (step mac now e h).0 (step-IsLive mac now e h l)
