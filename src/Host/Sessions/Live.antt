-- ===== src/Host/Sessions/Live.antt =====
-- Which sessions are in the map: for each client the one that has not been closed.
pub mod Run
use network_computer.Prelude.{
  ℕ, suc, ◌+◌, ◌≤◌, ◌<◌, ◌≡◌, ◌≢◌, ◌↔◌, refl, sym, ap, ◌∙◌, Bool, true, false, not, ◌&&◌, ◌||◌,
  List, [], ◌∷◌, ◌⊎◌, inl, inr, Option, none, some, arith, is_nil, ◌==◌, ==_iff, if◌then◌else◌,
  Bool-cases, Option-cases,
}
use network_computer.Prelude.Assoc.{lookup, insert, delete, lookup-insert, lookup-delete}
use network_computer.Prelude.Bytes.{Bytes, bytes_key, bytes_eq, bytes_eq_iff}
use network_computer.Prelude.Keys.{nat_eq}
use network_computer.Proto.{Message}
use network_computer.Host.Sessions.{
  Host, Session, PcState, fresh, connecting, connected, disconnected, failed, closed, Stage, idle,
  joining, streaming, left, Setup, Event, offer, ice, state, joins, leaves, resize, update, shut,
  write_idle, holds, drop_session, close_session, open_session, on_state, on_state_of, lost, set_pc,
  started, on_join, on_leave, handle_offer, step, run, all_ok, pin_ok, pair_ok, on_join_of,
  on_leave_of, on_resize,
}

pub lookup-update :
    (f : Session → Session) (id j : ℕ) (objs : List (ℕ × Session))
    → lookup j (update f id objs) ≡ (
        if id == j
        then elim (lookup j objs) [ none ↦ none | some s ↦ some (f s) ]
        else lookup j objs)
unfolding update
lookup-update f id j objs = elim (Option-cases (lookup id objs)) [
  | inl e ↦ rw (e, update) (ground (arith, ==_iff id j))
  | inr (s, e) ↦ rw (e, update) (ground (arith, ==_iff id j, lookup-insert id j (f s) objs))
]

-- The client of a session that has not been closed.
unfoldable pub live_peer : List (ℕ × Session) → ℕ → Option Bytes
live_peer objs id = elim (lookup id objs) [
  | none ↦ none
  | some s ↦ (if s.cancelled then none else some s.peer)
]

live_peer-insert :
    (id j : ℕ) (s : Session) (objs : List (ℕ × Session))
    → live_peer (insert id s objs) j
      ≡ (if id == j then (if s.cancelled then none else some s.peer) else live_peer objs j)
live_peer-insert id j s objs = unfold live_peer in ground (arith, lookup-insert id j s objs)

live_peer-shut :
    (id j : ℕ) (objs : List (ℕ × Session))
    → live_peer (update shut id objs) j ≡ (if id == j then none else live_peer objs j)
live_peer-shut id j objs = unfold live_peer in ground (arith, lookup-update shut id j objs)

unlive : (j : ℕ) (objs : List (ℕ × Session)) → lookup j objs ≡ none → live_peer objs j ≡ none
unfolding live_peer
unlive j objs e = ground arith

abbrev pub new_session : Bytes → Session
new_session peer = record { peer = peer; pc = fresh; cancelled = false; stage = idle }

-- A session in the store is closed or its client's.
pub known_peer :
    (id : ℕ) (s : Session) (objs : List (ℕ × Session))
    → lookup id objs ≡ some s
    → (live_peer objs id ≡ none) ⊎ (live_peer objs id ≡ some s.peer)
unfolding live_peer
known_peer id s objs e = elim (Bool-cases s.cancelled) [
  | inl shut_ ↦ inl (ground arith)
  | inr open_ ↦ inr (ground arith)
]

pub record IsLive (sessions : List (Bytes × ℕ)) (objs : List (ℕ × Session)) (next : ℕ)
    : Type 0 where
  pub mapped :
      (peer : Bytes) (id : ℕ) → lookup peer sessions ≡ some id → live_peer objs id ≡ some peer
  pub live :
      (peer : Bytes) (id : ℕ) → live_peer objs id ≡ some peer → lookup peer sessions ≡ some id
  pub unused : (id : ℕ) → next ≤ id → lookup id objs ≡ none

module _ {O : Type 0} where
  abbrev pub HostIsLive : Host O → Type 0
  HostIsLive h = IsLive h.sessions h.objs h.next

  drop_session-IsLive :
      (peer : Bytes) (id : ℕ) (h : Host O)
      → (live_peer h.objs id ≡ none) ⊎ (live_peer h.objs id ≡ some peer)
      → HostIsLive h
      → HostIsLive (drop_session peer id h)
  unfolding drop_session holds
  drop_session-IsLive peer id h known l = record {
    mapped = λ q j e. ground (
      arith,
      live_peer-shut id j h.objs,
      lookup-delete peer q h.sessions,
      bytes_eq_iff peer q,
      ==_iff id j,
      l.mapped q j,
      l.mapped peer id,
    );
    live = λ q j e. ground (
      arith,
      live_peer-shut id j h.objs,
      lookup-delete peer q h.sessions,
      bytes_eq_iff peer q,
      ==_iff id j,
      l.live q j,
      l.live peer id,
    );
    unused = λ j le. ground (arith, lookup-update shut id j h.objs, l.unused j);
  }

  pub write_idle-keeps :
      (now : ℕ) (h : Host O)
      → ((write_idle now h).0.sessions ≡ h.sessions)
        × ((write_idle now h).0.objs ≡ h.objs)
        × ((write_idle now h).0.next ≡ h.next)
  unfolding write_idle
  write_idle-keeps now h = ground arith

  pub close_session-IsLive :
      (now : ℕ) (peer : Bytes) (id : ℕ) (h : Host O)
      → (live_peer h.objs id ≡ none) ⊎ (live_peer h.objs id ≡ some peer)
      → HostIsLive h
      → HostIsLive (close_session now peer id h).0
  unfolding close_session
  close_session-IsLive now peer id h known l =
      let (a, b, c) = write_idle-keeps now (drop_session peer id h) in
      rw (a, b, c) (drop_session-IsLive peer id h known l)

  -- A new session in the map, over the others less those of its client.
  module _ (peer : Bytes) (h : Host O) (objs : List (ℕ × Session)) (l : HostIsLive h) where
    with_new-IsLive :
        ((j : ℕ) (q : Bytes)
          → live_peer objs j ≡ some q
          → (live_peer h.objs j ≡ some q) × (bytes_eq peer q ≡ false))
        → ((j : ℕ) (q : Bytes)
            → live_peer h.objs j ≡ some q
            → bytes_eq peer q ≡ false
            → live_peer objs j ≡ some q)
        → ((j : ℕ) → h.next ≤ j → lookup j objs ≡ none)
        → IsLive
            (insert peer h.next h.sessions)
            (insert h.next (new_session peer) objs)
            (suc h.next)
    with_new-IsLive kept keeps unused = record {
      mapped = λ q j e. ground (
        arith,
        lookup-insert peer q h.next h.sessions,
        live_peer-insert h.next j (new_session peer) objs,
        bytes_eq_iff peer q,
        ==_iff h.next j,
        l.mapped q j,
        keeps j q,
        unlive j h.objs,
        l.unused j,
      );
      live = λ q j e. ground (
        arith,
        lookup-insert peer q h.next h.sessions,
        live_peer-insert h.next j (new_session peer) objs,
        bytes_eq_iff peer q,
        ==_iff h.next j,
        kept j q,
        l.live q j,
      );
      unused = λ j le.
          ground (arith, lookup-insert h.next j (new_session peer) objs, ==_iff h.next j, unused j);
    }

  pub opened_at :
      (peer : Bytes) (h : Host O)
      → lookup h.next (open_session peer h).objs ≡ some (new_session peer)
  unfolding open_session
  opened_at peer h =
      lookup-insert h.next h.next (new_session peer) _ ∙ ground (arith, ==_iff h.next h.next)

  pub open_session-IsLive :
      (peer : Bytes) (h : Host O) → HostIsLive h → HostIsLive (open_session peer h)
  unfolding open_session
  open_session-IsLive peer h l = elim (Option-cases (lookup peer h.sessions)) [
    | inl e ↦ rw e (
        with_new-IsLive peer h h.objs l (λ j q at_. ground (arith, l.live q j, bytes_eq_iff peer q))
          (λ j q at_ apart. at_) l.unused)
    | inr (old, e) ↦ rw e (
        with_new-IsLive peer h (update shut old h.objs) l
          (λ j q at_.
            ground
              (arith, live_peer-shut old j h.objs, l.live q j, bytes_eq_iff peer q, ==_iff old j))
          (λ j q at_ apart. ground (
            arith,
            live_peer-shut old j h.objs,
            l.mapped peer old,
            ==_iff old j,
            bytes_eq_iff peer q,
          ))
          (λ j le. ground (arith, lookup-update shut old j h.objs, l.unused j)))
  ]
