-- ===== src/Rendezvous/Hub/Routing.antt =====
-- What the hub writes for a frame: to whom, and under whose id.
use network_computer.Prelude.{
  ℕ, ◌≡◌, refl, Bool, [], ◌⊎◌, some, All, is_nil, Option-cases, Bool-cases, inl, inr,
}
use network_computer.Proto.{
  Message, Kind, register, hosts, offer, answer, ice, error, unknown, kind_of,
}
use network_computer.Rendezvous.Hub.{Hub, client_id, lookup_peer, Write, forward, dispatch, handle}

-- A write answers the sender, in the hub's own name, or is the frame, for the peer that it names.
abbrev pub Routed : Hub → ℕ → Message → Write → Type 0
Routed h c m (d, w) = ((d ≡ c) × (w.from ≡ [])) ⊎ ((lookup_peer h m.to ≡ some d) × (w ≡ m))

forward-Routed :
    (up : ℕ → Bool) (h : Hub) (c : ℕ) (m : Message) → All (Routed h c m) (forward up h c m)
unfolding forward
forward-Routed up h c m = elim (Option-cases (lookup_peer h m.to)) [
  | inl gone ↦ rw (gone, forward) (inl (refl, refl), tt)
  | inr (d, found) ↦
      rw (found, forward)
        (elim (Bool-cases (up d)) [
          | inl yes_ ↦ rw yes_ (inr (found, refl), tt)
          | inr down ↦ rw down (inr (found, refl), (inl (refl, refl), tt))
        ])
]

dispatch-Routed :
    (k : Kind) (up : ℕ → Bool) (h : Hub) (c : ℕ) (m : Message)
    → All (Routed h c m) (dispatch k up h c m).1
unfolding dispatch
dispatch-Routed register up h c m = elim (Bool-cases (is_nil m.name)) [
  | inl empty ↦ rw empty (inl (refl, refl), tt)
  | inr given ↦ rw given (inl (refl, refl), tt)
]
dispatch-Routed hosts up h c m = (inl (refl, refl), tt)
dispatch-Routed offer up h c m = forward-Routed up h c m
dispatch-Routed answer up h c m = forward-Routed up h c m
dispatch-Routed ice up h c m = forward-Routed up h c m
dispatch-Routed error up h c m = elim (Bool-cases (is_nil m.to)) [
  | inl empty ↦ rw empty tt
  | inr given ↦ rw given (forward-Routed up h c m)
]
dispatch-Routed unknown up h c m = (inl (refl, refl), tt)

-- Whatever id a frame claims to be from, each message that the hub writes for it is an answer to
-- the sender, in no one's name, or goes to the peer that the frame names, and is the frame with the
-- sender's own id as its origin and nothing else changed.
pub handle-Routed :
    (up : ℕ → Bool) (h : Hub) (c : ℕ) (m : Message)
    → All (Routed h c (record m { from = client_id c })) (handle up h c (some m)).1
unfolding handle
handle-Routed up h c m = dispatch-Routed (kind_of m.type) up h c (record m { from = client_id c })
