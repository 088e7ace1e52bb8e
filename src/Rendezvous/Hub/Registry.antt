-- ===== src/Rendezvous/Hub/Registry.antt =====
-- The two maps of the hub: whom a name reaches, and when a client that has gone is forgotten.
use network_computer.Prelude.{
  ℕ, suc, ◌≤◌, ◌≡◌, ◌≢◌, Bool, [], ◌⊎◌, none, some, arith, ◌==◌, is_nil, if◌then◌else◌,
  Option-cases, Bool-cases, inl, inr,
}
use network_computer.Prelude.Assoc.{lookup, delete, lookup-insert, lookup-delete}
use network_computer.Prelude.Bytes.{Bytes, bytes_key, bytes_eq_iff}
use network_computer.Prelude.Decimal.{format_int-injective}
use network_computer.Prelude.Keys.{nat_eq}
use network_computer.Proto.{Message, Kind, register, hosts, kind_of}
use network_computer.Rendezvous.Hub.{
  Hub, new_hub, client_id, name_of, add, holds_name, remove, register_host, lookup_peer, Event,
  connect, frame, disconnect, step, dispatch,
}

pub client_id-injective : (c d : ℕ) → client_id c ≡ client_id d → c ≡ d
unfolding client_id
client_id-injective c d h = format_int-injective c d (cc h)

-- The client of a name is connected, and the name is the one that it has.
pub record Tidy (h : Hub) : Type 0 where
  pub live :
      (name : Bytes) (c : ℕ)
      → lookup name h.hosts ≡ some c
      → lookup (client_id c) h.clients ≡ some c
  pub named : (name : Bytes) (c : ℕ) → lookup name h.hosts ≡ some c → name_of h c ≡ name
  pub nonempty : (name : Bytes) (c : ℕ) → lookup name h.hosts ≡ some c → name ≢ []
  pub keyed : (id : Bytes) (c : ℕ) → lookup id h.clients ≡ some c → id ≡ client_id c
  pub numbered : (id : Bytes) (c : ℕ) → lookup id h.clients ≡ some c → c ≤ h.seq

pub new_hub-Tidy : Tidy new_hub
unfolding lookup
new_hub-Tidy = record {
  live = λ name c e. absurd (cc);
  named = λ name c e. absurd (cc);
  nonempty = λ name c e. absurd (cc);
  keyed = λ id c e. absurd (cc);
  numbered = λ id c e. absurd (cc);
}

connect-Tidy : (up : ℕ → Bool) (h : Hub) → Tidy h → Tidy (step up h connect)
unfolding step add
connect-Tidy up h t = record {
  live = λ name c e. ground (
    arith,
    t.live name c e,
    t.numbered (client_id c) c (t.live name c e),
    lookup-insert (client_id (suc h.seq)) (client_id c) (suc h.seq) h.clients,
    bytes_eq_iff (client_id (suc h.seq)) (client_id c),
    client_id-injective (suc h.seq) c,
  );
  named = λ name c e. unfold name_of in t.named name c e;
  nonempty = λ name c e. t.nonempty name c e;
  keyed = λ id c e. ground (
    arith,
    t.keyed id c,
    lookup-insert (client_id (suc h.seq)) id (suc h.seq) h.clients,
    bytes_eq_iff (client_id (suc h.seq)) id,
  );
  numbered = λ id c e.
      ground
        (arith, t.numbered id c, lookup-insert (client_id (suc h.seq)) id (suc h.seq) h.clients);
}

remove-clients : (h : Hub) (c : ℕ) → (remove h c).clients ≡ delete (client_id c) h.clients
unfolding remove
remove-clients h c = ground arith

remove-names : (h : Hub) (c : ℕ) → ((remove h c).names ≡ h.names) × ((remove h c).seq ≡ h.seq)
unfolding remove
remove-names h c = ground arith

-- What is left of the hosts when a client goes: the entries of the other clients.
remove-hosts :
    (h : Hub) (c : ℕ) (name : Bytes) (d : ℕ)
    → Tidy h
    → lookup name (remove h c).hosts ≡ some d
    → (lookup name h.hosts ≡ some d) × (d ≢ c)
unfolding remove holds_name
remove-hosts h c name d t e = ground (
  arith,
  lookup-delete (name_of h c) name h.hosts,
  bytes_eq_iff (name_of h c) name,
  t.named name d,
  t.nonempty name d,
)

disconnect-Tidy : (h : Hub) (c : ℕ) → Tidy h → Tidy (remove h c)
disconnect-Tidy h c t = record {
  live = λ name d e.
      let (old, apart) = remove-hosts h c name d t e in
      rw (remove-clients h c) (
        ground (
          arith,
          lookup-delete (client_id c) (client_id d) h.clients,
          bytes_eq_iff (client_id c) (client_id d),
          client_id-injective c d,
          t.live name d old,
        ));
  named = λ name d e.
      unfold name_of in rw (remove-names h c).0 (t.named name d (remove-hosts h c name d t e).0);
  nonempty = λ name d e. t.nonempty name d (remove-hosts h c name d t e).0;
  keyed = λ id d e.
      ground (arith, remove-clients h c, lookup-delete (client_id c) id h.clients, t.keyed id d);
  numbered = λ id d e. ground (
    arith,
    remove-clients h c,
    remove-names h c,
    lookup-delete (client_id c) id h.clients,
    t.numbered id d,
  );
}

-- The connection of `c` is open.
abbrev pub IsOpen : Hub → ℕ → Type 0
IsOpen h c = lookup (client_id c) h.clients ≡ some c

pub name_of-register :
    (h : Hub) (c d : ℕ) (name : Bytes)
    → name_of (register_host h c name) d ≡ (if c == d then name else name_of h d)
unfolding name_of register_host
name_of-register h c d name = ground (arith, lookup-insert c d name h.names)

register-Tidy :
    (h : Hub) (c : ℕ) (name : Bytes)
    → Tidy h
    → IsOpen h c
    → name ≢ []
    → (name_of h c ≡ []) ⊎ (name_of h c ≡ name)
    → Tidy (register_host h c name)
unfolding register_host
register-Tidy h c name t is_open nonempty once = record {
  live = λ k d e. ground (arith, lookup-insert name k c h.hosts, bytes_eq_iff name k, t.live k d);
  named = λ k d e. ground (
    arith,
    name_of-register h c d name,
    lookup-insert name k c h.hosts,
    bytes_eq_iff name k,
    t.named k d,
    t.nonempty k d,
  );
  nonempty =
      λ k d e. ground (arith, lookup-insert name k c h.hosts, bytes_eq_iff name k, t.nonempty k d);
  keyed = t.keyed;
  numbered = t.numbered;
}

-- A client that registers keeps to one name, and only open connections send.
abbrev pub OneName : Hub → Event → Type 0
OneName h connect = Unit {0}
OneName h (frame c none) = Unit {0}
OneName h (frame c (some m)) = IsOpen h c × ((name_of h c ≡ []) ⊎ (name_of h c ≡ m.name))
OneName h (disconnect c) = Unit {0}

dispatch-Tidy :
    (k : Kind) (up : ℕ → Bool) (h : Hub) (c : ℕ) (m : Message)
    → Tidy h
    → IsOpen h c
    → (name_of h c ≡ []) ⊎ (name_of h c ≡ m.name)
    → Tidy (dispatch k up h c m).0
unfolding dispatch
dispatch-Tidy register up h c m t is_open once = elim (Bool-cases (is_nil m.name)) [
  | inl e ↦ rw e t
  | inr e ↦ rw e (register-Tidy h c m.name t is_open (ground arith) once)
]
dispatch-Tidy hosts up h c m t is_open once = t
dispatch-Tidy _ up h c m t is_open once = t

step-Tidy : (up : ℕ → Bool) (h : Hub) (e : Event) → OneName h e → Tidy h → Tidy (step up h e)
unfolding step
step-Tidy up h connect one t = connect-Tidy up h t
step-Tidy up h (frame c none) one t = t
step-Tidy up h (frame c (some m)) one t =
    dispatch-Tidy (kind_of m.type) up h c (record m { from = client_id c }) t one.0 one.1
step-Tidy up h (disconnect c) one t = disconnect-Tidy h c t

-- The hubs that a run of events makes, each client keeping to one name.
pub data Reach (up : ℕ → Bool) : Hub → Type 0 where
  start : Reach up new_hub
  event : {h : Hub} → Reach up h → (e : Event) → OneName h e → Reach up (step up h e)

pub Reach-Tidy : (up : ℕ → Bool) {h : Hub} → Reach up h → Tidy h
Reach-Tidy up start = new_hub-Tidy
Reach-Tidy up (event r e one) = step-Tidy up _ e one (Reach-Tidy up r)

-- After a client has gone nothing is routed to it, under any name or id, at a hub reached by any
-- events in which no client registers under two names.
pub gone_unreachable :
    (up : ℕ → Bool) {h : Hub} (c : ℕ) (to : Bytes)
    → Reach up h
    → lookup_peer (step up h (disconnect c)) to ≢ some c
unfolding step lookup_peer
gone_unreachable up {h} c to r e =
    let t = Reach-Tidy up r in
    elim (Option-cases (lookup to (remove h c).hosts)) [
      | inl none_ ↦ ground (
        arith,
        remove-clients h c,
        lookup-delete (client_id c) to h.clients,
        bytes_eq_iff (client_id c) to,
        t.keyed to c,
      )
      | inr (d, found) ↦ ground (arith, remove-hosts h c to d t found)
    ]
