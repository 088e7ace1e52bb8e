-- ===== src/Rendezvous/Hub/Names.antt =====
-- Names at the edge: a second name, a name taken over, a name that is another client's id.
use network_computer.Prelude.{ℕ, ◌≡◌, ◌≢◌, not, ◌&&◌, none, some, arith, is_nil, if◌then◌else◌}
use network_computer.Prelude.Assoc.{lookup, lookup-insert, lookup-delete}
use network_computer.Prelude.Bytes.{Bytes, bytes_key, bytes_eq, bytes_eq_iff}
use network_computer.Prelude.Keys.{nat_eq}
use network_computer.Rendezvous.Hub.{
  Hub, client_id, name_of, holds_name, remove, register_host, lookup_peer,
}
use network_computer.Rendezvous.Hub.Registry.{name_of-register}

-- What a name reaches once a client has gone.
lookup-remove :
    (h : Hub) (c : ℕ) (k : Bytes)
    → lookup k (remove h c).hosts ≡ (
        if not (is_nil (name_of h c)) && (holds_name h c && bytes_eq (name_of h c) k)
        then none
        else lookup k h.hosts)
unfolding remove
lookup-remove h c k = ground (arith, lookup-delete (name_of h c) k h.hosts)

hosts-register :
    (h : Hub) (c : ℕ) (name k : Bytes)
    → lookup k (register_host h c name).hosts
      ≡ (if bytes_eq name k then some c else lookup k h.hosts)
unfolding register_host
hosts-register h c name k = lookup-insert name k c h.hosts

lookup_peer-host :
    (h : Hub) (k : Bytes) {c : ℕ} → lookup k h.hosts ≡ some c → lookup_peer h k ≡ some c
unfolding lookup_peer
lookup_peer-host h k e = ground arith

-- A client that registers under a second name stays reachable under the first one after it has
-- gone: `remove` takes out only the name that it had last.
pub second_name_stays :
    (h : Hub) (c : ℕ) (first second : Bytes)
    → first ≢ second
    → let left = remove (register_host (register_host h c first) c second) c in
      lookup_peer left first ≡ some c
second_name_stays h c first second apart =
    let one = register_host h c first in
    let two = register_host one c second in
    lookup_peer-host (remove two c) first (
      ground (
        arith,
        lookup-remove two c first,
        name_of-register one c c second,
        hosts-register one c second first,
        hosts-register h c first first,
        bytes_eq_iff second first,
        bytes_eq_iff first first,
      ))

-- A host that has taken over a name keeps it when the host that had it goes.
pub takeover_survives :
    (h : Hub) (c d : ℕ) (name : Bytes)
    → c ≢ d
    → let left = remove (register_host (register_host h c name) d name) c in
      lookup_peer left name ≡ some d
unfolding holds_name
takeover_survives h c d name apart =
    let one = register_host h c name in
    let two = register_host one d name in
    lookup_peer-host (remove two c) name (
      ground (
        arith,
        lookup-remove two c name,
        name_of-register one d c name,
        name_of-register h c c name,
        hosts-register one d name name,
        bytes_eq_iff name name,
      ))

-- A client that registers under another client's id gets what is sent to that id.
pub id_hijacked :
    (h : Hub) (c d : ℕ) → lookup_peer (register_host h d (client_id c)) (client_id c) ≡ some d
id_hijacked h c d = lookup_peer-host (register_host h d (client_id c)) (client_id c) (
    ground (
      arith,
      hosts-register h d (client_id c) (client_id c),
      bytes_eq_iff (client_id c) (client_id c),
    ))
