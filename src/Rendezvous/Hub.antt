-- ===== src/Rendezvous/Hub.antt =====
-- cmd/nc-rendezvous/main.go: type hub. A client is the number that hub.seq gave it, which stands
-- for its pointer; `names` holds the field c.name of each client that has registered. A frame that
-- is not JSON is `none`. Whether a write to a client succeeds is an argument, `up`.
pub mod Registry
pub mod Names
pub mod Routing
use network_computer.Prelude.{
  ℕ, suc, ◌+◌, Bool, true, false, not, ◌&&◌, List, [], ◌∷◌, ◌++◌, map, Option, none, some, ◌==◌,
  is_nil, if◌then◌else◌,
}
use network_computer.Prelude.Assoc.{lookup, insert, delete}
use network_computer.Prelude.Bytes.{Bytes, bytes_key, codes}
use network_computer.Prelude.Decimal.{format_int}
use network_computer.Prelude.Keys.{nat_eq}
use network_computer.Proto.{
  Message, no_message, Kind, register, hosts, offer, answer, ice, error, unknown, kind_of,
}

pub record Hub : Type 0 where
  pub clients : List (Bytes × ℕ)
  pub hosts : List (Bytes × ℕ)
  pub names : List (ℕ × Bytes)
  pub seq : ℕ

abbrev pub new_hub : Hub
new_hub = record { clients = []; hosts = []; names = []; seq = 0 }

-- `fmt.Sprintf("c%d", n)`
unfoldable pub client_id : ℕ → Bytes
client_id n = b'c' ∷ format_int n

-- c.name, empty until the client registers
unfoldable pub name_of : Hub → ℕ → Bytes
name_of h c = elim (lookup c h.names) [ none ↦ [] | some name ↦ name ]

unfoldable pub add : Hub → ℕ → Hub
add h c = record h { clients = insert (client_id c) c h.clients }

-- `h.hosts[c.name] == c`
unfoldable pub holds_name : Hub → ℕ → Bool
holds_name h c = elim (lookup (name_of h c) h.hosts) [ none ↦ false | some d ↦ d == c ]

unfoldable pub remove : Hub → ℕ → Hub
remove h c =
    let kept = record h { clients = delete (client_id c) h.clients } in
    if not (is_nil (name_of h c)) && holds_name h c
    then record kept { hosts = delete (name_of h c) h.hosts }
    else kept

unfoldable pub register_host : Hub → ℕ → Bytes → Hub
register_host h c name = record h { names = insert c name h.names; hosts = insert name c h.hosts }

unfoldable pub lookup_peer : Hub → Bytes → Option ℕ
lookup_peer h to = elim (lookup to h.hosts) [ some c ↦ some c | none ↦ lookup to h.clients ]

-- Go lists a map in any order; here it is the order in which the names came.
unfoldable pub host_names : Hub → List Bytes
host_names h = map (λ p. p.0) h.hosts

-- A write that the hub makes: to whom, and what.
abbrev pub Write : Type 0
Write = ℕ × Message

abbrev pub reply_error : ℕ → Bytes → List Write
reply_error c why = (c, record no_message { type = codes "error"; error = why }) ∷ []

-- `case "offer", "answer", "ice", "error"`
unfoldable pub forward : (ℕ → Bool) → Hub → ℕ → Message → List Write
forward up h c m = elim (lookup_peer h m.to) [
  | none ↦ reply_error c (codes "no such peer: " ++ m.to)
  | some dst ↦ (dst, m) ∷ (if up dst then [] else reply_error c (codes "peer gone: " ++ m.to))
]

-- The switch on m.Type, once m.From is set.
unfoldable pub dispatch : Kind → (ℕ → Bool) → Hub → ℕ → Message → Hub × List Write
unfolding forward
dispatch register up h c m =
    if is_nil m.name then (h, reply_error c (codes "register needs name")) else (
      register_host h c m.name,
      (c, record no_message { type = codes "registered"; name = m.name }) ∷ [],
    )
dispatch hosts up h c m =
    (h, (c, record no_message { type = codes "hosts"; hosts = host_names h }) ∷ [])
dispatch offer up h c m = (h, forward up h c m)
dispatch answer up h c m = (h, forward up h c m)
dispatch ice up h c m = (h, forward up h c m)
dispatch error up h c m = (h, if is_nil m.to then [] else forward up h c m)
dispatch unknown up h c m = (h, reply_error c (codes "unknown type " ++ m.type))

-- One frame of the read loop of serveWS.
unfoldable pub handle : (ℕ → Bool) → Hub → ℕ → Option Message → Hub × List Write
unfolding dispatch
handle up h c none = (h, reply_error c (codes "bad json"))
handle up h c (some m) = dispatch (kind_of m.type) up h c (record m { from = client_id c })

-- What happens at the hub: a connection opens and takes the next number, sends a frame, closes.
pub data Event : Type 0 where
  connect : Event
  frame : ℕ → Option Message → Event
  disconnect : ℕ → Event

unfoldable pub step : (ℕ → Bool) → Hub → Event → Hub
unfolding handle
step up h connect = add (record h { seq = suc h.seq }) (suc h.seq)
step up h (frame c m) = (handle up h c m).0
step up h (disconnect c) = remove h c
