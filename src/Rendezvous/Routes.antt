-- ===== src/Rendezvous/Routes.antt =====
-- main of cmd/nc-rendezvous/main.go: which handler answers a request, and /config. http.ServeMux picks
-- the longest pattern that fits, after it has sent the caller to the path that path.Clean makes
-- (CONNECT apart); what is not under cmd/ is an argument.
pub mod Public
use network_computer.Prelude.{
  ℕ, Bool, true, false, ◌&&◌, not, List, [], ◌∷◌, ◌++◌, Option, none, some, is_nil, if◌then◌else◌,
}
use network_computer.Prelude.Bytes.{Bytes, bytes_eq, codes, has_prefix, contains}
use network_computer.Rendezvous.Auth
use network_computer.Rendezvous.Auth.{Platform, Authority, guard}
use network_computer.Rendezvous.Auth.Endpoint.{Reply, auth_endpoint}
use network_computer.Rendezvous.Proxy
use network_computer.Rendezvous.Proxy.{Upstream, Response, Served, sites_handler}
use network_computer.Rendezvous.Proxy.Talkback.{talkback_handler}
use network_computer.Rendezvous.Start.{Flags, Server, posture_name}

pub record IceServer : Type 0 where
  pub urls : List Bytes
  pub username : Bytes
  pub credential : Bytes

pub record Config : Type 0 where
  pub ice_servers : List IceServer
  pub mode : Bytes

-- net.JoinHostPort
unfoldable pub join_host_port : Bytes → Bytes → Bytes
join_host_port host port =
    if contains host (codes ":")
    then codes "[" ++ (host ++ (codes "]:" ++ port))
    else host ++ (codes ":" ++ port)

-- The port of -turn, empty when net.SplitHostPort fails.
unfoldable pub turn_port : Option (Bytes × Bytes) → Bytes
turn_port none = []
turn_port (some (host, port)) = port

-- The two servers of /config, or none when the credentials could not be made.
unfoldable pub ice_servers : Bytes → Option (Bytes × Bytes) → List IceServer
ice_servers hp none = []
ice_servers hp (some (user, pass)) =
    record { urls = (codes "stun:" ++ hp) ∷ []; username = []; credential = [] }
    ∷ record {
      urls = (codes "turn:" ++ (hp ++ codes "?transport=udp")) ∷ [];
      username = user;
      credential = pass;
    }
    ∷ []

-- configFor, with what the TURN library makes of the secret for this caller.
unfoldable pub config_for :
    (Bytes → Option (Bytes × Bytes)) → Server → Option (Bytes × Bytes) → Config
unfolding ice_servers join_host_port turn_port posture_name
config_for split_host_port s creds =
    let hp = join_host_port s.flags.public_host (turn_port (split_host_port s.flags.turn_addr)) in
    record {
      ice_servers = if is_nil s.flags.turn_addr then [] else ice_servers hp creds;
      mode = posture_name s;
    }

pub data Route : Type 0 where
  auth ws config hosts sites talkback page : Route

pub data Routed : Type 0 where
  moved : Bytes → Routed
  to : Route → Routed

-- The mux's pattern for a path that path.Clean leaves. The mux matches the path as it is escaped in the
-- URL; here it is the decoded one, which is the same for a URL without escapes.
unfoldable pub route : Flags → Bytes → Routed
route f path =
    if bytes_eq path (codes "/auth")
    then to auth
    else if bytes_eq path (codes "/ws")
    then to ws
    else if bytes_eq path (codes "/config")
    then to config
    else if bytes_eq path (codes "/hosts")
    then to hosts
    else if not (is_nil f.sites) && has_prefix path (codes "/s/")
    then to sites
    else if not (is_nil f.talkback) && has_prefix path (codes "/talkback/")
    then to talkback
    else if not (is_nil f.sites) && bytes_eq path (codes "/s")
    then moved (codes "/s/")
    else if not (is_nil f.talkback) && bytes_eq path (codes "/talkback")
    then moved (codes "/talkback/")
    else to page

-- A request as its parts see it; `user` and `password` are what the JSON decoder left of the body.
pub record Incoming : Type 0 where
  pub caller : Auth.Request
  pub http : Proxy.Request
  pub user : Bytes
  pub password : Bytes

pub data Answer : Type 0 where
  endpoint : Reply → Answer
  socket : Answer  -- serveWS of the hub
  configured : Config → Answer
  host_names : List Bytes → Answer
  proxied : Served → Answer
  file : Bytes → Answer  -- the web client's page or one of its files
  denied : Answer  -- 401
  redirected : Bytes → Answer

-- What main has put together for the handlers, and the hub's names.
pub record Desk : Type 0 where
  pub platform : Platform
  pub clean : Bytes → Bytes
  pub server : Server
  pub config : Config
  pub names : List Bytes
  pub sites : Upstream
  pub talkback : Upstream
  pub back : Proxy.Request → Response

module _ (d : Desk) (now : ℕ) where
  unfoldable pub guarded : Answer → Authority → Auth.Request → Authority × Answer
  guarded answer a r =
      let (a', o) = guard d.platform (λ _. answer) now a r in
      (a', elim o [ none ↦ denied | some x ↦ x ])

  -- The handler of a pattern.
  unfoldable pub handle : Route → Incoming → Authority → Authority × Answer
  unfolding guarded
  handle auth i a =
      let reply = auth_endpoint d.platform now a i.caller i.http.method i.user i.password in
      (reply.state, endpoint reply)
  handle ws i a = guarded socket a i.caller
  handle config i a = guarded (configured d.config) a i.caller
  handle hosts i a = guarded (host_names d.names) a i.caller
  handle sites i a = (a, proxied (sites_handler d.server.flags.sites d.sites d.back i.http))
  handle talkback i a = (a, proxied (talkback_handler d.talkback d.back i.http))
  handle page i a = (a, file i.http.path)

  unfoldable pub follow : Routed → Incoming → Authority → Authority × Answer
  unfolding handle
  follow (moved path) i a = (a, redirected path)
  follow (to r) i a = handle r i a

  -- The mux's ServeHTTP.
  unfoldable pub serve_http : Incoming → Authority → Authority × Answer
  unfolding follow route
  serve_http i a =
      let path = d.clean i.http.path in
      follow (if bytes_eq path i.http.path then route d.server.flags path else moved path) i a
