-- ===== src/Tests/Server.antt =====
-- The rendezvous server's start, its routes and its proxies, at concrete inputs.
use network_computer.Http.{get}
use network_computer.Prelude.{
  ◌≡◌, ◌↔◌, refl, true, false, [], ◌∷◌, ◌++◌, Option, none, some, arith, inl, All, ◌∙◌,
}
use network_computer.Prelude.Assoc.{lookup, insert, lookup-insert, beq_refl}
use network_computer.Prelude.Bytes.{
  Bytes, bytes_key, bytes_eq, codes, has_prefix, contains, trim_prefix, last_index,
}
use network_computer.Prelude.Regexp.{match_string}
use network_computer.Rendezvous.Auth.{Platform, Authority}
use network_computer.Rendezvous.Auth.Access.{Admitted, bearer, basic, query}
use network_computer.Rendezvous.Proxy
use network_computer.Rendezvous.Proxy.{
  Header, Upstream, IsReverseProxy, Response, sites_handler, sites_director,
}
use network_computer.Rendezvous.Proxy.Paths.{Asks, talkback_private}
use network_computer.Rendezvous.Proxy.Private.{
  Published, Without, contains_none, sites_private, redirect_local,
}
use network_computer.Rendezvous.Proxy.Talkback.{talkback_handler, talkback_director, talkback_paths}
use network_computer.Rendezvous.Routes.{Desk, Incoming, serve_http}
use network_computer.Rendezvous.Routes.Public.{IsPublic, serve_http-IsPublic}
use network_computer.Rendezvous.Start.{
  Flags, Machine, Server, fill_secrets, fill_public, start, mux, plain, tls,
}
use network_computer.Rendezvous.Start.Posture.{posture_kept}
use network_computer.Rendezvous.Start.Protected.{IsProtected}
use network_computer.Rendezvous.Token.{valid_token}
use network_computer.Signed.{verified}

abbrev add_client : Option Bytes → Header → Header
add_client none h = h
add_client (some ip) h = insert (codes "X-Forwarded-For") ip h

abbrev store : Upstream
store = record {
  host = codes "127.0.0.1:8001";
  director = λ r. r;
  forward = λ r. record r { header = add_client r.client r.header };
  listed = λ connection name. false;
}

add_client-lookup :
    (c : Option Bytes) (h : Header) (name : Bytes)
    → bytes_eq (codes "X-Forwarded-For") name ≡ false
    → lookup name (add_client c h) ≡ lookup name h
add_client-lookup none h name e = refl
add_client-lookup (some ip) h name e = lookup-insert _ _ _ h ∙ rw e

add_client-first :
    (c : Option Bytes) (h : Header)
    → lookup (codes "X-Forwarded-For") h ≡ none
    → lookup (codes "X-Forwarded-For") (add_client c h) ≡ c
add_client-first none h e = e
add_client-first (some ip) h e = lookup-insert _ _ _ h ∙ rw (beq_refl (codes "X-Forwarded-For"))

store-IsReverseProxy : IsReverseProxy store
store-IsReverseProxy = record {
  director_client = λ r. refl;
  director_field = λ r name e. refl;
  forward_host = λ r. refl;
  forward_field = λ r name e. add_client-lookup r.client r.header name (ground (arith, e));
  forward_client = λ r e. add_client-first r.client r.header e;
}

abbrev visit : Proxy.Request
visit = record {
  method = get;
  path = codes "/s/shop/a.html";
  raw_path = [];
  host = codes "desk";
  header = (codes "Cookie", codes "nc=1") ∷ (codes "Accept", codes "*/*") ∷ [];
  client = some (codes "10.0.0.9");
}

abbrev moved_page : Proxy.Request → Response
moved_page r = record {
  status = 302;
  header =
      (codes "Location", codes "http://127.0.0.1:8001/s/shop/b.html")
      ∷ (codes "Set-Cookie", codes "a=1")
      ∷ [];
}

sites_private_example :
    let served = sites_handler (codes "http://127.0.0.1:8001") store moved_page visit in
    let out = store.forward (sites_director store visit) in
    ((served.sent ≡ some out) ↔ (Published visit × (out ≡ out)))
    × (out.host ≡ store.host)
    × Without (codes "Cookie") out.header
    × Without (codes "Authorization") out.header
    × (lookup (codes "X-Forwarded-For") out.header ≡ some (codes "10.0.0.9"))
    × Without (codes "Set-Cookie") served.answer.header
sites_private_example =
    sites_private (codes "http://127.0.0.1:8001") store moved_page visit
      (store.forward (sites_director store visit)) store-IsReverseProxy

visit-Published : Published visit
unfolding Proxy.is_reading contains has_prefix
visit-Published =
    (inl refl, (codes "shop/a.html", refl), (contains_none visit.path (codes "..")).0 refl)

redirect_local_example :
    lookup
      (codes "Location")
      (sites_handler (codes "http://127.0.0.1:8001") store moved_page visit).answer.header
    ≡ some (codes "/s/shop/b.html")
unfolding lookup bytes_eq
redirect_local_example =
    redirect_local (codes "http://127.0.0.1:800") (codes "/s/shop/b.html") b'1' 0 store moved_page
      visit (λ e. omega arith) visit-Published refl

abbrev listen : Proxy.Request
listen = record visit {
  path = codes "/talkback/api/voice/next";
  header = (codes "Authorization", codes "Bearer x") ∷ (codes "Cookie", codes "nc=1") ∷ [];
}

talkback_private_example :
    let served = talkback_handler store moved_page listen in
    let out =
      store.forward (
        talkback_director store
          (record listen { path = codes "/api/voice/next"; raw_path = [] })) in
    ((served.sent ≡ some out) ↔ (Asks (codes "/api/voice/next") listen × (out ≡ out)))
    × (out.host ≡ store.host)
    × Without (codes "Cookie") out.header
    × (lookup (codes "Authorization") out.header ≡ some (codes "Bearer x"))
    × Without (codes "Set-Cookie") served.answer.header
unfolding lookup bytes_eq
talkback_private_example =
    talkback_private (codes "/api/voice/next") store moved_page listen
      (store.forward
        (talkback_director store (record listen { path = codes "/api/voice/next"; raw_path = [] })))
      store-IsReverseProxy refl

-- The pattern, run.
voice_file : match_string talkback_paths (codes "/audio/voice-12-0af.wav") ≡ true
unfolding match_string
voice_file = refl

other_file : match_string talkback_paths (codes "/audio/voice-12-0af.wav/x") ≡ false
unfolding match_string
other_file = refl

abbrev flags : Flags
flags = record {
  http_addr = codes ":8080";
  turn_addr = [];
  public_ip = codes "10.0.0.1";
  public_host = [];
  turn_secret = [];
  mode = codes "secure";
  tls_self = false;
  cert_file = [];
  key_file = [];
  auth_user = codes "nc";
  auth_pass = [];
  acme_domain = [];
  talkback = codes "http://127.0.0.1:8078";
  sites = codes "http://127.0.0.1:8001";
  local_addr = codes "127.0.0.1:8765";
}

abbrev machine : Machine
machine = record {
  random_token = λ n. codes "random";
  dialed = none;
  split_host_port = λ a. some (codes "127.0.0.1", codes "8765");
  is_loopback = λ h. true;
  self_signed = λ names. some (codes "cert.pem", codes "key.pem", codes "ab");
  start_turn = λ a ip secret. true;
  is_url = λ u. true;
}

abbrev secured : Server
secured = record {
  flags = record flags {
    public_host = codes "10.0.0.1";
    turn_secret = codes "random";
    auth_pass = codes "random";
    tls_self = true;
    cert_file = codes "cert.pem";
    key_file = codes "key.pem";
  };
  fingerprint = codes "ab";
  secure = true;
}

posture_kept_example :
    let ls =
      plain (codes "127.0.0.1:8765") mux
      ∷ tls (codes ":8080") (codes "cert.pem") (codes "key.pem")
      ∷ [] in
    (secured.secure ≡ true → All (IsProtected machine) ls)
    × (secured.secure ≡ false → ls ≡ plain secured.flags.http_addr mux ∷ [])
    × (flags.mode ≡ codes "secure" → secured.secure ≡ true)
    × (flags.mode ≡ codes "insecure" → secured.secure ≡ false)
unfolding start bytes_eq fill_secrets fill_public
posture_kept_example =
    posture_kept machine flags secured
      (plain (codes "127.0.0.1:8765") mux
        ∷ tls (codes ":8080") (codes "cert.pem") (codes "key.pem")
        ∷ [])
      (λ names cert key fp h e. cc) refl

abbrev os : Platform
os = record {
  mac = λ s t. s ++ t;
  client_host = λ a. some a;
  is_loopback = λ a. false;
  basic_auth = λ h. none;
}

abbrev nobody : Incoming
nobody = record {
  caller = record { remote_addr = codes "10.0.0.9"; authorization = []; token = [] };
  http = listen;
  user = [];
  password = [];
}

abbrev owner : Authority
owner = record { user = codes "nc"; pass = codes "pw"; secret = codes "k"; fails = [] }

abbrev desk : Desk
desk = record {
  platform = os;
  clean = λ p. p;
  server = secured;
  config = record { ice_servers = []; mode = codes "secure" };
  names = codes "pc" ∷ [];
  sites = store;
  talkback = store;
  back = moved_page;
}

no_token : valid_token os.mac owner.secret 0 [] ≡ false
unfolding valid_token verified last_index
no_token = refl

nobody_stays_out : ¬ Admitted os 0 owner nobody.caller
unfolding trim_prefix
nobody_stays_out (bearer tok e v) = cc (no_token, e, v)
nobody_stays_out (basic u p e b eu ep) = cc
nobody_stays_out (query n v) = n refl

serve_http-IsPublic_example : IsPublic nobody (serve_http desk 0 nobody owner).1
serve_http-IsPublic_example = serve_http-IsPublic desk 0 nobody owner nobody_stays_out
