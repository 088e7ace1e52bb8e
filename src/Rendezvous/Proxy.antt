-- ===== src/Rendezvous/Proxy.antt =====
-- cmd/nc-rendezvous/sites.go and talkback.go: the parts of the desk's address that other servers on
-- the machine answer. What url.Parse and net/http/httputil do is the records Upstream and Proxy.
pub mod Talkback
pub mod Private
pub mod Paths
use network_computer.Prelude.{
  ℕ, ◌≡◌, Bool, true, false, List, [], ◌∷◌, Option, none, some, ◌||◌, not, if◌then◌else◌,
}
use network_computer.Prelude.Assoc.{lookup, insert, delete}
use network_computer.Prelude.Bytes.{
  Bytes, bytes_key, bytes_eq, codes, has_prefix, trim_prefix, contains, trim_right,
}
use network_computer.Http.{Method, get, head}
use network_computer.Http.Status.{not_found, method_not_allowed}

-- A header's fields, under their canonical names; the first value of each is what Get reads.
abbrev pub Header : Type 0
Header = List (Bytes × Bytes)

pub record Request : Type 0 where
  pub method : Method
  pub path : Bytes  -- URL.Path
  pub raw_path : Bytes  -- URL.RawPath
  pub host : Bytes
  pub header : Header
  pub client : Option Bytes  -- the host of RemoteAddr, if net.SplitHostPort finds one

pub record Response : Type 0 where
  pub status : ℕ
  pub header : Header

-- A parsed URL: its host, the Director of NewSingleHostReverseProxy for it, what ReverseProxy makes of
-- the request that its Director leaves, and whether the values of a Connection field name a field.
pub record Upstream : Type 0 where
  pub host : Bytes
  pub director : Request → Request
  pub forward : Request → Request
  pub listed : Option Bytes → Bytes → Bool

abbrev pub named_in : Bytes → List Bytes → Bool
named_in name [] = false
named_in name (n ∷ ns) = bytes_eq n name || named_in name ns

-- The fields that a ReverseProxy sets or removes by itself.
abbrev pub own_fields : List Bytes
own_fields =
    codes "X-Forwarded-For"
    ∷ codes "User-Agent"
    ∷ codes "Connection"
    ∷ codes "Proxy-Connection"
    ∷ codes "Keep-Alive"
    ∷ codes "Proxy-Authenticate"
    ∷ codes "Proxy-Authorization"
    ∷ codes "Te"
    ∷ codes "Trailer"
    ∷ codes "Transfer-Encoding"
    ∷ codes "Upgrade"
    ∷ []

-- What the documentation of net/http/httputil says: the Director of NewSingleHostReverseProxy rewrites
-- the URL, and of the fields User-Agent at most; behind it, the hop-by-hop fields and those that
-- Connection names are removed, and X-Forwarded-For is set to the caller's address if there is none.
pub record IsReverseProxy (u : Upstream) : Type 0 where
  pub director_client : (r : Request) → (u.director r).client ≡ r.client
  pub director_field :
      (r : Request) (name : Bytes)
      → bytes_eq (codes "User-Agent") name ≡ false
      → lookup name (u.director r).header ≡ lookup name r.header
  pub forward_host : (r : Request) → (u.forward r).host ≡ r.host
  pub forward_field :
      (r : Request) (name : Bytes)
      → named_in name own_fields ≡ false
      → lookup name (u.forward r).header ≡ (
          if u.listed (lookup (codes "Connection") r.header) name
          then none
          else lookup name r.header)
  pub forward_client :
      (r : Request)
      → lookup (codes "X-Forwarded-For") r.header ≡ none
      → lookup (codes "X-Forwarded-For") (u.forward r).header ≡ r.client

-- What a handler did: the request that left for the other server, if any, and the caller's answer.
pub record Served : Type 0 where
  pub sent : Option Request
  pub answer : Response

-- `http.Error`, `http.NotFound`
abbrev pub refused : ℕ → Served
refused status = record { sent = none; answer = record { status = status; header = [] } }

unfoldable pub is_reading : Method → Bool
is_reading get = true
is_reading head = true
is_reading m = false

-- What httputil.ReverseProxy does with its two hooks: the request that leaves is what it makes of the
-- Director's; `back` is the other server, and what ReverseProxy makes of its answer.
unfoldable pub serve_http :
    Upstream → (Request → Request) → (Response → Response) → (Request → Response) → Request → Served
serve_http u director modify back r =
    let out = u.forward (director r) in record { sent = some out; answer = modify (back out) }

unfoldable pub sites_director : Upstream → Request → Request
sites_director u r =
    let out = u.director r in
    record out {
      header =
          delete (codes "X-Forwarded-For")
            (delete (codes "Authorization") (delete (codes "Cookie") out.header));
      host = u.host;
    }

-- `Header.Get`
unfoldable pub header_get : Bytes → Header → Bytes
header_get name h = elim (lookup name h) [ none ↦ [] | some v ↦ v ]

-- A redirect to the object server's own address becomes a path here.
unfoldable pub local_location : Bytes → Header → Header
unfolding header_get
local_location target h =
    let loc = header_get (codes "Location") h in
    if has_prefix loc target
    then insert (codes "Location") (trim_prefix loc (trim_right b'/' target)) h
    else h

unfoldable pub sites_modify : Bytes → Response → Response
unfolding local_location
sites_modify target res = record res {
  header = delete (codes "Set-Cookie") (local_location target res.header);
}

unfoldable pub sites_handler : Bytes → Upstream → (Request → Response) → Request → Served
unfolding serve_http sites_director sites_modify
sites_handler target u back r =
    if not (is_reading r.method)
    then refused method_not_allowed
    else if not (has_prefix r.path (codes "/s/")) || contains r.path (codes "..")
    then refused not_found
    else serve_http u (sites_director u) (sites_modify target) back r

-- The handler of a target, or `none` for the error of url.Parse.
unfoldable pub sites_proxy :
    (Bytes → Option Upstream) → Bytes → Option ((Request → Response) → Request → Served)
unfolding sites_handler
sites_proxy parse target = elim (parse target) [
  | none ↦ none
  | some u ↦ some (sites_handler target u)
]
