-- ===== src/Rendezvous/Start.antt =====
-- main of cmd/nc-rendezvous/main.go: what the flags make of the server, up to its listeners. A call of
-- log.Fatal is a Failure; the addresses that the machine has, what net parses, the random texts, the
-- certificate's files and the TURN server are the record Machine.
pub mod Protected
pub mod Posture
use network_computer.Prelude.{
  ℕ, Bool, true, false, ◌&&◌, ◌||◌, not, List, [], ◌∷◌, ◌++◌, Option, none, some, is_nil,
  if◌then◌else◌,
}
use network_computer.Prelude.Bytes.{Bytes, bytes_eq, codes, contains}

-- The flags, with their environment variables read.
pub record Flags : Type 0 where
  pub http_addr : Bytes
  pub turn_addr : Bytes
  pub public_ip : Bytes
  pub public_host : Bytes
  pub turn_secret : Bytes
  pub mode : Bytes
  pub tls_self : Bool
  pub cert_file : Bytes
  pub key_file : Bytes
  pub auth_user : Bytes
  pub auth_pass : Bytes
  pub acme_domain : Bytes
  pub talkback : Bytes
  pub sites : Bytes
  pub local_addr : Bytes

pub data Failure : Type 0 where
  conflict bad_mode self_signed turn bad_sites bad_talkback not_loopback : Failure

pub data Result {ℓ} (A : Type ℓ) : Type ℓ where
  fatal : Failure → Result A
  done : A → Result A

infixl 5 ◌>>=◌
abbrev pub ◌>>=◌ {ℓ κ} : {A : Type ℓ} {B : Type κ} → Result A → (A → Result B) → Result B
fatal e >>= f = fatal e
done a >>= f = f a

pub record Machine : Type 0 where
  pub random_token : ℕ → Bytes
  pub dialed : Option Bytes  -- the local address of net.Dial("udp", ...), if it succeeds
  pub split_host_port : Bytes → Option (Bytes × Bytes)
  pub is_loopback : Bytes → Bool  -- net.ParseIP succeeds and IsLoopback
  pub self_signed : List Bytes → Option (Bytes × Bytes × Bytes)  -- selfSignedCert in the state directory
  pub start_turn : Bytes → Bytes → Bytes → Bool  -- startTURN succeeds
  pub is_url : Bytes → Bool  -- url.Parse succeeds

-- What answers in plain HTTP: the desk's own handlers, or those of autocert's HTTPHandler, which answer
-- ACME's challenges and send all else to HTTPS.
pub data Handler : Type 0 where
  mux challenges : Handler

-- Who answers on an address, and how it is protected; behind TLS it is always the desk's own mux.
pub data Listener : Type 0 where
  plain : Bytes → Handler → Listener  -- ListenAndServe, on any interface that the address has
  tls : Bytes → Bytes → Bytes → Listener  -- ListenAndServeTLS with a certificate and a key
  acme : Bytes → Listener  -- ListenAndServeTLS on :443 with autocert's configuration for a domain

-- What main has when it comes to the listeners.
pub record Server : Type 0 where
  pub flags : Flags
  pub fingerprint : Bytes
  pub secure : Bool

unfoldable pub posture_name : Server → Bytes
posture_name s = if s.secure then codes "secure" else codes "insecure"

unfoldable pub is_secure : Flags → Bool
is_secure f = not (is_nil f.acme_domain) || not (is_nil f.cert_file)

-- The switch on -mode.
unfoldable pub check_mode : Flags → Result Flags
check_mode f =
    if bytes_eq f.mode (codes "auto")
    then done f
    else if bytes_eq f.mode (codes "secure")
    then done
        (if is_nil f.acme_domain && is_nil f.cert_file then record f { tls_self = true } else f)
    else if bytes_eq f.mode (codes "insecure")
    then if not (is_nil f.acme_domain) || not (is_nil f.cert_file) || f.tls_self
      then fatal conflict
      else done f
    else fatal bad_mode

unfoldable pub server_of : Flags → Bytes → Server
unfolding is_secure
server_of f fp = record { flags = f; fingerprint = fp; secure = is_secure f }

-- The server with the certificate of selfSignedCert.
unfoldable pub with_cert : Flags → Option (Bytes × Bytes × Bytes) → Result Server
unfolding server_of
with_cert f none = fatal self_signed
with_cert f (some (cert, key, fp)) =
    done (server_of (record f { cert_file = cert; key_file = key }) fp)

module _ (os : Machine) where
  unfoldable pub guess_local_ip : Bytes
  guess_local_ip = elim os.dialed [
    | none ↦ codes "127.0.0.1"
    | some ip ↦ if contains ip (codes ":") then codes "127.0.0.1" else ip
  ]

  unfoldable pub fill_secrets : Flags → Flags
  fill_secrets f = record f {
    auth_pass = if is_nil f.auth_pass then os.random_token 12 else f.auth_pass;
    turn_secret = if is_nil f.turn_secret then os.random_token 24 else f.turn_secret;
  }

  unfoldable pub fill_public : Flags → Flags
  unfolding guess_local_ip
  fill_public f =
      let ip = if is_nil f.public_ip then guess_local_ip else f.public_ip in
      record f { public_ip = ip; public_host = if is_nil f.public_host then ip else f.public_host }

  -- The names of the certificate of -tls-self.
  unfoldable pub own_names : Flags → List Bytes
  unfolding guess_local_ip
  own_names f =
      f.public_host ∷ f.public_ip ∷ guess_local_ip ∷ codes "127.0.0.1" ∷ codes "localhost" ∷ []

  unfoldable pub own_cert : Flags → Result Server
  unfolding own_names with_cert server_of
  own_cert f =
      if f.tls_self then with_cert f (os.self_signed (own_names f)) else done (server_of f [])

  unfoldable pub run_turn : Server → Result Server
  run_turn s =
      if is_nil s.flags.turn_addr
        || os.start_turn s.flags.turn_addr s.flags.public_ip s.flags.turn_secret
      then done s
      else fatal turn

  -- The proxies of -sites and -talkback.
  unfoldable pub add_proxies : Server → Result Server
  add_proxies s =
      if not (is_nil s.flags.sites) && not (os.is_url s.flags.sites)
      then fatal bad_sites
      else if not (is_nil s.flags.talkback) && not (os.is_url s.flags.talkback)
      then fatal bad_talkback
      else done s

  -- The address of -local, with its host and port.
  unfoldable pub local_listener : Bytes → Option (Bytes × Bytes) → Result (List Listener)
  local_listener addr none = fatal not_loopback
  local_listener addr (some (host, port)) =
      if os.is_loopback host then done (plain addr mux ∷ []) else fatal not_loopback

  unfoldable pub start_local : Bytes → Result (List Listener)
  unfolding local_listener
  start_local addr = if is_nil addr then done [] else local_listener addr (os.split_host_port addr)

  -- The last switch of main: the listeners, the public one last.
  unfoldable pub listeners : Server → Result (List Listener)
  unfolding start_local
  listeners s =
      if not (is_nil s.flags.acme_domain)
      then (start_local s.flags.local_addr >>= λ own.
          done (plain (codes ":80") challenges ∷ (own ++ acme s.flags.acme_domain ∷ [])))
      else if not (is_nil s.flags.cert_file)
      then (start_local s.flags.local_addr >>= λ own.
          done (own ++ tls s.flags.http_addr s.flags.cert_file s.flags.key_file ∷ []))
      else done (plain s.flags.http_addr mux ∷ [])

  unfoldable pub prepare : Flags → Result Server
  unfolding check_mode own_cert run_turn add_proxies
  prepare f =
      check_mode (fill_secrets f) >>= λ f1. own_cert (fill_public f1) >>= run_turn >>= add_proxies

  -- main: the server and its listeners, or why it stops.
  unfoldable pub start : Flags → Result (Server × List Listener)
  unfolding prepare listeners
  start f = prepare f >>= λ s. listeners s >>= λ ls. done (s, ls)
