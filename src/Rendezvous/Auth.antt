-- ===== src/Rendezvous/Auth.antt =====
-- cmd/nc-rendezvous/main.go: type authority, its counting of wrong passwords, and its guard of the
-- handlers. Times are nanoseconds since the epoch, as ℕ; the `log` lines and the CORS headers are
-- left out. What net, net/http and crypto do is the record Platform.
pub mod Endpoint
pub mod Throttle
pub mod Access
use network_computer.Prelude.{
  ℕ, suc, ◌+◌, ◌-◌, ◌*◌, Bool, true, false, ◌&&◌, List, [], ◌∷◌, Option, none, some, length, ltb,
  leb, is_nil, not, if◌then◌else◌,
}
use network_computer.Prelude.Assoc.{lookup, insert}
use network_computer.Prelude.Bytes.{Bytes, bytes_key, bytes_eq, has_prefix, trim_prefix, codes}
use network_computer.Rendezvous.Token.{second, valid_token}

-- The libraries that the authority calls.
pub record Platform : Type 0 where
  pub mac : Bytes → Bytes → Bytes  -- HMAC-SHA-256 of a secret and a text
  pub client_host : Bytes → Option Bytes  -- net.SplitHostPort, the host or an error
  pub is_loopback : Bytes → Bool  -- net.ParseIP succeeds and IsLoopback
  pub basic_auth : Bytes → Option (Bytes × Bytes)  -- Request.BasicAuth, of the header's value

pub record FailCount : Type 0 where
  pub n : ℕ
  pub since : ℕ

pub record Authority : Type 0 where
  pub user : Bytes
  pub pass : Bytes
  pub secret : Bytes
  pub fails : List (Bytes × FailCount)

-- What the authority reads of a request; an empty text is a missing header or parameter.
pub record Request : Type 0 where
  pub remote_addr : Bytes
  pub authorization : Bytes
  pub token : Bytes

abbrev pub max_fails : ℕ
max_fails = 10

-- 10 * time.Minute
abbrev pub fail_window : ℕ
fail_window = 600 * second

abbrev pub fails_limit : ℕ
fails_limit = 10000

unfoldable pub new_authority : Bytes → Bytes → Bytes → Authority
new_authority user pass secret = record { user = user; pass = pass; secret = secret; fails = [] }

-- `time.Since(f.since) > failWindow`
abbrev pub stale : ℕ → FailCount → Bool
stale now f = ltb fail_window (now - f.since)

unfoldable pub check_creds : Authority → Bytes → Bytes → Bool
check_creds a u p = bytes_eq u a.user && bytes_eq p a.pass

-- The entry that `failed` counts in: the one of the address, or none if it is missing or stale.
unfoldable pub live_entry : ℕ → Option FailCount → Option FailCount
live_entry now none = none
live_entry now (some f) = if stale now f then none else some f

-- `len(a.fails) > 10000`: forget everyone rather than grow forever
unfoldable pub make_room : List (Bytes × FailCount) → List (Bytes × FailCount)
make_room fails = if ltb fails_limit (length fails) then [] else fails

unfoldable pub count_failure :
    ℕ → Bytes → Option FailCount → List (Bytes × FailCount) → List (Bytes × FailCount)
unfolding make_room
count_failure now addr none fails = insert addr (record { n = 1; since = now }) (make_room fails)
count_failure now addr (some f) fails = insert addr (record f { n = suc f.n }) fails

unfoldable pub failed : ℕ → Bytes → Authority → Authority
unfolding count_failure live_entry
failed now addr a = record a {
  fails = count_failure now addr (live_entry now (lookup addr a.fails)) a.fails;
}

-- The authority after checkCredsFrom, and its results.
pub record Checked : Type 0 where
  pub state : Authority
  pub ok : Bool
  pub limited : Bool

module _ (os : Platform) where
  unfoldable pub client_addr : Request → Bytes
  client_addr r = elim (os.client_host r.remote_addr) [ none ↦ r.remote_addr | some host ↦ host ]

  unfoldable pub blocked : ℕ → Bytes → Authority → Bool
  unfolding live_entry
  blocked now addr a =
      if os.is_loopback addr
      then false
      else elim (live_entry now (lookup addr a.fails)) [ none ↦ false | some f ↦ leb max_fails f.n ]

  -- checkCredsFrom at an address.
  unfoldable pub check_creds_at : ℕ → Bytes → Authority → Bytes → Bytes → Checked
  check_creds_at now addr a u p =
      if blocked now addr a
      then record { state = a; ok = false; limited = true }
      else if check_creds a u p
      then record { state = a; ok = true; limited = false }
      else record { state = failed now addr a; ok = false; limited = false }

  unfoldable pub check_creds_from : ℕ → Authority → Request → Bytes → Bytes → Checked
  unfolding client_addr check_creds_at
  check_creds_from now a r u p = check_creds_at now (client_addr r) a u p

  -- `?token=` on the WebSocket
  unfoldable pub query_ok : ℕ → Authority → Request → Bool
  query_ok now a r = not (is_nil r.token) && valid_token os.mac a.secret now r.token

  unfoldable pub request_ok : ℕ → Authority → Request → Authority × Bool
  unfolding query_ok
  request_ok now a r =
      if not (is_nil r.authorization)
      then if has_prefix r.authorization (codes "Bearer ")
        then (a, valid_token os.mac a.secret now (trim_prefix r.authorization (codes "Bearer ")))
        else elim (os.basic_auth r.authorization) [
          | none ↦ (a, query_ok now a r)
          | some (u, p) ↦ let checked = check_creds_from now a r u p in (checked.state, checked.ok)
        ]
      else (a, query_ok now a r)

  -- The guarded handler's answer, or `none` for 401 unauthorized.
  unfoldable pub guard {ℓ} :
      {A : Type ℓ} → (Request → A) → ℕ → Authority → Request → Authority × Option A
  unfolding request_ok
  guard next now a r = let (a', ok) = request_ok now a r in (a', if ok then some (next r) else none)
