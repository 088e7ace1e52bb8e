-- ===== src/Tests/Auth.antt =====
-- The authority and the tokens, at concrete callers and times.
use network_computer.Http.{post}
use network_computer.Prelude.{
  ℕ, ◌≡◌, refl, true, false, List, [], ◌∷◌, ◌++◌, none, some, arith, if◌then◌else◌, length,
  replicate, zero, suc,
}
use network_computer.Prelude.Assoc.{lookup, insert}
use network_computer.Prelude.Bytes.{Bytes, bytes_key, bytes_eq, codes, count, has_prefix}
use network_computer.Host.Pairing
use network_computer.Host.Pairing.{
  Pairing, pairing_lifetime, pairing_barred, pair_payload, pair_ttl,
}
use network_computer.Rendezvous.Auth.{
  Platform, Authority, FailCount, Request, blocked, check_creds, check_creds_at, check_creds_from,
  request_ok, guard, failed,
}
use network_computer.Rendezvous.Auth.Access.{Admitted, guard_sound}
use network_computer.Rendezvous.Auth.Endpoint.{auth_endpoint, login_session}
use network_computer.Rendezvous.Auth.Throttle.{Attempt, attempt, wrong_guesses}
use network_computer.Rendezvous.Token
use network_computer.Rendezvous.Token.{
  token_lifetime, second, token_ttl, valid_token, valid_token_sound, payload_valid, payload_at,
}

abbrev os : Platform
os = record {
  mac = λ s t. s ++ t;
  client_host = λ a. some a;
  is_loopback = λ a. bytes_eq a (codes "127.0.0.1");
  basic_auth = λ h. if bytes_eq h (codes "Basic") then some (codes "nc", codes "pw") else none;
}

abbrev desk : Authority
desk = record { user = codes "nc"; pass = codes "pw"; secret = codes "k"; fails = [] }

abbrev caller : Bytes
caller = codes "10.0.0.9"

abbrev basic_request : Request
basic_request = record { remote_addr = caller; authorization = codes "Basic"; token = [] }

guard_sound_example : Admitted os 0 desk basic_request × (◌≡◌ {A = ℕ} 5 5)
unfolding guard check_creds_from check_creds_at blocked check_creds bytes_eq lookup has_prefix
guard_sound_example = guard_sound os (λ _. 5) 0 desk basic_request refl

abbrev guesses : List Attempt
guesses =
    record { now = 5; addr = caller; user = codes "nc"; pass = codes "a" }
    ∷ record { now = 6; addr = caller; user = codes "nc"; pass = codes "b" }
    ∷ []

two_wrong : wrong_guesses os caller desk guesses ≡ 2
unfolding wrong_guesses attempt check_creds_at blocked check_creds bytes_eq lookup failed insert
two_wrong = refl

abbrev tok : Bytes
tok = Token.mint os.mac (codes "k") (codes "nc") 0

login_session_example :
    request_ok os second
      (auth_endpoint os 0 desk basic_request post (codes "nc") (codes "pw")).state
      (record { remote_addr = caller; authorization = codes "Bearer " ++ tok; token = [] })
    ≡ ((auth_endpoint os 0 desk basic_request post (codes "nc") (codes "pw")).state, true)
unfolding auth_endpoint check_creds_from check_creds_at blocked check_creds bytes_eq lookup
login_session_example =
    login_session os 0 second desk basic_request
      (record { remote_addr = caller; authorization = codes "Bearer " ++ tok; token = [] })
      (codes "nc") (codes "pw") tok (omega arith) (omega arith) refl refl

abbrev locked : FailCount
locked = record { n = 10; since = 0 }

abbrev locking : Authority
locking = record desk { fails = (caller, locked) ∷ [] }

abbrev paired : Pairing
paired = record { host = codes "desk"; secret = codes "k" }

abbrev barred : Pairing
barred = record { host = codes "my|desk"; secret = codes "k" }

pairing_barred_example : Pairing.valid os.mac barred second (Pairing.mint os.mac barred 0) ≡ false
unfolding count
pairing_barred_example = pairing_barred os.mac barred 0 second (omega arith) (omega arith)

-- A digest that does not depend on the secret, so that the tokens of any two secrets agree.
abbrev weak : Bytes → Bytes → Bytes
weak s t = 7 ∷ []

-- A table with one address more often than the bound: `lookup` and `length` see only the list.
abbrev crowd : ℕ → List (Bytes × FailCount)
crowd n = replicate n (codes "10.0.0.80", record { n = 10; since = 0 })

crowd-length : (n : ℕ) → length (crowd n) ≡ n
crowd-length zero = refl
crowd-length (suc n) = omega (arith, crowd-length n)

crowd-caller : (n : ℕ) → lookup caller (crowd n) ≡ none
unfolding lookup bytes_eq
crowd-caller zero = refl
crowd-caller (suc n) = crowd-caller n
