-- ===== src/Rendezvous/Auth/Endpoint.antt =====
-- POST /auth (main of cmd/nc-rendezvous/main.go): the one place where a password buys a token, and
-- the use of that token at the guard.
use network_computer.Http.{Method, post, options}
use network_computer.Http.Status
use network_computer.Prelude.{
  ℕ, ◌+◌, ◌/◌, ◌^◌, ◌<◌, ◌≡◌, ◌++◌, Option, none, some, arith, All, leb, ◌==◌, ap, ◌∙◌,
  if◌then◌else◌,
}
use network_computer.Prelude.Base64.{IsByte}
use network_computer.Prelude.Bytes.{Bytes, codes, trim_prefix}
use network_computer.Rendezvous.Auth.{
  Platform, Authority, Request, Checked, check_creds, check_creds_from, blocked, failed,
  client_addr, request_ok,
}
use network_computer.Rendezvous.Token.{second, token_ttl, mint, valid_token, token_lifetime}

pub record Reply : Type 0 where
  pub state : Authority
  pub status : ℕ
  pub token : Option Bytes

module _ (os : Platform) where
  -- The reply to the outcome of checkCredsFrom.
  unfoldable pub auth_reply : ℕ → Checked → Reply
  auth_reply now checked =
      if checked.limited
      then record { state = checked.state; status = Status.too_many_requests; token = none }
      else if checked.ok
      then record {
        state = checked.state;
        status = Status.ok;
        token = some (mint os.mac checked.state.secret checked.state.user now);
      }
      else record { state = checked.state; status = Status.unauthorized; token = none }

  -- `u` and `p` are what the JSON decoder left in the body's fields.
  unfoldable pub auth_endpoint : ℕ → Authority → Request → Method → Bytes → Bytes → Reply
  unfolding auth_reply
  auth_endpoint now a r options u p = record { state = a; status = Status.ok; token = none }
  auth_endpoint now a r post u p = auth_reply now (check_creds_from os now a r u p)
  auth_endpoint now a r _ u p = record {
    state = a;
    status = Status.method_not_allowed;
    token = none;
  }

  checked_keeps :
      (now : ℕ) (a : Authority) (r : Request) (u p : Bytes)
      → let b = (check_creds_from os now a r u p).state in
        (b.secret ≡ a.secret) × (b.user ≡ a.user) × (b.pass ≡ a.pass)
  unfolding check_creds_from failed
  checked_keeps now a r u p = ground arith

  -- A POST is answered with a token exactly for the right user name and password from an address
  -- that is not blocked; the status is 200 then, 429 for a blocked address and 401 for a wrong
  -- password.
  pub auth_endpoint_outcome :
      (now : ℕ) (a : Authority) (r : Request) (u p : Bytes)
      → let reply = auth_endpoint now a r post u p in
        (reply.status ≡ (
          if blocked os now (client_addr os r) a
          then Status.too_many_requests
          else if check_creds a u p
          then Status.ok
          else Status.unauthorized))
        × (reply.token
            ≡ (if reply.status == Status.ok then some (mint os.mac a.secret a.user now) else none))
  unfolding auth_endpoint check_creds_from
  auth_endpoint_outcome now a r u p = ground arith

  bearer_request_ok :
      (now : ℕ) (a : Authority) (tok : Bytes) (r : Request)
      → r.authorization ≡ codes "Bearer " ++ tok
      → request_ok os now a r ≡ (a, valid_token os.mac a.secret now tok)
  unfolding request_ok trim_prefix
  bearer_request_ok now a tok r e = rw (e, request_ok)

  token_given :
      (now : ℕ) (a : Authority) (r : Request) (u p : Bytes) {tok : Bytes}
      → let reply = auth_endpoint now a r post u p in
        reply.token ≡ some tok
        → (tok ≡ mint os.mac a.secret a.user now) × (reply.state.secret ≡ a.secret)
  unfolding auth_endpoint
  token_given now a r u p h = ground (arith, checked_keeps now a r u p)

  -- The token that a login hands out opens the guarded handlers as a Bearer token exactly until its
  -- second of expiry, 12 hours later, and asking for it changes nothing.
  pub login_session :
      (now later : ℕ) (a : Authority) (r s : Request) (u p tok : Bytes)
      → All IsByte a.user
      → (now + token_ttl) / second < 2 ^ 63
      → let reply = auth_endpoint now a r post u p in
        reply.token ≡ some tok
        → s.authorization ≡ codes "Bearer " ++ tok
        → request_ok os later reply.state s
          ≡ (reply.state, leb (later / second) ((now + token_ttl) / second))
  login_session now later a r s u p tok bytes range given sent =
      let (minted, kept) = token_given now a r u p given in
      bearer_request_ok later (auth_endpoint now a r post u p).state tok s sent
      ∙ ap (λ b. ((auth_endpoint now a r post u p).state, b))
          (rw (kept, minted) (token_lifetime os.mac a.secret a.user now later bytes range))
