-- ===== src/Rendezvous/Auth/Access.antt =====
-- Who gets past the guard, and for how long an address is kept out.
use network_computer.Prelude.{
  ℕ, ◌-◌, ◌≤◌, ◌<◌, ◌≡◌, ◌≢◌, refl, true, false, not, List, [], none, some, arith, length, is_nil,
  ltb, Option-cases, Bool-cases, inl, inr,
}
use network_computer.Prelude.Assoc.{lookup, lookup-insert}
use network_computer.Prelude.Bytes.{Bytes, bytes_key, bytes_eq_iff, has_prefix, trim_prefix, codes}
use network_computer.Rendezvous.Auth.{
  Platform, Authority, FailCount, Request, max_fails, fail_window, fails_limit, live_entry,
  make_room, count_failure, failed, blocked, check_creds, check_creds_at, check_creds_from,
  client_addr, query_ok, request_ok, guard,
}
use network_computer.Rendezvous.Token.{valid_token}

module _ (os : Platform) where
  -- The three ways in.
  pub data Admitted (now : ℕ) (a : Authority) (r : Request) : Type 0 where
    bearer :
        (tok : Bytes)
        → tok ≡ trim_prefix r.authorization (codes "Bearer ")
        → valid_token os.mac a.secret now tok ≡ true
        → Admitted now a r
    basic :
        (u p : Bytes)
        → os.basic_auth r.authorization ≡ some (u, p)
        → blocked os now (client_addr os r) a ≡ false
        → u ≡ a.user
        → p ≡ a.pass
        → Admitted now a r
    query : r.token ≢ [] → valid_token os.mac a.secret now r.token ≡ true → Admitted now a r

  query-Admitted :
      (now : ℕ) (a : Authority) (r : Request) → query_ok os now a r ≡ true → Admitted now a r
  unfolding query_ok
  query-Admitted now a r h = query (ground arith) (ground arith)

  basic-Admitted :
      (now : ℕ) (a : Authority) (r : Request) (u p : Bytes)
      → os.basic_auth r.authorization ≡ some (u, p)
      → (check_creds_from os now a r u p).ok ≡ true
      → Admitted now a r
  unfolding check_creds_from check_creds
  basic-Admitted now a r u p e h =
      basic u p e (ground arith) (ground (arith, bytes_eq_iff u a.user))
        (ground (arith, bytes_eq_iff p a.pass))

  header-Admitted :
      (now : ℕ) (a : Authority) (r : Request) → (request_ok os now a r).1 ≡ true → Admitted now a r
  unfolding request_ok
  header-Admitted now a r h = elim (Bool-cases (is_nil r.authorization)) [
    | inl none_sent ↦ query-Admitted now a r (ground arith)
    | inr sent ↦ elim (Bool-cases (has_prefix r.authorization (codes "Bearer "))) [
      | inl is_bearer ↦ bearer (trim_prefix r.authorization (codes "Bearer ")) refl (ground arith)
      | inr not_bearer ↦ elim (Option-cases (os.basic_auth r.authorization)) [
        | inl e ↦ query-Admitted now a r (ground arith)
        | inr (creds, e) ↦ basic-Admitted now a r creds.0 creds.1 (ground arith) (ground arith)
      ]
    ]
  ]

  -- A guarded handler runs only for a caller with a valid token in the header or the query, or
  -- with the user name and password in Basic from an address that is not blocked.
  pub guard_sound {ℓ} :
      {A : Type ℓ} (next : Request → A) (now : ℕ) (a : Authority) (r : Request) {answer : A}
      → (guard os next now a r).1 ≡ some answer
      → Admitted now a r × (answer ≡ next r)
  unfolding guard
  guard_sound next now a r h = (header-Admitted now a r (ground arith), ground arith)

  -- An address that is not loopback and has ten wrong passwords on its count is refused the right
  -- one until ten minutes after the first of them, and gets in with it from then on; a refusal
  -- changes nothing.
  pub lockout_period :
      (now : ℕ) (addr : Bytes) (a : Authority) (f : FailCount)
      → os.is_loopback addr ≡ false
      → lookup addr a.fails ≡ some f
      → max_fails ≤ f.n
      → let r = check_creds_at os now addr a a.user a.pass in
        (r.ok ≡ ltb fail_window (now - f.since)) × (r.limited ≡ not r.ok) × (r.state ≡ a)
  unfolding check_creds_at blocked live_entry check_creds
  lockout_period now addr a f away e many =
      ground (arith, (bytes_eq_iff a.user a.user).1 refl, (bytes_eq_iff a.pass a.pass).1 refl)

  -- The desk's own address is never refused for wrong passwords, whatever the table holds.
  pub loopback_never_limited :
      (now : ℕ) (addr : Bytes) (a : Authority) (u p : Bytes)
      → os.is_loopback addr ≡ true
      → let r = check_creds_at os now addr a u p in (r.limited ≡ false) × (r.ok ≡ check_creds a u p)
  unfolding check_creds_at blocked
  loopback_never_limited now addr a u p h = ground arith

  not_blocked :
      (now : ℕ) (addr : Bytes) (a : Authority)
      → live_entry now (lookup addr a.fails) ≡ none
      → blocked os now addr a ≡ false
  unfolding blocked
  not_blocked now addr a h = ground arith

  forgotten :
      (now : ℕ) (addr v : Bytes) (a : Authority)
      → fails_limit < length a.fails
      → live_entry now (lookup addr a.fails) ≡ none
      → addr ≢ v
      → lookup v (failed now addr a).fails ≡ none
  unfolding failed count_failure lookup
  forgotten now addr v a full new apart =
      rw (new, count_failure)
        (rw (emptied a.fails full) (
          ground (
            arith,
            lookup-insert {V = FailCount} addr v (record { n = 1; since = now }) [],
            bytes_eq_iff addr v,
          )))
    where
      emptied : (fs : List (Bytes × FailCount)) → fails_limit < length fs → make_room fs ≡ []
      emptied fs h = ground arith

  -- The table's bound has a price: once it holds more than 10000 addresses, a wrong password from
  -- an address with no live entry lifts every other address's block, at every later time.
  pub overflow_lifts_blocks :
      (now later : ℕ) (addr v u p : Bytes) (a : Authority)
      → fails_limit < length a.fails
      → check_creds a u p ≡ false
      → live_entry now (lookup addr a.fails) ≡ none
      → addr ≢ v
      → blocked os later v (check_creds_at os now addr a u p).state ≡ false
  unfolding check_creds_at
  overflow_lifts_blocks now later addr v u p a full wrong new apart =
      rw (not_blocked now addr a new, wrong)
        (not_blocked later v (failed now addr a)
          (unfold live_entry in rw (forgotten now addr v a full new apart)))
