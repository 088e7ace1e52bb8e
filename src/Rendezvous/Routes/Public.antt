-- ===== src/Rendezvous/Routes/Public.antt =====
-- What the desk's address gives to someone without its password or a token.
use network_computer.Prelude.{
  ℕ, ◌≡◌, ◌⊎◌, inl, inr, refl, sym, ap, ◌∙◌, Bool, true, false, ◌++◌, drop, Option, none, some,
  arith, if◌then◌else◌,
}
use network_computer.Prelude.Bytes.{
  Bytes, bytes_eq, bytes_eq_iff, codes, has_prefix, has_prefix_split,
}
use network_computer.Rendezvous.Auth
use network_computer.Rendezvous.Auth.{Authority, guard}
use network_computer.Rendezvous.Auth.Access.{Admitted, guard_sound}
use network_computer.Rendezvous.Proxy.{Served}
use network_computer.Rendezvous.Proxy
use network_computer.Rendezvous.Proxy.Private.{Published, sites_sent}
use network_computer.Rendezvous.Proxy.Paths.{Asks, talkback_sent}
use network_computer.Rendezvous.Start.{Flags}
use network_computer.Rendezvous.Routes.{
  Route, auth, ws, config, hosts, sites, talkback, page, Routed, moved, to, route, Incoming, Answer,
  endpoint, socket, configured, host_names, proxied, file, denied, redirected, Desk, guarded,
  handle, follow, serve_http,
}

-- Not the hub, not /config and not /hosts; and another server only for what it publishes or a phone
-- may read.
abbrev pub IsPublic : Incoming → Answer → Type 0
IsPublic i socket = ⊥
IsPublic i (configured c) = ⊥
IsPublic i (host_names names) = ⊥
IsPublic i (proxied served) =
    (q : Proxy.Request)
    → served.sent ≡ some q
    → Published i.http ⊎ ((rest : Bytes) × Asks rest i.http)
IsPublic i (endpoint reply) = Unit
IsPublic i (file path) = Unit
IsPublic i denied = Unit
IsPublic i (redirected path) = Unit

under_talkback :
    (f : Flags) (path : Bytes)
    → route f path ≡ to talkback
    → has_prefix path (codes "/talkback/") ≡ true
unfolding route
under_talkback f path h = ground arith

shorter :
    (path : Bytes)
    → has_prefix path (codes "/talkback/") ≡ true
    → (rest : Bytes) × (path ≡ codes "/talkback" ++ rest)
shorter path h = (codes "/" ++ drop 10 path, has_prefix_split path (codes "/talkback/") h)

module _ (d : Desk) (now : ℕ) where
  guarded-IsPublic :
      (answer : Answer) (i : Incoming) (a : Authority)
      → ¬ Admitted d.platform now a i.caller
      → IsPublic i (guarded d now answer a i.caller).1
  unfolding guarded
  guarded-IsPublic answer i a n =
      opened (guard d.platform (λ (_ : Auth.Request). answer) now a i.caller).1 refl
    where
      opened :
          (o : Option Answer)
          → (guard d.platform (λ (_ : Auth.Request). answer) now a i.caller).1 ≡ o
          → IsPublic i (elim o [ none ↦ denied | some x ↦ x ])
      opened none e = tt
      opened (some x) e =
          absurd (n (guard_sound d.platform (λ (_ : Auth.Request). answer) now a i.caller e).0)

  handle-IsPublic :
      (r : Route) (i : Incoming) (a : Authority)
      → ¬ Admitted d.platform now a i.caller
      → (r ≡ talkback → (rest : Bytes) × (i.http.path ≡ codes "/talkback" ++ rest))
      → IsPublic i (handle d now r i a).1
  unfolding handle
  handle-IsPublic auth i a n t = tt
  handle-IsPublic ws i a n t = guarded-IsPublic socket i a n
  handle-IsPublic config i a n t = guarded-IsPublic (configured d.config) i a n
  handle-IsPublic hosts i a n t = guarded-IsPublic (host_names d.names) i a n
  handle-IsPublic sites i a n t =
      λ q h. inl ((sites_sent d.server.flags.sites d.sites d.back i.http q).0 h).0
  handle-IsPublic talkback i a n t = λ q h.
      let (rest, e) = t refl in
      inr (rest, ((talkback_sent rest d.talkback d.back i.http q e).0 h).0)
  handle-IsPublic page i a n t = tt

  follow-IsPublic :
      (r : Routed) (i : Incoming) (a : Authority)
      → ¬ Admitted d.platform now a i.caller
      → (r ≡ to talkback → (rest : Bytes) × (i.http.path ≡ codes "/talkback" ++ rest))
      → IsPublic i (follow d now r i a).1
  unfolding follow
  follow-IsPublic (moved path) i a n t = tt
  follow-IsPublic (to r) i a n t = handle-IsPublic r i a n (λ e. t (ap to e))

  -- A request without the right password or a valid token is given neither the hub nor /config nor
  -- the hosts' names, and it reaches another server only if it reads what is published under /s/, or
  -- one of the four paths under /talkback.
  pub serve_http-IsPublic :
      (i : Incoming) (a : Authority)
      → ¬ Admitted d.platform now a i.caller
      → IsPublic i (serve_http d now i a).1
  unfolding serve_http
  serve_http-IsPublic i a n =
      follow-IsPublic _ i a n (λ e. asked (bytes_eq path i.http.path) refl e)
    where
      path : Bytes
      path = d.clean i.http.path

      asked :
          (b : Bool)
          → bytes_eq path i.http.path ≡ b
          → (if b then route d.server.flags path else moved path) ≡ to talkback
          → (rest : Bytes) × (i.http.path ≡ codes "/talkback" ++ rest)
      asked true e h =
          let (rest, k) = shorter path (under_talkback d.server.flags path h) in
          (rest, sym ((bytes_eq_iff path i.http.path).0 e) ∙ k)
      asked false e h = cc
