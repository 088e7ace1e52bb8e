-- ===== src/Rendezvous/Start/Posture.antt =====
-- What the flags promise about TLS, and what the listeners then do.
use network_computer.Prelude.{
  ◌≡◌, ◌≢◌, refl, sym, ap, ◌∙◌, subst, Bool, true, false, ◌&&◌, ◌||◌, not, List, [], ◌∷◌, Option,
  none, some, All, arith, is_nil, if◌then◌else◌,
}
use network_computer.Prelude.Bytes.{Bytes, bytes_eq, codes}
use network_computer.Rendezvous.Start.{
  Flags, conflict, fatal, done, ◌>>=◌, Machine, Listener, mux, plain, Server, is_secure, check_mode,
  fill_secrets, fill_public, own_names, with_cert, server_of, own_cert, run_turn, add_proxies,
  listeners, prepare, start,
}
use network_computer.Rendezvous.Start.Protected.{
  bind_done, done_inj, IsProtected, listeners-IsProtected, listeners_plain,
}

-- A certificate is given, or one is to be made.
abbrev wants_tls : Flags → Bool
wants_tls f = f.tls_self || (not (is_nil f.acme_domain) || not (is_nil f.cert_file))

-- A certificate that is made has a file.
abbrev pub MakesFiles : Machine → Type 0
MakesFiles os =
    (names : List Bytes) (cert key fp : Bytes)
    → os.self_signed names ≡ some (cert, key, fp)
    → cert ≢ []

mode_is : (m w v : Bytes) (b : Bool) → m ≡ w → bytes_eq w v ≡ b → bytes_eq m v ≡ b
mode_is m w v b e h = rw e h

secure_mode :
    (f : Flags)
    → f.mode ≡ codes "secure"
    → check_mode f
      ≡ done
          (if is_nil f.acme_domain && is_nil f.cert_file then record f { tls_self = true } else f)
unfolding check_mode bytes_eq
secure_mode f m = rw (
  mode_is f.mode (codes "secure") (codes "auto") false m refl,
  mode_is f.mode (codes "secure") (codes "secure") true m refl,
)

wants_own :
    (b : Bool) (f : Flags)
    → (is_nil f.acme_domain && is_nil f.cert_file) ≡ b
    → wants_tls (if b then record f { tls_self = true } else f) ≡ true
wants_own true f e = refl
wants_own false f e = ground arith

secure_wants : (f g : Flags) → f.mode ≡ codes "secure" → check_mode f ≡ done g → wants_tls g ≡ true
secure_wants f g m h = rw (done_inj g _ (sym h ∙ secure_mode f m)) (wants_own _ f refl)

insecure_mode :
    (f : Flags)
    → f.mode ≡ codes "insecure"
    → check_mode f ≡ (
        if not (is_nil f.acme_domain) || not (is_nil f.cert_file) || f.tls_self
        then fatal conflict
        else done f)
unfolding check_mode bytes_eq
insecure_mode f m = rw (
  mode_is f.mode (codes "insecure") (codes "auto") false m refl,
  mode_is f.mode (codes "insecure") (codes "secure") false m refl,
  mode_is f.mode (codes "insecure") (codes "insecure") true m refl,
)

insecure_plain :
    (f g : Flags)
    → f.mode ≡ codes "insecure"
    → check_mode f ≡ done g
    → (g ≡ f) × (wants_tls f ≡ false)
insecure_plain f g m h = ground (arith, insecure_mode f m)

module _ (os : Machine) where
  Kept : Flags → Server → Type 0
  Kept f s =
      (s.secure ≡ is_secure s.flags)
      × (is_secure s.flags ≡ wants_tls f)
      × (s.flags.local_addr ≡ f.local_addr)
      × (s.flags.http_addr ≡ f.http_addr)

  with_cert-Kept :
      (f : Flags) (s : Server) (o : Option (Bytes × Bytes × Bytes))
      → f.tls_self ≡ true
      → ((cert key fp : Bytes) → o ≡ some (cert, key, fp) → cert ≢ [])
      → with_cert f o ≡ done s
      → Kept f s
  unfolding with_cert is_secure Kept server_of
  with_cert-Kept f s none t n h = cc
  with_cert-Kept f s (some (cert, key, fp)) t n h = ground (arith, n cert key fp refl)

  given-Kept :
      (f : Flags) (s : Server) → f.tls_self ≡ false → done (server_of f []) ≡ done s → Kept f s
  unfolding is_secure Kept server_of
  given-Kept f s t h = ground arith

  own_cert-Kept : (f : Flags) (s : Server) → MakesFiles os → own_cert os f ≡ done s → Kept f s
  unfolding own_cert
  own_cert-Kept f s makes h = chosen f.tls_self refl h
    where
      chosen :
          (b : Bool)
          → f.tls_self ≡ b
          → (if b then with_cert f (os.self_signed (own_names os f)) else done (server_of f []))
            ≡ done s
          → Kept f s
      chosen true t h =
          with_cert-Kept f s (os.self_signed (own_names os f)) t (makes (own_names os f)) h
      chosen false t h = given-Kept f s t h

  run_turn_same : (s t : Server) → run_turn os s ≡ done t → t ≡ s
  unfolding run_turn
  run_turn_same s t h = ground arith

  add_proxies_same : (s t : Server) → add_proxies os s ≡ done t → t ≡ s
  unfolding add_proxies
  add_proxies_same s t h = ground arith

  prepared :
      (f : Flags) (s : Server)
      → MakesFiles os
      → prepare os f ≡ done s
      → (g : Flags) × (check_mode (fill_secrets os f) ≡ done g) × Kept (fill_public os g) s
  unfolding prepare
  prepared f s makes h =
      let (g, h0, e0) = bind_done (check_mode (fill_secrets os f)) _ s h in
      let own = own_cert os (fill_public os g) in
      let (s2, h2, e2) = bind_done (own >>= run_turn os) (add_proxies os) s e0 in
      let (s1, h1, e1) = bind_done own (run_turn os) s2 h2 in
      let same : s ≡ s1 = add_proxies_same s2 s e2 ∙ run_turn_same s1 s2 e1 in
      (
        g,
        h0,
        subst (Kept (fill_public os g)) (sym same) (own_cert-Kept (fill_public os g) s1 makes h1),
      )

  public_wants : (g : Flags) → wants_tls (fill_public os g) ≡ wants_tls g
  unfolding fill_public
  public_wants g = refl

  public_http : (g : Flags) → (fill_public os g).http_addr ≡ g.http_addr
  unfolding fill_public
  public_http g = refl

  secrets_mode : (f : Flags) → (fill_secrets os f).mode ≡ f.mode
  unfolding fill_secrets
  secrets_mode f = refl

  mode-Kept :
      (f g : Flags) (s : Server)
      → check_mode (fill_secrets os f) ≡ done g
      → Kept (fill_public os g) s
      → (f.mode ≡ codes "secure" → s.secure ≡ true) × (f.mode ≡ codes "insecure" → s.secure ≡ false)
  unfolding Kept
  mode-Kept f g s h (k, w, _, _) =
      let secure : s.secure ≡ wants_tls g = k ∙ w ∙ public_wants g in
      (
        λ m. secure ∙ secure_wants (fill_secrets os f) g (secrets_mode f ∙ m) h,
        λ m.
            let (e, n) = insecure_plain (fill_secrets os f) g (secrets_mode f ∙ m) h in
            secure ∙ ap (λ x. wants_tls x) e ∙ n,
      )

  -- If main comes to listen, then with the posture "secure" the desk's own handlers are served in plain
  -- HTTP on a loopback address alone, all else in plain HTTP being autocert's own handler on :80, and
  -- otherwise there is one listener, the desk's own in plain HTTP; -mode secure makes the posture secure, and -mode
  -- insecure does not.
  pub posture_kept :
      (f : Flags) (s : Server) (ls : List Listener)
      → MakesFiles os
      → start os f ≡ done (s, ls)
      → (s.secure ≡ true → All (IsProtected os) ls)
        × (s.secure ≡ false → ls ≡ plain s.flags.http_addr mux ∷ [])
        × (f.mode ≡ codes "secure" → s.secure ≡ true)
        × (f.mode ≡ codes "insecure" → s.secure ≡ false)
  unfolding start Kept
  posture_kept f s ls makes h =
      let (s1, p, h1) = bind_done (prepare os f) _ (s, ls) h in
      let (ls1, l, h2) = bind_done (listeners os s1) _ (s, ls) h1 in
      let e : (s1, ls1) ≡ (s, ls) = done_inj _ _ h2 in
      let es : s1 ≡ s = ap (λ x. x.0) e in
      let (g, c, k) = prepared f s makes (p ∙ ap done es) in
      let listened : listeners os s ≡ done ls =
        ap (listeners os) (sym es) ∙ l ∙ ap (λ x. done x.1) e in
      let (secure, insecure) = mode-Kept f g s c k in
      (
        λ b. listeners-IsProtected os s ls (sym k.0 ∙ b) listened,
        λ b. listeners_plain os s ls (sym k.0 ∙ b) listened,
        secure,
        insecure,
      )
