-- ===== src/Rendezvous/Start/Protected.antt =====
-- Where the listeners of the last switch serve plain HTTP.
use network_computer.Prelude.{
  ◌≡◌, refl, sym, Bool, true, false, ◌||◌, not, List, [], ◌∷◌, ◌++◌, Option, none, some, All,
  All-append, arith, is_nil, if◌then◌else◌,
}
use network_computer.Prelude.Bytes.{Bytes, codes}
use network_computer.Rendezvous.Start.{
  Result, fatal, done, ◌>>=◌, Machine, Listener, mux, challenges, plain, tls, acme, Server,
  is_secure, local_listener, start_local, listeners,
}

pub bind_done {ℓ κ} :
    {A : Type ℓ} {B : Type κ} (r : Result A) (f : A → Result B) (b : B)
    → (r >>= f) ≡ done b
    → (a : A) × (r ≡ done a) × (f a ≡ done b)
bind_done (fatal e) f b h = cc
bind_done (done a) f b h = (a, refl, h)

pub done_inj {ℓ} : {A : Type ℓ} (a b : A) → done a ≡ done b → a ≡ b
done_inj a b h = cc

-- The desk's own handlers are in plain HTTP on a loopback address alone; what is in plain HTTP on
-- another address is autocert's own handler, on port 80.
abbrev pub IsProtected : Machine → Listener → Type 0
IsProtected os (plain addr mux) =
    (host port : Bytes) × (os.split_host_port addr ≡ some (host, port))
    × (os.is_loopback host ≡ true)
IsProtected os (plain addr challenges) = addr ≡ codes ":80"
IsProtected os (tls addr cert key) = Unit
IsProtected os (acme domain) = Unit

module _ (os : Machine) where
  local-IsProtected :
      (addr : Bytes) (o : Option (Bytes × Bytes)) (ls : List Listener)
      → os.split_host_port addr ≡ o
      → local_listener os addr o ≡ done ls
      → All (IsProtected os) ls
  unfolding local_listener
  local-IsProtected addr none ls e h = cc
  local-IsProtected addr (some (host, port)) ls e h =
      let l : ls ≡ plain addr mux ∷ [] = ground arith in rw l ((host, port, e, ground arith), tt)

  start_local-IsProtected :
      (addr : Bytes) (ls : List Listener) → start_local os addr ≡ done ls → All (IsProtected os) ls
  unfolding start_local
  start_local-IsProtected [] ls h = rw (sym (done_inj [] ls h)) tt
  start_local-IsProtected (c ∷ addr) ls h = local-IsProtected (c ∷ addr) _ ls refl h

  -- The last switch, by its two tests.
  choice :
      (b c : Bool) (s : Server) (ls : List Listener)
      → (if b
          then (start_local os s.flags.local_addr >>= λ own.
              done (plain (codes ":80") challenges ∷ (own ++ acme s.flags.acme_domain ∷ [])))
          else if c
          then (start_local os s.flags.local_addr >>= λ own.
              done (own ++ tls s.flags.http_addr s.flags.cert_file s.flags.key_file ∷ []))
          else done (plain s.flags.http_addr mux ∷ []))
        ≡ done ls
      → (b || c) ≡ true
      → All (IsProtected os) ls
  choice true c s ls h e =
      let (own, k, m) = bind_done (start_local os s.flags.local_addr) _ ls h in
      rw (sym (done_inj _ _ m))
        (refl, All-append (IsProtected os) own _ (start_local-IsProtected _ own k) (tt, tt))
  choice false true s ls h e =
      let (own, k, m) = bind_done (start_local os s.flags.local_addr) _ ls h in
      rw (sym (done_inj _ _ m))
        (All-append (IsProtected os) own _ (start_local-IsProtected _ own k) (tt, tt))
  choice false false s ls h e = cc

  pub listeners-IsProtected :
      (s : Server) (ls : List Listener)
      → is_secure s.flags ≡ true
      → listeners os s ≡ done ls
      → All (IsProtected os) ls
  unfolding listeners is_secure
  listeners-IsProtected s ls e h =
      choice (not (is_nil s.flags.acme_domain)) (not (is_nil s.flags.cert_file)) s ls h e

  pub listeners_plain :
      (s : Server) (ls : List Listener)
      → is_secure s.flags ≡ false
      → listeners os s ≡ done ls
      → ls ≡ plain s.flags.http_addr mux ∷ []
  unfolding listeners is_secure
  listeners_plain s ls e h = ground arith
