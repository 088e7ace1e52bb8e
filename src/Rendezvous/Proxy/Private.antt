-- ===== src/Rendezvous/Proxy/Private.antt =====
-- What the two proxies let through, to the servers on the machine and back.
use network_computer.Prelude.{
  ℕ, append_assoc, replicate, Bool, true, false, ◌≡◌, ◌≢◌, ◌↔◌, ◌⊎◌, inl, inr, inl, inr, refl, sym,
  ap, ◌∙◌, some, none, ◌++◌, arith, drop, if◌then◌else◌, Bool-cases, ◌||◌, not, List, [], ◌∷◌,
}
use network_computer.Prelude.Assoc.{lookup, insert, delete, lookup-delete, lookup-insert, beq_refl}
use network_computer.Prelude.Bytes.{
  Bytes, bytes_key, bytes_eq, codes, has_prefix, has_prefix-append, has_prefix_split, contains,
  contains_iff, trim_prefix, trim_prefix-append, trim_right, trim_right-append,
}
use network_computer.Http.{Method, get, head, post, put, options, other}
use network_computer.Http.Status.{not_found, method_not_allowed}
use network_computer.Rendezvous.Proxy.{
  Header, header_get, local_location, Request, Response, Upstream, named_in, own_fields,
  IsReverseProxy, Served, refused, is_reading, serve_http, sites_director, sites_modify,
  sites_handler,
}

-- Without one of the fields.
abbrev pub Without : Bytes → List (Bytes × Bytes) → Type 0
Without name h = lookup name h ≡ none

abbrev pub IsReading : Method → Type 0
IsReading m = (m ≡ get) ⊎ (m ≡ head)

pub is_reading_iff : (m : Method) → (is_reading m ≡ true) ↔ IsReading m
unfolding is_reading
is_reading_iff get = (λ h. inl refl, λ h. refl)
is_reading_iff head = (λ h. inr refl, λ h. refl)
is_reading_iff post = (λ h. cc, λ h. ground arith)
is_reading_iff put = (λ h. cc, λ h. ground arith)
is_reading_iff options = (λ h. cc, λ h. ground arith)
is_reading_iff other = (λ h. cc, λ h. ground arith)

-- A request to read something under /s/.
abbrev pub Published : Request → Type 0
Published r =
    IsReading r.method
    × ((rest : Bytes) × (r.path ≡ codes "/s/" ++ rest))
    × ((a b : Bytes) → r.path ≢ a ++ (codes ".." ++ b))

pub delete_same : (k : Bytes) (h : List (Bytes × Bytes)) → lookup k (delete k h) ≡ none
delete_same k h = lookup-delete k k h ∙ rw (beq_refl k)

delete_keeps :
    (k j : Bytes) (h : List (Bytes × Bytes)) → lookup j h ≡ none → lookup j (delete k h) ≡ none
delete_keeps k j h e = lookup-delete k j h ∙ ground (arith)

pub delete_other :
    (k j : Bytes) (h : List (Bytes × Bytes))
    → bytes_eq k j ≡ false
    → lookup j (delete k h) ≡ lookup j h
delete_other k j h e = lookup-delete k j h ∙ rw e

-- Two tests before what is served.
abbrev pub gated : Bool → Bool → Served → Served
gated m n s = if not m then refused method_not_allowed else if n then refused not_found else s

pub gated_sent :
    (m n : Bool) (s : Served) (q : Request)
    → (gated m n s).sent ≡ some q
    → (m ≡ true) × (n ≡ false) × (s.sent ≡ some q)
gated_sent true true s q h = cc
gated_sent true false s q h = (refl, refl, h)
gated_sent false n s q h = cc

pub gated_answer :
    (m n : Bool) (s : Served)
    → Without (codes "Set-Cookie") s.answer.header
    → Without (codes "Set-Cookie") (gated m n s).answer.header
unfolding lookup
gated_answer true true s h = refl
gated_answer true false s h = h
gated_answer false n s h = refl

pub some_inj : {q r : Request} → some q ≡ some r → q ≡ r
some_inj h = cc

neither : {a b : Bool} → (not a || b) ≡ false → (a ≡ true) × (b ≡ false)
neither h = (ground arith, ground arith)

-- The test for ".." fails exactly where it stands nowhere.
pub contains_none : (s p : Bytes) → (contains s p ≡ false) ↔ ((a b : Bytes) → s ≢ a ++ (p ++ b))
contains_none s p = (
  λ h a b e. cc ((contains_iff s p).1 (a, b, e)),
  λ h. elim (Bool-cases (contains s p)) [
    | inl e ↦ let (a, b, k) = (contains_iff s p).0 e in absurd (h a b k)
    | inr e ↦ e
  ],
)

pub sites_sent :
    (target : Bytes) (u : Upstream) (back : Request → Response) (r q : Request)
    → ((sites_handler target u back r).sent ≡ some q)
      ↔ (Published r × (q ≡ u.forward (sites_director u r)))
unfolding sites_handler serve_http
sites_sent target u back r q =
    let dots = contains_none r.path (codes "..") in
    (
      λ h.
          let (m, n, s) =
            gated_sent (is_reading r.method)
              (not (has_prefix r.path (codes "/s/")) || contains r.path (codes "..")) _ q h in
          let (pre, none_dots) = neither n in
          (
            (
              (is_reading_iff r.method).0 m,
              (drop 3 r.path, has_prefix_split r.path (codes "/s/") pre),
              dots.0 none_dots,
            ),
            sym (some_inj s),
          ),
      λ ((m, (rest, e), d), q').
          let pre : has_prefix r.path (codes "/s/") ≡ true =
            rw e (has_prefix-append (codes "/s/") rest) in
          rw ((is_reading_iff r.method).1 m, pre, dots.1 d, q'),
    )

-- A field that the Director deleted does not leave.
pub forward-Without :
    (u : Upstream) (r : Request) (name : Bytes)
    → IsReverseProxy u
    → named_in name own_fields ≡ false
    → Without name r.header
    → Without name (u.forward r).header
forward-Without u r name p e w = p.forward_field r name e ∙ ground (arith, w)

-- Neither the desk's login nor a cookie passes: a request goes to the object server exactly if it
-- reads a path under /s/ with no ".." in it, and what goes, when the library has made of the caller's
-- request what it documents, is for the object server's host, has no Cookie and no Authorization, and
-- has the caller's address as its X-Forwarded-For, whatever the caller's said; and no answer sets a
-- cookie.
pub sites_private :
    (target : Bytes) (u : Upstream) (back : Request → Response) (r q : Request)
    → IsReverseProxy u
    → let served = sites_handler target u back r in
      let out = u.forward (sites_director u r) in
      ((served.sent ≡ some q) ↔ (Published r × (q ≡ out)))
      × (out.host ≡ u.host)
      × Without (codes "Cookie") out.header
      × Without (codes "Authorization") out.header
      × (lookup (codes "X-Forwarded-For") out.header ≡ r.client)
      × Without (codes "Set-Cookie") served.answer.header
unfolding sites_director sites_handler serve_http sites_modify bytes_eq
sites_private target u back r q p =
    let h = (u.director r).header in
    let c = delete (codes "Cookie") h in
    let a = delete (codes "Authorization") c in
    let out = sites_director u r in
    (
      sites_sent target u back r q,
      p.forward_host out,
      forward-Without u out _ p refl (delete_keeps _ _ a (delete_keeps _ _ c (delete_same _ h))),
      forward-Without u out _ p refl (delete_keeps _ _ a (delete_same _ c)),
      p.forward_client out (delete_same _ a) ∙ p.director_client r,
      gated_answer _ _ (serve_http u (sites_director u) (sites_modify target) back r)
          (delete_same _ _),
    )

sites_served :
    (target : Bytes) (u : Upstream) (back : Request → Response) (r : Request)
    → Published r
    → (sites_handler target u back r).answer
      ≡ sites_modify target (back (u.forward (sites_director u r)))
unfolding sites_handler serve_http
sites_served target u back r (m, (rest, e), d) =
    let pre : has_prefix r.path (codes "/s/") ≡ true =
      rw e (has_prefix-append (codes "/s/") rest) in
    rw ((is_reading_iff r.method).1 m, pre, (contains_none r.path (codes "..")).1 d)

header_get-some : (name v : Bytes) (h : Header) → lookup name h ≡ some v → header_get name h ≡ v
unfolding header_get
header_get-some name v h e = rw (e, header_get) refl

location_moved :
    (target loc : Bytes) (h : Header)
    → header_get (codes "Location") h ≡ loc
    → has_prefix loc target ≡ true
    → local_location target h
      ≡ insert (codes "Location") (trim_prefix loc (trim_right b'/' target)) h
unfolding local_location
location_moved target loc h e p = ground (arith)

location_local :
    (base rest : Bytes) (b k : ℕ) (h : Header)
    → b ≢ b'/'
    → lookup (codes "Location") h ≡ some ((base ++ b ∷ replicate k b'/') ++ rest)
    → lookup (codes "Location") (local_location (base ++ b ∷ replicate k b'/') h)
      ≡ some (replicate k b'/' ++ rest)
location_local base rest b k h n e =
    let slashes = replicate k b'/' in
    let target = base ++ b ∷ slashes in
    let trimmed : trim_prefix (target ++ rest) (trim_right b'/' target) ≡ slashes ++ rest =
      rw
        (
          trim_right-append b'/' base b k n,
          sym (append_assoc base (b ∷ []) slashes),
          append_assoc (base ++ b ∷ []) slashes rest,
        )
        (trim_prefix-append (base ++ b ∷ []) (slashes ++ rest)) in
    let moved =
      location_moved target (target ++ rest) h (header_get-some _ _ h e)
        (has_prefix-append target rest) in
    rw moved (lookup-insert _ _ _ h ∙ rw (beq_refl (codes "Location")) (ap some trimmed))

-- A redirect of a published page to the target's address, followed by `rest`, becomes a redirect to
-- the target's slashes at its end and `rest`.
pub redirect_local :
    (base rest : Bytes) (b k : ℕ) (u : Upstream) (back : Request → Response) (r : Request)
    → b ≢ b'/'
    → Published r
    → lookup (codes "Location") (back (u.forward (sites_director u r))).header
      ≡ some ((base ++ b ∷ replicate k b'/') ++ rest)
    → lookup
        (codes "Location")
        (sites_handler (base ++ b ∷ replicate k b'/') u back r).answer.header
      ≡ some (replicate k b'/' ++ rest)
unfolding sites_modify bytes_eq
redirect_local base rest b k u back r n p e =
    rw (sites_served (base ++ b ∷ replicate k b'/') u back r p)
      (delete_other _ _ _ refl ∙ location_local base rest b k _ n e)
