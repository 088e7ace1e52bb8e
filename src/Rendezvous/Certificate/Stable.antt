-- ===== src/Rendezvous/Certificate/Stable.antt =====
-- Whether the certificate, and the fingerprint that clients pin, last from one start to the next.
use network_computer.Prelude.{
  Bool, true, false, ◌≡◌, refl, List, Option, none, some, arith, [], sym, ap, ◌∙◌, if◌then◌else◌,
}
use network_computer.Prelude.Bytes.{Bytes}
use network_computer.Prelude.Hex.{encode}
use network_computer.Rendezvous.Certificate.{
  Files, Crypto, done, failed, written, is_done, add_names, write_self_signed, load_pair,
  fingerprint, first_run, have_cert, self_signed_cert,
}

-- Two libraries that read certificates alike.
abbrev pub ReadsAs : Crypto → Crypto → Type 0
ReadsAs a b = (a.load ≡ b.load) × (a.sha256 ≡ b.sha256)

cert_there :
    (lib : Crypto) (cert key : Option Bytes) (fp : Bytes)
    → fingerprint lib (record { cert = cert; key = key }) ≡ some fp
    → (c : Bytes) × (cert ≡ some c)
unfolding fingerprint load_pair
cert_there lib none key fp h = cc
cert_there lib (some c) key fp h = (c, refl)

loaded :
    (lib later : Crypto) (c k : Option Bytes)
    → later.load ≡ lib.load
    → load_pair later c k ≡ load_pair lib c k
unfolding load_pair
loaded lib later none k l = refl
loaded lib later (some c) none l = refl
loaded lib later (some c) (some k) l = ap (λ f. f c k) l

same_fingerprint :
    (lib later : Crypto) (d : Files) → ReadsAs later lib → fingerprint later d ≡ fingerprint lib d
unfolding fingerprint
same_fingerprint lib later d (l, s) =
    rw (fingerprint, loaded lib later d.cert d.key l)
      (ap
        (λ f. elim (load_pair lib d.cert d.key) [ none ↦ none | some der ↦ some (encode (f der)) ])
        s)

-- With cert.pem there, a start only reads.
restart :
    (lib : Crypto) (names : List Bytes) (d : Files) (c : Bytes)
    → d.cert ≡ some c
    → self_signed_cert lib names d ≡ (d, fingerprint lib d)
unfolding self_signed_cert have_cert
restart lib names d c e = rw e

when_ok :
    (ok : Bool) (o : Option Bytes) (fp : Bytes) → (if ok then o else none) ≡ some fp → o ≡ some fp
when_ok true o fp h = h
when_ok false o fp h = cc

pub gave :
    (lib : Crypto) (names : List Bytes) (d d' : Files) (fp : Bytes)
    → self_signed_cert lib names d ≡ (d', some fp)
    → fingerprint lib d' ≡ some fp
unfolding self_signed_cert
gave lib names d d' fp h =
    let e : (have_cert lib names d d.cert).0 ≡ d' = ap (λ x. x.0) h in
    rw (sym e) (when_ok _ _ fp (ap (λ x. x.1) h))

-- Once a start has had a fingerprint, every later one has it too, whatever names it is given, and
-- changes no file.
pub fingerprint_stable :
    (lib later : Crypto) (names others : List Bytes) (d d' : Files) (fp : Bytes)
    → ReadsAs later lib
    → self_signed_cert lib names d ≡ (d', some fp)
    → self_signed_cert later others d' ≡ (d', some fp)
fingerprint_stable lib later names others d d' fp same h =
    let f = gave lib names d d' fp h in
    let (c, e) = cert_there lib d'.cert d'.key fp f in
    restart later others d' c e ∙ ap (λ x. (d', x)) (same_fingerprint lib later d' same ∙ f)

abbrev half : Bytes → Option Bytes → Files
half cert left = record { cert = some cert; key = left }

half_made :
    (lib : Crypto) (names : List Bytes) (k left : Option Bytes) (cert key : Bytes)
    → lib.create (add_names lib [] names (record { ip_addresses = []; dns_names = [] }))
      ≡ some (cert, key)
    → lib.write_cert ≡ done
    → lib.write_key ≡ failed left
    → write_self_signed lib names (record { cert = none; key = k }) ≡ (half cert left, false)
unfolding write_self_signed written is_done
half_made lib names k left cert key c wc wk = ground arith

no_fingerprint :
    (lib : Crypto) (cert : Bytes) (left : Option Bytes)
    → load_pair lib (some cert) left ≡ none
    → fingerprint lib (half cert left) ≡ none
unfolding fingerprint
no_fingerprint lib cert left h = rw h

-- When a start writes the certificate but fails to write its key, and what it leaves of the key cannot
-- be loaded, it fails, and so does every later start, whatever could be made and written then, and
-- the files stay so.
pub half_written :
    (lib later : Crypto) (names others : List Bytes) (k left : Option Bytes) (cert key : Bytes)
    → lib.mkdir ≡ true
    → lib.create (add_names lib [] names (record { ip_addresses = []; dns_names = [] }))
      ≡ some (cert, key)
    → lib.write_cert ≡ done
    → lib.write_key ≡ failed left
    → load_pair later (some cert) left ≡ none
    → (self_signed_cert lib names (record { cert = none; key = k }) ≡ (half cert left, none))
      × (self_signed_cert later others (half cert left) ≡ (half cert left, none))
unfolding self_signed_cert have_cert first_run
half_written lib later names others k left cert key m c wc wk unread = (
  ground (arith, half_made lib names k left cert key c wc wk),
  restart later others (half cert left) cert refl
      ∙ ap (λ x. (half cert left, x)) (no_fingerprint later cert left unread),
)
