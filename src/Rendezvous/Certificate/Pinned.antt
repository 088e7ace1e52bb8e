-- ===== src/Rendezvous/Certificate/Pinned.antt =====
-- The server's certificate and a client that is pinned to the fingerprint that the server logs.
use network_computer.Prelude.{
  ◌≡◌, ◌≢◌, ◌↔◌, refl, sym, ap, ◌∙◌, true, Bool, List, [], ◌∷◌, some, All, arith,
}
use network_computer.Prelude.Base64.{IsByte}
use network_computer.Prelude.Bytes.{Bytes, bytes_eq_iff}
use network_computer.Prelude.Hex.{encode, encode_inj}
use network_computer.Rendezvous.Certificate.{
  Files, Crypto, load_pair, fingerprint, self_signed_cert,
}
use network_computer.Rendezvous.Certificate.Stable.{gave}
use network_computer.Tlspin.{client, accepts, verify_connection}
use network_computer.Tlspin.Pin.{Written, client-Written}

fingerprint_of :
    (lib : Crypto) (d : Files) (der fp : Bytes)
    → load_pair lib d.cert d.key ≡ some der
    → fingerprint lib d ≡ some fp
    → fp ≡ encode (lib.sha256 der)
unfolding fingerprint
fingerprint_of lib d der fp l f = ground arith

encode_some : (s : Bytes) → s ≢ [] → encode s ≢ []
unfolding encode
encode_some [] n = absurd (n refl)
encode_some (b ∷ s) n = λ e. cc

-- A client that is given the fingerprint of the server's certificate, with digits of either case,
-- with colons and spaces, and behind "sha256" or not, accepts a peer exactly if the hash of the first
-- certificate that the peer shows is that of the server's, whatever the system's roots say.
pub pinned_exactly :
    (lib : Crypto) (names : List Bytes) (d d' : Files) (fp form der raw : Bytes)
    (certs : List Bytes) (roots : List Bytes → Bool)
    → ((t : Bytes) → All IsByte (lib.sha256 t) × (lib.sha256 t ≢ []))
    → self_signed_cert lib names d ≡ (d', some fp)
    → load_pair lib d'.cert d'.key ≡ some der
    → Written fp form
    → (accepts lib.sha256 roots (client form) (raw ∷ certs) ≡ true)
      ↔ (lib.sha256 raw ≡ lib.sha256 der)
unfolding accepts verify_connection
pinned_exactly lib names d d' fp form der raw certs roots hash served loaded h =
    let e = fingerprint_of lib d' der fp loaded (gave lib names d d' fp served) in
    let n : fp ≢ [] = rw e (encode_some (lib.sha256 der) (hash der).1) in
    let digits = encode_inj (lib.sha256 raw) (lib.sha256 der) (hash raw).0 (hash der).0 in
    rw (client-Written fp form n h)
      (λ k. digits ((bytes_eq_iff _ _).0 k ∙ e), λ k. (bytes_eq_iff _ _).1 (ap encode k ∙ sym e))
