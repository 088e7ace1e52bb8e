-- ===== src/Tests/Certificate.antt =====
-- The server's certificate and the clients pinned to it, at concrete inputs.
use network_computer.Prelude.{◌≡◌, ◌↔◌, refl, true, false, [], ◌∷◌, none, some, arith, inr}
use network_computer.Prelude.Bytes.{Bytes, bytes_key, bytes_eq, codes}
use network_computer.Prelude.Hex.{encode}
use network_computer.Rendezvous.Certificate
use network_computer.Rendezvous.Certificate.{Crypto, Files, self_signed_cert, load_pair}
use network_computer.Rendezvous.Certificate.Pinned.{pinned_exactly}
use network_computer.Rendezvous.Certificate.Stable.{fingerprint_stable, half_written}
use network_computer.Tlspin.{client, accepts, to_lower, unmarked}

abbrev crypto : Crypto
crypto = record {
  parse_ip = λ n. none;
  create = λ names. some (codes "CERT", codes "KEY");
  load = λ cert key. some (codes "DER");
  sha256 = λ t. 171 ∷ [];
  mkdir = true;
  write_cert = Certificate.done;
  write_key = Certificate.done;
}

abbrev no_files : Files
no_files = record { cert = none; key = none }

abbrev made_files : Files
made_files = record { cert = some (codes "CERT"); key = some (codes "KEY") }

fingerprint_stable_example :
    self_signed_cert crypto (codes "desk" ∷ []) made_files ≡ (made_files, some (codes "ab"))
unfolding self_signed_cert encode bytes_eq
fingerprint_stable_example =
    fingerprint_stable crypto crypto [] (codes "desk" ∷ []) no_files made_files (codes "ab")
      (refl, refl) refl

half_written_example :
    let lib = record crypto { write_key = Certificate.failed none } in
    let half = record made_files { key = none } in
    (self_signed_cert lib [] no_files ≡ (half, none))
    × (self_signed_cert crypto [] half ≡ (half, none))
unfolding Certificate.add_names load_pair
half_written_example =
    half_written (record crypto { write_key = Certificate.failed none }) crypto [] [] none none
      (codes "CERT") (codes "KEY") refl refl refl refl refl

pinned_exactly_example :
    (accepts crypto.sha256 (λ certs. false) (client (codes "sha256: AB")) (codes "DER" ∷ []) ≡ true)
    ↔ (◌≡◌ {A = Bytes} (171 ∷ []) (171 ∷ []))
unfolding self_signed_cert encode load_pair to_lower unmarked
pinned_exactly_example =
    pinned_exactly crypto [] no_files made_files (codes "ab") (codes "sha256: AB") (codes "DER")
      (codes "DER") [] (λ certs. false) (λ t. ((omega arith, tt), λ e. cc)) refl refl
      (
        codes "AB",
        inr (97, 98 ∷ [], refl, refl, refl, inr (98, [], refl, refl, refl, refl)),
        inr (codes ": ", (refl, (refl, tt)), refl),
      )
