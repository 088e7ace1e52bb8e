-- ===== src/Rendezvous/Certificate.antt =====
-- cmd/nc-rendezvous/tls.go: the self-signed certificate. What crypto, x509 and the file system do is
-- the record Crypto; the two files of the directory are the record Files.
pub mod Stable
pub mod Pinned
use network_computer.Prelude.{
  ℕ, Bool, true, false, ◌||◌, List, [], ◌∷◌, ◌++◌, Option, none, some, ◌≡◌, refl, arith, is_nil,
  if◌then◌else◌,
}
use network_computer.Prelude.Bytes.{Bytes, bytes_eq}
use network_computer.Prelude.Hex.{encode}

pub record Files : Type 0 where
  pub cert : Option Bytes
  pub key : Option Bytes

-- The names of the template, in order.
pub record Names : Type 0 where
  pub ip_addresses : List Bytes
  pub dns_names : List Bytes

-- os.WriteFile: done, or failed with what is in the file's place then.
pub data Write : Type 0 where
  done : Write
  failed : Option Bytes → Write

pub record Crypto : Type 0 where
  pub parse_ip : Bytes → Option Bytes  -- net.ParseIP
  pub create : Names → Option (Bytes × Bytes)  -- a certificate and its key as PEM, or an error
  pub load : Bytes → Bytes → Option Bytes  -- tls.LoadX509KeyPair: the first certificate's DER
  pub sha256 : Bytes → Bytes
  pub mkdir : Bool  -- os.MkdirAll succeeds
  pub write_cert : Write
  pub write_key : Write

unfoldable pub seen : Bytes → List Bytes → Bool
seen n [] = false
seen n (m ∷ names) = bytes_eq m n || seen n names

unfoldable pub written : Write → Bytes → Option Bytes
written done content = some content
written (failed left) content = left

unfoldable pub is_done : Write → Bool
is_done done = true
is_done (failed left) = false

module _ (lib : Crypto) where
  -- A name that is neither empty nor a repetition, as an address or a DNS name.
  unfoldable pub add_name : Bytes → Names → Names
  add_name n t = elim (lib.parse_ip n) [
    | some ip ↦ record t { ip_addresses = t.ip_addresses ++ ip ∷ [] }
    | none ↦ record t { dns_names = t.dns_names ++ n ∷ [] }
  ]

  unfoldable pub add_names : List Bytes → List Bytes → Names → Names
  unfolding seen add_name
  add_names before [] t = t
  add_names before (n ∷ names) t =
      if is_nil n || seen n before
      then add_names before names t
      else add_names (n ∷ before) names (add_name n t)

  -- The files after writeSelfSigned, and whether it succeeded.
  unfoldable pub write_self_signed : List Bytes → Files → Files × Bool
  unfolding add_names written is_done
  write_self_signed names d =
      elim (lib.create (add_names [] names (record { ip_addresses = []; dns_names = [] }))) [
        | none ↦ (d, false)
        | some (cert, key) ↦
            let d1 = record d { cert = written lib.write_cert cert } in
            if is_done lib.write_cert
            then (record d1 { key = written lib.write_key key }, is_done lib.write_key)
            else (d1, false)
      ]

  -- tls.LoadX509KeyPair on the two files.
  unfoldable pub load_pair : Option Bytes → Option Bytes → Option Bytes
  load_pair (some cert) (some key) = lib.load cert key
  load_pair (some cert) none = none
  load_pair none key = none

  -- The fingerprint of the files' certificate.
  unfoldable pub fingerprint : Files → Option Bytes
  unfolding load_pair
  fingerprint d = elim (load_pair d.cert d.key) [
    | none ↦ none
    | some der ↦ some (encode (lib.sha256 der))
  ]

  -- What is made when cert.pem is missing.
  unfoldable pub first_run : List Bytes → Files → Files × Bool
  unfolding write_self_signed
  first_run names d = if lib.mkdir then write_self_signed names d else (d, false)

  unfoldable pub have_cert : List Bytes → Files → Option Bytes → Files × Bool
  unfolding first_run
  have_cert names d none = first_run names d
  have_cert names d (some cert) = (d, true)

  -- The files after selfSignedCert, and the fingerprint or an error.
  unfoldable pub self_signed_cert : List Bytes → Files → Files × Option Bytes
  unfolding fingerprint have_cert
  self_signed_cert names d =
      let (d', ok) = have_cert names d d.cert in (d', if ok then fingerprint d' else none)
