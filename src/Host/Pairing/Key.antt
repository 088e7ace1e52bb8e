-- ===== src/Host/Pairing/Key.antt =====
-- cmd/nc-host/pairing.go, loadPairing: the file pair.key with the host's secret, over restarts.
use network_computer.Prelude.{
  ℕ, ◌+◌, ◌/◌, ◌^◌, ◌<◌, ◌≡◌, refl, sym, ap, subst, Bool, true, false, not, [], ◌∷◌, ◌++◌, Option,
  none, some, arith, length, All, leb, if◌then◌else◌,
}
use network_computer.Prelude.Base64.{IsByte}
use network_computer.Prelude.Bytes.{Bytes, Lacks}
use network_computer.Prelude.Hex.{encode, decode, decode-encode, encode_hex, is_hex}
use network_computer.Prelude.Trim.{is_space, trim_space, trim_space_line}
use network_computer.Host.Pairing.{Pairing, mint, valid, pairing_lifetime, second, pair_ttl}

-- What a start finds and can do.
pub record Start : Type 0 where
  pub reset : Bool
  pub random : Option Bytes  -- 32 bytes of crypto/rand, or an error
  pub mkdir : Bool  -- os.MkdirAll succeeds
  pub write : Bool  -- os.WriteFile succeeds
  pub left : Option Bytes  -- what is in the file's place when it does not

-- The secret in the file, if there is one of at least 32 bytes.
unfoldable pub long_enough : Option Bytes → Option Bytes
long_enough none = none
long_enough (some sec) = if leb 32 (length sec) then some sec else none

unfoldable pub read_secret : Option Bytes → Option Bytes
unfolding long_enough
read_secret none = none
read_secret (some b) = long_enough (decode (trim_space b))

-- What a new secret makes of the file, and the pairing.
unfoldable pub write_secret :
    Start → Bytes → Option Bytes → Option Bytes → Option Bytes × Option Pairing
write_secret start host file none = (file, none)
write_secret start host file (some sec) =
    if not start.mkdir
    then (file, none)
    else if start.write
    then (some (encode sec ++ 10 ∷ []), some (record { host = host; secret = sec }))
    else (start.left, none)

unfoldable pub use_secret :
    Start → Bytes → Option Bytes → Option Bytes → Option Bytes × Option Pairing
unfolding write_secret
use_secret start host file (some sec) = (file, some (record { host = host; secret = sec }))
use_secret start host file none = write_secret start host file start.random

-- loadPairing: the file afterwards, and the pairing or an error.
unfoldable pub load_pairing : Start → Bytes → Option Bytes → Option Bytes × Option Pairing
unfolding read_secret use_secret
load_pairing start host file =
    use_secret start host file (if start.reset then none else read_secret file)

-- The random bytes are 32.
abbrev pub Draws : Start → Type 0
Draws start = (sec : Bytes) → start.random ≡ some sec → (length sec ≡ 32) × All IsByte sec

no_space : (s : Bytes) → All (λ c. is_hex c ≡ true) s → All (λ c. is_space c ≡ false) s
no_space [] h = tt
no_space (c ∷ s) (h, hs) = (ground arith, no_space s hs)

-- What is written is read.
read_written :
    (sec : Bytes)
    → length sec ≡ 32
    → All IsByte sec
    → read_secret (some (encode sec ++ 10 ∷ [])) ≡ some sec
unfolding read_secret long_enough
read_written sec n h =
    let line = trim_space_line (encode sec) (no_space (encode sec) (encode_hex sec h)) in
    rw (line, decode-encode sec h, n) refl

module _ (start : Start) (host : Bytes) (file file' : Option Bytes) (p : Pairing) where
  outcome : Bytes → Bool → Bool → Option Bytes × Option Pairing
  outcome sec m w =
      if not m
      then (file, none)
      else if w
      then (some (encode sec ++ 10 ∷ []), some (record { host = host; secret = sec }))
      else (start.left, none)

  wrote :
      (sec : Bytes) (m w : Bool)
      → outcome sec m w ≡ (file', some p)
      → (file' ≡ some (encode sec ++ 10 ∷ [])) × (p.secret ≡ sec)
  unfolding outcome
  wrote sec true true e = (sym (ap (λ x. x.0) e), ground arith)
  wrote sec true false e = cc
  wrote sec false w e = cc

  fresh_in_file :
      (o : Option Bytes)
      → ((sec : Bytes) → o ≡ some sec → (length sec ≡ 32) × All IsByte sec)
      → write_secret start host file o ≡ (file', some p)
      → read_secret file' ≡ some p.secret
  unfolding write_secret outcome
  fresh_in_file none draws h = cc
  fresh_in_file (some sec) draws h =
      let (n, bytes) = draws sec refl in
      let (written, kept) = wrote sec start.mkdir start.write h in
      rw (written, kept) (read_written sec n bytes)

  used_in_file :
      (o : Option Bytes)
      → Draws start
      → ((sec : Bytes) → o ≡ some sec → read_secret file ≡ some sec)
      → use_secret start host file o ≡ (file', some p)
      → read_secret file' ≡ some p.secret
  unfolding use_secret
  used_in_file none draws found h = fresh_in_file start.random draws h
  used_in_file (some sec) draws found h =
      let same : file ≡ file' = ap (λ x. x.0) h in
      let kept : sec ≡ p.secret = ground arith in
      subst (λ f. read_secret f ≡ some p.secret) same
        (subst (λ x. read_secret file ≡ some x) kept (found sec refl))

when_kept :
    (b : Bool) (o : Option Bytes) (sec : Bytes) → (if b then none else o) ≡ some sec → o ≡ some sec
when_kept true o sec h = cc
when_kept false o sec h = h

-- A pairing that a start has got is the one of the file that it leaves.
kept_in_file :
    (start : Start) (host : Bytes) (file file' : Option Bytes) (p : Pairing)
    → Draws start
    → load_pairing start host file ≡ (file', some p)
    → read_secret file' ≡ some p.secret
unfolding load_pairing
kept_in_file start host file file' p draws h =
    used_in_file start host file file' p _ draws (when_kept start.reset (read_secret file)) h

-- A start that does not reset finds the pairing of the start before, under whatever name, and leaves
-- the file as it is.
pub pairing_kept :
    (start later : Start) (host name : Bytes) (file file' : Option Bytes) (p : Pairing)
    → Draws start
    → load_pairing start host file ≡ (file', some p)
    → later.reset ≡ false
    → load_pairing later name file' ≡ (file', some (record { host = name; secret = p.secret }))
unfolding load_pairing use_secret
pairing_kept start later host name file file' p draws h r =
    rw (r, kept_in_file start host file file' p draws h) refl

-- After a start that got a pairing, one that does not reset gets the same from the file, which it
-- leaves as it is; so it accepts the tokens that were minted before, exactly until their second of
-- expiry, if the host's name is of bytes and has no bar in it.
pub paired_over_restarts :
    (mac : Bytes → Bytes → Bytes) (start later : Start) (host : Bytes) (file file' : Option Bytes)
    (p : Pairing) (at now : ℕ)
    → Draws start
    → load_pairing start host file ≡ (file', some p)
    → later.reset ≡ false
    → All IsByte p.host
    → Lacks b'|' p.host
    → (at + pair_ttl) / second < 2 ^ 63
    → (load_pairing later p.host file' ≡ (file', some p))
      × (valid mac p now (mint mac p at) ≡ leb (now / second) ((at + pair_ttl) / second))
paired_over_restarts mac start later host file file' p at now draws h r bytes bar lt = (
  pairing_kept start later host p.host file file' p draws h r,
  pairing_lifetime mac p at now bytes bar lt,
)
