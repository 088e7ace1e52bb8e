-- ===== src/Rendezvous/Token.antt =====
-- cmd/nc-rendezvous/main.go: the Bearer tokens of authority.mint and authority.validToken. Times
-- are nanoseconds since the epoch, as ℕ; Unix() drops to seconds.
use network_computer.Prelude.{
  ℕ, suc, ◌+◌, ◌*◌, ◌/◌, ◌^◌, ◌<◌, ◌≡◌, refl, Bool, true, false, ◌∷◌, ◌++◌, none, some, arith, drop,
  drop-append_sep, All, All-append, leb, Option-cases, inl, inr,
}
use network_computer.Prelude.Base64.{IsByte, decode}
use network_computer.Prelude.Bytes.{Bytes, last_index, last_index-append}
use network_computer.Prelude.Decimal.{
  format_int, format_int-Lacks, format_int-bytes, parse_int, parse_int-format_int,
}
use network_computer.Signed.{sign, signed, verified, verified-signed, verified_sound, not_expired}

abbrev pub second : ℕ
second = 1000000000

-- 12 * time.Hour
abbrev pub token_ttl : ℕ
token_ttl = 43200 * second

unfoldable pub payload_at : Bytes → ℕ → Bytes
payload_at user now = user ++ b'|' ∷ format_int ((now + token_ttl) / second)

-- `string(payload)[i+1:]` behind the last bar, read as the last second of validity.
unfoldable pub payload_valid : ℕ → Bytes → Bool
payload_valid now payload = elim (last_index b'|' payload) [
  | none ↦ false
  | some i ↦ not_expired (now / second) (parse_int (drop (suc i) payload))
]

module _ (mac : Bytes → Bytes → Bytes) where
  unfoldable pub mint : Bytes → Bytes → ℕ → Bytes
  mint secret user now = signed mac secret (payload_at user now)

  unfoldable pub valid_token : Bytes → ℕ → Bytes → Bool
  valid_token secret now tok = elim (verified mac secret tok) [
    | none ↦ false
    | some payload ↦ payload_valid now payload
  ]

payload_at-bytes : (user : Bytes) (now : ℕ) → All IsByte user → All IsByte (payload_at user now)
unfolding payload_at
payload_at-bytes user now h =
    All-append IsByte user _ h (omega arith, format_int-bytes ((now + token_ttl) / second))

payload_at-valid :
    (user : Bytes) (at now : ℕ)
    → (at + token_ttl) / second < 2 ^ 63
    → payload_valid now (payload_at user at) ≡ leb (now / second) ((at + token_ttl) / second)
unfolding payload_at payload_valid not_expired
payload_at-valid user at now h =
    rw
      (
        last_index-append b'|' user (format_int exp) (format_int-Lacks b'|' exp (omega arith)),
        drop-append_sep user b'|' (format_int exp),
        parse_int-format_int exp h,
        payload_valid,
      )
      refl
  where
    exp : ℕ
    exp = (at + token_ttl) / second

module _ (mac : Bytes → Bytes → Bytes) where
  -- A minted token is valid exactly until its second of expiry, 12 hours after it was minted,
  -- whatever the user name holds, for a name of bytes and a time in the range of int64 seconds.
  pub token_lifetime :
      (secret user : Bytes) (at now : ℕ)
      → All IsByte user
      → (at + token_ttl) / second < 2 ^ 63
      → valid_token mac secret now (mint mac secret user at)
        ≡ leb (now / second) ((at + token_ttl) / second)
  unfolding valid_token mint
  token_lifetime secret user at now h lt =
      rw (verified-signed mac secret (payload_at user at) (payload_at-bytes user at h), valid_token)
        (payload_at-valid user at now lt)

  -- Only a text that ends in the signature, under the secret, of the payload in front of its dot
  -- is a valid token, and the payload's number has not passed.
  pub valid_token_sound :
      (secret tok : Bytes) (now : ℕ)
      → valid_token mac secret now tok ≡ true
      → (head payload : Bytes) × (decode head ≡ some payload)
        × (tok ≡ head ++ b'.' ∷ sign mac secret payload)
        × (payload_valid now payload ≡ true)
  unfolding valid_token
  valid_token_sound secret tok now h = elim (Option-cases (verified mac secret tok)) [
    | inl e ↦ absurd (cc)
    | inr (payload, e) ↦
        let (head, d, t) = verified_sound mac secret tok e in (head, payload, d, t, ground arith)
  ]
