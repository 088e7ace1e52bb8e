-- ===== src/Host/Pairing.antt =====
-- cmd/nc-host/pairing.go: the pairing tokens that stand in for the PIN.
pub mod Key
use network_computer.Prelude.{
  ℕ, ◌+◌, ◌*◌, ◌/◌, ◌^◌, ◌<◌, ◌≡◌, refl, Bool, true, false, ◌&&◌, List, [], ◌∷◌, ◌++◌, none, some,
  arith, length, All, All-append, leb, Option-cases, inl, inr,
}
use mathlib.Core.Bool.{false≢true}
use network_computer.Prelude.Base64.{IsByte}
use network_computer.Prelude.Bytes.{
  Bytes, Lacks, bytes_eq, bytes_eq_iff, codes, split, split_at-append, split-Lacks, count,
  count-append, length-split,
}
use network_computer.Prelude.Decimal.{
  format_int, format_int-Lacks, format_int-bytes, parse_int, parse_int-format_int,
}
use network_computer.Signed.{
  sign, signed, verified, verified-signed, verified-signed_other, encode-injective, not_expired,
}

pub record Pairing : Type 0 where
  pub host : Bytes
  pub secret : Bytes

abbrev second : ℕ
second = 1000000000

-- 90 * 24 * time.Hour
abbrev pub pair_ttl : ℕ
pair_ttl = 7776000 * second

abbrev pub pair_word : Bytes
pair_word = codes "pair"

unfoldable pub pair_payload : Pairing → ℕ → Bytes
pair_payload p now = pair_word ++ b'|' ∷ (p.host ++ b'|' ∷ format_int ((now + pair_ttl) / second))

-- The tests on the fields of the payload.
unfoldable pub fields_valid : Bytes → ℕ → List Bytes → Bool
fields_valid host now (word ∷ name ∷ exp ∷ []) =
    bytes_eq word pair_word && (bytes_eq name host && not_expired (now / second) (parse_int exp))
fields_valid host now _ = false

module _ (mac : Bytes → Bytes → Bytes) where
  unfoldable pub mint : Pairing → ℕ → Bytes
  mint p now = signed mac p.secret (pair_payload p now)

  unfoldable pub valid : Pairing → ℕ → Bytes → Bool
  valid p now tok = elim (verified mac p.secret tok) [
    | none ↦ false
    | some payload ↦ fields_valid p.host now (split b'|' payload)
  ]

pair_payload-bytes : (p : Pairing) (now : ℕ) → All IsByte p.host → All IsByte (pair_payload p now)
unfolding pair_payload
pair_payload-bytes p now h =
    let exp = format_int ((now + pair_ttl) / second) in
    All-append IsByte pair_word (b'|' ∷ (p.host ++ b'|' ∷ exp)) (omega arith) (
      omega arith,
      All-append IsByte p.host (b'|' ∷ exp) h
          (omega arith, format_int-bytes ((now + pair_ttl) / second)),
    )

pair_payload_bars :
    (p : Pairing) (now : ℕ) → 0 < count b'|' p.host → 2 < count b'|' (pair_payload p now)
unfolding pair_payload count
pair_payload_bars p now h =
    omega (arith, count-append b'|' p.host (b'|' ∷ format_int ((now + pair_ttl) / second)))

three_fields :
    (word host exp : Bytes)
    → Lacks b'|' word
    → Lacks b'|' host
    → Lacks b'|' exp
    → split b'|' (word ++ b'|' ∷ (host ++ b'|' ∷ exp)) ≡ word ∷ host ∷ exp ∷ []
unfolding split
three_fields word host exp w h e = rw (split_at-append b'|' word (host ++ b'|' ∷ exp) w) (
    unfold split in
    rw (split_at-append b'|' host exp h) (unfold split in rw (split-Lacks b'|' exp e)))

-- A payload with more than two bars is never valid.
fields_valid_long :
    (host : Bytes) (now : ℕ) (fs : List Bytes) → 3 < length fs → fields_valid host now fs ≡ false
unfolding fields_valid
fields_valid_long host now [] h = refl
fields_valid_long host now (a ∷ []) h = refl
fields_valid_long host now (a ∷ b ∷ []) h = refl
fields_valid_long host now (a ∷ b ∷ c ∷ []) h = absurd (omega arith)
fields_valid_long host now (a ∷ b ∷ c ∷ d ∷ fs) h = refl

module _ (mac : Bytes → Bytes → Bytes) where
  -- A pairing token is accepted by the host that minted it exactly until its second of expiry, 90
  -- days after, if the host's name is of bytes and has no bar in it.
  pub pairing_lifetime :
      (p : Pairing) (at now : ℕ)
      → All IsByte p.host
      → Lacks b'|' p.host
      → (at + pair_ttl) / second < 2 ^ 63
      → valid mac p now (mint mac p at) ≡ leb (now / second) ((at + pair_ttl) / second)
  unfolding valid mint pair_payload fields_valid not_expired
  pairing_lifetime p at now h bar lt =
      rw (verified-signed mac p.secret (pair_payload p at) (pair_payload-bytes p at h), valid)
        (rw
          (three_fields pair_word p.host (format_int exp) (omega arith) bar
            (format_int-Lacks b'|' exp (omega arith)))
          (rw
            (
              (bytes_eq_iff pair_word pair_word).1 refl,
              (bytes_eq_iff p.host p.host).1 refl,
              parse_int-format_int exp lt,
            )
            refl))
    where
      exp : ℕ
      exp = (at + pair_ttl) / second

  -- A host with a bar in its name accepts none of the tokens that it mints, at any time.
  pub pairing_barred :
      (p : Pairing) (at now : ℕ)
      → All IsByte p.host
      → 0 < count b'|' p.host
      → valid mac p now (mint mac p at) ≡ false
  unfolding valid mint
  pairing_barred p at now h bar =
      rw (verified-signed mac p.secret (pair_payload p at) (pair_payload-bytes p at h), valid)
        (fields_valid_long p.host now (split b'|' (pair_payload p at))
          (omega (arith, length-split b'|' (pair_payload p at), pair_payload_bars p at bar)))

  -- Rotating the secret revokes: a token minted under one secret and accepted under another has
  -- the same digest under both, for a digest and a host name of bytes.
  pub pairing_revoked :
      (p q : Pairing) (at now : ℕ)
      → ((secret text : Bytes) → All IsByte (mac secret text))
      → All IsByte p.host
      → valid mac q now (mint mac p at) ≡ true
      → mac q.secret (pair_payload p at) ≡ mac p.secret (pair_payload p at)
  unfolding valid mint sign
  pairing_revoked p q at now bytes h ok =
      elim (Option-cases (verified mac q.secret (signed mac p.secret (pair_payload p at)))) [
        | inl e ↦ absurd (false≢true (rw (e, valid) at ok))
        | inr (payload, e) ↦
            encode-injective mac _ _ (bytes q.secret (pair_payload p at))
              (bytes p.secret (pair_payload p at))
              (verified-signed_other mac p.secret q.secret (pair_payload p at)
                (pair_payload-bytes p at h) e)
      ]
