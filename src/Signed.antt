-- ===== src/Signed.antt =====
-- The signed text that both kinds of token are made of, base64(payload) "." base64(hmac(payload)):
-- cmd/nc-rendezvous/main.go (authority.sign, authority.mint, authority.validToken) and
-- cmd/nc-host/pairing.go (pairing.sign, pairing.mint, pairing.valid) write the same lines.
-- HMAC-SHA-256 is a parameter: a function of the secret and the message.
use network_computer.Prelude.{
  ℕ, suc, ◌≡◌, refl, ap, Bool, false, ◌∷◌, ◌++◌, Option, none, some, arith, take, drop, take-append,
  drop-append_sep, All, if◌then◌else◌, leb, ◌>>=◌, Option-cases, inl, inr,
}
use network_computer.Prelude.Bytes.{
  Bytes, bytes_eq, bytes_eq_iff, last_index, last_index-append, last_index_split,
}
use network_computer.Prelude.Base64.{IsByte, encode, decode, decode-encode, encode-Lacks_dot}
use network_computer.Prelude.Decimal.{ℤ, pos, negsuc}

module _ (mac : Bytes → Bytes → Bytes) where
  unfoldable pub sign : Bytes → Bytes → Bytes
  sign secret payload = encode (mac secret payload)

  unfoldable pub signed : Bytes → Bytes → Bytes
  signed secret payload = encode payload ++ b'.' ∷ sign secret payload

  -- The payload of a token whose signature is right.
  unfoldable pub verified : Bytes → Bytes → Option Bytes
  verified secret tok = do
    dot ← last_index b'.' tok
    payload ← decode (take dot tok)
    if bytes_eq (sign secret payload) (drop (suc dot) tok) then some payload else none

  pub verified-signed :
      (secret payload : Bytes)
      → All IsByte payload
      → verified secret (signed secret payload) ≡ some payload
  unfolding verified signed sign
  verified-signed secret payload h =
      rw
        (
          last_index-append b'.' (encode payload) (encode (mac secret payload))
              (encode-Lacks_dot (mac secret payload)),
          ◌>>=◌,
          take-append (encode payload) (b'.' ∷ encode (mac secret payload)),
          decode-encode payload h,
        )
        (rw
          (
            drop-append_sep (encode payload) b'.' (encode (mac secret payload)),
            (bytes_eq_iff (encode (mac secret payload)) _).1 refl,
          )
          refl)

  -- A token signed under one secret is verified under another only if the digests agree.
  pub verified-signed_other :
      (secret other payload : Bytes) {q : Bytes}
      → All IsByte payload
      → verified other (signed secret payload) ≡ some q
      → sign other payload ≡ sign secret payload
  unfolding verified signed sign
  verified-signed_other secret other payload h e = compared (
      rw
        (
          last_index-append b'.' (encode payload) (encode (mac secret payload))
              (encode-Lacks_dot (mac secret payload)),
          ◌>>=◌,
          take-append (encode payload) (b'.' ∷ encode (mac secret payload)),
          decode-encode payload h,
          drop-append_sep (encode payload) b'.' (encode (mac secret payload)),
        )
        at e)
    where
      compared :
          {q : Bytes}
          → (if bytes_eq (encode (mac other payload)) (encode (mac secret payload))
              then some payload
              else none)
            ≡ some q
          → encode (mac other payload) ≡ encode (mac secret payload)
      compared e =
          ground (arith, bytes_eq_iff (encode (mac other payload)) (encode (mac secret payload)))

  -- A verified token is a text that decodes to the payload, a dot and the payload's signature.
  pub verified_sound :
      (secret tok : Bytes) {payload : Bytes}
      → verified secret tok ≡ some payload
      → (head : Bytes) × (decode head ≡ some payload) × (tok ≡ head ++ b'.' ∷ sign secret payload)
  unfolding verified
  verified_sound secret tok {payload} h = elim (Option-cases (last_index b'.' tok)) [
    | inl e ↦ absurd (cc (rw e at h))
    | inr (dot, e) ↦ (
      take dot tok,
      ground (arith),
      ground (
        arith,
        last_index_split b'.' tok e,
        bytes_eq_iff (sign secret payload) (drop (suc dot) tok),
      ),
    )
  ]

  pub encode-injective : (s t : Bytes) → All IsByte s → All IsByte t → encode s ≡ encode t → s ≡ t
  encode-injective s t hs ht e = cc (decode-encode s hs, decode-encode t ht, ap decode e)

-- `err == nil && time.Now().Unix() <= exp`
unfoldable pub not_expired : ℕ → Option ℤ → Bool
not_expired now none = false
not_expired now (some (pos exp)) = leb now exp
not_expired now (some (negsuc n)) = false
