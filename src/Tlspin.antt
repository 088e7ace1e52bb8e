-- ===== src/Tlspin.antt =====
-- internal/tlspin/tlspin.go: HTTP clients that trust one certificate. Texts are ASCII, where
-- package strings and package unicode do what is written here; SHA-256 is an argument.
pub mod Pin
use network_computer.Prelude.{
  ℕ, ◌+◌, Bool, true, false, ◌&&◌, ◌||◌, not, List, [], ◌∷◌, Option, none, some, is_nil, leb, ◌==◌,
  if◌then◌else◌,
}
use network_computer.Prelude.Bytes.{Bytes, bytes_eq, codes, trim_prefix}
use network_computer.Prelude.Hex.{encode}
use network_computer.Prelude.Trim.{trim_left, trim_space}

-- `strings.ToLower`
unfoldable pub lower_byte : ℕ → ℕ
lower_byte c = if leb b'A' c && leb c b'Z' then c + 32 else c

unfoldable pub to_lower : Bytes → Bytes
unfolding lower_byte
to_lower [] = []
to_lower (c ∷ s) = lower_byte c ∷ to_lower s

-- The cutset of TrimLeft
abbrev pub is_mark : ℕ → Bool
is_mark c = c == b':' || c == b'/' || c == b'=' || c == 32

-- The Replacer, which deletes colons and spaces.
unfoldable pub unmarked : Bytes → Bytes
unmarked [] = []
unmarked (c ∷ s) = let rest = unmarked s in if c == b':' || c == 32 then rest else c ∷ rest

unfoldable pub normalize : Bytes → Bytes
unfolding to_lower trim_space trim_left unmarked trim_prefix
normalize fp =
    unmarked (trim_left is_mark (trim_prefix (to_lower (trim_space fp)) (codes "sha256")))

-- The client of Client: http.DefaultClient, or one pinned to the fingerprint.
pub data Client : Type 0 where
  default : Client
  pinned : Bytes → Client

unfoldable pub client : Bytes → Client
unfolding normalize
client fp = let fp' = normalize fp in if is_nil fp' then default else pinned fp'

-- VerifyConnection, of the peer's certificates: whether the connection is accepted.
unfoldable pub verify_connection : (Bytes → Bytes) → Bytes → List Bytes → Bool
verify_connection sha256 fp [] = false
verify_connection sha256 fp (raw ∷ certs) = bytes_eq (encode (sha256 raw)) fp

-- Whether a client accepts a peer; what the system's roots accept is an argument.
unfoldable pub accepts : (Bytes → Bytes) → (List Bytes → Bool) → Client → List Bytes → Bool
unfolding verify_connection
accepts sha256 roots default certs = roots certs
accepts sha256 roots (pinned fp) certs = verify_connection sha256 fp certs
