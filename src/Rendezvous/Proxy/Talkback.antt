-- ===== src/Rendezvous/Proxy/Talkback.antt =====
-- cmd/nc-rendezvous/talkback.go
use network_computer.Prelude.{Option, none, some, ◌||◌, [], not, if◌then◌else◌}
use network_computer.Prelude.Assoc.{delete}
use network_computer.Prelude.Bytes.{Bytes, bytes_key, codes, trim_prefix}
use network_computer.Prelude.Regexp.{Regexp, seq, alt, class, text, plus, range, match_string}
use network_computer.Http.Status.{not_found, method_not_allowed}
use network_computer.Rendezvous.Proxy.{
  Request, Response, Upstream, Served, refused, is_reading, serve_http,
}

abbrev pub digit : Regexp
digit = class (range b'0' b'9')

abbrev pub hex_digit : Regexp
hex_digit = class (λ c. range b'0' b'9' c || range b'a' b'f' c)

-- ^/(health|api/voice/status|api/voice/next|audio/voice-[0-9]+-[0-9a-f]+\.wav)$
abbrev pub talkback_paths : Regexp
talkback_paths = seq (text (codes "/")) (
    alt (text (codes "health")) (
      alt (text (codes "api/voice/status")) (
        alt (text (codes "api/voice/next")) (
          seq (text (codes "audio/voice-")) (
            seq (plus digit)
              (seq (text (codes "-")) (seq (plus hex_digit) (text (codes ".wav")))))))))

unfoldable pub talkback_director : Upstream → Request → Request
talkback_director u r =
    let out = u.director r in
    record out { header = delete (codes "Cookie") out.header; host = u.host }

unfoldable pub talkback_modify : Response → Response
talkback_modify res = record res { header = delete (codes "Set-Cookie") res.header }

unfoldable pub talkback_handler : Upstream → (Request → Response) → Request → Served
unfolding serve_http talkback_director talkback_modify
talkback_handler u back r =
    if not (is_reading r.method)
    then refused method_not_allowed
    else let rest = trim_prefix r.path (codes "/talkback") in
      if not (match_string talkback_paths rest)
      then refused not_found
      else serve_http u (talkback_director u) talkback_modify back
          (record r { path = rest; raw_path = [] })

unfoldable pub talkback_proxy :
    (Bytes → Option Upstream) → Bytes → Option ((Request → Response) → Request → Served)
unfolding talkback_handler
talkback_proxy parse target = elim (parse target) [
  | none ↦ none
  | some u ↦ some (talkback_handler u)
]
