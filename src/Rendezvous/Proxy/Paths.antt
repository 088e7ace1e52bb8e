-- ===== src/Rendezvous/Proxy/Paths.antt =====
-- Which paths the talkback proxy lets through: the language of its pattern.
use network_computer.Prelude.{
  true, ◌≡◌, ◌↔◌, ◌⊎◌, inl, inr, refl, sym, ap, subst, ◌∙◌, none, some, if◌then◌else◌, ◌++◌, arith,
  ◌||◌, not, [],
}
use network_computer.Prelude.Assoc.{lookup}
use network_computer.Prelude.Bytes.{
  Bytes, bytes_key, bytes_eq, codes, trim_prefix, trim_prefix-append,
}
use network_computer.Prelude.Regexp.{Regexp, seq, alt, text, plus, range, match_string}
use network_computer.Prelude.Regexp.Language.{
  Matches, Some, match_string_lem, text_lem, seq_text_lem, plus_class_lem,
}
use network_computer.Rendezvous.Proxy.{
  Request, Response, Upstream, IsReverseProxy, is_reading, serve_http,
}
use network_computer.Rendezvous.Proxy.Private.{
  IsReading, is_reading_iff, Without, forward-Without, gated_sent, gated_answer, delete_same,
  delete_other, some_inj,
}
use network_computer.Rendezvous.Proxy.Talkback.{
  digit, hex_digit, talkback_paths, talkback_director, talkback_modify, talkback_handler,
}

-- What a phone may read behind /talkback.
abbrev pub Allowed : Bytes → Type 0
Allowed s =
    (s ≡ codes "/health")
    ⊎ ((s ≡ codes "/api/voice/status")
        ⊎ ((s ≡ codes "/api/voice/next")
            ⊎ ((d h : Bytes) × (s
                  ≡ codes "/audio/voice-" ++ (d ++ (codes "-" ++ (h ++ codes ".wav"))))
                × Some (range b'0' b'9') d
                × Some (λ c. range b'0' b'9' c || range b'a' b'f' c) h)))

-- What the pattern has behind the second dash.
abbrev name_end : Regexp
name_end = seq (plus hex_digit) (text (codes ".wav"))

abbrev behind_dash : Regexp
behind_dash = seq (plus digit) (seq (text (codes "-")) name_end)

abbrev behind_slash : Regexp
behind_slash = alt (text (codes "health")) (
    alt (text (codes "api/voice/status"))
      (alt (text (codes "api/voice/next")) (seq (text (codes "audio/voice-")) behind_dash)))

audio_lem :
    (s : Bytes)
    → Matches behind_dash s ↔ (
        (d h : Bytes) × (s ≡ d ++ (codes "-" ++ (h ++ codes ".wav")))
        × Some (range b'0' b'9') d
        × Some (λ c. range b'0' b'9' c || range b'a' b'f' c) h)
audio_lem s =
    let digits = plus_class_lem (range b'0' b'9') in
    let hexes = plus_class_lem (λ c. range b'0' b'9' c || range b'a' b'f' c) in
    (
      λ (d, t, e, p, q).
          let (u, e1, (h, w, e2, p2, q2)) = (seq_text_lem (codes "-") name_end t).0 q in
          (
            d,
            h,
            e
                ∙ ap (d ++◌)
                    (e1 ∙ ap (codes "-" ++◌) (e2 ∙ ap (h ++◌) ((text_lem (codes ".wav") w).0 q2))),
            (digits d).0 p,
            (hexes h).0 p2,
          ),
      λ (d, h, e, p, p2). (
        d,
        codes "-" ++ (h ++ codes ".wav"),
        e,
        (digits d).1 p,
        (seq_text_lem (codes "-") name_end _).1 (
          h ++ codes ".wav",
          refl,
          (h, codes ".wav", refl, (hexes h).1 p2, (text_lem (codes ".wav") _).1 refl),
        ),
      ),
    )

Allowed-sound : (u : Bytes) → Matches behind_slash u → Allowed (codes "/" ++ u)
Allowed-sound u (inl p) = inl (ap (codes "/" ++◌) ((text_lem (codes "health") u).0 p))
Allowed-sound u (inr (inl p)) =
    inr (inl (ap (codes "/" ++◌) ((text_lem (codes "api/voice/status") u).0 p)))
Allowed-sound u (inr (inr (inl p))) =
    inr (inr (inl (ap (codes "/" ++◌) ((text_lem (codes "api/voice/next") u).0 p))))
Allowed-sound u (inr (inr (inr p))) =
    let (v, e, q) = (seq_text_lem (codes "audio/voice-") behind_dash u).0 p in
    let (d, h, e2, digits, hexes) = (audio_lem v).0 q in
    inr (inr (inr (d, h, ap (codes "/" ++◌) (e ∙ ap (codes "audio/voice-" ++◌) e2), digits, hexes)))

slashed : (s u : Bytes) → s ≡ codes "/" ++ u → Matches behind_slash u → Matches talkback_paths s
slashed s u e m = (seq_text_lem (codes "/") behind_slash s).1 (u, e, m)

allowed_complete : (s : Bytes) → Allowed s → Matches talkback_paths s
allowed_complete s (inl e) =
    slashed s (codes "health") e (inl ((text_lem (codes "health") _).1 refl))
allowed_complete s (inr (inl e)) =
    slashed s (codes "api/voice/status") e
      (inr (inl ((text_lem (codes "api/voice/status") _).1 refl)))
allowed_complete s (inr (inr (inl e))) =
    slashed s (codes "api/voice/next") e
      (inr (inr (inl ((text_lem (codes "api/voice/next") _).1 refl))))
allowed_complete s (inr (inr (inr (d, h, e, digits, hexes)))) =
    let v = d ++ (codes "-" ++ (h ++ codes ".wav")) in
    slashed s (codes "audio/voice-" ++ v) e (
      inr (
        inr (
          inr (
            (seq_text_lem (codes "audio/voice-") behind_dash _).1
              (v, refl, (audio_lem v).1 (d, h, refl, digits, hexes))))))

-- The pattern's paths are those that a phone may read.
allowed_lem : (s : Bytes) → (match_string talkback_paths s ≡ true) ↔ Allowed s
allowed_lem s =
    let m = match_string_lem talkback_paths s in
    (
      λ h.
          let (u, e, p) = (seq_text_lem (codes "/") behind_slash s).0 (m.0 h) in
          subst Allowed (sym e) (Allowed-sound u p),
      λ a. m.1 (allowed_complete s a),
    )

-- A request to read what a phone may read, behind /talkback.
abbrev pub Asks : Bytes → Request → Type 0
Asks rest r = IsReading r.method × (r.path ≡ codes "/talkback" ++ rest) × Allowed rest

pub talkback_sent :
    (rest : Bytes) (u : Upstream) (back : Request → Response) (r q : Request)
    → r.path ≡ codes "/talkback" ++ rest
    → ((talkback_handler u back r).sent ≡ some q) ↔ (
        Asks rest r
        × (q ≡ u.forward (talkback_director u (record r { path = rest; raw_path = [] }))))
unfolding talkback_handler serve_http
talkback_sent rest u back r q e =
    let behind = trim_prefix r.path (codes "/talkback") in
    let t : behind ≡ rest = rw e (trim_prefix-append (codes "/talkback") rest) in
    (
      λ h.
          let (m, n, s) =
            gated_sent (is_reading r.method) (not (match_string talkback_paths behind)) _ q h in
          let listed : match_string talkback_paths behind ≡ true = ground arith in
          (
            ((is_reading_iff r.method).0 m, e, subst Allowed t ((allowed_lem behind).0 listed)),
            sym (some_inj s)
                ∙ ap (λ x. u.forward (talkback_director u (record r { path = x; raw_path = [] })))
                    t,
          ),
      λ ((m, _, a), q'). rw ((is_reading_iff r.method).1 m, t, (allowed_lem rest).1 a, q'),
    )

-- Of the requests under /talkback exactly those that read one of the four paths go to the talkback
-- service, and what goes, when the library has made of the request for the path behind /talkback what
-- it documents, is for the service's host, has no Cookie, and has the passphrase (Authorization) that
-- the caller sent, unless the caller's Connection names that field, which then is removed; and no
-- answer sets a cookie.
pub talkback_private :
    (rest : Bytes) (u : Upstream) (back : Request → Response) (r q : Request)
    → IsReverseProxy u
    → r.path ≡ codes "/talkback" ++ rest
    → let served = talkback_handler u back r in
      let out = u.forward (talkback_director u (record r { path = rest; raw_path = [] })) in
      ((served.sent ≡ some q) ↔ (Asks rest r × (q ≡ out)))
      × (out.host ≡ u.host)
      × Without (codes "Cookie") out.header
      × (lookup (codes "Authorization") out.header ≡ (
          if u.listed (lookup (codes "Connection") r.header) (codes "Authorization")
          then none
          else lookup (codes "Authorization") r.header))
      × Without (codes "Set-Cookie") served.answer.header
unfolding talkback_handler talkback_director talkback_modify serve_http bytes_eq
talkback_private rest u back r q p e =
    let r2 = record r { path = rest; raw_path = [] } in
    let out = talkback_director u r2 in
    let auth = delete_other _ _ _ refl ∙ p.director_field r2 (codes "Authorization") refl in
    let conn = delete_other _ _ _ refl ∙ p.director_field r2 (codes "Connection") refl in
    (
      talkback_sent rest u back r q e,
      p.forward_host out,
      forward-Without u out _ p refl (delete_same _ _),
      p.forward_field out (codes "Authorization") refl
          ∙ ap
              (λ c.
                if u.listed c (codes "Authorization")
                then none
                else lookup (codes "Authorization") out.header)
              conn
          ∙ ap
              (λ v.
                if u.listed (lookup (codes "Connection") r.header) (codes "Authorization")
                then none
                else v)
              auth,
      gated_answer _ _
          (serve_http u (talkback_director u) talkback_modify back
            (record r { path = trim_prefix r.path (codes "/talkback"); raw_path = [] }))
          (delete_same _ _),
    )
