-- ===== src/Host/Sessions/Gate.antt =====
-- Who gets in: the PIN, or a pairing token that an earlier answer carried.
use network_computer.Prelude.{
  ℕ, ◌+◌, ◌/◌, ◌^◌, ◌<◌, ◌≡◌, refl, ap, Bool, true, false, ◌||◌, List, [], ◌∷◌, ◌++◌, arith, All,
  is_nil, leb,
}
use network_computer.Prelude.Assoc.{lookup}
use network_computer.Prelude.Base64.{IsByte, encode}
use network_computer.Prelude.Bytes.{Bytes, Lacks, codes}
use network_computer.Prelude.Keys.{nat_eq}
use network_computer.Proto.{Message, no_message}
use network_computer.Signed.{signed}
use network_computer.Host.Pairing
use network_computer.Host.Pairing.{pair_ttl, pair_payload, pairing_lifetime}
use network_computer.Host.Sessions.{
  Host, Setup, send, Event, offer, ice, state, joins, leaves, resize, all_ok, second, pin_ok,
  pair_ok, handle_offer, step, run, on_state, on_join, on_leave, on_resize,
}

is_nil-signed :
    (mac : Bytes → Bytes → Bytes) (secret text : Bytes) → is_nil (signed mac secret text) ≡ false
unfolding signed
is_nil-signed mac secret text = append_some (encode text) _ _
  where
    append_some : (xs : Bytes) (y : ℕ) (ys : Bytes) → is_nil (xs ++ y ∷ ys) ≡ false
    append_some [] y ys = refl
    append_some (x ∷ xs) y ys = refl

module _ (mac : Bytes → Bytes → Bytes) {O : Type 0} where
  abbrev pub admits : ℕ → Host O → Message → Bool
  admits now h m = pin_ok mac h m || pair_ok mac now h m

  -- An offer with neither the PIN nor a valid token; the other events may come as they like.
  abbrev pub Barred : Host O → ℕ × Event O → Type 0
  Barred h (now, offer setup m) = admits now h m ≡ false
  Barred h (now, ice m) = Unit {0}
  Barred h (now, state id st) = Unit {0}
  Barred h (now, joins id opts) = Unit {0}
  Barred h (now, leaves id) = Unit {0}
  Barred h (now, resize id opts) = Unit {0}

  step-Barred :
      (now : ℕ) (e : Event O) (h : Host O)
      → h.objs ≡ []
      → Barred h (now, e)
      → (step mac now e h).0 ≡ h
  unfolding step handle_offer on_state on_join on_leave on_resize lookup
  step-Barred now (offer setup m) h none_ barred = ground arith
  step-Barred now (ice m) h none_ barred = refl
  step-Barred now (state id st) h none_ barred = ground arith
  step-Barred now (joins id opts) h none_ barred = ground arith
  step-Barred now (leaves id) h none_ barred = ground arith
  step-Barred now (resize id opts) h none_ barred = ground arith

  -- While no offer carries the PIN or a valid pairing token, nothing that comes changes a host with no
  -- sessions: no session is made, and no encoder is joined, started or stopped.
  pub no_secret_no_session :
      (es : List (ℕ × Event O)) (h : Host O) → h.objs ≡ [] → All (Barred h) es → run mac es h ≡ h
  unfolding run
  no_secret_no_session [] h none_ barred = refl
  no_secret_no_session ((now, e) ∷ es) h none_ barred =
      rw (step-Barred now e h none_ barred.0) (no_secret_no_session es h none_ barred.1)

  abbrev pub answer_for : ℕ → Setup → Message → Host O → Message
  answer_for now setup m h = record no_message {
    type = codes "answer";
    to = m.from;
    sdp = setup.sdp;
    pair = Pairing.mint mac h.pairs now;
  }

  -- An offer that is let in and set up is answered with a pairing token, and a client that offers
  -- with that token and no PIN, to a host with the same name and secret, is let in exactly until its
  -- second of expiry, 90 days later; for a host name of bytes with no bar in it.
  pub paired_reconnect :
      (now later : ℕ) (setup : Setup) (m again : Message) (h h' : Host O)
      → All IsByte h.pairs.host
      → Lacks b'|' h.pairs.host
      → (now + pair_ttl) / second < 2 ^ 63
      → admits now h m ≡ true
      → setup.pc_ok ≡ true
      → all_ok setup ≡ true
      → h'.pairs ≡ h.pairs
      → again.pin ≡ []
      → again.pair ≡ Pairing.mint mac h.pairs now
      → ((handle_offer mac now setup m h).1 ≡ send (answer_for now setup m h) ∷ [])
        × (admits later h' again ≡ leb (later / second) ((now + pair_ttl) / second))
  unfolding handle_offer pin_ok pair_ok Pairing.mint
  paired_reconnect now later setup m again h h' bytes bar range let_in pc up same no_pin token =
      let lifetime = pairing_lifetime mac h.pairs now later bytes bar range in
      (
        ground arith,
        ground (
          arith,
          lifetime,
          is_nil-signed mac h.pairs.secret (pair_payload h.pairs now),
          ap (λ p. Pairing.valid mac p later again.pair) same,
          ap (Pairing.valid mac h.pairs later) token,
        ),
      )
