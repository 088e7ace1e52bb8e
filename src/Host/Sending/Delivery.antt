-- ===== src/Host/Sending/Delivery.antt =====
-- What a sending that succeeds has put on the channel.
use network_computer.Prelude.{
  ◌≡◌, refl, sym, ap, ◌∙◌, Bool, true, false, not, ◌&&◌, List, [], ◌∷◌, ◌++◌, Option, none, some,
  arith, All, length, is_nil, if◌then◌else◌, Bool-cases, inl, inr, append_assoc, append-nil,
}
use network_computer.Prelude.Bytes.{Bytes, has_prefix, codes}
use network_computer.Host.Sending.{
  FileHeader, Sent, end, Outcome, delivered, Wake, Round, ReadEnd, more, eof, broken, LoopEnd,
  returns, at_eof, reading, refused, cancelled, failed, unconfirmed, low, tick, stopped, answered,
  Ending, send_rounds, send_file, finish_send, wait_room, on_answers, last_answer, piece_of,
  send_round,
}
use network_computer.Host.Sending.Receiver.{Saving, new_saving, on_saving, save_all}

abbrev pub still : ReadEnd → Bytes → Bytes
still more later = later
still eof later = []
still broken later = []

-- The bytes that are read, up to the end of the reader.
abbrev pub read_bytes : List Round → Bytes
read_bytes [] = []
read_bytes (r ∷ rs) = r.bytes ++ still r.read_end (read_bytes rs)

abbrev pub eof_queue : LoopEnd → Option (List Bytes)
eof_queue (returns o) = none
eof_queue (at_eof q) = some q
eof_queue reading = none

module _ (base : Bytes → Bytes) (write_file : Bytes → Bytes → Option Bytes) where
  save_all-append :
      (ms ns : List Sent) (v : Saving)
      → save_all base write_file (ms ++ ns) v
        ≡ save_all base write_file ns (save_all base write_file ms v)
  unfolding save_all
  save_all-append [] ns v = refl
  save_all-append (m ∷ ms) ns v = save_all-append ms ns (on_saving base write_file m v)

  save_all-piece_of :
      (bytes : Bytes) (v : Saving)
      → save_all base write_file (piece_of bytes) v ≡ record v { buf = v.buf ++ bytes }
  unfolding save_all on_saving
  save_all-piece_of [] v = ap (λ b. record v { buf = b }) (sym (append-nil v.buf))
  save_all-piece_of (x ∷ xs) v = refl

  save_all-send_round :
      (w : Option Outcome) (lost : Bool) (bytes : Bytes) (re : ReadEnd) (q q' : List Bytes)
      (rest : List Sent × LoopEnd) (later : Bytes) (v : Saving)
      → eof_queue (send_round w lost bytes re q rest).1 ≡ some q'
      → (eof_queue rest.1 ≡ some q'
          → (u : Saving) → save_all base write_file rest.0 u ≡ record u { buf = u.buf ++ later })
      → save_all base write_file (send_round w lost bytes re q rest).0 v
        ≡ record v { buf = v.buf ++ (bytes ++ still re later) }
  save_all-send_round (some o) lost bytes re q q' rest later v e goes_on =
      absurd (ground (arith, e))
  save_all-send_round none true bytes re q q' rest later v e goes_on = absurd (ground (arith, e))
  save_all-send_round none false bytes broken q q' rest later v e goes_on =
      absurd (ground (arith, e))
  save_all-send_round none false bytes eof q q' rest later v e goes_on =
      rw (append-nil (piece_of bytes), append-nil bytes) (save_all-piece_of bytes v)
  save_all-send_round none false bytes more q q' rest later v e goes_on =
      save_all-append (piece_of bytes) rest.0 v
      ∙ ap (save_all base write_file rest.0) (save_all-piece_of bytes v)
      ∙ goes_on e (record v { buf = v.buf ++ bytes })
      ∙ ap (λ b. record v { buf = b }) (append_assoc v.buf bytes later)

  -- If the loop gets to the reader's end, what it has sent are all the bytes, in order.
  save_all-send_rounds :
      (rs : List Round) (q q' : List Bytes) (v : Saving)
      → eof_queue (send_rounds rs q).1 ≡ some q'
      → save_all base write_file (send_rounds rs q).0 v ≡ record v { buf = v.buf ++ read_bytes rs }
  unfolding send_rounds
  save_all-send_rounds [] q q' v e = absurd (ground (arith, e))
  save_all-send_rounds (r ∷ rs) q q' v e =
      let q1 = on_answers q r.arrived in
      save_all-send_round (wait_room r.wakes q1) (not (is_nil r.bytes) && not r.send_ok) r.bytes
        r.read_end q1 q' (send_rounds rs q1) (read_bytes rs) v e
        (λ e u. save_all-send_rounds rs q1 q' u e)

abbrev is_delivered : Option Outcome → Bool
is_delivered (some delivered) = true
is_delivered (some (refused r)) = false
is_delivered (some cancelled) = false
is_delivered (some failed) = false
is_delivered (some unconfirmed) = false
is_delivered none = false

abbrev loop_delivered : LoopEnd → Bool
loop_delivered (returns o) = is_delivered (some o)
loop_delivered (at_eof q) = false
loop_delivered reading = false

wait_room-delivered : (ws : List Wake) (q : List Bytes) → is_delivered (wait_room ws q) ≡ false
unfolding wait_room
wait_room-delivered [] q = refl
wait_room-delivered (low ∷ ws) q = wait_room-delivered ws q
wait_room-delivered (tick ∷ ws) q = wait_room-delivered ws q
wait_room-delivered (stopped ∷ ws) q = refl
wait_room-delivered (answered ∷ ws) [] = wait_room-delivered ws []
wait_room-delivered (answered ∷ ws) (r ∷ q) = refl

send_round-delivered :
    (w : Option Outcome) (lost : Bool) (bytes : Bytes) (re : ReadEnd) (q : List Bytes)
    (rest : List Sent × LoopEnd)
    → is_delivered w ≡ false
    → loop_delivered rest.1 ≡ false
    → loop_delivered (send_round w lost bytes re q rest).1 ≡ false
send_round-delivered (some o) lost bytes re q rest not_w not_rest = not_w
send_round-delivered none true bytes re q rest not_w not_rest = refl
send_round-delivered none false bytes more q rest not_w not_rest = not_rest
send_round-delivered none false bytes eof q rest not_w not_rest = refl
send_round-delivered none false bytes broken q rest not_w not_rest = refl

send_rounds-delivered :
    (rs : List Round) (q : List Bytes) → loop_delivered (send_rounds rs q).1 ≡ false
unfolding send_rounds
send_rounds-delivered [] q = refl
send_rounds-delivered (r ∷ rs) q =
    let q1 = on_answers q r.arrived in
    send_round-delivered (wait_room r.wakes q1) (not (is_nil r.bytes) && not r.send_ok) r.bytes
      r.read_end q1 (send_rounds rs q1) (wait_room-delivered r.wakes q1)
      (send_rounds-delivered rs q1)

-- Only behind "end" can a sending succeed.
finish_send-delivered :
    (e : Ending) (l : LoopEnd)
    → loop_delivered l ≡ false
    → (finish_send e l).1 ≡ some delivered
    → (q : List Bytes) × (eof_queue l ≡ some q) × ((finish_send e l).0 ≡ end ∷ [])
finish_send-delivered e (returns o) not_l d = absurd (ground (arith, ap is_delivered d, not_l))
finish_send-delivered e reading not_l d = absurd (ground (arith, d))
finish_send-delivered e (at_eof q) not_l d = (q, refl, ground (arith, d))

module _ (base : Bytes → Bytes) (write_file : Bytes → Bytes → Option Bytes) (hdr : FileHeader) where
  abbrev named : Saving
  named = record new_saving { name = base hdr.name; size = hdr.size }

  -- A device that has got the header, all bytes of the size, and "end".
  save_all-end :
      (data_ : Bytes)
      → is_nil (base hdr.name) ≡ false
      → length data_ ≡ hdr.size
      → write_file (base hdr.name) data_ ≡ some data_
      → let v = on_saving base write_file end (record named { buf = data_ }) in
        (v.saved ≡ (base hdr.name, data_) ∷ []) × (v.replies ≡ (codes "ok " ++ base hdr.name) ∷ [])
  unfolding on_saving
  save_all-end data_ some_name full wrote = ground arith

  -- Whatever the channel, the clock and the client do, and whatever answers were left from an earlier
  -- file: if send succeeds, a device that has taken what was sent has saved exactly the bytes that were
  -- read, under the file's name, once, and answers ok; for a name that is not empty, a reader that
  -- gives as many bytes as announced, and a device whose write succeeds.
  pub delivered_saved :
      (left : List Bytes) (rs : List Round) (e : Ending)
      → (send_file hdr left rs e).1 ≡ some delivered
      → is_nil (base hdr.name) ≡ false
      → length (read_bytes rs) ≡ hdr.size
      → write_file (base hdr.name) (read_bytes rs) ≡ some (read_bytes rs)
      → let v = save_all base write_file (send_file hdr left rs e).0 new_saving in
        (v.saved ≡ (base hdr.name, read_bytes rs) ∷ [])
        × (v.replies ≡ (codes "ok " ++ base hdr.name) ∷ [])
  unfolding send_file save_all on_saving
  delivered_saved left rs e d some_name full wrote = elim (Bool-cases e.header_ok) [
    | inl ok ↦
        let (q', at_end, tail) =
          finish_send-delivered e (send_rounds rs []).1 (send_rounds-delivered rs [])
            (ground (arith, d, ok)) in
        let seen : save_all base write_file (send_file hdr left rs e).0 new_saving
            ≡ on_saving base write_file end (record named { buf = read_bytes rs }) =
          rw (ok, send_file, tail)
            (save_all-append base write_file (send_rounds rs []).0 (end ∷ []) named
              ∙ ap (on_saving base write_file end)
                  (save_all-send_rounds base write_file rs [] q' named at_end)) in
        rw seen (save_all-end (read_bytes rs) some_name full wrote)
    | inr bad ↦ absurd (ground (arith, d, bad))
  ]

-- A round in which nothing has to be waited for and nothing fails.
abbrev pub IsSmooth : Round → Type 0
IsSmooth r = (r.arrived ≡ []) × (r.wakes ≡ []) × (r.send_ok ≡ true) × (r.read_end ≡ more)

abbrev pub IsLastRound : Round → Type 0
IsLastRound r = (r.arrived ≡ []) × (r.wakes ≡ []) × (r.send_ok ≡ true) × (r.read_end ≡ eof)

send_rounds-at_eof :
    (rs : List Round) (last : Round)
    → All IsSmooth rs
    → IsLastRound last
    → (send_rounds (rs ++ last ∷ []) []).1 ≡ at_eof []
unfolding send_rounds wait_room on_answers
send_rounds-at_eof [] last smooth (a, b, c, d) = rw (a, b, c, d) (ground arith)
send_rounds-at_eof (r ∷ rs) last ((a, b, c, d), smooth) l =
    rw (a, b, c, d) (ground (arith, send_rounds-at_eof rs last smooth l))

-- When nothing has to be waited for and nothing fails, send does return, with what the client's answer
-- says; answers left from an earlier file do not count.
pub smooth_answer :
    (hdr : FileHeader) (left : List Bytes) (rs : List Round) (last : Round) (e : Ending) (r : Bytes)
    → All IsSmooth rs
    → IsLastRound last
    → e.header_ok ≡ true
    → e.end_ok ≡ true
    → e.arrived ≡ r ∷ []
    → e.wake ≡ answered
    → (send_file hdr left (rs ++ last ∷ []) e).1
      ≡ some (if has_prefix r (codes "ok") then delivered else refused r)
unfolding send_file last_answer on_answers
smooth_answer hdr left rs last e r smooth l a b c d =
    rw (send_rounds-at_eof rs last smooth l, a, b, c, d) refl
