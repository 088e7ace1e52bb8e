-- ===== src/Host/Sending.antt =====
-- cmd/nc-host/files.go, fileOut: sending a file to a client, and the answer of the handler that takes it
-- from nc-send. What the channel, the reader and the clock do is arguments: a round is one pass of the
-- loop in send, with the answers that come in before it. An error's own words are left out.
pub mod Delivery
pub mod Receiver
use network_computer.Prelude.{
  ℕ, suc, ◌+◌, Bool, true, false, not, ◌&&◌, ◌||◌, List, [], ◌∷◌, ◌++◌, Option, none, some, length,
  is_nil, ltb, ◌==◌, if◌then◌else◌,
}
use network_computer.Prelude.Bytes.{Bytes, has_prefix, codes}
use network_computer.Prelude.Decimal.{format_int}
use network_computer.Http.Status

pub record FileHeader : Type 0 where
  pub name : Bytes
  pub size : ℕ
  pub print : Bool

-- What goes out on the channel: a header's text, the bytes of a piece, or the text "end".
pub data Sent : Type 0 where
  header : FileHeader → Sent
  piece : Bytes → Sent
  end : Sent

-- What send returns: nil, or why it failed.
pub data Outcome : Type 0 where
  delivered : Outcome
  refused : Bytes → Outcome
  cancelled : Outcome
  failed : Outcome
  unconfirmed : Outcome

-- The case of the select that a wait takes.
pub data Wake : Type 0 where
  low : Wake
  tick : Wake
  stopped : Wake
  answered : Wake

pub data ReadEnd : Type 0 where
  more : ReadEnd
  eof : ReadEnd
  broken : ReadEnd

pub record Round : Type 0 where
  pub arrived : List Bytes
  pub wakes : List Wake
  pub bytes : Bytes
  pub read_end : ReadEnd
  pub send_ok : Bool

-- How the loop ends: send returns, the reader is at its end, or there are no more rounds yet.
pub data LoopEnd : Type 0 where
  returns : Outcome → LoopEnd
  at_eof : List Bytes → LoopEnd
  reading : LoopEnd

-- OnMessage, with a channel that holds four answers.
abbrev pub on_answer : List Bytes → Bytes → List Bytes
on_answer q r = if ltb (length q) 4 then q ++ r ∷ [] else q

unfoldable pub on_answers : List Bytes → List Bytes → List Bytes
on_answers q [] = q
on_answers q (r ∷ rs) = on_answers (on_answer q r) rs

-- Waiting while too much is queued on the channel; with no wake left there is room. No answer can be
-- taken while there is none.
unfoldable pub wait_room : List Wake → List Bytes → Option Outcome
wait_room [] q = none
wait_room (low ∷ ws) q = wait_room ws q
wait_room (tick ∷ ws) q = wait_room ws q
wait_room (stopped ∷ ws) q = some cancelled
wait_room (answered ∷ ws) [] = wait_room ws []
wait_room (answered ∷ ws) (r ∷ q) = some (refused r)

-- What is read goes out as one piece.
abbrev pub piece_of : Bytes → List Sent
piece_of bytes = if is_nil bytes then [] else piece bytes ∷ []

abbrev pub after_read : ReadEnd → List Bytes → List Sent × LoopEnd → List Sent × LoopEnd
after_read more q rest = rest
after_read eof q rest = ([], at_eof q)
after_read broken q rest = ([], returns failed)

-- One round: what the wait gives, whether the piece is lost, and what follows if it goes on.
abbrev pub send_round :
    Option Outcome → Bool → Bytes → ReadEnd → List Bytes → List Sent × LoopEnd → List Sent × LoopEnd
send_round (some o) lost bytes read_end q rest = ([], returns o)
send_round none true bytes read_end q rest = ([], returns failed)
send_round none false bytes read_end q rest =
    let (sent, ended) = after_read read_end q rest in (piece_of bytes ++ sent, ended)

unfoldable pub send_rounds : List Round → List Bytes → List Sent × LoopEnd
unfolding on_answers wait_room
send_rounds [] q = ([], reading)
send_rounds (r ∷ rs) q =
    let q' = on_answers q r.arrived in
    send_round (wait_room r.wakes q') (not (is_nil r.bytes) && not r.send_ok) r.bytes r.read_end q'
      (send_rounds rs q')

-- The last select, for the answer of the client.
unfoldable pub last_answer : Wake → List Bytes → Option Outcome
last_answer low q = none
last_answer tick q = some unconfirmed
last_answer stopped q = some cancelled
last_answer answered [] = none
last_answer answered (r ∷ q) = some (if has_prefix r (codes "ok") then delivered else refused r)

-- What the connection does with the texts around the pieces, and how the last wait ends.
pub record Ending : Type 0 where
  pub header_ok : Bool
  pub end_ok : Bool
  pub arrived : List Bytes
  pub wake : Wake

abbrev pub finish_send : Ending → LoopEnd → List Sent × Option Outcome
finish_send e (returns o) = ([], some o)
finish_send e reading = ([], none)
finish_send e (at_eof q) =
    if e.end_ok then (end ∷ [], last_answer e.wake (on_answers q e.arrived)) else ([], some failed)

-- send; `left` are the answers from an earlier file, which it drops. No outcome: it has not returned.
unfoldable pub send_file :
    FileHeader → List Bytes → List Round → Ending → List Sent × Option Outcome
unfolding send_rounds last_answer
send_file hdr left rounds e =
    let (sent, ended) = send_rounds rounds [] in
    let (tail, outcome) = finish_send e ended in
    if e.header_ok then (header hdr ∷ (sent ++ tail), outcome) else ([], some failed)

-- The handler of the send socket: the request, as what it asks for and what its steps answer.
pub record Upload : Type 0 where
  pub is_put : Bool
  pub name : Bytes  -- after safeName
  pub print : Bool
  pub temp_ok : Bool
  pub copied : Option ℕ  -- the size of the body, none on an error

unfoldable pub count_delivered : List Outcome → ℕ
count_delivered [] = 0
count_delivered (delivered ∷ os) = suc (count_delivered os)
count_delivered (refused r ∷ os) = count_delivered os
count_delivered (cancelled ∷ os) = count_delivered os
count_delivered (failed ∷ os) = count_delivered os
count_delivered (unconfirmed ∷ os) = count_delivered os

abbrev pub sent_line : Bytes → Bool → ℕ → Bytes
sent_line name print n =
    (if print then codes "sent to print" else codes "sent")
    ++ (codes " " ++ (name ++ (codes " to " ++ (format_int n ++ codes " device(s)\n"))))

-- Its status and text; `outcomes` is what each device that is connected makes of the header.
unfoldable pub serve_send : Upload → (FileHeader → List Outcome) → ℕ × Bytes
unfolding count_delivered
serve_send u outcomes = elim u.copied [
  | none ↦
      (if not u.is_put || is_nil u.name
        then (Status.bad_request, codes "PUT /send?name=FILE[&print=1] with the file as the body")
        else if not u.temp_ok
        then (Status.internal_server_error, [])
        else (Status.bad_request, []))
  | some size ↦
      let os = outcomes (record { name = u.name; size = size; print = u.print }) in
      let n = count_delivered os in
      if not u.is_put || is_nil u.name
      then (Status.bad_request, codes "PUT /send?name=FILE[&print=1] with the file as the body")
      else if not u.temp_ok
      then (Status.internal_server_error, [])
      else if is_nil os
      then (Status.service_unavailable, codes "no device is connected")
      else if n == 0
      then (Status.bad_gateway, codes "the device did not take it")
      else (Status.ok, sent_line u.name u.print n)
]
